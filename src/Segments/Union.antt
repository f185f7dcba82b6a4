-- ===== src/Segments/Union.antt =====
-- UniteSegments of iceberg/experimental_representations.cpp covers the same bytes with segments that
-- do not touch.
use iceberg_cxx.Common.{
  ℕ, ◌+◌, ◌-◌, ◌≤◌, ◌<◌, ◌≡◌, refl, ap, ◌∙◌, inl, inr, Bool, true, false, ◌&&◌, ◌||◌, Option, some,
  List, [], ◌∷◌, arith, ltb, leb, ◌==◌, Bool-cases, All,
}
use iceberg_cxx.Segments.{
  Segment, validate_segments, end_of, int64_limit, maximum, unite_loop, unite_segments,
}

-- A byte of the file is in a segment, or in one of several.
abbrev pub in_segment : ℕ → Segment → Bool
in_segment x s = leb s.offset x && (s.length == 0 || ltb x (s.offset + s.length))

unfoldable pub covers : List Segment → ℕ → Bool
covers [] x = false
covers (s ∷ segments) x = in_segment x s || covers segments x

-- Behind every segment but the last there is a byte before the next one.
abbrev pub Separated : List Segment → Type 0
Separated [] = Unit
Separated (s ∷ []) = Unit
Separated (s ∷ t ∷ segments) =
    (0 < s.length) × (s.offset + s.length < t.offset) × Separated (t ∷ segments)

abbrev pub Fits : Segment → Type 0
Fits s = s.offset + s.length < int64_limit

abbrev Sorted : ℕ → List Segment → Type 0
Sorted first [] = Unit
Sorted first (s ∷ segments) = (first ≤ s.offset) × Sorted s.offset segments

abbrev Starts : ℕ → List Segment → Type 0
Starts first [] = ⊥
Starts first (s ∷ segments) = s.offset ≡ first

Sorted-weaken : (a b : ℕ) (segments : List Segment) → a ≤ b → Sorted b segments → Sorted a segments
Sorted-weaken a b [] h s = tt
Sorted-weaken a b (t ∷ segments) h (k, s) = (omega arith, s)

covers-from :
    (first : ℕ) (segments : List Segment) (x : ℕ)
    → Sorted first segments
    → covers segments x ≡ true
    → leb first x ≡ true
unfolding covers
covers-from first [] x s h = cc
covers-from first (t ∷ segments) x (k, s) h = ground (arith, covers-from t.offset segments x s)

end_of-Fits : (s : Segment) → Fits s → end_of s ≡ some (s.offset + s.length)
unfolding end_of
end_of-Fits s h = ground arith

-- What the loop gives.
abbrev Unites : Segment → List Segment → Option (List Segment) → Type 0
Unites back parts out =
    (united : List Segment) × (out ≡ some united)
    × ((x : ℕ) → covers united x ≡ (in_segment x back || covers parts x))
    × Separated united
    × Starts back.offset united

Separated-cons :
    (s : Segment) (first : ℕ) (segments : List Segment)
    → 0 < s.length
    → s.offset + s.length < first
    → Starts first segments
    → Separated segments
    → Separated (s ∷ segments)
Separated-cons s first [] h k e a = tt
Separated-cons s first (t ∷ segments) h k e a = (h, omega arith, a)

-- A segment up to the end of the file leaves nothing to those behind it.
swallows :
    (back part : Segment) (parts : List Segment) (x : ℕ)
    → back.length == 0 ≡ true
    → back.offset ≤ part.offset
    → Sorted part.offset parts
    → (in_segment x back || false) ≡ (in_segment x back || (in_segment x part || covers parts x))
swallows back part parts x e k s = ground (arith, covers-from part.offset parts x s)

-- Joining a segment with one that it reaches.
joins_end :
    (back part : Segment) (x : ℕ) (c : Bool)
    → back.offset ≤ part.offset
    → leb part.offset (back.offset + back.length) ≡ true
    → part.length == 0 ≡ true
    → (in_segment x (record back { length = 0 }) || c)
      ≡ (in_segment x back || (in_segment x part || c))
joins_end back part x c k h u = ground arith

abbrev joined : Segment → Segment → Segment
joined back part = record back {
  length = maximum (back.offset + back.length) (part.offset + part.length) - back.offset;
}

joins :
    (back part : Segment) (x : ℕ) (c : Bool)
    → back.offset ≤ part.offset
    → (back.length == 0) ≡ false
    → leb part.offset (back.offset + back.length) ≡ true
    → (part.length == 0) ≡ false
    → (in_segment x (joined back part) || c) ≡ (in_segment x back || (in_segment x part || c))
joins back part x c k e h u = ground arith

joined-Fits : (back part : Segment) → Fits back → Fits part → Fits (joined back part)
joined-Fits back part f g = ground arith

unite_loop-Unites :
    (parts : List Segment) (back : Segment)
    → Sorted back.offset parts
    → Fits back
    → All Fits parts
    → Unites back parts (unite_loop back parts)
unfolding unite_loop covers
unite_loop-Unites [] back s f fs = (back ∷ [], refl, (λ x. refl), tt, refl)
unite_loop-Unites (part ∷ parts) back (k, s) f (g, fs) = elim (Bool-cases (back.length == 0)) [
  | inl e ↦ (back ∷ [], rw (unite_loop, e) refl, (λ x. swallows back part parts x e k s), tt, refl)
  | inr e ↦ elim (Bool-cases (leb part.offset (back.offset + back.length))) [
    | inl h ↦ elim (Bool-cases (part.length == 0)) [
      | inl u ↦
          let (united, out, same, gaps, starts) =
            unite_loop-Unites parts (record back { length = 0 })
              (Sorted-weaken back.offset part.offset parts k s) (omega arith) fs in
          (
            united,
            rw (unite_loop, e, end_of-Fits back f, h, u) out,
            (λ x. same x ∙ joins_end back part x (covers parts x) k h u),
            gaps,
            starts,
          )
      | inr u ↦
          let (united, out, same, gaps, starts) =
            unite_loop-Unites parts (joined back part)
              (Sorted-weaken back.offset part.offset parts k s) (joined-Fits back part f g) fs in
          (
            united,
            rw (unite_loop, e, end_of-Fits back f, h, u, end_of-Fits part g) out,
            (λ x. same x ∙ joins back part x (covers parts x) k e h u),
            gaps,
            starts,
          )
    ]
    | inr h ↦
        let (united, out, same, gaps, starts) = unite_loop-Unites parts part s g fs in
        (
          back ∷ united,
          rw (unite_loop, e, end_of-Fits back f, h, out) refl,
          (λ x. ap (λ c. in_segment x back || c) (same x)),
          Separated-cons back part.offset united (ground arith) (ground arith) starts gaps,
          refl,
        )
  ]
]

validate_segments-Sorted :
    (s : Segment) (segments : List Segment)
    → validate_segments (s ∷ segments) ≡ true
    → Sorted s.offset segments
unfolding validate_segments
validate_segments-Sorted s [] h = tt
validate_segments-Sorted s (t ∷ segments) h =
    (ground arith, validate_segments-Sorted t segments (ground arith))

-- Segments in order whose ends fit in 64 bits are united: the result covers the same bytes of the
-- file, up to the end of it if one of them is, and its segments do not overlap or touch.
pub unite_segments-covers :
    (segments : List Segment)
    → validate_segments segments ≡ true
    → All Fits segments
    → (united : List Segment) × (unite_segments segments ≡ some united)
      × ((x : ℕ) → covers united x ≡ covers segments x)
      × Separated united
unfolding unite_segments covers
unite_segments-covers [] h f = ([], refl, (λ x. refl), tt)
unite_segments-covers (s ∷ segments) h (f, fs) =
    let (united, out, same, gaps, starts) =
      unite_loop-Unites segments s (validate_segments-Sorted s segments h) f fs in
    (united, rw (unite_segments, h) out, same, gaps)
