-- ===== src/Common/OrderedMap.antt =====
-- `std::map` as a list of entries by ascending keys.
pub mod Keys
use iceberg_cxx.Common.Tests.{if◌then◌else◌, Bool-cases}
use iceberg_cxx.Common.Sequences.{Among}
use mathlib.Core.Path.{◌≡◌, ap}
use mathlib.Core.Logic.{◌⊎◌, inl, inr}
use mathlib.Core.Bool.{Bool, true, false, ◌||◌, not}
use mathlib.Core.List.{List, [], ◌∷◌}
use native.Mathlib.Omega.{arith}

-- The comparison of the keys, and what equal keys are.
pub record KeyOrder (K : Type 0) : Type 0 where
  pub lt : K → K → Bool
  pub eqb : K → K → Bool
  pub asym : (a b : K) → lt a b ≡ true → lt b a ≡ false
  pub not_lt_trans : (a b c : K) → lt b a ≡ false → lt c b ≡ false → lt c a ≡ false
  pub eqb-not_lt : (a b : K) → eqb a b ≡ not (lt a b || lt b a)

module _ {K V : Type 0} (order : KeyOrder K) (default : V) where
  -- `f(map[key])`: an absent key is inserted with the default value first.
  unfoldable pub update : K → (V → V) → List (K × V) → List (K × V)
  update key f [] = (key, f default) ∷ []
  update key f ((k, v) ∷ entries) =
      let rest = update key f entries in
      if order.lt key k
      then (key, f default) ∷ (k, v) ∷ entries
      else if order.lt k key
      then (k, v) ∷ rest
      else (k, f v) ∷ entries

  -- The value at a key, or the default value.
  unfoldable pub find : K → List (K × V) → V
  find key [] = default
  find key ((k, v) ∷ entries) =
      let rest = find key entries in
      if order.lt key k then default else if order.lt k key then rest else v

  pub find-update :
      (j k : K) (f : V → V) (m : List (K × V))
      → find j (update k f m) ≡ (if order.eqb k j then f (find k m) else find j m)
  unfolding find update
  find-update j k f [] = ground (arith, order.eqb-not_lt k j)
  find-update j k f ((k', v) ∷ m) = ground (
    arith,
    find-update j k f m,
    order.eqb-not_lt k j,
    order.asym k k',
    order.asym k' k,
    order.asym j k,
    order.asym k j,
    order.asym j k',
    order.asym k' j,
    order.not_lt_trans j k k',
    order.not_lt_trans k j k',
    order.not_lt_trans k' j k,
    order.not_lt_trans k' k j,
    order.not_lt_trans j k' k,
    order.not_lt_trans k k' j,
  )

  -- The keys strictly ascend.
  abbrev pub After : K → List (K × V) → Type 0
  After key [] = Unit
  After key ((k, v) ∷ entries) = (order.lt key k ≡ true) × After key entries

  abbrev pub Ascends : List (K × V) → Type 0
  Ascends [] = Unit
  Ascends ((k, v) ∷ entries) = After k entries × Ascends entries

  lt_trans : (a b c : K) → order.lt a b ≡ true → order.lt b c ≡ true → order.lt a c ≡ true
  lt_trans a b c h k = ground (
    arith,
    order.asym a b,
    order.asym b c,
    order.not_lt_trans b a c,
    order.not_lt_trans c b a,
    order.not_lt_trans a c b,
    order.not_lt_trans b c a,
  )

  After-weaken : (a b : K) (m : List (K × V)) → order.lt a b ≡ true → After b m → After a m
  After-weaken a b [] h after = tt
  After-weaken a b ((k, v) ∷ m) h (first, rest) =
      (lt_trans a b k h first, After-weaken a b m h rest)

  After-update :
      (a key : K) (f : V → V) (m : List (K × V))
      → order.lt a key ≡ true
      → After a m
      → After a (update key f m)
  unfolding update
  After-update a key f [] h after = (h, tt)
  After-update a key f ((k, v) ∷ m) h (first, rest) = elim (Bool-cases (order.lt key k)) [
    | inl below ↦ rw below (h, (first, rest))
    | inr not_below ↦ elim (Bool-cases (order.lt k key)) [
      | inl above ↦ rw (not_below, above) (first, After-update a key f m h rest)
      | inr same ↦ rw (not_below, same) (first, rest)
    ]
  ]

  pub update-Ascends :
      (key : K) (f : V → V) (m : List (K × V)) → Ascends m → Ascends (update key f m)
  unfolding update
  update-Ascends key f [] ascends = (tt, tt)
  update-Ascends key f ((k, v) ∷ m) (first, rest) = elim (Bool-cases (order.lt key k)) [
    | inl below ↦ rw below ((below, After-weaken key k m below first), (first, rest))
    | inr not_below ↦ elim (Bool-cases (order.lt k key)) [
      | inl above ↦
          rw (not_below, above) (After-update k key f m above first, update-Ascends key f m rest)
      | inr same ↦ rw (not_below, same) (first, rest)
    ]
  ]

  pub After-Among :
      (a key : K) (value : V) (m : List (K × V))
      → After a m
      → Among (key, value) m
      → order.lt a key ≡ true
  After-Among a key value [] after among = elim among [ ]
  After-Among a key value ((k, v) ∷ m) (first, rest) (inl same) =
      rw (← ap (λ (e : K × V). e.0) same) first
  After-Among a key value ((k, v) ∷ m) (first, rest) (inr later) =
      After-Among a key value m rest later

  -- An entry of the map is found at its key.
  pub find-Among :
      (key : K) (value : V) (m : List (K × V))
      → Ascends m
      → Among (key, value) m
      → find key m ≡ value
  unfolding find
  find-Among key value [] ascends among = elim among [ ]
  find-Among key value ((k, v) ∷ m) (first, rest) (inl same) =
      let here : k ≡ key = ap (λ (e : K × V). e.0) same in
      let there : v ≡ value = ap (λ (e : K × V). e.1) same in
      rw here (ground (arith, order.asym key key))
  find-Among key value ((k, v) ∷ m) (first, rest) (inr later) =
      let above = After-Among k key value m first later in
      ground (arith, order.asym k key, find-Among key value m rest later)

  abbrev pub AllValues : (V → Type 0) → List (K × V) → Type 0
  AllValues P [] = Unit
  AllValues P ((k, v) ∷ entries) = P v × AllValues P entries

  pub AllValues-update :
      (P : V → Type 0) (key : K) (f : V → V) (m : List (K × V))
      → P default
      → ((v : V) → P v → P (f v))
      → AllValues P m
      → AllValues P (update key f m)
  unfolding update
  AllValues-update P key f [] base keep all = (keep default base, tt)
  AllValues-update P key f ((k, v) ∷ m) base keep (first, rest) =
      elim (Bool-cases (order.lt key k)) [
        | inl below ↦ rw below (keep default base, (first, rest))
        | inr not_below ↦ elim (Bool-cases (order.lt k key)) [
          | inl above ↦ rw (not_below, above) (first, AllValues-update P key f m base keep rest)
          | inr same ↦ rw (not_below, same) (keep v first, rest)
        ]
      ]

  -- What a search that starts at an entry finds, if it is not the default value.
  pub find-cases :
      (P : V → Type 0) (key k : K) (v : V) (m : List (K × V))
      → (P default → ⊥)
      → P (find key ((k, v) ∷ m))
      → ((order.lt k key ≡ true) × P (find key m))
        ⊎ ((order.lt k key ≡ false) × (order.lt key k ≡ false) × P v)
  unfolding find
  find-cases P key k v m none h = elim (Bool-cases (order.lt key k)) [
    | inl below ↦ absurd (none (rw below at h))
    | inr not_below ↦ elim (Bool-cases (order.lt k key)) [
      | inl above ↦ inl (above, rw (not_below, above) at h)
      | inr same ↦ inr (same, not_below, rw (not_below, same) at h)
    ]
  ]
