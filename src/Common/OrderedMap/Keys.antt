-- ===== src/Common/OrderedMap/Keys.antt =====
-- The keys of a `std::map`: `contains`, and an insertion at a key that is not there.
use iceberg_cxx.Common.Tests.{if◌then◌else◌, Bool-cases}
use iceberg_cxx.Common.Sequences.{Among}
use iceberg_cxx.Common.OrderedMap.{KeyOrder, update, find}
use mathlib.Core.Path.{◌≡◌, refl}
use mathlib.Core.Logic.{◌⊎◌, inl, inr, ◌↔◌}
use mathlib.Core.Bool.{Bool, true, false, ◌||◌}
use mathlib.Core.List.{List, [], ◌∷◌}
use native.Mathlib.Omega.{arith}

module _ {K V : Type 0} (order : KeyOrder K) where
  unfoldable pub contains : K → List (K × V) → Bool
  contains key [] = false
  contains key ((k, v) ∷ entries) =
      let rest = contains key entries in
      if order.lt key k then false else if order.lt k key then rest else true

  pub contains-update :
      (default : V) (j k : K) (f : V → V) (m : List (K × V))
      → contains j (update order default k f m) ≡ (order.eqb k j || contains j m)
  unfolding contains update
  contains-update default j k f [] = ground (arith, order.eqb-not_lt k j)
  contains-update default j k f ((k', v) ∷ m) = ground (
    arith,
    contains-update default j k f m,
    order.eqb-not_lt k j,
    order.asym k k',
    order.asym k' k,
    order.asym j k,
    order.asym k j,
    order.asym j k',
    order.asym k' j,
    order.not_lt_trans j k k',
    order.not_lt_trans k j k',
    order.not_lt_trans k' j k,
    order.not_lt_trans k' k j,
    order.not_lt_trans j k' k,
    order.not_lt_trans k k' j,
  )

  -- At a key that is not there, the entry is added and the others stay.
  pub Among-update :
      (default : V) (x : K × V) (key : K) (f : V → V) (m : List (K × V))
      → contains key m ≡ false
      → Among x (update order default key f m) ↔ (((key, f default) ≡ x) ⊎ Among x m)
  unfolding contains update
  Among-update default x key f [] absent = (λ h. h, λ h. h)
  Among-update default x key f ((k, v) ∷ m) absent = elim (Bool-cases (order.lt key k)) [
    | inl below ↦ rw below (λ h. h, λ h. h)
    | inr not_below ↦ elim (Bool-cases (order.lt k key)) [
      | inl above ↦
          let (there, back) = Among-update default x key f m (rw (not_below, above) at absent) in
          rw (not_below, above)
            (
              λ h. elim h [
                | inl same ↦ inr (inl same)
                | inr later ↦ elim (there later) [ inl new ↦ inl new | inr old ↦ inr (inr old) ]
              ],
              λ h. elim h [
                | inl new ↦ inr (back (inl new))
                | inr (inl same) ↦ inl same
                | inr (inr old) ↦ inr (back (inr old))
              ],
            )
      | inr same ↦ let wrong : true ≡ false = rw (not_below, same) at absent in cc
    ]
  ]

  pub find-absent :
      (default : V) (key : K) (m : List (K × V))
      → contains key m ≡ false
      → find order default key m ≡ default
  unfolding contains find
  find-absent default key [] absent = refl
  find-absent default key ((k, v) ∷ m) absent = ground (arith, find-absent default key m)
