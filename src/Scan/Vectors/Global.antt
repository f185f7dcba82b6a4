-- ===== src/Scan/Vectors/Global.antt =====
-- What `ApplyGlobalEqualityDeletes` of iceberg/tea_scan.cpp adds to the layers of a partition.
use iceberg_cxx.Common.{
  ◌≡◌, refl, sym, ◌∙◌, inl, inr, List, [], ◌∷◌, ◌++◌, arith, if◌then◌else◌, Bool-cases,
}
use mathlib.Core.List.{append-nil, append_assoc}
use iceberg_cxx.Common.Int.{ℤ, eqb_ℤ, eq_of_parts}
use iceberg_cxx.Common.OrderedMap.{update, find, find-update}
use iceberg_cxx.Scan.{EqualityDeleteInfo, LayerWithExtraInfo, empty_layer}
use iceberg_cxx.Scan.MapKeys.{number_order}
use iceberg_cxx.Scan.Dangling.{Layers}
use iceberg_cxx.Scan.Vectors.{apply_global_equality_deletes}

-- The global deletes of a number.
pub global_at : ℤ → List (ℤ × List EqualityDeleteInfo) → List EqualityDeleteInfo
global_at number [] = []
global_at number ((n, deletes) ∷ others) =
    (if eqb_ℤ n number then deletes else []) ++ global_at number others

-- The layer after it was given equality deletes, and nothing else.
abbrev pub GivesDeletes : LayerWithExtraInfo → LayerWithExtraInfo → List EqualityDeleteInfo → Type 0
GivesDeletes before after deletes =
    (after.equality_delete_entries ≡ before.equality_delete_entries ++ deletes)
    × (after.data_entries ≡ before.data_entries)
    × (after.positional_delete_entries ≡ before.positional_delete_entries)
    × (after.dv_entries ≡ before.dv_entries)

update-GivesDeletes :
    (n number : ℤ) (deletes : List EqualityDeleteInfo) (layers : Layers)
    → GivesDeletes
        (find number_order empty_layer number layers)
        (find number_order empty_layer number (
          update number_order empty_layer n
            (λ l. record l { equality_delete_entries = l.equality_delete_entries ++ deletes })
            layers))
        (if eqb_ℤ n number then deletes else [])
update-GivesDeletes n number deletes layers =
    let l = find number_order empty_layer number layers in
    rw (find-update number_order empty_layer number n _ layers)
      (elim (Bool-cases (eqb_ℤ n number)) [
        | inl at ↦
            let same : n ≡ number = eq_of_parts n number (ground arith) in
            rw (at, same) (refl, refl, refl, refl)
        | inr elsewhere ↦
            rw elsewhere (sym (append-nil l.equality_delete_entries), refl, refl, refl)
      ])

-- In every partition, the layer of a sequence number gets the global equality deletes of that number
-- behind its own, whether it was there before or not, and nothing else of it changes.
pub apply_global_equality_deletes-GivesDeletes :
    (global : List (ℤ × List EqualityDeleteInfo)) (layers : Layers) (number : ℤ)
    → GivesDeletes
        (find number_order empty_layer number layers)
        (find number_order empty_layer number (apply_global_equality_deletes global layers))
        (global_at number global)
unfolding apply_global_equality_deletes global_at
apply_global_equality_deletes-GivesDeletes [] layers number = (
  sym (append-nil (find number_order empty_layer number layers).equality_delete_entries),
  refl,
  refl,
  refl,
)
apply_global_equality_deletes-GivesDeletes ((n, deletes) ∷ others) layers number =
    let next =
      update number_order empty_layer n
        (λ (l : LayerWithExtraInfo). record l {
          equality_delete_entries = l.equality_delete_entries ++ deletes;
        })
        layers in
    let (h, k, l, m) = update-GivesDeletes n number deletes layers in
    let (h', k', l', m') = apply_global_equality_deletes-GivesDeletes others next number in
    let own = (find number_order empty_layer number layers).equality_delete_entries in
    (
      h'
          ∙ rw h
              (append_assoc own (if eqb_ℤ n number then deletes else []) (global_at number others)),
      k' ∙ k,
      l' ∙ l,
      m' ∙ m,
    )
