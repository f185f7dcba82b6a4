-- ===== src/Scan/Planner/Deletes.antt =====
-- What every positional delete that `ScanMetadataBuilder` of iceberg/tea_scan.cpp has stored satisfies
-- is kept by the first steps of its `GetResult`.
use iceberg_cxx.Common.{
  ◌≡◌, refl, ap, inl, inr, List, [], ◌∷◌, ◌++◌, All, ok, >>=-eq-ok, eq_of_ok-eq-ok,
}
use iceberg_cxx.Common.Int.{ℤ}
use iceberg_cxx.Common.Sequences
use iceberg_cxx.Common.Sequences.{Among}
use iceberg_cxx.Common.OrderedMap
use iceberg_cxx.Common.OrderedMap.{KeyOrder, AllValues, Ascends, find, find-Among}
use iceberg_cxx.Filter.Value.{Bytes}
use iceberg_cxx.Scan.{
  PositionalDeleteWithExtraInfo, EqualityDeleteInfo, LayerWithExtraInfo, empty_layer,
}
use iceberg_cxx.Scan.MapKeys.{key_order, number_order}
use iceberg_cxx.Scan.Optimizer.Ranges.{EveryDelete}
use iceberg_cxx.Scan.Dangling.{Layers, Partitions, values, map_to_vec}
use iceberg_cxx.Scan.Builder.{Builder}
use iceberg_cxx.Scan.Builder.Stored.{layer_at}
use iceberg_cxx.Scan.Builder.Keys.{HasOrder}
use iceberg_cxx.Scan.Vectors.{
  CurrentDvs, apply_global_equality_deletes, collect_dvs, resolve_entries, resolve_layers,
  resolve_deletion_vectors, resolve_partitions,
}

module _ {K V : Type 0} (order : KeyOrder K) (default : V) (P : V → Type 0) where
  AllValues-intro :
      (m : List (K × V)) → ((k : K) (v : V) → Among (k, v) m → P v) → AllValues order default P m
  AllValues-intro [] h = tt
  AllValues-intro ((k, v) ∷ m) h =
      (h k v (inl refl), AllValues-intro m (λ j w later. h j w (inr later)))

  AllValues-Among :
      (m : List (K × V)) (k : K) (v : V) → AllValues order default P m → Among (k, v) m → P v
  AllValues-Among [] k v all among = absurd among
  AllValues-Among ((j, w) ∷ m) k v (first, rest) (inl same) =
      let value : w ≡ v = ap (λ (e : K × V). e.1) same in rw (← value) first
  AllValues-Among ((j, w) ∷ m) k v (first, rest) (inr later) = AllValues-Among m k v rest later

module _ (P : PositionalDeleteWithExtraInfo → Type 0) where
  abbrev EveryOf : LayerWithExtraInfo → Type 0
  EveryOf l = All P l.positional_delete_entries

  abbrev EveryIn : Layers → Type 0
  EveryIn layers = AllValues number_order empty_layer EveryOf layers

  -- Every positional delete of the maps satisfies `P`.
  abbrev pub EveryStored : Partitions → Type 0
  EveryStored partitions = AllValues key_order [] EveryIn partitions

  pub EveryStored-of_layer_at :
      (b : Builder)
      → HasOrder b
      → ((key : Bytes) (number : ℤ) (del : PositionalDeleteWithExtraInfo)
          → Among del (layer_at key number b).positional_delete_entries
          → P del)
      → EveryStored b.partitions
  unfolding layer_at
  EveryStored-of_layer_at b (keys, numbers) h =
      AllValues-intro key_order [] EveryIn b.partitions (λ key layers has_key.
        let ascends =
          AllValues-Among key_order [] (Ascends number_order empty_layer) b.partitions key layers
            numbers has_key in
        let at_key = find-Among key_order [] key layers b.partitions keys has_key in
        AllValues-intro number_order empty_layer EveryOf layers (λ number l has_number.
          let at_number = find-Among number_order empty_layer number l layers ascends has_number in
          Sequences.All-intro P l.positional_delete_entries
            (λ del among. h key number del (rw (at_key, at_number) among))))

  global-EveryIn :
      (global : List (ℤ × List EqualityDeleteInfo)) (layers : Layers)
      → EveryIn layers
      → EveryIn (apply_global_equality_deletes global layers)
  unfolding apply_global_equality_deletes
  global-EveryIn [] layers every = every
  global-EveryIn ((number, deletes) ∷ global) layers every = global-EveryIn global _ (
      OrderedMap.AllValues-update number_order empty_layer EveryOf number
        (λ l. record l { equality_delete_entries = l.equality_delete_entries ++ deletes }) layers tt
        (λ l all. all) every)

  resolve_layers-EveryIn :
      (current_dvs : CurrentDvs) (layers : Layers) {out : Layers}
      → resolve_layers current_dvs layers ≡ ok out
      → EveryIn layers
      → EveryIn out
  unfolding resolve_layers
  resolve_layers-EveryIn current_dvs [] run every = rw (← eq_of_ok-eq-ok run) tt
  resolve_layers-EveryIn current_dvs ((number, l) ∷ layers) run (first, rest) =
      let (entries, resolved, more) =
        >>=-eq-ok (resolve_entries current_dvs number l l.data_entries) _ run in
      let (others, later, last) = >>=-eq-ok (resolve_layers current_dvs layers) _ more in
      rw (← eq_of_ok-eq-ok last) (first, resolve_layers-EveryIn current_dvs layers later rest)

  pub resolve_partitions-EveryStored :
      (global : List (ℤ × List EqualityDeleteInfo)) (partitions : Partitions) {out : Partitions}
      → resolve_partitions global partitions ≡ ok out
      → EveryStored partitions
      → EveryStored out
  unfolding resolve_partitions resolve_deletion_vectors
  resolve_partitions-EveryStored global [] run every = rw (← eq_of_ok-eq-ok run) tt
  resolve_partitions-EveryStored global ((key, layers) ∷ partitions) run (first, rest) =
      let given = apply_global_equality_deletes global layers in
      let (resolved, here, more) = >>=-eq-ok (resolve_layers (collect_dvs given []) given) _ run in
      let (others, later, last) = >>=-eq-ok (resolve_partitions global partitions) _ more in
      rw (← eq_of_ok-eq-ok last) (
        resolve_layers-EveryIn (collect_dvs given []) given here
            (global-EveryIn global layers first),
        resolve_partitions-EveryStored global partitions later rest,
      )

  EveryDelete-values : (layers : Layers) → EveryIn layers → EveryDelete P (values layers)
  unfolding values
  EveryDelete-values [] every = tt
  EveryDelete-values ((number, l) ∷ layers) (first, rest) = (first, EveryDelete-values layers rest)

  pub EveryStored-map_to_vec :
      (partitions : Partitions)
      → EveryStored partitions
      → All (EveryDelete P) (map_to_vec partitions)
  unfolding map_to_vec
  EveryStored-map_to_vec [] every = tt
  EveryStored-map_to_vec ((key, layers) ∷ partitions) (first, rest) =
      (EveryDelete-values layers first, EveryStored-map_to_vec partitions rest)
