-- ===== src/Scan/Timeline.antt =====
-- A partition of the scan planned by iceberg/tea_scan.cpp as one sequence: the data files of a layer,
-- then its positional deletes, then the next layer. A delete reaches the data files before it.
use iceberg_cxx.Common.{List, [], ◌∷◌, ◌++◌, map}
use iceberg_cxx.Scan.{DataEntry, PositionalDeleteWithExtraInfo, LayerWithExtraInfo}

pub data Item : Type 0 where
  data_item : DataEntry → Item
  delete_item : PositionalDeleteWithExtraInfo → Item

abbrev pub layer_items : LayerWithExtraInfo → List Item
layer_items l = map data_item l.data_entries ++ map delete_item l.positional_delete_entries

unfoldable pub timeline : List LayerWithExtraInfo → List Item
timeline [] = []
timeline (l ∷ layers) = layer_items l ++ timeline layers
