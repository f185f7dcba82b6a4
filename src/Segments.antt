-- ===== src/Segments.antt =====
-- Segments of data files: DataEntry::Segment of iceberg/tea_scan.h, and ValidateSegments and
-- UniteSegments of iceberg/experimental_representations.cpp. Offsets and lengths are not negative; a
-- sum that is not below 2 ^ 63 is undefined. `none` is that, or the exception of `Ensure`.
use iceberg_cxx.Common.{
  ℕ, ◌+◌, ◌-◌, ◌<◌, Bool, true, false, ◌&&◌, Option, none, some, List, [], ◌∷◌, arith, ltb, leb,
  ◌==◌, if◌then◌else◌,
}
use iceberg_cxx.Common.Options.{◌>>=◌}
pub mod Union
mod Examples

-- Length 0 is up to the end of the file.
pub record Segment : Type 0 where
  pub offset : ℕ
  pub length : ℕ

unfoldable pub validate_segments : List Segment → Bool
validate_segments [] = true
validate_segments (s ∷ []) = true
validate_segments (s ∷ t ∷ segments) =
    let rest = validate_segments (t ∷ segments) in if ltb t.offset s.offset then false else rest

abbrev pub int64_limit : ℕ
int64_limit = 9223372036854775808

unfoldable pub end_of : Segment → Option ℕ
end_of s = if ltb (s.offset + s.length) int64_limit then some (s.offset + s.length) else none

abbrev pub maximum : ℕ → ℕ → ℕ
maximum a b = if ltb a b then b else a

-- The loop, with the segment that it holds back, and the last `push_back`.
unfoldable pub unite_loop : Segment → List Segment → Option (List Segment)
unfolding end_of
unite_loop back [] = some (back ∷ [])
unite_loop back (part ∷ parts) = if back.length == 0 then some (back ∷ []) else do
  back_end ← end_of back
  if leb part.offset back_end
      then (if part.length == 0 then unite_loop (record back { length = 0 }) parts else do
        part_end ← end_of part
        unite_loop (record back { length = maximum back_end part_end - back.offset }) parts)
      else do rest ← unite_loop part parts; some (back ∷ rest)

abbrev unite_from : List Segment → Option (List Segment)
unite_from [] = some []
unite_from (s ∷ segments) = unite_loop s segments

unfoldable pub unite_segments : List Segment → Option (List Segment)
unfolding validate_segments unite_loop
unite_segments segments = if validate_segments segments then unite_from segments else none
