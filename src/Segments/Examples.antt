-- ===== src/Segments/Examples.antt =====
-- Segments that iceberg/experimental_representations.cpp unites, on small files.
use iceberg_cxx.Common.{ℕ, ◌≡◌, refl, none, some, List, [], ◌∷◌, arith}
use iceberg_cxx.Segments.{Segment, validate_segments, unite_segments}
use iceberg_cxx.Segments.Union.{covers, Separated, unite_segments-covers}

abbrev segment : ℕ → ℕ → Segment
segment offset length = record { offset = offset; length = length }

abbrev parts : List Segment
parts = segment 0 10 ∷ segment 5 15 ∷ segment 20 2 ∷ segment 30 1 ∷ segment 40 0 ∷ segment 50 3 ∷ []

united : unite_segments parts ≡ some (segment 0 22 ∷ segment 30 1 ∷ segment 40 0 ∷ [])
unfolding unite_segments
united = refl

unsorted : unite_segments (segment 5 1 ∷ segment 0 1 ∷ []) ≡ none
unfolding unite_segments
unsorted = refl

too_long : unite_segments (segment 0 9223372036854775808 ∷ segment 1 1 ∷ []) ≡ none
unfolding unite_segments
too_long = refl

unite_segments-covers_example :
    (joined : List Segment) × (unite_segments parts ≡ some joined)
    × ((x : ℕ) → covers joined x ≡ covers parts x)
    × Separated joined
unfolding validate_segments
unite_segments-covers_example = unite_segments-covers parts refl (ground arith)
