-- ===== src/Tests/Counting.antt =====
-- Examples of the metrics and of byte sizes.
use stats_cruncher.Base.{
  All, any, ◌++◌, ◌*◌, ◌^◌, ◌≡◌, ◌<◌, refl, true, false, some, List, [], ◌∷◌, arith, ok, ◌>>=◌,
}
use stats_cruncher.Text.{Text, text, trim, is_empty, beq}
use stats_cruncher.Numerals.{parse_u64}
use stats_cruncher.Metrics.{StatusSnapshot, snapshot}
use stats_cruncher.Metrics.History.{Event}
use stats_cruncher.Metrics.Ring.{recorded}
use stats_cruncher.Metrics.Windows.{IsSnapshot, snapshot-recorded}
use stats_cruncher.Config.ByteSize.{parse_byte_size}
use stats_cruncher.Config.ByteSize.Sized.{
  ByteUnit, bytes_in, spellings, is_written, is_size_digit, decimal_from, parse_byte_size-scaled,
}

abbrev three_queries : List Event
three_queries = (1000000, true) ∷ (999990, false) ∷ (990000, false) ∷ []

snapshot-recorded_example :
    (s : StatusSnapshot) × ((recorded 86400 2 three_queries >>= λ metrics.
    snapshot 86400 1000010 500 metrics)
      ≡ ok s)
    × IsSnapshot 86400 1000010 500 2 three_queries s
snapshot-recorded_example =
    snapshot-recorded 86400 2 1000010 500 three_queries (omega arith) (omega arith)
      (omega arith, (omega arith, (omega arith, tt)))

eight_gib : parse_byte_size (text "8 GiB") ≡ some (8 * 1024 ^ 3)
unfolding parse_byte_size beq trim is_empty parse_u64
eight_gib = refl

parse_byte_size-scaled_example :
    (prefix : Text) × (suffix : Text) × (u : ByteUnit) × (trim (text "8 GiB") ≡ prefix ++ suffix)
    × All (λ c. is_size_digit c ≡ true) prefix
    × (any (is_written (trim suffix)) (spellings u) ≡ true)
    × (8 * 1024 ^ 3 ≡ decimal_from 0 prefix * bytes_in u)
    × (8 * 1024 ^ 3 < 2 ^ 64)
parse_byte_size-scaled_example = parse_byte_size-scaled (text "8 GiB") (8 * 1024 ^ 3) eight_gib
