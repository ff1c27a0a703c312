-- ===== src/Config/ByteSize.antt =====
-- `parse_byte_size` of config/schema.rs: a byte count with an optional binary suffix.
pub mod Sized
use stats_cruncher.Base.{
  ℕ, ◌+◌, ◌*◌, ◌^◌, ◌≡◌, refl, Bool, not, ◌&&◌, ◌||◌, Option, none, some, List, [], ◌∷◌, leb, ltb,
  ◌==◌, if◌then◌else◌, filter, any,
}
use stats_cruncher.Base.Int.{ℤ, pos, negsuc}
use stats_cruncher.Text.{Text, text, beq, trim, is_empty, is_digit}
use stats_cruncher.Numerals.{parse_u64}

-- `split_at(find(|c| !c.is_ascii_digit() && c != '_'))`
unfoldable pub split_digits : Text → Text × Text
split_digits [] = ([], [])
split_digits (c ∷ s) =
    let (digits, suffix) = split_digits s in
    if is_digit c || c == b'_' then (c ∷ digits, suffix) else ([], c ∷ s)

-- `replace('_', "")`
unfoldable pub without_underscores : Text → Text
without_underscores = filter λ c. not (c == b'_')

unfoldable pub to_ascii_lowercase : Text → Text
to_ascii_lowercase [] = []
to_ascii_lowercase (c ∷ s) = (if leb b'A' c && leb c b'Z' then c + 32 else c) ∷ to_ascii_lowercase s

abbrev one_of : Text → List Text → Bool
one_of s forms = any (beq s) forms

unfoldable pub multiplier : Text → Option ℕ
multiplier suffix =
    if one_of suffix (text "" ∷ text "b" ∷ [])
    then some 1
    else if one_of suffix (text "k" ∷ text "kb" ∷ text "kib" ∷ [])
    then some 1024
    else if one_of suffix (text "m" ∷ text "mb" ∷ text "mib" ∷ [])
    then some (1024 ^ 2)
    else if one_of suffix (text "g" ∷ text "gb" ∷ text "gib" ∷ [])
    then some (1024 ^ 3)
    else if one_of suffix (text "t" ∷ text "tb" ∷ text "tib" ∷ [])
    then some (1024 ^ 4)
    else none

unfoldable pub checked_mul : ℕ → ℕ → Option ℕ
checked_mul n k = if ltb (n * k) (2 ^ 64) then some (n * k) else none

-- `none` is the error.
unfoldable pub scaled : Option ℕ → Option ℕ → Option ℕ
unfolding checked_mul
scaled none k = none
scaled (some n) none = none
scaled (some n) (some k) = checked_mul n k

unfoldable pub parse_byte_size : Text → Option ℕ
unfolding split_digits without_underscores to_ascii_lowercase multiplier scaled
parse_byte_size raw =
    let (prefix, suffix) = split_digits (trim raw) in
    let digits = without_underscores prefix in
    if is_empty digits
    then none
    else scaled (parse_u64 digits) (multiplier (to_ascii_lowercase (trim suffix)))

-- What the decoder of the configuration finds for a size.
pub data RawSize : Type 0 where
  unsigned : ℕ → RawSize
  signed : ℤ → RawSize
  string : Text → RawSize

-- `ByteSizeVisitor`; `none` is the error.
unfoldable pub visit : RawSize → Option ℕ
unfolding parse_byte_size
visit (RawSize.unsigned v) = some v
visit (RawSize.signed (pos v)) = some v
visit (RawSize.signed (negsuc v)) = none
visit (RawSize.string v) = parse_byte_size v

sizes :
    (parse_byte_size (text "8_589_934_592") ≡ some (8 * 1024 ^ 3))
    × (parse_byte_size (text "8 GiB") ≡ some (8 * 1024 ^ 3))
    × (parse_byte_size (text "8PB") ≡ none)
    × (parse_byte_size (text "99999999999T") ≡ none)
unfolding parse_byte_size beq trim is_empty parse_u64
sizes = (refl, refl, refl, refl)
