-- ===== src/Numerals.antt =====
-- `str::parse` for the integer types of the standard library: an optional sign, decimal digits, and
-- no value that the type cannot hold.
use stats_cruncher.Base.{
  ℕ, ◌+◌, ◌-◌, ◌*◌, ◌^◌, ◌≡◌, refl, Bool, true, false, Option, none, some, [], ◌∷◌, leb, ltb, ◌==◌,
  if◌then◌else◌,
}
use stats_cruncher.Base.Int.{ℤ, pos, negsuc}
use stats_cruncher.Text.{Text, text, is_digit}

unfoldable pub digits_from : ℕ → Text → Option ℕ
digits_from acc [] = some acc
digits_from acc (c ∷ s) =
    let rest = digits_from (10 * acc + (c - b'0')) s in if is_digit c then rest else none

unfoldable pub digits : Text → Option ℕ
unfolding digits_from
digits [] = none
digits (c ∷ s) = digits_from 0 (c ∷ s)

-- `-n` as an `i64`.
unfoldable pub negative : ℕ → ℤ
negative n = if n == 0 then pos 0 else negsuc (n - 1)

unfoldable pub bounded : {A : Type 0} → Bool → A → Option A
bounded b a = if b then some a else none

unfoldable pub magnitude_i64 : Bool → Option ℕ → Option ℤ
unfolding negative bounded
magnitude_i64 minus none = none
magnitude_i64 minus (some n) =
    if minus then bounded (leb n (2 ^ 63)) (negative n) else bounded (ltb n (2 ^ 63)) (pos n)

unfoldable pub parse_i64 : Text → Option ℤ
unfolding digits magnitude_i64
parse_i64 [] = none
parse_i64 (c ∷ s) =
    if c == b'-'
    then magnitude_i64 true (digits s)
    else if c == b'+'
    then magnitude_i64 false (digits s)
    else magnitude_i64 false (digits (c ∷ s))

unfoldable pub magnitude_u64 : Option ℕ → Option ℕ
unfolding bounded
magnitude_u64 none = none
magnitude_u64 (some n) = bounded (ltb n (2 ^ 64)) n

unfoldable pub parse_u64 : Text → Option ℕ
unfolding digits magnitude_u64
parse_u64 [] = none
parse_u64 (c ∷ s) = if c == b'+' then magnitude_u64 (digits s) else magnitude_u64 (digits (c ∷ s))

runs :
    (parse_i64 (text "-120") ≡ some (negsuc 119)) × (parse_i64 (text "9223372036854775808") ≡ none)
unfolding parse_i64
runs = (refl, refl)
