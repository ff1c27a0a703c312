-- ===== src/Config/ByteSize/Sized.antt =====
-- `parse_byte_size` of config/schema.rs: the sizes that are accepted.
use stats_cruncher.Base.{
  ℕ, ◌+◌, ◌-◌, ◌*◌, ◌^◌, ◌<◌, ◌≡◌, refl, sym, ◌∙◌, ap, ap₂, inl, inr, Bool, true, false, ◌&&◌, ◌||◌,
  Option, none, some, List, [], ◌∷◌, ◌++◌, arith, leb, ltb, ◌==◌, ltb→lt, Bool-cases, if◌then◌else◌,
  any, All,
}
use mathlib.Core.Option.{some-injective}
use stats_cruncher.Text.{Text, text, beq, trim, is_empty, is_digit}
use stats_cruncher.Numerals.{parse_u64, digits, digits_from, magnitude_u64, bounded}
use stats_cruncher.Config.ByteSize.{
  split_digits, without_underscores, to_ascii_lowercase, multiplier, checked_mul, scaled,
  parse_byte_size,
}

-- The units of a size, each 1024 of the one before.
pub data ByteUnit : Type 0 where
  byte kibibyte mebibyte gibibyte tebibyte : ByteUnit

abbrev pub bytes_in : ByteUnit → ℕ
bytes_in ByteUnit.byte = 1
bytes_in ByteUnit.kibibyte = 1024
bytes_in ByteUnit.mebibyte = 1048576
bytes_in ByteUnit.gibibyte = 1073741824
bytes_in ByteUnit.tebibyte = 1099511627776

abbrev pub spellings : ByteUnit → List Text
spellings ByteUnit.byte = text "" ∷ text "b" ∷ []
spellings ByteUnit.kibibyte = text "k" ∷ text "kb" ∷ text "kib" ∷ []
spellings ByteUnit.mebibyte = text "m" ∷ text "mb" ∷ text "mib" ∷ []
spellings ByteUnit.gibibyte = text "g" ∷ text "gb" ∷ text "gib" ∷ []
spellings ByteUnit.tebibyte = text "t" ∷ text "tb" ∷ text "tib" ∷ []

-- A text in small letters, apart from the case of its letters.
abbrev pub is_written : Text → Text → Bool
is_written [] [] = true
is_written (c ∷ s) (d ∷ t) =
    (if leb b'A' c && leb c b'Z' then c + 32 == d else c == d) && is_written s t
is_written _ _ = false

abbrev pub is_size_digit : ℕ → Bool
is_size_digit c = is_digit c || c == b'_'

-- The decimal value of digits, after `acc`; underscores are passed over.
unfoldable pub decimal_from : ℕ → Text → ℕ
decimal_from acc [] = acc
decimal_from acc (c ∷ s) =
    let same = decimal_from acc s in
    let more = decimal_from (10 * acc + (c - b'0')) s in if c == b'_' then same else more

split_digits_lem :
    (s : Text)
    → (s ≡ (split_digits s).0 ++ (split_digits s).1)
      × All (λ c. is_size_digit c ≡ true) (split_digits s).0
unfolding split_digits
split_digits_lem [] = (refl, tt)
split_digits_lem (c ∷ s) = elim (Bool-cases (is_size_digit c)) [
  | inl digit ↦ let (e, all) = split_digits_lem s in rw digit (ap (λ t. c ∷ t) e, (digit, all))
  | inr other ↦ rw other (refl, tt)
]

digits_from-decimal_from :
    (acc : ℕ) (s : Text) (n : ℕ)
    → digits_from acc (without_underscores s) ≡ some n
    → n ≡ decimal_from acc s
unfolding digits_from without_underscores decimal_from
digits_from-decimal_from acc [] n e = sym (some-injective _ _ e)
digits_from-decimal_from acc (c ∷ s) n e = elim (Bool-cases (c == b'_')) [
  | inl blank ↦ rw blank (digits_from-decimal_from acc s n (rw blank at e))
  | inr other ↦ elim (Bool-cases (is_digit c)) [
    | inl digit ↦
        rw other (digits_from-decimal_from (10 * acc + (c - b'0')) s n (rw (other, digit) at e))
    | inr stray ↦ absurd (nothing (rw (other, stray) at e))
  ]
]
  where
    nothing : {n : ℕ} → none ≡ some n → ⊥
    nothing e = cc

to_ascii_lowercase-is_written : (s t : Text) → beq (to_ascii_lowercase s) t ≡ is_written s t
unfolding beq to_ascii_lowercase
to_ascii_lowercase-is_written [] [] = refl
to_ascii_lowercase-is_written [] (d ∷ t) = refl
to_ascii_lowercase-is_written (c ∷ s) [] = refl
to_ascii_lowercase-is_written (c ∷ s) (d ∷ t) = ground (arith, to_ascii_lowercase-is_written s t)

abbrev NotSigned : Text → Type 0
NotSigned [] = Unit {0}
NotSigned (c ∷ s) = (c == b'+') ≡ false

without_underscores-NotSigned :
    (s : Text) → All (λ c. is_size_digit c ≡ true) s → NotSigned (without_underscores s)
unfolding without_underscores
without_underscores-NotSigned [] all = tt
without_underscores-NotSigned (c ∷ s) all = elim (Bool-cases (c == b'_')) [
  | inl blank ↦ rw blank (without_underscores-NotSigned s all.1)
  | inr other ↦ rw other (ground (arith, all.0))
]

magnitude_u64_inv : (o : Option ℕ) (n : ℕ) → magnitude_u64 o ≡ some n → o ≡ some n
unfolding magnitude_u64 bounded
magnitude_u64_inv none n e = e
magnitude_u64_inv (some m) n e = ground (arith, e)

parse_u64-digits_from :
    (s : Text) (n : ℕ) → NotSigned s → parse_u64 s ≡ some n → digits_from 0 s ≡ some n
unfolding parse_u64 digits
parse_u64-digits_from [] n plain e = cc
parse_u64-digits_from (c ∷ s) n plain e = magnitude_u64_inv _ n (rw plain at e)

parse_u64-decimal_from :
    (s : Text) (n : ℕ)
    → All (λ c. is_size_digit c ≡ true) s
    → parse_u64 (without_underscores s) ≡ some n
    → n ≡ decimal_from 0 s
parse_u64-decimal_from s n all e =
    digits_from-decimal_from 0 s n
      (parse_u64-digits_from (without_underscores s) n (without_underscores-NotSigned s all) e)

any_same :
    {A : Type 0} (p q : A → Bool) → ((a : A) → p a ≡ q a) → (xs : List A) → any p xs ≡ any q xs
any_same p q e [] = refl
any_same p q e (x ∷ xs) = ap₂ ◌||◌ (e x) (any_same p q e xs)

-- The first unit that a test accepts.
first_unit : (ByteUnit → Bool) → Option ℕ
first_unit p =
    if p ByteUnit.byte
    then some 1
    else if p ByteUnit.kibibyte
    then some 1024
    else if p ByteUnit.mebibyte
    then some (1024 ^ 2)
    else if p ByteUnit.gibibyte
    then some (1024 ^ 3)
    else if p ByteUnit.tebibyte
    then some (1024 ^ 4)
    else none

first_unit-bytes_in :
    (p : ByteUnit → Bool) (k : ℕ)
    → first_unit p ≡ some k
    → (u : ByteUnit) × (p u ≡ true) × (k ≡ bytes_in u)
unfolding first_unit
first_unit-bytes_in p k e = elim (Bool-cases (p ByteUnit.byte)) [
  | inl here ↦ (ByteUnit.byte, here, sym (some-injective _ _ (rw here at e)))
  | inr b ↦ elim (Bool-cases (p ByteUnit.kibibyte)) [
    | inl here ↦ (ByteUnit.kibibyte, here, sym (some-injective _ _ (rw (b, here) at e)))
    | inr ki ↦ elim (Bool-cases (p ByteUnit.mebibyte)) [
      | inl here ↦ (ByteUnit.mebibyte, here, sym (some-injective _ _ (rw (b, ki, here) at e)))
      | inr mi ↦ elim (Bool-cases (p ByteUnit.gibibyte)) [
        | inl here ↦ (ByteUnit.gibibyte, here, sym (some-injective _ _ (rw (b, ki, mi, here) at e)))
        | inr gi ↦ elim (Bool-cases (p ByteUnit.tebibyte)) [
          | inl here ↦
              (ByteUnit.tebibyte, here, sym (some-injective _ _ (rw (b, ki, mi, gi, here) at e)))
          | inr ti ↦ absurd (nothing (rw (b, ki, mi, gi, ti) at e))
        ]
      ]
    ]
  ]
]
  where
    nothing : {k : ℕ} → none ≡ some k → ⊥
    nothing e = cc

multiplier-bytes_in :
    (suffix : Text) (k : ℕ)
    → multiplier (to_ascii_lowercase suffix) ≡ some k
    → (u : ByteUnit) × (any (is_written suffix) (spellings u) ≡ true) × (k ≡ bytes_in u)
unfolding multiplier first_unit
multiplier-bytes_in suffix k e =
    let lower = to_ascii_lowercase suffix in
    let (u, found, size) = first_unit-bytes_in (λ u. any (beq lower) (spellings u)) k e in
    (
      u,
      sym (
            any_same (beq lower) (is_written suffix) (to_ascii_lowercase-is_written suffix)
              (spellings u))
          ∙ found,
      size,
    )

scaled_inv :
    (n k : Option ℕ) (size : ℕ)
    → scaled n k ≡ some size
    → (a : ℕ) × (b : ℕ) × (n ≡ some a) × (k ≡ some b) × (size ≡ a * b) × (a * b < 2 ^ 64)
unfolding scaled checked_mul
scaled_inv none k size h = cc
scaled_inv (some a) none size h = cc
scaled_inv (some a) (some b) size h = elim (Bool-cases (ltb (a * b) (2 ^ 64))) [
  | inl fits ↦ (a, b, refl, refl, sym (some-injective _ _ (rw fits at h)), ltb→lt _ _ fits)
  | inr over ↦ absurd (no_size (rw over at h))
]
  where
    no_size : none ≡ some size → ⊥
    no_size e = cc

-- A size that is accepted is written, apart from whitespace at its ends, as digits and underscores and then a unit, in
-- small or capital letters and with or without whitespace before it. It is the decimal value of the digits
-- times the bytes in the unit, exactly: the product does not wrap, and is below 2^64.
pub parse_byte_size-scaled :
    (raw : Text) (size : ℕ)
    → parse_byte_size raw ≡ some size
    → (prefix : Text) × (suffix : Text) × (u : ByteUnit) × (trim raw ≡ prefix ++ suffix)
      × All (λ c. is_size_digit c ≡ true) prefix
      × (any (is_written (trim suffix)) (spellings u) ≡ true)
      × (size ≡ decimal_from 0 prefix * bytes_in u)
      × (size < 2 ^ 64)
unfolding parse_byte_size
parse_byte_size-scaled raw size h =
    let prefix = (split_digits (trim raw)).0 in
    let suffix = (split_digits (trim raw)).1 in
    let (parts, all) = split_digits_lem (trim raw) in
    elim (Bool-cases (is_empty (without_underscores prefix))) [
      | inl blank ↦ absurd (no_size (rw blank at h))
      | inr digits ↦
          let (n, k, value, unit, product, fits) =
            scaled_inv (parse_u64 (without_underscores prefix))
              (multiplier (to_ascii_lowercase (trim suffix))) size (rw digits at h) in
          let (u, written, bytes) = multiplier-bytes_in (trim suffix) k unit in
          let decimal = parse_u64-decimal_from prefix n all value in
          (
            prefix,
            suffix,
            u,
            parts,
            all,
            written,
            product ∙ ap₂ ◌*◌ decimal bytes,
            omega (arith, product, fits),
          )
    ]
  where
    no_size : none ≡ some size → ⊥
    no_size e = cc
