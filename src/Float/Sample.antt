-- ===== src/Float/Sample.antt =====
-- Floating-point numbers for the examples: NaN, the natural numbers and an infinity on each side.
-- They satisfy the laws of `IsFloat`.
use stats_cruncher.Base.{
  ℕ, ◌+◌, ◌≡◌, refl, ◌⊎◌, Bool, true, false, Option, none, some, arith, leb, ltb,
}
use stats_cruncher.Base.Int.{ℤ}
use stats_cruncher.Numerals.{parse_i64}
use stats_cruncher.Float.{Float, IsFloat, IsNumber}

pub data Sample : Type 0 where
  nan low high : Sample
  num : ℕ → Sample

abbrev less_or_equal : Sample → Sample → Bool
less_or_equal nan y = false
less_or_equal low nan = false
less_or_equal low low = true
less_or_equal low high = true
less_or_equal low (num b) = true
less_or_equal high nan = false
less_or_equal high low = false
less_or_equal high high = true
less_or_equal high (num b) = false
less_or_equal (num a) nan = false
less_or_equal (num a) low = false
less_or_equal (num a) high = true
less_or_equal (num a) (num b) = leb a b

abbrev less : Sample → Sample → Bool
less nan y = false
less low nan = false
less low low = false
less low high = true
less low (num b) = true
less high y = false
less (num a) nan = false
less (num a) low = false
less (num a) high = true
less (num a) (num b) = ltb a b

abbrev total : Sample → Sample → Bool
total x nan = true
total nan low = false
total nan high = false
total nan (num b) = false
total low low = true
total low high = true
total low (num b) = true
total high low = false
total high high = true
total high (num b) = false
total (num a) low = false
total (num a) high = true
total (num a) (num b) = leb a b

abbrev sum : Sample → Sample → Sample
sum (num a) (num b) = num (a + b)
sum (num a) low = low
sum (num a) high = high
sum (num a) nan = nan
sum low (num b) = low
sum low low = low
sum low high = nan
sum low nan = nan
sum high (num b) = high
sum high high = high
sum high low = nan
sum high nan = nan
sum nan y = nan

abbrev whole : Sample → Bool
whole (num a) = true
whole nan = false
whole low = false
whole high = false

abbrev of_integer : ℤ → Sample
of_integer (ℤ.pos n) = num n
of_integer (ℤ.negsuc n) = low

abbrev to_integer : Sample → ℤ
to_integer (num a) = ℤ.pos a
to_integer nan = ℤ.pos 0
to_integer low = ℤ.negsuc 0
to_integer high = ℤ.pos 0

abbrev parsed : Option ℤ → Option Sample
parsed none = none
parsed (some i) = some (of_integer i)

instance abbrev pub samples : Float Sample
samples = record {
  nought = num 0;
  infinity = high;
  neg_infinity = low;
  add = sum;
  lt = less;
  le = less_or_equal;
  total_le = total;
  is_whole = whole;
  of_int = of_integer;
  to_int = to_integer;
  parse = λ t. parsed (parse_i64 t);
}

numbers_of_le : (x y : Sample) → less_or_equal x y ≡ true → IsNumber x × IsNumber y
numbers_of_le nan nan h = ground arith
numbers_of_le nan low h = ground arith
numbers_of_le nan high h = ground arith
numbers_of_le nan (num b) h = ground arith
numbers_of_le low nan h = ground arith
numbers_of_le low low h = ground arith
numbers_of_le low high h = ground arith
numbers_of_le low (num b) h = ground arith
numbers_of_le high nan h = ground arith
numbers_of_le high low h = ground arith
numbers_of_le high high h = ground arith
numbers_of_le high (num b) h = ground arith
numbers_of_le (num a) nan h = ground arith
numbers_of_le (num a) low h = ground arith
numbers_of_le (num a) high h = ground arith
numbers_of_le (num a) (num b) h = ground arith

le_total :
    (x y : Sample)
    → IsNumber x
    → IsNumber y
    → (less_or_equal x y ≡ true) ⊎ (less_or_equal y x ≡ true)
le_total nan nan h k = ground arith
le_total nan low h k = ground arith
le_total nan high h k = ground arith
le_total nan (num b) h k = ground arith
le_total low nan h k = ground arith
le_total low low h k = ground arith
le_total low high h k = ground arith
le_total low (num b) h k = ground arith
le_total high nan h k = ground arith
le_total high low h k = ground arith
le_total high high h k = ground arith
le_total high (num b) h k = ground arith
le_total (num a) nan h k = ground arith
le_total (num a) low h k = ground arith
le_total (num a) high h k = ground arith
le_total (num a) (num b) h k = ground arith

less-le :
    (x y : Sample) → less x y ≡ true → (less_or_equal x y ≡ true) × (less_or_equal y x ≡ false)
less-le nan nan h = ground arith
less-le nan low h = ground arith
less-le nan high h = ground arith
less-le nan (num b) h = ground arith
less-le low nan h = ground arith
less-le low low h = ground arith
less-le low high h = ground arith
less-le low (num b) h = ground arith
less-le high nan h = ground arith
less-le high low h = ground arith
less-le high high h = ground arith
less-le high (num b) h = ground arith
less-le (num a) nan h = ground arith
less-le (num a) low h = ground arith
less-le (num a) high h = ground arith
less-le (num a) (num b) h = ground arith

less_of_not_le :
    (x y : Sample) → IsNumber x → IsNumber y → less_or_equal y x ≡ false → less x y ≡ true
less_of_not_le nan nan h k n = ground arith
less_of_not_le nan low h k n = ground arith
less_of_not_le nan high h k n = ground arith
less_of_not_le nan (num b) h k n = ground arith
less_of_not_le low nan h k n = ground arith
less_of_not_le low low h k n = ground arith
less_of_not_le low high h k n = ground arith
less_of_not_le low (num b) h k n = ground arith
less_of_not_le high nan h k n = ground arith
less_of_not_le high low h k n = ground arith
less_of_not_le high high h k n = ground arith
less_of_not_le high (num b) h k n = ground arith
less_of_not_le (num a) nan h k n = ground arith
less_of_not_le (num a) low h k n = ground arith
less_of_not_le (num a) high h k n = ground arith
less_of_not_le (num a) (num b) h k n = ground arith

total-total : (x y : Sample) → (total x y ≡ true) ⊎ (total y x ≡ true)
total-total nan nan = ground arith
total-total nan low = ground arith
total-total nan high = ground arith
total-total nan (num b) = ground arith
total-total low nan = ground arith
total-total low low = ground arith
total-total low high = ground arith
total-total low (num b) = ground arith
total-total high nan = ground arith
total-total high low = ground arith
total-total high high = ground arith
total-total high (num b) = ground arith
total-total (num a) nan = ground arith
total-total (num a) low = ground arith
total-total (num a) high = ground arith
total-total (num a) (num b) = ground arith

le_of_total : (x y : Sample) → IsNumber x → IsNumber y → total x y ≡ true → less_or_equal x y ≡ true
le_of_total nan nan h k t = ground arith
le_of_total nan low h k t = ground arith
le_of_total nan high h k t = ground arith
le_of_total nan (num b) h k t = ground arith
le_of_total low nan h k t = ground arith
le_of_total low low h k t = ground arith
le_of_total low high h k t = ground arith
le_of_total low (num b) h k t = ground arith
le_of_total high nan h k t = ground arith
le_of_total high low h k t = ground arith
le_of_total high high h k t = ground arith
le_of_total high (num b) h k t = ground arith
le_of_total (num a) nan h k t = ground arith
le_of_total (num a) low h k t = ground arith
le_of_total (num a) high h k t = ground arith
le_of_total (num a) (num b) h k t = ground arith

le_trans :
    (x y z : Sample)
    → less_or_equal x y ≡ true
    → less_or_equal y z ≡ true
    → less_or_equal x z ≡ true
le_trans nan nan nan h k = ground arith
le_trans nan nan low h k = ground arith
le_trans nan nan high h k = ground arith
le_trans nan nan (num c) h k = ground arith
le_trans nan low nan h k = ground arith
le_trans nan low low h k = ground arith
le_trans nan low high h k = ground arith
le_trans nan low (num c) h k = ground arith
le_trans nan high nan h k = ground arith
le_trans nan high low h k = ground arith
le_trans nan high high h k = ground arith
le_trans nan high (num c) h k = ground arith
le_trans nan (num b) nan h k = ground arith
le_trans nan (num b) low h k = ground arith
le_trans nan (num b) high h k = ground arith
le_trans nan (num b) (num c) h k = ground arith
le_trans low nan nan h k = ground arith
le_trans low nan low h k = ground arith
le_trans low nan high h k = ground arith
le_trans low nan (num c) h k = ground arith
le_trans low low nan h k = ground arith
le_trans low low low h k = ground arith
le_trans low low high h k = ground arith
le_trans low low (num c) h k = ground arith
le_trans low high nan h k = ground arith
le_trans low high low h k = ground arith
le_trans low high high h k = ground arith
le_trans low high (num c) h k = ground arith
le_trans low (num b) nan h k = ground arith
le_trans low (num b) low h k = ground arith
le_trans low (num b) high h k = ground arith
le_trans low (num b) (num c) h k = ground arith
le_trans high nan nan h k = ground arith
le_trans high nan low h k = ground arith
le_trans high nan high h k = ground arith
le_trans high nan (num c) h k = ground arith
le_trans high low nan h k = ground arith
le_trans high low low h k = ground arith
le_trans high low high h k = ground arith
le_trans high low (num c) h k = ground arith
le_trans high high nan h k = ground arith
le_trans high high low h k = ground arith
le_trans high high high h k = ground arith
le_trans high high (num c) h k = ground arith
le_trans high (num b) nan h k = ground arith
le_trans high (num b) low h k = ground arith
le_trans high (num b) high h k = ground arith
le_trans high (num b) (num c) h k = ground arith
le_trans (num a) nan nan h k = ground arith
le_trans (num a) nan low h k = ground arith
le_trans (num a) nan high h k = ground arith
le_trans (num a) nan (num c) h k = ground arith
le_trans (num a) low nan h k = ground arith
le_trans (num a) low low h k = ground arith
le_trans (num a) low high h k = ground arith
le_trans (num a) low (num c) h k = ground arith
le_trans (num a) high nan h k = ground arith
le_trans (num a) high low h k = ground arith
le_trans (num a) high high h k = ground arith
le_trans (num a) high (num c) h k = ground arith
le_trans (num a) (num b) nan h k = ground arith
le_trans (num a) (num b) low h k = ground arith
le_trans (num a) (num b) high h k = ground arith
le_trans (num a) (num b) (num c) h k = ground arith

total_trans : (x y z : Sample) → total x y ≡ true → total y z ≡ true → total x z ≡ true
total_trans nan nan nan h k = ground arith
total_trans nan nan low h k = ground arith
total_trans nan nan high h k = ground arith
total_trans nan nan (num c) h k = ground arith
total_trans nan low nan h k = ground arith
total_trans nan low low h k = ground arith
total_trans nan low high h k = ground arith
total_trans nan low (num c) h k = ground arith
total_trans nan high nan h k = ground arith
total_trans nan high low h k = ground arith
total_trans nan high high h k = ground arith
total_trans nan high (num c) h k = ground arith
total_trans nan (num b) nan h k = ground arith
total_trans nan (num b) low h k = ground arith
total_trans nan (num b) high h k = ground arith
total_trans nan (num b) (num c) h k = ground arith
total_trans low nan nan h k = ground arith
total_trans low nan low h k = ground arith
total_trans low nan high h k = ground arith
total_trans low nan (num c) h k = ground arith
total_trans low low nan h k = ground arith
total_trans low low low h k = ground arith
total_trans low low high h k = ground arith
total_trans low low (num c) h k = ground arith
total_trans low high nan h k = ground arith
total_trans low high low h k = ground arith
total_trans low high high h k = ground arith
total_trans low high (num c) h k = ground arith
total_trans low (num b) nan h k = ground arith
total_trans low (num b) low h k = ground arith
total_trans low (num b) high h k = ground arith
total_trans low (num b) (num c) h k = ground arith
total_trans high nan nan h k = ground arith
total_trans high nan low h k = ground arith
total_trans high nan high h k = ground arith
total_trans high nan (num c) h k = ground arith
total_trans high low nan h k = ground arith
total_trans high low low h k = ground arith
total_trans high low high h k = ground arith
total_trans high low (num c) h k = ground arith
total_trans high high nan h k = ground arith
total_trans high high low h k = ground arith
total_trans high high high h k = ground arith
total_trans high high (num c) h k = ground arith
total_trans high (num b) nan h k = ground arith
total_trans high (num b) low h k = ground arith
total_trans high (num b) high h k = ground arith
total_trans high (num b) (num c) h k = ground arith
total_trans (num a) nan nan h k = ground arith
total_trans (num a) nan low h k = ground arith
total_trans (num a) nan high h k = ground arith
total_trans (num a) nan (num c) h k = ground arith
total_trans (num a) low nan h k = ground arith
total_trans (num a) low low h k = ground arith
total_trans (num a) low high h k = ground arith
total_trans (num a) low (num c) h k = ground arith
total_trans (num a) high nan h k = ground arith
total_trans (num a) high low h k = ground arith
total_trans (num a) high high h k = ground arith
total_trans (num a) high (num c) h k = ground arith
total_trans (num a) (num b) nan h k = ground arith
total_trans (num a) (num b) low h k = ground arith
total_trans (num a) (num b) high h k = ground arith
total_trans (num a) (num b) (num c) h k = ground arith

high_greatest : (x : Sample) → IsNumber x → less_or_equal x high ≡ true
high_greatest nan h = ground arith
high_greatest low h = ground arith
high_greatest high h = ground arith
high_greatest (num a) h = ground arith

low_least : (x : Sample) → IsNumber x → less_or_equal low x ≡ true
low_least nan h = ground arith
low_least low h = ground arith
low_least high h = ground arith
low_least (num a) h = ground arith

of_integer-IsNumber : (i : ℤ) → IsNumber (of_integer i)
of_integer-IsNumber (ℤ.pos n) = ground arith
of_integer-IsNumber (ℤ.negsuc n) = refl

pub samples-IsFloat : IsFloat Sample
samples-IsFloat = record {
  number_of_le = numbers_of_le;
  le_trans = le_trans;
  le_total = le_total;
  lt-le = less-le;
  lt_of_not_le = less_of_not_le;
  total_total = total-total;
  total_trans = total_trans;
  le_of_total = le_of_total;
  infinity_greatest = high_greatest;
  neg_infinity_least = low_least;
  of_int_number = of_integer-IsNumber;
  nought_number = ground arith;
}
