-- ===== src/Tests/Store.antt =====
-- A store of two rows for the examples, with an integer column, a string column and a null.
use stats_cruncher.Base.{
  ℕ, ◌≡◌, ◌<◌, refl, inl, inr, true, false, none, some, List, [], ◌∷◌, arith, zero, suc, get_elem?,
  Bool-cases,
}
use stats_cruncher.Base.Int.{ℤ}
use stats_cruncher.Text.{Text, text, beq, beq_iff}
use stats_cruncher.Map.{get, text_key}
use stats_cruncher.Float.Sample.{Sample, samples, num}
use stats_cruncher.Bitmap.Sample.{Bits, bits}
use stats_cruncher.Query.{Query, gte}
use stats_cruncher.Storage.Dictionary.{
  StringDictionary, IsDictionary, cardinality, posted, code_of, postings_of,
}
use stats_cruncher.Storage.Column.{Column}
use stats_cruncher.Storage.Store.{ColumnStore}
use stats_cruncher.Storage.Table.{Cell, Table, Represents, HoldsNulls, test_at, is_str, position}

abbrev pub letters : StringDictionary Bits
letters = record { codes = (text "a", 0) ∷ []; values = text "a" ∷ []; postings = (true ∷ []) ∷ [] }

abbrev pub two_rows : ColumnStore Bits Sample
two_rows = record {
  names = text "n" ∷ text "s" ∷ [];
  columns =
      Column.integer (ℤ.pos 3 ∷ ℤ.pos 5 ∷ [])
      ∷ Column.string (record { dictionary = letters; count = 1 })
      ∷ [];
  lookup = (text "n", 0) ∷ (text "s", 1) ∷ [];
  hidden = false ∷ false ∷ [];
  row_count = 2;
  chunk_size = 1;
  zone_stats = none;
  null_rows = (text "s", false ∷ true ∷ []) ∷ [];
}

abbrev pub two_cells : Table Sample
two_cells =
    (text "n", Cell.integer (ℤ.pos 3) ∷ Cell.integer (ℤ.pos 5) ∷ [])
    ∷ (text "s", Cell.str (text "a") ∷ Cell.null ∷ [])
    ∷ []

-- The rows with the letter a and a number from 3 on.
abbrev pub a_from_3 : Query Sample
a_from_3 = record {
  must = (text "s", record { values = text "a" ∷ [] }) ∷ [];
  must_not = [];
  ranges =
      (
        text "n",
        (record { lower = some (record { value = num 3; comparison = gte }); upper = none }) ∷ [],
      )
      ∷ [];
}

pub letters-IsDictionary : IsDictionary letters
unfolding get
letters-IsDictionary = record {
  same_length = refl;
  value_of_code = λ v c h. ground (arith, h, beq_iff (text "a") v);
  code_of_value = at;
}
  where
    at : (v : Text) (c : ℕ) → get_elem? letters.values c ≡ some v → get v letters.codes ≡ some c
    at v zero h = ground (arith, h, beq_iff (text "a") v)
    at v (suc c) h = cc

abbrev letter_cells : List (Cell Sample)
letter_cells = Cell.str (text "a") ∷ Cell.null ∷ []

posted-letters : (s : Text) (row : ℕ) → posted letters s row ≡ test_at (is_str s) letter_cells row
unfolding posted code_of postings_of get beq
posted-letters s zero = elim (Bool-cases (beq (text "a") s)) [
  | inl same ↦ rw same refl
  | inr other ↦ rw other refl
]
posted-letters s (suc zero) = elim (Bool-cases (beq (text "a") s)) [
  | inl same ↦ rw same refl
  | inr other ↦ rw other refl
]
posted-letters s (suc (suc row)) = elim (Bool-cases (beq (text "a") s)) [
  | inl same ↦ rw same refl
  | inr other ↦ rw other refl
]

pub nulls_n :
    HoldsNulls {B = Bits} {W = Sample} none (Cell.integer (ℤ.pos 3) ∷ Cell.integer (ℤ.pos 5) ∷ [])
nulls_n zero = refl
nulls_n (suc zero) = refl
nulls_n (suc (suc row)) = refl

nulls_s :
    HoldsNulls {B = Bits} {W = Sample}
      (some (false ∷ true ∷ []))
      (Cell.str (text "a") ∷ Cell.null ∷ [])
nulls_s zero = refl
nulls_s (suc zero) = refl
nulls_s (suc (suc row)) = refl

null_rows_s : (row : ℕ) → bits.contains (false ∷ true ∷ []) row ≡ true → row < 2
null_rows_s zero h = omega arith
null_rows_s (suc zero) h = omega arith
null_rows_s (suc (suc row)) h = cc

lookups_n_s : (name : Text) → get name two_rows.lookup ≡ position name two_rows.names
unfolding get
lookups_n_s name = elim (Bool-cases (beq (text "n") name)) [
  | inl same ↦ rw same refl
  | inr other ↦ elim (Bool-cases (beq (text "s") name)) [
    | inl same ↦ rw (other, same) refl
    | inr last ↦ rw (other, last) refl
  ]
]

pub two_rows-Represents : Represents two_rows two_cells
unfolding get beq cardinality
two_rows-Represents = record {
  holds = (
    refl,
    refl,
    (refl, (tt, (tt, tt))),
    nulls_n,
    (refl, refl, (letters-IsDictionary, omega arith, posted-letters, (tt, (tt, tt))), nulls_s, tt),
  );
  nulls_within = (null_rows_s, tt);
  lookups = lookups_n_s;
  distinct = (refl, (refl, tt));
  hidden_flags = refl;
  row_bound = omega arith;
  chunks = omega arith;
}
