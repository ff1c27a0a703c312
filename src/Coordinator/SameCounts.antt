-- ===== src/Coordinator/SameCounts.antt =====
-- storage.rs and execution/: the rows that satisfy a query, counted in another order of the rows.
use stats_cruncher.Base.{
  ℕ, zero, suc, ◌+◌, ◌≤◌, ◌<◌, ◌≡◌, refl, sym, ◌∙◌, ap, ap₂, inl, inr, Bool, not, ◌&&◌, some, List,
  [], ◌∷◌, arith, leb, ltb, ◌==◌, ==_iff, Bool-cases, if◌then◌else◌, length, filter, range,
  get_elem?, All,
}
use stats_cruncher.Text.{Text, beq}
use stats_cruncher.Map.{Map, get, text_key}
use stats_cruncher.Float.{Float}
use stats_cruncher.Bitmap.{Bitmap}
use stats_cruncher.Query.{Query, RangeFilter, StringMatch}
use stats_cruncher.Storage.Column.{Column}
use stats_cruncher.Storage.Sorted.{occurrences}
use stats_cruncher.Storage.Table.{Cell, Table, Holds}
use stats_cruncher.Storage.Permuted.{IsPermutation, permuted, test_at-pick, All-get_elem?}
use stats_cruncher.Worker.Meaning.{
  satisfies, cell_passes, is_one_of, musts, must_nots, ranges_hold, in_ranges,
}
use stats_cruncher.Coordinator.Invariant.{matching}

-- How often the rows of a range that pass a test occur.
abbrev weigh : (ℕ → Bool) → List ℕ → ℕ → ℕ → ℕ
weigh p xs s zero = 0
weigh p xs s (suc k) = (if p s then occurrences s xs else 0) + weigh p xs (suc s) k

weigh-cons :
    (p : ℕ → Bool) (x : ℕ) (xs : List ℕ) (s k : ℕ)
    → weigh p (x ∷ xs) s k ≡ (if p x && (leb s x && ltb x (s + k)) then 1 else 0) + weigh p xs s k
weigh-cons p x xs s zero = ground arith
weigh-cons p x xs s (suc k) = elim (Bool-cases (x == s)) [
  | inl same ↦
      rw ((==_iff x s).0 same) (ground (arith, weigh-cons p x xs (suc s) k, (==_iff x s).0 same))
  | inr other ↦ ground (arith, other, weigh-cons p x xs (suc s) k)
]

weigh_none : (p : ℕ → Bool) (s k : ℕ) → weigh p [] s k ≡ 0
weigh_none p s zero = refl
weigh_none p s (suc k) = ground (arith, weigh_none p (suc s) k)

length-filter :
    (p : ℕ → Bool) (xs : List ℕ) (n : ℕ)
    → All (λ x. x < n) xs
    → length (filter p xs) ≡ weigh p xs 0 n
length-filter p [] n h = sym (weigh_none p 0 n)
length-filter p (x ∷ xs) n h = ground (arith, h.0, weigh-cons p x xs 0 n, length-filter p xs n h.1)

weigh_once :
    (p : ℕ → Bool) (xs : List ℕ) (s k : ℕ)
    → ((row : ℕ) → row < s + k → s ≤ row → occurrences row xs ≡ 1)
    → weigh p xs s k ≡ length (filter p (range s k))
weigh_once p xs s zero h = refl
weigh_once p xs s (suc k) h = ground (
  arith,
  h s (omega arith) (omega arith),
  weigh_once p xs (suc s) k (λ row l m. h row (omega (arith, l)) (omega (arith, m))),
)

-- A test of the places and one of the rows there let as many through.
length-filter_places :
    (q p : ℕ → Bool) (perm : List ℕ) (s : ℕ)
    → ((j row : ℕ) → get_elem? perm j ≡ some row → q (s + j) ≡ p row)
    → length (filter q (range s (length perm))) ≡ length (filter p perm)
length-filter_places q p [] s h = refl
length-filter_places q p (row ∷ perm) s h =
    let rest =
      length-filter_places q p perm (suc s) (λ j r at. ap q (one_on s j) ∙ h (suc j) r at) in
    let first : q s ≡ p row = ap q (none_on s) ∙ h 0 row refl in ground (arith, rest, first)
  where
    one_on : (s j : ℕ) → suc s + j ≡ s + suc j
    one_on s j = omega arith

    none_on : (s : ℕ) → s ≡ s + 0
    none_on s = omega arith

length-filter_permutation :
    (q p : ℕ → Bool) (perm : List ℕ) (n : ℕ)
    → IsPermutation n perm
    → ((j row : ℕ) → get_elem? perm j ≡ some row → q j ≡ p row)
    → length (filter q (range 0 n)) ≡ length (filter p (range 0 n))
length-filter_permutation q p perm n h same =
    ap (λ k. length (filter q (range 0 k))) (sym h.same_length)
    ∙ length-filter_places q p perm 0 (λ j row at. ap q (none_on j) ∙ same j row at)
    ∙ length-filter p perm n h.within
    ∙ weigh_once p perm 0 n (λ row l m. h.once row (omega (arith, l)))
  where
    none_on : (j : ℕ) → 0 + j ≡ j
    none_on j = omega arith

module _ {W : Type 0} where
  -- Every column has so many cells.
  abbrev IsWide : ℕ → Table W → Type 0
  IsWide n table = All (λ e. length e.1 ≡ n) table

  pub Holds-IsWide :
      {B : Type 0} ⦃m : Bitmap B⦄ ⦃f : Float W⦄ (n : ℕ) (nulls : Map Text B) (names : List Text)
      (columns : List (Column B W)) (table : Table W)
      → Holds n nulls names columns table
      → IsWide n table
  Holds-IsWide n nulls [] [] [] h = tt
  Holds-IsWide n nulls (name ∷ names) (c ∷ columns) ((k, cells) ∷ table) h =
      (h.1, Holds-IsWide n nulls names columns table h.4)
  Holds-IsWide n nulls _ _ _ h = absurd h

  module _ (n : ℕ) (perm : List ℕ) (h : IsPermutation n perm) (j row : ℕ)
      (at : get_elem? perm j ≡ some row) where
    cell_passes-permuted :
        (p : Cell W → Bool) (table : Table W) (name : Text)
        → IsWide n table
        → cell_passes p (permuted perm table) name j ≡ cell_passes p table name row
    unfolding get
    cell_passes-permuted p [] name w = refl
    cell_passes-permuted p ((k, cells) ∷ table) name w = elim (Bool-cases (beq k name)) [
      | inl hit ↦
          let below : row < length cells =
            omega (arith, w.0, All-get_elem? (λ x. x < n) perm j row at h.within) in
          rw (cell_passes, hit) (test_at-pick p perm cells j row at below)
      | inr miss ↦ rw (cell_passes, miss) (cell_passes-permuted p table name w.1)
    ]

    module _ (table : Table W) (w : IsWide n table) where
      musts-permuted :
          (must : Map Text StringMatch) → musts (permuted perm table) must j ≡ musts table must row
      musts-permuted [] = refl
      musts-permuted ((name, sm) ∷ rest) =
          ap₂ (λ a b. a && b) (cell_passes-permuted (is_one_of sm.values) table name w)
            (musts-permuted rest)

      must_nots-permuted :
          (must_not : Map Text StringMatch)
          → must_nots (permuted perm table) must_not j ≡ must_nots table must_not row
      must_nots-permuted [] = refl
      must_nots-permuted ((name, sm) ∷ rest) =
          ap₂ (λ a b. not a && b) (cell_passes-permuted (is_one_of sm.values) table name w)
            (must_nots-permuted rest)

      ranges_hold-permuted :
          ⦃f : Float W⦄ (ranges : Map Text (List (RangeFilter W)))
          → ranges_hold (permuted perm table) ranges j ≡ ranges_hold table ranges row
      ranges_hold-permuted [] = refl
      ranges_hold-permuted ((name, filters) ∷ rest) =
          ap₂ (λ a b. a && b) (cell_passes-permuted (in_ranges filters) table name w)
            (ranges_hold-permuted rest)

      satisfies-permuted :
          ⦃f : Float W⦄ (query : Query W)
          → satisfies query (permuted perm table) j ≡ satisfies query table row
      unfolding satisfies
      satisfies-permuted query =
          ap₂ (λ a b. a && b)
            (ap₂ (λ a b. a && b) (musts-permuted query.must) (must_nots-permuted query.must_not))
            (ranges_hold-permuted query.ranges)

  -- As many rows satisfy a query in the new order as in the old one.
  pub matching-permuted :
      ⦃f : Float W⦄ (n : ℕ) (perm : List ℕ) (table : Table W) (query : Query W)
      → IsPermutation n perm
      → IsWide n table
      → matching (permuted perm table) query n ≡ matching table query n
  matching-permuted n perm table query h w =
      length-filter_permutation (satisfies query (permuted perm table)) (satisfies query table) perm
        n h (λ j row at. satisfies-permuted n perm h j row at table w query)
