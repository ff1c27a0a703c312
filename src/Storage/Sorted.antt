-- ===== src/Storage/Sorted.antt =====
-- `sort_by` of storage.rs: the rows in the order of their keys.
use stats_cruncher.Base.{
  ℕ, ◌+◌, ◌<◌, ◌≡◌, refl, ◌∙◌, ap, inl, inr, true, some, List, [], ◌∷◌, arith, ◌==◌, if◌then◌else◌,
  length, get_elem?, get_elem?_total, All, Bool-cases, ok, ◌>>=◌,
}
use stats_cruncher.Float.{Float, IsFloat}
use stats_cruncher.Storage.Lookup.{index_ok}
use stats_cruncher.Storage.Sort.{insert_sorted, sort_rows}

abbrev pub occurrences : ℕ → List ℕ → ℕ
occurrences row [] = 0
occurrences row (r ∷ rows) = (if r == row then 1 else 0) + occurrences row rows

module _ {W : Type 0} where
  abbrev pub row_occurrences : ℕ → List (W × ℕ) → ℕ
  row_occurrences row [] = 0
  row_occurrences row ((k, r) ∷ pairs) = (if r == row then 1 else 0) + row_occurrences row pairs

module _ {W : Type 0} ⦃f : Float W⦄ where
  -- From the key `b` on, in the order of `total_cmp`.
  abbrev pub IsSortedFrom : W → List (W × ℕ) → Type 0
  IsSortedFrom b [] = Unit {0}
  IsSortedFrom b ((k, row) ∷ pairs) = (f.total_le b k ≡ true) × IsSortedFrom k pairs

  abbrev pub IsSorted : List (W × ℕ) → Type 0
  IsSorted [] = Unit {0}
  IsSorted ((k, row) ∷ pairs) = IsSortedFrom k pairs

  -- The rows, each as often as before, with their keys, in order.
  pub record SortsRows (keys : List W) (rows : List ℕ) (pairs : List (W × ℕ)) : Type 0 where
    pub sorted : IsSorted pairs
    pub keyed : All (λ p. get_elem? keys p.1 ≡ some p.0) pairs
    pub same_rows : (row : ℕ) → row_occurrences row pairs ≡ occurrences row rows

  module _ (laws : IsFloat W) where
    open laws use {total_total}

    insert_sorted-IsSortedFrom :
        (b k : W) (row : ℕ) (pairs : List (W × ℕ))
        → f.total_le b k ≡ true
        → IsSortedFrom b pairs
        → IsSortedFrom b (insert_sorted k row pairs)
    unfolding insert_sorted
    insert_sorted-IsSortedFrom b k row [] h s = (h, tt)
    insert_sorted-IsSortedFrom b k row ((k', j) ∷ pairs) h s = elim (Bool-cases (f.total_le k k')) [
      | inl before ↦ rw before (h, (before, s.1))
      | inr after ↦ rw after (
        s.0,
        insert_sorted-IsSortedFrom k' k row pairs (ground (arith, after, total_total k k')) s.1,
      )
    ]

    insert_sorted-IsSorted :
        (k : W) (row : ℕ) (pairs : List (W × ℕ))
        → IsSorted pairs
        → IsSorted (insert_sorted k row pairs)
    unfolding insert_sorted
    insert_sorted-IsSorted k row [] s = tt
    insert_sorted-IsSorted k row ((k', j) ∷ pairs) s = elim (Bool-cases (f.total_le k k')) [
      | inl before ↦ rw before (before, s)
      | inr after ↦
          rw after
            (insert_sorted-IsSortedFrom k' k row pairs (ground (arith, after, total_total k k')) s)
    ]

    row_occurrences-insert_sorted :
        (k : W) (row r : ℕ) (pairs : List (W × ℕ))
        → row_occurrences r (insert_sorted k row pairs)
          ≡ (if row == r then 1 else 0) + row_occurrences r pairs
    unfolding insert_sorted
    row_occurrences-insert_sorted k row r [] = refl
    row_occurrences-insert_sorted k row r ((k', j) ∷ pairs) =
        ground (arith, row_occurrences-insert_sorted k row r pairs)

    All-insert_sorted :
        (P : W × ℕ → Type 0) (k : W) (row : ℕ) (pairs : List (W × ℕ))
        → P (k, row)
        → All P pairs
        → All P (insert_sorted k row pairs)
    unfolding insert_sorted
    All-insert_sorted P k row [] p a = (p, tt)
    All-insert_sorted P k row ((k', j) ∷ pairs) p a = elim (Bool-cases (f.total_le k k')) [
      | inl before ↦ rw before (p, a)
      | inr after ↦ rw after (a.0, All-insert_sorted P k row pairs p a.1)
    ]

    sort_rows_cons :
        (keys : List W) (row : ℕ) (rows : List ℕ) (k : W) (pairs : List (W × ℕ))
        → get_elem? keys row ≡ some k
        → sort_rows keys rows ≡ ok pairs
        → sort_rows keys (row ∷ rows) ≡ ok (insert_sorted k row pairs)
    unfolding sort_rows
    sort_rows_cons keys row rows k pairs at done =
        ap (λ r. r >>= λ x. sort_rows keys rows >>= λ rest. ok (insert_sorted x row rest))
          (index_ok keys row k at)
        ∙ ap (λ r. r >>= λ rest. ok (insert_sorted k row rest)) done

    -- Rows that have keys are sorted: the result has each row as often as before, with its key, and the keys
    -- are in the order of `total_cmp`.
    pub sort_rows-SortsRows :
        (keys : List W) (rows : List ℕ)
        → All (λ row. row < length keys) rows
        → (pairs : List (W × ℕ)) × (sort_rows keys rows ≡ ok pairs) × SortsRows keys rows pairs
    unfolding sort_rows
    sort_rows-SortsRows keys [] h =
        ([], refl, record { sorted = tt; keyed = tt; same_rows = λ row. refl })
    sort_rows-SortsRows keys (row ∷ rows) h =
        let (k, at) = get_elem?_total keys row h.0 in
        let (pairs, done, s) = sort_rows-SortsRows keys rows h.1 in
        (
          insert_sorted k row pairs,
          sort_rows_cons keys row rows k pairs at done,
          record {
            sorted = insert_sorted-IsSorted k row pairs s.sorted;
            keyed = All-insert_sorted (λ p. get_elem? keys p.1 ≡ some p.0) k row pairs at s.keyed;
            same_rows =
                λ r. omega (arith, row_occurrences-insert_sorted k row r pairs, s.same_rows r);
          },
        )
