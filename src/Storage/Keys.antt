-- ===== src/Storage/Keys.antt =====
-- `sort_by` of storage.rs: the keys of the rows, and the permutation that their sort gives.
use stats_cruncher.Base.{
  ℕ, zero, suc, ◌+◌, ◌≤◌, ◌<◌, ◌≡◌, refl, sym, ◌∙◌, ap, subst, inl, inr, some, List, [], ◌∷◌, map,
  arith, ◌==◌, length, length-map, range, get_elem?, lt_of_get_elem?, Bool-cases, All, ok, ◌>>=◌,
  >>=-eq-ok, ok-injective,
}
use stats_cruncher.Float.{Float}
use stats_cruncher.Storage.Lookup.{index_ok}
use stats_cruncher.Storage.Store.{index}
use stats_cruncher.Storage.Sort.{permute, insert_sorted, sort_rows}
use stats_cruncher.Storage.Sorted.{occurrences, row_occurrences, IsSorted, IsSortedFrom, SortsRows}
use stats_cruncher.Storage.ZoneEnds.{IsAscending, IsAscendingFrom}
use stats_cruncher.Storage.Permuted.{IsPermutation}

occurrences-range :
    (start n row : ℕ) → start ≤ row → row < start + n → occurrences row (range start n) ≡ 1
occurrences-range start zero row h l = absurd (omega (arith, h, l))
occurrences-range start (suc n) row h l = elim (Bool-cases (start == row)) [
  | inl same ↦ ground (arith, same, none_below (suc start) n row (ground (arith, same)))
  | inr other ↦
      ground (arith, other, occurrences-range (suc start) n row (ground arith) (omega arith))
]
  where
    none_below : (start n row : ℕ) → row < start → occurrences row (range start n) ≡ 0
    none_below start zero row h = refl
    none_below start (suc n) row h =
        ground (arith, h, none_below (suc start) n row (omega (arith, h)))

range-below : (start n k : ℕ) → start + n ≤ k → All (λ row. row < k) (range start n)
range-below start zero k h = tt
range-below start (suc n) k h = (omega (arith, h), range-below (suc start) n k (omega (arith, h)))

length-range : (start n : ℕ) → length (range start n) ≡ n
length-range start zero = refl
length-range start (suc n) = ap suc (length-range (suc start) n)

module _ {W : Type 0} where
  abbrev pub rows_in : List (W × ℕ) → List ℕ
  rows_in pairs = map (λ p. p.1) pairs

  abbrev pub keys_in : List (W × ℕ) → List W
  keys_in pairs = map (λ p. p.0) pairs

  occurrences-rows_in :
      (row : ℕ) (pairs : List (W × ℕ)) → occurrences row (rows_in pairs) ≡ row_occurrences row pairs
  occurrences-rows_in row [] = refl
  occurrences-rows_in row ((k, r) ∷ pairs) = omega (arith, occurrences-rows_in row pairs)

  rows_in-below :
      (keys : List W) (pairs : List (W × ℕ))
      → All (λ p. get_elem? keys p.1 ≡ some p.0) pairs
      → All (λ row. row < length keys) (rows_in pairs)
  rows_in-below keys [] h = tt
  rows_in-below keys ((k, r) ∷ pairs) h = (lt_of_get_elem? keys r h.0, rows_in-below keys pairs h.1)

  -- The keys in the order of the pairs.
  pub permute-rows_in :
      (keys : List W) (pairs : List (W × ℕ))
      → All (λ p. get_elem? keys p.1 ≡ some p.0) pairs
      → permute keys (rows_in pairs) ≡ ok (keys_in pairs)
  unfolding permute
  permute-rows_in keys [] h = refl
  permute-rows_in keys ((k, r) ∷ pairs) h =
      ap (λ x. x >>= λ a. permute keys (rows_in pairs) >>= λ rest. ok (a ∷ rest))
        (index_ok keys r k h.0)
      ∙ ap (λ x. x >>= λ rest. ok (k ∷ rest)) (permute-rows_in keys pairs h.1)

module _ {W : Type 0} ⦃f : Float W⦄ where
  length-insert_sorted :
      (k : W) (row : ℕ) (pairs : List (W × ℕ))
      → length (insert_sorted k row pairs) ≡ suc (length pairs)
  unfolding insert_sorted
  length-insert_sorted k row [] = refl
  length-insert_sorted k row ((k', j) ∷ pairs) = elim (Bool-cases (f.total_le k k')) [
    | inl before ↦ rw before refl
    | inr after ↦ rw after (ap suc (length-insert_sorted k row pairs))
  ]

  length-sort_rows :
      (keys : List W) (rows : List ℕ) (pairs : List (W × ℕ))
      → sort_rows keys rows ≡ ok pairs
      → length pairs ≡ length rows
  unfolding sort_rows
  length-sort_rows keys [] pairs h = ap length (sym (ok-injective _ _ h))
  length-sort_rows keys (row ∷ rows) pairs h =
      let (k, e, h1) = >>=-eq-ok (index keys row) _ h in
      let (rest, e1, h2) = >>=-eq-ok (sort_rows keys rows) _ h1 in
      ap length (sym (ok-injective _ _ h2))
      ∙ length-insert_sorted k row rest
      ∙ ap suc (length-sort_rows keys rows rest e1)

  -- The rows of a store, sorted, are a permutation of them.
  pub rows_in-IsPermutation :
      (keys : List W) (n : ℕ) (pairs : List (W × ℕ))
      → length keys ≡ n
      → sort_rows keys (range 0 n) ≡ ok pairs
      → SortsRows keys (range 0 n) pairs
      → IsPermutation n (rows_in pairs)
  rows_in-IsPermutation keys n pairs l done s = record {
    same_length =
        length-map (λ p. p.1) pairs
        ∙ length-sort_rows keys (range 0 n) pairs done
        ∙ length-range 0 n;
    within = subst (λ k. All (λ row. row < k) (rows_in pairs)) l (rows_in-below keys pairs s.keyed);
    once = λ row below.
        occurrences-rows_in row pairs
        ∙ s.same_rows row
        ∙ occurrences-range 0 n row (omega arith) (omega (arith, below));
  }

  pub range-rows :
      (keys : List W) (n : ℕ) → length keys ≡ n → All (λ row. row < length keys) (range 0 n)
  range-rows keys n l = range-below 0 n (length keys) (omega (arith, l))

  keys_in-IsAscendingFrom :
      (b : W) (pairs : List (W × ℕ)) → IsSortedFrom b pairs → IsAscendingFrom b (keys_in pairs)
  keys_in-IsAscendingFrom b [] h = tt
  keys_in-IsAscendingFrom b ((k, r) ∷ pairs) h = (h.0, keys_in-IsAscendingFrom k pairs h.1)

  pub keys_in-IsAscending : (pairs : List (W × ℕ)) → IsSorted pairs → IsAscending (keys_in pairs)
  keys_in-IsAscending [] h = tt
  keys_in-IsAscending ((k, r) ∷ pairs) h = keys_in-IsAscendingFrom k pairs h
