-- ===== src/Coordinator/Measure.antt =====
-- execution/: a number that a response has, and that adds up over the tasks of a query: the count of its rows,
-- or what the statistics of a column say.
use stats_cruncher.Base.{
  ℕ, ◌+◌, ◌-◌, ◌≤◌, ◌≡◌, refl, sym, ◌∙◌, ap, List, [], ◌∷◌, ◌++◌, arith, ok, Bool, filter, range,
  inl, inr, Bool-cases, length,
}
use stats_cruncher.Float.{Float}
use stats_cruncher.Bitmap.{Bitmap}
use stats_cruncher.Query.{Query, Response, default_response}
use stats_cruncher.Worker.{Task, execute}
use stats_cruncher.Worker.Meaning.{satisfies}
use stats_cruncher.Aggregator.{add_partial}
use stats_cruncher.Storage.Store.{ColumnStore}
use stats_cruncher.Storage.Table.{Table}
use stats_cruncher.Coordinator.Chunks.{Chunk, chunks, rows_of, rows_of-chunks}
use stats_cruncher.Coordinator.Weights.{Fits, sum_chunks}
use stats_cruncher.Coordinator.Numbered.{matching_in}

abbrev pub InStore : {B W : Type 0} → ColumnStore B W → Task W → Type 0
InStore st t = (t.start ≤ t.end) × (t.end ≤ st.row_count)

module _ {W : Type 0} ⦃f : Float W⦄ (table : Table W) where
  -- The rows that satisfy a query, of a number of rows from one on.
  abbrev pub rows_in : Query W → ℕ → ℕ → List ℕ
  rows_in query start count = filter (satisfies query table) (range start count)

-- `value` is read off a response and `of_rows` is what it should be for a list of matched rows. `norm` forgets what
-- does not matter: the multiples of 2 ^ 64 of a counter that wraps, for one.
pub record Measure {B W : Type 0} ⦃m : Bitmap B⦄ ⦃f : Float W⦄ (st : ColumnStore B W)
    (table : Table W) : Type 1 where
  pub norm : ℕ → ℕ
  pub norm_zero : norm 0 ≡ 0
  pub norm_add : (a b : ℕ) → norm (a + b) ≡ norm (norm a + b)
  pub of_rows : List ℕ → ℕ
  pub of_rows_none : of_rows [] ≡ 0
  pub of_rows_append : (xs ys : List ℕ) → norm (of_rows (xs ++ ys)) ≡ norm (of_rows xs + of_rows ys)
  -- What partial results are, and what has been merged from them.
  pub Good : Response W → Type 0
  pub Merged : Response W → Type 0
  pub value : Response W → ℕ
  pub default_good : Merged default_response
  pub default_value : value default_response ≡ 0
  pub add_good : (a p : Response W) → Merged a → Good p → Merged (add_partial a p)
  pub add_value :
      (a p : Response W) → Merged a → Good p → value (add_partial a p) ≡ norm (value a + value p)
  pub task_good :
      (t : Task W) (counts : Bool) (p : Response W)
      → InStore st t
      → execute t st counts ≡ ok p
      → Good p
  pub task_value :
      (t : Task W) (counts : Bool) (p : Response W)
      → InStore st t
      → execute t st counts ≡ ok p
      → value p ≡ of_rows (rows_in table t.query t.start (t.end - t.start))

filter_append : (p : ℕ → Bool) (xs ys : List ℕ) → filter p (xs ++ ys) ≡ filter p xs ++ filter p ys
filter_append p [] ys = refl
filter_append p (x ∷ xs) ys = elim (Bool-cases (p x)) [
  | inl kept ↦ rw kept (ap (λ l. x ∷ l) (filter_append p xs ys))
  | inr dropped ↦ rw dropped (filter_append p xs ys)
]

module _ {B W : Type 0} ⦃m : Bitmap B⦄ ⦃f : Float W⦄ {st : ColumnStore B W} {table : Table W}
    (μ : Measure st table) where
  -- What the response to a query should have.
  abbrev pub total : Query W → ℕ
  total query = μ.norm (μ.of_rows (rows_in table query 0 st.row_count))

  -- What the rows of a chunk come to.
  abbrev pub chunk_value : Query W → Chunk → ℕ
  chunk_value query c = μ.of_rows (rows_in table query c.start (c.end - c.start))

  -- Only what is the same to `norm` is added.
  pub norm_both : (a b c : ℕ) → μ.norm a ≡ μ.norm b → μ.norm (a + c) ≡ μ.norm (b + c)
  norm_both a b c e = μ.norm_add a c ∙ ap (λ n. μ.norm (n + c)) e ∙ sym (μ.norm_add b c)

  sum_chunks-rows_of :
      (query : Query W) (cs : List Chunk)
      → μ.norm (sum_chunks (chunk_value query) cs)
        ≡ μ.norm (μ.of_rows (filter (satisfies query table) (rows_of cs)))
  unfolding rows_of
  sum_chunks-rows_of query [] = ap μ.norm (sym μ.of_rows_none)
  sum_chunks-rows_of query (c ∷ cs) =
      let here = chunk_value query c in
      let rest = sum_chunks (chunk_value query) cs in
      let later = μ.of_rows (filter (satisfies query table) (rows_of cs)) in
      let turned : here + rest ≡ rest + here = omega arith in
      let back : later + here ≡ here + later = omega arith in
      ap μ.norm turned
      ∙ norm_both rest later here (sum_chunks-rows_of query cs)
      ∙ ap μ.norm back
      ∙ sym (
          μ.of_rows_append (rows_in table query c.start (c.end - c.start))
            (filter (satisfies query table) (rows_of cs)))
      ∙ ap (λ rows. μ.norm (μ.of_rows rows))
          (sym
            (filter_append (satisfies query table) (range c.start (c.end - c.start)) (rows_of cs)))

  -- The chunks of a store come to what the store comes to.
  pub sum_chunks-total :
      (query : Query W)
      → 1 ≤ st.chunk_size
      → μ.norm (sum_chunks (chunk_value query) (chunks st.row_count st.chunk_size)) ≡ total query
  sum_chunks-total query h =
      sum_chunks-rows_of query (chunks st.row_count st.chunk_size)
      ∙ ap (λ rows. μ.norm (μ.of_rows (filter (satisfies query table) rows)))
          (rows_of-chunks st.row_count st.chunk_size h)

  -- A list without rows comes to nothing.
  pub of_rows_empty : (rows : List ℕ) → length rows ≡ 0 → μ.of_rows rows ≡ 0
  of_rows_empty [] h = μ.of_rows_none
  of_rows_empty (x ∷ rows) h = absurd (omega (arith, h))

  -- A mask that fits the counts of rows fits what the rows come to.
  pub chunk_value-Fits :
      (query : Query W) (mask : List Bool) (cs : List Chunk)
      → Fits (matching_in (satisfies query table)) mask cs
      → Fits (chunk_value query) mask cs
  chunk_value-Fits query [] [] h = tt
  chunk_value-Fits query (b ∷ mask) (c ∷ cs) h =
      (λ skip. of_rows_empty _ (h.0 skip), chunk_value-Fits query mask cs h.1)
  chunk_value-Fits query [] (c ∷ cs) h = absurd h
  chunk_value-Fits query (b ∷ mask) [] h = absurd h
