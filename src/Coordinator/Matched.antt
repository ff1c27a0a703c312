-- ===== src/Coordinator/Matched.antt =====
-- execution/: the count of the rows that satisfy a query, as what a response has.
use stats_cruncher.Base.{
  ◌+◌, ◌%◌, ◌^◌, ◌≡◌, refl, sym, ◌∙◌, ap, arith, length, length-append, ok-injective,
}
use stats_cruncher.Float.{Float}
use stats_cruncher.Bitmap.{Bitmap, IsBitmap}
use stats_cruncher.Query.{Response}
use stats_cruncher.Aggregator.{add_partial}
use stats_cruncher.Storage.Store.{ColumnStore}
use stats_cruncher.Storage.Table.{Table, Represents}
use stats_cruncher.Coordinator.Measure.{Measure}
use stats_cruncher.Coordinator.Workers.{execute-InStore}

module _ {W : Type 0} ⦃f : Float W⦄ where
  pub matched_rows-add_partial :
      (acc p : Response W)
      → (add_partial acc p).matched_rows ≡ (acc.matched_rows + p.matched_rows) % 2 ^ 64
  unfolding add_partial
  matched_rows-add_partial acc p = refl

-- The number of rows, modulo 2 ^ 64.
abbrev pub matched_measure :
    {B W : Type 0} ⦃m : Bitmap B⦄ ⦃f : Float W⦄
    → IsBitmap B
    → (st : ColumnStore B W) → (table : Table W) → Represents st table
    → Measure st table
matched_measure laws st table r = record {
  norm = λ n. n % 2 ^ 64;
  norm_zero = refl;
  norm_add = λ a b. omega arith;
  of_rows = length;
  of_rows_none = refl;
  of_rows_append = λ xs ys. ap (λ n. n % 2 ^ 64) (length-append xs ys);
  Good = λ p. Unit {0};
  Merged = λ p. Unit {0};
  value = λ p. p.matched_rows;
  default_good = tt;
  default_value = refl;
  add_good = λ a p g h. tt;
  add_value = λ a p g h. matched_rows-add_partial a p;
  task_good = λ t counts p i e. tt;
  task_value = λ t counts p i e.
      let (p', e', n, _) = execute-InStore laws st table r t counts i in
      ap (λ x. x.matched_rows) (ok-injective _ _ (sym e ∙ e')) ∙ n;
}
