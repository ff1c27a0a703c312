-- ===== src/Coordinator/ColumnMeasure.antt =====
-- execution/: the statistics of a numeric column, as what a response has.
use stats_cruncher.Base.{
  arith, ℕ, ◌+◌, ◌-◌, ◌≤◌, ◌≡◌, refl, sym, ◌∙◌, ap, subst, inl, inr, Option, none, some, List, [],
  ◌∷◌, ◌++◌, Option-cases, ok, ok-injective, Bool, AppResult,
}
use stats_cruncher.Text.{Text}
use stats_cruncher.Map.{get, text_key}
use stats_cruncher.Float.{Float, IsFloat}
use stats_cruncher.Bitmap.{Bitmap, IsBitmap}
use stats_cruncher.Query.{Query, Response, NumericStats, empty_stats, observe_all}
use stats_cruncher.Query.Stats.{stats_of}
use stats_cruncher.Query.Readings.{
  Reading, IsProper, norm_norm, read-append, stats_of-IsProper, empty_stats-IsProper,
  merge_stats-IsProper,
}
use stats_cruncher.Aggregator.{add_partial}
use stats_cruncher.Aggregator.Numeric.{get-add_numeric, merged_with}
use stats_cruncher.Storage.Column.{Column}
use stats_cruncher.Storage.Store.{ColumnStore, column}
use stats_cruncher.Storage.Table.{Cell, Table, Represents}
use stats_cruncher.Worker.{Task, execute}
use stats_cruncher.Worker.Entries.{entries, execute-entries}
use stats_cruncher.Worker.Folds.{numbers, number_at, IsNumeric}
use stats_cruncher.Coordinator.Measure.{Measure, InStore, rows_in}
use stats_cruncher.Coordinator.Invariant.{Answered, AreMeasured, AreMeasured-same}
use stats_cruncher.Coordinator.Workers.{execute-InStore}

module _ {W : Type 0} ⦃f : Float W⦄ where
  numbers-append :
      (cells : List (Cell W)) (xs ys : List ℕ)
      → numbers cells (xs ++ ys) ≡ numbers cells xs ++ numbers cells ys
  numbers-append cells [] ys = refl
  numbers-append cells (x ∷ xs) ys = elim (Option-cases (number_at cells x)) [
    | inl e ↦ rw (e, numbers) (numbers-append cells xs ys)
    | inr (n, e) ↦ rw (e, numbers) (ap (λ l. n ∷ l) (numbers-append cells xs ys))
  ]

  abbrev or_empty : Option (NumericStats W) → NumericStats W
  or_empty o = elim o [ none ↦ empty_stats | some s ↦ s ]

  -- The statistics of a column in a response: those of no value where there are none.
  abbrev pub stats_in : Text → Response W → NumericStats W
  stats_in name p = elim (get name p.numeric) [ none ↦ empty_stats | some s ↦ s ]

  -- What the statistics of a partial result are.
  record HasStats (name : Text) (p : Response W) : Type 0 where
    stats : NumericStats W
    found : get name p.numeric ≡ some stats
    one_entry : entries name p.numeric ≤ 1
    proper : IsProper stats

  stats_in-add_partial :
      (name : Text) (a p : Response W) (h : HasStats name p)
      → stats_in name (add_partial a p) ≡ merged_with (get name a.numeric) h.stats
  unfolding add_partial
  stats_in-add_partial name a p h =
      ap or_empty (get-add_numeric name p.numeric a.numeric h.stats h.one_entry h.found)

  found-stats_in : (name : Text) (p : Response W) (h : HasStats name p) → stats_in name p ≡ h.stats
  found-stats_in name p h = ap or_empty h.found

  merged_with-IsProper :
      (o : Option (NumericStats W)) (s : NumericStats W)
      → IsProper (or_empty o)
      → IsProper s
      → IsProper (merged_with o s)
  merged_with-IsProper none s h k = k
  merged_with-IsProper (some e) s h k = merge_stats-IsProper e s h k

  read-merged_with :
      (ρ : Reading W) (o : Option (NumericStats W)) (s : NumericStats W)
      → IsProper (or_empty o)
      → IsProper s
      → ρ.read (merged_with o s) ≡ ρ.norm (ρ.read (or_empty o) + ρ.read s)
  read-merged_with ρ none s h k =
      let alone : ρ.read s ≡ 0 + ρ.read s = omega arith in
      sym (ρ.read_proper s k) ∙ ap ρ.norm alone ∙ ap (λ n. ρ.norm (n + ρ.read s)) (sym ρ.read_empty)
  read-merged_with ρ (some e) s h k = ρ.read_merge e s h k

-- The numbers of a column in the rows of the table that satisfy a query.
abbrev pub column_numbers :
    {B W : Type 0} ⦃f : Float W⦄ → ColumnStore B W → Table W → List (Cell W) → Query W → List W
column_numbers st table cells query = numbers cells (rows_in table query 0 st.row_count)

module _ {B W : Type 0} ⦃m : Bitmap B⦄ ⦃f : Float W⦄ (laws : IsBitmap B) (floats : IsFloat W)
    (st : ColumnStore B W) (table : Table W) (r : Represents st table) (name : Text)
    (c : Column B W) (cells : List (Cell W)) (at : column st name ≡ ok (some c)) (k : IsNumeric c)
    (held : get name table ≡ some cells) where
  -- The numbers of the column in the matching rows of a task.
  task_numbers : Task W → List W
  task_numbers t = numbers cells (rows_in table t.query t.start (t.end - t.start))

  execute-HasStats :
      (t : Task W) (counts : Bool) (p : Response W)
      → InStore st t
      → execute t st counts ≡ ok p
      → (h : HasStats name p) × (h.stats ≡ stats_of (task_numbers t))
  unfolding task_numbers
  execute-HasStats t counts p i e =
      let (p', e', _, has) = execute-InStore laws st table r t counts i in
      let same = ok-injective p' p (sym e' ∙ e) in
      (
        record {
          stats = stats_of (task_numbers t);
          found =
              subst (λ q. get name q.numeric ≡ some (stats_of (task_numbers t))) same
                (has name c cells at k held);
          one_entry = execute-entries t st counts name p r.distinct e;
          proper = stats_of-IsProper floats (task_numbers t);
        },
        refl,
      )

  -- What a reading sees in the statistics of the column.
  pub column_measure : Reading W → Measure st table
  unfolding task_numbers
  column_measure ρ = record {
    norm = ρ.norm;
    norm_zero = ρ.norm_zero;
    norm_add = ρ.norm_add;
    of_rows = λ rows. ρ.read (stats_of (numbers cells rows));
    of_rows_none = unfold observe_all in ρ.read_empty;
    of_rows_append = λ xs ys.
        ap (λ z. ρ.norm (ρ.read (stats_of z))) (numbers-append cells xs ys)
        ∙ ap ρ.norm (read-append floats ρ (numbers cells xs) (numbers cells ys))
        ∙ norm_norm ρ _;
    Good = HasStats name;
    Merged = λ p. IsProper (stats_in name p);
    value = λ p. ρ.read (stats_in name p);
    default_good = unfold get in empty_stats-IsProper floats;
    default_value = unfold get in ρ.read_empty;
    add_good = λ a p g h.
        subst IsProper (sym (stats_in-add_partial name a p h))
          (merged_with-IsProper (get name a.numeric) h.stats g h.proper);
    add_value = λ a p g h.
        ap ρ.read (stats_in-add_partial name a p h)
        ∙ read-merged_with ρ (get name a.numeric) h.stats g h.proper
        ∙ ap (λ s. ρ.norm (ρ.read (stats_in name a) + ρ.read s)) (sym (found-stats_in name p h));
    task_good = λ t counts p i e. (execute-HasStats t counts p i e).0;
    task_value = λ t counts p i e.
        let (h, same) = execute-HasStats t counts p i e in
        ap ρ.read (found-stats_in name p h ∙ same);
  }

  -- Responses with the value of the measure have the reading of the statistics of the matching rows.
  pub Answered-column_measure :
      (ρ : Reading W) (asked : ℕ → Query W) (sent : List (ℕ × AppResult (Response W)))
      → Answered (column_measure ρ) asked sent
      → AreMeasured
          (λ p. ρ.read (stats_in name p))
          (λ q. ρ.read (stats_of (column_numbers st table cells q)))
          asked
          sent
  unfolding column_measure
  Answered-column_measure ρ asked sent h =
      AreMeasured-same (λ p. ρ.read (stats_in name p)) _ _ asked
        (λ q.
          ρ.read_proper (stats_of (column_numbers st table cells q))
            (stats_of-IsProper floats (column_numbers st table cells q)))
        sent h
