-- ===== src/Worker/Filter.antt =====
-- `evaluate_filter` of execution/worker.rs against the meaning of a query.
use stats_cruncher.Base.{
  ℕ, ◌+◌, ◌%◌, ◌^◌, ◌≤◌, ◌<◌, ◌≡◌, sym, ◌∙◌, ap, Bool, true, ◌&&◌, arith, leb, ltb, filter, range,
  ok, ◌>>=◌,
}
use stats_cruncher.Map.{text_key}
use stats_cruncher.Float.{Float}
use stats_cruncher.Bitmap.{Bitmap, IsBitmap}
use stats_cruncher.Bitmap.Sets.{iter-eq-filter}
use stats_cruncher.Query.{Query}
use stats_cruncher.Storage.Store.{ColumnStore}
use stats_cruncher.Storage.Table.{Table, Represents}
use stats_cruncher.Worker.Evaluate.{
  Flow, and_then, must_loop, must_not_loop, range_loop, evaluate_filter, flow_bitmap,
}
use stats_cruncher.Worker.Meaning.{satisfies}
use stats_cruncher.Worker.Flow.{Selects, Runs, Runs-and_then, Runs-congr}
use stats_cruncher.Worker.Strings.{Runs-must_loop, Runs-must_not_loop}
use stats_cruncher.Worker.Ranges.{Runs-range_loop}

module _ {B : Type 0} ⦃m : Bitmap B⦄ where
  abbrev all_rows : ℕ → ℕ → B
  all_rows start end = m.insert_range (start % 2 ^ 32) (end % 2 ^ 32) m.new

  contains-all_rows :
      (laws : IsBitmap B) (start end : ℕ) (x : ℕ)
      → start < 2 ^ 32
      → end < 2 ^ 32
      → m.contains (all_rows start end) x ≡ (leb start x && ltb x end)
  contains-all_rows laws start end x s e = ground (
    arith,
    laws.contains-insert_range (start % 2 ^ 32) (end % 2 ^ 32) x m.new,
    laws.contains-new x,
  )

  contains-flow_bitmap :
      (b : B) (p : ℕ → Bool) (flow : Flow B) (x : ℕ)
      → Selects b p flow
      → m.contains (flow_bitmap flow) x ≡ (m.contains b x && p x)
  contains-flow_bitmap b p (Flow.next b') x s = s x
  contains-flow_bitmap b p (Flow.return b') x s = s.1 x ∙ sym (s.0 x)

module _ {B W : Type 0} ⦃m : Bitmap B⦄ ⦃f : Float W⦄ (laws : IsBitmap B) where
  module _ (st : ColumnStore B W) (table : Table W) (r : Represents st table) where
    Runs-loops :
        (query : Query W) (rows : B)
        → ((x : ℕ) → m.contains rows x ≡ true → x < st.row_count)
        → Runs rows (satisfies query table) (
            and_then
              (and_then (must_loop st query.must rows) (must_not_loop st query.must_not))
              (range_loop st query.ranges))
    unfolding satisfies
    Runs-loops query rows bound =
        Runs-congr rows _ _ _ (λ x. ground arith)
          (Runs-and_then rows _ _ _ _
            (Runs-and_then rows _ _ _ _ (Runs-must_loop laws st table r query.must rows)
              (λ b' _. Runs-must_not_loop laws st table r query.must_not b'))
            (λ b' s.
              Runs-range_loop laws st table r query.ranges b'
                (λ x p. bound x (ground (arith, s x)))))

    -- On a store that represents a table, and a range of its rows, `evaluate_filter` returns (no panic, no
    -- error) the bitmap whose rows, in order, are those of the range that satisfy the query on the table.
    pub evaluate_filter_lem :
        (query : Query W) (start count : ℕ)
        → start + count ≤ st.row_count
        → (b : B) × (evaluate_filter query st start (start + count) ≡ ok b)
          × (m.iter b ≡ filter (satisfies query table) (range start count))
    unfolding evaluate_filter
    evaluate_filter_lem query start count h =
        let rows = all_rows start (start + count) in
        let bounds = λ (x : ℕ).
          contains-all_rows laws start (start + count) x (omega (arith, r.row_bound))
            (omega (arith, r.row_bound)) in
        let (flow, e, s) = Runs-loops query rows (λ x p. ground (arith, bounds x, h)) in
        (
          flow_bitmap flow,
          ap (λ t. t >>= λ fl. ok (flow_bitmap fl)) e,
          iter-eq-filter laws (flow_bitmap flow) (satisfies query table) start count λ x.
              contains-flow_bitmap rows _ flow x s
              ∙ ap (λ t. t && satisfies query table x) (bounds x),
        )
