-- ===== src/Coordinator/Workers.antt =====
-- execution/coordinator.rs and execution/worker.rs: the steps of the workers keep the invariant.
use stats_cruncher.Base.{
  length, ℕ, ◌+◌, ◌-◌, ◌≡◌, refl, sym, ◌∙◌, ap, subst, Bool, List, [], ◌∷◌, ◌++◌, arith, All, ok,
  some,
}
use stats_cruncher.Text.{Text}
use stats_cruncher.Map.{get, text_key}
use stats_cruncher.Query.Stats.{stats_of}
use stats_cruncher.Storage.Column.{Column}
use stats_cruncher.Storage.Store.{column, ColumnStore}
use stats_cruncher.Storage.Table.{Cell, Table, Represents}
use stats_cruncher.Worker.Folds.{numbers, IsNumeric}
use stats_cruncher.Float.{Float}
use stats_cruncher.Bitmap.{Bitmap, IsBitmap}
use stats_cruncher.Query.{Query, Response}
use stats_cruncher.Worker.{Task, execute}
use stats_cruncher.Worker.Totals.{execute_lem}
use stats_cruncher.Coordinator.System.{System, WorkerOutput}
use stats_cruncher.Coordinator.Weights.{weigh, weigh_outputs, weigh-append, weigh_outputs-append}
use stats_cruncher.Coordinator.Measure.{Measure, InStore, rows_in}
use stats_cruncher.Coordinator.Invariant.{
  outstanding, open_tasks, open_value, task_value, IsSound, IsBusy-same,
}

All-append : {A : Type 0} (P : A → Type 0) (xs ys : List A) → All P (xs ++ ys) → All P xs × All P ys
All-append P [] ys h = (tt, h)
All-append P (x ∷ xs) ys h = let (a, b) = All-append P xs ys h.1 in ((h.0, a), b)

pub append-All :
    {A : Type 0} (P : A → Type 0) (xs ys : List A) → All P xs → All P ys → All P (xs ++ ys)
append-All P [] ys a b = b
append-All P (x ∷ xs) ys a b = (a.0, append-All P xs ys a.1 b)

module _ {W : Type 0} {B : Type 0} where
  -- A worker takes a task: it weighs the same among the running ones.
  outstanding-take :
      (w : Task W → ℕ) (v : Response W → ℕ) (q : ℕ) (s : System B W) (t : Task W)
      (ts : List (Task W))
      → s.coordinator.tasks ≡ t ∷ ts
      → outstanding w v q
          (record s { coordinator = record s.coordinator { tasks = ts }; running = t ∷ s.running })
        ≡ outstanding w v q s
  unfolding weigh
  outstanding-take w v q s t ts e = omega (arith, ap (weigh w q) e)

  -- A task that is done weighs as an output what it weighed as a task.
  outstanding-finish :
      (w : Task W → ℕ) (v : Response W → ℕ) (q : ℕ) (s : System B W) (before after : List (Task W))
      (t : Task W) (p : Response W)
      → s.running ≡ before ++ t ∷ after
      → v p ≡ w t
      → outstanding w v q (record s {
        running = before ++ after;
        outputs = s.outputs ++ record { query_id = t.query_id; partial = p } ∷ [];
      })
        ≡ outstanding w v q s
  unfolding weigh weigh_outputs
  outstanding-finish w v q s before after t p e same =
      let o : WorkerOutput W = record { query_id = t.query_id; partial = p } in
      ground (
        arith,
        ap (weigh w q) e,
        same,
        weigh-append w q before (t ∷ after),
        weigh-append w q before after,
        weigh_outputs-append v q s.outputs (o ∷ []),
      )

module _ {B W : Type 0} ⦃m : Bitmap B⦄ ⦃f : Float W⦄ (laws : IsBitmap B) (st : ColumnStore B W)
    (table : Table W) (r : Represents st table) where
  -- A worker succeeds with a task in the store, counts its rows, and gives the statistics of their numbers.
  pub execute-InStore :
      (t : Task W) (counts : Bool)
      → InStore st t
      → (p : Response W) × (execute t st counts ≡ ok p)
        × (p.matched_rows ≡ length (rows_in table t.query t.start (t.end - t.start)))
        × ((name : Text) (c : Column B W) (cells : List (Cell W))
            → column st name ≡ ok (some c)
            → IsNumeric c
            → get name table ≡ some cells
            → get name p.numeric
              ≡ some (stats_of (numbers cells (rows_in table t.query t.start (t.end - t.start)))))
  execute-InStore t counts i =
      let count : ℕ = t.end - t.start in
      let same : t.start + count ≡ t.end = omega (arith, i.0) in
      let (p, e, n, has) =
        execute_lem st table r laws t.query t.chunk_id t.query_id t.start count counts
          (omega (arith, same, i.1)) in
      (
        p,
        subst
            (λ end.
              execute
                (record {
                  chunk_id = t.chunk_id;
                  query_id = t.query_id;
                  query = t.query;
                  start = t.start;
                  end = end;
                })
                st counts
              ≡ ok p)
            same e,
        n,
        has,
      )

module _ {B W : Type 0} ⦃m : Bitmap B⦄ ⦃f : Float W⦄ {st : ColumnStore B W} {table : Table W}
    (μ : Measure st table) (asked : ℕ → Query W) where
  -- Only tasks have moved, and the open ones weigh the same.
  IsSound-moved :
      (s s' : System B W) (ts : List (Task W))
      → s'.coordinator ≡ record s.coordinator { tasks = ts }
      → s'.accepted ≡ s.accepted
      → All (InStore st) ts
      → All (InStore st) s'.running
      → ((q : ℕ) → open_tasks q s' ≡ open_tasks q s)
      → ((q : ℕ) → open_value μ q s' ≡ open_value μ q s)
      → All (λ o. μ.Good o.partial) s'.outputs
      → IsSound μ asked s
      → IsSound μ asked s'
  IsSound-moved s s' ts c a tasks running p o good i =
      let inflight : s'.coordinator.inflight ≡ s.coordinator.inflight = ap (λ x. x.inflight) c in
      record {
        same_store = ap (λ x. x.store) c ∙ i.same_store;
        opened = ap (λ x. x.closed) c ∙ i.opened;
        tasks_in = subst (All (InStore st)) (sym (ap (λ x. x.tasks) c)) tasks;
        running_in = running;
        ascending = rw inflight i.ascending;
        unused = λ q h. rw inflight (i.unused q (omega (arith, ap (λ x. x.next_id) c, h)));
        idle = λ q h. p q ∙ i.idle q (rw inflight at h);
        busy = λ q e h. IsBusy-same μ asked s s' q e (p q) (o q) (i.busy q e (rw inflight at h));
        outputs_good = good;
        answers = rw (ap (λ x. x.sent) c) i.answers;
        once = λ k. rw (a, inflight, ap (λ x. x.sent) c) (i.once k);
      }

  pub take-IsSound :
      (s s' : System B W) (t : Task W) (ts : List (Task W))
      → s.coordinator.tasks ≡ t ∷ ts
      → s' ≡ record s { coordinator = record s.coordinator { tasks = ts }; running = t ∷ s.running }
      → IsSound μ asked s
      → IsSound μ asked s'
  take-IsSound s s' t ts e e' i =
      let all : All (InStore st) (t ∷ ts) = subst (All (InStore st)) e i.tasks_in in
      subst (IsSound μ asked) (sym e') (
        IsSound-moved s _ ts refl refl all.1 (all.0, i.running_in)
          (λ q. outstanding-take (λ t. 1) (λ p. 1) q s t ts e)
          (λ q. outstanding-take (task_value μ) μ.value q s t ts e) i.outputs_good i)

  pub finish-IsSound :
      (s s' : System B W) (before after : List (Task W)) (t : Task W) (p : Response W)
      (counts : Bool)
      → s.running ≡ before ++ t ∷ after
      → execute t s.coordinator.store counts ≡ ok p
      → s' ≡ record s {
        running = before ++ after;
        outputs = s.outputs ++ record { query_id = t.query_id; partial = p } ∷ [];
      }
      → IsSound μ asked s
      → IsSound μ asked s'
  finish-IsSound s s' before after t p counts e done e' i =
      let all =
        All-append (InStore st) before (t ∷ after) (subst (All (InStore st)) e i.running_in) in
      let here = sym (ap (λ x. execute t x counts) i.same_store) ∙ done in
      let rows = μ.task_value t counts p (all.1).0 here in
      subst (IsSound μ asked) (sym e') (
        IsSound-moved s _ s.coordinator.tasks refl refl i.tasks_in
          (append-All (InStore st) before after all.0 (all.1).1)
          (λ q. outstanding-finish (λ t. 1) (λ p. 1) q s before after t p e refl)
          (λ q. outstanding-finish (task_value μ) μ.value q s before after t p e rows)
          (append-All (λ o. μ.Good o.partial) s.outputs
            (record { query_id = t.query_id; partial = p } ∷ []) i.outputs_good
            (μ.task_good t counts p (all.1).0 here, tt))
          i)
