-- ===== src/Coordinator/Pump.antt =====
-- execution/coordinator.rs: `finalize`, called by the result pump, keeps the invariant.
use stats_cruncher.Base.{
  ap, All, ℕ, ◌+◌, ◌≤◌, ◌<◌, ◌≡◌, refl, sym, ◌∙◌, subst, ◌⊎◌, inl, inr, true, false, none, some,
  List, ◌∷◌, arith, ◌==◌, if◌then◌else◌, ok, Bool-cases, Option-cases, ==_iff,
}
use mathlib.Core.Option.{some-injective}
use stats_cruncher.Float.{Float}
use stats_cruncher.Bitmap.{Bitmap}
use stats_cruncher.Map.{get, get-insert, get-remove, number_key}
use stats_cruncher.Query.{Query}
use stats_cruncher.Storage.Store.{ColumnStore}
use stats_cruncher.Storage.Table.{Table}
use stats_cruncher.Aggregator.{add_partial}
use stats_cruncher.Coordinator.{Coordinator, InflightQuery, finalize}
use stats_cruncher.Coordinator.System.{System, WorkerOutput}
use stats_cruncher.Coordinator.Inflight.{
  Ascending-insert, Ascending-remove, pending-remove, pending-insert_old,
}
use stats_cruncher.Coordinator.Measure.{Measure}
use stats_cruncher.Coordinator.Invariant.{
  open_tasks, open_value, task_value, IsBusy-same, tally_sent-snoc, IsSound, IsBusy, IsAnswer,
  Answered-snoc,
}
use stats_cruncher.Coordinator.Finalized.{
  merged, kept, completed, finalize_more, finalize_last, outstanding-pump, open_value_none,
}

module _ {B W : Type 0} ⦃m : Bitmap B⦄ ⦃f : Float W⦄ {st : ColumnStore B W} {table : Table W}
    (μ : Measure st table) (asked : ℕ → Query W) (s : System B W) (o : WorkerOutput W)
    (os : List (WorkerOutput W)) (first : s.outputs ≡ o ∷ os) (i : IsSound μ asked s) where
  abbrev after_pump : Coordinator B W → System B W
  after_pump c = record s { coordinator = c; outputs = os }

  open_tasks-pump :
      (c : Coordinator B W) (q : ℕ)
      → c.tasks ≡ s.coordinator.tasks
      → open_tasks q s ≡ open_tasks q (after_pump c) + (if o.query_id == q then 1 else 0)
  open_tasks-pump c q t =
      outstanding-pump s (after_pump c) (λ t. 1) (λ p. 1) q o os first t refl refl

  open_rows-pump :
      (c : Coordinator B W) (q : ℕ)
      → c.tasks ≡ s.coordinator.tasks
      → open_value μ q s
        ≡ open_value μ q (after_pump c) + (if o.query_id == q then μ.value o.partial else 0)
  open_rows-pump c q t =
      outstanding-pump s (after_pump c) (task_value μ) μ.value q o os first t refl refl

  -- An output belongs to a query in flight.
  pump_query : (e : InflightQuery W) × (get o.query_id s.coordinator.inflight ≡ some e)
  pump_query = elim (Option-cases (get o.query_id s.coordinator.inflight)) [
    | inr found ↦ found
    | inl gone ↦ absurd (
        ground (
          arith,
          i.idle o.query_id gone,
          open_tasks-pump s.coordinator o.query_id refl,
          ==_iff o.query_id o.query_id,
        ))
  ]

  outputs_good_first : μ.Good o.partial × All (λ o. μ.Good o.partial) os
  outputs_good_first = subst (All (λ o. μ.Good o.partial)) first i.outputs_good

  pumped_good : μ.Good o.partial
  pumped_good = outputs_good_first.0

  later_good : All (λ o. μ.Good o.partial) os
  later_good = outputs_good_first.1

  -- What is merged comes to what it was in the output.
  sum_merged :
      (e : InflightQuery W)
      → μ.Merged e.aggregator.acc
      → (before left : ℕ) → before ≡ left + μ.value o.partial
      → μ.norm (μ.value (add_partial e.aggregator.acc o.partial) + left)
        ≡ μ.norm (μ.value e.aggregator.acc + before)
  sum_merged e good before left h =
      ap (λ n. μ.norm (n + left)) (μ.add_value e.aggregator.acc o.partial good pumped_good)
      ∙ sym (μ.norm_add (μ.value e.aggregator.acc + μ.value o.partial) left)
      ∙ ap μ.norm (omega (arith, h))

  module _ (e : InflightQuery W) (at : get o.query_id s.coordinator.inflight ≡ some e)
      (b : IsBusy μ asked s o.query_id e) where
    -- The other queries in flight do not notice.
    IsBusy-other :
        (c : Coordinator B W) (q : ℕ) (e' : InflightQuery W)
        → c.tasks ≡ s.coordinator.tasks
        → (o.query_id == q) ≡ false
        → get q s.coordinator.inflight ≡ some e'
        → IsBusy μ asked (after_pump c) q e'
    IsBusy-other c q e' t other h =
        IsBusy-same μ asked s (after_pump c) q e' (ground (arith, open_tasks-pump c q t, other))
          (ground (arith, open_rows-pump c q t, other)) (i.busy q e' h)

    kept-IsBusy :
        e.aggregator.received_chunks + 1 < e.aggregator.expected_chunks
        → IsBusy μ asked
            (after_pump (kept o.query_id e o.partial s.coordinator))
            o.query_id
            (record e { aggregator = merged e.aggregator o.partial })
    kept-IsBusy more =
        let q0 : ℕ = o.query_id in
        let c : Coordinator B W = kept q0 e o.partial s.coordinator in
        let self : (q0 == q0) ≡ true = (==_iff q0 q0).1 refl in
        let one_less : open_tasks q0 s ≡ open_tasks q0 (after_pump c) + 1 =
          rw self at (open_tasks-pump c q0 refl) in
        let fewer : open_value μ q0 s ≡ open_value μ q0 (after_pump c) + μ.value o.partial =
          rw self at (open_rows-pump c q0 refl) in
        record {
          reply = b.reply;
          has_reply = b.has_reply;
          waits = omega (arith, b.waits, one_less);
          some_open = omega (arith, b.waits, one_less, more);
          acc_good = μ.add_good e.aggregator.acc o.partial b.acc_good pumped_good;
          rows =
              sum_merged e b.acc_good (open_value μ q0 s) (open_value μ q0 (after_pump c)) fewer
              ∙ b.rows;
        }

    kept-IsSound :
        e.aggregator.received_chunks + 1 < e.aggregator.expected_chunks
        → IsSound μ asked (after_pump (kept o.query_id e o.partial s.coordinator))
    kept-IsSound more =
        let q0 : ℕ = o.query_id in
        let d : InflightQuery W = record e { aggregator = merged e.aggregator o.partial } in
        let c : Coordinator B W = kept q0 e o.partial s.coordinator in
        let s' : System B W = after_pump c in
        record {
          same_store = i.same_store;
          opened = i.opened;
          tasks_in = i.tasks_in;
          running_in = i.running_in;
          ascending = Ascending-insert 0 q0 d s.coordinator.inflight (omega arith) i.ascending;
          unused = λ q h.
              ground
                (arith, at, i.unused q h, get-insert q0 q d s.coordinator.inflight, ==_iff q0 q);
          idle = λ q h. ground (
            arith,
            h,
            get-insert q0 q d s.coordinator.inflight,
            i.idle q,
            open_tasks-pump c q refl,
          );
          busy = λ q e' h. elim (Bool-cases (q0 == q)) [
            | inl same ↦
                let there : d ≡ e' =
                  some-injective _ _
                    (rw same at (sym (get-insert q0 q d s.coordinator.inflight) ∙ h)) in
                subst (λ x. IsBusy μ asked s' x e') ((==_iff q0 q).0 same)
                  (subst (IsBusy μ asked s' q0) there (kept-IsBusy more))
            | inr other ↦
                IsBusy-other c q e' refl other
                  (rw other at (sym (get-insert q0 q d s.coordinator.inflight) ∙ h))
          ];
          outputs_good = later_good;
          answers = i.answers;
          once = λ k.
              i.once k
              ∙ omega
                  (arith, pending-insert_old 0 k q0 e d s.coordinator.inflight i.ascending at refl);
        }

    completed-IsAnswer :
        e.aggregator.received_chunks + 1 ≡ e.aggregator.expected_chunks
        → IsAnswer μ asked b.reply (ok (add_partial e.aggregator.acc o.partial))
    completed-IsAnswer last =
        let q0 : ℕ = o.query_id in
        let c : Coordinator B W = completed q0 b.reply e o.partial s.coordinator in
        let self : (q0 == q0) ≡ true = (==_iff q0 q0).1 refl in
        let fewer : open_value μ q0 s ≡ open_value μ q0 (after_pump c) + μ.value o.partial =
          rw self at (open_rows-pump c q0 refl) in
        let one_less : open_tasks q0 s ≡ open_tasks q0 (after_pump c) + 1 =
          rw self at (open_tasks-pump c q0 refl) in
        let none_left : open_value μ q0 (after_pump c) ≡ 0 =
          open_value_none μ (after_pump c) q0 (omega (arith, b.waits, one_less, last)) in
        (
          add_partial e.aggregator.acc o.partial,
          refl,
          μ.add_value e.aggregator.acc o.partial b.acc_good pumped_good
              ∙ ap μ.norm (omega (arith, fewer, none_left))
              ∙ b.rows,
        )

    completed-IsSound :
        e.aggregator.received_chunks + 1 ≡ e.aggregator.expected_chunks
        → IsSound μ asked (after_pump (completed o.query_id b.reply e o.partial s.coordinator))
    completed-IsSound last =
        let q0 : ℕ = o.query_id in
        let c : Coordinator B W = completed q0 b.reply e o.partial s.coordinator in
        let s' : System B W = after_pump c in
        let self : (q0 == q0) ≡ true = (==_iff q0 q0).1 refl in
        let one_less : open_tasks q0 s ≡ open_tasks q0 s' + 1 =
          rw self at (open_tasks-pump c q0 refl) in
        record {
          same_store = i.same_store;
          opened = i.opened;
          tasks_in = i.tasks_in;
          running_in = i.running_in;
          ascending = Ascending-remove 0 q0 s.coordinator.inflight i.ascending;
          unused = λ q h. ground (arith, i.unused q h, get-remove q0 q s.coordinator.inflight);
          idle = λ q h. elim (Bool-cases (q0 == q)) [
            | inl same ↦
                subst (λ x. open_tasks x s' ≡ 0) ((==_iff q0 q).0 same)
                  (omega (arith, b.waits, one_less, last))
            | inr other ↦ ground (
              arith,
              other,
              open_tasks-pump c q refl,
              i.idle q (rw other at (sym (get-remove q0 q s.coordinator.inflight) ∙ h)),
            )
          ];
          busy = λ q e' h. elim (Bool-cases (q0 == q)) [
            | inl same ↦
                absurd
                  (none_some e' (rw same at (sym (get-remove q0 q s.coordinator.inflight) ∙ h)))
            | inr other ↦
                IsBusy-other c q e' refl other
                  (rw other at (sym (get-remove q0 q s.coordinator.inflight) ∙ h))
          ];
          outputs_good = later_good;
          answers =
              Answered-snoc μ asked s.coordinator.sent b.reply _ i.answers
                (completed-IsAnswer last);
          once = λ k. ground (
            arith,
            i.once k,
            b.has_reply,
            pending-remove 0 k q0 e s.coordinator.inflight i.ascending at,
            tally_sent-snoc k b.reply (ok (add_partial e.aggregator.acc o.partial))
                s.coordinator.sent,
          );
        }
      where
        none_some : (e' : InflightQuery W) → none ≡ some e' → ⊥
        none_some e' h = cc

  pub pump-IsSound : IsSound μ asked (after_pump (finalize o.query_id o.partial s.coordinator))
  pump-IsSound =
      let (e, at) = pump_query in
      let b : IsBusy μ asked s o.query_id e = i.busy o.query_id e at in
      elim (last-cases (e.aggregator.received_chunks + 1) e.aggregator.expected_chunks
        (omega (arith, b.waits, b.some_open))) [
          | inl more ↦
              rw (finalize_more o.query_id o.partial s.coordinator e at more)
                (kept-IsSound e at b more)
          | inr last ↦
              rw (finalize_last o.query_id b.reply o.partial s.coordinator e at b.has_reply last)
                (completed-IsSound e at b last)
        ]
    where
      last-cases : (n k : ℕ) → n ≤ k → (n < k) ⊎ (n ≡ k)
      last-cases n k h = omega arith
