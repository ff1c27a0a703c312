-- ===== src/Coordinator/Entered.antt =====
-- execution/coordinator.rs: a query that is entered with its tasks keeps the invariant.
use stats_cruncher.Base.{
  ℕ, ◌+◌, ◌^◌, ◌≤◌, ◌<◌, ◌≡◌, refl, sym, ◌∙◌, ap, subst, inl, inr, Bool, true, false, Option, none,
  some, List, [], ◌∷◌, arith, ◌==◌, get_elem?, All, Bool-cases, ==_iff,
}
use mathlib.Core.Option.{some-injective}
use stats_cruncher.Float.{Float}
use stats_cruncher.Bitmap.{Bitmap}
use stats_cruncher.Map.{get, get-insert, number_key}
use stats_cruncher.Query.{Query, Response}
use stats_cruncher.Worker.{Task}
use stats_cruncher.Worker.Meaning.{satisfies}
use stats_cruncher.Storage.Store.{ColumnStore}
use stats_cruncher.Storage.Table.{Table}
use stats_cruncher.Aggregator
use stats_cruncher.Coordinator.{Coordinator, InflightQuery, dispatched}
use stats_cruncher.Coordinator.Chunks.{Chunk, chunks}
use stats_cruncher.Coordinator.System.{System}
use stats_cruncher.Coordinator.Dispatch.{mask_of, entered, tasks_of, unless_skipped}
use stats_cruncher.Coordinator.Inflight.{Ascending-insert, pending-insert_new}
use stats_cruncher.Coordinator.Weights.{
  weigh, weigh-append, weigh-tasks_of, weigh-tasks_of_other, count-tasks_of, Fits, Numbered,
  sum_chunks,
}
use stats_cruncher.Coordinator.Numbered.{Numbered-chunks, IsRange-chunks, IsRange, matching_in}
use stats_cruncher.Coordinator.Workers.{append-All}
use stats_cruncher.Coordinator.Finalized.{open_value_none}
use stats_cruncher.Coordinator.Measure.{
  Measure, InStore, total, chunk_value, chunk_value-Fits, sum_chunks-total,
}
use stats_cruncher.Coordinator.Invariant.{
  outstanding, open_tasks, task_value, IsSound, IsBusy, IsBusy-same,
}
use stats_cruncher.Coordinator.Skips.{SkipsSoundly}

module _ {B W : Type 0} ⦃m : Bitmap B⦄ ⦃f : Float W⦄ {st : ColumnStore B W} {table : Table W}
    (μ : Measure st table) (chunked : 1 ≤ st.chunk_size) (skips : SkipsSoundly st table)
    (asked : ℕ → Query W) (s : System B W) (i : IsSound μ asked s) (k : ℕ) where
  abbrev pub accepting : Coordinator B W → System B W
  accepting c = record s { coordinator = c; accepted = k ∷ s.accepted }

  abbrev pub skip_mask : List Bool
  skip_mask = mask_of (asked k) s.coordinator.store

  abbrev pub all_chunks : List Chunk
  all_chunks = chunks s.coordinator.store.row_count s.coordinator.store.chunk_size

  abbrev pub sent_tasks : List (Task W)
  sent_tasks = tasks_of skip_mask (asked k) s.coordinator.next_id all_chunks

  pub mask-Fits : Fits (matching_in (satisfies (asked k) table)) skip_mask all_chunks
  mask-Fits =
      subst
        (λ x.
          Fits (matching_in (satisfies (asked k) table)) (mask_of (asked k) x)
            (chunks x.row_count x.chunk_size))
        (sym i.same_store) (skips (asked k))

  pub numbered : Numbered 0 all_chunks
  numbered = Numbered-chunks s.coordinator.store.row_count s.coordinator.store.chunk_size

  sent_value : μ.norm (weigh (task_value μ) s.coordinator.next_id sent_tasks) ≡ total μ (asked k)
  sent_value =
      ap μ.norm (
        weigh-tasks_of (task_value μ) (chunk_value μ (asked k)) s.coordinator.next_id (asked k)
          skip_mask all_chunks (λ c. refl) numbered
          (chunk_value-Fits μ (asked k) skip_mask all_chunks mask-Fits))
      ∙ ap (λ x. μ.norm (sum_chunks (chunk_value μ (asked k)) (chunks x.row_count x.chunk_size)))
          i.same_store
      ∙ sum_chunks-total μ (asked k) chunked

  sent_count : weigh (λ t. 1) s.coordinator.next_id sent_tasks ≡ dispatched skip_mask
  sent_count =
      count-tasks_of (matching_in (satisfies (asked k) table)) s.coordinator.next_id (asked k)
        skip_mask all_chunks numbered mask-Fits

  tasks_of-InStore :
      (mask : List Bool) (cs : List Chunk)
      → All (IsRange st.row_count) cs
      → All (InStore st) (tasks_of mask (asked k) s.coordinator.next_id cs)
  unfolding tasks_of
  tasks_of-InStore mask [] h = tt
  tasks_of-InStore mask (c ∷ cs) h =
      unless_skipped-All (get_elem? mask c.index) _ _ h.0 (tasks_of-InStore mask cs h.1)
    where
      unless_skipped-All :
          (b : Option Bool) (t : Task W) (ts : List (Task W))
          → InStore st t
          → All (InStore st) ts
          → All (InStore st) (unless_skipped b t ts)
      unless_skipped-All none t ts p q = q
      unless_skipped-All (some true) t ts p q = q
      unless_skipped-All (some false) t ts p q = (p, q)

  abbrev pub entered_system : System B W
  entered_system = accepting (entered skip_mask (asked k) k s.coordinator)

  open-entered :
      (w : Task W → ℕ) (v : Response W → ℕ) (q : ℕ)
      → outstanding w v q entered_system ≡ outstanding w v q s + weigh w q sent_tasks
  open-entered w v q = omega (arith, weigh-append w q s.coordinator.tasks sent_tasks)

  -- The new tasks weigh nothing for another query.
  untouched :
      (w : Task W → ℕ) (v : Response W → ℕ) (q : ℕ)
      → (s.coordinator.next_id == q) ≡ false
      → outstanding w v q entered_system ≡ outstanding w v q s
  untouched w v q other = omega (
    arith,
    open-entered w v q,
    weigh-tasks_of_other w q s.coordinator.next_id skip_mask (asked k) all_chunks other,
  )

  entered-IsBusy :
      open_tasks s.coordinator.next_id s ≡ 0
      → 1 ≤ dispatched skip_mask
      → IsBusy μ asked entered_system s.coordinator.next_id
          (record { aggregator = Aggregator.new (dispatched skip_mask); reply = some k })
  unfolding Aggregator.new
  entered-IsBusy none_open sends =
      let q0 : ℕ = s.coordinator.next_id in
      let sent : open_tasks q0 entered_system ≡ dispatched skip_mask =
        omega (arith, open-entered (λ t. 1) (λ p. 1) q0, sent_count, none_open) in
      record {
        reply = k;
        has_reply = refl;
        acc_good = μ.default_good;
        waits = omega (arith, sent);
        some_open = omega (arith, sent, sends);
        rows =
            ap μ.norm (
              omega (
                arith,
                μ.default_value,
                open-entered (task_value μ) μ.value q0,
                open_value_none μ s q0 none_open,
              ))
            ∙ sent_value;
      }

  pub entered-IsSound :
      s.coordinator.next_id + 1 < 2 ^ 64 → 1 ≤ dispatched skip_mask → IsSound μ asked entered_system
  entered-IsSound room sends =
      let q0 : ℕ = s.coordinator.next_id in
      let d : InflightQuery W = record {
        aggregator = Aggregator.new (dispatched skip_mask);
        reply = some k;
      } in
      let free : get q0 s.coordinator.inflight ≡ none = i.unused q0 (omega arith) in
      let none_open : open_tasks q0 s ≡ 0 = i.idle q0 free in
      record {
        same_store = i.same_store;
        opened = i.opened;
        tasks_in = append-All (InStore st) s.coordinator.tasks sent_tasks i.tasks_in (
            tasks_of-InStore skip_mask all_chunks (
              subst {A = ColumnStore B W}
                (λ x. All (IsRange st.row_count) (chunks x.row_count x.chunk_size))
                (sym i.same_store) (IsRange-chunks st.row_count st.chunk_size)));
        running_in = i.running_in;
        ascending = Ascending-insert 0 q0 d s.coordinator.inflight (omega arith) i.ascending;
        unused = λ q h.
            ground
              (arith, room, i.unused q, get-insert q0 q d s.coordinator.inflight, h, ==_iff q0 q);
        idle = λ q h. ground (
          arith,
          h,
          get-insert q0 q d s.coordinator.inflight,
          i.idle q,
          open-entered (λ t. 1) (λ p. 1) q,
          weigh-tasks_of_other (λ t. 1) q q0 skip_mask (asked k) all_chunks,
        );
        busy = λ q e h. elim (Bool-cases (q0 == q)) [
          | inl same ↦
              let there : d ≡ e =
                some-injective _ _
                  (rw same at (sym (get-insert q0 q d s.coordinator.inflight) ∙ h)) in
              subst (λ x. IsBusy μ asked entered_system x e) ((==_iff q0 q).0 same)
                (subst (IsBusy μ asked entered_system q0) there (entered-IsBusy none_open sends))
          | inr other ↦
              IsBusy-same μ asked s entered_system q e (untouched (λ t. 1) (λ p. 1) q other)
                (untouched (task_value μ) μ.value q other)
                (i.busy q e (rw other at (sym (get-insert q0 q d s.coordinator.inflight) ∙ h)))
        ];
        outputs_good = i.outputs_good;
        answers = i.answers;
        once = λ j.
            ground (
              arith,
              i.once j,
              pending-insert_new 0 j q0 d s.coordinator.inflight i.ascending free,
            );
      }
