-- ===== src/Coordinator/Progress.antt =====
-- execution/coordinator.rs and execution/worker.rs: the workers and the result pump come to an end.
use stats_cruncher.Base.{
  ℕ, zero, suc, ◌+◌, ◌*◌, ◌≤◌, ◌<◌, ◌≡◌, refl, sym, ◌∙◌, ap, subst, ◌⊎◌, inl, inr, none, List, [],
  ◌∷◌, arith, length, length-append, All, Option-cases,
}
use stats_cruncher.Float.{Float, IsFloat}
use stats_cruncher.Bitmap.{Bitmap, IsBitmap}
use stats_cruncher.Map.{get, number_key}
use stats_cruncher.Query.{Query, Response}
use stats_cruncher.Config.{AppConfig}
use stats_cruncher.Worker.{execute}
use stats_cruncher.Storage.Store.{ColumnStore}
use stats_cruncher.Storage.Table.{Table, Represents}
use stats_cruncher.Aggregator.{merge}
use stats_cruncher.Coordinator.{Coordinator, finalize, send_reply}
use stats_cruncher.Coordinator.System.{System, Work, Reach, workers}
use stats_cruncher.Coordinator.Inflight.{pending-none}
use stats_cruncher.Coordinator.Weights.{weigh, weigh_outputs}
use stats_cruncher.Coordinator.Measure.{Measure, InStore}
use stats_cruncher.Coordinator.Matched.{matched_measure}
use stats_cruncher.Coordinator.Invariant.{tally, tally_sent, IsSound, open_tasks, AreAnswers}
use stats_cruncher.Coordinator.Workers.{execute-InStore}
use stats_cruncher.Coordinator.Zoned.{ZonesEnclose, ZonesEnclose-SkipsSoundly}
use stats_cruncher.Coordinator.Skips.{SkipsSoundly}
use stats_cruncher.Coordinator.Answers.{initial, Work-IsSound, Reach-IsSound}

-- What is left to do, each task counted for the steps that it will take.
unfoldable pub remaining : {B W : Type 0} → System B W → ℕ
remaining s = (3 * length s.coordinator.tasks + 2 * length s.running) + length s.outputs

-- No thread has anything to do.
abbrev pub IsQuiet : {B W : Type 0} → System B W → Type 0
IsQuiet s = (s.coordinator.tasks ≡ []) × (s.running ≡ []) × (s.outputs ≡ [])

-- The threads run, and no query is submitted.
pub data Run {B W : Type 0} ⦃m : Bitmap B⦄ ⦃f : Float W⦄ : System B W → System B W → Type 0 where
  stay : {s : System B W} → Run s s
  go : {s t u : System B W} → Work s t → Run t u → Run s u

List-cases : {A : Type 0} (xs : List A) → (xs ≡ []) ⊎ ((x : A) × (ys : List A) × (xs ≡ x ∷ ys))
List-cases [] = inl refl
List-cases (x ∷ xs) = inr (x, xs, refl)

module _ {B W : Type 0} ⦃f : Float W⦄ where
  finalize-tasks : (q : ℕ) (p : Response W) (c : Coordinator B W) → (finalize q p c).tasks ≡ c.tasks
  unfolding finalize merge send_reply
  finalize-tasks q p c = ground arith

module _ {B W : Type 0} ⦃m : Bitmap B⦄ ⦃f : Float W⦄ where
  -- Each step of a thread leaves less to do: without new queries the threads come to rest, whatever the
  -- order of their steps.
  pub work-remaining : {s s' : System B W} → Work s s' → remaining s' < remaining s
  unfolding remaining
  work-remaining {s} {s'} w = elim w [
    | Work.take t ts e room e' ↦ omega (arith, ap remaining e', ap length e)
    | Work.finish before after t p e done e' ↦ omega (
      arith,
      ap remaining e',
      ap length e,
      length-append before after,
      length-append before (t ∷ after),
      length-append s.outputs (record { query_id = t.query_id; partial = p } ∷ []),
    )
    | Work.pump o os e e' ↦ omega (
      arith,
      ap remaining e',
      ap length e,
      ap length (finalize-tasks o.query_id o.partial s.coordinator),
    )
  ]

  accepted-Work : {s s' : System B W} → Work s s' → s'.accepted ≡ s.accepted
  accepted-Work w = elim w [
    | Work.take t ts e room e' ↦ ap (λ x. x.accepted) e'
    | Work.finish before after t p e done e' ↦ ap (λ x. x.accepted) e'
    | Work.pump o os e e' ↦ ap (λ x. x.accepted) e'
  ]

  accepted-Run : {s s' : System B W} → Run s s' → s'.accepted ≡ s.accepted
  accepted-Run Run.stay = refl
  accepted-Run (Run.go w run) = accepted-Run run ∙ accepted-Work w

module _ {B W : Type 0} ⦃m : Bitmap B⦄ ⦃f : Float W⦄ (laws : IsBitmap B) (st : ColumnStore B W)
    (table : Table W) (r : Represents st table) (asked : ℕ → Query W) where
  abbrev μ : Measure st table
  μ = matched_measure laws st table r

  -- At rest no query is in flight.
  IsQuiet-once :
      (s : System B W)
      → IsSound μ asked s
      → IsQuiet s
      → (k : ℕ) → tally k s.accepted ≡ tally_sent k s.coordinator.sent
  unfolding weigh weigh_outputs
  IsQuiet-once s i (no_task, no_running, no_output) k =
      omega (arith, i.once k, pending-none k s.coordinator.inflight none_waits)
    where
      none_open : (q : ℕ) → open_tasks q s ≡ 0
      none_open q = omega (
        arith,
        ap (weigh (λ t. 1) q) no_task,
        ap (weigh (λ t. 1) q) no_running,
        ap (weigh_outputs (λ p. 1) q) no_output,
      )

      none_waits : (q : ℕ) → get q s.coordinator.inflight ≡ none
      none_waits q = elim (Option-cases (get q s.coordinator.inflight)) [
        | inl gone ↦ gone
        | inr (e, at) ↦ absurd (omega (arith, none_open q, (i.busy q e at).some_open))
      ]

  -- A state is at rest, or a thread can take a step.
  IsQuiet-or_work :
      (s : System B W) → IsSound μ asked s → IsQuiet s ⊎ ((s' : System B W) × Work s s')
  IsQuiet-or_work s i = elim (List-cases s.running) [
    | inr (t, ts, e) ↦
        let counts = s.coordinator.cfg.engine.string_value_counts in
        let (p, done, _, _) =
          execute-InStore laws st table r t counts (subst (All (InStore st)) e i.running_in).0 in
        inr (_, Work.finish [] ts t p e (ap (λ x. execute t x counts) i.same_store ∙ done) refl)
    | inl idle ↦ elim (List-cases s.coordinator.tasks) [
      | inr (t, ts, e) ↦ inr (_, Work.take t ts e (some_worker idle) refl)
      | inl no_task ↦ elim (List-cases s.outputs) [
        | inr (o, os, e) ↦ inr (_, Work.pump o os e refl)
        | inl no_output ↦ inl (no_task, idle, no_output)
      ]
    ]
  ]
    where
      some_worker : s.running ≡ [] → length s.running < workers s.coordinator
      some_worker idle = rw idle (ground arith)

  drain :
      (fuel : ℕ) (s : System B W)
      → remaining s ≤ fuel
      → IsSound μ asked s
      → (s' : System B W) × Run s s' × IsSound μ asked s' × IsQuiet s'
  drain zero s h i = elim (IsQuiet-or_work s i) [
    | inl quiet ↦ (s, Run.stay, i, quiet)
    | inr (t, w) ↦ absurd (omega (arith, work-remaining w, h))
  ]
  drain (suc fuel) s h i = elim (IsQuiet-or_work s i) [
    | inl quiet ↦ (s, Run.stay, i, quiet)
    | inr (t, w) ↦
        let (s', run, i', quiet) =
          drain fuel t (omega (arith, work-remaining w, h)) (Work-IsSound μ asked w i) in
        (s', Run.go w run, i', quiet)
  ]

  module _ (chunked : 1 ≤ st.chunk_size) (skips : SkipsSoundly st table) (cfg : AppConfig) where
    drain_all :
        {s : System B W}
        → Reach asked (initial cfg st) s
        → (s' : System B W) × Run s s'
          × IsQuiet s'
          × AreAnswers st table asked s'.coordinator.sent
          × ((k : ℕ) → tally k s.accepted ≡ tally_sent k s'.coordinator.sent)
    drain_all {s} reach =
        let sound = Reach-IsSound μ asked chunked skips cfg reach in
        let (s', run, i, quiet) = drain (remaining s) s (omega arith) sound in
        (
          s',
          run,
          quiet,
          i.answers,
          λ k. ap (tally k) (sym (accepted-Run run)) ∙ IsQuiet-once s' i quiet k,
        )

    -- Over a store that represents a table and whose masks skip only chunks without a satisfying row: in a state
    -- reached from `start` in which no thread can take a step, each accepted reply has been sent
    -- exactly once, and no other reply has been sent.
    pub stuck-sent_once :
        {s : System B W}
        → Reach asked (initial cfg st) s
        → ((s' : System B W) → Work s s' → ⊥)
        → (k : ℕ) → tally k s.accepted ≡ tally_sent k s.coordinator.sent
    stuck-sent_once {s} reach stuck k =
        let sound = Reach-IsSound μ asked chunked skips cfg reach in
        elim (IsQuiet-or_work s sound) [
          | inl quiet ↦ IsQuiet-once s sound quiet k
          | inr (s', w) ↦ absurd (stuck s' w)
        ]

  module _ (floats : IsFloat W) (zones : ZonesEnclose st table) (cfg : AppConfig) where
    -- Over a store that represents a table and that has no zones, or zones with the numbers of the partition column
    -- in their chunks between their ends: from every state that submissions and the threads reach from
    -- `start` the threads have a run to a state in which no task is waiting or running and no output is
    -- waiting, where each accepted reply has been sent exactly once, with the number of rows of the table
    -- that satisfy its query (modulo 2^64).
    pub Reach-drains :
        {s : System B W}
        → Reach asked (initial cfg st) s
        → (s' : System B W) × Run s s'
          × IsQuiet s'
          × AreAnswers st table asked s'.coordinator.sent
          × ((k : ℕ) → tally k s.accepted ≡ tally_sent k s'.coordinator.sent)
    Reach-drains reach =
        drain_all r.chunks (ZonesEnclose-SkipsSoundly floats st table r.chunks zones) cfg reach
