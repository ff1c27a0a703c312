-- ===== src/Coordinator/System.antt =====
-- execution/coordinator.rs and execution/worker.rs: the coordinator with its workers and its result pump,
-- as a step relation. A state holds the tasks that workers have taken and the outputs in the result
-- channel; the tasks in the task channel are in the coordinator.
use stats_cruncher.Base.{
  ℕ, ◌+◌, ◌^◌, ◌<◌, ◌≡◌, List, [], ◌∷◌, ◌++◌, ltb, if◌then◌else◌, length, AppResult, ok, err, panic,
}
use stats_cruncher.Float.{Float}
use stats_cruncher.Bitmap.{Bitmap}
use stats_cruncher.Query.{Query, Response}
use stats_cruncher.Worker.{Task, execute}
use stats_cruncher.Coordinator.{Coordinator, admit, finalize}

pub record WorkerOutput (W : Type 0) : Type 0 where
  pub query_id : ℕ
  pub partial : Response W

-- `accepted` is the history of the replies whose query `enqueue` has accepted; the program has no such field.
pub record System (B W : Type 0) : Type 0 where
  pub coordinator : Coordinator B W
  pub running : List (Task W)
  pub outputs : List (WorkerOutput W)
  pub accepted : List ℕ

-- `cfg.engine.worker_threads.max(1)`
abbrev pub workers : {B W : Type 0} → Coordinator B W → ℕ
workers c = if ltb c.cfg.engine.worker_threads 1 then 1 else c.cfg.engine.worker_threads

abbrev pub note_accepted : AppResult (Unit {0}) → ℕ → List ℕ → List ℕ
note_accepted (ok u) reply replies = reply ∷ replies
note_accepted (err e) reply replies = replies
note_accepted panic reply replies = replies

module _ {B W : Type 0} ⦃m : Bitmap B⦄ ⦃f : Float W⦄ where
  unfoldable pub submitted : ℕ → Query W → ℕ → System B W → System B W
  submitted rss query reply s =
      let (r, c) = admit rss query reply s.coordinator in
      record s { coordinator = c; accepted = note_accepted r reply s.accepted }

  -- What the threads do: an idle worker takes the first task of the channel, a worker finishes its task
  -- (in any order among the workers), and the pump hands the first output to the coordinator.
  pub data Work (s s' : System B W) : Type 0 where
    take :
        (t : Task W) (ts : List (Task W))
        → s.coordinator.tasks ≡ t ∷ ts
        → length s.running < workers s.coordinator
        → s'
          ≡ record s { coordinator = record s.coordinator { tasks = ts }; running = t ∷ s.running }
        → Work s s'
    finish :
        (before after : List (Task W)) (t : Task W) (p : Response W)
        → s.running ≡ before ++ t ∷ after
        → execute t s.coordinator.store s.coordinator.cfg.engine.string_value_counts ≡ ok p
        → s' ≡ record s {
          running = before ++ after;
          outputs = s.outputs ++ record { query_id = t.query_id; partial = p } ∷ [];
        }
        → Work s s'
    pump :
        (o : WorkerOutput W) (os : List (WorkerOutput W))
        → s.outputs ≡ o ∷ os
        → s' ≡ record s { coordinator = finalize o.query_id o.partial s.coordinator; outputs = os }
        → Work s s'

  -- A query is submitted with the reply that it has in `asked`, whatever the resident set size; the counter
  -- of queries does not wrap.
  pub data Step (asked : ℕ → Query W) (s s' : System B W) : Type 0 where
    submit :
        (rss reply : ℕ)
        → s.coordinator.next_id + 1 < 2 ^ 64
        → s' ≡ submitted rss (asked reply) reply s
        → Step asked s s'
    work : Work s s' → Step asked s s'

  pub data Reach (asked : ℕ → Query W) (s : System B W) : System B W → Type 0 where
    here : Reach asked s s
    next : {t u : System B W} → Reach asked s t → Step asked t u → Reach asked s u
