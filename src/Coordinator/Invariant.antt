-- ===== src/Coordinator/Invariant.antt =====
-- execution/coordinator.rs: the invariant of the coordinator with its workers, over a store that represents
-- a table and whose skip masks are sound.
use stats_cruncher.Base.{
  ℕ, ◌+◌, ◌-◌, ◌%◌, ◌^◌, ◌≤◌, ◌≡◌, ◌∙◌, false, none, some, List, [], ◌∷◌, ◌++◌, arith, ◌==◌,
  if◌then◌else◌, length, filter, All, range, AppResult, ok,
}
use stats_cruncher.Float.{Float}
use stats_cruncher.Bitmap.{Bitmap}
use stats_cruncher.Map.{get, number_key}
use stats_cruncher.Query.{Query, Response}
use stats_cruncher.Worker.{Task}
use stats_cruncher.Worker.Meaning.{satisfies}
use stats_cruncher.Storage.Store.{ColumnStore}
use stats_cruncher.Storage.Table.{Table}
use stats_cruncher.Coordinator.{InflightQuery}
use stats_cruncher.Coordinator.System.{System}
use stats_cruncher.Coordinator.Inflight.{Ascending, pending}
use stats_cruncher.Coordinator.Weights.{weigh, weigh_outputs}
use stats_cruncher.Coordinator.Measure.{Measure, InStore, rows_in, total}

abbrev pub tally : ℕ → List ℕ → ℕ
tally k [] = 0
tally k (x ∷ xs) = (if x == k then 1 else 0) + tally k xs

module _ {W : Type 0} where
  abbrev pub tally_sent : ℕ → List (ℕ × AppResult (Response W)) → ℕ
  tally_sent k [] = 0
  tally_sent k ((x, r) ∷ xs) = (if x == k then 1 else 0) + tally_sent k xs

  pub tally_sent-snoc :
      (k x : ℕ) (r : AppResult (Response W)) (xs : List (ℕ × AppResult (Response W)))
      → tally_sent k (xs ++ (x, r) ∷ []) ≡ tally_sent k xs + (if x == k then 1 else 0)
  tally_sent-snoc k x r [] = omega arith
  tally_sent-snoc k x r (y ∷ xs) = omega (arith, tally_sent-snoc k x r xs)

  -- The responses that were sent have a value that the query tells.
  abbrev pub AreMeasured :
      (Response W → ℕ) → (Query W → ℕ) → (ℕ → Query W) → List (ℕ × AppResult (Response W)) → Type 0
  AreMeasured value total asked [] = Unit {0}
  AreMeasured value total asked ((k, r) ∷ sent) =
      ((response : Response W) × (r ≡ ok response) × (value response ≡ total (asked k)))
      × AreMeasured value total asked sent

  -- Answers that have one value have another that is the same.
  pub AreMeasured-same :
      (value : Response W → ℕ) (total total' : Query W → ℕ) (asked : ℕ → Query W)
      → ((query : Query W) → total query ≡ total' query)
      → (sent : List (ℕ × AppResult (Response W))) → AreMeasured value total asked sent
      → AreMeasured value total' asked sent
  AreMeasured-same value total total' asked same [] a = tt
  AreMeasured-same value total total' asked same ((k, r) ∷ sent) a =
      let (response, e, count) = a.0 in
      (
        (response, e, count ∙ same (asked k)),
        AreMeasured-same value total total' asked same sent a.1,
      )

  -- What the tasks and the outputs of a query weigh, wherever they are.
  abbrev pub outstanding : {B : Type 0} → (Task W → ℕ) → (Response W → ℕ) → ℕ → System B W → ℕ
  outstanding w v q s =
      (weigh w q s.coordinator.tasks + weigh w q s.running) + weigh_outputs v q s.outputs

  abbrev pub open_tasks : {B : Type 0} → ℕ → System B W → ℕ
  open_tasks q s = outstanding (λ t. 1) (λ p. 1) q s

module _ {W : Type 0} ⦃f : Float W⦄ (table : Table W) where
  abbrev pub matching : Query W → ℕ → ℕ
  matching query rows = length (filter (satisfies query table) (range 0 rows))

-- Each answer counts the rows of the table that satisfy the query.
abbrev pub AreAnswers :
    {B W : Type 0} ⦃f : Float W⦄
    → ColumnStore B W
    → Table W
    → (ℕ → Query W)
    → List (ℕ × AppResult (Response W))
    → Type 0
AreAnswers st table asked sent =
    AreMeasured (λ p. p.matched_rows) (λ query. matching table query st.row_count % 2 ^ 64) asked
      sent

module _ {B W : Type 0} ⦃m : Bitmap B⦄ ⦃f : Float W⦄ {st : ColumnStore B W} {table : Table W}
    (μ : Measure st table) where
  -- What the rows of a task that satisfy its query come to.
  abbrev pub task_value : Task W → ℕ
  task_value t = μ.of_rows (rows_in table t.query t.start (t.end - t.start))

  abbrev pub open_value : ℕ → System B W → ℕ
  open_value q s = outstanding task_value μ.value q s

module _ {B W : Type 0} ⦃m : Bitmap B⦄ ⦃f : Float W⦄ {st : ColumnStore B W} {table : Table W}
    (μ : Measure st table) (asked : ℕ → Query W) where
  -- An answer has the value that the rows of the table that satisfy the query come to.
  abbrev pub IsAnswer : ℕ → AppResult (Response W) → Type 0
  IsAnswer k r =
      (response : Response W) × (r ≡ ok response) × (μ.value response ≡ total μ (asked k))

  abbrev pub Answered : List (ℕ × AppResult (Response W)) → Type 0
  Answered sent = AreMeasured μ.value (total μ) asked sent

  -- A query in flight has a reply to send; it waits for as many partial results as it has open tasks, at
  -- least one, and what has been merged so far and the open tasks come to what the query should have.
  pub record IsBusy (s : System B W) (q : ℕ) (e : InflightQuery W) : Type 0 where
    pub reply : ℕ
    pub has_reply : e.reply ≡ some reply
    pub waits : e.aggregator.received_chunks + open_tasks q s ≡ e.aggregator.expected_chunks
    pub some_open : 1 ≤ open_tasks q s
    pub acc_good : μ.Merged e.aggregator.acc
    pub rows : μ.norm (μ.value e.aggregator.acc + open_value μ q s) ≡ total μ (asked reply)

  pub record IsSound (s : System B W) : Type 0 where
    pub same_store : s.coordinator.store ≡ st
    pub opened : s.coordinator.closed ≡ false
    pub tasks_in : All (InStore st) s.coordinator.tasks
    pub running_in : All (InStore st) s.running
    pub ascending : Ascending 0 s.coordinator.inflight
    pub unused : (q : ℕ) → s.coordinator.next_id ≤ q → get q s.coordinator.inflight ≡ none
    pub idle : (q : ℕ) → get q s.coordinator.inflight ≡ none → open_tasks q s ≡ 0
    pub busy : (q : ℕ) (e : InflightQuery W) → get q s.coordinator.inflight ≡ some e → IsBusy s q e
    pub outputs_good : All (λ o. μ.Good o.partial) s.outputs
    pub answers : Answered s.coordinator.sent
    -- Each accepted reply has been sent or is held by a query in flight, once.
    pub once :
        (k : ℕ)
        → tally k s.accepted ≡ tally_sent k s.coordinator.sent + pending k s.coordinator.inflight

  pub Answered-snoc :
      (sent : List (ℕ × AppResult (Response W))) (k : ℕ) (r : AppResult (Response W))
      → Answered sent
      → IsAnswer k r
      → Answered (sent ++ (k, r) ∷ [])
  Answered-snoc [] k r a i = (i, tt)
  Answered-snoc ((j, p) ∷ sent) k r a i = (a.0, Answered-snoc sent k r a.1 i)

  -- Two states with the same queries in flight and the same open tasks.
  pub IsBusy-same :
      (s s' : System B W) (q : ℕ) (e : InflightQuery W)
      → open_tasks q s' ≡ open_tasks q s
      → open_value μ q s' ≡ open_value μ q s
      → IsBusy s q e
      → IsBusy s' q e
  IsBusy-same s s' q e p r b = record {
    reply = b.reply;
    acc_good = b.acc_good;
    has_reply = b.has_reply;
    waits = omega (arith, p, b.waits);
    some_open = omega (arith, p, b.some_open);
    rows = rw r b.rows;
  }
