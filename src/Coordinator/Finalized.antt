-- ===== src/Coordinator/Finalized.antt =====
-- execution/coordinator.rs: what `finalize` does with a partial result, the last one or one before it.
use stats_cruncher.Base.{
  ℕ, ◌+◌, ◌<◌, ◌≡◌, ap, some, List, [], ◌∷◌, ◌++◌, arith, ◌==◌, if◌then◌else◌, ok,
}
use stats_cruncher.Float.{Float}
use stats_cruncher.Map.{get, insert, remove, number_key}
use stats_cruncher.Query.{Response}
use stats_cruncher.Worker.{Task}
use stats_cruncher.Storage.Table.{Table}
use stats_cruncher.Aggregator.{Aggregator, merge, add_partial}
use stats_cruncher.Coordinator.{Coordinator, InflightQuery, finalize, send_reply}
use stats_cruncher.Coordinator.System.{System, WorkerOutput}
use stats_cruncher.Coordinator.Weights.{weigh, weigh_outputs, weigh_none, weigh_outputs_none}
use stats_cruncher.Coordinator.Invariant.{open_tasks, open_value, outstanding, task_value}
use stats_cruncher.Coordinator.Measure.{Measure}
use stats_cruncher.Storage.Store.{ColumnStore}
use stats_cruncher.Bitmap.{Bitmap}

module _ {W : Type 0} ⦃f : Float W⦄ where
  -- The aggregator after one more partial result that is not the last.
  abbrev pub merged : Aggregator W → Response W → Aggregator W
  merged a p = record a { received_chunks = a.received_chunks + 1; acc = add_partial a.acc p }

module _ {B W : Type 0} ⦃f : Float W⦄ where
  abbrev pub kept : ℕ → InflightQuery W → Response W → Coordinator B W → Coordinator B W
  kept q e p c = record c {
    inflight = insert q (record e { aggregator = merged e.aggregator p }) c.inflight;
  }

  abbrev pub completed : ℕ → ℕ → InflightQuery W → Response W → Coordinator B W → Coordinator B W
  completed q k e p c = record c {
    inflight = remove q c.inflight;
    sent = c.sent ++ (k, ok (add_partial e.aggregator.acc p)) ∷ [];
  }

  pub finalize_more :
      (q : ℕ) (p : Response W) (c : Coordinator B W) (e : InflightQuery W)
      → get q c.inflight ≡ some e
      → e.aggregator.received_chunks + 1 < e.aggregator.expected_chunks
      → finalize q p c ≡ kept q e p c
  unfolding finalize merge
  finalize_more q p c e h l = ground (arith, h)

  pub finalize_last :
      (q k : ℕ) (p : Response W) (c : Coordinator B W) (e : InflightQuery W)
      → get q c.inflight ≡ some e
      → e.reply ≡ some k
      → e.aggregator.received_chunks + 1 ≡ e.aggregator.expected_chunks
      → finalize q p c ≡ completed q k e p c
  unfolding finalize merge send_reply
  finalize_last q k p c e h r l = ground (arith, h, r)

module _ {B W : Type 0} where
  -- The first output is taken off the result channel.
  pub outstanding-pump :
      (s s' : System B W) (w : Task W → ℕ) (v : Response W → ℕ) (q : ℕ) (o : WorkerOutput W)
      (os : List (WorkerOutput W))
      → s.outputs ≡ o ∷ os
      → s'.coordinator.tasks ≡ s.coordinator.tasks
      → s'.running ≡ s.running
      → s'.outputs ≡ os
      → outstanding w v q s ≡ outstanding w v q s' + (if o.query_id == q then v o.partial else 0)
  unfolding weigh_outputs
  outstanding-pump s s' w v q o os e t r u = omega (
    arith,
    ap (weigh_outputs v q) e,
    ap (weigh w q) t,
    ap (weigh w q) r,
    ap (weigh_outputs v q) u,
  )

pub open_value_none :
    {B W : Type 0} ⦃m : Bitmap B⦄ ⦃f : Float W⦄ {st : ColumnStore B W} {table : Table W}
    (μ : Measure st table) (t : System B W) (q : ℕ)
    → open_tasks q t ≡ 0
    → open_value μ q t ≡ 0
open_value_none μ t q h = omega (
  arith,
  h,
  weigh_none (task_value μ) q t.coordinator.tasks (omega (arith, h)),
  weigh_none (task_value μ) q t.running (omega (arith, h)),
  weigh_outputs_none μ.value q t.outputs (omega (arith, h)),
)
