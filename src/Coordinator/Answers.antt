-- ===== src/Coordinator/Answers.antt =====
-- execution/coordinator.rs and execution/worker.rs: the replies of the coordinator with its workers, in
-- every state that submissions and the threads can reach.
use stats_cruncher.Base.{ℕ, ◌+◌, ◌≤◌, ◌≡◌, refl, sym, subst, []}
use stats_cruncher.Float.{Float, IsFloat}
use stats_cruncher.Bitmap.{Bitmap, IsBitmap}
use stats_cruncher.Map.{get, number_key}
use stats_cruncher.Query.{Query}
use stats_cruncher.Config.{AppConfig}
use stats_cruncher.Storage.Store.{ColumnStore}
use stats_cruncher.Storage.Table.{Table, Represents}
use stats_cruncher.Coordinator.{start}
use stats_cruncher.Coordinator.System.{System, Work, Step, Reach}
use stats_cruncher.Coordinator.Inflight.{pending}
use stats_cruncher.Coordinator.Weights.{weigh, weigh_outputs}
use stats_cruncher.Coordinator.Measure.{Measure}
use stats_cruncher.Coordinator.Matched.{matched_measure}
use stats_cruncher.Coordinator.Invariant.{tally, tally_sent, IsSound, Answered, AreAnswers}
use stats_cruncher.Coordinator.Workers.{take-IsSound, finish-IsSound}
use stats_cruncher.Coordinator.Pump.{pump-IsSound}
use stats_cruncher.Coordinator.Skips.{SkipsSoundly}
use stats_cruncher.Coordinator.Zoned.{ZonesEnclose, ZonesEnclose-SkipsSoundly}
use stats_cruncher.Coordinator.Submit.{submit-IsSound}

-- The coordinator that `start` returns, with idle workers.
abbrev pub initial : {B W : Type 0} → AppConfig → ColumnStore B W → System B W
initial cfg st = record { coordinator = start cfg st; running = []; outputs = []; accepted = [] }

module _ {B W : Type 0} ⦃m : Bitmap B⦄ ⦃f : Float W⦄ {st : ColumnStore B W} {table : Table W}
    (μ : Measure st table) (asked : ℕ → Query W) where
  pub Work-IsSound : {s s' : System B W} → Work s s' → IsSound μ asked s → IsSound μ asked s'
  Work-IsSound {s} {s'} w i = elim w [
    | Work.take t ts e room e' ↦ take-IsSound μ asked s s' t ts e e' i
    | Work.finish before after t p e done e' ↦
        finish-IsSound μ asked s s' before after t p s.coordinator.cfg.engine.string_value_counts e
          done e' i
    | Work.pump o os e e' ↦ subst (IsSound μ asked) (sym e') (pump-IsSound μ asked s o os e i)
  ]

  module _ (chunked : 1 ≤ st.chunk_size) (skips : SkipsSoundly st table) (cfg : AppConfig) where
    initial-IsSound : IsSound μ asked (initial cfg st)
    unfolding start weigh weigh_outputs get pending
    initial-IsSound = record {
      same_store = refl;
      opened = refl;
      tasks_in = tt;
      running_in = tt;
      ascending = tt;
      unused = λ q h. refl;
      idle = λ q h. refl;
      busy = λ q e h. cc;
      outputs_good = tt;
      answers = tt;
      once = λ k. refl;
    }

    Step-IsSound : {s s' : System B W} → Step asked s s' → IsSound μ asked s → IsSound μ asked s'
    Step-IsSound {s} {s'} x i = elim x [
      | Step.submit rss k room e' ↦
          subst (IsSound μ asked) (sym e') (submit-IsSound μ chunked skips asked s i k rss room)
      | Step.work w ↦ Work-IsSound w i
    ]

    pub Reach-IsSound : {s : System B W} → Reach asked (initial cfg st) s → IsSound μ asked s
    Reach-IsSound Reach.here = initial-IsSound
    Reach-IsSound (Reach.next reach x) = Step-IsSound x (Reach-IsSound reach)

    -- The responses that have been sent have the value that the query tells.
    pub Reach-Answered :
        {s : System B W} → Reach asked (initial cfg st) s → Answered μ asked s.coordinator.sent
    Reach-Answered reach = (Reach-IsSound reach).answers

module _ {B W : Type 0} ⦃m : Bitmap B⦄ ⦃f : Float W⦄ (laws : IsBitmap B) (st : ColumnStore B W)
    (table : Table W) (r : Represents st table) (asked : ℕ → Query W) (chunked : 1 ≤ st.chunk_size)
    (skips : SkipsSoundly st table) (cfg : AppConfig) where
  -- With sound masks the replies count the rows that satisfy their queries.
  pub skips-AreAnswers :
      {s : System B W}
      → Reach asked (initial cfg st) s
      → AreAnswers st table asked s.coordinator.sent
  skips-AreAnswers reach =
      Reach-Answered (matched_measure laws st table r) asked chunked skips cfg reach

  -- In every state that submissions and the threads reach from `start`, in any order, over a store that represents
  -- a table and whose masks skip only chunks without a satisfying row, every reply whose query was accepted has been sent or is held by a query in flight, exactly
  -- once for each time it was accepted, and no other reply has been sent.
  pub Reach-sent_once :
      {s : System B W}
      → Reach asked (initial cfg st) s
      → (k : ℕ)
      → tally k s.accepted ≡ tally_sent k s.coordinator.sent + pending k s.coordinator.inflight
  Reach-sent_once reach =
      (Reach-IsSound (matched_measure laws st table r) asked chunked skips cfg reach).once

module _ {B W : Type 0} ⦃m : Bitmap B⦄ ⦃f : Float W⦄ (laws : IsBitmap B) (floats : IsFloat W)
    (st : ColumnStore B W) (table : Table W) (r : Represents st table) (asked : ℕ → Query W)
    (zones : ZonesEnclose st table) (cfg : AppConfig) where
  -- In every state that submissions and the threads reach from `start`, in any order, over a store that represents a
  -- table and that has no zones, or zones with the numbers of the partition column in their chunks between
  -- their ends: each reply that has been sent is a response, and its `matched_rows` is the number of rows of
  -- the table that satisfy the query of that reply, modulo 2^64.
  pub Reach-answers :
      {s : System B W}
      → Reach asked (initial cfg st) s
      → AreAnswers st table asked s.coordinator.sent
  Reach-answers reach =
      skips-AreAnswers laws st table r asked r.chunks
        (ZonesEnclose-SkipsSoundly floats st table r.chunks zones) cfg reach
