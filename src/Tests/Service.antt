-- ===== src/Tests/Service.antt =====
-- Examples of the service at work: the coordinator with its workers, the handlers and the watcher.
use stats_cruncher.Base.{
  ℕ, ◌+◌, ◌≡◌, ◌<◌, refl, true, false, Option, none, some, List, [], ◌∷◌, ◌++◌, arith, AppResult,
  ok, err, AppError, ◌>>=◌,
}
use stats_cruncher.Base.Int.{ℤ}
use stats_cruncher.Text.{Text, text, beq}
use stats_cruncher.Float.Sample.{Sample, samples, num, samples-IsFloat}
use stats_cruncher.Bitmap.Sample.{Bits, bits, bits-IsBitmap}
use stats_cruncher.Query.{Query, Response, observe_all}
use stats_cruncher.Config.{AppConfig, SourceConfig}
use stats_cruncher.Storage.Store.{ColumnStore, chunk_count}
use stats_cruncher.Worker.{Task, execute}
use stats_cruncher.Coordinator.{
  enqueue, finalize, start, admit, check_memory, start_query, dispatch, send_reply,
}
use stats_cruncher.Coordinator.System.{System, Work, Step, Reach, submitted, WorkerOutput}
use stats_cruncher.Coordinator.Inflight.{pending}
use stats_cruncher.Coordinator.Invariant.{tally, tally_sent, AreAnswers}
use stats_cruncher.Coordinator.Skips.{SkipsSoundly}
use stats_cruncher.Coordinator.Unzoned.{unzoned-SkipsSoundly}
use stats_cruncher.Coordinator.Answers.{initial, Reach-sent_once}
use stats_cruncher.Coordinator.Progress.{
  Run, IsQuiet, Reach-drains, stuck-sent_once, remaining, work-remaining,
}
use stats_cruncher.Coordinator.Zones.{build_skip_mask}
use stats_cruncher.Coordinator.Chunks.{chunks}
use stats_cruncher.Coordinator.Validate.{validate}
use stats_cruncher.Map.{get, text_key, number_key, insert, remove}
use stats_cruncher.Query.Stats.{stats_of}
use stats_cruncher.Aggregator
use stats_cruncher.Aggregator.{merge}
use stats_cruncher.Metrics.{Metrics, record_query}
use stats_cruncher.Api.Dto.{QueryRequest, query_of}
use stats_cruncher.Api.Handlers.{Reply, StatusCode, handle_query, replied, error_status}
use stats_cruncher.Api.Recorded.{handle_query-record_query}
use stats_cruncher.Ingestion.{Adapter, Ingestor}
use stats_cruncher.Reload.{Watcher, bootstrap, tick}
use stats_cruncher.Reload.Serving.{Round, IsServing, rounds, bootstrap-rounds-IsServing, tick_keeps}
use stats_cruncher.Tests.Store.{two_rows, two_cells, a_from_3, two_rows-Represents}

abbrev pub one_worker : AppConfig
one_worker = record {
  source = SourceConfig.csv (text "t.csv") none false;
  engine = record {
    memory_limit = 1000;
    chunk_size_rows = 1;
    worker_threads = 1;
    string_value_counts = false;
    reload_interval_mins = 0;
  };
  api = record { bind = text "" };
  searchable = [];
  partition_column = none;
}

abbrev pub always_a : ℕ → Query Sample
always_a k = a_from_3

pub two_rows-SkipsSoundly : SkipsSoundly two_rows two_cells
two_rows-SkipsSoundly = unzoned-SkipsSoundly two_rows two_cells (omega arith) refl

abbrev pub task_at : ℕ → Task Sample
task_at i = record { chunk_id = i; query_id = 1; query = a_from_3; start = i; end = i + 1 }

abbrev pub waiting : System Bits Sample
waiting = record {
  coordinator = record {
    cfg = one_worker;
    store = two_rows;
    next_id = 2;
    inflight = (1, record { aggregator = Aggregator.new 2; reply = some 7 }) ∷ [];
    tasks = task_at 0 ∷ task_at 1 ∷ [];
    closed = false;
    sent = [];
  };
  running = [];
  outputs = [];
  accepted = 7 ∷ [];
}

-- A query is submitted.
submit_7 : Step always_a (initial one_worker two_rows) waiting
unfolding submitted admit check_memory enqueue start get beq build_skip_mask chunk_count validate
    send_reply dispatch start_query chunks insert
submit_7 = Step.submit 100 7 (omega arith) refl

abbrev pub partial_0 : Response Sample
partial_0 = record {
  matched_rows = 1;
  numeric = (text "n", stats_of (num 3 ∷ [])) ∷ [];
  column_types = [];
  string_counts = [];
}

abbrev pub partial_1 : Response Sample
partial_1 = record {
  matched_rows = 0;
  numeric = (text "n", stats_of []) ∷ [];
  column_types = [];
  string_counts = [];
}

done_0 : execute (task_at 0) two_rows false ≡ ok partial_0
unfolding execute get beq insert observe_all
done_0 = refl

done_1 : execute (task_at 1) two_rows false ≡ ok partial_1
unfolding execute get beq insert observe_all
done_1 = refl

abbrev pub output_0 : WorkerOutput Sample
output_0 = record { query_id = 1; partial = partial_0 }

abbrev pub output_1 : WorkerOutput Sample
output_1 = record { query_id = 1; partial = partial_1 }

abbrev pub with_state :
    List (Task Sample) → List (Task Sample) → List (WorkerOutput Sample) → System Bits Sample
with_state tasks running outputs = record waiting {
  coordinator = record waiting.coordinator { tasks = tasks };
  running = running;
  outputs = outputs;
}

take_0 : Work waiting (with_state (task_at 1 ∷ []) (task_at 0 ∷ []) [])
take_0 = Work.take (task_at 0) (task_at 1 ∷ []) refl (omega arith) refl

finish_0 :
    Work
      (with_state (task_at 1 ∷ []) (task_at 0 ∷ []) [])
      (with_state (task_at 1 ∷ []) [] (output_0 ∷ []))
finish_0 = Work.finish [] [] (task_at 0) partial_0 refl done_0 refl

take_1 :
    Work
      (with_state (task_at 1 ∷ []) [] (output_0 ∷ []))
      (with_state [] (task_at 1 ∷ []) (output_0 ∷ []))
take_1 = Work.take (task_at 1) [] refl (omega arith) refl

finish_1 :
    Work
      (with_state [] (task_at 1 ∷ []) (output_0 ∷ []))
      (with_state [] [] (output_0 ∷ output_1 ∷ []))
finish_1 = Work.finish [] [] (task_at 1) partial_1 refl done_1 refl

-- The pump has merged the first partial result.
abbrev pub half : System Bits Sample
half = record (with_state [] [] (output_1 ∷ [])) {
  coordinator = finalize 1 partial_0 (record waiting.coordinator { tasks = [] });
}

-- The reply has been sent.
abbrev pub whole : System Bits Sample
whole = record half { coordinator = finalize 1 partial_1 half.coordinator; outputs = [] }

pub Reach-whole : Reach always_a (initial one_worker two_rows) whole
Reach-whole =
    Reach.next
      (Reach.next
        (Reach.next
          (Reach.next
            (Reach.next (Reach.next (Reach.next Reach.here submit_7) (Step.work take_0))
              (Step.work finish_0))
            (Step.work take_1))
          (Step.work finish_1))
        (Step.work (Work.pump output_0 (output_1 ∷ []) refl refl)))
      (Step.work (Work.pump output_1 [] refl refl))

Reach-sent_once_example :
    tally 7 whole.accepted
    ≡ tally_sent 7 whole.coordinator.sent + pending 7 whole.coordinator.inflight
Reach-sent_once_example =
    Reach-sent_once bits-IsBitmap two_rows two_cells two_rows-Represents always_a (omega arith)
      two_rows-SkipsSoundly one_worker Reach-whole 7

Reach-drains_example :
    (s' : System Bits Sample) × Run waiting s'
    × IsQuiet s'
    × AreAnswers two_rows two_cells always_a s'.coordinator.sent
    × ((k : ℕ) → tally k waiting.accepted ≡ tally_sent k s'.coordinator.sent)
Reach-drains_example =
    Reach-drains bits-IsBitmap two_rows two_cells two_rows-Represents always_a samples-IsFloat tt
      one_worker (Reach.next Reach.here submit_7)

whole_stuck : (s' : System Bits Sample) → Work whole s' → ⊥
unfolding finalize get insert remove send_reply merge Aggregator.new
whole_stuck s' w = elim w [
  | Work.take t ts e room e' ↦ no_cons t ts e
  | Work.finish before after t p e done e' ↦ no_append before after t e
  | Work.pump o os e e' ↦ no_cons o os e
]
  where
    no_cons : {A : Type 0} (x : A) (xs : List A) → [] ≡ x ∷ xs → ⊥
    no_cons x xs e = cc

    no_append : {A : Type 0} (before after : List A) (x : A) → [] ≡ before ++ x ∷ after → ⊥
    no_append [] after x e = cc
    no_append (y ∷ before) after x e = cc

stuck-sent_once_example : tally 7 whole.accepted ≡ tally_sent 7 whole.coordinator.sent
stuck-sent_once_example =
    stuck-sent_once bits-IsBitmap two_rows two_cells two_rows-Represents always_a (omega arith)
      two_rows-SkipsSoundly one_worker Reach-whole whole_stuck 7

work-remaining_example :
    remaining (with_state (task_at 1 ∷ []) (task_at 0 ∷ []) []) < remaining waiting
work-remaining_example = work-remaining take_0

-- One bucket is enough for one second.
abbrev no_queries : Metrics
no_queries = record { rows_loaded = 2; ring = record { ts = 0; queries = 0; errors = 0 } ∷ [] }

abbrev one_error : Metrics
one_error = record { rows_loaded = 2; ring = record { ts = 5; queries = 1; errors = 1 } ∷ [] }

abbrev any_row : QueryRequest Sample
any_row = record { must = []; must_not = []; ranges = [] }

abbrev refuse : Query Sample → AppResult (Response Sample)
refuse query = err AppError.query

abbrev no_date : Text → Option ℤ
no_date t = none

abbrev no_text : ℤ → Option Text
no_text i = none

refused :
    handle_query no_date no_text (λ x. text "") refuse 1 5 any_row no_queries
    ≡ ok (Reply.failure StatusCode.bad_request, one_error)
unfolding handle_query query_of replied record_query error_status
refused = refl

handle_query-record_query_example : record_query 1 5 true no_queries ≡ ok one_error
handle_query-record_query_example =
    handle_query-record_query no_date no_text (λ x. text "") refuse 1 5 any_row no_queries one_error
      (Reply.failure StatusCode.bad_request) refused

abbrev give_rows : Ingestor → AppResult (Option (ColumnStore Bits Sample)) × Ingestor
give_rows g = (ok (some two_rows), record g { last_loaded = some 5 })

abbrev give_none : Ingestor → AppResult (Option (ColumnStore Bits Sample)) × Ingestor
give_none g = (ok none, g)

abbrev loading : Round Bits Sample
loading = record { mtime = none; loaded = err AppError.config; run_reload = give_rows }

abbrev resting : Round Bits Sample
resting = record { mtime = some 9; loaded = ok one_worker; run_reload = give_none }

abbrev serving : Watcher Bits Sample
serving = record {
  state = record { coordinator = start one_worker two_rows; metrics = no_queries };
  cfg = one_worker;
  last_cfg_mtime = none;
  ingestor = record { adapter = Adapter.csv_ingestor; cfg = one_worker; last_loaded = some 5 };
}

two_rounds :
    (bootstrap 1 none one_worker give_rows >>= rounds (loading ∷ resting ∷ [])) ≡ ok serving
unfolding bootstrap rounds tick
two_rounds = refl

bootstrap-rounds-IsServing_example : IsServing serving
bootstrap-rounds-IsServing_example =
    bootstrap-rounds-IsServing 1 none one_worker give_rows (loading ∷ resting ∷ []) serving
      two_rounds

resting_round : tick resting.mtime resting.loaded resting.run_reload serving ≡ ok serving
unfolding tick
resting_round = refl

tick_keeps_example :
    (serving.state ≡ serving.state)
    × (serving.cfg ≡ serving.cfg)
    × (serving.last_cfg_mtime ≡ serving.last_cfg_mtime)
tick_keeps_example = tick_keeps resting serving serving (λ g. refl) resting_round
