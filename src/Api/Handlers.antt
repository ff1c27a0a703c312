-- ===== src/Api/Handlers.antt =====
-- api/handlers.rs, and the rejections of api/dto.rs: what `GET /status` and `POST /query` answer. A status
-- code is that of the http crate; the body of an error is not kept. What `submit` returns is a parameter.
use stats_cruncher.Base.{
  ℕ, true, false, Option, none, some, AppResult, ok, err, panic, AppError, ◌>>=◌,
}
use stats_cruncher.Base.Int.{ℤ}
use stats_cruncher.Text.{Text}
use stats_cruncher.Float.{Float}
use stats_cruncher.Query.{Query, Response}
use stats_cruncher.Metrics.{Metrics, snapshot, record_query}
use stats_cruncher.Api.Dto.{QueryRequest, QueryResponse, query_of, query_response}

pub data StatusCode : Type 0 where
  bad_request unsupported_media_type unprocessable_entity internal_server_error : StatusCode

-- `JsonRejection` of axum.
pub data JsonRejection : Type 0 where
  json_syntax_error missing_json_content_type other : JsonRejection

unfoldable pub rejection_status : JsonRejection → StatusCode
rejection_status JsonRejection.json_syntax_error = StatusCode.bad_request
rejection_status JsonRejection.missing_json_content_type = StatusCode.unsupported_media_type
rejection_status JsonRejection.other = StatusCode.unprocessable_entity

pub record WindowCounts : Type 0 where
  pub last_1m : ℕ
  pub last_1h : ℕ
  pub last_24h : ℕ

pub record StatusResponse : Type 0 where
  pub uptime_secs : ℕ
  pub rows_loaded : ℕ
  pub queries : WindowCounts
  pub errors : WindowCounts

unfoldable pub status : ℕ → ℕ → ℕ → Metrics → AppResult StatusResponse
unfolding snapshot
status size now elapsed metrics = do
  s ← snapshot size now elapsed metrics
  ok (record {
    uptime_secs = s.uptime_secs;
    rows_loaded = s.rows_loaded;
    queries = record { last_1m = s.queries_1m; last_1h = s.queries_1h; last_24h = s.queries_24h };
    errors = record { last_1m = s.errors_1m; last_1h = s.errors_1h; last_24h = s.errors_24h };
  })

pub data Reply (W : Type 0) : Type 0 where
  success : QueryResponse W → Reply W
  failure : StatusCode → Reply W

unfoldable pub error_status : AppError → StatusCode
error_status AppError.query = StatusCode.bad_request
error_status _ = StatusCode.internal_server_error

module _ {W : Type 0} ⦃f : Float W⦄ (parse_rfc3339 : Text → Option ℤ) (to_rfc3339 : ℤ → Option Text)
    (float_to_string : W → Text) (submit : Query W → AppResult (Response W)) where
  -- The reply to what `submit` returned, and the metrics after it.
  unfoldable pub replied : ℕ → ℕ → Metrics → AppResult (Response W) → AppResult (Reply W × Metrics)
  unfolding record_query query_response error_status
  replied size ts metrics (ok response) = do
    metrics' ← record_query size ts false metrics
    ok (Reply.success (query_response to_rfc3339 float_to_string response), metrics')
  replied size ts metrics (err e) = do
    metrics' ← record_query size ts true metrics
    ok (Reply.failure (error_status e), metrics')
  replied size ts metrics panic = panic

  unfoldable pub handle_query : ℕ → ℕ → QueryRequest W → Metrics → AppResult (Reply W × Metrics)
  unfolding replied query_of record_query
  handle_query size ts req metrics = elim (query_of parse_rfc3339 req) [
    | none ↦ do
      metrics' ← record_query size ts true metrics
      ok (Reply.failure StatusCode.bad_request, metrics')
    | some query ↦ replied size ts metrics (submit query)
  ]
