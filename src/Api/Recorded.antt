-- ===== src/Api/Recorded.antt =====
-- api/handlers.rs: what a query leaves in the metrics, against its reply.
use stats_cruncher.Base.{ℕ, ◌≡◌, Bool, true, false, Option, AppResult, ok, arith}
use stats_cruncher.Base.Int.{ℤ}
use stats_cruncher.Text.{Text}
use stats_cruncher.Float.{Float}
use stats_cruncher.Query.{Query, Response}
use stats_cruncher.Metrics.{Metrics, record_query}
use stats_cruncher.Api.Dto.{QueryRequest}
use stats_cruncher.Api.Handlers.{Reply, handle_query, replied}

abbrev pub is_failure : {W : Type 0} → Reply W → Bool
is_failure (Reply.success response) = false
is_failure (Reply.failure status) = true

module _ {W : Type 0} ⦃f : Float W⦄ (parse_rfc3339 : Text → Option ℤ) (to_rfc3339 : ℤ → Option Text)
    (float_to_string : W → Text) (submit : Query W → AppResult (Response W)) where
  -- A query that is answered is recorded once, as an error exactly if the reply is a failure.
  pub handle_query-record_query :
      (size ts : ℕ) (req : QueryRequest W) (metrics metrics' : Metrics) (reply : Reply W)
      → handle_query parse_rfc3339 to_rfc3339 float_to_string submit size ts req metrics
        ≡ ok (reply, metrics')
      → record_query size ts (is_failure reply) metrics ≡ ok metrics'
  unfolding handle_query replied
  handle_query-record_query size ts req metrics metrics' reply h = ground (arith, h)
