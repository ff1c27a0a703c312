-- ===== src/Coordinator/Dispatch.antt =====
-- execution/coordinator.rs: what `enqueue` leaves in the coordinator, while workers receive from the channel.
use stats_cruncher.Base.{
  ℕ, zero, suc, ◌+◌, ◌%◌, ◌^◌, ◌≤◌, ◌<◌, ◌≡◌, refl, sym, ap, ◌⊎◌, inl, inr, Bool, true, false,
  Option, none, some, List, [], ◌∷◌, ◌++◌, arith, length, get_elem?, All, AppResult, AppError, ok,
  err, panic, Bool-cases, get_elem?_total, ◌≢◌, AppResult-cases, append_nil, snoc_append,
}
use stats_cruncher.Float.{Float}
use stats_cruncher.Map.{insert, number_key}
use stats_cruncher.Query.{Query, Response, default_response}
use stats_cruncher.Worker.{Task}
use stats_cruncher.Storage.Store.{ColumnStore, chunk_count}
use stats_cruncher.Aggregator
use stats_cruncher.Coordinator.Chunks.{Chunk, chunks}
use stats_cruncher.Coordinator.Zones.{build_skip_mask}
use stats_cruncher.Coordinator.Validate.{validate}
use stats_cruncher.Coordinator.{
  Coordinator, dispatch, dispatched, start_query, enqueue, send_reply, next_query_id, admit,
  check_memory,
}

module _ {W : Type 0} where
  abbrev pub task_of : Query W → ℕ → Chunk → Task W
  task_of query query_id chunk = record {
    chunk_id = chunk.index;
    query_id = query_id;
    query = query;
    start = chunk.start;
    end = chunk.end;
  }

  abbrev pub unless_skipped : Option Bool → Task W → List (Task W) → List (Task W)
  unless_skipped none t ts = ts
  unless_skipped (some true) t ts = ts
  unless_skipped (some false) t ts = t ∷ ts

  -- The tasks of the chunks that the mask does not skip.
  unfoldable pub tasks_of : List Bool → Query W → ℕ → List Chunk → List (Task W)
  tasks_of mask query query_id [] = []
  tasks_of mask query query_id (chunk ∷ rest) =
      unless_skipped (get_elem? mask chunk.index) (task_of query query_id chunk)
        (tasks_of mask query query_id rest)

zero-cases : (n : ℕ) → (n ≡ 0) ⊎ (1 ≤ n)
zero-cases zero = inl (omega arith)
zero-cases (suc n) = inr (omega arith)

module _ {B W : Type 0} where
  dispatch-tasks_of :
      (mask : List Bool) (query : Query W) (query_id : ℕ) (cs : List Chunk) (c : Coordinator B W)
      → c.closed ≡ false
      → All (λ chunk. chunk.index < length mask) cs
      → dispatch mask query query_id cs c
        ≡ (ok tt, record c { tasks = c.tasks ++ tasks_of mask query query_id cs })
  unfolding dispatch tasks_of
  dispatch-tasks_of mask query query_id [] c opened h =
      ap (λ ts. (ok tt, record c { tasks = ts })) (sym (append_nil c.tasks))
  dispatch-tasks_of mask query query_id (chunk ∷ rest) c opened h =
      let (skipped, at) = get_elem?_total mask chunk.index h.0 in
      elim (Bool-cases skipped) [
        | inl skips ↦
            ground (arith, at, skips, dispatch-tasks_of mask query query_id rest c opened h.1)
        | inr sends ↦
            let t = task_of query query_id chunk in
            ground (
              arith,
              at,
              sends,
              opened,
              dispatch-tasks_of mask query query_id rest (record c { tasks = c.tasks ++ t ∷ [] })
                  opened h.1,
              snoc_append c.tasks (tasks_of mask query query_id rest) t,
            )
      ]

  -- The coordinator after a query that has passed `validate` is set up, with its tasks in the channel.
  abbrev pub entered : List Bool → Query W → ℕ → Coordinator B W → Coordinator B W
  entered mask query reply c = record c {
    next_id = (c.next_id + 1) % 2 ^ 64;
    inflight =
        insert c.next_id
          (record { aggregator = Aggregator.new (dispatched mask); reply = some reply }) c.inflight;
    tasks = c.tasks ++ tasks_of mask query c.next_id (chunks c.store.row_count c.store.chunk_size);
  }

  abbrev pub answered : ℕ → AppResult (Response W) → Coordinator B W → Coordinator B W
  answered reply r c = record c { sent = c.sent ++ (reply, r) ∷ [] }

module _ {B W : Type 0} ⦃f : Float W⦄ where
  abbrev pub mask_of : Query W → ColumnStore B W → List Bool
  mask_of query st = build_skip_mask (chunk_count st) st query

  -- `enqueue` rejects the query and changes nothing, or answers at once, since there is no chunk to look
  -- at, or enters the query and sends its tasks.
  pub data Enqueued (query : Query W) (reply : ℕ) (c : Coordinator B W) (r : AppResult (Unit {0}))
      (c' : Coordinator B W) : Type 0 where
    rejected : r ≢ ok tt → c' ≡ c → Enqueued query reply c r c'
    at_once :
        r ≡ ok tt
        → (chunk_count c.store ≡ 0) ⊎ (dispatched (mask_of query c.store) ≡ 0)
        → c' ≡ answered reply (ok default_response) c
        → Enqueued query reply c r c'
    in_flight :
        r ≡ ok tt
        → 1 ≤ dispatched (mask_of query c.store)
        → c' ≡ entered (mask_of query c.store) query reply c
        → Enqueued query reply c r c'

  enqueue_rejected :
      (query : Query W) (reply : ℕ) (c : Coordinator B W)
      → ((e : AppError) × (validate query c.store ≡ err e)) ⊎ (validate query c.store ≡ panic)
      → ((enqueue query reply c).0 ≢ ok tt) × ((enqueue query reply c).1 ≡ c)
  unfolding enqueue
  enqueue_rejected query reply c (inl (e, bad)) = (λ q. ground (arith, bad, q), ground (arith, bad))
  enqueue_rejected query reply c (inr bad) = (λ q. ground (arith, bad, q), ground (arith, bad))

  enqueue_at_once :
      (query : Query W) (reply : ℕ) (c : Coordinator B W)
      → validate query c.store ≡ ok tt
      → (chunk_count c.store ≡ 0) ⊎ (dispatched (mask_of query c.store) ≡ 0)
      → enqueue query reply c ≡ (ok tt, answered reply (ok default_response) c)
  unfolding enqueue start_query send_reply
  enqueue_at_once query reply c good h = ground (arith, good, h)

  enqueue_in_flight :
      (query : Query W) (reply : ℕ) (c : Coordinator B W)
      → validate query c.store ≡ ok tt
      → 1 ≤ chunk_count c.store
      → 1 ≤ dispatched (mask_of query c.store)
      → c.closed ≡ false
      → All
          (λ chunk. chunk.index < length (mask_of query c.store))
          (chunks c.store.row_count c.store.chunk_size)
      → enqueue query reply c ≡ (ok tt, entered (mask_of query c.store) query reply c)
  unfolding enqueue start_query next_query_id
  enqueue_in_flight query reply c good some_chunk sends opened h = ground (
    arith,
    good,
    some_chunk,
    sends,
    dispatch-tasks_of (mask_of query c.store) query c.next_id
        (chunks c.store.row_count c.store.chunk_size)
        (record c {
          next_id = (c.next_id + 1) % 2 ^ 64;
          inflight =
              insert c.next_id
                (record {
                  aggregator = Aggregator.new (dispatched (mask_of query c.store));
                  reply = some reply;
                })
                c.inflight;
        })
        opened h,
  )

  enqueue-Enqueued :
      (query : Query W) (reply : ℕ) (c : Coordinator B W)
      → c.closed ≡ false
      → All
          (λ chunk. chunk.index < length (mask_of query c.store))
          (chunks c.store.row_count c.store.chunk_size)
      → Enqueued query reply c (enqueue query reply c).0 (enqueue query reply c).1
  enqueue-Enqueued query reply c opened h = elim (AppResult-cases (validate query c.store)) [
    | inr bad ↦
        let (no_ok, same) = enqueue_rejected query reply c bad in Enqueued.rejected no_ok same
    | inl (u, good) ↦ elim (zero-cases (chunk_count c.store)) [
      | inl empty ↦
          rw (enqueue_at_once query reply c good (inl empty))
            (Enqueued.at_once refl (inl empty) refl)
      | inr some_chunk ↦ elim (zero-cases (dispatched (mask_of query c.store))) [
        | inl none_sent ↦
            rw (enqueue_at_once query reply c good (inr none_sent))
              (Enqueued.at_once refl (inr none_sent) refl)
        | inr sends ↦
            rw (enqueue_in_flight query reply c good some_chunk sends opened h)
              (Enqueued.in_flight refl sends refl)
      ]
    ]
  ]

  -- Above the limit of memory the query is rejected.
  pub admit-Enqueued :
      (rss : ℕ) (query : Query W) (reply : ℕ) (c : Coordinator B W)
      → c.closed ≡ false
      → All
          (λ chunk. chunk.index < length (mask_of query c.store))
          (chunks c.store.row_count c.store.chunk_size)
      → Enqueued query reply c (admit rss query reply c).0 (admit rss query reply c).1
  unfolding admit
  admit-Enqueued rss query reply c opened h =
      elim (AppResult-cases (check_memory c.cfg.engine.memory_limit rss)) [
        | inl (u, good) ↦ rw (admit, good) (enqueue-Enqueued query reply c opened h)
        | inr (inl (e, bad)) ↦ rw (admit, bad) (Enqueued.rejected (λ q. cc) refl)
        | inr (inr bad) ↦ rw (admit, bad) (Enqueued.rejected (λ q. cc) refl)
      ]
