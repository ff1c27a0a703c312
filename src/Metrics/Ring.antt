-- ===== src/Metrics/Ring.antt =====
-- metrics.rs: what the ring remembers of the queries that were recorded.
use stats_cruncher.Base.{
  ℕ, zero, suc, ◌+◌, ◌%◌, ◌^◌, ◌≤◌, ◌<◌, ◌≡◌, refl, sym, ◌∙◌, ap, ◌⊎◌, inl, inr, Bool, false, some,
  List, [], ◌∷◌, arith, length, get_elem?, set, replicate, ◌==◌, if◌then◌else◌, AppResult, ok,
  ◌>>=◌, get_elem?-set, get_elem?_total, length-set, ==_iff, Bool-cases, lt→ltb,
}
use mathlib.Core.Option.{some-injective}
use native.Mathlib.Nat.{mod-lt}
use stats_cruncher.Storage.Lookup.{index_ok}
use stats_cruncher.Metrics
use stats_cruncher.Metrics.{
  Metrics, Bucket, StatusSnapshot, counted, record_query, add_bucket, add_ages, snapshot,
}
use stats_cruncher.Metrics.History.{
  Event, one, one_if, sum_at, IsHistory, sum_at-after, same_bucket,
}

module _ (size : ℕ) where
  -- The ring at a time: it has every second of the last `size` ones in its bucket, or nothing was recorded in it.
  pub record Remembers (now : ℕ) (events : List Event) (ring : List Bucket) : Type 0 where
    pub whole : length ring ≡ size
    pub past : (i : ℕ) (b : Bucket) → get_elem? ring i ≡ some b → b.ts ≤ now
    pub in_bucket :
        (t : ℕ) (b : Bucket)
        → t ≤ now
        → now < t + size
        → get_elem? ring (t % size) ≡ some b
        → ((if b.ts == t then b.queries else 0) ≡ sum_at one t events % 2 ^ 64)
          × ((if b.ts == t then b.errors else 0) ≡ sum_at one_if t events % 2 ^ 64)

  Remembers-later :
      (now later : ℕ) (events : List Event) (ring : List Bucket)
      → now ≤ later
      → IsHistory now events
      → Remembers now events ring
      → Remembers later events ring
  Remembers-later now later events ring l h r = record {
    whole = r.whole;
    past = λ i b e. omega (arith, r.past i b e, l);
    in_bucket = λ t b before near e. elim (order t now) [
      | inl old ↦ r.in_bucket t b old (omega (arith, near, l)) e
      | inr new ↦ (
        ground (arith, r.past (t % size) b e, sum_at-after one now t events h new),
        ground (arith, r.past (t % size) b e, sum_at-after one_if now t events h new),
      )
    ];
  }
    where
      order : (a b : ℕ) → (a ≤ b) ⊎ (b < a)
      order a b = omega arith

  get_elem?-replicate : (n i : ℕ) (a b : Bucket) → get_elem? (replicate n a) i ≡ some b → a ≡ b
  get_elem?-replicate zero i a b e = cc
  get_elem?-replicate (suc n) zero a b e = cc
  get_elem?-replicate (suc n) (suc i) a b e = get_elem?-replicate n i a b e

  length-replicate : (n : ℕ) (a : Bucket) → length (replicate n a) ≡ n
  length-replicate zero a = refl
  length-replicate (suc n) a = ap suc (length-replicate n a)

  new-Remembers : (rows : ℕ) → Remembers 0 [] (Metrics.new size rows).ring
  unfolding Metrics.new
  new-Remembers rows =
      let empty : Bucket = record { ts = 0; queries = 0; errors = 0 } in
      record {
        whole = length-replicate size empty;
        past = λ i b e. omega (arith, ap (λ x. x.ts) (get_elem?-replicate size i empty b e));
        in_bucket = λ t b before near e.
            let same = get_elem?-replicate size (t % size) empty b e in
            (ground (arith, ap (λ x. x.queries) same), ground (arith, ap (λ x. x.errors) same));
      }

  -- The newest second in its bucket.
  counted-Remembers :
      (ts : ℕ) (e : Bool) (events : List Event) (ring : List Bucket) (b : Bucket)
      → Remembers ts events ring
      → 1 ≤ size
      → get_elem? ring (ts % size) ≡ some b
      → Remembers ts ((ts, e) ∷ events) (set ring (ts % size) (counted size ts e b))
  unfolding counted
  counted-Remembers ts e events ring b r some_size at = record {
    whole = length-set ring (ts % size) _ ∙ r.whole;
    past = λ i c h.
        ground (arith, r.past i c, get_elem?-set ring (ts % size) i (counted size ts e b), h);
    in_bucket = λ t c before near h. elim (Bool-cases (ts % size == t % size)) [
      | inl same ↦
          let now : t ≡ ts =
            same_bucket size t ts before near (sym ((==_iff (ts % size) (t % size)).0 same)) in
          let inside : t % size < length ring = rw r.whole (mod-lt t some_size) in
          let found : counted size ts e b ≡ c = some-injective _ _ (
            rw (same, lt→ltb (t % size) (length ring) inside) at
              (sym (get_elem?-set ring (ts % size) (t % size) (counted size ts e b)) ∙ h)) in
          let old = r.in_bucket ts b (omega arith) (omega (arith, some_size)) at in
          (
            ground (arith, now, ap (λ x. x.ts) found, ap (λ x. x.queries) found, old.0),
            ground (arith, now, ap (λ x. x.ts) found, ap (λ x. x.errors) found, old.1),
          )
      | inr other ↦
          let old = r.in_bucket t c before near (
            rw other at
              (sym (get_elem?-set ring (ts % size) (t % size) (counted size ts e b)) ∙ h)) in
          let apart : (ts == t) ≡ false = elim (Bool-cases (ts == t)) [
            | inl e ↦ absurd (ground (arith, other, ap (λ x. x % size) ((==_iff ts t).0 e)))
            | inr n ↦ n
          ] in
          (ground (arith, apart, old.0), ground (arith, apart, old.1))
    ];
  }

  -- The metrics of a service that starts with so many rows, once the events are recorded.
  unfoldable pub recorded : ℕ → List Event → AppResult Metrics
  unfolding record_query Metrics.new
  recorded rows [] = ok (Metrics.new size rows)
  recorded rows ((ts, e) ∷ events) = recorded rows events >>= record_query size ts e

  record_query_ok :
      (ts : ℕ) (e : Bool) (metrics : Metrics) (b : Bucket)
      → get_elem? metrics.ring (ts % size) ≡ some b
      → record_query size ts e metrics
        ≡ ok (record metrics { ring = set metrics.ring (ts % size) (counted size ts e b) })
  unfolding record_query
  record_query_ok ts e metrics b at =
      ap
        (λ r. r >>= λ x.
          ok (record metrics { ring = set metrics.ring (ts % size) (counted size ts e x) }))
        (index_ok metrics.ring (ts % size) b at)

  pub recorded-Remembers :
      (rows now : ℕ) (events : List Event)
      → 1 ≤ size
      → IsHistory now events
      → (metrics : Metrics) × (recorded rows events ≡ ok metrics)
        × (metrics.rows_loaded ≡ rows)
        × Remembers now events metrics.ring
  unfolding recorded record_query Metrics.new
  recorded-Remembers rows now [] some_size h = (
    Metrics.new size rows,
    refl,
    refl,
    Remembers-later 0 now [] _ (omega arith) tt (new-Remembers rows),
  )
  recorded-Remembers rows now ((ts, e) ∷ events) some_size h =
      let (metrics, done, same, r) = recorded-Remembers rows ts events some_size h.1 in
      let inside : ts % size < length metrics.ring = rw r.whole (mod-lt ts some_size) in
      let (b, at) = get_elem?_total metrics.ring (ts % size) inside in
      (
        record metrics { ring = set metrics.ring (ts % size) (counted size ts e b) },
        rw done (record_query_ok ts e metrics b at),
        same,
        Remembers-later ts now ((ts, e) ∷ events) _ h.0 (omega arith, h.1)
            (counted-Remembers ts e events metrics.ring b r some_size at),
      )
