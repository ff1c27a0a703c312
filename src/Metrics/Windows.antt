-- ===== src/Metrics/Windows.antt =====
-- metrics.rs: what a snapshot counts.
use stats_cruncher.Base.{
  ℕ, zero, suc, ◌+◌, ◌-◌, ◌%◌, ◌^◌, ◌≤◌, ◌<◌, ◌≡◌, refl, ◌∙◌, ap, subst, inl, inr, Bool, true,
  false, some, List, ◌∷◌, arith, length, get_elem?, range, ltb, ◌==◌, if◌then◌else◌, ok, ◌>>=◌,
  get_elem?_total, Bool-cases,
}
use native.Mathlib.Nat.{mod-lt}
use stats_cruncher.Storage.Lookup.{index_ok}
use stats_cruncher.Metrics.{Bucket, StatusSnapshot, add_bucket, add_ages, snapshot}
use stats_cruncher.Metrics.History.{
  Event, one, one_if, sum_at, sum_within, IsHistory, sum_within-zero, sum_within-suc,
}
use stats_cruncher.Metrics.Ring.{Remembers, recorded, recorded-Remembers}

module _ (size : ℕ) where
  abbrev pub upto : ℕ → ℕ → ℕ
  upto k w = if ltb k w then k else w

  -- The counts after so many ages.
  record Counts (now k : ℕ) (events : List Event) (s : StatusSnapshot) : Type 0 where
    queries_1m : s.queries_1m ≡ sum_within one (upto k 60) now events % 2 ^ 64
    queries_1h : s.queries_1h ≡ sum_within one (upto k 3600) now events % 2 ^ 64
    queries_24h : s.queries_24h ≡ sum_within one k now events % 2 ^ 64
    errors_1m : s.errors_1m ≡ sum_within one_if (upto k 60) now events % 2 ^ 64
    errors_1h : s.errors_1h ≡ sum_within one_if (upto k 3600) now events % 2 ^ 64
    errors_24h : s.errors_24h ≡ sum_within one_if k now events % 2 ^ 64

  -- One age more in a window: it counts if the window reaches that far.
  upto-suc :
      (v : Bool → ℕ) (w now k : ℕ) (events : List Event)
      → k ≤ now
      → sum_within v (upto (suc k) w) now events
        ≡ sum_within v (upto k w) now events + (if ltb k w then sum_at v (now - k) events else 0)
  upto-suc v w now k events l = elim (Bool-cases (ltb k w)) [
    | inl more ↦
        let a : upto (suc k) w ≡ suc k = ground (arith, more) in
        rw (a, more) (sum_within-suc v now k events l)
    | inr enough ↦
        let a : upto (suc k) w ≡ w = ground (arith, enough) in rw (a, enough) (omega arith)
  ]

  Counts-step :
      (now k : ℕ) (events : List Event) (s : StatusSnapshot) (b : Bucket)
      → k ≤ now
      → (if b.ts == now - k then b.queries else 0) ≡ sum_at one (now - k) events % 2 ^ 64
      → (if b.ts == now - k then b.errors else 0) ≡ sum_at one_if (now - k) events % 2 ^ 64
      → Counts now k events s
      → Counts now (suc k) events (if b.ts == now - k then add_bucket size k b s else s)
  unfolding add_bucket
  Counts-step now k events s b l q e c = record {
    queries_1m = ground (arith, l, q, c.queries_1m, upto-suc one 60 now k events l);
    queries_1h = ground (arith, l, q, c.queries_1h, upto-suc one 3600 now k events l);
    queries_24h = ground (arith, l, q, c.queries_24h, sum_within-suc one now k events l);
    errors_1m = ground (arith, l, e, c.errors_1m, upto-suc one_if 60 now k events l);
    errors_1h = ground (arith, l, e, c.errors_1h, upto-suc one_if 3600 now k events l);
    errors_24h = ground (arith, l, e, c.errors_24h, sum_within-suc one_if now k events l);
  }

  add_ages_cons :
      (ring : List Bucket) (now k : ℕ) (ages : List ℕ) (s : StatusSnapshot) (b : Bucket)
      → get_elem? ring ((now - k) % size) ≡ some b
      → add_ages size ring now (k ∷ ages) s
        ≡ add_ages size ring now ages (if b.ts == now - k then add_bucket size k b s else s)
  unfolding add_ages
  add_ages_cons ring now k ages s b at =
      ap
        (λ r. r >>= λ x.
          add_ages size ring now ages (if x.ts == now - k then add_bucket size k x s else s))
        (index_ok ring ((now - k) % size) b at)

  add_ages-Counts :
      (now k n : ℕ) (events : List Event) (ring : List Bucket) (s : StatusSnapshot)
      → 1 ≤ size
      → k + n ≤ size
      → size ≤ suc now
      → Remembers size now events ring
      → Counts now k events s
      → (s' : StatusSnapshot) × (add_ages size ring now (range k n) s ≡ ok s')
        × Counts now (k + n) events s'
        × (s'.uptime_secs ≡ s.uptime_secs)
        × (s'.rows_loaded ≡ s.rows_loaded)
  unfolding add_ages
  add_ages-Counts now k zero events ring s c l y r i =
      (s, refl, subst (λ x. Counts now x events s) (omega arith) i, refl, refl)
  add_ages-Counts now k (suc n) events ring s c l y r i =
      let inside : (now - k) % size < length ring = rw r.whole (mod-lt (now - k) c) in
      let (b, at) = get_elem?_total ring ((now - k) % size) inside in
      let (q, e) = r.in_bucket (now - k) b (omega arith) (omega (arith, l, y)) at in
      let s1 = if b.ts == now - k then add_bucket size k b s else s in
      let (s', done, i', u, w) =
        add_ages-Counts now (suc k) n events ring s1 c (omega (arith, l)) y r
          (Counts-step now k events s b (omega (arith, l, y)) q e i) in
      let (u1, w1) = same_rest k b s (b.ts == now - k) in
      (
        s',
        add_ages_cons ring now k (range (suc k) n) s b at ∙ done,
        subst (λ x. Counts now x events s') (omega arith) i',
        u ∙ u1,
        w ∙ w1,
      )
    where
      same_rest :
          (k : ℕ) (b : Bucket) (s : StatusSnapshot) (p : Bool)
          → ((if p then add_bucket size k b s else s).uptime_secs ≡ s.uptime_secs)
            × ((if p then add_bucket size k b s else s).rows_loaded ≡ s.rows_loaded)
      same_rest k b s true = (refl, refl)
      same_rest k b s false = (refl, refl)

  -- A snapshot of the windows of the last minute, hour and day.
  pub record IsSnapshot (now elapsed rows : ℕ) (events : List Event) (s : StatusSnapshot)
      : Type 0 where
    pub uptime_secs : s.uptime_secs ≡ elapsed
    pub rows_loaded : s.rows_loaded ≡ rows
    pub queries_1m : s.queries_1m ≡ sum_within one 60 now events % 2 ^ 64
    pub queries_1h : s.queries_1h ≡ sum_within one 3600 now events % 2 ^ 64
    pub queries_24h : s.queries_24h ≡ sum_within one size now events % 2 ^ 64
    pub errors_1m : s.errors_1m ≡ sum_within one_if 60 now events % 2 ^ 64
    pub errors_1h : s.errors_1h ≡ sum_within one_if 3600 now events % 2 ^ 64
    pub errors_24h : s.errors_24h ≡ sum_within one_if size now events % 2 ^ 64

  -- With a ring of at least an hour, a clock that does not go back, and at least the length of the ring since
  -- its zero: `record` and `snapshot` succeed, and the snapshot counts the queries and the errors that were
  -- recorded in the last 60 seconds, the last 3600, and as many as the ring has, modulo 2^64.
  pub snapshot-recorded :
      (rows now elapsed : ℕ) (events : List Event)
      → 3600 ≤ size
      → size ≤ suc now
      → IsHistory now events
      → (s : StatusSnapshot) × ((recorded size rows events >>= λ metrics.
            snapshot size now elapsed metrics)
          ≡ ok s)
        × IsSnapshot now elapsed rows events s
  unfolding snapshot
  snapshot-recorded rows now elapsed events hour y h =
      let (metrics, done, same, r) =
        recorded-Remembers size rows now events (omega (arith, hour)) h in
      let (s, counts, c0, u, w) =
        add_ages-Counts now 0 size events metrics.ring _ (omega (arith, hour)) (omega arith) y r
          (nothing metrics.rows_loaded) in
      let c : Counts now size events s = subst (λ x. Counts now x events s) (omega arith) c0 in
      let minute : upto size 60 ≡ 60 = ground (arith, hour) in
      let hours : upto size 3600 ≡ 3600 = ground (arith, hour) in
      (
        s,
        rw done counts,
        record {
          uptime_secs = u;
          rows_loaded = w ∙ same;
          queries_1m = c.queries_1m ∙ ap (λ x. sum_within one x now events % 2 ^ 64) minute;
          queries_1h = c.queries_1h ∙ ap (λ x. sum_within one x now events % 2 ^ 64) hours;
          queries_24h = c.queries_24h;
          errors_1m = c.errors_1m ∙ ap (λ x. sum_within one_if x now events % 2 ^ 64) minute;
          errors_1h = c.errors_1h ∙ ap (λ x. sum_within one_if x now events % 2 ^ 64) hours;
          errors_24h = c.errors_24h;
        },
      )
    where
      nothing :
          (loaded : ℕ)
          → Counts now 0 events (record {
            uptime_secs = elapsed;
            rows_loaded = loaded;
            queries_1m = 0;
            queries_1h = 0;
            queries_24h = 0;
            errors_1m = 0;
            errors_1h = 0;
            errors_24h = 0;
          })
      nothing loaded =
          let q : 0 ≡ sum_within one 0 now events % 2 ^ 64 =
            omega (arith, sum_within-zero one now events h) in
          let e : 0 ≡ sum_within one_if 0 now events % 2 ^ 64 =
            omega (arith, sum_within-zero one_if now events h) in
          record {
            queries_1m = q;
            queries_1h = q;
            queries_24h = q;
            errors_1m = e;
            errors_1h = e;
            errors_24h = e;
          }
