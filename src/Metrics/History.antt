-- ===== src/Metrics/History.antt =====
-- metrics.rs: the history of the queries that were recorded, and what it adds up to.
use stats_cruncher.Base.{
  ℕ, suc, ◌+◌, ◌-◌, ◌/◌, ◌%◌, ◌≤◌, ◌<◌, ◌≡◌, refl, ◌⊎◌, inl, inr, Bool, List, [], ◌∷◌, arith, ltb,
  ◌==◌, if◌then◌else◌,
}
use native.Mathlib.Nat.{div-add-mod, mul-le-mul_left, mul-suc}

-- A query that was recorded: its second, and whether it was an error.
abbrev pub Event : Type 0
Event = ℕ × Bool

abbrev pub one : Bool → ℕ
one is_error = 1

abbrev pub one_if : Bool → ℕ
one_if is_error = if is_error then 1 else 0

module _ (v : Bool → ℕ) where
  -- What was recorded in a second, and in the last `w` seconds up to `now`.
  abbrev pub sum_at : ℕ → List Event → ℕ
  sum_at t [] = 0
  sum_at t ((ts, e) ∷ events) = (if ts == t then v e else 0) + sum_at t events

  abbrev pub sum_within : ℕ → ℕ → List Event → ℕ
  sum_within w now [] = 0
  sum_within w now ((ts, e) ∷ events) =
      (if ltb now (ts + w) then v e else 0) + sum_within w now events

-- The newest event first, and none after `now`.
abbrev pub IsHistory : ℕ → List Event → Type 0
IsHistory now [] = Unit {0}
IsHistory now ((ts, e) ∷ events) = (ts ≤ now) × IsHistory ts events

pub IsHistory-later :
    (now later : ℕ) (events : List Event)
    → now ≤ later
    → IsHistory now events
    → IsHistory later events
IsHistory-later now later [] l h = tt
IsHistory-later now later ((ts, e) ∷ events) l h = (omega (arith, h.0, l), h.1)

pub sum_at-after :
    (v : Bool → ℕ) (now t : ℕ) (events : List Event)
    → IsHistory now events
    → now < t
    → sum_at v t events ≡ 0
sum_at-after v now t [] h l = refl
sum_at-after v now t ((ts, e) ∷ events) h l =
    ground (arith, h.0, sum_at-after v ts t events h.1 (omega (arith, h.0, l)))

pub sum_within-zero :
    (v : Bool → ℕ) (now : ℕ) (events : List Event)
    → IsHistory now events
    → sum_within v 0 now events ≡ 0
sum_within-zero v now events h = go now events h (omega arith)
  where
    go :
        (last : ℕ) (events : List Event)
        → IsHistory last events
        → last ≤ now
        → sum_within v 0 now events ≡ 0
    go last [] h l = refl
    go last ((ts, e) ∷ events) h l = ground (arith, h.0, go ts events h.1 (omega (arith, h.0, l)))

-- One second more.
pub sum_within-suc :
    (v : Bool → ℕ) (now w : ℕ) (events : List Event)
    → w ≤ now
    → sum_within v (suc w) now events ≡ sum_within v w now events + sum_at v (now - w) events
sum_within-suc v now w [] l = omega arith
sum_within-suc v now w ((ts, e) ∷ events) l = ground (arith, sum_within-suc v now w events l)

-- Two seconds that share a bucket are the same, or a whole ring apart.
pub same_bucket : (size t u : ℕ) → t ≤ u → u < t + size → t % size ≡ u % size → t ≡ u
same_bucket size t u l near same = elim (order (t / size) (u / size)) [
  | inl less ↦ absurd (
      omega (
        arith,
        div-add-mod t size,
        div-add-mod u size,
        same,
        near,
        mul-le-mul_left size less,
        mul-suc size (t / size),
      ))
  | inr more ↦
      omega (arith, div-add-mod t size, div-add-mod u size, same, l, mul-le-mul_left size more)
]
  where
    order : (a b : ℕ) → (suc a ≤ b) ⊎ (b ≤ a)
    order a b = omega arith
