-- ===== src/Coordinator/Unzoned.antt =====
-- execution/coordinator.rs and storage.rs: the skip masks of a store without zone statistics.
use stats_cruncher.Base.{
  ℕ, zero, suc, ◌+◌, ◌-◌, ◌/◌, ◌%◌, ◌≤◌, ◌<◌, ◌≡◌, refl, sym, ◌∙◌, ap, subst, ◌⊎◌, inl, inr, false,
  none, arith, ltb, ltb→lt, ◌==◌, if◌then◌else◌, length, replicate, Bool-cases,
}
use native.Mathlib.Nat.{
  div-eq_of_lt, div-eq-sub-div, div_self, mod-eq_of_lt, mod-eq-sub-mod, mod_self,
}
use stats_cruncher.Float.{Float}
use stats_cruncher.Worker.Meaning.{satisfies}
use stats_cruncher.Storage.Store.{ColumnStore, chunk_count}
use stats_cruncher.Storage.Table.{Table}
use stats_cruncher.Coordinator.Zones.{build_skip_mask}
use stats_cruncher.Coordinator.Chunks.{chunks, chunks_from, min_nat}
use stats_cruncher.Coordinator.Weights.{Fits}
use stats_cruncher.Coordinator.Numbered.{Fits-replicate, matching_in}
use stats_cruncher.Coordinator.Skips.{SkipsSoundly}

-- As `chunk_count` divides, rounding up.
abbrev pub ceiling : ℕ → ℕ → ℕ
ceiling n k = if n % k == 0 then n / k else n / k + 1

pub ceiling_none : (k : ℕ) → 1 ≤ k → ceiling 0 k ≡ 0
ceiling_none k h = rw (mod-eq_of_lt {n = 0} {m = k} h, div-eq_of_lt {n = 0} {m = k} h) refl

pub ceiling_one : (n k : ℕ) → 1 ≤ n → n ≤ k → ceiling n k ≡ 1
ceiling_one n k h l = elim (order n k l) [
  | inl less ↦ ground (arith, mod-eq_of_lt less, div-eq_of_lt less)
  | inr same ↦ subst (λ x. ceiling n x ≡ 1) same (ground (arith, mod_self n, div_self {n = n} h))
]
  where
    order : (n k : ℕ) → n ≤ k → (n < k) ⊎ (n ≡ k)
    order n k h = omega arith

pub ceiling_more : (n k : ℕ) → 1 ≤ k → k < n → ceiling n k ≡ ceiling (n - k) k + 1
ceiling_more n k h l = ground (
  arith,
  mod-eq-sub-mod {n = n} {m = k} (omega arith),
  div-eq-sub-div {m = k} {n = n} h (omega arith),
)

length-chunks_from :
    (fuel row_count chunk_size index start : ℕ)
    → 1 ≤ chunk_size
    → row_count ≤ start + fuel
    → length (chunks_from fuel row_count chunk_size index start)
      ≡ ceiling (row_count - start) chunk_size
unfolding chunks_from
length-chunks_from zero row_count chunk_size index start h k =
    sym (ap (λ n. ceiling n chunk_size) none_left ∙ ceiling_none chunk_size h)
  where
    none_left : row_count - start ≡ 0
    none_left = omega (arith, k)
length-chunks_from (suc fuel) row_count chunk_size index start h k =
    elim (Bool-cases (ltb start row_count)) [
      | inl more ↦
          let end = min_nat (start + chunk_size) row_count in
          let after : start < end = ground (arith, more) in
          let rest =
            length-chunks_from fuel row_count chunk_size (index + 1) end h
              (omega (arith, after, k)) in
          rw more (
            ap suc rest ∙ step (order (start + chunk_size) row_count) (ltb→lt start row_count more))
      | inr done ↦
          rw done (
            sym (ap (λ n. ceiling n chunk_size) (ground (arith, done)) ∙ ceiling_none chunk_size h))
    ]
  where
    order : (a b : ℕ) → (b ≤ a) ⊎ (a < b)
    order a b = omega arith

    step :
        (row_count ≤ start + chunk_size) ⊎ (start + chunk_size < row_count)
        → start < row_count
        → suc (ceiling (row_count - min_nat (start + chunk_size) row_count) chunk_size)
          ≡ ceiling (row_count - start) chunk_size
    step (inl last) l =
        let none_left : row_count - min_nat (start + chunk_size) row_count ≡ 0 =
          ground (arith, last) in
        ap (λ n. suc (ceiling n chunk_size)) none_left
        ∙ ap suc (ceiling_none chunk_size h)
        ∙ sym (ceiling_one (row_count - start) chunk_size (omega (arith, l)) (omega (arith, last)))
    step (inr full) l =
        let left : row_count - min_nat (start + chunk_size) row_count
            ≡ (row_count - start) - chunk_size =
          ground (arith, full) in
        ap (λ n. suc (ceiling n chunk_size)) left
        ∙ omega (arith, ceiling_more (row_count - start) chunk_size h (omega (arith, full)))

-- A store has as many chunks as `chunk_count` says.
pub length-chunks :
    {B W : Type 0} (st : ColumnStore B W)
    → 1 ≤ st.chunk_size
    → length (chunks st.row_count st.chunk_size) ≡ chunk_count st
unfolding chunks chunk_count
length-chunks st h =
    length-chunks_from st.row_count st.row_count st.chunk_size 0 0 h (omega arith)
    ∙ ap (λ n. ceiling n st.chunk_size) (omega arith)

module _ {B W : Type 0} ⦃f : Float W⦄ where
  -- Without zone statistics no chunk is skipped.
  pub unzoned-SkipsSoundly :
      (st : ColumnStore B W) (table : Table W)
      → 1 ≤ st.chunk_size
      → st.zone_stats ≡ none
      → SkipsSoundly st table
  unfolding build_skip_mask chunk_count
  unzoned-SkipsSoundly st table h e query = rw e (
      subst
        (λ n.
          Fits (matching_in (satisfies query table)) (replicate n false)
            (chunks st.row_count st.chunk_size))
        (length-chunks st h)
        (Fits-replicate (matching_in (satisfies query table)) (chunks st.row_count st.chunk_size)))
