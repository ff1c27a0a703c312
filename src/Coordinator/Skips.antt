-- ===== src/Coordinator/Skips.antt =====
-- execution/coordinator.rs: what it means that the skip masks of a store are sound, and a query without a chunk to
-- look at.
use stats_cruncher.Base.{
  ℕ, ◌+◌, ◌/◌, ◌%◌, ◌≤◌, ◌≡◌, refl, sym, ◌∙◌, ◌⊎◌, inl, inr, arith, ◌==◌, if◌then◌else◌,
}
use native.Mathlib.Nat.{div-add-mod}
use stats_cruncher.Float.{Float}
use stats_cruncher.Map.{number_key}
use stats_cruncher.Query.{Query}
use stats_cruncher.Worker.Meaning.{satisfies}
use stats_cruncher.Storage.Store.{ColumnStore, chunk_count}
use stats_cruncher.Storage.Table.{Table}
use stats_cruncher.Coordinator.{dispatched}
use stats_cruncher.Coordinator.Chunks.{chunks}
use stats_cruncher.Coordinator.Dispatch.{mask_of}
use stats_cruncher.Coordinator.Weights.{Fits}
use stats_cruncher.Coordinator.Numbered.{matching_in, sum_chunks-chunks, sum_chunks_skipped}
use stats_cruncher.Coordinator.Invariant.{matching}

module _ {B W : Type 0} ⦃f : Float W⦄ where
  -- For every query, the skip mask has a bit for each chunk, and skips only chunks without a row that
  -- satisfies the query.
  abbrev pub SkipsSoundly : ColumnStore B W → Table W → Type 0
  SkipsSoundly st table =
      (query : Query W)
      → Fits (matching_in (satisfies query table)) (mask_of query st)
          (chunks st.row_count st.chunk_size)

row_count_none : (n k : ℕ) → (if n % k == 0 then n / k else n / k + 1) ≡ 0 → n ≡ 0
row_count_none n k h =
    let d : n / k ≡ 0 = ground (arith, h) in
    let r : n % k ≡ 0 = ground (arith, h) in sym (div-add-mod n k) ∙ rw (d, r) (omega arith)

module _ {B W : Type 0} ⦃f : Float W⦄ (st : ColumnStore B W) (table : Table W)
    (chunked : 1 ≤ st.chunk_size) (skips : SkipsSoundly st table) (asked : ℕ → Query W)
    (k : ℕ) where
  -- No chunk to look at: no row satisfies the query.
  pub nothing_matches :
      (chunk_count st ≡ 0) ⊎ (dispatched (mask_of (asked k) st) ≡ 0)
      → matching table (asked k) st.row_count ≡ 0
  unfolding chunk_count dispatched
  nothing_matches (inl e) = rw (row_count_none st.row_count st.chunk_size e) refl
  nothing_matches (inr e) =
      sym (sum_chunks-chunks (satisfies (asked k) table) st.row_count st.chunk_size chunked)
      ∙ sum_chunks_skipped (matching_in (satisfies (asked k) table)) (mask_of (asked k) st)
          (chunks st.row_count st.chunk_size) (skips (asked k)) e
