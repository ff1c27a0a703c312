-- ===== src/Coordinator/Chunks.antt =====
-- execution/coordinator.rs: the chunks that the loop of `enqueue` passes through.
use stats_cruncher.Base.{
  ℕ, zero, suc, ◌+◌, ◌-◌, ◌≤◌, ◌<◌, ◌≡◌, refl, ◌∙◌, ap, ap₂, inl, inr, List, [], ◌∷◌, ◌++◌, arith,
  ltb, if◌then◌else◌, range, Bool-cases, ltb→lt,
}

pub record Chunk : Type 0 where
  pub index : ℕ
  pub start : ℕ
  pub end : ℕ

abbrev pub min_nat : ℕ → ℕ → ℕ
min_nat a b = if ltb b a then b else a

-- `while start < row_count { … }`, with fuel for the rounds.
unfoldable pub chunks_from : ℕ → ℕ → ℕ → ℕ → ℕ → List Chunk
chunks_from zero row_count chunk_size index start = []
chunks_from (suc fuel) row_count chunk_size index start =
    let end = min_nat (start + chunk_size) row_count in
    let rest = chunks_from fuel row_count chunk_size (index + 1) end in
    if ltb start row_count then record { index = index; start = start; end = end } ∷ rest else []

unfoldable pub chunks : ℕ → ℕ → List Chunk
unfolding chunks_from
chunks row_count chunk_size = chunks_from row_count row_count chunk_size 0 0

unfoldable pub rows_of : List Chunk → List ℕ
rows_of [] = []
rows_of (c ∷ cs) = range c.start (c.end - c.start) ++ rows_of cs

range-append : (s a b : ℕ) → range s a ++ range (s + a) b ≡ range s (a + b)
range-append s zero b = ap₂ (λ t n. range t n) (omega arith) (omega arith)
range-append s (suc a) b =
    let moved : s + suc a ≡ suc s + a = omega arith in
    let grown : suc a + b ≡ suc (a + b) = omega arith in
    rw (moved, grown) (ap (◌∷◌ s) (range-append (suc s) a b))

-- A chunk of the rows from `start` on, and the rest.
range-split :
    (start end row_count : ℕ)
    → start ≤ end
    → end ≤ row_count
    → range start (end - start) ++ range end (row_count - end) ≡ range start (row_count - start)
range-split start end row_count h k =
    let moved : end ≡ start + (end - start) = omega arith in
    let total : row_count - start ≡ (end - start) + (row_count - end) = omega arith in
    rw total (
      ap (λ t. range start (end - start) ++ range t (row_count - end)) moved
      ∙ range-append start (end - start) (row_count - end))

rows_of-chunks_from :
    (fuel row_count chunk_size index start : ℕ)
    → 1 ≤ chunk_size
    → row_count ≤ start + fuel
    → rows_of (chunks_from fuel row_count chunk_size index start) ≡ range start (row_count - start)
unfolding chunks_from rows_of
rows_of-chunks_from zero row_count chunk_size index start h k =
    let none_left : row_count - start ≡ 0 = omega arith in rw none_left refl
rows_of-chunks_from (suc fuel) row_count chunk_size index start h k =
    elim (Bool-cases (ltb start row_count)) [
      | inl more ↦
          let below = ltb→lt start row_count more in
          let end = min_nat (start + chunk_size) row_count in
          let after : start < end = ground arith in
          let within : end ≤ row_count = ground arith in
          rw more (
            ap (◌++◌ (range start (end - start)))
              (rows_of-chunks_from fuel row_count chunk_size (index + 1) end h (omega arith))
            ∙ range-split start end row_count (omega arith) within)
      | inr done ↦ let none_left : row_count - start ≡ 0 = ground arith in rw (done, none_left) refl
    ]

-- With a positive chunk size the chunks of a store hold each of its rows once, in order: the loop ends
-- within `row_count` rounds and leaves no row out.
pub rows_of-chunks :
    (row_count chunk_size : ℕ)
    → 1 ≤ chunk_size
    → rows_of (chunks row_count chunk_size) ≡ range 0 row_count
unfolding chunks
rows_of-chunks row_count chunk_size h =
    rows_of-chunks_from row_count row_count chunk_size 0 0 h (omega arith)
    ∙ ap (λ n. range 0 n) (omega arith)
