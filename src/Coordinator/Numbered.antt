-- ===== src/Coordinator/Numbered.antt =====
-- execution/coordinator.rs: the numbers and the bounds of the chunks, and masks that fit them.
use stats_cruncher.Base.{
  ℕ, zero, suc, ◌+◌, ◌-◌, ◌≤◌, ◌<◌, ◌≡◌, refl, ◌∙◌, ap, subst, Bool, true, false, not, List, [],
  ◌∷◌, ◌++◌, arith, ltb, length, filter, replicate, All, range, inl, inr, Bool-cases,
}
use stats_cruncher.Coordinator.Chunks.{Chunk, chunks, chunks_from, rows_of, rows_of-chunks, min_nat}
use stats_cruncher.Coordinator.Weights.{Fits, Numbered, sum_chunks}

Numbered-chunks_from :
    (fuel row_count chunk_size index start : ℕ)
    → Numbered index (chunks_from fuel row_count chunk_size index start)
unfolding chunks_from
Numbered-chunks_from zero row_count chunk_size index start = tt
Numbered-chunks_from (suc fuel) row_count chunk_size index start =
    elim (Bool-cases (ltb start row_count)) [
      | inl more ↦ rw more (
        refl,
        subst
            (λ i. Numbered i (
              chunks_from fuel row_count chunk_size (index + 1)
                (min_nat (start + chunk_size) row_count)))
            (omega arith)
            (Numbered-chunks_from fuel row_count chunk_size (index + 1)
              (min_nat (start + chunk_size) row_count)),
      )
      | inr done ↦ rw done tt
    ]

pub Numbered-chunks : (row_count chunk_size : ℕ) → Numbered 0 (chunks row_count chunk_size)
unfolding chunks
Numbered-chunks row_count chunk_size = Numbered-chunks_from row_count row_count chunk_size 0 0

-- The index of a chunk is below the length of a mask that fits.
pub index-Fits :
    (g : Chunk → ℕ) (n bound : ℕ) (mask : List Bool) (cs : List Chunk)
    → Numbered n cs
    → Fits g mask cs
    → n + length mask ≤ bound
    → All (λ c. c.index < bound) cs
index-Fits g n bound [] [] k h l = tt
index-Fits g n bound (b ∷ mask) (c ∷ cs) k h l =
    (omega (arith, k.0, l), index-Fits g (suc n) bound mask cs k.1 h.1 (omega (arith, l)))
index-Fits g n bound [] (c ∷ cs) k h l = absurd h
index-Fits g n bound (b ∷ mask) [] k h l = absurd h

abbrev pub IsRange : ℕ → Chunk → Type 0
IsRange row_count c = (c.start ≤ c.end) × (c.end ≤ row_count)

IsRange-chunks_from :
    (fuel row_count chunk_size index start : ℕ)
    → All (IsRange row_count) (chunks_from fuel row_count chunk_size index start)
unfolding chunks_from
IsRange-chunks_from zero row_count chunk_size index start = tt
IsRange-chunks_from (suc fuel) row_count chunk_size index start =
    elim (Bool-cases (ltb start row_count)) [
      | inl more ↦ rw more (
        ground (arith, more),
        IsRange-chunks_from fuel row_count chunk_size (index + 1)
            (min_nat (start + chunk_size) row_count),
      )
      | inr done ↦ rw done tt
    ]

pub IsRange-chunks :
    (row_count chunk_size : ℕ) → All (IsRange row_count) (chunks row_count chunk_size)
unfolding chunks
IsRange-chunks row_count chunk_size = IsRange-chunks_from row_count row_count chunk_size 0 0

-- A mask that skips nothing fits.
pub Fits-replicate : (g : Chunk → ℕ) (cs : List Chunk) → Fits g (replicate (length cs) false) cs
Fits-replicate g [] = tt
Fits-replicate g (c ∷ cs) = (λ h. cc, Fits-replicate g cs)

filter-append :
    (p : ℕ → Bool) (xs ys : List ℕ)
    → length (filter p (xs ++ ys)) ≡ length (filter p xs) + length (filter p ys)
filter-append p [] ys = omega arith
filter-append p (x ∷ xs) ys = ground (arith, filter-append p xs ys)

abbrev pub matching_in : (ℕ → Bool) → Chunk → ℕ
matching_in p c = length (filter p (range c.start (c.end - c.start)))

sum_chunks-rows_of :
    (p : ℕ → Bool) (cs : List Chunk)
    → sum_chunks (matching_in p) cs ≡ length (filter p (rows_of cs))
unfolding rows_of
sum_chunks-rows_of p [] = refl
sum_chunks-rows_of p (c ∷ cs) =
    omega (
      arith,
      sum_chunks-rows_of p cs,
      filter-append p (range c.start (c.end - c.start)) (rows_of cs),
    )

-- The rows that pass a test, chunk by chunk.
pub sum_chunks-chunks :
    (p : ℕ → Bool) (row_count chunk_size : ℕ)
    → 1 ≤ chunk_size
    → sum_chunks (matching_in p) (chunks row_count chunk_size)
      ≡ length (filter p (range 0 row_count))
sum_chunks-chunks p row_count chunk_size h =
    sum_chunks-rows_of p (chunks row_count chunk_size)
    ∙ ap (λ rows. length (filter p rows)) (rows_of-chunks row_count chunk_size h)

-- Nothing is sent: every chunk is skipped.
pub sum_chunks_skipped :
    (g : Chunk → ℕ) (mask : List Bool) (cs : List Chunk)
    → Fits g mask cs
    → length (filter not mask) ≡ 0
    → sum_chunks g cs ≡ 0
sum_chunks_skipped g [] [] h e = refl
sum_chunks_skipped g (true ∷ mask) (c ∷ cs) h e =
    omega (arith, h.0 refl, sum_chunks_skipped g mask cs h.1 e)
sum_chunks_skipped g (false ∷ mask) (c ∷ cs) h e = absurd (omega (arith, e))
sum_chunks_skipped g [] (c ∷ cs) h e = absurd h
sum_chunks_skipped g (b ∷ mask) [] h e = absurd h
