-- ===== src/Coordinator/SortedZones.antt =====
-- execution/coordinator.rs and storage.rs: the chunks of the rows and the zones of the sorted keys, one by one.
use stats_cruncher.Base.{
  ℕ, zero, suc, ◌+◌, ◌-◌, ◌*◌, ◌≤◌, ◌<◌, ◌≡◌, refl, sym, ◌∙◌, ap, subst, ◌⊎◌, inl, inr, Option,
  some, List, [], ◌∷◌, arith, ltb, ltb→lt, Bool-cases, length, get_elem?, All,
}
use mathlib.Core.Option.{some-injective}
use native.Mathlib.Nat.{suc-mul}
use stats_cruncher.Text.{Text}
use stats_cruncher.Map.{get, text_key}
use stats_cruncher.Float.{Float, IsFloat, IsNumber}
use stats_cruncher.Storage.Table.{Cell, Table}
use stats_cruncher.Storage.Sort.{zones_from, zones}
use stats_cruncher.Storage.ZoneEnds.{IsAscending, IsInZone, zones-IsInZone}
use stats_cruncher.Storage.Permuted.{All-get_elem?}
use stats_cruncher.Worker.Meaning.{number_of}
use stats_cruncher.Coordinator.Chunks.{Chunk, chunks, chunks_from, min_nat}
use stats_cruncher.Coordinator.Unzoned.{ceiling, ceiling_none, ceiling_one, ceiling_more}
use stats_cruncher.Coordinator.Zoned.{IsBetween, Encloses}

-- Where the chunk at an index starts and ends.
abbrev Placed : ℕ → ℕ → ℕ → Chunk → Type 0
Placed chunk_size start i c = (c.start ≡ start + i * chunk_size) × (c.end ≤ c.start + chunk_size)

chunks_from-more :
    (fuel row_count chunk_size index start i : ℕ) {c : Chunk}
    → get_elem? (chunks_from fuel row_count chunk_size index start) i ≡ some c
    → start < row_count
unfolding chunks_from
chunks_from-more zero row_count chunk_size index start i h = cc
chunks_from-more (suc fuel) row_count chunk_size index start i h =
    elim (Bool-cases (ltb start row_count)) [
      | inl more ↦ ltb→lt start row_count more
      | inr done ↦ absurd (no_chunk (rw done at h))
    ]
  where
    no_chunk : {c : Chunk} → get_elem? [] i ≡ some c → ⊥
    no_chunk e = cc

Placed-next :
    (row_count chunk_size start i : ℕ) (c : Chunk)
    → min_nat (start + chunk_size) row_count < row_count
    → Placed chunk_size (min_nat (start + chunk_size) row_count) i c
    → Placed chunk_size start (suc i) c
Placed-next row_count chunk_size start i c less (begins, ends) =
    let full : min_nat (start + chunk_size) row_count ≡ start + chunk_size = ground (arith, less) in
    (omega (arith, begins, full, suc-mul i chunk_size), ends)

chunks_from-Placed :
    (fuel row_count chunk_size index start i : ℕ) (c : Chunk)
    → get_elem? (chunks_from fuel row_count chunk_size index start) i ≡ some c
    → Placed chunk_size start i c
unfolding chunks_from
chunks_from-Placed zero row_count chunk_size index start i c h = cc
chunks_from-Placed (suc fuel) row_count chunk_size index start i c h =
    elim (Bool-cases (ltb start row_count)) [
      | inl more ↦
          at_index i (rw more at h) (chunks_from-Placed fuel row_count chunk_size (index + 1) end)
      | inr done ↦ absurd (no_chunk (rw done at h))
    ]
  where
    no_chunk : {c : Chunk} → get_elem? [] i ≡ some c → ⊥
    no_chunk e = cc

    end : ℕ
    end = min_nat (start + chunk_size) row_count

    short : end ≤ start + chunk_size
    short = ground arith

    first : Chunk
    first = record { index = index; start = start; end = end }

    rest : List Chunk
    rest = chunks_from fuel row_count chunk_size (index + 1) end

    at_index :
        (i : ℕ)
        → get_elem? (first ∷ rest) i ≡ some c
        → ((i : ℕ) (c : Chunk) → get_elem? rest i ≡ some c → Placed chunk_size end i c)
        → Placed chunk_size start i c
    at_index zero e later =
        subst (Placed chunk_size start 0) (some-injective _ _ e) (omega arith, short)
    at_index (suc i) e later =
        Placed-next row_count chunk_size start i c
          (chunks_from-more fuel row_count chunk_size (index + 1) end i e) (later i c e)

ceiling_next : (n size : ℕ) → 1 ≤ size → suc (ceiling (n - (size - 1)) size) ≡ ceiling (suc n) size
ceiling_next n size h = elim (order (suc n) size) [
  | inl fits ↦
      let none_left : n - (size - 1) ≡ 0 = omega (arith, fits, h) in
      ap (λ k. suc (ceiling k size)) none_left
      ∙ ap suc (ceiling_none size h)
      ∙ sym (ceiling_one (suc n) size (omega arith) fits)
  | inr more ↦
      let rest : n - (size - 1) ≡ suc n - size = omega (arith, more, h) in
      ap (λ k. suc (ceiling k size)) rest ∙ omega (arith, ceiling_more (suc n) size h more)
]
  where
    order : (n k : ℕ) → (n ≤ k) ⊎ (k < n)
    order n k = omega arith

module _ {W : Type 0} where
  length-zones_from :
      (size left : ℕ) (first last : W) (keys : List W)
      → 1 ≤ size
      → length (zones_from size left first last keys) ≡ suc (ceiling (length keys - left) size)
  unfolding zones_from
  length-zones_from size zero first last [] h = ap suc (sym (ceiling_none size h))
  length-zones_from size (suc left) first last [] h =
      let none_left : 0 - suc left ≡ 0 = omega arith in
      ap suc (sym (ap (λ n. ceiling n size) none_left ∙ ceiling_none size h))
  length-zones_from size zero first last (k ∷ keys) h = ap suc (
      length-zones_from size (size - 1) k k keys h
      ∙ ceiling_next (length keys) size h
      ∙ ap (λ n. ceiling n size) (omega arith))
  length-zones_from size (suc left) first last (k ∷ keys) h =
      length-zones_from size left first k keys h ∙ ap (λ n. suc (ceiling n size)) (omega arith)

  -- As many zones as chunks.
  pub length-zones :
      (size : ℕ) (keys : List W) → 1 ≤ size → length (zones size keys) ≡ ceiling (length keys) size
  unfolding zones
  length-zones size [] h = sym (ceiling_none size h)
  length-zones size (k ∷ keys) h =
      length-zones_from size (size - 1) k k keys h ∙ ceiling_next (length keys) size h

  zones_from-both :
      (P : W → Type 0) (size left : ℕ) (first last : W) (keys : List W)
      → P first
      → P last
      → All P keys
      → All (λ z. P z.0 × P z.1) (zones_from size left first last keys)
  unfolding zones_from
  zones_from-both P size zero first last [] p q h = ((p, q), tt)
  zones_from-both P size (suc left) first last [] p q h = ((p, q), tt)
  zones_from-both P size zero first last (k ∷ keys) p q h =
      ((p, q), zones_from-both P size (size - 1) k k keys h.0 h.0 h.1)
  zones_from-both P size (suc left) first last (k ∷ keys) p q h =
      zones_from-both P size left first k keys p h.0 h.1

  -- The ends of a zone are keys.
  pub zones-both :
      (P : W → Type 0) (size : ℕ) (keys : List W)
      → All P keys
      → All (λ z. P z.0 × P z.1) (zones size keys)
  unfolding zones
  zones-both P size [] h = tt
  zones-both P size (k ∷ keys) h = zones_from-both P size (size - 1) k k keys h.0 h.0 h.1

module _ {W : Type 0} ⦃f : Float W⦄ where
  Encloses-index :
      (table : Table W) (col : Text) (stats : List (W × W)) (cs : List Chunk)
      → length stats ≡ length cs
      → ((i : ℕ) (z : W × W) (c : Chunk)
          → get_elem? stats i ≡ some z
          → get_elem? cs i ≡ some c
          → (row : ℕ) → c.start ≤ row
          → row < c.start + (c.end - c.start)
          → IsBetween table col z.0 z.1 row)
      → Encloses table col stats cs
  Encloses-index table col [] [] l h = tt
  Encloses-index table col ((lo, hi) ∷ stats) (c ∷ cs) l h = (
    λ row. h 0 (lo, hi) c refl refl row,
    Encloses-index table col stats cs (omega (arith, l)) (λ i. h (suc i)),
  )
  Encloses-index table col [] (c ∷ cs) l h = absurd (omega (arith, l))
  Encloses-index table col (z ∷ stats) [] l h = absurd (omega (arith, l))

  IsInZone-ends :
      (k : W) (o : Option (W × W)) (z : W × W) → o ≡ some z → IsInZone k o → IsInZone k (some z)
  IsInZone-ends k o z e h = subst (IsInZone k) e h

  module _ (laws : IsFloat W) where
    -- The zones of sorted keys enclose, chunk by chunk, the numbers that have these keys, when no key is NaN.
    pub zones-Encloses :
        (table : Table W) (col : Text) (cells : List (Cell W)) (rows size : ℕ) (keys : List W)
        → 1 ≤ size
        → get col table ≡ some cells
        → length keys ≡ rows
        → length (chunks rows size) ≡ ceiling rows size
        → IsAscending keys
        → All IsNumber keys
        → ((i : ℕ) (c : Cell W) (x : W)
            → get_elem? cells i ≡ some c
            → number_of c ≡ some x
            → get_elem? keys i ≡ some x)
        → Encloses table col (zones size keys) (chunks rows size)
    unfolding chunks
    zones-Encloses table col cells rows size keys sized named l counted up numbers keyed =
        Encloses-index table col (zones size keys) (chunks rows size)
          (length-zones size keys sized ∙ ap (λ n. ceiling n size) l ∙ sym counted)
          (λ i z c at_z at_c row from till cells' cell x named' at number.
            let (begins, ends) = chunks_from-Placed rows rows size 0 0 i c at_c in
            let same : cells' ≡ cells = some-injective _ _ (sym named' ∙ named) in
            let key = keyed row cell x (sym (ap (λ v. get_elem? v row) same) ∙ at) number in
            let placed : i * size + (row - c.start) ≡ row = omega (arith, begins, from) in
            let inside = IsInZone-ends x (get_elem? (zones size keys) i) z at_z (
              zones-IsInZone laws size keys sized up i (row - c.start) x
                (omega (arith, from, till, ends)) (ap (get_elem? keys) placed ∙ key)) in
            let (lo_number, hi_number) =
              All-get_elem? (λ z. IsNumber z.0 × IsNumber z.1) (zones size keys) i z at_z
                (zones-both IsNumber size keys numbers) in
            let x_number = All-get_elem? IsNumber keys row x key numbers in
            (
              laws.le_of_total z.0 x lo_number x_number inside.0,
              laws.le_of_total x z.1 x_number hi_number inside.1,
            ))
