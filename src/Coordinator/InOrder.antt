-- ===== src/Coordinator/InOrder.antt =====
-- storage.rs and execution/coordinator.rs: the order of the sorted rows, and the zones of the sorted keys.
use stats_cruncher.Base.{
  ℕ, zero, suc, ◌≤◌, ◌≡◌, sym, ◌∙◌, ap, subst, inl, inr, true, some, List, [], ◌∷◌, arith,
  get_elem?,
}
use mathlib.Core.Option.{some-injective}
use stats_cruncher.Text.{Text}
use stats_cruncher.Map.{get, text_key}
use stats_cruncher.Float.{Float, IsFloat}
use stats_cruncher.Bitmap.{Bitmap}
use stats_cruncher.Storage.Store.{ColumnStore, chunk_count}
use stats_cruncher.Storage.Table.{Cell, Table}
use stats_cruncher.Storage.Sort.{zones}
use stats_cruncher.Storage.ZoneEnds.{IsAscending, IsAscendingFrom}
use stats_cruncher.Storage.Permuted.{pick, permuted, get-permuted}
use stats_cruncher.Storage.KeyCells.{HasNoNan}
use stats_cruncher.Storage.SortBy.{SortedBy}
use stats_cruncher.Worker.Meaning.{number_of}
use stats_cruncher.Coordinator.Chunks.{chunks}
use stats_cruncher.Coordinator.Skips.{SkipsSoundly}
use stats_cruncher.Coordinator.Unzoned.{length-chunks}
use stats_cruncher.Coordinator.Zoned.{Encloses, zoned-SkipsSoundly}
use stats_cruncher.Coordinator.SortedZones.{zones-Encloses}

module _ {W : Type 0} ⦃f : Float W⦄ where
  -- The numbers in the column rise from row to row, in the order of `total_cmp`.
  abbrev pub IsInOrder : Text → Table W → Type 0
  IsInOrder name table =
      (cells : List (Cell W)) (i j : ℕ) (c d : Cell W) (x y : W)
      → get name table ≡ some cells
      → i ≤ j
      → get_elem? cells i ≡ some c
      → get_elem? cells j ≡ some d
      → number_of c ≡ some x
      → number_of d ≡ some y
      → f.total_le x y ≡ true

  module _ (laws : IsFloat W) where
    open laws use {total_total, total_trans}

    ascending_from :
        (b : W) (keys : List W) (j : ℕ) (y : W)
        → IsAscendingFrom b keys
        → get_elem? keys j ≡ some y
        → f.total_le b y ≡ true
    ascending_from b [] j y h e = cc
    ascending_from b (k ∷ keys) zero y h e =
        subst (λ z. f.total_le b z ≡ true) (some-injective _ _ e) h.0
    ascending_from b (k ∷ keys) (suc j) y h e =
        total_trans b k y h.0 (ascending_from k keys j y h.1 e)

    IsAscending-tail : (b : W) (keys : List W) → IsAscendingFrom b keys → IsAscending keys
    IsAscending-tail b [] h = tt
    IsAscending-tail b (k ∷ keys) h = h.1

    ascending_le :
        (keys : List W) (i j : ℕ) (x y : W)
        → IsAscending keys
        → i ≤ j
        → get_elem? keys i ≡ some x
        → get_elem? keys j ≡ some y
        → f.total_le x y ≡ true
    ascending_le [] i j x y h l p q = cc
    ascending_le (k ∷ keys) zero zero x y h l p q =
        subst (λ z. f.total_le x z ≡ true) (some-injective _ _ (sym p ∙ q))
          (elim (total_total x x) [ inl r ↦ r | inr r ↦ r ])
    ascending_le (k ∷ keys) zero (suc j) x y h l p q =
        subst (λ z. f.total_le z y ≡ true) (some-injective _ _ p) (ascending_from k keys j y h q)
    ascending_le (k ∷ keys) (suc i) zero x y h l p q = absurd (omega (arith, l))
    ascending_le (k ∷ keys) (suc i) (suc j) x y h l p q =
        ascending_le keys i j x y (IsAscending-tail k keys h) (omega (arith, l)) p q

    pub SortedBy-IsInOrder :
        {B : Type 0} ⦃m : Bitmap B⦄ (st st' : ColumnStore B W) (table : Table W) (name : Text)
        (cells : List (Cell W))
        → get name table ≡ some cells
        → (s : SortedBy name cells table st st') → IsInOrder name (permuted s.perm table)
    SortedBy-IsInOrder st st' table name cells there s cells' i j c d x y named l p q nx ny =
        let same : cells' ≡ pick Cell.null s.perm cells =
          some-injective _ _ (sym named ∙ get-permuted s.perm table name cells there) in
        ascending_le s.keys i j x y s.ascending l
          (s.keyed i c x (sym (ap (λ v. get_elem? v i) same) ∙ p) nx)
          (s.keyed j d y (sym (ap (λ v. get_elem? v j) same) ∙ q) ny)

    pub SortedBy-SkipsSoundly :
        {B : Type 0} ⦃m : Bitmap B⦄ (st st' : ColumnStore B W) (table : Table W) (name : Text)
        (cells : List (Cell W))
        → get name table ≡ some cells
        → HasNoNan cells
        → (s : SortedBy name cells table st st') → SkipsSoundly st' (permuted s.perm table)
    unfolding chunk_count
    SortedBy-SkipsSoundly st st' table name cells there no_nan s =
        zoned-SkipsSoundly laws st' (permuted s.perm table) name (zones st.chunk_size s.keys)
          s.represents.chunks s.zone_stats
          (subst
            (λ k.
              Encloses (permuted s.perm table) name (zones k s.keys)
                (chunks st'.row_count st'.chunk_size))
            s.same_size
            (zones-Encloses laws (permuted s.perm table) name (pick Cell.null s.perm cells)
              st'.row_count st'.chunk_size s.keys s.represents.chunks
              (get-permuted s.perm table name cells there) (s.as_many ∙ sym s.same_rows)
              (length-chunks st' s.represents.chunks) s.ascending (s.numbers no_nan) s.keyed))
