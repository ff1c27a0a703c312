-- ===== src/Storage/KeyCells.antt =====
-- `sort_by` of storage.rs: the keys of the rows against the cells of the partition column.
use stats_cruncher.Base.{
  ℕ, zero, suc, ◌≡◌, ◌≢◌, refl, sym, ◌∙◌, ap, subst, some, List, [], ◌∷◌, map, arith, length,
  length-map, get_elem?, get_elem?_total, lt_of_get_elem?, get_elem?-map, All, ok,
}
use mathlib.Core.Option.{some-injective}
use stats_cruncher.Base.Int.{ℤ}
use stats_cruncher.Float.{Float, IsFloat, IsNumber}
use stats_cruncher.Bitmap.{Bitmap}
use stats_cruncher.Config.{ColumnType}
use stats_cruncher.Storage.Column.{Column}
use stats_cruncher.Storage.Kinds.{kind}
use stats_cruncher.Storage.Sort.{partition_keys}
use stats_cruncher.Storage.Table.{
  Cell, int_cell, float_cell, IsInteger, IsFloatCell, IsDateTime, HoldsValues,
}
use stats_cruncher.Storage.Permuted.{All-get_elem?, pick, at_or-some}
use stats_cruncher.Storage.Keys.{rows_in, keys_in}
use stats_cruncher.Worker.Meaning.{number_of}

module _ {W : Type 0} ⦃f : Float W⦄ where
  -- No number in the cells is NaN.
  abbrev pub HasNoNan : List (Cell W) → Type 0
  HasNoNan cells = All (λ c. (x : W) → number_of c ≡ some x → IsNumber x) cells

  -- A key for each cell: the number in it, when it has one. The keys are numbers when no cell has NaN.
  pub record KeysOf (keys : List W) (cells : List (Cell W)) : Type 0 where
    pub as_many : length keys ≡ length cells
    pub keyed :
        (i : ℕ) (c : Cell W) (x : W)
        → get_elem? cells i ≡ some c
        → number_of c ≡ some x
        → get_elem? keys i ≡ some x
    pub numbers : HasNoNan cells → All IsNumber keys

  KeysOf-map :
      (key : Cell W → W) (keys : List W) (cells : List (Cell W))
      → keys ≡ map key cells
      → All (λ c. (x : W) → number_of c ≡ some x → key c ≡ x) cells
      → (HasNoNan cells → All IsNumber (map key cells))
      → KeysOf keys cells
  KeysOf-map key keys cells e same all_numbers = record {
    as_many = ap length e ∙ length-map key cells;
    keyed = λ i c x at number.
        ap (λ v. get_elem? v i) e
        ∙ get_elem?-map key cells i at
        ∙ ap some (
            All-get_elem? (λ c. (x : W) → number_of c ≡ some x → key c ≡ x) cells i c at same x
              number);
    numbers = λ h. subst (All IsNumber) (sym e) (all_numbers h);
  }

  -- The keys of the sorted pairs are those of the cells that the rows of the pairs have.
  pub keys_in-keyed :
      (keys : List W) (cells : List (Cell W)) (pairs : List (W × ℕ))
      → KeysOf keys cells
      → All (λ p. get_elem? keys p.1 ≡ some p.0) pairs
      → (i : ℕ) (c : Cell W) (x : W) → get_elem? (pick Cell.null (rows_in pairs) cells) i ≡ some c
      → number_of c ≡ some x
      → get_elem? (keys_in pairs) i ≡ some x
  keys_in-keyed keys cells [] k h i c x at number = cc
  keys_in-keyed keys cells ((key, row) ∷ pairs) k h zero c x at number =
      let (cell, there) =
        get_elem?_total cells row (omega (arith, k.as_many, lt_of_get_elem? keys row h.0)) in
      let same : cell ≡ c =
        sym (at_or-some Cell.null cells row cell there) ∙ some-injective _ _ at in
      sym h.0 ∙ k.keyed row c x (there ∙ ap some same) number
  keys_in-keyed keys cells (p ∷ pairs) k h (suc i) c x at number =
      keys_in-keyed keys cells pairs k h.1 i c x at number

  pub keys_in-IsNumber :
      (keys : List W) (pairs : List (W × ℕ))
      → All (λ p. get_elem? keys p.1 ≡ some p.0) pairs
      → All IsNumber keys
      → All IsNumber (keys_in pairs)
  keys_in-IsNumber keys [] h k = tt
  keys_in-IsNumber keys ((key, row) ∷ pairs) h k =
      (All-get_elem? IsNumber keys row key h.0 k, keys_in-IsNumber keys pairs h.1 k)

  pub length-keys_in : (pairs : List (W × ℕ)) → length (keys_in pairs) ≡ length (rows_in pairs)
  length-keys_in pairs = length-map (λ p. p.0) pairs ∙ sym (length-map (λ p. p.1) pairs)

  module _ (laws : IsFloat W) where
    ints-same :
        (cells : List (Cell W))
        → All IsInteger cells
        → All (λ c. (x : W) → number_of c ≡ some x → f.of_int (int_cell c) ≡ x) cells
    ints-same [] h = tt
    ints-same (Cell.null ∷ cells) h = (λ x e. cc, ints-same cells h.1)
    ints-same (Cell.integer i ∷ cells) h = (λ x e. some-injective _ _ e, ints-same cells h.1)
    ints-same (_ ∷ cells) h = absurd h.0

    times-same :
        (cells : List (Cell W))
        → All IsDateTime cells
        → All (λ c. (x : W) → number_of c ≡ some x → f.of_int (int_cell c) ≡ x) cells
    times-same [] h = tt
    times-same (Cell.null ∷ cells) h = (λ x e. cc, times-same cells h.1)
    times-same (Cell.date_time t ∷ cells) h = (λ x e. some-injective _ _ e, times-same cells h.1)
    times-same (_ ∷ cells) h = absurd h.0

    floats-same :
        (cells : List (Cell W))
        → All IsFloatCell cells
        → All (λ c. (x : W) → number_of c ≡ some x → float_cell c ≡ x) cells
    floats-same [] h = tt
    floats-same (Cell.null ∷ cells) h = (λ x e. cc, floats-same cells h.1)
    floats-same (Cell.float y ∷ cells) h = (λ x e. some-injective _ _ e, floats-same cells h.1)
    floats-same (_ ∷ cells) h = absurd h.0

    ints-IsNumber : (cells : List (Cell W)) → All IsNumber (map (λ c. f.of_int (int_cell c)) cells)
    ints-IsNumber [] = tt
    ints-IsNumber (c ∷ cells) = (laws.of_int_number (int_cell c), ints-IsNumber cells)

    floats-IsNumber :
        (cells : List (Cell W))
        → All IsFloatCell cells
        → HasNoNan cells
        → All IsNumber (map float_cell cells)
    floats-IsNumber [] h k = tt
    floats-IsNumber (Cell.null ∷ cells) h k = (laws.nought_number, floats-IsNumber cells h.1 k.1)
    floats-IsNumber (Cell.float x ∷ cells) h k = (k.0 x refl, floats-IsNumber cells h.1 k.1)
    floats-IsNumber (_ ∷ cells) h k = absurd h.0

    map-map :
        (v : List ℤ) (cells : List (Cell W))
        → v ≡ map int_cell cells
        → map f.of_int v ≡ map (λ c. f.of_int (int_cell c)) cells
    map-map v cells e = ap (map f.of_int) e ∙ fused cells
      where
        fused :
            (cells : List (Cell W))
            → map f.of_int (map int_cell cells) ≡ map (λ c. f.of_int (int_cell c)) cells
        fused [] = refl
        fused (c ∷ cells) = ap (◌∷◌ (f.of_int (int_cell c))) (fused cells)

    -- A numeric column has the keys of its cells.
    pub partition_keys-KeysOf :
        {B : Type 0} ⦃m : Bitmap B⦄ (c : Column B W) (cells : List (Cell W))
        → HoldsValues c cells
        → kind c ≢ ColumnType.string
        → (keys : List W) × (partition_keys c ≡ ok keys) × KeysOf keys cells
    unfolding partition_keys
    partition_keys-KeysOf (Column.integer v) cells (e, kinds) numeric = (
      map f.of_int v,
      refl,
      KeysOf-map (λ c. f.of_int (int_cell c)) (map f.of_int v) cells (map-map v cells e)
          (ints-same cells kinds) (λ h. ints-IsNumber cells),
    )
    partition_keys-KeysOf (Column.date_time v) cells (e, kinds) numeric = (
      map f.of_int v,
      refl,
      KeysOf-map (λ c. f.of_int (int_cell c)) (map f.of_int v) cells (map-map v cells e)
          (times-same cells kinds) (λ h. ints-IsNumber cells),
    )
    partition_keys-KeysOf (Column.float v) cells (e, kinds) numeric = (
      v,
      refl,
      KeysOf-map float_cell v cells e (floats-same cells kinds) (floats-IsNumber cells kinds),
    )
    partition_keys-KeysOf (Column.string sc) cells h numeric = absurd (numeric refl)
