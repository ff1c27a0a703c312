-- ===== src/Storage/Sort.antt =====
-- `sort_by` and `apply_perm` of storage.rs: the rows in the order of a partition column, and the zones
-- of its chunks.
use stats_cruncher.Base.{
  ℕ, zero, suc, ◌+◌, ◌-◌, ◌%◌, ◌^◌, none, some, List, [], ◌∷◌, map, length, replicate, set, range,
  ltb, ◌==◌, if◌then◌else◌, AppResult, ok, err, panic, AppError, ◌>>=◌,
}
use stats_cruncher.Text.{Text}
use stats_cruncher.Map.{Map, get, text_key}
use stats_cruncher.Float.{Float}
use stats_cruncher.Bitmap.{Bitmap}
use stats_cruncher.Storage.Dictionary.{StringDictionary, intern, value_of, postings_of, cardinality}
use stats_cruncher.Storage.Column.{Column, StringColumn, new_string}
use stats_cruncher.Storage.Store.{ColumnStore, index}

-- `perm.iter().map(|&i| v[i]).collect()`
unfoldable pub permute {ℓ} : {A : Type ℓ} → List A → List ℕ → AppResult (List A)
permute v [] = ok []
permute v (i ∷ perm) = do a ← index v i; rest ← permute v perm; ok (a ∷ rest)

-- `u32::MAX`, which stands for a row without a code.
abbrev pub no_code : ℕ
no_code = 2 ^ 32 - 1

unfoldable pub fill_rows : ℕ → List ℕ → List ℕ → AppResult (List ℕ)
fill_rows code [] row_to_code = ok row_to_code
fill_rows code (row ∷ rows) row_to_code =
    let rest = fill_rows code rows (set row_to_code row code) in
    if ltb row (length row_to_code) then rest else panic

-- `old_to_new`, from the new index on.
unfoldable pub old_to_new : List ℕ → ℕ → List ℕ → List ℕ
old_to_new [] new_idx places = places
old_to_new (old_idx ∷ perm) new_idx places =
    old_to_new perm (new_idx + 1) (set places old_idx (new_idx % 2 ^ 32))

module _ {B : Type 0} ⦃m : Bitmap B⦄ where
  unfoldable pub fill_codes : StringDictionary B → List ℕ → List ℕ → AppResult (List ℕ)
  unfolding fill_rows postings_of
  fill_codes dict [] row_to_code = ok row_to_code
  fill_codes dict (code ∷ codes) row_to_code = elim (postings_of dict code) [
    | none ↦ panic
    | some p ↦ fill_rows code (m.iter p) row_to_code >>= fill_codes dict codes
  ]

  -- One turn of the loop that rebuilds the dictionary.
  unfoldable pub rebuild_row :
      StringDictionary B → ℕ → ℕ → StringColumn B → AppResult (StringColumn B)
  unfolding intern value_of
  rebuild_row dict code new_row new_sc =
      if code == no_code then ok new_sc else elim (value_of dict code) [
        | none ↦ panic
        | some value ↦ intern value (new_row % 2 ^ 32) new_sc.dictionary >>= λ (d, c).
            ok (record { dictionary = d; count = new_sc.count + 1 })
      ]

  unfoldable pub rebuild :
      StringDictionary B → List ℕ → List ℕ → ℕ → StringColumn B → AppResult (StringColumn B)
  unfolding rebuild_row
  rebuild dict row_to_code [] new_row new_sc = ok new_sc
  rebuild dict row_to_code (old_row ∷ perm) new_row new_sc = do
    code ← index row_to_code old_row
    next_sc ← rebuild_row dict code new_row new_sc
    rebuild dict row_to_code perm (new_row + 1) next_sc

  unfoldable pub apply_perm : {W : Type 0} → List ℕ → Column B W → AppResult (Column B W)
  unfolding permute fill_codes rebuild cardinality new_string
  apply_perm perm (Column.integer v) = permute v perm >>= λ sorted. ok (Column.integer sorted)
  apply_perm perm (Column.float v) = permute v perm >>= λ sorted. ok (Column.float sorted)
  apply_perm perm (Column.date_time v) = permute v perm >>= λ sorted. ok (Column.date_time sorted)
  apply_perm perm (Column.string sc) = do
    row_to_code ←
        fill_codes sc.dictionary (range 0 (cardinality sc.dictionary % 2 ^ 32))
          (replicate (length perm) no_code)
    new_sc ← rebuild sc.dictionary row_to_code perm 0 new_string
    ok (Column.string new_sc)

  unfoldable pub apply_perms :
      {W : Type 0} → List ℕ → List (Column B W) → AppResult (List (Column B W))
  unfolding apply_perm
  apply_perms perm [] = ok []
  apply_perms perm (c ∷ columns) = do
    c' ← apply_perm perm c
    columns' ← apply_perms perm columns
    ok (c' ∷ columns')

  unfoldable pub move_nulls : List ℕ → Map Text B → AppResult (Map Text B)
  unfolding permute
  move_nulls places [] = ok []
  move_nulls places ((name, nulls) ∷ rest) = do
    moved ← permute places (m.iter nulls)
    rest' ← move_nulls places rest
    ok ((name, m.collect moved) ∷ rest')

module _ {W : Type 0} where
  -- The first and the last key of a chunk and of those after it; `left` more keys go into it.
  unfoldable pub zones_from : ℕ → ℕ → W → W → List W → List (W × W)
  zones_from size left first last [] = (first, last) ∷ []
  zones_from size zero first last (k ∷ keys) = (first, last) ∷ zones_from size (size - 1) k k keys
  zones_from size (suc left) first last (k ∷ keys) = zones_from size left first k keys

  unfoldable pub zones : ℕ → List W → List (W × W)
  unfolding zones_from
  zones size [] = []
  zones size (k ∷ keys) = zones_from size (size - 1) k k keys

module _ {W : Type 0} ⦃f : Float W⦄ where
  -- The sort of the standard library is stable: a new key goes before those that are not smaller.
  unfoldable pub insert_sorted : W → ℕ → List (W × ℕ) → List (W × ℕ)
  insert_sorted k i [] = (k, i) ∷ []
  insert_sorted k i ((k', j) ∷ rest) =
      let later = insert_sorted k i rest in
      if f.total_le k k' then (k, i) ∷ (k', j) ∷ rest else (k', j) ∷ later

  unfoldable pub sort_rows : List W → List ℕ → AppResult (List (W × ℕ))
  unfolding insert_sorted
  sort_rows keys [] = ok []
  sort_rows keys (row ∷ rows) = do
    k ← index keys row
    rest ← sort_rows keys rows
    ok (insert_sorted k row rest)

  unfoldable pub partition_keys : {B : Type 0} → Column B W → AppResult (List W)
  partition_keys (Column.date_time v) = ok (map f.of_int v)
  partition_keys (Column.integer v) = ok (map f.of_int v)
  partition_keys (Column.float v) = ok v
  partition_keys (Column.string sc) = err AppError.config

module _ {B W : Type 0} ⦃m : Bitmap B⦄ ⦃f : Float W⦄ where
  unfoldable pub sort_by : Text → ColumnStore B W → AppResult (ColumnStore B W)
  unfolding get permute apply_perms old_to_new move_nulls zones sort_rows partition_keys
  sort_by partition_column st = elim (get partition_column st.lookup) [
    | none ↦ err AppError.config
    | some col_idx ↦ if st.row_count == 0 then ok st else do
      column ← index st.columns col_idx
      keys ← partition_keys column
      pairs ← sort_rows keys (range 0 st.row_count)
      let perm = map (λ p. p.1) pairs in
          do
            columns ← apply_perms perm st.columns
            nulls ← move_nulls (old_to_new perm 0 (replicate st.row_count 0)) st.null_rows
            sorted_keys ← permute keys perm
            if st.chunk_size == 0
                then panic
                else ok (record st {
                  columns = columns;
                  null_rows = nulls;
                  zone_stats = some (partition_column, zones st.chunk_size sorted_keys);
                })
  ]
