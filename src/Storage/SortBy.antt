-- ===== src/Storage/SortBy.antt =====
-- `sort_by` of storage.rs against the table: the rows in the order of the numbers of the partition column.
use stats_cruncher.Base.{
  ℕ, ◌≡◌, ◌≢◌, refl, ◌∙◌, ap, false, some, List, arith, ◌==◌, if◌then◌else◌, length, range,
  get_elem?, All, AppResult, ok, panic, ◌>>=◌,
}
use stats_cruncher.Text.{Text}
use stats_cruncher.Map.{Map, get, text_key}
use stats_cruncher.Float.{Float, IsFloat, IsNumber}
use stats_cruncher.Bitmap.{Bitmap, IsBitmap}
use stats_cruncher.Config.{ColumnType}
use stats_cruncher.Storage.Column.{Column}
use stats_cruncher.Storage.Kinds.{kind}
use stats_cruncher.Storage.Lookup.{index_ok}
use stats_cruncher.Storage.Store.{ColumnStore}
use stats_cruncher.Storage.Table.{Cell, Table, HoldsValues, Represents}
use stats_cruncher.Storage.Sort.{
  permute, sort_by, sort_rows, partition_keys, apply_perms, move_nulls, zones,
}
use stats_cruncher.Storage.Sorted.{sort_rows-SortsRows}
use stats_cruncher.Storage.ZoneEnds.{IsAscending}
use stats_cruncher.Storage.Permuted.{IsPermutation, pick, permuted}
use stats_cruncher.Storage.Places.{places_of}
use stats_cruncher.Storage.MovedNulls.{moved_nulls, move_nulls_lem, moved_nulls-NullsWithin}
use stats_cruncher.Storage.Reordered.{apply_perms-Holds}
use stats_cruncher.Storage.Keys.{
  rows_in, keys_in, permute-rows_in, rows_in-IsPermutation, range-rows, keys_in-IsAscending,
}
use stats_cruncher.Storage.KeyCells.{
  HasNoNan, partition_keys-KeysOf, keys_in-keyed, keys_in-IsNumber, length-keys_in,
}
use stats_cruncher.Worker.Meaning.{number_of}

module _ {B W : Type 0} ⦃m : Bitmap B⦄ ⦃f : Float W⦄ where
  abbrev sorted_store :
      ColumnStore B W → Text → List (Column B W) → Map Text B → List W → ColumnStore B W
  sorted_store st name columns nulls keys = record st {
    columns = columns;
    null_rows = nulls;
    zone_stats = some (name, zones st.chunk_size keys);
  }

  abbrev finish :
      ColumnStore B W → Text → List (Column B W) → Map Text B → List W → AppResult (ColumnStore B W)
  finish st name columns nulls keys =
      if st.chunk_size == 0 then panic else ok (sorted_store st name columns nulls keys)

  abbrev pub sort_with : ColumnStore B W → Text → List W → List ℕ → AppResult (ColumnStore B W)
  sort_with st name keys perm = apply_perms perm st.columns >>= λ columns.
      move_nulls (places_of st.row_count perm) st.null_rows >>= λ nulls.
      permute keys perm >>= λ sorted. finish st name columns nulls sorted

  sort_by-run :
      (st : ColumnStore B W) (name : Text) (idx : ℕ) (c : Column B W) (keys sorted : List W)
      (pairs : List (W × ℕ)) (columns : List (Column B W)) (nulls : Map Text B)
      → get name st.lookup ≡ some idx
      → (st.row_count == 0) ≡ false
      → get_elem? st.columns idx ≡ some c
      → partition_keys c ≡ ok keys
      → sort_rows keys (range 0 st.row_count) ≡ ok pairs
      → apply_perms (rows_in pairs) st.columns ≡ ok columns
      → move_nulls (places_of st.row_count (rows_in pairs)) st.null_rows ≡ ok nulls
      → permute keys (rows_in pairs) ≡ ok sorted
      → (st.chunk_size == 0) ≡ false
      → sort_by name st ≡ ok (sorted_store st name columns nulls sorted)
  unfolding sort_by
  sort_by-run st name idx c keys sorted pairs columns nulls there full at p1 p2 p3 p4 p5 sized =
      rw (sort_by, there, full)
        (ap
            (λ r. r >>= λ c. partition_keys c >>= λ keys.
              sort_rows keys (range 0 st.row_count) >>= λ pairs.
              sort_with st name keys (rows_in pairs))
            (index_ok st.columns idx c at)
          ∙ ap
              (λ r. r >>= λ keys. sort_rows keys (range 0 st.row_count) >>= λ pairs.
                sort_with st name keys (rows_in pairs))
              p1
          ∙ ap (λ r. r >>= λ pairs. sort_with st name keys (rows_in pairs)) p2
          ∙ ap
              (λ r. r >>= λ columns.
                move_nulls (places_of st.row_count (rows_in pairs)) st.null_rows >>= λ nulls.
                permute keys (rows_in pairs) >>= λ sorted. finish st name columns nulls sorted)
              p3
          ∙ ap
              (λ r. r >>= λ nulls.
                permute keys (rows_in pairs) >>= λ sorted. finish st name columns nulls sorted)
              p4
          ∙ ap (λ r. r >>= λ sorted. finish st name columns nulls sorted) p5
          ∙ rw sized refl)

  -- A store whose rows are in the order of the numbers in the cells of a column, and its zones.
  pub record SortedBy (name : Text) (cells : List (Cell W)) (table : Table W)
      (st st' : ColumnStore B W) : Type 0 where
    pub perm : List ℕ
    pub keys : List W
    pub permutes : IsPermutation st.row_count perm
    pub represents : Represents st' (permuted perm table)
    pub same_rows : st'.row_count ≡ st.row_count
    pub same_size : st'.chunk_size ≡ st.chunk_size
    pub ascending : IsAscending keys
    pub as_many : length keys ≡ st.row_count
    pub keyed :
        (i : ℕ) (c : Cell W) (x : W)
        → get_elem? (pick Cell.null perm cells) i ≡ some c
        → number_of c ≡ some x
        → get_elem? keys i ≡ some x
    pub numbers : HasNoNan cells → All IsNumber keys
    pub zone_stats : st'.zone_stats ≡ some (name, zones st.chunk_size keys)

  module _ (laws : IsBitmap B) (order : IsFloat W) where
    -- A store with rows is sorted by a numeric column.
    pub sort_by-SortedBy :
        (st : ColumnStore B W) (table : Table W) (name : Text) (idx : ℕ) (c : Column B W)
        (cells : List (Cell W))
        → Represents st table
        → get name st.lookup ≡ some idx
        → get_elem? st.columns idx ≡ some c
        → HoldsValues c cells
        → length cells ≡ st.row_count
        → kind c ≢ ColumnType.string
        → (st.row_count == 0) ≡ false
        → (st' : ColumnStore B W) × (sort_by name st ≡ ok st') × SortedBy name cells table st st'
    sort_by-SortedBy st table name idx c cells r there at values l numeric full =
        let (keys, p1, k) = partition_keys-KeysOf order c cells values numeric in
        let lengths : length keys ≡ st.row_count = k.as_many ∙ l in
        let (pairs, p2, s) =
          sort_rows-SortsRows order keys (range 0 st.row_count)
            (range-rows keys st.row_count lengths) in
        let h = rows_in-IsPermutation keys st.row_count pairs lengths p2 s in
        let (columns, p3, holds) =
          apply_perms-Holds laws st.row_count (rows_in pairs) h r.row_bound st.null_rows st.names
            st.columns table r.holds in
        let nulls = moved_nulls (places_of st.row_count (rows_in pairs)) st.null_rows in
        let p4 =
          move_nulls_lem laws st.row_count (rows_in pairs) h r.row_bound st.null_rows
            r.nulls_within in
        (
          sorted_store st name columns nulls (keys_in pairs),
          sort_by-run st name idx c keys (keys_in pairs) pairs columns nulls there full at p1 p2 p3
              p4 (permute-rows_in keys pairs s.keyed) (ground (arith, r.chunks)),
          record {
            perm = rows_in pairs;
            keys = keys_in pairs;
            permutes = h;
            represents = record {
              holds = holds;
              nulls_within =
                  moved_nulls-NullsWithin laws st.row_count (rows_in pairs) h r.row_bound
                    st.null_rows r.nulls_within;
              lookups = r.lookups;
              distinct = r.distinct;
              hidden_flags = r.hidden_flags;
              row_bound = r.row_bound;
              chunks = r.chunks;
            };
            same_rows = refl;
            same_size = refl;
            ascending = keys_in-IsAscending pairs s.sorted;
            as_many = length-keys_in pairs ∙ h.same_length;
            keyed = keys_in-keyed keys cells pairs k s.keyed;
            numbers = λ no_nan. keys_in-IsNumber keys pairs s.keyed (k.numbers no_nan);
            zone_stats = refl;
          },
        )
