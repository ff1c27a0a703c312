-- ===== src/Tests/Sorting.antt =====
-- Examples of a store that is sorted by a column, and of a source that is loaded, sorted and queried.
use stats_cruncher.Base.{
  Bool, true, All, err, AppError, Bool-cases, inl, inr, zero, suc, ◌+◌, ◌-◌, ◌≤◌, ◌<◌, get_elem?, ℕ,
  ◌≡◌, refl, false, none, some, List, [], ◌∷◌, arith, length, AppResult, ok, map, ◌>>=◌, subst, sym,
  ap, ◌∙◌, ◌≢◌, ok-injective,
}
use stats_cruncher.Base.Int.{ℤ}
use stats_cruncher.Text.{Text, text, beq, trim, is_empty}
use stats_cruncher.Map.{get, insert, text_key, number_key}
use stats_cruncher.Numerals.{parse_i64}
use stats_cruncher.Float.Sample.{Sample, samples, num, samples-IsFloat}
use stats_cruncher.Bitmap.Sample.{Bits, bits, bits-IsBitmap}
use stats_cruncher.Query.{Query, Response, observe_all, gte}
use stats_cruncher.Query.Stats.{stats_of}
use stats_cruncher.Config.{AppConfig, ColumnType}
use stats_cruncher.Storage.Column.{Column}
use stats_cruncher.Storage.Store
use stats_cruncher.Storage.Store.{ColumnStore, chunk_count, column}
use stats_cruncher.Storage.Table.{Cell, Table, Represents, has_name}
use stats_cruncher.Storage.PushRow.{cells_of, add_row}
use stats_cruncher.Storage.Push.{cell_of}
use stats_cruncher.Storage.Coerce.{push_value, is_null, coerce_integer}
use stats_cruncher.Storage.Created.{declared_columns, no_rows, declared_names}
use stats_cruncher.Ingestion.{Adapter, CsvReader, ValueRef, ingest_into_store, reload, select}
use stats_cruncher.Ingestion.Fields.{record_values, IsSeparator}
use stats_cruncher.Coordinator.Zoned.{ZonesEnclose, IsBetween}
use stats_cruncher.Worker.Meaning.{number_of}
use stats_cruncher.Ingestion.Rows.{read_rows, add_rows}
use stats_cruncher.Worker.{Task, execute}
use stats_cruncher.Aggregator
use stats_cruncher.Coordinator.{
  finalize, start, admit, check_memory, enqueue, dispatch, start_query, send_reply,
}
use stats_cruncher.Coordinator.Chunks.{chunks}
use stats_cruncher.Coordinator.Zones.{build_skip_mask}
use stats_cruncher.Coordinator.Validate.{validate}
use stats_cruncher.Coordinator.System.{System, Work, Step, Reach, submitted, WorkerOutput}
use stats_cruncher.Coordinator.Invariant.{AreAnswers}
use stats_cruncher.Coordinator.Answers.{initial, Reach-answers}
use stats_cruncher.Service.{reload-Reach-answers, HasNumericKeys}
use mathlib.Core.Option.{some-injective}
use stats_cruncher.Float.{IsNumber}
use stats_cruncher.Storage.KeyCells.{HasNoNan}
use stats_cruncher.Storage.Kinds.{kind}
use stats_cruncher.Storage.Permuted.{IsPermutation, permuted}
use stats_cruncher.Storage.Sort.{sort_by}
use stats_cruncher.Storage.Dictionary.{intern}
use stats_cruncher.Coordinator.SortedStore.{
  IsSortedSoundly, sort_by-Represents, sort_by-SkipsSoundly,
}
use stats_cruncher.Coordinator.InOrder.{IsInOrder}
use stats_cruncher.Tests.Store.{nulls_n, two_rows, two_cells, two_rows-Represents}
use stats_cruncher.Tests.Loading.{numbers, no_date, little, header}

abbrev by_n : AppConfig
by_n = record numbers { partition_column = some (text "n") }

abbrev two_records : List (AppResult (List Text))
two_records = ok (text "5" ∷ []) ∷ ok (text "3" ∷ []) ∷ []

abbrev two_reader : ℕ → CsvReader
two_reader separator = record { headers = header; records = two_records }

abbrev open_two : Text → Bool → AppResult (ℕ → CsvReader)
open_two path gzip = ok two_reader

abbrev connect_none :
    Text → AppResult (Text → AppResult (List (AppResult (List (ValueRef Sample)))))
connect_none path = err AppError.ingestion

abbrev three_five : ColumnStore Bits Sample
three_five = record {
  names = text "n" ∷ [];
  columns = Column.integer (ℤ.pos 3 ∷ ℤ.pos 5 ∷ []) ∷ [];
  lookup = (text "n", 0) ∷ [];
  hidden = false ∷ [];
  row_count = 2;
  chunk_size = 1;
  zone_stats = some (text "n", (num 3, num 3) ∷ (num 5, num 5) ∷ []);
  null_rows = [];
}

-- The records are sorted.
loaded_once :
    reload (ok 5) (ingest_into_store no_date little open_two connect_none) (ok 5) (select by_n) ≡ (
      ok (some three_five),
      record { adapter = Adapter.csv_ingestor; cfg = by_n; last_loaded = some 5 },
    )
unfolding reload select ingest_into_store beq trim is_empty parse_i64 push_value insert
loaded_once = refl

abbrev five_three : List (List (Cell Sample))
five_three = (Cell.integer (ℤ.pos 5) ∷ []) ∷ (Cell.integer (ℤ.pos 3) ∷ []) ∷ []

-- The rows with a number from 4 on.
abbrev from_4 : ℕ → Query Sample
from_4 k = record {
  must = [];
  must_not = [];
  ranges =
      (
        text "n",
        (record { lower = some (record { value = num 4; comparison = gte }); upper = none }) ∷ [],
      )
      ∷ [];
}

abbrev only_task : Task Sample
only_task = record { chunk_id = 1; query_id = 1; query = from_4 4; start = 1; end = 2 }

abbrev sent_out : System Bits Sample
sent_out = record {
  coordinator = record {
    cfg = by_n;
    store = three_five;
    next_id = 2;
    inflight = (1, record { aggregator = Aggregator.new 1; reply = some 4 }) ∷ [];
    tasks = only_task ∷ [];
    closed = false;
    sent = [];
  };
  running = [];
  outputs = [];
  accepted = 4 ∷ [];
}

submit_4 : Step from_4 (initial by_n three_five) sent_out
unfolding submitted admit check_memory enqueue start get beq build_skip_mask chunk_count validate
    send_reply dispatch start_query chunks insert
submit_4 = Step.submit 100 4 (omega arith) refl

abbrev partial_5 : Response Sample
partial_5 = record {
  matched_rows = 1;
  numeric = (text "n", stats_of (num 5 ∷ [])) ∷ [];
  column_types = [];
  string_counts = [];
}

done_5 : execute only_task three_five false ≡ ok partial_5
unfolding execute get beq insert observe_all
done_5 = refl

abbrev output_5 : WorkerOutput Sample
output_5 = record { query_id = 1; partial = partial_5 }

abbrev replied_4 : System Bits Sample
replied_4 = record sent_out {
  coordinator = finalize 1 partial_5 (record sent_out.coordinator { tasks = [] });
}

Reach-replied : Reach from_4 (initial by_n three_five) replied_4
Reach-replied =
    Reach.next
      (Reach.next
        (Reach.next (Reach.next Reach.here submit_4)
          (Step.work (Work.take only_task [] refl (omega arith) refl)))
        (Step.work (Work.finish [] [] only_task partial_5 refl done_5 refl)))
      (Step.work (Work.pump output_5 [] refl refl))

two_read :
    read_rows no_date
      (declared_columns {B = Bits} by_n.searchable)
      (map (λ r. r >>= record_values (text "n" ∷ []) (text "n" ∷ [])) two_records)
    ≡ ok five_three
unfolding read_rows cells_of cell_of Store.new is_null coerce_integer trim is_empty parse_i64
    record_values beq
two_read = refl

abbrev n_cells : List (Cell Sample)
n_cells = Cell.integer (ℤ.pos 5) ∷ Cell.integer (ℤ.pos 3) ∷ []

n_column : get (text "n") (add_rows (no_rows by_n.searchable) five_three) ≡ some n_cells
unfolding get beq add_row
n_column = refl

n_HasNoNan : HasNoNan n_cells
n_HasNoNan = (
  λ x e. subst IsNumber (some-injective _ _ e) (samples-IsFloat.of_int_number (ℤ.pos 5)),
  (λ x e. subst IsNumber (some-injective _ _ e) (samples-IsFloat.of_int_number (ℤ.pos 3)), tt),
)

-- The keys of the records are numbers.
numeric_keys :
    (separator : ℕ) (headers : List Text) (cells : List (List (Cell Sample)))
    → IsSeparator none separator
    → header ≡ ok headers
    → read_rows no_date
        (declared_columns {B = Bits} by_n.searchable)
        (map (λ r. r >>= record_values headers (declared_names by_n.searchable)) two_records)
      ≡ ok cells
    → HasNumericKeys by_n (add_rows (no_rows by_n.searchable) cells)
numeric_keys separator headers cells _ e read col column partition found =
    let same_headers : text "n" ∷ [] ≡ headers = ok-injective _ _ e in
    let same_cells : five_three ≡ cells = ok-injective _ _ (
      sym two_read
      ∙ ap
          (λ hs.
            read_rows no_date (declared_columns {B = Bits} by_n.searchable)
              (map (λ r. r >>= record_values hs (text "n" ∷ [])) two_records))
          same_headers
      ∙ read) in
    let same_column : n_cells ≡ column = some-injective _ _ (
      sym n_column
      ∙ ap (λ t. get (text "n") (add_rows (no_rows by_n.searchable) t)) same_cells
      ∙ ap (λ c. get c (add_rows (no_rows by_n.searchable) cells)) (some-injective _ _ partition)
      ∙ found) in
    subst HasNoNan same_column n_HasNoNan

reload-Reach-answers_example :
    (separator : ℕ) × (headers : List Text) × (cells : List (List (Cell Sample))) × IsSeparator none
      separator
    × (header ≡ ok headers)
    × All (λ name. has_name name headers ≡ true) (text "n" ∷ [])
    × (read_rows no_date
          (declared_columns {B = Bits} by_n.searchable)
          (map (λ r. r >>= record_values headers (text "n" ∷ [])) two_records)
        ≡ ok cells)
    × (2 ≡ length cells)
    × AreAnswers three_five
        (add_rows (no_rows by_n.searchable) cells)
        from_4
        replied_4.coordinator.sent
reload-Reach-answers_example =
    reload-Reach-answers bits-IsBitmap samples-IsFloat no_date by_n little open_two connect_none
      (text "t.csv") none false two_reader (ok 5) (ok 5) three_five
      (record { adapter = Adapter.csv_ingestor; cfg = by_n; last_loaded = some 5 }) from_4 replied_4
      (refl, tt) refl refl numeric_keys loaded_once Reach-replied

-- The replies over the sorted store, one of whose chunks has been skipped by its zone.
abbrev three_five_list : List (Cell Sample)
three_five_list = Cell.integer (ℤ.pos 3) ∷ Cell.integer (ℤ.pos 5) ∷ []

abbrev three_five_cells : Table Sample
three_five_cells = (text "n", three_five_list) ∷ []

three_five-Represents : Represents three_five three_five_cells
unfolding get beq
three_five-Represents = record {
  holds = (refl, refl, (refl, (tt, (tt, tt))), nulls_n, tt);
  nulls_within = tt;
  lookups = λ name. elim (Bool-cases (beq (text "n") name)) [
    | inl same ↦ rw same refl
    | inr other ↦ rw other refl
  ];
  distinct = (refl, tt);
  hidden_flags = refl;
  row_bound = omega arith;
  chunks = omega arith;
}

three_five_column : get (text "n") three_five_cells ≡ some three_five_list
unfolding get beq
three_five_column = refl

-- A row whose number is both ends of a zone.
one_number :
    (row : ℕ) (i : ℤ)
    → get_elem? three_five_list row ≡ some (Cell.integer i)
    → samples.le (samples.of_int i) (samples.of_int i) ≡ true
    → IsBetween three_five_cells (text "n") (samples.of_int i) (samples.of_int i) row
one_number row i at reflexive cells cell x there here number =
    let same_cells = some-injective _ _ (sym there ∙ three_five_column) in
    let same_cell = some-injective _ _ (sym here ∙ ap (λ l. get_elem? l row) same_cells ∙ at) in
    let same_number = some-injective _ _ (sym number ∙ ap number_of same_cell) in
    subst (λ z. (samples.le (samples.of_int i) z ≡ true) × (samples.le z (samples.of_int i) ≡ true))
      (sym same_number) (reflexive, reflexive)

three_five-ZonesEnclose : ZonesEnclose three_five three_five_cells
unfolding chunks
three_five-ZonesEnclose = (in_first, (in_second, tt))
  where
    in_first :
        (row : ℕ)
        → 0 ≤ row
        → row < 0 + (1 - 0)
        → IsBetween three_five_cells (text "n") (num 3) (num 3) row
    in_first zero a b = one_number 0 (ℤ.pos 3) refl refl
    in_first (suc row) a b = absurd (omega (arith, b))

    in_second :
        (row : ℕ)
        → 1 ≤ row
        → row < 1 + (2 - 1)
        → IsBetween three_five_cells (text "n") (num 5) (num 5) row
    in_second zero a b = absurd (omega (arith, a))
    in_second (suc zero) a b = one_number 1 (ℤ.pos 5) refl refl
    in_second (suc (suc row)) a b = absurd (omega (arith, b))

Reach-answers_example : AreAnswers three_five three_five_cells from_4 replied_4.coordinator.sent
Reach-answers_example =
    Reach-answers bits-IsBitmap samples-IsFloat three_five three_five_cells three_five-Represents
      from_4 three_five-ZonesEnclose by_n Reach-replied

-- The sorting of the two rows of the table with letters.
abbrev n_numbers : Column Bits Sample
n_numbers = Column.integer (ℤ.pos 3 ∷ ℤ.pos 5 ∷ [])

found_n : column two_rows (text "n") ≡ ok (some n_numbers)
unfolding column get beq
found_n = refl

integers : kind n_numbers ≢ ColumnType.string
integers e = cc

sort_by-Represents_example :
    (st' : ColumnStore Bits Sample) × (perm : List ℕ) × (sort_by (text "n") two_rows ≡ ok st')
    × IsPermutation 2 perm
    × Represents st' (permuted perm two_cells)
    × IsInOrder (text "n") (permuted perm two_cells)
sort_by-Represents_example =
    sort_by-Represents bits-IsBitmap samples-IsFloat two_rows two_cells (text "n")
      two_rows-Represents n_numbers found_n integers

abbrev two_sorted : ColumnStore Bits Sample
two_sorted = record two_rows { zone_stats = some (text "n", (num 3, num 3) ∷ (num 5, num 5) ∷ []) }

two_rows_sorted : sort_by (text "n") two_rows ≡ ok two_sorted
unfolding sort_by get beq intern insert
two_rows_sorted = refl

numeric_n : (cells : List (Cell Sample)) → get (text "n") two_cells ≡ some cells → HasNoNan cells
unfolding get beq
numeric_n cells found = subst HasNoNan (some-injective _ _ found) (
  λ x e. subst IsNumber (some-injective _ _ e) (samples-IsFloat.of_int_number (ℤ.pos 3)),
  (λ x e. subst IsNumber (some-injective _ _ e) (samples-IsFloat.of_int_number (ℤ.pos 5)), tt),
)

sort_by-SkipsSoundly_example : IsSortedSoundly two_rows two_cells two_sorted
sort_by-SkipsSoundly_example =
    sort_by-SkipsSoundly bits-IsBitmap samples-IsFloat two_rows two_cells (text "n")
      two_rows-Represents two_sorted refl numeric_n two_rows_sorted
