-- ===== src/Storage/Created.antt =====
-- `ColumnStore::new` of storage.rs against the table without rows.
use stats_cruncher.Base.{
  ℕ, ◌+◌, ◌≡◌, refl, sym, ◌∙◌, ap, ap₂, false, none, some, List, [], ◌∷◌, ◌++◌, arith,
  if◌then◌else◌, ltb, length, length-append, append_nil, snoc_append,
}
use stats_cruncher.Text.{Text, beq_iff}
use stats_cruncher.Map.{Map, get, insert, get-insert, text_key}
use stats_cruncher.Float.{Float}
use stats_cruncher.Bitmap.{Bitmap}
use stats_cruncher.Config.{AppConfig, ColumnType, SearchableColumn}
use stats_cruncher.Storage.Column.{Column, new_string}
use stats_cruncher.Storage.Dictionary
use stats_cruncher.Storage.Dictionary.{IsDictionary, posted, cardinality, code_of, postings_of}
use stats_cruncher.Storage.Store.{ColumnStore, new_column, declare, new}
use stats_cruncher.Storage.Table.{
  Table, Holds, HoldsValues, Represents, Distinct, has_name, position,
}
use stats_cruncher.Storage.Kinds.{kind, kinds}

abbrev pub declared_names : Map Text SearchableColumn → List Text
declared_names [] = []
declared_names ((name, col) ∷ rest) = name ∷ declared_names rest

abbrev pub declared_kinds : Map Text SearchableColumn → List ColumnType
declared_kinds [] = []
declared_kinds ((name, col) ∷ rest) = col.column_type ∷ declared_kinds rest

abbrev pub no_rows : {W : Type 0} → Map Text SearchableColumn → Table W
no_rows [] = []
no_rows ((name, col) ∷ rest) = (name, []) ∷ no_rows rest

position-none :
    (name : Text) (names : List Text) → has_name name names ≡ false → position name names ≡ none
position-none name [] h = refl
position-none name (n ∷ names) h = ground (arith, h, position-none name names)

module _ {B W : Type 0} where
  abbrev new_columns : Map Text SearchableColumn → List (Column B W)
  new_columns [] = []
  new_columns ((name, col) ∷ rest) = new_column col.column_type ∷ new_columns rest

  -- What the loop over the declared columns adds.
  pub record Declared (idx : ℕ) (rest : Map Text SearchableColumn) (st st' : ColumnStore B W)
      : Type 0 where
    pub names : st'.names ≡ st.names ++ declared_names rest
    pub columns : st'.columns ≡ st.columns ++ new_columns rest
    pub hidden : length st'.hidden ≡ length st.hidden + length (declared_names rest)
    pub rows : st'.row_count ≡ st.row_count
    pub size : st'.chunk_size ≡ st.chunk_size
    pub zones : st'.zone_stats ≡ st.zone_stats
    pub nulls : st'.null_rows ≡ st.null_rows
    pub lookup :
        (n : Text)
        → get n st'.lookup ≡ elim (position n (declared_names rest)) [
          | none ↦ get n st.lookup
          | some p ↦ some (idx + p)
        ]

  declare-Declared :
      (idx : ℕ) (rest : Map Text SearchableColumn) (st : ColumnStore B W)
      → Distinct (declared_names rest)
      → Declared idx rest st (declare idx rest st)
  unfolding declare
  declare-Declared idx [] st d = record {
    names = sym (append_nil st.names);
    columns = sym (append_nil st.columns);
    hidden = omega arith;
    rows = refl;
    size = refl;
    zones = refl;
    nulls = refl;
    lookup = λ n. refl;
  }
  declare-Declared idx ((name, col) ∷ rest) st d =
      let more =
        declare-Declared (idx + 1) rest
          (record st {
            names = st.names ++ name ∷ [];
            columns = st.columns ++ new_column col.column_type ∷ [];
            lookup = insert name idx st.lookup;
            hidden = st.hidden ++ col.hidden ∷ [];
          })
          d.1 in
      record {
        names = more.names ∙ snoc_append st.names (declared_names rest) name;
        columns =
            more.columns ∙ snoc_append st.columns (new_columns rest) (new_column col.column_type);
        hidden = omega (arith, more.hidden, length-append st.hidden (col.hidden ∷ []));
        rows = more.rows;
        size = more.size;
        zones = more.zones;
        nulls = more.nulls;
        lookup = λ n. ground (
          arith,
          more.lookup n,
          get-insert name n idx st.lookup,
          position-none name (declared_names rest) d.0,
          beq_iff name n,
        );
      }

-- The columns that a configuration declares, without rows.
abbrev empty_column : {B W : Type 0} → ColumnType → Column B W
empty_column ColumnType.integer = Column.integer []
empty_column ColumnType.float = Column.float []
empty_column ColumnType.date_time = Column.date_time []
empty_column ColumnType.string =
    Column.string
      (record { dictionary = record { codes = []; values = []; postings = [] }; count = 0 })

abbrev pub declared_columns : {B W : Type 0} → Map Text SearchableColumn → List (Column B W)
declared_columns [] = []
declared_columns ((name, col) ∷ rest) = empty_column col.column_type ∷ declared_columns rest

kind-empty_column : (B W : Type 0) (t : ColumnType) → kind (empty_column {B = B} {W = W} t) ≡ t
kind-empty_column B W ColumnType.integer = refl
kind-empty_column B W ColumnType.float = refl
kind-empty_column B W ColumnType.string = refl
kind-empty_column B W ColumnType.date_time = refl

pub kinds-declared_columns :
    (B W : Type 0) (rest : Map Text SearchableColumn)
    → kinds (declared_columns {B = B} {W = W} rest) ≡ declared_kinds rest
kinds-declared_columns B W [] = refl
kinds-declared_columns B W ((name, col) ∷ rest) =
    ap₂ ◌∷◌ (kind-empty_column B W col.column_type) (kinds-declared_columns B W rest)

kind-new_column : (B W : Type 0) (t : ColumnType) → kind (new_column {B = B} {W = W} t) ≡ t
unfolding new_column
kind-new_column B W ColumnType.integer = refl
kind-new_column B W ColumnType.float = refl
kind-new_column B W ColumnType.string = refl
kind-new_column B W ColumnType.date_time = refl

module _ (B W : Type 0) where
  kinds-new_columns :
      (rest : Map Text SearchableColumn)
      → kinds (new_columns {B = B} {W = W} rest) ≡ declared_kinds rest
  kinds-new_columns [] = refl
  kinds-new_columns ((name, col) ∷ rest) =
      ap₂ ◌∷◌ (kind-new_column B W col.column_type) (kinds-new_columns rest)

  module _ (cfg : AppConfig) (distinct : Distinct (declared_names cfg.searchable)) where
    -- The fields that `new` starts its loop with.
    pub new-Declared :
        Declared {B = B} {W = W} 0 cfg.searchable
          (record {
            names = [];
            columns = [];
            lookup = [];
            hidden = [];
            row_count = 0;
            chunk_size = if ltb cfg.engine.chunk_size_rows 1 then 1 else cfg.engine.chunk_size_rows;
            zone_stats = none;
            null_rows = [];
          })
          (new cfg)
    unfolding new
    new-Declared = declare-Declared 0 cfg.searchable _ distinct

    pub kinds-new : kinds (new {B = B} {W = W} cfg).columns ≡ declared_kinds cfg.searchable
    kinds-new = ap kinds new-Declared.columns ∙ kinds-new_columns cfg.searchable

module _ (B W : Type 0) ⦃m : Bitmap B⦄ ⦃f : Float W⦄ where
  new_column-HoldsValues : (t : ColumnType) → HoldsValues {B = B} {W = W} (new_column t) []
  unfolding new_column new_string Dictionary.new cardinality posted get
  new_column-HoldsValues ColumnType.integer = (refl, tt)
  new_column-HoldsValues ColumnType.float = (refl, tt)
  new_column-HoldsValues ColumnType.date_time = (refl, tt)
  new_column-HoldsValues ColumnType.string = (
    record { same_length = refl; value_of_code = λ v c h. cc; code_of_value = λ v c h. cc },
    omega arith,
    λ s row. refl,
    tt,
  )

  new_columns-Holds :
      (rest : Map Text SearchableColumn)
      → Holds {B = B} {W = W} 0 [] (declared_names rest) (new_columns rest) (no_rows rest)
  unfolding get
  new_columns-Holds [] = tt
  new_columns-Holds ((name, col) ∷ rest) =
      (refl, refl, new_column-HoldsValues col.column_type, λ row. refl, new_columns-Holds rest)

  -- The store of a configuration represents the table of its columns without rows.
  pub new-Represents :
      (cfg : AppConfig)
      → Distinct (declared_names cfg.searchable)
      → Represents {B = B} {W = W} (new cfg) (no_rows cfg.searchable)
  unfolding get
  new-Represents cfg distinct =
      let d = new-Declared B W cfg distinct in
      record {
        holds = rw (d.rows, d.nulls, d.names, d.columns) (new_columns-Holds cfg.searchable);
        nulls_within = rw d.nulls tt;
        lookups = λ n. d.lookup n ∙ shifted n ∙ ap (position n) (sym d.names);
        distinct = rw d.names distinct;
        hidden_flags = omega (arith, d.hidden, ap length d.names);
        row_bound = rw d.rows (omega arith);
        chunks = rw d.size (ground arith);
      }
    where
      shifted :
          (n : Text)
          → elim (position n (declared_names cfg.searchable)) [
            | none ↦ none
            | some p ↦ some (0 + p)
          ]
            ≡ position n (declared_names cfg.searchable)
      shifted n = ground arith
