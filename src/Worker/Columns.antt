-- ===== src/Worker/Columns.antt =====
-- `aggregate` of execution/worker.rs over the columns of a store, against the table.
use stats_cruncher.Base.{
  ℕ, ◌<◌, ◌≡◌, refl, subst, sym, ◌∙◌, ap, inl, inr, Bool, true, false, ◌⊎◌, Option, none, some,
  List, [], ◌∷◌, arith, length, All, AppResult, ok, err, panic, ◌>>=◌, ok-injective, Bool-cases,
  Option-cases, get_elem?_total,
}
use mathlib.Core.Option.{some-injective}
use mathlib.Core.Bool.{false≢true}
use stats_cruncher.Text.{Text, beq, beq_iff}
use stats_cruncher.Map.{Map, get, text_key, get-insert}
use stats_cruncher.Float.{Float}
use stats_cruncher.Bitmap.{Bitmap}
use stats_cruncher.Storage.Column.{StringColumn, Column}
use stats_cruncher.Storage.Store.{ColumnStore, column, index, is_hidden}
use stats_cruncher.Storage.Table.{
  Cell, Table, HoldsValues, HoldsNulls, Represents, position, has_name,
}
use stats_cruncher.Storage.Lookup.{column_lem}
use stats_cruncher.Query.{Response}
use stats_cruncher.Query.Stats.{stats_of}
use stats_cruncher.Worker.Aggregate.{
  add_numeric, add_counts, string_counts, aggregate_column, aggregate_columns,
}
use stats_cruncher.Worker.Folds.{numbers, IsNumeric, aggregate_column_numeric}

>>=-ok_assoc :
    {A B C : Type 0} (x : AppResult A) (f : A → AppResult B) (k : B → AppResult C) {b : B} {c : C}
    → (x >>= f) ≡ ok b
    → k b ≡ ok c
    → (x >>= λ a. f a >>= k) ≡ ok c
>>=-ok_assoc (ok a) f k e h = rw e h
>>=-ok_assoc (err _) f k e h = cc
>>=-ok_assoc panic f k e h = cc

names_of :
    (name n : Text) (names : List Text)
    → beq name n ≡ false
    → has_name n (name ∷ names) ≡ true
    → has_name n names ≡ true
names_of name n names other h = ground (arith, other, h)

position_bound :
    (name : Text) (names : List Text) (i : ℕ) → position name names ≡ some i → i < length names
position_bound name [] i e = cc
position_bound name (n ∷ names) i e = elim (Option-cases (position name names)) [
  | inl q ↦ ground arith
  | inr (j, q) ↦ ground (arith, position_bound name names j q)
]

add_counts_matched :
    {W : Type 0} (name : Text) (counts : Map Text ℕ) (partial : Response W)
    → (add_counts name counts partial).matched_rows ≡ partial.matched_rows
add_counts_matched name [] partial = refl
add_counts_matched name (c ∷ counts) partial = refl

add_counts_numeric :
    {W : Type 0} (name : Text) (counts : Map Text ℕ) (partial : Response W)
    → (add_counts name counts partial).numeric ≡ partial.numeric
add_counts_numeric name [] partial = refl
add_counts_numeric name (c ∷ counts) partial = refl

not_string :
    {B W : Type 0} {sc : StringColumn B} (c : Column B W) → Column.string sc ≡ c → ¬ IsNumeric c
not_string (Column.string _) h k = k
not_string (Column.integer v) h k = cc
not_string (Column.float v) h k = cc
not_string (Column.date_time v) h k = cc

module _ {B W : Type 0} ⦃m : Bitmap B⦄ ⦃f : Float W⦄ (st : ColumnStore B W) (table : Table W)
    (r : Represents st table) where
  is_hidden_total : (name : Text) → (hidden : Bool) × (is_hidden st name ≡ ok hidden)
  unfolding is_hidden
  is_hidden_total name = elim (Option-cases (get name st.lookup)) [
    | inl e ↦ (false, rw (e, is_hidden) refl)
    | inr (i, e) ↦
        let (hidden, at) = get_elem?_total st.hidden i (
          omega
            (arith, r.hidden_flags, position_bound name st.names i (sym (r.lookups name) ∙ e))) in
        (hidden, rw (e, is_hidden) (rw (at, index) refl))
  ]

  module _ (matched : B) (string_value_counts : Bool) where
    -- The partial result has the statistics of a numeric column.
    abbrev pub HasStats : Text → Response W → Type 0
    HasStats name response =
        (c : Column B W) (cells : List (Cell W))
        → column st name ≡ ok (some c)
        → IsNumeric c
        → get name table ≡ some cells
        → get name response.numeric ≡ some (stats_of (numbers cells (m.iter matched)))

    abbrev Adds : Text → Response W → AppResult (Response W) → Type 0
    Adds name partial result =
        (partial' : Response W) × (result ≡ ok partial')
        × (partial'.matched_rows ≡ partial.matched_rows)
        × ((n : Text) → ((beq name n ≡ true) ⊎ HasStats n partial) → HasStats n partial')

    -- A column that is not numeric leaves the statistics alone.
    keeps_stats :
        (name : Text) (o : Option (Column B W)) (partial partial' : Response W)
        → column st name ≡ ok o
        → ((c : Column B W) → o ≡ some c → ¬ IsNumeric c)
        → partial'.numeric ≡ partial.numeric
        → (n : Text) → ((beq name n ≡ true) ⊎ HasStats n partial)
        → HasStats n partial'
    keeps_stats name o partial partial' e k q n (inl same) c cells e' k' t =
        let at : column st name ≡ ok (some c) =
          subst (λ u. column st u ≡ ok (some c)) (sym ((beq_iff name n).0 same)) e' in
        absurd (k c (ok-injective _ _ (sym e ∙ at)) k')
    keeps_stats name o partial partial' e k q n (inr has) c cells e' k' t =
        rw q (has c cells e' k' t)

    Adds-numeric :
        (name : Text) (c : Column B W) (cells : List (Cell W)) (partial : Response W)
        → IsNumeric c
        → column st name ≡ ok (some c)
        → get name table ≡ some cells
        → HoldsValues c cells
        → HoldsNulls (get name st.null_rows) cells
        → All (λ row. row < length cells) (m.iter matched)
        → Adds name partial (aggregate_column matched st string_value_counts name (some c) partial)
    Adds-numeric name c cells partial k e t h n bound = (
      add_numeric name (stats_of (numbers cells (m.iter matched))) partial,
      aggregate_column_numeric matched st string_value_counts name c cells partial k h n bound,
      refl,
      λ u had d cells' e' k' t'. rw get-insert (elim (Bool-cases (beq name u)) [
        | inl same ↦
            let here : get name table ≡ some cells' =
              subst (λ w. get w table ≡ some cells') (sym ((beq_iff name u).0 same)) t' in
            rw same (
              ap (λ z. some (stats_of (numbers z (m.iter matched))))
                (some-injective _ _ (sym t ∙ here)))
        | inr other ↦ rw other (still name u partial other had d cells' e' k' t')
      ]),
    )
      where
        still :
            (name u : Text) (partial : Response W)
            → beq name u ≡ false
            → ((beq name u ≡ true) ⊎ HasStats u partial)
            → HasStats u partial
        still name u partial other (inl same) = absurd (false≢true (sym other ∙ same))
        still name u partial other (inr has) = has

    Adds-string :
        (name : Text) (sc : StringColumn B) (partial : Response W)
        → column st name ≡ ok (some (Column.string sc))
        → Adds name partial
            (aggregate_column matched st string_value_counts name (some (Column.string sc)) partial)
    unfolding aggregate_column
    Adds-string name sc partial e =
        let silent : (partial' : Response W)
            → partial'.numeric ≡ partial.numeric
            → (n : Text) → ((beq name n ≡ true) ⊎ HasStats n partial)
            → HasStats n partial' =
          λ partial' q.
            keeps_stats name (some (Column.string sc)) partial partial' e
              (λ c h k. not_string c (some-injective _ _ h) k) q in
        elim (Bool-cases string_value_counts) [
          | inr off ↦ rw off (partial, refl, refl, silent partial refl)
          | inl on ↦
              let (hidden, at) = is_hidden_total name in
              elim (Bool-cases hidden) [
                | inl hides ↦ rw (on, at, hides) (partial, refl, refl, silent partial refl)
                | inr shown ↦
                    let counts = string_counts matched sc.dictionary in
                    rw (on, at, shown)
                      (
                        add_counts name counts partial,
                        refl,
                        add_counts_matched name counts partial,
                        silent (add_counts name counts partial)
                            (add_counts_numeric name counts partial),
                      )
              ]
        ]

    -- A column leaves the count of the rows alone, and adds its statistics if it is numeric.
    Adds-column :
        (name : Text) (partial : Response W)
        → All (λ row. row < st.row_count) (m.iter matched)
        → Adds name partial
            (column st name >>= λ o. aggregate_column matched st string_value_counts name o partial)
    unfolding aggregate_column
    Adds-column name partial bound = elim (column_lem st table name r) [
      | inl (e, none_there) ↦
          rw e (partial, refl, refl, keeps_stats name none partial partial e (λ c h k. cc) refl)
      | inr (c, cells, e, t, h, n, len) ↦ rw e (go c cells e t h n len)
    ]
      where
        go :
            (c : Column B W) (cells : List (Cell W))
            → column st name ≡ ok (some c)
            → get name table ≡ some cells
            → HoldsValues c cells
            → HoldsNulls (get name st.null_rows) cells
            → length cells ≡ st.row_count
            → Adds name partial
                (aggregate_column matched st string_value_counts name (some c) partial)
        go (Column.string sc) cells e t h n len = Adds-string name sc partial e
        go (Column.integer v) cells e t h n len =
            Adds-numeric name (Column.integer v) cells partial tt e t h n (rw len bound)
        go (Column.float v) cells e t h n len =
            Adds-numeric name (Column.float v) cells partial tt e t h n (rw len bound)
        go (Column.date_time v) cells e t h n len =
            Adds-numeric name (Column.date_time v) cells partial tt e t h n (rw len bound)

    -- The columns of a list add their statistics, each in its turn.
    pub aggregate_columns_lem :
        (names : List Text) (partial : Response W)
        → All (λ row. row < st.row_count) (m.iter matched)
        → (partial' : Response W) × (aggregate_columns matched st string_value_counts names partial
            ≡ ok partial')
          × (partial'.matched_rows ≡ partial.matched_rows)
          × ((n : Text) → ((has_name n names ≡ true) ⊎ HasStats n partial) → HasStats n partial')
    unfolding aggregate_columns
    aggregate_columns_lem [] partial bound =
        (partial, refl, refl, λ n h. elim h [ inl q ↦ absurd (false≢true q) | inr has ↦ has ])
    aggregate_columns_lem (name ∷ names) partial bound =
        let (partial', e, rows, adds) = Adds-column name partial bound in
        let (last, e', rows', adds') = aggregate_columns_lem names partial' bound in
        (
          last,
          >>=-ok_assoc (column st name) _ _ e e',
          rows' ∙ rows,
          λ n h. adds' n (elim (Bool-cases (beq name n)) [
            | inl same ↦ inr (adds n (inl same))
            | inr other ↦ elim h [
              | inl q ↦ inl (names_of name n names other q)
              | inr has ↦ inr (adds n (inr has))
            ]
          ]),
        )
