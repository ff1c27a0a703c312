-- ===== src/Storage/Lookup.antt =====
-- What a column name finds in a store, against the table that the store represents.
use stats_cruncher.Base.{
  ℕ, suc, ◌≡◌, refl, ap, panic, no_panic, >>=-eq-ok, subst, sym, ◌∙◌, ◌>>=◌, Option-cases, ◌⊎◌, inl,
  inr, false, Option, none, some, List, [], ◌∷◌, length, get_elem?, ok, Bool-cases,
}
use stats_cruncher.Text.{Text, beq, beq_iff}
use stats_cruncher.Map.{Map, get, text_key}
use stats_cruncher.Float.{Float}
use stats_cruncher.Bitmap.{Bitmap}
use stats_cruncher.Storage.Column.{Column}
use stats_cruncher.Storage.Store.{ColumnStore, column, index}
use stats_cruncher.Storage.Table.{Cell, Table, HoldsValues, HoldsNulls, Holds, Represents, position}

module _ {B W : Type 0} ⦃m : Bitmap B⦄ ⦃f : Float W⦄ where
  -- A column of the store at an index, and its cells in the table.
  abbrev pub FoundAt : ℕ → Map Text B → List (Column B W) → Table W → Text → ℕ → Type 0
  FoundAt rows nulls columns table name i =
      (c : Column B W) × (cells : List (Cell W)) × (get_elem? columns i ≡ some c)
      × (get name table ≡ some cells)
      × HoldsValues c cells
      × HoldsNulls (get name nulls) cells
      × (length cells ≡ rows)

  abbrev Located : ℕ → Map Text B → List (Column B W) → Table W → Text → Option ℕ → Type 0
  Located rows nulls columns table name none = get name table ≡ none
  Located rows nulls columns table name (some i) = FoundAt rows nulls columns table name i

  Located-skip :
      (rows : ℕ) (nulls : Map Text B) (columns : List (Column B W)) (table : Table W)
      (name k : Text) (c : Column B W) (cells : List (Cell W)) (p : Option ℕ)
      → beq k name ≡ false
      → Located rows nulls columns table name p
      → Located rows nulls
          (c ∷ columns)
          ((k, cells) ∷ table)
          name
          (elim p [ none ↦ none | some i ↦ some (suc i) ])
  unfolding get
  Located-skip rows nulls columns table name k c cells none h l = rw h l
  Located-skip rows nulls columns table name k c cells (some i) h (d, ds, at, found, v, n, len) =
      (d, ds, at, rw h found, v, n, len)

  position-Located :
      (rows : ℕ) (nulls : Map Text B) (names : List Text) (columns : List (Column B W))
      (table : Table W) (name : Text)
      → Holds rows nulls names columns table
      → Located rows nulls columns table name (position name names)
  unfolding get
  position-Located rows nulls [] [] [] name h = refl
  position-Located rows nulls (n ∷ names) (c ∷ columns) ((k, cells) ∷ table) name h =
      elim (Bool-cases (beq n name)) [
        | inl hit ↦
            let same : n ≡ name = (beq_iff n name).0 hit in
            rw hit (
              c,
              cells,
              refl,
              rw (← h.0, hit) refl,
              h.2,
              subst (λ u. HoldsNulls (get u nulls) cells) same h.3,
              h.1,
            )
        | inr miss ↦ rw miss (
            Located-skip rows nulls columns table name k c cells (position name names)
              (subst (λ u. beq u name ≡ false) h.0 miss)
              (position-Located rows nulls names columns table name h.4))
      ]
  position-Located rows nulls _ _ _ name h = absurd h

  -- A name finds the column that the table has under it, or neither has one.
  pub column_lem :
      (st : ColumnStore B W) (table : Table W) (name : Text)
      → Represents st table
      → ((column st name ≡ ok none) × (get name table ≡ none))
        ⊎ ((c : Column B W) × (cells : List (Cell W)) × (column st name ≡ ok (some c))
            × (get name table ≡ some cells)
            × HoldsValues c cells
            × HoldsNulls (get name st.null_rows) cells
            × (length cells ≡ st.row_count))
  unfolding column
  column_lem st table name r =
      go (position name st.names) (r.lookups name)
        (position-Located st.row_count st.null_rows st.names st.columns table name r.holds)
    where
      go :
          (p : Option ℕ)
          → get name st.lookup ≡ p
          → Located st.row_count st.null_rows st.columns table name p
          → ((column st name ≡ ok none) × (get name table ≡ none))
            ⊎ ((c : Column B W) × (cells : List (Cell W)) × (column st name ≡ ok (some c))
                × (get name table ≡ some cells)
                × HoldsValues c cells
                × HoldsNulls (get name st.null_rows) cells
                × (length cells ≡ st.row_count))
      go none e l = inl (rw (e, column) refl, l)
      go (some i) e (c, cells, at, found, v, n, len) =
          inr (c, cells, rw (e, column) (rw (at, index) refl), found, v, n, len)

pub index_ok {ℓ} :
    {A : Type ℓ} (v : List A) (i : ℕ) (a : A) → get_elem? v i ≡ some a → index v i ≡ ok a
index_ok v i a at = ap (λ o. elim o [ none ↦ panic | some x ↦ ok x ]) at

module _ {B W : Type 0} where
  -- A column that is found has an index.
  pub column-index :
      (st : ColumnStore B W) (name : Text) (c : Column B W)
      → column st name ≡ ok (some c)
      → (idx : ℕ) × (get name st.lookup ≡ some idx) × (get_elem? st.columns idx ≡ some c)
  unfolding column
  column-index st name c h = elim (Option-cases (get name st.lookup)) [
    | inl e ↦ absurd (not_none (rw (column, e) at h))
    | inr (idx, e) ↦ elim (Option-cases (get_elem? st.columns idx)) [
      | inl beyond ↦ absurd (
          no_panic (
            sym (ap (λ r. r >>= λ c. ok (some c)) (no_index st.columns idx beyond))
            ∙ rw (column, e) at h))
      | inr (d, at) ↦ (
        idx,
        e,
        at
            ∙ same d (
                sym (ap (λ r. r >>= λ c. ok (some c)) (index_ok st.columns idx d at))
                ∙ rw (column, e) at h),
      )
    ]
  ]
    where
      not_none : ok none ≡ ok (some c) → ⊥
      not_none e = cc

      same : (d : Column B W) → ok (some d) ≡ ok (some c) → some d ≡ some c
      same d e = cc

      no_index : (v : List (Column B W)) (i : ℕ) → get_elem? v i ≡ none → index v i ≡ panic
      no_index v i e = ap (λ o. elim o [ none ↦ panic | some x ↦ ok x ]) e

  pub column-missing :
      (st : ColumnStore B W) (name : Text) (idx : ℕ)
      → get name st.lookup ≡ some idx
      → column st name ≡ ok none
      → ⊥
  unfolding column
  column-missing st name idx e h =
      let (c, _, there) =
        >>=-eq-ok (index st.columns idx) (λ c. ok (some c)) (rw (column, e) at h) in
      not_both c there
    where
      not_both : (c : Column B W) → ok (some c) ≡ ok none → ⊥
      not_both c q = cc
