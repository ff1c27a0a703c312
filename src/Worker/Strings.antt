-- ===== src/Worker/Strings.antt =====
-- The `must` and `must_not` loops of `evaluate_filter` against the table.
use stats_cruncher.Base.{
  ℕ, ◌≡◌, refl, ◌∙◌, ap, inl, inr, Bool, false, not, ◌&&◌, some, List, [], ◌∷◌, arith, ok, ◌>>=◌,
}
use stats_cruncher.Text.{Text}
use stats_cruncher.Map.{Map, text_key}
use stats_cruncher.Float.{Float}
use stats_cruncher.Bitmap.{Bitmap, IsBitmap}
use stats_cruncher.Query.{StringMatch}
use stats_cruncher.Storage.Column.{Column}
use stats_cruncher.Storage.Store.{ColumnStore, column}
use stats_cruncher.Storage.Table.{
  Cell, Table, HoldsValues, Represents, test_at, IsInteger, IsFloatCell, IsDateTime,
}
use stats_cruncher.Storage.Lookup.{column_lem}
use stats_cruncher.Worker.Evaluate.{
  Flow, union_postings, must_step, must_not_step, must_loop, must_not_loop,
}
use stats_cruncher.Worker.Meaning.{cell_passes, is_one_of, musts, must_nots}
use stats_cruncher.Worker.Flow.{
  Selects, Runs, Runs-and_then, Selects-unless_empty, test_at_never, contains-column_union,
  cell_passes-none, cell_passes-some, Runs-congr,
}

module _ {W : Type 0} where
  NotOneOf : (P : Cell W → Type 0) (values : List Text) → Type 0
  NotOneOf P values = (c : Cell W) → P c → is_one_of values c ≡ false

  integer_not_one_of : (values : List Text) (c : Cell W) → IsInteger c → is_one_of values c ≡ false
  integer_not_one_of [] c h = refl
  integer_not_one_of (v ∷ values) Cell.null h = integer_not_one_of values Cell.null tt
  integer_not_one_of (v ∷ values) (Cell.integer i) h = integer_not_one_of values (Cell.integer i) tt
  integer_not_one_of (v ∷ values) _ h = elim h [ ]

  float_not_one_of : (values : List Text) (c : Cell W) → IsFloatCell c → is_one_of values c ≡ false
  float_not_one_of [] c h = refl
  float_not_one_of (v ∷ values) Cell.null h = float_not_one_of values Cell.null tt
  float_not_one_of (v ∷ values) (Cell.float x) h = float_not_one_of values (Cell.float x) tt
  float_not_one_of (v ∷ values) _ h = elim h [ ]

  date_time_not_one_of :
      (values : List Text) (c : Cell W) → IsDateTime c → is_one_of values c ≡ false
  date_time_not_one_of [] c h = refl
  date_time_not_one_of (v ∷ values) Cell.null h = date_time_not_one_of values Cell.null tt
  date_time_not_one_of (v ∷ values) (Cell.date_time t) h =
      date_time_not_one_of values (Cell.date_time t) tt
  date_time_not_one_of (v ∷ values) _ h = elim h [ ]

module _ {B : Type 0} ⦃m : Bitmap B⦄ where
  pub nothing :
      (laws : IsBitmap B) (b : B) (p : ℕ → Bool)
      → ((x : ℕ) → p x ≡ false)
      → Selects b p (Flow.return m.new)
  nothing laws b p h = ((λ x. ground (arith, h x)), laws.contains-new)

  everything :
      (b : B) (p : ℕ → Bool) → ((x : ℕ) → p x ≡ false) → Selects b (λ x. not (p x)) (Flow.next b)
  everything b p h x = ground (arith, h x)

module _ {B W : Type 0} ⦃m : Bitmap B⦄ ⦃f : Float W⦄ (laws : IsBitmap B) where
  -- No cell of a column that holds no texts is one of the values.
  abbrev NoTexts : Column B W → Type 0
  NoTexts (Column.string sc) = ⊥
  NoTexts (Column.integer v) = Unit
  NoTexts (Column.float v) = Unit
  NoTexts (Column.date_time v) = Unit

  no_texts :
      (c : Column B W) (cells : List (Cell W)) (values : List Text) (x : ℕ)
      → NoTexts c
      → HoldsValues c cells
      → test_at (is_one_of values) cells x ≡ false
  no_texts (Column.integer v) cells values x n h =
      test_at_never IsInteger (is_one_of values) cells x h.1 (integer_not_one_of values)
  no_texts (Column.float v) cells values x n h =
      test_at_never IsFloatCell (is_one_of values) cells x h.1 (float_not_one_of values)
  no_texts (Column.date_time v) cells values x n h =
      test_at_never IsDateTime (is_one_of values) cells x h.1 (date_time_not_one_of values)
  no_texts (Column.string sc) cells values x n h = absurd n

  Selects-must_step :
      (c : Column B W) (cells : List (Cell W)) (sm : StringMatch) (b : B)
      → HoldsValues c cells
      → Selects b (test_at (is_one_of sm.values) cells) (must_step (some c) sm b)
  unfolding must_step
  Selects-must_step (Column.string sc) cells sm b h = Selects-unless_empty laws b _ _ λ x.
      laws.contains-inter b (union_postings sc.dictionary sm.values m.new) x
      ∙ ap (◌&&◌ (m.contains b x)) (contains-column_union laws sc.dictionary sm.values cells x h.2)
  Selects-must_step (Column.integer v) cells sm b h =
      nothing laws b _ λ x. no_texts (Column.integer v) cells sm.values x tt h
  Selects-must_step (Column.float v) cells sm b h =
      nothing laws b _ λ x. no_texts (Column.float v) cells sm.values x tt h
  Selects-must_step (Column.date_time v) cells sm b h =
      nothing laws b _ λ x. no_texts (Column.date_time v) cells sm.values x tt h

  Selects-must_not_step :
      (c : Column B W) (cells : List (Cell W)) (sm : StringMatch) (b : B)
      → HoldsValues c cells
      → Selects b (λ x. not (test_at (is_one_of sm.values) cells x)) (must_not_step (some c) sm b)
  unfolding must_not_step
  Selects-must_not_step (Column.string sc) cells sm b h = Selects-unless_empty laws b _ _ λ x.
      laws.contains-diff b (union_postings sc.dictionary sm.values m.new) x
      ∙ ap (λ t. m.contains b x && not t)
          (contains-column_union laws sc.dictionary sm.values cells x h.2)
  Selects-must_not_step (Column.integer v) cells sm b h =
      everything b _ λ x. no_texts (Column.integer v) cells sm.values x tt h
  Selects-must_not_step (Column.float v) cells sm b h =
      everything b _ λ x. no_texts (Column.float v) cells sm.values x tt h
  Selects-must_not_step (Column.date_time v) cells sm b h =
      everything b _ λ x. no_texts (Column.date_time v) cells sm.values x tt h

  module _ (st : ColumnStore B W) (table : Table W) (r : Represents st table) where
    Runs-must :
        (name : Text) (sm : StringMatch) (b : B)
        → Runs b
            (cell_passes (is_one_of sm.values) table name)
            (do c ← column st name; ok (must_step c sm b))
    unfolding must_step
    Runs-must name sm b = elim (column_lem st table name r) [
      | inl (e, q) ↦
          rw e (Flow.return m.new, refl, nothing laws b _ (λ x. cell_passes-none _ table name x q))
      | inr (c, cells, e, q, h, _, _) ↦ rw e (
          Runs-congr b _ _ _ (λ x. cell_passes-some _ table name cells x q)
            (must_step (some c) sm b, refl, Selects-must_step c cells sm b h))
    ]

    Runs-must_not :
        (name : Text) (sm : StringMatch) (b : B)
        → Runs b
            (λ x. not (cell_passes (is_one_of sm.values) table name x))
            (do c ← column st name; ok (must_not_step c sm b))
    unfolding must_not_step
    Runs-must_not name sm b = elim (column_lem st table name r) [
      | inl (e, q) ↦
          rw e (Flow.next b, refl, everything b _ (λ x. cell_passes-none _ table name x q))
      | inr (c, cells, e, q, h, _, _) ↦ rw e (
          Runs-congr b _ _ _ (λ x. ap not (cell_passes-some _ table name cells x q))
            (must_not_step (some c) sm b, refl, Selects-must_not_step c cells sm b h))
    ]

    -- The `must` loop keeps the rows that meet every clause.
    pub Runs-must_loop :
        (clauses : Map Text StringMatch) (b : B)
        → Runs b (musts table clauses) (must_loop st clauses b)
    unfolding must_loop
    Runs-must_loop [] b = (Flow.next b, refl, λ x. ground arith)
    Runs-must_loop ((name, sm) ∷ rest) b =
        Runs-and_then b _ _ _ _ (Runs-must name sm b) λ b' _. Runs-must_loop rest b'

    pub Runs-must_not_loop :
        (clauses : Map Text StringMatch) (b : B)
        → Runs b (must_nots table clauses) (must_not_loop st clauses b)
    unfolding must_not_loop
    Runs-must_not_loop [] b = (Flow.next b, refl, λ x. ground arith)
    Runs-must_not_loop ((name, sm) ∷ rest) b =
        Runs-and_then b _ _ _ _ (Runs-must_not name sm b) λ b' _. Runs-must_not_loop rest b'
