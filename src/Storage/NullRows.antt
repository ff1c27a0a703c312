-- ===== src/Storage/NullRows.antt =====
-- `push_row` of storage.rs: the rows that are recorded as null are rows of the store.
use stats_cruncher.Base.{
  ℕ, ◌+◌, ◌<◌, ◌≡◌, inl, inr, true, false, Option, some, List, [], ◌∷◌, arith, Bool-cases, All,
  AppResult-cases, Option-cases,
}
use mathlib.Core.Option.{some-injective}
use stats_cruncher.Base.Int.{ℤ}
use stats_cruncher.Text.{Text, beq, ltb_text}
use stats_cruncher.Map.{Map, get, insert, text_key}
use stats_cruncher.Float.{Float}
use stats_cruncher.Bitmap.{Bitmap, IsBitmap}
use stats_cruncher.Storage.Column.{Column}
use stats_cruncher.Storage.Coerce.{RawValue, push_value}
use stats_cruncher.Storage.Store.{note_null, push_values}
use stats_cruncher.Storage.Table.{NullsWithin}

module _ {V : Type 0} (P : V → Type 0) where
  All-insert :
      (k : Text) (v : V) (entries : Map Text V)
      → P v
      → All (λ e. P e.1) entries
      → All (λ e. P e.1) (insert k v entries)
  unfolding insert
  All-insert k v [] p h = (p, tt)
  All-insert k v ((j, w) ∷ entries) p h = elim (Bool-cases (beq j k)) [
    | inl same ↦ rw same (p, h.1)
    | inr other ↦ elim (Bool-cases (ltb_text k j)) [
      | inl before ↦ rw (other, before) (p, (h.0, h.1))
      | inr after ↦ rw (other, after) (h.0, All-insert k v entries p h.1)
    ]
  ]

  All-get :
      (k : Text) (v : V) (entries : Map Text V)
      → get k entries ≡ some v
      → All (λ e. P e.1) entries
      → P v
  unfolding get
  All-get k v [] e h = cc
  All-get k v ((j, w) ∷ entries) e h = elim (Bool-cases (beq j k)) [
    | inl same ↦ rw (some-injective _ _ (rw same at e)) at h.0
    | inr other ↦ All-get k v entries (rw other at e) h.1
  ]

module _ {B : Type 0} ⦃m : Bitmap B⦄ (laws : IsBitmap B) where
  pub NullsWithin-weaken :
      (rows : ℕ) (nulls : Map Text B) → NullsWithin rows nulls → NullsWithin (rows + 1) nulls
  NullsWithin-weaken rows [] h = tt
  NullsWithin-weaken rows (e ∷ nulls) h =
      (λ row c. omega (arith, h.0 row c), NullsWithin-weaken rows nulls h.1)

  note_null-NullsWithin :
      (name : Text) (row : ℕ) (nulls : Map Text B)
      → NullsWithin (row + 1) nulls
      → NullsWithin (row + 1) (note_null name row nulls)
  unfolding note_null
  note_null-NullsWithin name row nulls h = elim (Option-cases (get name nulls)) [
    | inl e ↦ rw e (
        All-insert (λ b. (r : ℕ) → m.contains b r ≡ true → r < row + 1) name (m.insert row m.new)
          nulls (λ r c. ground (arith, c, laws.contains-insert row r m.new, laws.contains-new r)) h)
    | inr (b, e) ↦ rw e (
        let before =
          All-get (λ b. (r : ℕ) → m.contains b r ≡ true → r < row + 1) name b nulls e h in
        All-insert (λ b. (r : ℕ) → m.contains b r ≡ true → r < row + 1) name (m.insert row b) nulls
          (λ r c. ground (arith, c, laws.contains-insert row r b, before r)) h)
  ]

  -- Pushing a row adds no other row to the null rows, even when it fails.
  pub push_values-NullsWithin :
      {W : Type 0} ⦃f : Float W⦄ (parse_rfc3339 : Text → Option ℤ) (columns : List (Column B W))
      (names : List Text) (nulls : Map Text B) (values : List (RawValue W)) (row : ℕ)
      → NullsWithin (row + 1) nulls
      → NullsWithin (row + 1) (push_values parse_rfc3339 columns names nulls values row).2
  unfolding push_values
  push_values-NullsWithin parse_rfc3339 columns names nulls [] row h = h
  push_values-NullsWithin parse_rfc3339 (c ∷ columns) (name ∷ names) nulls (value ∷ values) row h =
      elim (AppResult-cases (push_value parse_rfc3339 c value row)) [
        | inl ((true, c'), e) ↦
            rw (push_values, e)
              (push_values-NullsWithin parse_rfc3339 columns names nulls values row h)
        | inl ((false, c'), e) ↦
            rw (push_values, e)
              (push_values-NullsWithin parse_rfc3339 columns names (note_null name row nulls) values
                row (note_null-NullsWithin name row nulls h))
        | inr (inl (x, e)) ↦ rw (push_values, e) h
        | inr (inr e) ↦ rw (push_values, e) h
      ]
  push_values-NullsWithin parse_rfc3339 (c ∷ columns) [] nulls (value ∷ values) row h = h
  push_values-NullsWithin parse_rfc3339 [] names nulls (value ∷ values) row h = h
