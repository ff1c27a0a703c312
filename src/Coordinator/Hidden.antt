-- ===== src/Coordinator/Hidden.antt =====
-- execution/coordinator.rs: what `submit` shows of hidden columns.
use stats_cruncher.Base.{
  ◌≡◌, refl, ◌∙◌, inl, inr, ◌⊎◌, ap, true, false, none, some, [], ◌∷◌, arith, if◌then◌else◌,
  Bool-cases, Option-cases,
}
use mathlib.Core.Option.{some-injective}
use stats_cruncher.Text.{Text, beq}
use stats_cruncher.Map.{Map, get, remove, get-remove, text_key}
use stats_cruncher.Config.{SearchableColumn}
use stats_cruncher.Query.{Response}
use stats_cruncher.Coordinator.{present, present_column}

module _ {W : Type 0} where
  present_column-numeric :
      (n : Text) (col : SearchableColumn) (response : Response W)
      → (present_column n col response).numeric
        ≡ (if col.hidden then remove n response.numeric else response.numeric)
  unfolding present_column remove
  present_column-numeric n col response = elim (Bool-cases col.hidden) [
    | inl hides ↦ rw (present_column, hides) refl
    | inr shows ↦ elim (Option-cases (get n response.numeric)) [
      | inl e ↦ rw (present_column, shows, e) refl
      | inr (stats, e) ↦ rw (present_column, shows, e) refl
    ]
  ]

  -- A column keeps out what is not there, and a hidden one takes its own statistics out.
  present_column-none :
      (n : Text) (col : SearchableColumn) (response : Response W) (name : Text)
      → (get name response.numeric ≡ none) ⊎ ((beq n name ≡ true) × (col.hidden ≡ true))
      → get name (present_column n col response).numeric ≡ none
  present_column-none n col response name h =
      ap (get name) (present_column-numeric n col response) ∙ gone (Bool-cases col.hidden) h
    where
      gone :
          ((col.hidden ≡ true) ⊎ (col.hidden ≡ false))
          → (get name response.numeric ≡ none) ⊎ ((beq n name ≡ true) × (col.hidden ≡ true))
          → get name (if col.hidden then remove n response.numeric else response.numeric) ≡ none
      gone (inl hides) h = rw (hides, get-remove) (ground (arith, h))
      gone (inr shows) h = rw shows (ground (arith, h, shows))

  present-none :
      (searchable : Map Text SearchableColumn) (response : Response W) (name : Text)
      → get name response.numeric ≡ none
      → get name (present searchable response).numeric ≡ none
  unfolding present
  present-none [] response name h = h
  present-none ((n, col) ∷ rest) response name h =
      present-none rest (present_column n col response) name
        (present_column-none n col response name (inl h))

  -- The response that `submit` returns has no statistics of a hidden column.
  pub present-hidden :
      (searchable : Map Text SearchableColumn) (response : Response W) (name : Text)
      (col : SearchableColumn)
      → get name searchable ≡ some col
      → col.hidden ≡ true
      → get name (present searchable response).numeric ≡ none
  unfolding present get
  present-hidden [] response name col e hides = cc
  present-hidden ((n, c) ∷ rest) response name col e hides = elim (Bool-cases (beq n name)) [
    | inl here ↦ present-none rest (present_column n c response) name (
        present_column-none n c response name
          (inr (here, ap (λ x. x.hidden) (some-injective _ _ (rw here at e)) ∙ hides)))
    | inr later ↦ present-hidden rest (present_column n c response) name col (rw later at e) hides
  ]
