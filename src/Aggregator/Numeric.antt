-- ===== src/Aggregator/Numeric.antt =====
-- execution/aggregator.rs: the statistics of one column when a partial result is merged.
use stats_cruncher.Base.{
  ◌≤◌, ◌≡◌, refl, ◌∙◌, ap, inl, inr, Bool-cases, Option, none, some, [], ◌∷◌, arith,
}
use mathlib.Core.Option.{some-injective}
use stats_cruncher.Text.{Text, beq, beq_iff}
use stats_cruncher.Map.{Map, get, get-insert, text_key}
use stats_cruncher.Float.{Float}
use stats_cruncher.Query.{NumericStats, merge_stats}
use stats_cruncher.Aggregator.{add_numeric}
use stats_cruncher.Worker.Entries.{entries}

module _ {W : Type 0} ⦃f : Float W⦄ where
  abbrev pub merged_with : Option (NumericStats W) → NumericStats W → NumericStats W
  merged_with o s = elim o [ none ↦ s | some existing ↦ merge_stats existing s ]

  get-add_numeric_absent :
      (name : Text) (numeric acc : Map Text (NumericStats W))
      → entries name numeric ≤ 0
      → get name (add_numeric numeric acc) ≡ get name acc
  unfolding add_numeric entries
  get-add_numeric_absent name [] acc h = refl
  get-add_numeric_absent name ((n, s) ∷ numeric) acc h = elim (Bool-cases (beq n name)) [
    | inl same ↦ absurd (ground (arith, same, h))
    | inr other ↦
        get-add_numeric_absent name numeric _ (ground (arith, other, h))
        ∙ get-insert n name _ acc
        ∙ rw other refl
  ]

  -- A name with one entry is merged with what there is.
  pub get-add_numeric :
      (name : Text) (numeric acc : Map Text (NumericStats W)) (s : NumericStats W)
      → entries name numeric ≤ 1
      → get name numeric ≡ some s
      → get name (add_numeric numeric acc) ≡ some (merged_with (get name acc) s)
  unfolding add_numeric entries get
  get-add_numeric name [] acc s h e = cc
  get-add_numeric name ((n, t) ∷ numeric) acc s h e = elim (Bool-cases (beq n name)) [
    | inl same ↦
        let none_left : entries name numeric ≤ 0 = ground (arith, same, h) in
        let here : t ≡ s = some-injective _ _ (rw same at e) in
        get-add_numeric_absent name numeric _ none_left
        ∙ get-insert n name _ acc
        ∙ rw same (
            ap some (
              ap (λ k. merged_with (get k acc) t) ((beq_iff n name).0 same)
              ∙ ap (merged_with (get name acc)) here))
    | inr other ↦
        get-add_numeric name numeric _ s (ground (arith, other, h)) (rw other at e)
        ∙ ap (λ o. some (merged_with o s)) (get-insert n name _ acc ∙ rw other refl)
  ]
