-- ===== src/Api/Bounds.antt =====
-- api/dto.rs: what the bounds of a range object in a request mean.
use stats_cruncher.Base.{
  ◌≡◌, inl, inr, Bool, true, false, ◌&&◌, ◌⊎◌, Option, none, some, arith, Option-cases,
}
use stats_cruncher.Base.Int.{ℤ}
use stats_cruncher.Text.{Text}
use stats_cruncher.Float.{Float}
use stats_cruncher.Query.{RangeFilter, NumericBound, Comparison}
use stats_cruncher.Worker.Meaning.{in_range, meets, above_bound, below_bound}
use stats_cruncher.Api.Dto.{BoundValue, RangeDto, range_filter, one_bound, to_bound, bound_value}

module _ {W : Type 0} ⦃f : Float W⦄ (parse_rfc3339 : Text → Option ℤ) where
  -- A bound that is given has a value that passes the test.
  abbrev pub passes : (W → Bool) → Option (BoundValue W) → Bool
  passes p none = true
  passes p (some v) = elim (bound_value parse_rfc3339 v) [ none ↦ false | some y ↦ p y ]

  one_bound-above :
      (x : W) (gte gt : Option (BoundValue W)) (o : Option (NumericBound W))
      → (gte ≡ none) ⊎ (gt ≡ none)
      → one_bound parse_rfc3339 gte Comparison.gte gt Comparison.gt ≡ some o
      → meets (above_bound x) o ≡ (passes (λ y. f.le y x) gte && passes (λ y. f.lt y x) gt)
  unfolding one_bound to_bound
  one_bound-above x (some v) (some w) o h e = absurd (both h)
    where
      both : (some v ≡ none) ⊎ (some w ≡ none) → ⊥
      both (inl q) = cc
      both (inr q) = cc
  one_bound-above x (some v) none o h e = ground (arith, e)
  one_bound-above x none (some v) o h e = ground (arith, e)
  one_bound-above x none none o h e = ground (arith, e)

  one_bound-below :
      (x : W) (lte lt : Option (BoundValue W)) (o : Option (NumericBound W))
      → (lte ≡ none) ⊎ (lt ≡ none)
      → one_bound parse_rfc3339 lte Comparison.lte lt Comparison.lt ≡ some o
      → meets (below_bound x) o ≡ (passes (λ y. f.le x y) lte && passes (λ y. f.lt x y) lt)
  unfolding one_bound to_bound
  one_bound-below x (some v) (some w) o h e = absurd (both h)
    where
      both : (some v ≡ none) ⊎ (some w ≡ none) → ⊥
      both (inl q) = cc
      both (inr q) = cc
  one_bound-below x (some v) none o h e = ground (arith, e)
  one_bound-below x none (some v) o h e = ground (arith, e)
  one_bound-below x none none o h e = ground (arith, e)

  -- A range object without `eq`, and with at most one of `gt` and `gte` and one of `lt` and `lte`, that is
  -- accepted lets a value through exactly when the value passes every bound that is given.
  pub in_range-range_filter :
      (r : RangeDto W) (rf : RangeFilter W) (x : W)
      → r.eq ≡ none
      → (r.gte ≡ none) ⊎ (r.gt ≡ none)
      → (r.lte ≡ none) ⊎ (r.lt ≡ none)
      → range_filter parse_rfc3339 r ≡ some rf
      → in_range x rf ≡ (
          (passes (λ y. f.le y x) r.gte && passes (λ y. f.lt y x) r.gt)
          && passes (λ y. f.le x y) r.lte
          && passes (λ y. f.lt x y) r.lt)
  unfolding range_filter
  in_range-range_filter r rf x none_eq lower upper e =
      elim (Option-cases (one_bound parse_rfc3339 r.gte Comparison.gte r.gt Comparison.gt)) [
        | inl q ↦ ground (arith, e, q, none_eq)
        | inr (o, q) ↦
            elim (Option-cases (one_bound parse_rfc3339 r.lte Comparison.lte r.lt Comparison.lt)) [
              | inl q' ↦ ground (arith, e, q, q', none_eq)
              | inr (o', q') ↦ ground (
                arith,
                e,
                q,
                q',
                none_eq,
                one_bound-above x r.gte r.gt o lower q,
                one_bound-below x r.lte r.lt o' upper q',
              )
            ]
      ]
