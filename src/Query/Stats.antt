-- ===== src/Query/Stats.antt =====
-- query/model.rs: the statistics of a list of values, and `merge_stats`.
use stats_cruncher.Base.{
  ◌+◌, ◌%◌, ◌^◌, ◌≡◌, refl, sym, ◌⊎◌, inl, inr, Bool, true, false, List, [], ◌∷◌, ◌++◌, ◌∙◌, arith,
  Bool-cases, length, length-append,
}
use mathlib.Core.Bool.{false≢true}
use stats_cruncher.Float.{Float, IsFloat, IsNumber}
use stats_cruncher.Query.{NumericStats, empty_stats, observe, merge_stats, observe_all}
use stats_cruncher.Query.Order.{IsStrictOrder, pick_all, pick_all-append}

flip_or : {A B : Type 0} → A ⊎ B → B ⊎ A
flip_or (inl a) = inr a
flip_or (inr b) = inl b

module _ {W : Type 0} ⦃f : Float W⦄ where
  abbrev pub stats_of : List W → NumericStats W
  stats_of = observe_all empty_stats

  abbrev above : W → W → Bool
  above x y = f.lt y x

  pub count-observe_all :
      (s : NumericStats W) (xs : List W)
      → s.count ≡ s.count % 2 ^ 64
      → (observe_all s xs).count ≡ (s.count + length xs) % 2 ^ 64
  unfolding observe_all observe
  count-observe_all s [] h = omega arith
  count-observe_all s (x ∷ xs) h = omega (arith, count-observe_all (observe s x) xs (omega arith))

  pub min-observe_all :
      (s : NumericStats W) (xs : List W) → (observe_all s xs).min ≡ pick_all f.lt s.min xs
  unfolding observe_all observe pick_all
  min-observe_all s [] = refl
  min-observe_all s (x ∷ xs) = min-observe_all (observe s x) xs

  pub max-observe_all :
      (s : NumericStats W) (xs : List W) → (observe_all s xs).max ≡ pick_all above s.max xs
  unfolding observe_all observe pick_all
  max-observe_all s [] = refl
  max-observe_all s (x ∷ xs) = max-observe_all (observe s x) xs

  module _ (laws : IsFloat W) where
    open laws use {
      number_of_le, le_trans, le_total, lt-le, lt_of_not_le, infinity_greatest, neg_infinity_least,
    }

    pub lt_trans_float : (x y z : W) → f.lt x y ≡ true → f.lt y z ≡ true → f.lt x z ≡ true
    lt_trans_float x y z p q =
        let (xy, _) = lt-le x y p in
        let (yz, zy) = lt-le y z q in
        let number_x = (number_of_le x y xy).0 in
        let number_z = (number_of_le y z yz).1 in
        elim (Bool-cases (f.le z x)) [
          | inl back ↦ absurd (false≢true (sym zy ∙ le_trans z x y back xy))
          | inr apart ↦ lt_of_not_le x z number_x number_z apart
        ]

    -- A value between two others, one of which is below the other, is above the first or below the second.
    pub lt_split_float :
        (x y z : W) → IsNumber y → f.lt x z ≡ true → (f.lt x y ≡ true) ⊎ (f.lt y z ≡ true)
    lt_split_float x y z number_y p =
        let (xz, zx) = lt-le x z p in
        let (number_x, number_z) = number_of_le x z xz in
        elim (Bool-cases (f.le y x)) [
          | inr apart ↦ inl (lt_of_not_le x y number_x number_y apart)
          | inl back ↦ elim (Bool-cases (f.le z y)) [
            | inr apart ↦ inr (lt_of_not_le y z number_y number_z apart)
            | inl back' ↦ absurd (false≢true (sym zx ∙ le_trans z y x back' back))
          ]
        ]

    pub IsNumber-infinity : IsNumber f.infinity
    IsNumber-infinity =
        (number_of_le f.nought f.infinity (infinity_greatest f.nought laws.nought_number)).1

    pub IsNumber-neg_infinity : IsNumber f.neg_infinity
    IsNumber-neg_infinity =
        (number_of_le f.neg_infinity f.nought (neg_infinity_least f.nought laws.nought_number)).0

    pub not_infinity-lt : (z : W) → f.lt f.infinity z ≡ false
    not_infinity-lt z =
        ground (arith, lt-le f.infinity z, number_of_le f.infinity z, infinity_greatest z)

    pub not_lt-neg_infinity : (z : W) → f.lt z f.neg_infinity ≡ false
    not_lt-neg_infinity z =
        ground (arith, lt-le z f.neg_infinity, number_of_le z f.neg_infinity, neg_infinity_least z)

    pub lt-IsNumber : (x y : W) → f.lt x y ≡ true → IsNumber x × IsNumber y
    lt-IsNumber x y p = number_of_le x y (lt-le x y p).0

    ascending : IsStrictOrder f.lt f.infinity
    ascending = record {
      lt_trans = lt_trans_float;
      lt_split = λ x y z w p q. lt_split_float x y z (lt-IsNumber y w q).0 p;
      lt_split_top = λ x z p.
          ground (arith, lt_split_float x f.infinity z IsNumber-infinity p, not_infinity-lt z);
      not_top-lt = not_infinity-lt;
    }

    descending : IsStrictOrder above f.neg_infinity
    descending = record {
      lt_trans = λ x y z p q. lt_trans_float z y x q p;
      lt_split = λ x y z w p q. flip_or (lt_split_float z y x (lt-IsNumber w y q).1 p);
      lt_split_top = λ x z p.
          ground (
            arith,
            lt_split_float z f.neg_infinity x IsNumber-neg_infinity p,
            not_lt-neg_infinity z,
          );
      not_top-lt = not_lt-neg_infinity;
    }

    -- Merging the statistics of two lists gives the count, the minimum and the maximum of the joined
    -- list, and adds the two sums.
    pub merge_stats-append :
        (xs ys : List W)
        → let merged = merge_stats (stats_of xs) (stats_of ys) in
          let whole = stats_of (xs ++ ys) in
          (merged.count ≡ whole.count)
          × (merged.min ≡ whole.min)
          × (merged.max ≡ whole.max)
          × (merged.sum ≡ f.add (stats_of xs).sum (stats_of ys).sum)
    unfolding merge_stats empty_stats
    merge_stats-append xs ys = (
      omega (
        arith,
        count-observe_all empty_stats xs refl,
        count-observe_all empty_stats ys refl,
        count-observe_all empty_stats (xs ++ ys) refl,
        length-append xs ys,
      ),
      rw
          (
            min-observe_all empty_stats xs,
            min-observe_all empty_stats ys,
            min-observe_all empty_stats (xs ++ ys),
          )
          (sym (pick_all-append f.lt f.infinity ascending xs ys)),
      rw
          (
            max-observe_all empty_stats xs,
            max-observe_all empty_stats ys,
            max-observe_all empty_stats (xs ++ ys),
          )
          (sym (pick_all-append above f.neg_infinity descending xs ys)),
      refl,
    )
