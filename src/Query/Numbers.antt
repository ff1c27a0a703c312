-- ===== src/Query/Numbers.antt =====
-- query/model.rs: what the statistics of a list of numbers are, told by the numbers.
use stats_cruncher.Base.{
  ◌%◌, ◌^◌, ◌≡◌, refl, ◌∙◌, ap, Bool, ◌||◌, List, [], ◌∷◌, ◌++◌, arith, any, length,
}
use stats_cruncher.Float.{Float, IsFloat}
use stats_cruncher.Query.{NumericStats, empty_stats, observe, merge_stats, observe_all}
use stats_cruncher.Query.Stats.{
  stats_of, lt_trans_float, lt_split_float, not_infinity-lt, not_lt-neg_infinity,
  merge_stats-append, count-observe_all,
}
use stats_cruncher.Query.Readings.{IsProper, AreSame, observe-IsProper, empty_stats-IsProper}

any-append : {A : Type 0} (p : A → Bool) (xs ys : List A) → any p (xs ++ ys) ≡ any p xs || any p ys
any-append p [] ys = refl
any-append p (x ∷ xs) ys = ground (arith, any-append p xs ys)

module _ {W : Type 0} ⦃f : Float W⦄ where
  -- The count modulo 2 ^ 64; a minimum that lies below just the values that some number lies below; and a
  -- maximum that lies above just the values that some number lies above. NaN compares with nothing.
  pub record IsStatsOf (s : NumericStats W) (xs : List W) : Type 0 where
    pub count : s.count ≡ length xs % 2 ^ 64
    pub min : (x : W) → f.lt s.min x ≡ any (λ n. f.lt n x) xs
    pub max : (x : W) → f.lt x s.max ≡ any (λ n. f.lt x n) xs

  pub AreSame-IsStatsOf :
      (s other : NumericStats W) (xs : List W)
      → AreSame s other
      → IsStatsOf other xs
      → IsStatsOf s xs
  AreSame-IsStatsOf s other xs e h = record {
    count = e.count ∙ h.count;
    min = λ x. e.min x ∙ h.min x;
    max = λ x. e.max x ∙ h.max x;
  }

  module _ (laws : IsFloat W) where
    min-observe :
        (s : NumericStats W) (n x : W)
        → IsProper s
        → f.lt (observe s n).min x ≡ f.lt s.min x || f.lt n x
    unfolding observe
    min-observe s n x h =
        ground (arith, lt_trans_float laws n s.min x, lt_split_float laws n s.min x h.1)

    max-observe :
        (s : NumericStats W) (n x : W)
        → IsProper s
        → f.lt x (observe s n).max ≡ f.lt x s.max || f.lt x n
    unfolding observe
    max-observe s n x h =
        ground (arith, lt_trans_float laws x s.max n, lt_split_float laws x s.max n h.2)

    min-observe_all_lem :
        (s : NumericStats W) (xs : List W) (x : W)
        → IsProper s
        → f.lt (observe_all s xs).min x ≡ f.lt s.min x || any (λ n. f.lt n x) xs
    unfolding observe_all
    min-observe_all_lem s [] x h = ground arith
    min-observe_all_lem s (n ∷ xs) x h = ground (
      arith,
      min-observe_all_lem (observe s n) xs x (observe-IsProper laws s n h),
      min-observe s n x h,
    )

    max-observe_all_lem :
        (s : NumericStats W) (xs : List W) (x : W)
        → IsProper s
        → f.lt x (observe_all s xs).max ≡ f.lt x s.max || any (λ n. f.lt x n) xs
    unfolding observe_all
    max-observe_all_lem s [] x h = ground arith
    max-observe_all_lem s (n ∷ xs) x h = ground (
      arith,
      max-observe_all_lem (observe s n) xs x (observe-IsProper laws s n h),
      max-observe s n x h,
    )

    -- Observing the numbers of a list one after another gives its statistics.
    pub stats_of-IsStatsOf : (xs : List W) → IsStatsOf (stats_of xs) xs
    unfolding empty_stats
    stats_of-IsStatsOf xs = record {
      count = count-observe_all empty_stats xs refl ∙ omega arith;
      min = λ x.
          min-observe_all_lem empty_stats xs x (empty_stats-IsProper laws)
          ∙ ap (λ b. b || any (λ n. f.lt n x) xs) (not_infinity-lt laws x);
      max = λ x.
          max-observe_all_lem empty_stats xs x (empty_stats-IsProper laws)
          ∙ ap (λ b. b || any (λ n. f.lt x n) xs) (not_lt-neg_infinity laws x);
    }

    -- Merging the statistics of two lists gives the statistics of the joined list: the count of its numbers modulo
    -- 2 ^ 64, a minimum that lies below just the values that one of its numbers lies below, and a maximum that
    -- lies above just the values that one of them lies above. Count, minimum and maximum are those that
    -- observing the joined list gives.
    pub merge_stats-IsStatsOf :
        (xs ys : List W)
        → IsStatsOf (merge_stats (stats_of xs) (stats_of ys)) (xs ++ ys)
          × ((merge_stats (stats_of xs) (stats_of ys)).count ≡ (stats_of (xs ++ ys)).count)
          × ((merge_stats (stats_of xs) (stats_of ys)).min ≡ (stats_of (xs ++ ys)).min)
          × ((merge_stats (stats_of xs) (stats_of ys)).max ≡ (stats_of (xs ++ ys)).max)
    merge_stats-IsStatsOf xs ys =
        let (c, l, g, _) = merge_stats-append laws xs ys in
        let whole = stats_of-IsStatsOf (xs ++ ys) in
        (
          record {
            count = c ∙ whole.count;
            min = λ x. ap (λ m. f.lt m x) l ∙ whole.min x;
            max = λ x. ap (λ m. f.lt x m) g ∙ whole.max x;
          },
          c,
          l,
          g,
        )
