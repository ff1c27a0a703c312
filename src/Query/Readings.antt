-- ===== src/Query/Readings.antt =====
-- query/model.rs: what can be read off the statistics of a column, and adds up when they are merged: the count, and
-- which numbers the minimum lies below and the maximum above. (The sum depends on the order of the additions.)
use stats_cruncher.Base.{
  ℕ, ◌+◌, ◌%◌, ◌^◌, ◌≡◌, refl, sym, ◌∙◌, ap, Bool, List, [], ◌∷◌, ◌++◌, arith, leb, if◌then◌else◌,
  inl, inr, Bool-cases,
}
use stats_cruncher.Float.{Float, IsFloat, IsNumber}
use stats_cruncher.Query.{NumericStats, empty_stats, observe, merge_stats, observe_all}
use stats_cruncher.Query.Stats.{
  stats_of, lt_trans_float, lt_split_float, IsNumber-infinity, IsNumber-neg_infinity,
  not_infinity-lt, not_lt-neg_infinity, lt-IsNumber, merge_stats-append,
}

abbrev bit : Bool → ℕ
bit b = if b then 1 else 0

abbrev some_bit : ℕ → ℕ
some_bit n = if leb 1 n then 1 else 0

bit-injective : (a b : Bool) → bit a ≡ bit b → a ≡ b
bit-injective a b e = ground arith

some_bit_add : (a b : ℕ) → some_bit (a + b) ≡ some_bit (some_bit a + b)
some_bit_add a b = ground arith

some_bit-bit : (b : Bool) → some_bit (bit b) ≡ bit b
some_bit-bit b = ground arith

module _ {W : Type 0} ⦃f : Float W⦄ where
  -- A counter below 2 ^ 64, and ends that are not NaN.
  abbrev pub IsProper : NumericStats W → Type 0
  IsProper s = (s.count ≡ s.count % 2 ^ 64) × IsNumber s.min × IsNumber s.max

pub record Reading (W : Type 0) ⦃f : Float W⦄ : Type 0 where
  pub norm : ℕ → ℕ
  pub norm_zero : norm 0 ≡ 0
  pub norm_add : (a b : ℕ) → norm (a + b) ≡ norm (norm a + b)
  pub read : NumericStats W → ℕ
  pub read_empty : read empty_stats ≡ 0
  pub read_proper : (s : NumericStats W) → IsProper s → norm (read s) ≡ read s
  pub read_merge :
      (s other : NumericStats W)
      → IsProper s
      → IsProper other
      → read (merge_stats s other) ≡ norm (read s + read other)
  pub read_same :
      (s other : NumericStats W)
      → s.count ≡ other.count
      → s.min ≡ other.min
      → s.max ≡ other.max
      → read s ≡ read other

module _ {W : Type 0} ⦃f : Float W⦄ where
  -- Statistics with the same count, and with ends that compare the same with every number.
  pub record AreSame (s other : NumericStats W) : Type 0 where
    pub count : s.count ≡ other.count
    pub min : (x : W) → f.lt s.min x ≡ f.lt other.min x
    pub max : (x : W) → f.lt x s.max ≡ f.lt x other.max

  pub merge_stats-IsProper :
      (s other : NumericStats W) → IsProper s → IsProper other → IsProper (merge_stats s other)
  unfolding merge_stats
  merge_stats-IsProper s other h k = (
    omega arith,
    elim (Bool-cases (f.lt other.min s.min)) [
      | inl below ↦ rw below k.1
      | inr other_way ↦ rw other_way h.1
    ],
    elim (Bool-cases (f.lt s.max other.max)) [
      | inl above ↦ rw above k.2
      | inr other_way ↦ rw other_way h.2
    ],
  )

  pub count_reading : Reading W
  unfolding empty_stats merge_stats
  count_reading = record {
    norm = λ n. n % 2 ^ 64;
    norm_zero = refl;
    norm_add = λ a b. omega arith;
    read = λ s. s.count;
    read_empty = refl;
    read_proper = λ s h. sym h.0;
    read_merge = λ s other h k. refl;
    read_same = λ s other c l g. c;
  }

  pub norm_norm : (ρ : Reading W) (n : ℕ) → ρ.norm (ρ.norm n) ≡ ρ.norm n
  norm_norm ρ n =
      let same : n + 0 ≡ n = omega arith in
      let same' : ρ.norm n + 0 ≡ ρ.norm n = omega arith in
      sym (ap ρ.norm same') ∙ sym (ρ.norm_add n 0) ∙ ap ρ.norm same

  module _ (laws : IsFloat W) where
    pub empty_stats-IsProper : IsProper {W = W} empty_stats
    unfolding empty_stats
    empty_stats-IsProper = (refl, IsNumber-infinity laws, IsNumber-neg_infinity laws)

    pub observe-IsProper : (s : NumericStats W) (x : W) → IsProper s → IsProper (observe s x)
    unfolding observe
    observe-IsProper s x h = (
      omega arith,
      elim (Bool-cases (f.lt x s.min)) [
        | inl below ↦ rw below (lt-IsNumber laws x s.min below).0
        | inr other_way ↦ rw other_way h.1
      ],
      elim (Bool-cases (f.lt s.max x)) [
        | inl above ↦ rw above (lt-IsNumber laws s.max x above).1
        | inr other_way ↦ rw other_way h.2
      ],
    )

    observe_all-IsProper :
        (s : NumericStats W) (xs : List W) → IsProper s → IsProper (observe_all s xs)
    unfolding observe_all
    observe_all-IsProper s [] h = h
    observe_all-IsProper s (x ∷ xs) h =
        observe_all-IsProper (observe s x) xs (observe-IsProper s x h)

    pub stats_of-IsProper : (xs : List W) → IsProper (stats_of xs)
    stats_of-IsProper xs = observe_all-IsProper empty_stats xs empty_stats-IsProper

    min-merge_stats :
        (s other : NumericStats W) (x : W)
        → IsProper s
        → bit (f.lt (merge_stats s other).min x)
          ≡ some_bit (bit (f.lt s.min x) + bit (f.lt other.min x))
    unfolding merge_stats
    min-merge_stats s other x h =
        ground
          (arith, lt_trans_float laws other.min s.min x, lt_split_float laws other.min s.min x h.1)

    max-merge_stats :
        (s other : NumericStats W) (x : W)
        → IsProper s
        → bit (f.lt x (merge_stats s other).max)
          ≡ some_bit (bit (f.lt x s.max) + bit (f.lt x other.max))
    unfolding merge_stats
    max-merge_stats s other x h =
        ground
          (arith, lt_trans_float laws x s.max other.max, lt_split_float laws x s.max other.max h.2)

    -- Whether the minimum is below a number.
    pub min_reading : W → Reading W
    unfolding empty_stats
    min_reading x = record {
      norm = some_bit;
      norm_zero = refl;
      norm_add = some_bit_add;
      read = λ s. bit (f.lt s.min x);
      read_empty = ap bit (not_infinity-lt laws x);
      read_proper = λ s h. some_bit-bit (f.lt s.min x);
      read_merge = λ s other h k. min-merge_stats s other x h;
      read_same = λ s other c l g. ap (λ y. bit (f.lt y x)) l;
    }

    -- Whether the maximum is above a number.
    pub max_reading : W → Reading W
    unfolding empty_stats
    max_reading x = record {
      norm = some_bit;
      norm_zero = refl;
      norm_add = some_bit_add;
      read = λ s. bit (f.lt x s.max);
      read_empty = ap bit (not_lt-neg_infinity laws x);
      read_proper = λ s h. some_bit-bit (f.lt x s.max);
      read_merge = λ s other h k. max-merge_stats s other x h;
      read_same = λ s other c l g. ap (λ y. bit (f.lt x y)) g;
    }

    -- What three readings agree on.
    pub readings-AreSame :
        (s other : NumericStats W)
        → count_reading.read s ≡ count_reading.read other
        → ((x : W) → (min_reading x).read s ≡ (min_reading x).read other)
        → ((x : W) → (max_reading x).read s ≡ (max_reading x).read other)
        → AreSame s other
    unfolding min_reading max_reading count_reading
    readings-AreSame s other c l g = record {
      count = c;
      min = λ x. bit-injective _ _ (l x);
      max = λ x. bit-injective _ _ (g x);
    }

    pub read-append :
        (ρ : Reading W) (xs ys : List W)
        → ρ.read (stats_of (xs ++ ys)) ≡ ρ.norm (ρ.read (stats_of xs) + ρ.read (stats_of ys))
    read-append ρ xs ys =
        let (c, l, g, _) = merge_stats-append laws xs ys in
        sym (ρ.read_same _ _ c l g) ∙ ρ.read_merge _ _ (stats_of-IsProper xs) (stats_of-IsProper ys)
