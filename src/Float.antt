-- ===== src/Float.antt =====
-- `f64` and what the program does with one. IEEE arithmetic is the machine's, so the type and its
-- operations are parameters; `IsFloat` states the documented facts that the proofs rely on.
pub mod Sample
use stats_cruncher.Base.{◌≡◌, ◌⊎◌, Bool, true, false, Option}
use stats_cruncher.Base.Int.{ℤ}
use stats_cruncher.Text.{Text}

pub record Float (W : Type 0) : Type 0 where
  pub nought : W
  pub infinity : W
  pub neg_infinity : W
  pub add : W → W → W
  pub lt : W → W → Bool
  pub le : W → W → Bool
  -- `a.total_cmp(b)` is not `Greater`
  pub total_le : W → W → Bool
  -- `is_finite() && fract() == 0.0`
  pub is_whole : W → Bool
  -- `i64 as f64` and `f64 as i64`
  pub of_int : ℤ → W
  pub to_int : W → ℤ
  -- `str::parse::<f64>`
  pub parse : Text → Option W

-- A number is what is equal to itself: all but NaN.
abbrev pub IsNumber : {W : Type 0} ⦃f : Float W⦄ → W → Type 0
IsNumber ⦃f⦄ x = f.le x x ≡ true

-- IEEE 754: comparisons with NaN fail, `<=` is a total order on numbers, `<` is its strict part, and
-- `total_cmp` is a total order that agrees with `<=` on numbers. (It puts -0 before 0, which `<=` identifies.)
pub record IsFloat (W : Type 0) ⦃f : Float W⦄ : Type 0 where
  pub number_of_le : (x y : W) → f.le x y ≡ true → IsNumber x × IsNumber y
  pub le_trans : (x y z : W) → f.le x y ≡ true → f.le y z ≡ true → f.le x z ≡ true
  pub le_total : (x y : W) → IsNumber x → IsNumber y → (f.le x y ≡ true) ⊎ (f.le y x ≡ true)
  pub lt-le : (x y : W) → f.lt x y ≡ true → (f.le x y ≡ true) × (f.le y x ≡ false)
  pub lt_of_not_le : (x y : W) → IsNumber x → IsNumber y → f.le y x ≡ false → f.lt x y ≡ true
  pub total_total : (x y : W) → (f.total_le x y ≡ true) ⊎ (f.total_le y x ≡ true)
  pub total_trans :
      (x y z : W) → f.total_le x y ≡ true → f.total_le y z ≡ true → f.total_le x z ≡ true
  pub le_of_total : (x y : W) → IsNumber x → IsNumber y → f.total_le x y ≡ true → f.le x y ≡ true
  pub infinity_greatest : (x : W) → IsNumber x → f.le x f.infinity ≡ true
  pub neg_infinity_least : (x : W) → IsNumber x → f.le f.neg_infinity x ≡ true
  pub of_int_number : (i : ℤ) → IsNumber (f.of_int i)
  pub nought_number : IsNumber f.nought
