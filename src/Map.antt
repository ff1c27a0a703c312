-- ===== src/Map.antt =====
-- `BTreeMap` and `HashMap` of the standard library: entries in the order of their keys, each key once.
-- The program never iterates over a `HashMap`.
use stats_cruncher.Base.{
  ℕ, ◌≡◌, refl, ◌↔◌, Bool, true, Option, none, some, List, [], ◌∷◌, arith, ltb, ◌==◌, ==_iff,
  if◌then◌else◌,
}
use stats_cruncher.Text.{Text, beq, ltb_text, beq_iff}

pub record Key {ℓ} (K : Type ℓ) : Type ℓ where
  pub eq : K → K → Bool
  pub lt : K → K → Bool
  pub eq_iff : (j k : K) → (eq j k ≡ true) ↔ (j ≡ k)

instance abbrev pub text_key : Key Text
text_key = record { eq = beq; lt = ltb_text; eq_iff = beq_iff }

instance abbrev pub number_key : Key ℕ
number_key = record { eq = ◌==◌; lt = ltb; eq_iff = ==_iff }

abbrev pub Map {ℓ κ} : Type ℓ → Type κ → Type (ℓ ⊔ κ)
Map K V = List (K × V)

module _ {ℓ κ} {K : Type ℓ} {V : Type κ} ⦃o : Key K⦄ where
  unfoldable pub get : K → Map K V → Option V
  get k [] = none
  get k ((j, v) ∷ m) = if o.eq j k then some v else get k m

  unfoldable pub insert : K → V → Map K V → Map K V
  insert k v [] = (k, v) ∷ []
  insert k v ((j, w) ∷ m) =
      if o.eq j k
      then (k, v) ∷ m
      else if o.lt k j
      then (k, v) ∷ (j, w) ∷ m
      else (j, w) ∷ insert k v m

  unfoldable pub remove : K → Map K V → Map K V
  remove k [] = []
  remove k ((j, v) ∷ m) = let rest = remove k m in if o.eq j k then rest else (j, v) ∷ rest

  pub get-insert :
      (k j : K) (v : V) (m : Map K V)
      → get j (insert k v m) ≡ (if o.eq k j then some v else get j m)
  unfolding get insert
  get-insert k j v [] = refl
  get-insert k j v ((i, w) ∷ m) =
      ground (arith, o.eq_iff k j, o.eq_iff i k, o.eq_iff i j, get-insert k j v m)

  pub get-remove :
      (k j : K) (m : Map K V) → get j (remove k m) ≡ (if o.eq k j then none else get j m)
  unfolding get remove
  get-remove k j [] = ground arith
  get-remove k j ((i, w) ∷ m) =
      ground (arith, o.eq_iff k j, o.eq_iff i k, o.eq_iff i j, get-remove k j m)

pub eq_refl {ℓ} : {K : Type ℓ} ⦃o : Key K⦄ (k : K) → o.eq k k ≡ true
eq_refl ⦃o⦄ k = (o.eq_iff k k).1 refl

pub ruleset map_laws = (get-insert, get-remove, eq_refl)
