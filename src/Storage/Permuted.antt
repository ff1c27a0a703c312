-- ===== src/Storage/Permuted.antt =====
-- `apply_perm` of storage.rs on the values of a numeric column, and the table whose rows are in the
-- order of a permutation.
use stats_cruncher.Base.{
  ℕ, zero, suc, ◌≤◌, ◌<◌, Bool, false, get_elem?-none, ◌≡◌, refl, sym, subst, ◌∙◌, ap, ap₂, inl,
  inr, none, some, List, [], ◌∷◌, map, arith, ◌==◌, ==_iff, Bool-cases, length, length-map,
  get_elem?, get_elem?_total, get_elem?-map, All, ok, ◌>>=◌,
}
use mathlib.Core.Option.{some-injective}
use stats_cruncher.Map.{get, text_key}
use stats_cruncher.Text.{Text, beq}
use stats_cruncher.Storage.Lookup.{index_ok}
use stats_cruncher.Storage.Sort.{permute}
use stats_cruncher.Storage.Sorted.{occurrences}
use stats_cruncher.Storage.Table.{Cell, Table, test_at}

-- The rows below `n`, each of them once.
pub record IsPermutation (n : ℕ) (perm : List ℕ) : Type 0 where
  pub same_length : length perm ≡ n
  pub within : All (λ row. row < n) perm
  pub once : (row : ℕ) → row < n → occurrences row perm ≡ 1

module _ {ℓ} {A : Type ℓ} where
  -- The element at an index, or `d` where there is none.
  abbrev pub at_or : A → List A → ℕ → A
  at_or d v i = elim (get_elem? v i) [ none ↦ d | some a ↦ a ]

  abbrev pub pick : A → List ℕ → List A → List A
  pick d perm v = map (at_or d v) perm

  pub at_or-some : (d : A) (v : List A) (i : ℕ) (a : A) → get_elem? v i ≡ some a → at_or d v i ≡ a
  at_or-some d v i a at = rw (at_or, at) refl

  pub permute_lem :
      (d : A) (v : List A) (perm : List ℕ)
      → All (λ i. i < length v) perm
      → permute v perm ≡ ok (pick d perm v)
  unfolding permute
  permute_lem d v [] h = refl
  permute_lem d v (i ∷ perm) h =
      let (a, at) = get_elem?_total v i h.0 in
      ap (λ r. r >>= λ a. permute v perm >>= λ rest. ok (a ∷ rest)) (index_ok v i a at)
      ∙ ap (λ r. r >>= λ rest. ok (a ∷ rest)) (permute_lem d v perm h.1)
      ∙ ap (λ x. ok (x ∷ pick d perm v)) (sym (at_or-some d v i a at))

  pub All-at_or : (P : A → Type 0) (d : A) (v : List A) (i : ℕ) → P d → All P v → P (at_or d v i)
  All-at_or P d [] i p h = p
  All-at_or P d (x ∷ v) zero p h = h.0
  All-at_or P d (x ∷ v) (suc i) p h = All-at_or P d v i p h.1

  pub All-get_elem? :
      (P : A → Type 0) (v : List A) (i : ℕ) (a : A) → get_elem? v i ≡ some a → All P v → P a
  All-get_elem? P [] i a e h = cc
  All-get_elem? P (x ∷ v) zero a e h = subst P (some-injective _ _ e) h.0
  All-get_elem? P (x ∷ v) (suc i) a e h = All-get_elem? P v i a e h.1

  pub All-pick :
      (P : A → Type 0) (d : A) (perm : List ℕ) (v : List A) → P d → All P v → All P (pick d perm v)
  All-pick P d [] v p h = tt
  All-pick P d (i ∷ perm) v p h = (All-at_or P d v i p h, All-pick P d perm v p h)

pub at_or-map :
    {A B : Type 0} (g : A → B) (d : A) (v : List A) (i : ℕ)
    → at_or (g d) (map g v) i ≡ g (at_or d v i)
at_or-map g d [] i = refl
at_or-map g d (x ∷ v) zero = refl
at_or-map g d (x ∷ v) (suc i) = at_or-map g d v i

pub pick-map :
    {A B : Type 0} (g : A → B) (d : A) (perm : List ℕ) (v : List A)
    → pick (g d) perm (map g v) ≡ map g (pick d perm v)
pick-map g d [] v = refl
pick-map g d (i ∷ perm) v = ap₂ ◌∷◌ (at_or-map g d v i) (pick-map g d perm v)

All-length : {n k : ℕ} (perm : List ℕ) → n ≡ k → All (λ i. i < n) perm → All (λ i. i < k) perm
All-length [] e h = tt
All-length (i ∷ perm) e h = (omega (arith, e, h.0), All-length perm e h.1)

-- A row that occurs stands somewhere.
place_of :
    (row : ℕ) (perm : List ℕ) → occurrences row perm ≡ 1 → (j : ℕ) × (get_elem? perm j ≡ some row)
place_of row [] h = absurd (omega (arith, h))
place_of row (r ∷ perm) h = elim (Bool-cases (r == row)) [
  | inl same ↦ (0, ap some ((==_iff r row).0 same))
  | inr other ↦ let (j, at) = place_of row perm (ground (arith, other, h)) in (suc j, at)
]

pub IsPermutation-place :
    (n : ℕ) (perm : List ℕ) (row : ℕ)
    → IsPermutation n perm
    → row < n
    → (j : ℕ) × (get_elem? perm j ≡ some row)
IsPermutation-place n perm row h l = place_of row perm (h.once row l)

module _ {W : Type 0} where
  -- The table with its rows in another order.
  abbrev pub permuted : List ℕ → Table W → Table W
  permuted perm [] = []
  permuted perm ((name, cells) ∷ table) = (name, pick Cell.null perm cells) ∷ permuted perm table

  pub get-permuted :
      (perm : List ℕ) (table : Table W) (name : Text) (cells : List (Cell W))
      → get name table ≡ some cells
      → get name (permuted perm table) ≡ some (pick Cell.null perm cells)
  unfolding get
  get-permuted perm [] name cells e = cc
  get-permuted perm ((n, cs) ∷ table) name cells e = elim (Bool-cases (beq n name)) [
    | inl hit ↦ ground (arith, hit, e)
    | inr miss ↦ rw miss (get-permuted perm table name cells (rw miss at e))
  ]

  -- A row of the new order is the row of the old order that the permutation has there.
  pub test_at-pick :
      (p : Cell W → Bool) (perm : List ℕ) (cells : List (Cell W)) (r row : ℕ)
      → get_elem? perm r ≡ some row
      → row < length cells
      → test_at p (pick Cell.null perm cells) r ≡ test_at p cells row
  test_at-pick p perm cells r row at l =
      let (c, there) = get_elem?_total cells row l in
      let moved = get_elem?-map (at_or Cell.null cells) perm r at in
      let same = at_or-some Cell.null cells row c there in rw (test_at, moved, there) (ap p same)

  pub test_at-pick_none :
      (p : Cell W → Bool) (perm : List ℕ) (cells : List (Cell W)) (r : ℕ)
      → length perm ≤ r
      → test_at p (pick Cell.null perm cells) r ≡ false
  test_at-pick_none p perm cells r l =
      let beyond =
        get_elem?-none (pick Cell.null perm cells) r
          (omega (arith, l, length-map (at_or Cell.null cells) perm)) in
      rw (test_at, beyond) refl
