-- ===== src/Storage/Places.antt =====
-- `sort_by` of storage.rs: the place that each row goes to.
use stats_cruncher.Base.{
  ℕ, zero, suc, ◌+◌, ◌%◌, ◌^◌, ◌≤◌, ◌<◌, ◌≡◌, refl, sym, ◌∙◌, ap, ap₂, inl, inr, true, false, ◌||◌,
  some, List, [], ◌∷◌, map, arith, ◌==◌, ==_iff, Bool-cases, length, replicate, set, length-set,
  elem, get_elem?, get_elem?-set, lt_of_get_elem?, All,
}
use stats_cruncher.Map.{text_key}
use stats_cruncher.Storage.Sort.{old_to_new}
use stats_cruncher.Storage.Sorted.{occurrences}
use stats_cruncher.Storage.Permuted.{IsPermutation, IsPermutation-place, at_or}

old_to_new-other :
    (perm : List ℕ) (new_idx : ℕ) (places : List ℕ) (row : ℕ)
    → occurrences row perm ≡ 0
    → get_elem? (old_to_new perm new_idx places) row ≡ get_elem? places row
unfolding old_to_new
old_to_new-other [] new_idx places row h = refl
old_to_new-other (r ∷ perm) new_idx places row h =
    old_to_new-other perm (new_idx + 1) (set places r (new_idx % 2 ^ 32)) row (ground (arith, h))
    ∙ ground (arith, h, get_elem?-set places r row (new_idx % 2 ^ 32))

occurrences_found :
    (perm : List ℕ) (j row : ℕ) → get_elem? perm j ≡ some row → 1 ≤ occurrences row perm
occurrences_found [] j row h = cc
occurrences_found (r ∷ perm) zero row h = ground (arith, h)
occurrences_found (r ∷ perm) (suc j) row h = omega (arith, occurrences_found perm j row h)

-- The row at a place of the permutation gets that place.
old_to_new-place :
    (perm : List ℕ) (new_idx : ℕ) (places : List ℕ) (j row : ℕ)
    → occurrences row perm ≡ 1
    → get_elem? perm j ≡ some row
    → row < length places
    → new_idx + j < 2 ^ 32
    → get_elem? (old_to_new perm new_idx places) row ≡ some (new_idx + j)
unfolding old_to_new
old_to_new-place [] new_idx places j row h at l b = cc
old_to_new-place (r ∷ perm) new_idx places zero row h at l b =
    old_to_new-other perm (new_idx + 1) (set places r (new_idx % 2 ^ 32)) row
      (ground (arith, at, h))
    ∙ ground (arith, at, l, b, get_elem?-set places r row (new_idx % 2 ^ 32))
old_to_new-place (r ∷ perm) new_idx places (suc j) row h at l b =
    old_to_new-place perm (new_idx + 1) (set places r (new_idx % 2 ^ 32)) j row
      (ground (arith, h, occurrences_found perm j row at)) at
      (omega (arith, l, length-set places r (new_idx % 2 ^ 32))) (omega (arith, b))
    ∙ ap some (omega arith)

pub length-old_to_new :
    (perm : List ℕ) (new_idx : ℕ) (places : List ℕ)
    → length (old_to_new perm new_idx places) ≡ length places
unfolding old_to_new
length-old_to_new [] new_idx places = refl
length-old_to_new (r ∷ perm) new_idx places =
    length-old_to_new perm (new_idx + 1) (set places r (new_idx % 2 ^ 32))
    ∙ length-set places r (new_idx % 2 ^ 32)

pub length-replicate : (n a : ℕ) → length (replicate n a) ≡ n
length-replicate zero a = refl
length-replicate (suc n) a = ap suc (length-replicate n a)

-- The places of the rows, as `sort_by` starts the loop.
abbrev pub places_of : ℕ → List ℕ → List ℕ
places_of n perm = old_to_new perm 0 (replicate n 0)

module _ (n : ℕ) (perm : List ℕ) (h : IsPermutation n perm) (small : n < 2 ^ 32) where
  pub length-places_of : length (places_of n perm) ≡ n
  length-places_of = length-old_to_new perm 0 (replicate n 0) ∙ length-replicate n 0

  places_of-place :
      (j row : ℕ) → get_elem? perm j ≡ some row → row < n → at_or 0 (places_of n perm) row ≡ j
  places_of-place j row at l =
      let found =
        old_to_new-place perm 0 (replicate n 0) j row (h.once row l) at
          (omega (arith, l, length-replicate n 0))
          (omega (arith, small, h.same_length, lt_of_get_elem? perm j at)) in
      rw (at_or, found) (omega arith)

  -- A row is moved to place `r` exactly when it is the one that the permutation has there.
  pub places_of_iff :
      (r row x : ℕ)
      → get_elem? perm r ≡ some row
      → row < n
      → x < n
      → (at_or 0 (places_of n perm) x == r) ≡ (x == row)
  places_of_iff r row x at l k = elim (Bool-cases (x == row)) [
    | inl same ↦
        let e : x ≡ row = (==_iff x row).0 same in
        rw same (
          (==_iff (at_or 0 (places_of n perm) x) r).1
            (ap (at_or 0 (places_of n perm)) e ∙ places_of-place r row at l))
    | inr other ↦ rw other (elim (Bool-cases (at_or 0 (places_of n perm) x == r)) [
      | inl hit ↦
          let (j, there) = IsPermutation-place n perm x h k in
          let same_place : j ≡ r =
            sym (places_of-place j x there k) ∙ (==_iff (at_or 0 (places_of n perm) x) r).0 hit in
          ground (arith, ap (get_elem? perm) same_place, there, at, other)
      | inr miss ↦ miss
    ])
  ]

  pub places_of-below : (x : ℕ) → x < n → at_or 0 (places_of n perm) x < n
  places_of-below x k =
      let (j, there) = IsPermutation-place n perm x h k in
      omega (arith, places_of-place j x there k, h.same_length, lt_of_get_elem? perm j there)

pub elem-map :
    (g : ℕ → ℕ) (xs : List ℕ) (r row : ℕ)
    → All (λ x. (g x == r) ≡ (x == row)) xs
    → elem r (map g xs) ≡ elem row xs
elem-map g [] r row h = refl
elem-map g (x ∷ xs) r row h = ap₂ (λ a b. a || b) h.0 (elem-map g xs r row h.1)

pub elem-map_none :
    (g : ℕ → ℕ) (xs : List ℕ) (r n : ℕ) → n ≤ r → All (λ x. g x < n) xs → elem r (map g xs) ≡ false
elem-map_none g [] r n l h = refl
elem-map_none g (x ∷ xs) r n l h = ground (arith, l, h.0, elem-map_none g xs r n l h.1)

pub All_of_elem : (P : ℕ → Type 0) (xs : List ℕ) → ((x : ℕ) → elem x xs ≡ true → P x) → All P xs
All_of_elem P [] h = tt
All_of_elem P (x ∷ xs) h =
    (h x (ground (arith, (==_iff x x).1 refl)), All_of_elem P xs (λ y e. h y (ground (arith, e))))
