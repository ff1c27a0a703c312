-- ===== src/Storage/ZoneEnds.antt =====
-- `sort_by` of storage.rs: the zones of the chunks of keys that are in order.
use stats_cruncher.Base.{
  ℕ, zero, suc, ◌+◌, ◌-◌, ◌*◌, ◌≤◌, ◌<◌, ◌≡◌, refl, sym, ◌∙◌, ap, subst, inl, inr, true, Option,
  none, some, List, [], ◌∷◌, arith, get_elem?,
}
use mathlib.Core.Option.{some-injective}
use native.Mathlib.Nat.{suc-mul}
use stats_cruncher.Float.{Float, IsFloat}
use stats_cruncher.Storage.Sort.{zones_from, zones}

module _ {W : Type 0} ⦃f : Float W⦄ where
  abbrev pub IsAscendingFrom : W → List W → Type 0
  IsAscendingFrom b [] = Unit {0}
  IsAscendingFrom b (k ∷ keys) = (f.total_le b k ≡ true) × IsAscendingFrom k keys

  -- The keys are in the order of `total_cmp`.
  abbrev pub IsAscending : List W → Type 0
  IsAscending [] = Unit {0}
  IsAscending (k ∷ keys) = IsAscendingFrom k keys

  -- A zone with the key between its ends.
  abbrev pub IsInZone : W → Option (W × W) → Type 0
  IsInZone k none = ⊥
  IsInZone k (some (lo, hi)) = (f.total_le lo k ≡ true) × (f.total_le k hi ≡ true)

  -- The zone of the chunk that is being filled, which has `left` keys to come, and those after it.
  record Filled (size left : ℕ) (first last : W) (keys : List W) (found : List (W × W))
      : Type 0 where
    hi : W
    rest : List (W × W)
    is_head : found ≡ (first, hi) ∷ rest
    last_in : f.total_le last hi ≡ true
    keys_in : (j : ℕ) (k : W) → j < left → get_elem? keys j ≡ some k → IsInZone k (some (first, hi))
    later :
        (i j : ℕ) (k : W)
        → j < size
        → get_elem? keys (left + (i * size + j)) ≡ some k
        → IsInZone k (get_elem? rest i)

  module _ (laws : IsFloat W) where
    open laws use {total_total, total_trans}

    one_on : (a b : ℕ) → suc a + b ≡ suc (a + b)
    one_on a b = omega arith

    none_on : (a : ℕ) → 0 + a ≡ a
    none_on a = omega arith

    total_refl : (k : W) → f.total_le k k ≡ true
    total_refl k = elim (total_total k k) [ inl h ↦ h | inr h ↦ h ]

    -- A key of a chunk that starts with `x`, and of those after it.
    Filled-IsInZone :
        (size : ℕ) (x : W) (keys : List W) (found : List (W × W))
        → 1 ≤ size
        → Filled size (size - 1) x x keys found
        → (i j : ℕ) (k : W) → j < size
        → get_elem? (x ∷ keys) (i * size + j) ≡ some k
        → IsInZone k (get_elem? found i)
    Filled-IsInZone size x keys found c m zero zero k l e =
        let start : zero * size + zero ≡ zero = omega arith in
        let same : x ≡ k = some-injective _ _ (sym (ap (get_elem? (x ∷ keys)) start) ∙ e) in
        subst (λ z. IsInZone k (get_elem? z 0)) (sym m.is_head)
          (subst (λ y. IsInZone y (some (x, m.hi))) same (total_refl x, m.last_in))
    Filled-IsInZone size x keys found c m zero (suc j) k l e =
        let inside : zero * size + suc j ≡ suc j = omega arith in
        subst (λ z. IsInZone k (get_elem? z 0)) (sym m.is_head)
          (m.keys_in j k (omega (arith, l, c)) (sym (ap (get_elem? (x ∷ keys)) inside) ∙ e))
    Filled-IsInZone size x keys found c m (suc i) j k l e =
        let moved : suc i * size + j ≡ suc ((size - 1) + (i * size + j)) =
          omega (arith, suc-mul i size, c) in
        subst (λ z. IsInZone k (get_elem? z (suc i))) (sym m.is_head)
          (m.later i j k l (sym (ap (get_elem? (x ∷ keys)) moved) ∙ e))

    Filled-keys_in :
        (size left : ℕ) (first x : W) (keys : List W) (found : List (W × W))
        → f.total_le first x ≡ true
        → (m : Filled size left first x keys found) → (j : ℕ) (k : W) → j < suc left
        → get_elem? (x ∷ keys) j ≡ some k
        → IsInZone k (some (first, m.hi))
    Filled-keys_in size left first x keys found h m zero k l e =
        subst (λ y. IsInZone y (some (first, m.hi))) (some-injective _ _ e) (h, m.last_in)
    Filled-keys_in size left first x keys found h m (suc j) k l e =
        m.keys_in j k (omega (arith, l)) e

    zones_from-Filled :
        (size left : ℕ) (first last : W) (keys : List W)
        → 1 ≤ size
        → f.total_le first last ≡ true
        → IsAscendingFrom last keys
        → Filled size left first last keys (zones_from size left first last keys)
    unfolding zones_from
    zones_from-Filled size zero first last [] c h s = record {
      hi = last;
      rest = [];
      is_head = refl;
      last_in = total_refl last;
      keys_in = λ j k l e. cc;
      later = λ i j k l e. cc;
    }
    zones_from-Filled size (suc left) first last [] c h s = record {
      hi = last;
      rest = [];
      is_head = refl;
      last_in = total_refl last;
      keys_in = λ j k l e. cc;
      later = λ i j k l e. cc;
    }
    zones_from-Filled size (suc left) first last (x ∷ keys) c h s =
        let more =
          zones_from-Filled size left first x keys c (total_trans first last x h s.0) s.1 in
        record {
          hi = more.hi;
          rest = more.rest;
          is_head = more.is_head;
          last_in = total_trans last x more.hi s.0 more.last_in;
          keys_in =
              Filled-keys_in size left first x keys (zones_from size left first x keys)
                (total_trans first last x h s.0) more;
          later = λ i j k l e.
              more.later i j k l (sym (ap (get_elem? (x ∷ keys)) (one_on left (i * size + j))) ∙ e);
        }
    zones_from-Filled size zero first last (x ∷ keys) c h s =
        let more = zones_from-Filled size (size - 1) x x keys c (total_refl x) s.1 in
        record {
          hi = last;
          rest = zones_from size (size - 1) x x keys;
          is_head = refl;
          last_in = total_refl last;
          keys_in = λ j k l e. absurd (omega (arith, l));
          later = λ i j k l e.
              Filled-IsInZone size x keys (zones_from size (size - 1) x x keys) c more i j k l
                (sym (ap (get_elem? (x ∷ keys)) (none_on (i * size + j))) ∙ e);
        }

    -- For keys in order, the key at place `j` of chunk `i` lies between the ends of the zone of that
    -- chunk.
    pub zones-IsInZone :
        (size : ℕ) (keys : List W)
        → 1 ≤ size
        → IsAscending keys
        → (i j : ℕ) (k : W) → j < size
        → get_elem? keys (i * size + j) ≡ some k
        → IsInZone k (get_elem? (zones size keys) i)
    unfolding zones
    zones-IsInZone size [] c s i j k l e = cc
    zones-IsInZone size (x ∷ keys) c s i j k l e =
        Filled-IsInZone size x keys (zones_from size (size - 1) x x keys) c
          (zones_from-Filled size (size - 1) x x keys c (total_refl x) s) i j k l e
