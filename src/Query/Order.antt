-- ===== src/Query/Order.antt =====
-- The least value of a list under a strict order in which some values (NaN) compare with nothing.
use stats_cruncher.Base.{
  ◌≡◌, refl, sym, ◌⊎◌, inl, inr, Bool, true, false, List, [], ◌∷◌, ◌∙◌, ap, arith, Bool-cases, ◌++◌,
  if◌then◌else◌,
}

pub record IsStrictOrder {W : Type 0} (lt : W → W → Bool) (top : W) : Type 0 where
  pub lt_trans : (x y z : W) → lt x y ≡ true → lt y z ≡ true → lt x z ≡ true
  -- What lies below something compares with every number, and `top` is one.
  pub lt_split : (x y z w : W) → lt x z ≡ true → lt y w ≡ true → (lt x y ≡ true) ⊎ (lt y z ≡ true)
  pub lt_split_top : (x z : W) → lt x z ≡ true → lt x top ≡ true
  pub not_top-lt : (z : W) → lt top z ≡ false

module _ {W : Type 0} (lt : W → W → Bool) where
  abbrev pub pick : W → W → W
  pick a b = if lt b a then b else a

  unfoldable pub pick_all : W → List W → W
  pick_all m [] = m
  pick_all m (x ∷ xs) = pick_all (pick m x) xs

  pick_all_append_from :
      (m : W) (xs ys : List W) → pick_all m (xs ++ ys) ≡ pick_all (pick_all m xs) ys
  unfolding pick_all
  pick_all_append_from m [] ys = refl
  pick_all_append_from m (x ∷ xs) ys = pick_all_append_from (pick m x) xs ys

  module _ (top : W) (o : IsStrictOrder lt top) where
    open o use {lt_trans, lt_split, lt_split_top, not_top-lt}

    pick-top : (a : W) → pick a top ≡ a
    pick-top a = ground (arith, not_top-lt a)

    -- A value below `top`, or `top` itself, may be picked first.
    pick_assoc_lt : (a b c : W) → lt b top ≡ true → pick (pick a b) c ≡ pick a (pick b c)
    pick_assoc_lt a b c h = ground (arith, lt_trans c b a, lt_split c b a top)

    pick_assoc_top : (a c : W) → pick (pick a top) c ≡ pick a (pick top c)
    pick_assoc_top a c = ground (arith, not_top-lt a, lt_split_top c a)

    -- Picking on from `m` is picking from `top`, and then against `m`.
    pub pick_all_lem : (m : W) (xs : List W) → pick_all m xs ≡ pick m (pick_all top xs)
    unfolding pick_all
    pick_all_lem m [] = sym (pick-top m)
    pick_all_lem m (x ∷ xs) = elim (Bool-cases (lt x top)) [
      | inl below ↦ rw below (
          pick_all_lem (pick m x) xs
          ∙ pick_assoc_lt m x (pick_all top xs) below
          ∙ ap (pick m) (sym (pick_all_lem x xs)))
      | inr stray ↦ rw (stray, above stray) (pick_all_lem m xs)
    ]
      where
        above : lt x top ≡ false → lt x m ≡ false
        above stray = ground (arith, lt_split_top x m)

    pub pick_all-append :
        (xs ys : List W) → pick_all top (xs ++ ys) ≡ pick (pick_all top xs) (pick_all top ys)
    pick_all-append xs ys = pick_all_append_from top xs ys ∙ pick_all_lem (pick_all top xs) ys
