-- ===== src/Bitmap/Sets.antt =====
-- Bitmaps as sets: what is empty, and what a filter of the members leaves.
use stats_cruncher.Base.{
  ℕ, zero, suc, ◌+◌, ◌≤◌, ◌<◌, ◌≡◌, refl, sym, ◌∙◌, ap, ap₂, inl, inr, Bool, true, false, ◌&&◌,
  List, [], ◌∷◌, arith, ◌==◌, leb, ltb, length, elem, filter, range, Bool-cases, ==_iff,
}
use stats_cruncher.Bitmap.{Bitmap, IsBitmap, Rising}

pub elem-filter : (p : ℕ → Bool) (xs : List ℕ) (r : ℕ) → elem r (filter p xs) ≡ (elem r xs && p r)
elem-filter p [] r = refl
elem-filter p (x ∷ xs) r = elim (Bool-cases (x == r)) [
  | inl same ↦ rw ((==_iff x r).0 same) (ground (arith, elem-filter p xs r))
  | inr apart ↦ ground (arith, elem-filter p xs r)
]

pub elem-range : (s n r : ℕ) → elem r (range s n) ≡ (leb s r && ltb r (s + n))
elem-range s zero r = ground arith
elem-range s (suc n) r = ground (arith, elem-range (suc s) n r)

pub range-Rising : (s n b : ℕ) → b ≤ s → Rising b (range s n)
range-Rising s zero b h = tt
range-Rising s (suc n) b h = (h, range-Rising (suc s) n (suc s) (omega arith))

Rising-weaken : (xs : List ℕ) (a b : ℕ) → a ≤ b → Rising b xs → Rising a xs
Rising-weaken [] a b h r = tt
Rising-weaken (x ∷ xs) a b h r = (omega arith, r.1)

pub filter-Rising : (p : ℕ → Bool) (xs : List ℕ) (b : ℕ) → Rising b xs → Rising b (filter p xs)
filter-Rising p [] b r = tt
filter-Rising p (x ∷ xs) b r =
    let rest = filter-Rising p xs (suc x) r.1 in
    elim (Bool-cases (p x)) [
      | inl kept ↦ rw kept (r.0, rest)
      | inr dropped ↦ rw dropped (Rising-weaken (filter p xs) b (suc x) (omega (arith, r.0)) rest)
    ]

elem-below : (xs : List ℕ) (b r : ℕ) → Rising b xs → r < b → elem r xs ≡ false
elem-below [] b r h l = refl
elem-below (x ∷ xs) b r h l = ground (arith, h.0, elem-below xs (suc x) r h.1)

-- Rising lists with the same members are the same list.
pub Rising-ext :
    (xs ys : List ℕ) (a b : ℕ)
    → Rising a xs
    → Rising b ys
    → ((r : ℕ) → elem r xs ≡ elem r ys)
    → xs ≡ ys
Rising-ext [] [] a b p q h = refl
Rising-ext [] (y ∷ ys) a b p q h = ground (arith, h y)
Rising-ext (x ∷ xs) [] a b p q h = ground (arith, h x)
Rising-ext (x ∷ xs) (y ∷ ys) a b p q h =
    let same : x ≡ y =
      ground (arith, h x, h y, elem-below xs (suc x) y p.1, elem-below ys (suc y) x q.1) in
    ap₂ (λ z zs. z ∷ zs) same
      (Rising-ext xs ys (suc x) (suc y) p.1 q.1
        (λ r. ground (arith, same, h r, elem-below xs (suc x) r p.1, elem-below ys (suc y) r q.1)))

module _ {B : Type 0} ⦃m : Bitmap B⦄ (laws : IsBitmap B) where
  pub contains-is_empty : (b : B) → m.is_empty b ≡ true → (r : ℕ) → m.contains b r ≡ false
  contains-is_empty b h r =
      laws.contains-iter b r
      ∙ none_of (m.iter b) (ground (arith, laws.is_empty-len b, laws.len-iter b))
    where
      none_of : (xs : List ℕ) → length xs ≡ 0 → elem r xs ≡ false
      none_of [] e = refl
      none_of (x ∷ xs) e = absurd (omega arith)

  -- A bitmap of the rows of a range that pass a test yields them in order.
  pub iter-eq-filter :
      (b : B) (p : ℕ → Bool) (s n : ℕ)
      → ((r : ℕ) → m.contains b r ≡ ((leb s r && ltb r (s + n)) && p r))
      → m.iter b ≡ filter p (range s n)
  iter-eq-filter b p s n h =
      Rising-ext (m.iter b) (filter p (range s n)) 0 s (laws.iter-Rising b)
        (filter-Rising p (range s n) s (range-Rising s n s (omega arith)))
        (λ r.
          sym (laws.contains-iter b r)
          ∙ h r
          ∙ sym (elem-filter p (range s n) r ∙ ap (λ t. t && p r) (elem-range s n r)))
