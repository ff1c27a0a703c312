-- ===== src/Bitmap/Sample.antt =====
-- A bitmap for the examples: the characteristic vector of a finite set, which satisfies the laws.
use stats_cruncher.Base.{
  ℕ, zero, suc, ◌+◌, ◌-◌, ◌≡◌, refl, ◌∙◌, Bool, true, false, not, ◌&&◌, ◌||◌, List, [], ◌∷◌, arith,
  ◌==◌, leb, ltb, if◌then◌else◌, length, elem,
}
use stats_cruncher.Bitmap.{Bitmap, IsBitmap, Rising}

abbrev pub Bits : Type 0
Bits = List Bool

abbrev bit : Bits → ℕ → Bool
bit [] r = false
bit (x ∷ b) zero = x
bit (x ∷ b) (suc r) = bit b r

abbrev put : ℕ → Bits → Bits
put zero [] = true ∷ []
put zero (x ∷ b) = true ∷ b
put (suc i) [] = false ∷ put i []
put (suc i) (x ∷ b) = x ∷ put i b

abbrev put_all : List ℕ → Bits → Bits
put_all [] b = b
put_all (x ∷ xs) b = put x (put_all xs b)

abbrev span : ℕ → ℕ → List ℕ
span s zero = []
span s (suc n) = s ∷ span (suc s) n

abbrev join : Bits → Bits → Bits
join [] c = c
join (x ∷ b) [] = x ∷ b
join (x ∷ b) (y ∷ c) = (x || y) ∷ join b c

abbrev meet : Bits → Bits → Bits
meet [] c = []
meet (x ∷ b) [] = []
meet (x ∷ b) (y ∷ c) = (x && y) ∷ meet b c

abbrev minus : Bits → Bits → Bits
minus [] c = []
minus (x ∷ b) [] = x ∷ b
minus (x ∷ b) (y ∷ c) = (x && not y) ∷ minus b c

abbrev members : ℕ → Bits → List ℕ
members s [] = []
members s (x ∷ b) = let rest = members (suc s) b in if x then s ∷ rest else rest

instance abbrev pub bits : Bitmap Bits
bits = record {
  new = [];
  insert = put;
  insert_range = λ s e b. put_all (span s (e - s)) b;
  union = join;
  inter = meet;
  diff = minus;
  contains = bit;
  is_empty = λ b. length (members 0 b) == 0;
  len = λ b. length (members 0 b);
  iter = members 0;
  collect = λ xs. put_all xs [];
}

bit-put : (x r : ℕ) (b : Bits) → bit (put x b) r ≡ (x == r || bit b r)
bit-put zero zero [] = ground arith
bit-put zero (suc r) [] = ground arith
bit-put zero zero (x ∷ b) = ground arith
bit-put zero (suc r) (x ∷ b) = ground arith
bit-put (suc i) zero [] = ground arith
bit-put (suc i) (suc r) [] = ground (arith, bit-put i r [])
bit-put (suc i) zero (x ∷ b) = ground arith
bit-put (suc i) (suc r) (x ∷ b) = ground (arith, bit-put i r b)

bit-put_all : (xs : List ℕ) (r : ℕ) (b : Bits) → bit (put_all xs b) r ≡ (elem r xs || bit b r)
bit-put_all [] r b = refl
bit-put_all (x ∷ xs) r b = ground (arith, bit-put x r (put_all xs b), bit-put_all xs r b)

elem-span : (s n r : ℕ) → elem r (span s n) ≡ (leb s r && ltb r (s + n))
elem-span s zero r = ground arith
elem-span s (suc n) r = ground (arith, elem-span (suc s) n r)

bit-span :
    (s e r : ℕ) (b : Bits) → bit (put_all (span s (e - s)) b) r ≡ ((leb s r && ltb r e) || bit b r)
bit-span s e r b = ground (arith, bit-put_all (span s (e - s)) r b, elem-span s (e - s) r)

bit-join : (b c : Bits) (r : ℕ) → bit (join b c) r ≡ (bit b r || bit c r)
bit-join [] c r = refl
bit-join (x ∷ b) [] r = ground arith
bit-join (x ∷ b) (y ∷ c) zero = refl
bit-join (x ∷ b) (y ∷ c) (suc r) = bit-join b c r

bit-meet : (b c : Bits) (r : ℕ) → bit (meet b c) r ≡ (bit b r && bit c r)
bit-meet [] c r = refl
bit-meet (x ∷ b) [] r = ground arith
bit-meet (x ∷ b) (y ∷ c) zero = refl
bit-meet (x ∷ b) (y ∷ c) (suc r) = bit-meet b c r

bit-minus : (b c : Bits) (r : ℕ) → bit (minus b c) r ≡ (bit b r && not (bit c r))
bit-minus [] c r = refl
bit-minus (x ∷ b) [] r = ground arith
bit-minus (x ∷ b) (y ∷ c) zero = refl
bit-minus (x ∷ b) (y ∷ c) (suc r) = bit-minus b c r

members-Rising : (s : ℕ) (b : Bits) → Rising s (members s b)
members-Rising s [] = tt
members-Rising s (true ∷ b) = (omega arith, members-Rising (suc s) b)
members-Rising s (false ∷ b) = Rising-down (members (suc s) b) s (members-Rising (suc s) b)
  where
    Rising-down : (xs : List ℕ) (s : ℕ) → Rising (suc s) xs → Rising s xs
    Rising-down [] s h = tt
    Rising-down (x ∷ xs) s h = (omega (arith, h.0), h.1)

members-above : (s r : ℕ) (b : Bits) → ltb r s ≡ true → elem r (members s b) ≡ false
members-above s r [] h = refl
members-above s r (true ∷ b) h = ground (arith, members-above (suc s) r b)
members-above s r (false ∷ b) h = ground (arith, members-above (suc s) r b)

elem-members : (s r : ℕ) (b : Bits) → elem (s + r) (members s b) ≡ bit b r
elem-members s r [] = refl
elem-members s zero (true ∷ b) = ground arith
elem-members s zero (false ∷ b) = ground (arith, members-above (suc s) (s + 0) b)
elem-members s (suc r) (true ∷ b) = ground (arith, elem-members (suc s) r b)
elem-members s (suc r) (false ∷ b) = ground (arith, elem-members (suc s) r b)

bit-members : (b : Bits) (r : ℕ) → bit b r ≡ elem r (members 0 b)
bit-members b r = ground (arith, elem-members 0 r b)

bit-or_false : (x : Bool) → (x || false) ≡ x
bit-or_false true = refl
bit-or_false false = refl

pub bits-IsBitmap : IsBitmap Bits
bits-IsBitmap = record {
  contains-new = λ r. refl;
  contains-insert = bit-put;
  contains-insert_range = bit-span;
  contains-union = bit-join;
  contains-inter = bit-meet;
  contains-diff = bit-minus;
  contains-collect = λ xs r. bit-put_all xs r [] ∙ bit-or_false (elem r xs);
  contains-iter = bit-members;
  iter-Rising = members-Rising 0;
  len-iter = λ b. refl;
  is_empty-len = λ b. refl;
}
