-- ===== src/Storage/Codes.antt =====
-- `apply_perm` of storage.rs on a string column: the code of each row, from the bitmaps of the dictionary.
use stats_cruncher.Base.{
  ℕ, zero, suc, ◌+◌, ◌≤◌, ◌<◌, ◌≡◌, refl, sym, ◌∙◌, ap, subst, ◌⊎◌, inl, inr, true, false, some,
  List, [], ◌∷◌, arith, lt→ltb, Bool-cases, if◌then◌else◌, length, replicate, range, set,
  length-set, elem, get_elem?, get_elem?_total, get_elem?-set, All, ok, ◌>>=◌,
}
use mathlib.Core.Option.{some-injective}
use stats_cruncher.Map.{text_key}
use stats_cruncher.Bitmap.{Bitmap, IsBitmap}
use stats_cruncher.Storage.Dictionary.{StringDictionary, postings_of}
use stats_cruncher.Storage.Sort.{fill_rows, fill_codes}
use stats_cruncher.Storage.Places.{All_of_elem}

-- The rows of a bitmap get its code; the others keep theirs.
fill_rows_lem :
    (code : ℕ) (rows v : List ℕ)
    → All (λ row. row < length v) rows
    → (out : List ℕ) × (fill_rows code rows v ≡ ok out)
      × (length out ≡ length v)
      × ((row : ℕ)
          → row < length v
          → get_elem? out row ≡ (if elem row rows then some code else get_elem? v row))
unfolding fill_rows
fill_rows_lem code [] v h = (v, refl, refl, λ row l. refl)
fill_rows_lem code (r ∷ rows) v h =
    let same = length-set v r code in
    let (out, done, l, entries) =
      fill_rows_lem code rows (set v r code)
        (subst (λ n. All (λ row. row < n) rows) (sym same) h.1) in
    (
      out,
      rw (lt→ltb r (length v) h.0) done,
      l ∙ same,
      λ row below.
          entries row (omega (arith, same, below))
          ∙ ground (arith, below, get_elem?-set v r row code),
    )

module _ {B : Type 0} ⦃m : Bitmap B⦄ (laws : IsBitmap B) (d : StringDictionary B) (n : ℕ)
    (inside : (c : ℕ) (b : B)
      → get_elem? d.postings c ≡ some b
      → (row : ℕ) → m.contains b row ≡ true
      → row < n) where
  -- A row keeps its entry when none of the codes has it, and else gets a code that has it.
  abbrev Entry : ℕ → ℕ → List ℕ → List ℕ → ℕ → Type 0
  Entry start count v out row =
      ((get_elem? out row ≡ get_elem? v row)
        × ((c : ℕ) (b : B)
            → start ≤ c
            → c < start + count
            → get_elem? d.postings c ≡ some b
            → m.contains b row ≡ false))
      ⊎ ((c : ℕ) × (b : B) × (get_elem? out row ≡ some c)
          × (get_elem? d.postings c ≡ some b)
          × (m.contains b row ≡ true))

  Entry-step :
      (start count : ℕ) (v v' out : List ℕ) (row : ℕ) (b : B)
      → get_elem? d.postings start ≡ some b
      → get_elem? v' row ≡ (if m.contains b row then some start else get_elem? v row)
      → Entry (start + 1) count v' out row
      → Entry start (suc count) v out row
  Entry-step start count v v' out row b there changed (inr (c, b', at, has, hit)) =
      inr (c, b', at, has, hit)
  Entry-step start count v v' out row b there changed (inl (kept, others)) =
      elim (Bool-cases (m.contains b row)) [
        | inl hit ↦ inr (start, b, kept ∙ changed ∙ rw hit refl, there, hit)
        | inr miss ↦ inl (
          kept ∙ changed ∙ rw miss refl,
          λ c b' from below has. elim (order start c from) [
            | inl same ↦
                subst (λ x. m.contains x row ≡ false)
                  (some-injective _ _ (sym there ∙ ap (λ k. get_elem? d.postings k) same ∙ has))
                  miss
            | inr later ↦ others c b' later (omega (arith, below)) has
          ],
        )
      ]
    where
      order : (a c : ℕ) → a ≤ c → (a ≡ c) ⊎ (a + 1 ≤ c)
      order a c h = omega arith

  fill_codes_cons :
      (code : ℕ) (codes v v' out : List ℕ) (b : B)
      → get_elem? d.postings code ≡ some b
      → fill_rows code (m.iter b) v ≡ ok v'
      → fill_codes d codes v' ≡ ok out
      → fill_codes d (code ∷ codes) v ≡ ok out
  unfolding fill_codes postings_of
  fill_codes_cons code codes v v' out b there done rest =
      rw (fill_codes, there) (ap (λ r. r >>= fill_codes d codes) done ∙ rest)

  pub fill_codes_lem :
      (count start : ℕ) (v : List ℕ)
      → start + count ≤ length d.postings
      → length v ≡ n
      → (out : List ℕ) × (fill_codes d (range start count) v ≡ ok out)
        × ((row : ℕ) → row < n → Entry start count v out row)
  unfolding fill_codes postings_of
  fill_codes_lem zero start v h l =
      (v, refl, λ row below. inl (refl, λ c b from till has. absurd (omega (arith, from, till))))
  fill_codes_lem (suc count) start v h l =
      let (b, there) = get_elem?_total d.postings start (omega (arith, h)) in
      let (v', done, l', entries) = fill_rows_lem start (m.iter b) v (
        All_of_elem (λ row. row < length v) (m.iter b)
          (λ row e. omega (arith, l, inside start b there row (laws.contains-iter b row ∙ e)))) in
      let (out, rest, later) = fill_codes_lem count (suc start) v' (omega (arith, h)) (l' ∙ l) in
      (
        out,
        fill_codes_cons start (range (suc start) count) v v' out b there done rest,
        λ row below.
            Entry-step start count v v' out row b there
              (entries row (omega (arith, l, below))
                ∙ ap (λ t. if t then some start else get_elem? v row)
                    (sym (laws.contains-iter b row)))
              (subst (λ k. Entry k count v' out row) (one_on start) (later row below)),
      )
    where
      one_on : (a : ℕ) → suc a ≡ a + 1
      one_on a = omega arith

pub get_elem?-replicate : (n a row : ℕ) → row < n → get_elem? (replicate n a) row ≡ some a
get_elem?-replicate zero a row h = absurd (omega arith)
get_elem?-replicate (suc n) a zero h = refl
get_elem?-replicate (suc n) a (suc row) h = get_elem?-replicate n a row (omega arith)
