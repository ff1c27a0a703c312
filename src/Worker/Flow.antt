-- ===== src/Worker/Flow.antt =====
-- The flow of `evaluate_filter`: what its loops leave in the bitmap, and the union of postings.
use stats_cruncher.Base.{
  ℕ, zero, suc, ◌≡◌, refl, subst, sym, ◌∙◌, inl, inr, Bool, false, ◌&&◌, ◌||◌, fun_ext, none, some,
  List, [], ◌∷◌, arith, get_elem?, any, All, AppResult, ok, Bool-cases, Option-cases,
}
use stats_cruncher.Text.{Text}
use stats_cruncher.Map.{get, text_key}
use stats_cruncher.Float.{Float}
use stats_cruncher.Bitmap.{Bitmap, IsBitmap}
use stats_cruncher.Bitmap.Sets.{contains-is_empty}
use stats_cruncher.Storage.Dictionary.{StringDictionary, posted}
use stats_cruncher.Storage.Table.{Cell, Table, test_at, is_str}
use stats_cruncher.Worker.Evaluate.{Flow, unless_empty, and_then, union_postings, add_postings}
use stats_cruncher.Worker.Meaning.{cell_passes, is_one_of}

module _ {B : Type 0} ⦃m : Bitmap B⦄ where
  -- The flow carries the rows of `b` that pass, and a bitmap that is returned early is empty.
  abbrev pub Selects : B → (ℕ → Bool) → Flow B → Type 0
  Selects b p (Flow.next b') = (x : ℕ) → m.contains b' x ≡ (m.contains b x && p x)
  Selects b p (Flow.return b') =
      ((x : ℕ) → (m.contains b x && p x) ≡ false) × ((x : ℕ) → m.contains b' x ≡ false)

  abbrev pub Runs : B → (ℕ → Bool) → AppResult (Flow B) → Type 0
  Runs b p r = (flow : Flow B) × (r ≡ ok flow) × Selects b p flow

  pub Runs-and_then :
      (b : B) (p q : ℕ → Bool) (r : AppResult (Flow B)) (k : B → AppResult (Flow B))
      → Runs b p r
      → ((b' : B) → ((x : ℕ) → m.contains b' x ≡ (m.contains b x && p x)) → Runs b' q (k b'))
      → Runs b (λ x. p x && q x) (and_then r k)
  Runs-and_then b p q r k (Flow.return b', e, s) next =
      rw e (Flow.return b', refl, ((λ x. ground (arith, s.0 x)), s.1))
  Runs-and_then b p q r k (Flow.next b', e, s) next = rw e (go (k b') (next b' s))
    where
      go : (r' : AppResult (Flow B)) → Runs b' q r' → Runs b (λ x. p x && q x) r'
      go r' (Flow.next c, e', t) = (Flow.next c, e', λ x. ground (arith, s x, t x))
      go r' (Flow.return c, e', t) = (Flow.return c, e', ((λ x. ground (arith, s x, t.0 x)), t.1))

  module _ (laws : IsBitmap B) where
    pub Selects-unless_empty :
        (b b' : B) (p : ℕ → Bool)
        → ((x : ℕ) → m.contains b' x ≡ (m.contains b x && p x))
        → Selects b p (unless_empty b')
    Selects-unless_empty b b' p h = elim (Bool-cases (m.is_empty b')) [
      | inl e ↦ let empty = contains-is_empty laws b' e in rw e ((λ x. sym (h x) ∙ empty x), empty)
      | inr e ↦ rw e h
    ]

    contains-add_postings :
        (d : StringDictionary B) (v : Text) (u : B) (x : ℕ)
        → m.contains (add_postings d v u) x ≡ (m.contains u x || posted d v x)
    unfolding add_postings posted
    contains-add_postings d v u x = elim (Option-cases (get v d.codes)) [
      | inl e ↦ ground arith
      | inr (c, e) ↦ elim (Option-cases (get_elem? d.postings c)) [
        | inl q ↦ ground arith
        | inr (b, q) ↦ ground (arith, laws.contains-union u b x)
      ]
    ]

    contains-union_postings :
        (d : StringDictionary B) (values : List Text) (u : B) (x : ℕ)
        → m.contains (union_postings d values u) x
          ≡ (m.contains u x || any (λ v. posted d v x) values)
    unfolding union_postings
    contains-union_postings d [] u x = ground arith
    contains-union_postings d (v ∷ values) u x = ground (
      arith,
      contains-union_postings d values (add_postings d v u) x,
      contains-add_postings d v u x,
    )

module _ {W : Type 0} where
  -- A test that no cell of the column passes.
  pub test_at_never :
      (P : Cell W → Type 0) (t : Cell W → Bool) (cells : List (Cell W)) (x : ℕ)
      → All P cells
      → ((c : Cell W) → P c → t c ≡ false)
      → test_at t cells x ≡ false
  test_at_never P t [] x a h = refl
  test_at_never P t (c ∷ cells) zero a h = h c a.0
  test_at_never P t (c ∷ cells) (suc x) a h = test_at_never P t cells x a.1 h

  any-test_at :
      (values : List Text) (cells : List (Cell W)) (x : ℕ)
      → any (λ v. test_at (is_str v) cells x) values ≡ test_at (is_one_of values) cells x
  any-test_at [] cells x = ground arith
  any-test_at (v ∷ values) cells x = ground (arith, any-test_at values cells x)

module _ {B W : Type 0} ⦃m : Bitmap B⦄ ⦃f : Float W⦄ (laws : IsBitmap B) where
  -- The union of the postings of a string column holds the rows whose cell is one of the values.
  pub contains-column_union :
      (d : StringDictionary B) (values : List Text) (cells : List (Cell W)) (x : ℕ)
      → ((s : Text) (row : ℕ) → posted d s row ≡ test_at (is_str s) cells row)
      → m.contains (union_postings d values m.new) x ≡ test_at (is_one_of values) cells x
  contains-column_union d values cells x h =
      contains-union_postings laws d values m.new x
      ∙ rw (laws.contains-new x) (rw (fun_ext λ v. h v x) (any-test_at values cells x))

module _ {W : Type 0} where
  pub cell_passes-none :
      (p : Cell W → Bool) (table : Table W) (name : Text) (x : ℕ)
      → get name table ≡ none
      → cell_passes p table name x ≡ false
  cell_passes-none p table name x q = ground arith

  pub cell_passes-some :
      (p : Cell W → Bool) (table : Table W) (name : Text) (cells : List (Cell W)) (x : ℕ)
      → get name table ≡ some cells
      → test_at p cells x ≡ cell_passes p table name x
  cell_passes-some p table name cells x q = ground arith

pub Runs-congr :
    {B : Type 0} ⦃m : Bitmap B⦄ (b : B) (p q : ℕ → Bool) (r : AppResult (Flow B))
    → ((x : ℕ) → p x ≡ q x)
    → Runs b p r
    → Runs b q r
Runs-congr b p q r h = subst (λ t. Runs b t r) (fun_ext h)
