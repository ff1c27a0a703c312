-- ===== src/Storage/RowCodes.antt =====
-- `apply_perm` of storage.rs on a string column: the code of a row and the string in its cell.
use stats_cruncher.Base.{
  ℕ, zero, suc, ◌%◌, ◌^◌, ◌≤◌, ◌<◌, ◌≡◌, refl, sym, ◌∙◌, ap, ◌⊎◌, inl, inr, Bool, true, false, some,
  List, [], ◌∷◌, arith, ◌==◌, Option-cases, length, replicate, range, get_elem?, get_elem?_total,
  lt_of_get_elem?, ok,
}
use stats_cruncher.Text.{Text, beq, beq_iff}
use stats_cruncher.Map.{get, text_key}
use stats_cruncher.Bitmap.{Bitmap, IsBitmap}
use stats_cruncher.Storage.Dictionary.{
  StringDictionary, IsDictionary, value_of, cardinality, posted,
}
use stats_cruncher.Storage.Sort.{fill_codes, no_code}
use stats_cruncher.Storage.Table.{Cell, is_str, test_at}
use stats_cruncher.Storage.Places.{length-replicate}
use stats_cruncher.Storage.Codes.{fill_codes_lem, get_elem?-replicate}

-- What the code of a row says of its cell: no code when there is no string, else the code of the string.
abbrev pub HasCode : {B W : Type 0} → StringDictionary B → List (Cell W) → ℕ → ℕ → Type 0
HasCode d cells row code =
    ((code ≡ no_code) × ((s : Text) → test_at (is_str s) cells row ≡ false))
    ⊎ ((v : Text) × ((code == no_code) ≡ false)
        × (value_of d code ≡ some v)
        × ((s : Text) → test_at (is_str s) cells row ≡ beq v s))

is_str_same : {W : Type 0} (c : Cell W) (v s : Text) → is_str v c ≡ true → is_str s c ≡ beq v s
is_str_same Cell.null v s h = cc
is_str_same (Cell.integer i) v s h = cc
is_str_same (Cell.float x) v s h = cc
is_str_same (Cell.date_time t) v s h = cc
is_str_same (Cell.str t) v s h = ap (λ x. beq x s) ((beq_iff t v).0 h)

test_at_same :
    {W : Type 0} (cells : List (Cell W)) (row : ℕ) (v s : Text)
    → test_at (is_str v) cells row ≡ true
    → test_at (is_str s) cells row ≡ beq v s
test_at_same [] row v s h = cc
test_at_same (c ∷ cells) zero v s h = is_str_same c v s h
test_at_same (c ∷ cells) (suc row) v s h = test_at_same cells row v s h

test_at_below :
    {W : Type 0} (p : Cell W → Bool) (cells : List (Cell W)) (row : ℕ)
    → test_at p cells row ≡ true
    → row < length cells
test_at_below p [] row h = cc
test_at_below p (c ∷ cells) zero h = omega arith
test_at_below p (c ∷ cells) (suc row) h = omega (arith, test_at_below p cells row h)

module _ {B W : Type 0} ⦃m : Bitmap B⦄ (laws : IsBitmap B) (d : StringDictionary B)
    (cells : List (Cell W)) (w : IsDictionary d) (bound : cardinality d ≤ length cells)
    (posts : (s : Text) (row : ℕ) → posted d s row ≡ test_at (is_str s) cells row) where
  posted_at :
      (c : ℕ) (v : Text) (b : B) (row : ℕ)
      → get v d.codes ≡ some c
      → get_elem? d.postings c ≡ some b
      → posted d v row ≡ m.contains b row
  unfolding posted
  posted_at c v b row e there = rw (posted, e, there) refl

  posted_hit :
      (c : ℕ) (b : B) (row : ℕ)
      → get_elem? d.postings c ≡ some b
      → m.contains b row ≡ true
      → (v : Text) × (get_elem? d.values c ≡ some v) × (test_at (is_str v) cells row ≡ true)
  posted_hit c b row there hit =
      let (v, at) =
        get_elem?_total d.values c
          (omega (arith, w.same_length, lt_of_get_elem? d.postings c there)) in
      (v, at, sym (posts v row) ∙ posted_at c v b row (w.code_of_value v c at) there ∙ hit)

  posted_miss :
      (row : ℕ)
      → ((c : ℕ) (b : B)
          → c < length d.postings
          → get_elem? d.postings c ≡ some b
          → m.contains b row ≡ false)
      → (s : Text) → posted d s row ≡ false
  unfolding posted
  posted_miss row none_has s = elim (Option-cases (get s d.codes)) [
    | inl e ↦ rw (posted, e) refl
    | inr (c, e) ↦
        let below : c < length d.postings =
          omega (arith, w.same_length, lt_of_get_elem? d.values c (w.value_of_code s c e)) in
        let (b, there) = get_elem?_total d.postings c below in
        rw (posted, e, there) (none_has c b below there)
  ]

  -- Every row gets the code of its cell.
  pub fill_codes-HasCode :
      length cells < 2 ^ 32
      → (out : List ℕ) × (fill_codes d
            (range 0 (cardinality d % 2 ^ 32))
            (replicate (length cells) no_code)
          ≡ ok out)
        × ((row : ℕ)
            → row < length cells
            → (code : ℕ) × (get_elem? out row ≡ some code) × HasCode d cells row code)
  unfolding cardinality value_of
  fill_codes-HasCode small =
      let all_codes : cardinality d % 2 ^ 32 ≡ length d.postings =
        omega (arith, small, bound, w.same_length) in
      let (out, done, entries) =
        fill_codes_lem laws d (length cells)
          (λ c b there row hit.
            let (v, at, held) = posted_hit c b row there hit in
            test_at_below (is_str v) cells row held)
          (cardinality d % 2 ^ 32) 0 (replicate (length cells) no_code) (omega (arith, all_codes))
          (length-replicate (length cells) no_code) in
      (
        out,
        done,
        λ row below. elim (entries row below) [
          | inl (kept, others) ↦ (
            no_code,
            kept ∙ get_elem?-replicate (length cells) no_code row below,
            inl (
              refl,
              λ s.
                  sym (posts s row)
                  ∙ posted_miss row
                      (λ c b l there. others c b (omega arith) (omega (arith, l, all_codes)) there)
                      s,
            ),
          )
          | inr (c, b, at, there, hit) ↦
              let (v, at_v, held) = posted_hit c b row there hit in
              (
                c,
                at,
                inr (
                  v,
                  ground (arith, small, bound, lt_of_get_elem? d.values c at_v),
                  at_v,
                  λ s. test_at_same cells row v s held,
                ),
              )
        ],
      )
