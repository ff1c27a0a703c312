-- ===== src/Storage/Rebuilt.antt =====
-- `apply_perm` of storage.rs on a string column: the dictionary that is built for the new order.
use stats_cruncher.Base.{
  ℕ, zero, suc, ◌+◌, ◌%◌, ◌^◌, ◌≤◌, ◌<◌, ◌≡◌, refl, sym, ◌∙◌, ap, subst, inl, inr, Bool, false,
  ◌&&◌, ◌||◌, some, List, [], ◌∷◌, arith, ◌==◌, length, length-map, replicate, range, get_elem?,
  All, ok, ◌>>=◌,
}
use stats_cruncher.Text.{Text}
use stats_cruncher.Map.{get, text_key}
use stats_cruncher.Float.{Float}
use stats_cruncher.Bitmap.{Bitmap, IsBitmap}
use stats_cruncher.Storage.Dictionary
use stats_cruncher.Storage.Dictionary.{
  StringDictionary, IsDictionary, Interned, intern_lem, value_of, cardinality, posted,
}
use stats_cruncher.Storage.Column.{StringColumn, Column, new_string}
use stats_cruncher.Storage.Lookup.{index_ok}
use stats_cruncher.Storage.Sort.{fill_codes, no_code, rebuild, rebuild_row, apply_perm}
use stats_cruncher.Storage.Table.{Cell, IsString, is_str, test_at, HoldsValues}
use stats_cruncher.Storage.Permuted.{IsPermutation, at_or, pick, test_at-pick, All-pick}
use stats_cruncher.Storage.RowCodes.{HasCode, fill_codes-HasCode}

module _ {B W : Type 0} ⦃m : Bitmap B⦄ (laws : IsBitmap B) (d : StringDictionary B)
    (cells : List (Cell W)) where
  -- The string is in the cell that the permutation has at the place, counted from `new_row` on.
  abbrev found : Text → List ℕ → ℕ → ℕ → Bool
  found s [] new_row r = false
  found s (old_row ∷ perm) new_row r =
      (new_row == r && test_at (is_str s) cells old_row) || found s perm (new_row + 1) r

  -- What one turn, or several, make of the column so far.
  record Built (sc : StringColumn B) (turns : ℕ) (hit : Text → ℕ → Bool) (sc' : StringColumn B)
      : Type 0 where
    dictionary : IsDictionary sc'.dictionary
    grows : cardinality sc'.dictionary ≤ cardinality sc.dictionary + turns
    posts : (s : Text) (r : ℕ) → posted sc'.dictionary s r ≡ (posted sc.dictionary s r || hit s r)

  rebuild_row-Built :
      (sc : StringColumn B) (code old_row new_row : ℕ)
      → HasCode d cells old_row code
      → IsDictionary sc.dictionary
      → cardinality sc.dictionary ≤ new_row
      → new_row < 2 ^ 32
      → (sc' : StringColumn B) × (rebuild_row d code new_row sc ≡ ok sc')
        × Built sc 1 (λ s r. new_row == r && test_at (is_str s) cells old_row) sc'
  unfolding rebuild_row
  rebuild_row-Built sc code old_row new_row (inl (is_none, no_string)) w c b = (
    sc,
    rw is_none refl,
    record { dictionary = w; grows = omega arith; posts = λ s r. ground (arith, no_string s) },
  )
  rebuild_row-Built sc code old_row new_row (inr (v, real, at, string)) w c b =
      let (d', code', done, i) =
        intern_lem laws sc.dictionary v (new_row % 2 ^ 32) w (omega (arith, c, b)) in
      let same_row : new_row % 2 ^ 32 ≡ new_row = omega (arith, b) in
      (
        record { dictionary = d'; count = sc.count + 1 },
        rw (rebuild_row, real, at)
            (ap (λ r. r >>= λ (d, c). ok (record { dictionary = d; count = sc.count + 1 })) done),
        record {
          dictionary = i.dictionary;
          grows = omega (arith, i.grows);
          posts = λ s r. ground (arith, i.posts s r, string s, same_row);
        },
      )

  rebuild_cons :
      (row_to_code : List ℕ) (old_row code : ℕ) (perm : List ℕ) (new_row : ℕ)
      (sc sc1 sc2 : StringColumn B)
      → get_elem? row_to_code old_row ≡ some code
      → rebuild_row d code new_row sc ≡ ok sc1
      → rebuild d row_to_code perm (new_row + 1) sc1 ≡ ok sc2
      → rebuild d row_to_code (old_row ∷ perm) new_row sc ≡ ok sc2
  unfolding rebuild
  rebuild_cons row_to_code old_row code perm new_row sc sc1 sc2 at turn rest =
      ap
        (λ r. r >>= λ code.
          rebuild_row d code new_row sc >>= λ next. rebuild d row_to_code perm (new_row + 1) next)
        (index_ok row_to_code old_row code at)
      ∙ ap (λ r. r >>= λ next. rebuild d row_to_code perm (new_row + 1) next) turn
      ∙ rest

  rebuild-Built :
      (row_to_code : List ℕ) (perm : List ℕ) (new_row : ℕ) (sc : StringColumn B)
      → ((row : ℕ)
          → row < length cells
          → (code : ℕ) × (get_elem? row_to_code row ≡ some code) × HasCode d cells row code)
      → All (λ row. row < length cells) perm
      → IsDictionary sc.dictionary
      → cardinality sc.dictionary ≤ new_row
      → new_row + length perm < 2 ^ 32
      → (sc' : StringColumn B) × (rebuild d row_to_code perm new_row sc ≡ ok sc')
        × Built sc (length perm) (λ s r. found s perm new_row r) sc'
  unfolding rebuild
  rebuild-Built row_to_code [] new_row sc codes within w c b =
      (sc, refl, record { dictionary = w; grows = omega arith; posts = λ s r. ground arith })
  rebuild-Built row_to_code (old_row ∷ perm) new_row sc codes within w c b =
      let (code, at, has) = codes old_row within.0 in
      let (sc1, turn, one) = rebuild_row-Built sc code old_row new_row has w c (omega (arith, b)) in
      let (sc2, rest, more) =
        rebuild-Built row_to_code perm (new_row + 1) sc1 codes within.1 one.dictionary
          (omega (arith, one.grows, c)) (omega (arith, b)) in
      (
        sc2,
        rebuild_cons row_to_code old_row code perm new_row sc sc1 sc2 at turn rest,
        record {
          dictionary = more.dictionary;
          grows = omega (arith, more.grows, one.grows);
          posts = λ s r. ground (arith, more.posts s r, one.posts s r);
        },
      )

  found_before :
      (s : Text) (perm : List ℕ) (new_row r : ℕ) → r < new_row → found s perm new_row r ≡ false
  found_before s [] new_row r h = refl
  found_before s (old_row ∷ perm) new_row r h =
      ground (arith, h, found_before s perm (new_row + 1) r (omega (arith, h)))

  found-pick :
      (s : Text) (perm : List ℕ) (new_row j : ℕ)
      → All (λ row. row < length cells) perm
      → found s perm new_row (new_row + j) ≡ test_at (is_str s) (pick Cell.null perm cells) j
  found-pick s [] new_row j within = refl
  found-pick s (old_row ∷ perm) new_row zero within = ground (
    arith,
    found_before s perm (new_row + 1) (new_row + 0) (omega arith),
    test_at-pick (is_str s) (old_row ∷ perm) cells 0 old_row refl within.0,
  )
  found-pick s (old_row ∷ perm) new_row (suc j) within =
      let moved : new_row + suc j ≡ new_row + 1 + j = omega arith in
      let apart : (new_row == new_row + 1 + j) ≡ false = ground arith in
      rw (moved, apart) (found-pick s perm (new_row + 1) j within.1)

new_string-posted :
    (B : Type 0) ⦃m : Bitmap B⦄ (s : Text) (r : ℕ)
    → posted (new_string {B = B}).dictionary s r ≡ false
unfolding posted new_string Dictionary.new get
new_string-posted B s r = refl

new_string-IsDictionary : (B : Type 0) → IsDictionary (new_string {B = B}).dictionary
unfolding new_string Dictionary.new get
new_string-IsDictionary B = record {
  same_length = refl;
  value_of_code = λ v c e. cc;
  code_of_value = λ v c e. cc;
}

new_string-empty : (B : Type 0) → cardinality (new_string {B = B}).dictionary ≡ 0
unfolding new_string Dictionary.new cardinality
new_string-empty B = refl

module _ {B W : Type 0} ⦃m : Bitmap B⦄ (laws : IsBitmap B) (n : ℕ) (perm : List ℕ)
    (h : IsPermutation n perm) (small : n < 2 ^ 32) where
  apply_perm-ok :
      (sc new_sc : StringColumn B) (codes : List ℕ)
      → fill_codes sc.dictionary
          (range 0 (cardinality sc.dictionary % 2 ^ 32))
          (replicate (length perm) no_code)
        ≡ ok codes
      → rebuild sc.dictionary codes perm 0 new_string ≡ ok new_sc
      → apply_perm {W = W} perm (Column.string sc) ≡ ok (Column.string new_sc)
  unfolding apply_perm
  apply_perm-ok sc new_sc codes filled rebuilt =
      ap
        (λ r. r >>= λ codes.
          rebuild sc.dictionary codes perm 0 new_string >>= λ new_sc. ok (Column.string new_sc))
        filled
      ∙ ap (λ r. r >>= λ new_sc. ok (Column.string new_sc)) rebuilt

  -- A string column that is put in the new order holds the strings of the cells in that order.
  pub apply_perm-string :
      ⦃f : Float W⦄ (sc : StringColumn B) (cells : List (Cell W))
      → length cells ≡ n
      → HoldsValues {B = B} (Column.string sc) cells
      → (new_sc : StringColumn B) × (apply_perm {W = W} perm (Column.string sc)
          ≡ ok (Column.string new_sc))
        × HoldsValues {B = B} (Column.string new_sc) (pick Cell.null perm cells)
  apply_perm-string sc cells l (w, bound, posts, strings) =
      let same : length perm ≡ length cells = omega (arith, l, h.same_length) in
      let within = subst (λ k. All (λ row. row < k) perm) (sym l) h.within in
      let (codes, filled, has) =
        fill_codes-HasCode laws sc.dictionary cells w bound posts (omega (arith, l, small)) in
      let (new_sc, rebuilt, built) =
        rebuild-Built laws sc.dictionary cells codes perm 0 new_string has within
          (new_string-IsDictionary B) (omega (arith, new_string-empty B))
          (omega (arith, same, l, small)) in
      (
        new_sc,
        apply_perm-ok sc new_sc codes
            (subst
              (λ k.
                fill_codes sc.dictionary (range 0 (cardinality sc.dictionary % 2 ^ 32))
                  (replicate k no_code)
                ≡ ok codes)
              (sym same) filled)
            rebuilt,
        (
          built.dictionary,
          omega (arith, built.grows, new_string-empty B, length-map (at_or Cell.null cells) perm),
          λ s r.
              built.posts s r
              ∙ ap (λ b. b || found laws sc.dictionary cells s perm 0 r) (new_string-posted B s r)
              ∙ ap (found laws sc.dictionary cells s perm 0) (none_on r)
              ∙ found-pick laws sc.dictionary cells s perm 0 r within,
          All-pick IsString Cell.null perm cells tt strings,
        ),
      )
    where
      none_on : (r : ℕ) → r ≡ 0 + r
      none_on r = omega arith
