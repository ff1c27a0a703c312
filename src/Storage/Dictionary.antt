-- ===== src/Storage/Dictionary.antt =====
-- storage/dictionary.rs: a string column as codes and a bitmap of rows for each code.
use stats_cruncher.Base.{
  ℕ, suc, ◌%◌, ◌^◌, ◌≤◌, ◌<◌, ◌≡◌, ◌∙◌, inl, inr, Bool, false, ◌&&◌, ◌||◌, Option, none, some, List,
  [], ◌∷◌, ◌++◌, arith, ◌==◌, length, length-append, get_elem?, get_elem?-snoc, get_elem?-set,
  length-set, lt_of_get_elem?, get_elem?_total, set, AppResult, ok, panic, Option-cases,
}
use stats_cruncher.Text.{Text, beq, beq_iff}
use stats_cruncher.Map.{Map, get, insert, get-insert, text_key}
use stats_cruncher.Bitmap.{Bitmap, IsBitmap}

pub record StringDictionary (B : Type 0) : Type 0 where
  pub codes : Map Text ℕ
  pub values : List Text
  pub postings : List B

module _ {B : Type 0} where
  unfoldable pub new : StringDictionary B
  new = record { codes = []; values = []; postings = [] }

  unfoldable pub code_of : StringDictionary B → Text → Option ℕ
  code_of d value = get value d.codes

  unfoldable pub value_of : StringDictionary B → ℕ → Option Text
  value_of d code = get_elem? d.values code

  unfoldable pub postings_of : StringDictionary B → ℕ → Option B
  postings_of d code = get_elem? d.postings code

  unfoldable pub cardinality : StringDictionary B → ℕ
  cardinality d = length d.values

module _ {B : Type 0} ⦃m : Bitmap B⦄ where
  -- The dictionary and the code; an index out of range panics. `len() as u32` wraps.
  unfoldable pub intern : Text → ℕ → StringDictionary B → AppResult (StringDictionary B × ℕ)
  intern value row d = elim (get value d.codes) [
    | some code ↦ elim (get_elem? d.postings code) [
      | none ↦ panic
      | some b ↦ ok (record d { postings = set d.postings code (m.insert row b) }, code)
    ]
    | none ↦
        let code : ℕ = length d.values % 2 ^ 32 in
        ok (
          record {
            codes = insert value code d.codes;
            values = d.values ++ value ∷ [];
            postings = d.postings ++ m.insert row m.new ∷ [];
          },
          code,
        )
  ]

  -- The value is recorded for the row.
  unfoldable pub posted : StringDictionary B → Text → ℕ → Bool
  posted d value row = elim (get value d.codes) [
    | none ↦ false
    | some code ↦ elim (get_elem? d.postings code) [ none ↦ false | some b ↦ m.contains b row ]
  ]

-- Codes and values are inverse to one another, and every code has its bitmap.
pub record IsDictionary {B : Type 0} (d : StringDictionary B) : Type 0 where
  pub same_length : length d.postings ≡ length d.values
  pub value_of_code : (v : Text) (c : ℕ) → get v d.codes ≡ some c → get_elem? d.values c ≡ some v
  pub code_of_value : (v : Text) (c : ℕ) → get_elem? d.values c ≡ some v → get v d.codes ≡ some c

module _ {B : Type 0} ⦃m : Bitmap B⦄ (laws : IsBitmap B) where
  -- What `intern` promises: the dictionary stays one, has at most one value more, the code is that of
  -- the value, no other code changes, and the row is added to the value's rows.
  pub record Interned (d : StringDictionary B) (v : Text) (row : ℕ) (d' : StringDictionary B)
      (code : ℕ) : Type 0 where
    pub dictionary : IsDictionary d'
    pub grows : cardinality d' ≤ suc (cardinality d)
    pub has_code : code_of d' v ≡ some code
    pub keeps_codes : (s : Text) (c : ℕ) → code_of d s ≡ some c → code_of d' s ≡ some c
    pub posts : (s : Text) (r : ℕ) → posted d' s r ≡ (posted d s r || (beq v s && row == r))

  abbrev extended : StringDictionary B → Text → ℕ → StringDictionary B
  extended d v row = record {
    codes = insert v (length d.values % 2 ^ 32) d.codes;
    values = d.values ++ v ∷ [];
    postings = d.postings ++ m.insert row m.new ∷ [];
  }

  abbrev recorded : StringDictionary B → ℕ → B → StringDictionary B
  recorded d code b = record d { postings = set d.postings code b }

  module _ (d : StringDictionary B) (v : Text) (row : ℕ) (w : IsDictionary d) where
    extended-IsDictionary :
        get v d.codes ≡ none → length d.values < 2 ^ 32 → IsDictionary (extended d v row)
    extended-IsDictionary e h = record {
      same_length = omega (
        arith,
        w.same_length,
        length-append d.postings (m.insert row m.new ∷ []),
        length-append d.values (v ∷ []),
      );
      value_of_code = λ s c p. ground (
        arith,
        get-insert v s (length d.values % 2 ^ 32) d.codes,
        beq_iff v s,
        get_elem?-snoc d.values v c,
        w.value_of_code s c,
        lt_of_get_elem? d.values c {x = s},
      );
      code_of_value = λ s c p. ground (
        arith,
        get-insert v s (length d.values % 2 ^ 32) d.codes,
        beq_iff v s,
        get_elem?-snoc d.values v c,
        w.code_of_value s c,
      );
    }

    extended-posts :
        get v d.codes ≡ none
        → length d.values < 2 ^ 32
        → (s : Text) (r : ℕ)
        → posted (extended d v row) s r ≡ (posted d s r || (beq v s && row == r))
    unfolding posted
    extended-posts e h s r = elim (Option-cases (get s d.codes)) [
      | inl q ↦ ground (
        arith,
        get-insert v s (length d.values % 2 ^ 32) d.codes,
        beq_iff v s,
        w.same_length,
        get_elem?-snoc d.postings (m.insert row m.new) (length d.values % 2 ^ 32),
        laws.contains-insert row r m.new,
        laws.contains-new r,
      )
      | inr (c, q) ↦ ground (
        arith,
        get-insert v s (length d.values % 2 ^ 32) d.codes,
        beq_iff v s,
        w.same_length,
        w.value_of_code s c q,
        lt_of_get_elem? d.values c {x = s},
        get_elem?-snoc d.postings (m.insert row m.new) c,
      )
    ]

    recorded-IsDictionary : (c : ℕ) (b : B) → IsDictionary (recorded d c b)
    recorded-IsDictionary c b = record {
      same_length = length-set d.postings c b ∙ w.same_length;
      value_of_code = w.value_of_code;
      code_of_value = w.code_of_value;
    }

    recorded-posts :
        (c : ℕ) (b : B)
        → get v d.codes ≡ some c
        → get_elem? d.postings c ≡ some b
        → (s : Text) (r : ℕ)
        → posted (recorded d c (m.insert row b)) s r ≡ (posted d s r || (beq v s && row == r))
    unfolding posted
    recorded-posts c b e p s r = elim (Option-cases (get s d.codes)) [
      | inl q ↦ ground (arith, beq_iff v s)
      | inr (k, q) ↦ ground (
        arith,
        beq_iff v s,
        get_elem?-set d.postings c k (m.insert row b),
        lt_of_get_elem? d.postings c p,
        laws.contains-insert row r b,
        w.value_of_code s k q,
        w.value_of_code v c e,
      )
    ]

  -- With fewer than 2 ^ 32 values `intern` succeeds, with what `Interned` says.
  pub intern_lem :
      (d : StringDictionary B) (v : Text) (row : ℕ)
      → IsDictionary d
      → cardinality d < 2 ^ 32
      → (d' : StringDictionary B) × (code : ℕ) × (intern v row d ≡ ok (d', code))
        × Interned d v row d' code
  unfolding intern cardinality code_of
  intern_lem d v row w h = elim (Option-cases (get v d.codes)) [
    | inl e ↦ (
      extended d v row,
      length d.values % 2 ^ 32,
      rw (e, intern),
      record {
        dictionary = extended-IsDictionary d v row w e h;
        grows = omega (arith, length-append d.values (v ∷ []));
        has_code = ground (arith, get-insert v v (length d.values % 2 ^ 32) d.codes, beq_iff v v);
        keeps_codes =
            λ s c p. ground (arith, get-insert v s (length d.values % 2 ^ 32) d.codes, beq_iff v s);
        posts = extended-posts d v row w e h;
      },
    )
    | inr (c, e) ↦
        let (b, p) =
          get_elem?_total d.postings c
            (omega (arith, w.same_length, lt_of_get_elem? d.values c (w.value_of_code v c e))) in
        (
          recorded d c (m.insert row b),
          c,
          ground arith,
          record {
            dictionary = recorded-IsDictionary d v row w c (m.insert row b);
            grows = omega arith;
            has_code = e;
            keeps_codes = λ s k q. q;
            posts = recorded-posts d v row w c b e p;
          },
        )
  ]
