-- ===== src/Worker/Entries.antt =====
-- execution/worker.rs and execution/aggregator.rs: how many entries of a name the statistics of a partial result
-- have, and what merging them changes.
use stats_cruncher.Base.{
  ℕ, ◌+◌, ◌≤◌, ◌≡◌, refl, sym, ◌∙◌, ap, inl, inr, Bool, true, false, Option, none, some, List, [],
  ◌∷◌, arith, if◌then◌else◌, AppResult, ok, ◌>>=◌, >>=-eq-ok, ok-injective, Bool-cases,
}
use stats_cruncher.Text.{Text, beq, beq_iff}
use stats_cruncher.Map.{Map, insert, text_key}
use stats_cruncher.Float.{Float}
use stats_cruncher.Bitmap.{Bitmap}
use stats_cruncher.Query.{Response, NumericStats}
use stats_cruncher.Storage.Column.{Column}
use stats_cruncher.Storage.Store.{ColumnStore, column, is_hidden}
use stats_cruncher.Storage.Table.{has_name, Distinct}
use stats_cruncher.Worker.Aggregate.{
  add_counts, add_numeric, aggregate_column, aggregate_columns, aggregate, string_counts,
}
use stats_cruncher.Worker.Evaluate.{evaluate_filter}
use stats_cruncher.Worker.{Task, execute}

unfoldable pub entries : {V : Type 0} → Text → Map Text V → ℕ
entries name [] = 0
entries name ((n, v) ∷ m) = (if beq n name then 1 else 0) + entries name m

occurrences : Text → List Text → ℕ
occurrences name [] = 0
occurrences name (n ∷ names) = (if beq n name then 1 else 0) + occurrences name names

entries-insert :
    {V : Type 0} (name k : Text) (v : V) (m : Map Text V)
    → entries name (insert k v m) ≤ entries name m + (if beq k name then 1 else 0)
unfolding entries insert
entries-insert name k v [] = omega arith
entries-insert name k v ((j, w) ∷ m) =
    ground (arith, beq_iff j k, beq_iff j name, beq_iff k name, entries-insert name k v m)

occurrences_none :
    (name : Text) (names : List Text) → has_name name names ≡ false → occurrences name names ≡ 0
unfolding occurrences
occurrences_none name [] h = refl
occurrences_none name (n ∷ names) h = ground (arith, occurrences_none name names)

occurrences-Distinct :
    (name : Text) (names : List Text) → Distinct names → occurrences name names ≤ 1
unfolding occurrences
occurrences-Distinct name [] d = omega arith
occurrences-Distinct name (n ∷ names) d = elim (Bool-cases (beq n name)) [
  | inl same ↦
      let e : n ≡ name = (beq_iff n name).0 same in
      let none_left = occurrences_none name names (sym (ap (λ x. has_name x names) e) ∙ d.0) in
      ground (arith, same, none_left)
  | inr other ↦ let rest = occurrences-Distinct name names d.1 in ground (arith, other, rest)
]

module _ {B W : Type 0} ⦃m : Bitmap B⦄ ⦃f : Float W⦄ (matched : B) (st : ColumnStore B W)
    (counts : Bool) (name : Text) where
  -- A result with at most one more entry, if the column has the name.
  abbrev AtMostOneMore : Text → Response W → Response W → Type 0
  AtMostOneMore n p p' =
      entries name p'.numeric ≤ entries name p.numeric + (if beq n name then 1 else 0)

  numeric_more :
      (n : Text) (r : AppResult (NumericStats W)) (p p' : Response W)
      → (r >>= λ s. ok (add_numeric n s p)) ≡ ok p'
      → AtMostOneMore n p p'
  numeric_more n r p p' e =
      let (s, at, done) = >>=-eq-ok r _ e in
      let same = ap (λ x. entries name x.numeric) (ok-injective _ _ done) in
      omega (arith, same, entries-insert name n s p.numeric)

  same_more :
      (n : Text) (p q p' : Response W) → q.numeric ≡ p.numeric → ok q ≡ ok p' → AtMostOneMore n p p'
  same_more n p q p' same e =
      let here = ap (entries name) same in
      let there = ap (λ x. entries name x.numeric) (ok-injective _ _ e) in
      omega (arith, here, there)

  counts_numeric :
      (hidden : Bool) (n : Text) (c : Map Text ℕ) (p : Response W)
      → (if hidden then p else add_counts n c p).numeric ≡ p.numeric
  counts_numeric true n c p = refl
  counts_numeric false n [] p = refl
  counts_numeric false n (x ∷ c) p = refl

  aggregate_column_more :
      (n : Text) (c : Option (Column B W)) (p p' : Response W)
      → aggregate_column matched st counts n c p ≡ ok p'
      → AtMostOneMore n p p'
  unfolding aggregate_column
  aggregate_column_more n none p p' e = same_more n p p p' refl e
  aggregate_column_more n (some (Column.integer v)) p p' e = numeric_more n _ p p' e
  aggregate_column_more n (some (Column.float v)) p p' e = numeric_more n _ p p' e
  aggregate_column_more n (some (Column.date_time v)) p p' e = numeric_more n _ p p' e
  aggregate_column_more n (some (Column.string sc)) p p' e = elim (Bool-cases counts) [
    | inr off ↦ same_more n p p p' refl (rw off at e)
    | inl on ↦
        let (hidden, at, done) = >>=-eq-ok (is_hidden st n) _ (rw on at e) in
        same_more n p _ p' (counts_numeric hidden n (string_counts matched sc.dictionary) p) done
  ]

  aggregate_columns_more :
      (names : List Text) (p p' : Response W)
      → aggregate_columns matched st counts names p ≡ ok p'
      → entries name p'.numeric ≤ entries name p.numeric + occurrences name names
  unfolding aggregate_columns occurrences
  aggregate_columns_more [] p p' e =
      let same = ap (λ x. entries name x.numeric) (ok-injective _ _ e) in omega (arith, same)
  aggregate_columns_more (n ∷ names) p p' e =
      let (c, at, e1) = >>=-eq-ok (column st n) _ e in
      let (q, here, rest) = >>=-eq-ok (aggregate_column matched st counts n c p) _ e1 in
      omega (arith, aggregate_column_more n c p q here, aggregate_columns_more names q p' rest)

-- What a task yields has at most one entry of a name.
pub execute-entries :
    {B W : Type 0} ⦃m : Bitmap B⦄ ⦃f : Float W⦄ (t : Task W) (st : ColumnStore B W) (counts : Bool)
    (name : Text) (p : Response W)
    → Distinct st.names
    → execute t st counts ≡ ok p
    → entries name p.numeric ≤ 1
unfolding execute aggregate entries
execute-entries t st counts name p d e =
    let (b, at, rest) = >>=-eq-ok (evaluate_filter t.query st t.start t.end) _ e in
    omega (
      arith,
      aggregate_columns_more b st counts name st.names _ p rest,
      occurrences-Distinct name st.names d,
    )
