-- ===== src/Ingestion/Fields.antt =====
-- ingestion/csv.rs and ingestion/sqlite.rs: which values of a record or of a row are taken, by name and in order.
use stats_cruncher.Base.{
  ℕ, ◌<◌, ◌≡◌, refl, sym, Bool, true, inl, inr, Option, none, some, List, [], ◌∷◌, get_elem?,
  if◌then◌else◌, All, AppResult, ok, err, AppError, ◌>>=◌, >>=-eq-ok, ok-injective, Bool-cases,
  Option-cases, ltb, ltb→lt, suc, no_err,
}
use mathlib.Core.Option.{some-injective}
use stats_cruncher.Text.{Text, beq}
use stats_cruncher.Storage.Coerce.{RawValue}
use stats_cruncher.Storage.Table.{has_name}
use stats_cruncher.Ingestion.{
  ValueRef, header_position, map_headers, row_buf, map_value, map_values, resolve_delimiter,
}

-- The cell of a record under the first header with the name.
pub field : Text → List Text → List Text → Option Text
field name [] cells = none
field name (h ∷ headers) [] = none
field name (h ∷ headers) (c ∷ cells) = if beq h name then some c else field name headers cells

-- The cells of a record under the named headers, as values, or an error where there is none.
unfoldable pub record_values :
    {W : Type 0} → List Text → List Text → List Text → AppResult (List (RawValue W))
unfolding field
record_values headers [] cells = ok []
record_values headers (name ∷ names) cells = do
  cell ← elim (field name headers cells) [ none ↦ err AppError.ingestion | some c ↦ ok c ]
  rest ← record_values headers names cells
  ok (RawValue.str cell ∷ rest)

-- A comma, or the ASCII character that is configured.
abbrev pub IsSeparator : Option ℕ → ℕ → Type 0
IsSeparator none separator = separator ≡ 44
IsSeparator (some c) separator = (c < 128) × (separator ≡ c)

pub resolve_delimiter-IsSeparator :
    (delimiter : Option ℕ) (separator : ℕ)
    → resolve_delimiter delimiter ≡ ok separator
    → IsSeparator delimiter separator
unfolding resolve_delimiter
resolve_delimiter-IsSeparator none separator h = sym (ok-injective _ _ h)
resolve_delimiter-IsSeparator (some c) separator h = elim (Bool-cases (ltb c 128)) [
  | inl ascii ↦ (ltb→lt _ _ ascii, sym (ok-injective _ _ (rw ascii at h)))
  | inr other ↦ absurd (no_err _ (rw other at h))
]

header_position-field :
    (name : Text) (headers cells : List Text) (i : ℕ)
    → header_position name headers ≡ some i
    → (get_elem? cells i ≡ field name headers cells) × (has_name name headers ≡ true)
unfolding header_position field
header_position-field name [] cells i e = cc
header_position-field name (h ∷ headers) cells i e = elim (Bool-cases (beq h name)) [
  | inl same ↦ (at_first cells i (sym (some-injective _ _ (rw same at e))) same, rw same refl)
  | inr other ↦ elim (Option-cases (header_position name headers)) [
    | inl gone ↦ absurd (nowhere (rw (other, gone) at e))
    | inr (j, found) ↦
        let later = sym (some-injective _ _ (rw (other, found) at e)) in
        (
          at_later cells i j later other
              (λ rest. (header_position-field name headers rest j found).0),
          rw other (header_position-field name headers [] j found).1,
        )
  ]
]
  where
    nowhere : {i : ℕ} → none ≡ some i → ⊥
    nowhere e = cc

    at_first :
        (cells : List Text) (i : ℕ)
        → i ≡ 0
        → beq h name ≡ true
        → get_elem? cells i ≡ field name (h ∷ headers) cells
    at_first [] i z same = refl
    at_first (c ∷ cells) i z same = rw (z, same) refl

    at_later :
        (cells : List Text) (i j : ℕ)
        → i ≡ suc j
        → beq h name ≡ Bool.false
        → ((rest : List Text) → get_elem? rest j ≡ field name headers rest)
        → get_elem? cells i ≡ field name (h ∷ headers) cells
    at_later [] i j z other there = refl
    at_later (c ∷ cells) i j z other there = rw (z, other) (there cells)

-- Headers that are found: there is one for every name, and the indices lead to the cells under them.
pub map_headers-record_values :
    {W : Type 0} (headers names cells : List Text) (indices : List ℕ)
    → map_headers (ok headers) names ≡ ok indices
    → (row_buf {W = W} cells indices ≡ record_values headers names cells)
      × All (λ name. has_name name headers ≡ true) names
unfolding map_headers row_buf record_values
map_headers-record_values headers [] cells indices e = (rw (← ok-injective _ _ e) refl, tt)
map_headers-record_values {W = W} headers (name ∷ names) cells indices e =
    elim (Option-cases (header_position name headers)) [
      | inl gone ↦ absurd (no_err _ (rw gone at e))
      | inr (i, found) ↦
          let (rest, p, q) = >>=-eq-ok (map_headers (ok headers) names) _ (rw found at e) in
          let (here, there) = header_position-field name headers cells i found in
          let (later, all) = map_headers-record_values {W = W} headers names cells rest p in
          (rw (← ok-injective _ _ q, row_buf, here, later) refl, (there, all))
    ]

-- What a value of SQLite is taken as.
abbrev pub IsValue : {W : Type 0} → ValueRef W → RawValue W → Type 0
IsValue ValueRef.null r = r ≡ RawValue.null
IsValue (ValueRef.integer i) r = r ≡ RawValue.integer i
IsValue (ValueRef.real x) r = r ≡ RawValue.float x
IsValue (ValueRef.string (some t)) r = r ≡ RawValue.str t
IsValue (ValueRef.string none) r = ⊥
IsValue ValueRef.blob r = ⊥

-- Lists of the same length, related position by position.
abbrev pub Pointwise : {A B : Type 0} → (A → B → Type 0) → List A → List B → Type 0
Pointwise R [] [] = Unit {0}
Pointwise R (x ∷ xs) (y ∷ ys) = R x y × Pointwise R xs ys
Pointwise R _ _ = ⊥

map_value-IsValue :
    {W : Type 0} (v : ValueRef W) (r : RawValue W) → map_value v ≡ ok r → IsValue v r
unfolding map_value
map_value-IsValue ValueRef.null r e = sym (ok-injective _ _ e)
map_value-IsValue (ValueRef.integer i) r e = sym (ok-injective _ _ e)
map_value-IsValue (ValueRef.real x) r e = sym (ok-injective _ _ e)
map_value-IsValue (ValueRef.string (some t)) r e = sym (ok-injective _ _ e)
map_value-IsValue (ValueRef.string none) r e = cc
map_value-IsValue ValueRef.blob r e = cc

pub map_values-IsValue :
    {W : Type 0} (values : List (ValueRef W)) (raws : List (RawValue W))
    → map_values values ≡ ok raws
    → Pointwise IsValue values raws
unfolding map_values
map_values-IsValue [] [] e = tt
map_values-IsValue [] (r ∷ raws) e = cc
map_values-IsValue (v ∷ values) raws e =
    let (raw, p, q) = >>=-eq-ok (map_value v) _ e in
    let (rest, p', q') = >>=-eq-ok (map_values values) _ q in
    rw (← ok-injective _ _ q') (map_value-IsValue v raw p, map_values-IsValue values rest p')
