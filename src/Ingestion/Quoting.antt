-- ===== src/Ingestion/Quoting.antt =====
-- `quote_ident` of ingestion/sqlite.rs, against how SQLite reads a quoted name.
use stats_cruncher.Base.{
  ℕ, ◌≡◌, refl, sym, ◌∙◌, ap, inl, inr, Bool, false, Option, none, some, [], ◌∷◌, ◌++◌, ◌==◌,
  if◌then◌else◌, Bool-cases, ==_iff,
}
use stats_cruncher.Text.{Text}
use stats_cruncher.Ingestion.{escape_quotes, quote_ident}

abbrev with_char : ℕ → Option (Text × Text) → Option (Text × Text)
with_char c none = none
with_char c (some (name, rest)) = some (c ∷ name, rest)

-- What SQLite reads after the opening quotation mark: two marks stand for one, and one ends the name.
-- The name, and what follows it.
abbrev read_body : Text → Option (Text × Text)
read_body [] = none
read_body (c ∷ []) = if c == 34 then some ([], []) else none
read_body (c ∷ d ∷ cs) =
    let doubled = read_body cs in
    let plain = read_body (d ∷ cs) in
    if c == 34
    then (if d == 34 then with_char 34 doubled else some ([], d ∷ cs))
    else with_char c plain

abbrev pub read_ident : Text → Option (Text × Text)
read_ident [] = none
read_ident (c ∷ cs) = if c == 34 then read_body cs else none

abbrev pub starts_with_quote : Text → Bool
starts_with_quote [] = false
starts_with_quote (c ∷ cs) = c == 34

read_body-plain :
    (c : ℕ) (cs : Text) → (c == 34) ≡ false → read_body (c ∷ cs) ≡ with_char c (read_body cs)
read_body-plain c [] h = rw h refl
read_body-plain c (d ∷ cs) h = rw h refl

read_body-end :
    (rest : Text) → starts_with_quote rest ≡ false → read_body (34 ∷ rest) ≡ some ([], rest)
read_body-end [] h = refl
read_body-end (d ∷ rest) h = rw h refl

read_body-escape_quotes :
    (name rest : Text)
    → starts_with_quote rest ≡ false
    → read_body (escape_quotes name ++ 34 ∷ rest) ≡ some (name, rest)
unfolding escape_quotes
read_body-escape_quotes [] rest h = read_body-end rest h
read_body-escape_quotes (c ∷ name) rest h = elim (Bool-cases (c == 34)) [
  | inl mark ↦ rw mark (
      ap (with_char 34) (read_body-escape_quotes name rest h)
      ∙ ap (λ u. some (u ∷ name, rest)) (sym ((==_iff c 34).0 mark)))
  | inr plain ↦ rw plain (
      read_body-plain c (escape_quotes name ++ 34 ∷ rest) plain
      ∙ ap (with_char c) (read_body-escape_quotes name rest h))
]

-- A quoted name, with anything but a quotation mark after it, reads back as that name, and nothing of
-- what follows becomes part of it: no name can end its own quotation.
pub quote_ident-read_ident :
    (name rest : Text)
    → starts_with_quote rest ≡ false
    → read_ident (quote_ident name ++ rest) ≡ some (name, rest)
unfolding quote_ident
quote_ident-read_ident name rest h =
    ap read_body (append_assoc (escape_quotes name) rest) ∙ read_body-escape_quotes name rest h
  where
    append_assoc : (xs rest : Text) → ((xs ++ 34 ∷ []) ++ rest) ≡ (xs ++ 34 ∷ rest)
    append_assoc [] rest = refl
    append_assoc (x ∷ xs) rest = ap (λ u. x ∷ u) (append_assoc xs rest)
