-- ===== src/Text.antt =====
-- `String` and `&str` of the source: the code points of a text. Their lexicographic order is the
-- order of the UTF-8 bytes, by which Rust compares strings. `trim` and `is_whitespace` are Rust's.
use Prim.Native.Char.{code}
use Prim.Native.String.{String}
use stats_cruncher.Base.{
  ℕ, ◌≡◌, refl, ◌↔◌, subst, Bool, true, false, ◌&&◌, ◌||◌, List, [], ◌∷◌, arith, ltb, leb, ◌==◌,
  if◌then◌else◌,
}

abbrev pub Text : Type 0
Text = List ℕ

-- A literal.
abbrev pub text : String → Text
text String.[] = []
text (String.◌∷◌ c s) = code c ∷ text s

unfoldable pub beq : Text → Text → Bool
beq [] [] = true
beq [] (b ∷ t) = false
beq (a ∷ s) [] = false
beq (a ∷ s) (b ∷ t) = a == b && beq s t

unfoldable pub ltb_text : Text → Text → Bool
ltb_text s [] = false
ltb_text [] (b ∷ t) = true
ltb_text (a ∷ s) (b ∷ t) = ltb a b || (a == b && ltb_text s t)

eq_of_beq : (s t : Text) → beq s t ≡ true → s ≡ t
unfolding beq
eq_of_beq [] [] h = refl
eq_of_beq [] (b ∷ t) h = ground arith
eq_of_beq (a ∷ s) [] h = ground arith
eq_of_beq (a ∷ s) (b ∷ t) h = ground (arith, eq_of_beq s t)

beq_refl : (s : Text) → beq s s ≡ true
unfolding beq
beq_refl [] = refl
beq_refl (a ∷ s) = ground (arith, beq_refl s)

pub beq_iff : (s t : Text) → (beq s t ≡ true) ↔ (s ≡ t)
beq_iff s t = (eq_of_beq s t, λ e. subst (λ u. beq s u ≡ true) e (beq_refl s))

-- `char::is_whitespace`
unfoldable pub is_whitespace : ℕ → Bool
is_whitespace c =
    (leb 9 c && leb c 13)
    || c == 32
    || c == 0x85
    || c == 0xa0
    || c == 0x1680
    || (leb 0x2000 c && leb c 0x200a)
    || c == 0x2028
    || c == 0x2029
    || c == 0x202f
    || c == 0x205f
    || c == 0x3000

unfoldable pub trim_start : Text → Text
trim_start [] = []
trim_start (c ∷ s) = if is_whitespace c then trim_start s else c ∷ s

-- The last character that is no whitespace ends the text.
unfoldable pub trim_end : Text → Text
trim_end [] = []
trim_end (c ∷ s) =
    let rest = trim_end s in
    elim rest [ [] ↦ if is_whitespace c then [] else c ∷ [] | d ∷ r ↦ c ∷ d ∷ r ]

unfoldable pub trim : Text → Text
unfolding trim_start trim_end is_whitespace
trim s = trim_end (trim_start s)

unfoldable pub is_empty : Text → Bool
is_empty [] = true
is_empty (c ∷ s) = false

-- `char::is_ascii_digit`
abbrev pub is_digit : ℕ → Bool
is_digit c = leb b'0' c && leb c b'9'

trims : trim (text " a b\n") ≡ text "a b"
unfolding trim
trims = refl
