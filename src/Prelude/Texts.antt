-- ===== src/Prelude/Texts.antt =====
-- Texts as lists of character codes: what the code does to them with the package strings.
use Prim.Native.Nat.{ℕ, ◌+◌}
use Prim.Native.String.{String, [] as empty, ◌∷◌ as cons}
use Prim.Native.Char.{code}
use mathlib.Core.Path.{◌≡◌, refl, ap, ◌∙◌}
use mathlib.Core.Logic.{◌↔◌}
use mathlib.Core.Bool.{Bool, true, false, not, ◌&&◌, ◌||◌}
use mathlib.Core.List.{List, [], ◌∷◌, ◌++◌}
use native.Mathlib.Omega.{arith}
use wstester.Prelude.Tests.{ltb, leb, ◌==◌, ==_iff, if◌then◌else◌}
use wstester.Prelude.Maps.{Eq}

abbrev pub Text : Type 0
Text = List ℕ

abbrev pub codes : String → Text
codes empty = []
codes (cons c s) = code c ∷ codes s

-- `strings.ToLower` on the ASCII letters.
abbrev pub lower_char : ℕ → ℕ
lower_char n = if leb 65 n && leb n 90 then n + 32 else n

abbrev pub to_lower : Text → Text
to_lower [] = []
to_lower (n ∷ text) = lower_char n ∷ to_lower text

abbrev pub text_eqb : Text → Text → Bool
text_eqb [] [] = true
text_eqb (a ∷ s) (b ∷ t) = (a == b) && text_eqb s t
text_eqb _ _ = false

abbrev pub text_lt : Text → Text → Bool
text_lt [] [] = false
text_lt [] (b ∷ t) = true
text_lt (a ∷ s) [] = false
text_lt (a ∷ s) (b ∷ t) = ltb a b || ((a == b) && text_lt s t)

pub text_eqb_iff : (s t : Text) → (text_eqb s t ≡ true) ↔ (s ≡ t)
text_eqb_iff [] [] = ground arith
text_eqb_iff [] (b ∷ t) = ground arith
text_eqb_iff (a ∷ s) [] = ground arith
text_eqb_iff (a ∷ s) (b ∷ t) = ground (arith, ==_iff a b, text_eqb_iff s t)

instance abbrev pub text_eq : Eq Text
text_eq = record { beq = text_eqb; beq_iff = text_eqb_iff }

-- `strings.Split(text, ":")[0]`
abbrev pub before_colon : Text → Text
before_colon [] = []
before_colon (n ∷ text) = let rest = before_colon text in if n == 58 then [] else n ∷ rest

-- `strings.Split` at one character: at least one part.
abbrev pub cons_head : ℕ → List Text → List Text
cons_head n [] = (n ∷ []) ∷ []
cons_head n (part ∷ parts) = (n ∷ part) ∷ parts

abbrev pub split : ℕ → Text → List Text
split sep [] = [] ∷ []
split sep (n ∷ text) = let rest = split sep text in if n == sep then [] ∷ rest else cons_head n rest

-- `strings.Join` with one character.
abbrev pub join : ℕ → List Text → Text
join sep [] = []
join sep (part ∷ []) = part
join sep (part ∷ other ∷ parts) = part ++ sep ∷ join sep (other ∷ parts)

-- `strings.HasPrefix`, and `bytes.Contains` or a regular expression that is a plain text.
abbrev pub has_prefix : Text → Text → Bool
has_prefix text [] = true
has_prefix [] (b ∷ prefix) = false
has_prefix (a ∷ text) (b ∷ prefix) = (a == b) && has_prefix text prefix

abbrev pub contains : Text → Text → Bool
contains [] part = has_prefix [] part
contains (n ∷ text) part = has_prefix (n ∷ text) part || contains text part

abbrev pub has_char : ℕ → Text → Bool
has_char sep [] = false
has_char sep (n ∷ text) = (n == sep) || has_char sep text

pub split-plain : (sep : ℕ) (part : Text) → has_char sep part ≡ false → split sep part ≡ part ∷ []
split-plain sep [] h = refl
split-plain sep (n ∷ part) h = ground (arith, split-plain sep part)

pub split-append :
    (sep : ℕ) (part rest : Text)
    → has_char sep part ≡ false
    → split sep (part ++ sep ∷ rest) ≡ part ∷ split sep rest
split-append sep [] rest h = ground arith
split-append sep (n ∷ part) rest h = ground (arith, split-append sep part rest)

abbrev pub no_chars : ℕ → List Text → Bool
no_chars sep [] = true
no_chars sep (part ∷ parts) = not (has_char sep part) && no_chars sep parts

-- What was joined is split again, where no part has the separator.
pub split-join :
    (sep : ℕ) (part : Text) (parts : List Text)
    → no_chars sep (part ∷ parts) ≡ true
    → split sep (join sep (part ∷ parts)) ≡ part ∷ parts
split-join sep part [] h = split-plain sep part (ground arith)
split-join sep part (other ∷ parts) h =
    split-append sep part (join sep (other ∷ parts)) (ground arith)
    ∙ ap (◌∷◌ part) (split-join sep other parts (ground arith))
