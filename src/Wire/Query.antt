-- ===== src/Wire/Query.antt =====
-- net/url, as far as server/server.go uses it: the values that a raw query has for "subscribe".
use wstester.Prelude.{
  ℕ, ◌+◌, ◌-◌, ◌*◌, ◌≡◌, refl, ap, ◌∙◌, Bool, true, false, not, ◌&&◌, ◌||◌, Option, none, some,
  List, [], ◌∷◌, ◌++◌, map, arith, ◌==◌, ==_iff, leb, if◌then◌else◌, Text, codes, text_eqb, split,
  split-plain, join, has_char, no_chars,
}

abbrev pub before : ℕ → Text → Text
before sep [] = []
before sep (n ∷ text) = let rest = before sep text in if n == sep then [] else n ∷ rest

abbrev pub after : ℕ → Text → Text
after sep [] = []
after sep (n ∷ text) = let rest = after sep text in if n == sep then text else rest

-- A hexadecimal digit, and its value.
abbrev is_digit : ℕ → Bool
is_digit n = leb 48 n && leb n 57

abbrev is_capital : ℕ → Bool
is_capital n = leb 65 n && leb n 90

abbrev is_small : ℕ → Bool
is_small n = leb 97 n && leb n 122

abbrev is_hex : ℕ → Bool
is_hex n = is_digit n || (leb 65 n && leb n 70) || (leb 97 n && leb n 102)

abbrev hex : ℕ → ℕ
hex n = if is_digit n then n - 48 else if is_capital n then n - 55 else n - 87

-- Where `unescape` is: at no escape, after its percent sign, or after its first digit.
pub data At : Type 0 where
  plain percent : At
  digit : ℕ → At

abbrev cons : ℕ → Option Text → Option Text
cons n none = none
cons n (some text) = some (n ∷ text)

-- `unescape` of a query's component: `none` is an error.
abbrev unescape : At → Text → Option Text
unescape plain [] = some []
unescape percent [] = none
unescape (digit a) [] = none
unescape plain (n ∷ text) =
    let rest = unescape plain text in
    let escaped = unescape percent text in
    if n == 37 then escaped else if n == 43 then cons 32 rest else cons n rest
unescape percent (n ∷ text) = let rest = unescape (digit n) text in if is_hex n then rest else none
unescape (digit a) (n ∷ text) =
    let rest = unescape plain text in if is_hex n then cons (hex a * 16 + hex n) rest else none

abbrev kept : Option Text → Option Text → List Text → List Text
kept none value rest = rest
kept (some key) none rest = rest
kept (some key) (some value) rest = if text_eqb key (codes "subscribe") then value ∷ rest else rest

abbrev values : List Text → List Text
values [] = []
values (part ∷ parts) =
    let rest = values parts in
    kept (unescape plain (before 61 part)) (unescape plain (after 61 part)) rest

-- A query ends at a fragment, and its parts at an ampersand or a semicolon.
abbrev ampersand : ℕ → ℕ
ampersand n = if n == 59 then 38 else n

unfoldable pub query_values : Text → List Text
query_values raw = values (split 38 (map ampersand (before 35 raw)))

-- Letters and digits.
abbrev pub is_word : Text → Bool
is_word [] = true
is_word (n ∷ text) = (is_digit n || is_capital n || is_small n) && is_word text

abbrev pub is_mark : ℕ → Bool
is_mark n = not (is_digit n || is_capital n || is_small n)

pub word-plain :
    (sep : ℕ) (text : Text) → is_mark sep ≡ true → is_word text ≡ true → has_char sep text ≡ false
word-plain sep [] m h = refl
word-plain sep (n ∷ text) m h = ground (arith, ==_iff n sep, word-plain sep text m)

before-plain : (sep : ℕ) (text : Text) → has_char sep text ≡ false → before sep text ≡ text
before-plain sep [] h = refl
before-plain sep (n ∷ text) h = ground (arith, before-plain sep text)

ampersand-plain : (text : Text) → has_char 59 text ≡ false → map ampersand text ≡ text
ampersand-plain [] h = refl
ampersand-plain (n ∷ text) h = ground (arith, ampersand-plain text)

unescape-plain :
    (text : Text)
    → has_char 37 text ≡ false
    → has_char 43 text ≡ false
    → unescape plain text ≡ some text
unescape-plain [] h k = refl
unescape-plain (n ∷ text) h k = ground (arith, unescape-plain text)

pub has_char-append :
    (sep : ℕ) (s t : Text) → has_char sep (s ++ t) ≡ has_char sep s || has_char sep t
has_char-append sep [] t = refl
has_char-append sep (n ∷ s) t = ground (arith, has_char-append sep s t)

pub has_char-join :
    (sep : ℕ) (parts : List Text)
    → (44 == sep) ≡ false
    → no_chars sep parts ≡ true
    → has_char sep (join 44 parts) ≡ false
has_char-join sep [] m h = refl
has_char-join sep (part ∷ []) m h = ground arith
has_char-join sep (part ∷ other ∷ parts) m h = ground (
  arith,
  has_char-append sep part (44 ∷ join 44 (other ∷ parts)),
  has_char-join sep (other ∷ parts) m,
)

-- A value without a special character is read as it was written.
pub query_values-plain :
    (value : Text)
    → has_char 35 value ≡ false
    → has_char 37 value ≡ false
    → has_char 38 value ≡ false
    → has_char 43 value ≡ false
    → has_char 59 value ≡ false
    → query_values (codes "subscribe=" ++ value) ≡ value ∷ []
unfolding query_values
query_values-plain value hash percent_sign amp plus semi =
    let raw = codes "subscribe=" ++ value in
    ap (λ t. values (split 38 (map ampersand t))) (before-plain 35 raw hash)
    ∙ ap (λ t. values (split 38 t)) (ampersand-plain raw semi)
    ∙ ap values (split-plain 38 raw amp)
    ∙ ap (λ o. kept (some (codes "subscribe")) o []) (unescape-plain value percent_sign plus)
