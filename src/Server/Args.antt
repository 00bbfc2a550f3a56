-- ===== src/Server/Args.antt =====
-- models/common.go: Args, the topics of a request, which a client may give as one text.
use wstester.Prelude.{
  ℕ, ◌≡◌, refl, ap, ◌∙◌, Bool, true, false, not, ◌&&◌, ◌||◌, Option, none, some, List, [], ◌∷◌,
  ◌++◌, reverse, arith, ltb, ◌==◌, if◌then◌else◌, length, length-append, Text, has_char, no_chars,
  split, join, split-join,
}
use mathlib.Core.List.{reverse-append, reverse-cons, reverse-reverse}

-- `strings.Trim(text, "\"")`
abbrev pub trim_left : Text → Text
trim_left [] = []
trim_left (n ∷ text) = if n == 34 then trim_left text else n ∷ text

abbrev pub trim : Text → Text
trim text = reverse (trim_left (reverse (trim_left text)))

abbrev pub starts_with : ℕ → Text → Bool
starts_with n [] = false
starts_with n (c ∷ text) = c == n

-- `stringPattern`: a quote at each end, and no line break, which the point does not match.
abbrev pub string_pattern : Text → Bool
string_pattern input =
    ltb 1 (length input)
    && starts_with 34 input
    && starts_with 34 (reverse input)
    && not (has_char 10 input)

-- `UnmarshalJSON`: the arguments, and whether it returns no error. `parse` reads a JSON list of texts.
unfoldable pub unmarshal_json : (Text → Option (List Text)) → List Text → Text → List Text × Bool
unmarshal_json parse args input =
    elim (if string_pattern input then some (split 44 (trim input)) else parse input) [
      | none ↦ (args, false)
      | some parsed ↦ (parsed, true)
    ]

has_char-append : (c : ℕ) (s t : Text) → has_char c (s ++ t) ≡ (has_char c s || has_char c t)
has_char-append c [] t = refl
has_char-append c (n ∷ s) t = ground (arith, has_char-append c s t)

has_char-join :
    (c sep : ℕ) (parts : List Text)
    → (sep == c) ≡ false
    → no_chars c parts ≡ true
    → has_char c (join sep parts) ≡ false
has_char-join c sep [] d h = refl
has_char-join c sep (part ∷ []) d h = ground arith
has_char-join c sep (part ∷ other ∷ parts) d h = ground (
  arith,
  has_char-append c part (sep ∷ join sep (other ∷ parts)),
  has_char-join c sep (other ∷ parts),
)

has_char-reverse : (c : ℕ) (s : Text) → has_char c (reverse s) ≡ has_char c s
has_char-reverse c [] = refl
has_char-reverse c (n ∷ s) =
    ap (has_char c) (reverse-cons n s)
    ∙ ground (arith, has_char-append c (reverse s) (n ∷ []), has_char-reverse c s)

trim_left-plain : (s : Text) → has_char 34 s ≡ false → trim_left s ≡ s
trim_left-plain [] h = refl
trim_left-plain (n ∷ s) h = ground arith

trim-quoted : (s : Text) → has_char 34 s ≡ false → trim (34 ∷ s ++ 34 ∷ []) ≡ s
trim-quoted [] h = refl
trim-quoted (n ∷ s) h =
    let plain : trim_left ((n ∷ s) ++ 34 ∷ []) ≡ (n ∷ s) ++ 34 ∷ [] = ground arith in
    ap (λ t. reverse (trim_left (reverse t))) plain
    ∙ ap (λ t. reverse (trim_left t)) (reverse-append (n ∷ s) (34 ∷ []))
    ∙ ap reverse (trim_left-plain (reverse (n ∷ s)) (has_char-reverse 34 (n ∷ s) ∙ h))
    ∙ reverse-reverse (n ∷ s)

string_pattern-quoted :
    (s : Text) → has_char 10 s ≡ false → string_pattern (34 ∷ s ++ 34 ∷ []) ≡ true
string_pattern-quoted s h =
    let ends : starts_with 34 (reverse (34 ∷ s ++ 34 ∷ [])) ≡ true =
      ap (starts_with 34) (reverse-append (34 ∷ s) (34 ∷ [])) in
    ground (arith, has_char-append 10 s (34 ∷ []), length-append s (34 ∷ []), ends)

-- For any topics, at least one, without commas, quotes and line breaks in them: joined with commas and put
-- in quotes, they are read as these topics, whatever arguments there were before.
pub unmarshal_json-join :
    (parse : Text → Option (List Text)) (args : List Text) (part : Text) (parts : List Text)
    → no_chars 44 (part ∷ parts) ≡ true
    → no_chars 34 (part ∷ parts) ≡ true
    → no_chars 10 (part ∷ parts) ≡ true
    → unmarshal_json parse args (34 ∷ join 44 (part ∷ parts) ++ 34 ∷ []) ≡ (part ∷ parts, true)
unfolding unmarshal_json
unmarshal_json-join parse args part parts commas quotes lines =
    let text = join 44 (part ∷ parts) in
    let input = 34 ∷ text ++ 34 ∷ [] in
    let read : Option (List Text) → List Text × Bool =
      λ o. elim o [ none ↦ (args, false) | some parsed ↦ (parsed, true) ] in
    ap (λ b. read (if b then some (split 44 (trim input)) else parse input))
      (string_pattern-quoted text (has_char-join 10 44 (part ∷ parts) refl lines))
    ∙ ap (λ t. (split 44 t, true))
        (trim-quoted text (has_char-join 34 44 (part ∷ parts) refl quotes))
    ∙ ap (λ topics. (topics, true)) (split-join 44 part parts commas)
