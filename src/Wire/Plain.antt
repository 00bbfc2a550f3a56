-- ===== src/Wire/Plain.antt =====
-- client/client.go and server/server.go: the query that the client writes, read by the server.
use wstester.Prelude.{
  ℕ, ◌==◌, ◌≡◌, refl, ap, ◌∙◌, true, false, Option, none, some, List, [], ◌∷◌, ◌++◌, arith, Text,
  text_eq, split, join, has_char, no_chars, split-join,
}
use mathlib.Core.List.{append-nil}
use wstester.Client.{
  symbol_subs, public_topics, private_topics, find_name, Client, chosen, normalize_topic,
}
use wstester.Client.Connect.{queried}
use wstester.Server.{header_args}
use wstester.Wire.Query.{
  query_values, is_word, is_mark, word-plain, has_char-append, has_char-join, query_values-plain,
}
use wstester.Wire.{raw_query}

find_name-plain :
    (sep : ℕ) (names : List Text) (topic name : Text)
    → no_chars sep names ≡ true
    → find_name names topic ≡ some name
    → has_char sep name ≡ false
find_name-plain sep [] topic name h e = absurd (ground arith)
find_name-plain sep (n ∷ names) topic name h e =
    ground (arith, find_name-plain sep names topic name)

chosen-plain :
    (sep : ℕ) (symbol : Text) (o p : Option Text)
    → (58 == sep) ≡ false
    → has_char sep symbol ≡ false
    → ((name : Text) → o ≡ some name → has_char sep name ≡ false)
    → ((name : Text) → p ≡ some name → has_char sep name ≡ false)
    → has_char sep (chosen symbol o p) ≡ false
chosen-plain sep symbol (some name) p m h k l =
    ground (arith, has_char-append sep name (58 ∷ symbol), k name refl)
chosen-plain sep symbol none (some name) m h k l = l name refl
chosen-plain sep symbol none none m h k l = refl

-- A character that stands in no name.
abbrev pub IsApart : ℕ → Type 0
IsApart sep =
    ((58 == sep) ≡ false)
    × (is_mark sep ≡ true)
    × (no_chars sep symbol_subs ≡ true)
    × (no_chars sep (public_topics ++ private_topics) ≡ true)

normalize_topic-plain :
    (sep : ℕ) (c : Client) (topic : Text)
    → IsApart sep
    → is_word c.symbol ≡ true
    → has_char sep (normalize_topic c topic) ≡ false
unfolding normalize_topic
normalize_topic-plain sep c topic (m, mark, k, l) h =
    chosen-plain sep c.symbol (find_name symbol_subs topic)
      (find_name (public_topics ++ private_topics) topic) m (word-plain sep c.symbol mark h)
      (λ name e. find_name-plain sep symbol_subs topic name k e)
      (λ name e. find_name-plain sep (public_topics ++ private_topics) topic name l e)

pub queried-plain :
    (sep : ℕ) (topics : List Text) (c : Client)
    → IsApart sep
    → is_word c.symbol ≡ true
    → no_chars sep (queried c topics) ≡ true
queried-plain sep [] c m h = refl
queried-plain sep (topic ∷ topics) c m h =
    ground (arith, normalize_topic-plain sep c topic m h, queried-plain sep topics c m h)

-- The server gets the topics that the client asks for.
pub args-same :
    (subs : List Text)
    → ((sep : ℕ) → IsApart sep → no_chars sep subs ≡ true)
    → header_args (query_values (raw_query subs)) ≡ subs
unfolding header_args query_values
args-same [] h = refl
args-same (sub ∷ subs) h =
    let all = sub ∷ subs in
    let plain : (sep : ℕ) → (44 == sep) ≡ false → IsApart sep → has_char sep (join 44 all) ≡ false =
      λ sep m a. has_char-join sep all m (h sep a) in
    ap header_args (
      query_values-plain (join 44 all) (plain 35 refl (refl, refl, refl, refl))
        (plain 37 refl (refl, refl, refl, refl)) (plain 38 refl (refl, refl, refl, refl))
        (plain 43 refl (refl, refl, refl, refl)) (plain 59 refl (refl, refl, refl, refl)))
    ∙ append-nil (split 44 (join 44 all))
    ∙ split-join 44 sub subs (h 44 (refl, refl, refl, refl))
