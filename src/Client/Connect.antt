-- ===== src/Client/Connect.antt =====
-- client/client.go: for which subscriptions Connect panics.
use wstester.Prelude.{
  ◌≡◌, refl, ◌∙◌, Bool, true, false, not, ◌&&◌, ◌||◌, List, [], ◌∷◌, if◌then◌else◌, Text, text_eqb,
  text_eqb_iff, text_eq, arith, Bool-cases, inl, inr, Run, done, panic, ◌>>=◌,
}
use wstester.Client.{
  is_public_topic, is_private_topic, Client, normalize_topic, has_text, cache_mapper, create_cache,
  connect_topics,
}

-- The specification: which topics Connect takes up, and which of them it has a cache for or can make one.
abbrev pub wanted : Client → Text → Bool
wanted c topic = is_public_topic topic || (is_private_topic topic && c.has_auth)

abbrev pub cached : Client → Text → Bool
cached c topic = has_text c.caches topic || has_text cache_mapper topic

abbrev pub all_cached : Client → List Text → Bool
all_cached c [] = true
all_cached c (topic ∷ topics) = (not (wanted c topic) || cached c topic) && all_cached c topics

abbrev pub queried : Client → List Text → List Text
queried c [] = []
queried c (topic ∷ topics) =
    if wanted c topic then normalize_topic c topic ∷ queried c topics else queried c topics

abbrev pub subs_of : Run (Client × List Text) → Run (List Text)
subs_of m = m >>= λ r. done r.1

-- The caches that are made do not matter to what is taken up.
abbrev with_cache : Client → Text → Client
with_cache c topic = record c { caches = topic ∷ c.caches }

cached-with_cache :
    (c : Client) (u t : Text)
    → has_text cache_mapper u ≡ true
    → cached (with_cache c u) t ≡ cached c t
cached-with_cache c u t h = elim (Bool-cases (text_eqb t u)) [
  | inl same ↦ let e : t ≡ u = ground (arith, text_eqb_iff t u) in rw (e, h) ground arith
  | inr other ↦ rw other
]

all_cached-with_cache :
    (topics : List Text) (c : Client) (u : Text)
    → has_text cache_mapper u ≡ true
    → all_cached (with_cache c u) topics ≡ all_cached c topics
all_cached-with_cache [] c u h = refl
all_cached-with_cache (t ∷ topics) c u h =
    rw (cached-with_cache c u t h, all_cached-with_cache topics c u h)

queried-with_cache :
    (topics : List Text) (c : Client) (u : Text)
    → queried (with_cache c u) topics ≡ queried c topics
unfolding normalize_topic
queried-with_cache [] c u = refl
queried-with_cache (t ∷ topics) c u = rw (queried-with_cache topics c u)

subs_of-cons :
    (m : Run (Client × List Text)) (sub : Text) (b : Bool) (subs : List Text)
    → subs_of m ≡ (if b then done subs else panic)
    → subs_of (m >>= λ r. done (r.0, sub ∷ r.1)) ≡ (if b then done (sub ∷ subs) else panic)
subs_of-cons (done r) sub true subs h = ground arith
subs_of-cons (done r) sub false subs h = ground arith
subs_of-cons panic sub true subs h = ground arith
subs_of-cons panic sub false subs h = refl

-- What the loop does with a topic that it takes up, where it is right about the rest.
taken :
    (c : Client) (topic : Text) (topics : List Text)
    → ((d : Client)
        → subs_of (connect_topics d topics)
          ≡ (if all_cached d topics then done (queried d topics) else panic))
    → subs_of (
        create_cache c topic >>= λ c'.
        connect_topics c' topics >>= λ r. done (r.0, normalize_topic c topic ∷ r.1))
      ≡ (if cached c topic && all_cached c topics
          then done (normalize_topic c topic ∷ queried c topics)
          else panic)
unfolding create_cache
taken c topic topics rest = elim (Bool-cases (has_text c.caches topic)) [
  | inl there ↦
      rw (there, create_cache)
        (subs_of-cons (connect_topics c topics) (normalize_topic c topic) (all_cached c topics)
          (queried c topics) (rest c))
  | inr missing ↦ elim (Bool-cases (has_text cache_mapper topic)) [
    | inl known ↦
        let r = rest (with_cache c topic) in
        let s : subs_of (connect_topics (with_cache c topic) topics)
            ≡ (if all_cached c topics then done (queried c topics) else panic) =
          r ∙ rw (all_cached-with_cache topics c topic known, queried-with_cache topics c topic) in
        rw (missing, known, create_cache)
          (subs_of-cons (connect_topics (with_cache c topic) topics) (normalize_topic c topic)
            (all_cached c topics) (queried c topics) s)
    | inr unknown ↦ rw (missing, unknown, create_cache)
  ]
]

-- For any client and subscribed topics: Connect's loop takes up the public topics, and the private ones of
-- a client with a key, in their order and by their normal names; but it panics if one of them has no cache
-- and is not spelt exactly as a key of the map of cache makers.
pub connect_topics-queried :
    (topics : List Text) (c : Client)
    → subs_of (connect_topics c topics)
      ≡ (if all_cached c topics then done (queried c topics) else panic)
unfolding connect_topics
connect_topics-queried [] c = refl
connect_topics-queried (topic ∷ topics) c = elim (Bool-cases (wanted c topic)) [
  | inl taken_up ↦ rw taken_up (taken c topic topics (connect_topics-queried topics))
  | inr left_out ↦ rw left_out (connect_topics-queried topics c)
]
