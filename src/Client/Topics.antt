-- ===== src/Client/Topics.antt =====
-- client/client.go: the names of topics, from a subscription to its response.
use wstester.Prelude.{
  ◌≡◌, refl, sym, ap, ◌∙◌, Bool, true, false, not, ◌&&◌, ◌||◌, Option, none, some, List, [], ◌∷◌,
  ◌++◌, ◌==◌, lookup, put, lookup-put, Text, to_lower, text_eqb, text_eqb_iff, text_eq,
  before_colon, arith, Bool-cases, inl, inr,
}
use wstester.Client.{
  symbol_subs, public_topics, private_topics, find_name, is_some, is_public_topic, is_private_topic,
  is_valid_topic, Client, normalize_topic, chosen, succeeded, is_subscribed, subscribe_all,
  subscribe, handle_sub_msg,
}

abbrev no_colon : Text → Bool
no_colon [] = true
no_colon (n ∷ text) = not (n == 58) && no_colon text

abbrev no_colons : List Text → Bool
no_colons [] = true
no_colons (name ∷ names) = no_colon name && no_colons names

before_colon-join :
    (name rest : Text) → no_colon name ≡ true → before_colon (name ++ 58 ∷ rest) ≡ name
before_colon-join [] rest h = refl
before_colon-join (n ∷ name) rest h = ground (arith, before_colon-join name rest)

before_colon-plain : (name : Text) → no_colon name ≡ true → before_colon name ≡ name
before_colon-plain [] h = refl
before_colon-plain (n ∷ name) h = ground (arith, before_colon-plain name)

find_name_sound :
    (names : List Text) (topic name : Text)
    → no_colons names ≡ true
    → find_name names topic ≡ some name
    → (to_lower name ≡ to_lower topic) × (no_colon name ≡ true)
find_name_sound [] topic name h e = ground arith
find_name_sound (n ∷ names) topic name h e =
    elim (Bool-cases (text_eqb (to_lower topic) (to_lower n))) [
      | inl same ↦ ground (arith, text_eqb_iff (to_lower topic) (to_lower n))
      | inr other ↦ find_name_sound names topic name (ground arith) (ground arith)
    ]

find_name-append :
    (xs ys : List Text) (topic : Text)
    → is_some (find_name (xs ++ ys) topic)
      ≡ is_some (find_name xs topic) || is_some (find_name ys topic)
find_name-append [] ys topic = refl
find_name-append (x ∷ xs) ys topic = ground (arith, find_name-append xs ys topic)

IsName : Option Text → Text → Type 0
IsName o topic =
    (name : Text) → o ≡ some name → (to_lower name ≡ to_lower topic) × (no_colon name ≡ true)

chosen-name :
    (symbol topic : Text) (o p : Option Text)
    → IsName o topic
    → IsName p topic
    → is_some p ≡ true
    → (to_lower (before_colon (chosen symbol o p)) ≡ to_lower topic)
      × (no_colon (before_colon (chosen symbol o p)) ≡ true)
unfolding IsName
chosen-name symbol topic (some name) p h k e =
    let (same, plain) = h name refl in rw (before_colon-join name symbol plain) (same, plain)
chosen-name symbol topic none (some name) h k e =
    let (same, plain) = k name refl in rw (before_colon-plain name plain) (same, plain)
chosen-name symbol topic none none h k e = ground arith

-- For any valid topic in any case: what Subscribe asks for has, before its colon, the same name but for its
-- case.
pub normalize_topic-name :
    (c : Client) (topic : Text)
    → is_valid_topic topic ≡ true
    → to_lower (before_colon (normalize_topic c topic)) ≡ to_lower topic
unfolding normalize_topic is_valid_topic is_public_topic is_private_topic IsName
normalize_topic-name c topic h =
    (chosen-name c.symbol topic (find_name symbol_subs topic)
      (find_name (public_topics ++ private_topics) topic)
      (λ name e. find_name_sound symbol_subs topic name refl e)
      (λ name e. find_name_sound (public_topics ++ private_topics) topic name refl e)
      (find_name-append public_topics private_topics topic ∙ h)).0

subscribe-one :
    (c : Client) (topic : Text)
    → c.connected ≡ true
    → is_valid_topic topic ≡ true
    → is_subscribed c topic ≡ false
    → subscribe c (topic ∷ []) ≡ record c {
      subscribed = put topic none c.subscribed;
      requests = c.requests ++ (normalize_topic c topic ∷ []) ∷ [];
    }
unfolding subscribe subscribe_all
subscribe-one c topic live valid fresh = rw (valid, fresh, subscribe_all, live, subscribe)

is_subscribed-confirmed :
    (c : Client) (asked topic : Text)
    → lookup topic c.subscribed ≡ some none
    → is_subscribed (handle_sub_msg c asked true) topic ≡ text_eqb topic (before_colon asked)
unfolding is_subscribed handle_sub_msg
is_subscribed-confirmed c asked topic h =
    let found = lookup-put (before_colon asked) topic (some true) c.subscribed in
    elim (Bool-cases (text_eqb topic (before_colon asked))) [
      | inl same ↦
          let now : lookup topic (put (before_colon asked) (some true) c.subscribed)
              ≡ some (some true) =
            found ∙ rw same in
          ap succeeded now ∙ sym same
      | inr other ↦
          let now : lookup topic (put (before_colon asked) (some true) c.subscribed) ≡ some none =
            found ∙ rw (other, h) in
          ap succeeded now ∙ sym other
    ]

-- A client that is connected, and a valid topic that waits for no response and has none: Subscribe sends
-- one request for it; when the response to that comes and is a success, the topic counts as subscribed
-- exactly if the caller spelt it as the server does.
pub subscribe-confirmed :
    (c : Client) (topic : Text)
    → c.connected ≡ true
    → is_valid_topic topic ≡ true
    → is_subscribed c topic ≡ false
    → let asked = normalize_topic c topic in
      let c' = subscribe c (topic ∷ []) in
      (c'.requests ≡ c.requests ++ (asked ∷ []) ∷ [])
      × (is_subscribed (handle_sub_msg c' asked true) topic ≡ text_eqb topic (before_colon asked))
subscribe-confirmed c topic live valid fresh =
    let waits : lookup topic (put topic none c.subscribed) ≡ some none =
      ground (arith, lookup-put topic topic none c.subscribed, text_eqb_iff topic topic) in
    rw (subscribe-one c topic live valid fresh) (
      refl,
      is_subscribed-confirmed
          (record c {
            subscribed = put topic none c.subscribed;
            requests = c.requests ++ (normalize_topic c topic ∷ []) ∷ [];
          })
          (normalize_topic c topic) topic waits,
    )
