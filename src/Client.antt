-- ===== src/Client.antt =====
-- client/config.go and client/client.go: the client's topics, its caches and its messages. The websocket
-- and the JSON decoder are the environment: a message is given decoded, a dial with its outcome.
pub mod Topics
pub mod Connect
pub mod Messages
pub mod Reading
use wstester.Prelude.{
  ℕ, Bool, true, false, not, ◌&&◌, ◌||◌, Option, none, some, List, [], ◌∷◌, ◌++◌, map, Run, done,
  panic, ◌>>=◌, if◌then◌else◌, lookup, put, erase, Text, codes, to_lower, text_eqb, text_eq,
  before_colon,
}

-- `symbolSubs`, `PublicTopics`, `PrivateTopics` and the keys of `cacheMapper`.
abbrev pub symbol_subs : List Text
symbol_subs = codes "instrument" ∷ codes "orderBookL2" ∷ codes "trade" ∷ codes "order" ∷ []

abbrev pub public_topics : List Text
public_topics =
    codes "instrument"
    ∷ codes "orderBookL2"
    ∷ codes "orderBookL2_25"
    ∷ codes "trade"
    ∷ codes "quote"
    ∷ []

abbrev pub private_topics : List Text
private_topics = codes "order" ∷ codes "execution" ∷ codes "position" ∷ []

abbrev pub cache_mapper : List Text
cache_mapper =
    codes "orderBookL2" ∷ codes "orderBookL2_25" ∷ codes "trade" ∷ codes "instrument" ∷ []

-- The first name of a list that is the topic but for its case.
abbrev pub find_name : List Text → Text → Option Text
find_name [] topic = none
find_name (name ∷ names) topic =
    if text_eqb (to_lower topic) (to_lower name) then some name else find_name names topic

abbrev pub is_some {ℓ} : {A : Type ℓ} → Option A → Bool
is_some none = false
is_some (some a) = true

unfoldable pub is_public_topic : Text → Bool
is_public_topic topic = is_some (find_name public_topics topic)

unfoldable pub is_private_topic : Text → Bool
is_private_topic topic = is_some (find_name private_topics topic)

unfoldable pub is_valid_topic : Text → Bool
unfolding is_public_topic is_private_topic
is_valid_topic topic = is_public_topic topic || is_private_topic topic

-- `subscribed` is SubscribedTopics: nil while a subscription waits for its response, else the response's
-- Success. `caches` are the keys of rspCache. `requests` are the arguments of the requests sent, oldest
-- first.
pub record Client : Type 0 where
  pub symbol : Text
  pub subscribed : List (Text × Option Bool)
  pub caches : List Text
  pub requests : List (List Text)
  pub connected : Bool
  pub authencated : Bool
  pub has_auth : Bool

-- The two loops of normalizeTopic, from the names that they find.
abbrev pub chosen : Text → Option Text → Option Text → Text
chosen symbol (some name) other = name ++ 58 ∷ symbol
chosen symbol none (some name) = name
chosen symbol none none = []

unfoldable pub normalize_topic : Client → Text → Text
normalize_topic c topic =
    chosen c.symbol (find_name symbol_subs topic)
      (find_name (public_topics ++ private_topics) topic)

-- `exist && rsp != nil && rsp.Success`
abbrev pub succeeded : Option (Option Bool) → Bool
succeeded (some (some success)) = success
succeeded _ = false

unfoldable pub is_subscribed : Client → Text → Bool
is_subscribed c topic = succeeded (lookup topic c.subscribed)

-- The loop of Subscribe: the client, and the arguments to send.
unfoldable pub subscribe_all : Client → List Text → Client × List Text
unfolding is_valid_topic is_subscribed normalize_topic
subscribe_all c [] = (c, [])
subscribe_all c (topic ∷ topics) =
    let waiting = record c { subscribed = put topic none c.subscribed } in
    let skipped = subscribe_all c topics in
    let (c', args) = subscribe_all waiting topics in
    if not (is_valid_topic topic)
    then skipped
    else if is_subscribed c topic
    then skipped
    else (c', normalize_topic c topic ∷ args)

-- `Subscribe`; the request goes out, empty or not, if the client is connected.
unfoldable pub subscribe : Client → List Text → Client
unfolding subscribe_all
subscribe c topics =
    let (c', args) = subscribe_all c topics in
    if c'.connected then record c' { requests = c'.requests ++ args ∷ [] } else c'

unfoldable pub un_subscribe : Client → List Text → Client
unfolding is_valid_topic is_subscribed
un_subscribe c [] = c
un_subscribe c (topic ∷ topics) =
    let dropped = record c { subscribed = put topic none c.subscribed } in
    let skip = un_subscribe c topics in
    let rest = un_subscribe dropped topics in
    if not (is_valid_topic topic) then skip else if not (is_subscribed c topic) then skip else rest

abbrev pub has_text : List Text → Text → Bool
has_text [] topic = false
has_text (name ∷ names) topic = text_eqb topic name || has_text names topic

-- `createCache`: a topic that cacheMapper has not gives a nil function, and calling it panics.
unfoldable pub create_cache : Client → Text → Run Client
create_cache c topic =
    if has_text c.caches topic
    then done c
    else if has_text cache_mapper topic
    then done (record c { caches = topic ∷ c.caches })
    else panic

-- The loop of Connect over the subscribed topics: the client, and the list for the query.
unfoldable pub connect_topics : Client → List Text → Run (Client × List Text)
unfolding is_public_topic is_private_topic create_cache normalize_topic
connect_topics c [] = done (c, [])
connect_topics c (topic ∷ topics) =
    if is_public_topic topic || (is_private_topic topic && c.has_auth)
    then (create_cache c topic >>= λ c'.
        connect_topics c' topics >>= λ (c'', subs). done (c'', normalize_topic c topic ∷ subs))
    else connect_topics c topics

-- `Connect`, with the outcome of the dial.
unfoldable pub connect : Bool → Client → Run (Client × List Text)
unfolding connect_topics
connect dialed c = connect_topics c (map (λ entry. entry.0) c.subscribed) >>= λ (c', subs).
    done (if dialed then record c' { connected = true } else c', subs)

abbrev pub close_handler : Client → Client
close_handler c = record c { connected = false; authencated = false }

-- `handlSubMsg`, on a decoded response: its topic with the symbol, and its success.
unfoldable pub handle_sub_msg : Client → Text → Bool → Client
handle_sub_msg c text success =
    let topic = before_colon text in
    record c {
      subscribed = if success then put topic (some true) c.subscribed else erase topic c.subscribed;
    }

unfoldable pub handle_auth_msg : Client → Bool → Client
handle_auth_msg c success = if success then record c { authencated = true } else c
