-- ===== src/Examples/Serving.antt =====
-- server/server.go, server/session.go and client/client.go together at small inputs.
use wstester.Prelude.{
  ℕ, Bool, ◌++◌, ◌||◌, arith, sym, subst, contains, drop, text_eqb, text_eqb_iff, Bool-cases, inl,
  inr, ◌≡◌, refl, true, false, List, [], ◌∷◌, none, some, done, if◌then◌else◌, codes, Text,
}
use wstester.Channels.{RspChannel}
use wstester.Tables.{TableCache}
use wstester.Client.{normalize_topic, Client, is_subscribed, is_public_topic}
use wstester.Client.Connect.{all_cached, queried}
use wstester.Client.Messages.{Decoders, classify, subscribe as kind_subscribe}
use wstester.Client.Reading.{Reader, reading, beat_of}
use wstester.Server.Subscribe.{answer, no_channel, Reply, Task, Serving, topic_depth}
use wstester.Wire.{connect_and_subscribe}
use wstester.Wire.Query.{before}
use wstester.Wire.Answers.{named, has_cache, IsRead, connect_and_subscribe-subscribed}

abbrev channel : RspChannel ℕ
channel = record {
  source = some [];
  destinations = [];
  children = [];
  source_closed = false;
  is_ready = true;
  is_closed = false;
}

abbrev table : TableCache ℕ ℕ
table = record {
  state = 0;
  realtime = some ((0, channel) ∷ (25, channel) ∷ []);
  snapshot = none;
  tick = none;
  pipeline = [];
  pipeline_closed = false;
  is_ready = true;
  is_closed = false;
}

abbrev serving : Serving ℕ ℕ
serving = record {
  names = (codes "trade", 1) ∷ (codes "orderBookL2", 1) ∷ (codes "orderBookL2_25", 1) ∷ [];
  tables = (1, table) ∷ [];
  replies = [];
  cleanup = none;
  is_closed = false;
  pipeline_answers = λ cache. true;
  channel_answers = λ cache depth. true;
}

deep : topic_depth (codes "orderBookL2_25") ≡ 25
unfolding topic_depth
deep = refl

abbrev full : Task
full = record { topic = codes "orderBookL2"; cache = 1; depth = 0 }

abbrev limited : Task
limited = record { topic = codes "orderBookL2_25"; cache = 1; depth = 25 }

abbrev client : Client
client = record {
  symbol = codes "XBTUSD";
  subscribed = (codes "trade", none) ∷ (codes "orderBookL2", none) ∷ [];
  caches = [];
  requests = [];
  connected = false;
  authencated = false;
  has_auth = false;
}

abbrev topics : List Text
topics = codes "trade" ∷ codes "orderBookL2" ∷ []

client-cached : all_cached client topics ≡ true
unfolding is_public_topic
client-cached = refl

-- An answer's text, and its decoding.
abbrev encode : List Text → Reply → Text
encode args (answer true topic) = codes "{\"success\":true,\"subscribe\":\"" ++ topic ++ codes "\"}"
encode args (answer false topic) =
    codes "{\"success\":false,\"subscribe\":\"" ++ topic ++ codes "\"}"
encode args (no_channel topic depth) = codes "{\"error\":\"\"}"

abbrev decoders : Decoders ℕ
decoders = record {
  sub_msg = λ text.
      if contains text (codes "true")
      then some (before 34 (drop 29 text), true)
      else some (before 34 (drop 30 text), false);
  auth_msg = λ text. none;
  ins_msg = λ text. none;
  mbl_msg = λ text. none;
  td_msg = λ text. none;
}

abbrev reader : Reader ℕ ℕ
reader = record {
  receiver = record { client = client; tables = []; disable_cache = false };
  beats = [];
  timer = none;
  takes = 0;
}

trade_read :
    (success : Bool)
    → let text = encode [] (answer success (codes "trade:XBTUSD")) in
      (beat_of text ≡ none)
      × (classify text ≡ kind_subscribe)
      × (decoders.sub_msg text ≡ some (codes "trade:XBTUSD", success))
unfolding beat_of classify
trade_read true = (refl, refl, refl)
trade_read false = (refl, refl, refl)

book_read :
    (success : Bool)
    → let text = encode [] (answer success (codes "orderBookL2:XBTUSD")) in
      (beat_of text ≡ none)
      × (classify text ≡ kind_subscribe)
      × (decoders.sub_msg text ≡ some (codes "orderBookL2:XBTUSD", success))
unfolding beat_of classify
book_read true = (refl, refl, refl)
book_read false = (refl, refl, refl)

asked_for : queried client topics ≡ codes "trade:XBTUSD" ∷ codes "orderBookL2:XBTUSD" ∷ []
unfolding normalize_topic is_public_topic
asked_for = refl

answers-IsRead : IsRead encode decoders (codes "trade:XBTUSD" ∷ codes "orderBookL2:XBTUSD" ∷ [])
answers-IsRead topic success h = elim (Bool-cases (text_eqb topic (codes "trade:XBTUSD"))) [
  | inl same ↦
      subst (λ t. Read t success) (sym ((text_eqb_iff topic (codes "trade:XBTUSD")).0 same))
        (trade_read success)
  | inr other ↦ elim (Bool-cases (text_eqb topic (codes "orderBookL2:XBTUSD"))) [
    | inl same ↦
        subst (λ t. Read t success) (sym ((text_eqb_iff topic (codes "orderBookL2:XBTUSD")).0 same))
          (book_read success)
    | inr neither ↦ absurd (none_left _ _ other neither h)
  ]
]
  where
    Read : Text → Bool → Type 0
    Read t b =
        (beat_of (encode [] (answer b t)) ≡ none)
        × (classify (encode [] (answer b t)) ≡ kind_subscribe)
        × (decoders.sub_msg (encode [] (answer b t)) ≡ some (t, b))

    none_left : (a b : Bool) → a ≡ false → b ≡ false → (a || (b || false)) ≡ true → ⊥
    none_left a b h k e = ground arith

connect_and_subscribe-subscribed_example :
    (v' : Reader ℕ ℕ) × (s' : Serving ℕ ℕ) × (tasks : List Task) × (connect_and_subscribe encode
        decoders reader serving
      ≡ done (reading v', s', tasks))
    × ((q : Text)
        → is_subscribed v'.receiver.client q ≡ (
            if named q (queried client topics)
            then has_cache serving q
            else is_subscribed client q))
connect_and_subscribe-subscribed_example =
    connect_and_subscribe-subscribed encode decoders reader serving client-cached refl refl
      (subst (IsRead encode decoders) (sym asked_for) answers-IsRead)
