-- ===== src/Wire/Answers.antt =====
-- client/client.go and server/server.go: what a client counts as subscribed when the server has answered.
use wstester.Prelude.{
  ℕ, zero, suc, ◌<◌, length, ◌≡◌, refl, sym, ap, subst, ◌∙◌, Bool, true, false, ◌||◌, none, some,
  List, [], ◌∷◌, ◌++◌, map, Run, done, panic, ◌>>=◌, arith, if◌then◌else◌, lookup, lookup-put,
  lookup-erase, Text, text_eqb, text_eqb_iff, text_eq, before_colon, >>=-done, Bool-cases, inl, inr,
}
use mathlib.Core.List.{append-nil, append_assoc}
use wstester.Client.{
  Client, normalize_topic, succeeded, is_subscribed, has_text, cache_mapper, create_cache,
  connect_topics, connect, handle_sub_msg,
}
use wstester.Client.Connect.{wanted, all_cached, queried, subs_of, connect_topics-queried}
use wstester.Server.{header_args}
use wstester.Server.Subscribe.{Serving, Task, Reply, answer, known, handle_subscribe}
use wstester.Server.Upgrade.{Frame, frame}
use wstester.Client.Messages.{
  Decoders, classify, handle_message, handle_kind, subscribe as kind_subscribe,
}
use wstester.Client.Reading.{Reader, reading, beat_of, read_message, with_read, message_handler}
use wstester.Client.Reading.Loop.{go_on, handled, message_handler-go_on, message_handler-plain}
use wstester.Wire.Query.{query_values, is_word}
use wstester.Wire.Plain.{queried-plain, args-same}
use wstester.Wire.{raw_query, frames_of, with_client, connect_and_subscribe}

module _ {S A : Type 0} where
  -- The server has a cache of that name.
  abbrev pub has_cache : Serving S A → Text → Bool
  has_cache s name = known (lookup name s.names)

  abbrev answers : Serving S A → List Text → List Reply
  answers s [] = []
  answers s (topic ∷ topics) = answer (has_cache s (before_colon topic)) topic ∷ answers s topics

  answers-replies :
      (topics : List Text) (s : Serving S A) (replies : List Reply)
      → answers (record s { replies = replies }) topics ≡ answers s topics
  answers-replies [] s replies = refl
  answers-replies (topic ∷ topics) s replies = rw (answers-replies topics s replies)

  handle_subscribe-answers :
      (topics : List Text) (s : Serving S A)
      → (handle_subscribe s topics).0.replies ≡ s.replies ++ answers s topics
  unfolding handle_subscribe
  handle_subscribe-answers [] s = sym (append-nil s.replies)
  handle_subscribe-answers (topic ∷ topics) s =
      let reply = answer (has_cache s (before_colon topic)) topic in
      let s1 = record s { replies = s.replies ++ reply ∷ [] } in
      handle_subscribe-answers topics s1
      ∙ append_assoc s.replies (reply ∷ []) (answers s1 topics)
      ∙ ap (λ x. s.replies ++ reply ∷ x) (answers-replies topics s (s.replies ++ reply ∷ []))

-- Is a name what stands before the colon of one of the topics?
abbrev pub named : Text → List Text → Bool
named q [] = false
named q (topic ∷ topics) = text_eqb q (before_colon topic) || named q topics

handle_sub_msg-subscribed :
    (c : Client) (topic q : Text) (success : Bool)
    → is_subscribed (handle_sub_msg c topic success) q
      ≡ (if text_eqb q (before_colon topic) then success else is_subscribed c q)
unfolding is_subscribed handle_sub_msg
handle_sub_msg-subscribed c topic q true =
    ap succeeded (lookup-put (before_colon topic) q (some true) c.subscribed) ∙ ground arith
handle_sub_msg-subscribed c topic q false =
    ap succeeded (lookup-erase (before_colon topic) q c.subscribed) ∙ ground arith

-- The answers to some topics are texts that the client takes for what they are: no heartbeats, as by a
-- symbol with "ping" in it, and no other kind of message; and they are decoded to what was encoded.
abbrev pub IsRead : {B : Type 0} → (List Text → Reply → Text) → Decoders B → List Text → Type 0
IsRead encode d subs =
    (topic : Text) (success : Bool)
    → has_text subs topic ≡ true
    → let text = encode subs (answer success topic) in
      (beat_of text ≡ none)
      × (classify text ≡ kind_subscribe)
      × (d.sub_msg text ≡ some (topic, success))

module _ {T B : Type 0} (encode : List Text → Reply → Text) (d : Decoders B)
    (subs : List Text) where
  take_answer :
      (fuel : ℕ) (v : Reader T B) (frames : List Frame) (topic : Text) (success : Bool)
      → IsRead encode d subs
      → has_text subs topic ≡ true
      → message_handler (suc fuel) d v (frame (encode subs (answer success topic)) ∷ frames)
        ≡ message_handler fuel d
            (with_client (with_read v 1 []) (handle_sub_msg v.receiver.client topic success))
            frames
  unfolding handled handle_message handle_kind
  take_answer fuel v frames topic success h there =
      let text = encode subs (answer success topic) in
      let (plain, kind, decoded) = h topic success there in
      message_handler-plain d fuel v text frames plain ∙ rw (kind, decoded, handled)

  take_answers :
      {S A : Type 0} (topics : List Text) (fuel : ℕ) (v : Reader T B) (s : Serving S A)
      → IsRead encode d subs
      → ((topic : Text) → has_text topics topic ≡ true → has_text subs topic ≡ true)
      → length (answers s topics) < fuel
      → (v' : Reader T B) × (message_handler fuel d v (frames_of encode subs (answers s topics))
          ≡ reading v')
        × ((q : Text)
            → is_subscribed v'.receiver.client q
              ≡ (if named q topics then has_cache s q else is_subscribed v.receiver.client q))
  unfolding go_on read_message
  take_answers topics zero v s h all enough = absurd (omega arith)
  take_answers [] (suc fuel) v s h all enough =
      (with_read v 0 [], message_handler-go_on d fuel v [], λ q. refl)
  take_answers (topic ∷ topics) (suc fuel) v s h all enough =
      let name = before_colon topic in
      let success = has_cache s name in
      let here : has_text subs topic ≡ true =
        all topic (ground (arith, text_eqb_iff topic topic)) in
      let c' = handle_sub_msg v.receiver.client topic success in
      let (v', run, spec) =
        take_answers topics fuel (with_client (with_read v 1 []) c') s h
          (λ t e. all t (ground arith)) (omega arith) in
      (
        v',
        take_answer fuel v (frames_of encode subs (answers s topics)) topic success h here ∙ run,
        λ q.
            spec q
            ∙ ground (
              arith,
              handle_sub_msg-subscribed v.receiver.client topic q success,
              text_eqb_iff q name,
            ),
      )

is_subscribed-same :
    (c d : Client) (q : Text) → c.subscribed ≡ d.subscribed → is_subscribed c q ≡ is_subscribed d q
unfolding is_subscribed
is_subscribed-same c d q e = ap (λ m. succeeded (lookup q m)) e

-- Connect leaves the subscriptions as they were, if it returns.
abbrev Keeps : Client → Run (Client × List Text) → Type 0
Keeps c panic = Unit {0}
Keeps c (done r) = r.0.subscribed ≡ c.subscribed

Keeps-cons :
    (c : Client) (m : Run (Client × List Text)) (sub : Text)
    → Keeps c m
    → Keeps c (m >>= λ r. done (r.0, sub ∷ r.1))
Keeps-cons c (done r) sub h = h
Keeps-cons c panic sub h = tt

connect_topics-Keeps : (topics : List Text) (c : Client) → Keeps c (connect_topics c topics)
unfolding connect_topics
connect_topics-Keeps [] c = refl
connect_topics-Keeps (topic ∷ topics) c = elim (Bool-cases (wanted c topic)) [
  | inr skipped ↦ rw skipped (connect_topics-Keeps topics c)
  | inl taken ↦ elim (Bool-cases (has_text c.caches topic)) [
    | inl there ↦
        rw (taken, there, create_cache)
          (Keeps-cons c (connect_topics c topics) (normalize_topic c topic)
            (connect_topics-Keeps topics c))
    | inr missing ↦ elim (Bool-cases (has_text cache_mapper topic)) [
      | inl made ↦
          let c1 = record c { caches = topic ∷ c.caches } in
          rw (taken, missing, made, create_cache)
            (Keeps-cons c (connect_topics c1 topics) (normalize_topic c topic)
              (connect_topics-Keeps topics c1))
      | inr unknown ↦ rw (taken, missing, unknown, create_cache) tt
    ]
  ]
]

-- Connect of a client with a cache for each topic that it takes up.
connect-returns :
    (c : Client)
    → let topics = map (λ entry. entry.0) c.subscribed in
      all_cached c topics ≡ true
      → (c' : Client) × (connect true c ≡ done (c', queried c topics))
        × (c'.subscribed ≡ c.subscribed)
unfolding connect
connect-returns c h =
    let topics = map (λ entry. entry.0) c.subscribed in
    let subs : subs_of (connect_topics c topics) ≡ done (queried c topics) =
      connect_topics-queried topics c ∙ rw h in
    let (r, run, same) =
      >>=-done (connect_topics c topics) (λ (r : Client × List Text). done r.1) (queried c topics)
        subs in
    let at : r.1 ≡ queried c topics = cc same in
    (
      record (r.0) { connected = true },
      rw (run, at),
      subst (Keeps c) run (connect_topics-Keeps topics c),
    )

module _ {S A T B : Type 0} (encode : List Text → Reply → Text) (d : Decoders B) (v : Reader T B)
    (s : Serving S A) where
  -- For any client with a cache for each topic that it takes up, or a key of the map of cache makers, and a
  -- symbol of letters and digits, and any server, where the answers to what the client asks for are texts
  -- that it takes for such: the client connects without a panic, reads all answers, and then a name counts
  -- as subscribed exactly if the server has a cache of it, where the client asked for it, and as it did
  -- before where not.
  pub connect_and_subscribe-subscribed :
      let c = v.receiver.client in
      let subs = queried c (map (λ entry. entry.0) c.subscribed) in
      all_cached c (map (λ entry. entry.0) c.subscribed) ≡ true
      → is_word c.symbol ≡ true
      → s.replies ≡ []
      → IsRead encode d subs
      → (v' : Reader T B) × (s' : Serving S A) × (tasks : List Task) × (connect_and_subscribe encode
            d v s
          ≡ done (reading v', s', tasks))
        × ((q : Text)
            → is_subscribed v'.receiver.client q
              ≡ (if named q subs then has_cache s q else is_subscribed c q))
  unfolding connect_and_subscribe
  connect_and_subscribe-subscribed h plain fresh reads =
      let c = v.receiver.client in
      let topics = map (λ entry. entry.0) c.subscribed in
      let subs = queried c topics in
      let (c1, run, same) = connect-returns c h in
      let served = handle_subscribe s subs in
      let asked : header_args (query_values (raw_query subs)) ≡ subs =
        args-same subs (λ sep m. queried-plain sep topics c m plain) in
      let replies : served.0.replies ≡ answers s subs =
        handle_subscribe-answers subs s ∙ ap (λ x. x ++ answers s subs) fresh in
      let (v', taken, spec) =
        take_answers encode d subs subs (suc (length (answers s subs))) (with_client v c1) s reads
          (λ t e. e) (omega arith) in
      (
        v',
        served.0,
        served.1,
        rw (run, asked)
            (ap
                (λ rs. done (
                  message_handler (suc (length rs)) d (with_client v c1) (frames_of encode subs rs),
                  served.0,
                  served.1,
                ))
                replies
              ∙ ap (λ p. done (p, served.0, served.1)) taken),
        λ q.
            spec q
            ∙ ap (λ b. if named q subs then has_cache s q else b) (is_subscribed-same c1 c q same),
      )
