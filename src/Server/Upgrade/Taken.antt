-- ===== src/Server/Upgrade/Taken.antt =====
-- server/session.go and server/server.go: the loop over a connection's frames against a specification.
use wstester.Prelude.{
  ℕ, zero, suc, ◌-◌, ◌<◌, ◌≤◌, ◌++◌, ◌≡◌, refl, sym, ap, ap₂, ◌∙◌, length-append, if_intro,
  before_colon, contains, codes, text_eqb, text_eq, Bool, true, false, Option, none, some, List, [],
  ◌∷◌, arith, length, Text, lookup, nat_eq, Option-cases, inl, inr,
}
use mathlib.Core.List.{append-nil, append_assoc}
use wstester.Heartbeat.{HeartBeat}
use wstester.Server.Subscribe.{Serving, Reply, answer, known, handle_subscribe, close_session}
use wstester.Server.Upgrade.{
  Frame, broken, frame, Received, message, read_error, waiting, hung, blocked_at, sending,
  handle_request, heartbeat_of, read_message, Request, Conversation, Ended, reading, closed,
  subscribed_to, handle_message, with_beats, ws_loop,
}

-- Is there a read error?
abbrev pub breaks : List Frame → Bool
breaks [] = false
breaks (broken ∷ frames) = true
breaks (frame text ∷ frames) = breaks frames

-- The heartbeats before the first read error.
abbrev pub beats_in : List Frame → List HeartBeat
beats_in [] = []
beats_in (broken ∷ frames) = []
beats_in (frame text ∷ frames) =
    let rest = beats_in frames in elim (heartbeat_of text) [ some beat ↦ beat ∷ rest | none ↦ rest ]

read_message-beat :
    (n : ℕ) (text : Text) (frames : List Frame) (beat : HeartBeat)
    → heartbeat_of text ≡ some beat
    → read_message (suc n) (frame text ∷ frames)
      ≡ ((read_message n frames).0, beat ∷ (read_message n frames).1)
unfolding read_message
read_message-beat n text frames beat e = rw (e, read_message)

read_message-plain :
    (n : ℕ) (text : Text) (frames : List Frame)
    → heartbeat_of text ≡ none
    → read_message n (frame text ∷ frames) ≡ (message text frames, [])
unfolding read_message
read_message-plain zero text frames e = rw (e, read_message)
read_message-plain (suc n) text frames e = rw (e, read_message)

module _ {S A : Type 0} (decode : Text → Option Request) where
  -- The specification: frame by frame, up to the first error.
  abbrev pub taken_in : Conversation S A → List Frame → Conversation S A
  taken_in v [] = v
  taken_in v (broken ∷ frames) = v
  taken_in v (frame text ∷ frames) = elim (heartbeat_of text) [
    | some beat ↦ taken_in (with_beats v (beat ∷ [])) frames
    | none ↦ taken_in (handle_message decode v text) frames
  ]

  abbrev pub outcome : Bool → Conversation S A → Ended S A
  outcome true v = closed v (close_session v.serving)
  outcome false v = reading v

  with_beats-nil : (v : Conversation S A) → with_beats v [] ≡ v
  with_beats-nil v =
      ap₂ (λ bs n. record v { beats = bs; takes = n }) (append-nil v.beats) (omega arith)

  with_beats-cons :
      (v : Conversation S A) (beat : HeartBeat) (beats : List HeartBeat)
      → with_beats v (beat ∷ beats) ≡ with_beats (with_beats v (beat ∷ [])) beats
  with_beats-cons v beat beats =
      ap₂ (λ bs n. record v { beats = bs; takes = n })
        (sym (append_assoc v.beats (beat ∷ []) beats)) (omega arith)

  -- The loop goes on from what a read returns.
  go_on : ℕ → Conversation S A → Received × List HeartBeat → Ended S A
  go_on fuel v (waiting, beats) = reading (with_beats v beats)
  go_on fuel v (hung, beats) = blocked_at (with_beats v beats)
  go_on fuel v (read_error, beats) = closed (with_beats v beats) (close_session v.serving)
  go_on fuel v (message text rest, beats) =
      ws_loop fuel decode (handle_message decode (with_beats v beats) text) rest

  ws_loop-go_on :
      (fuel : ℕ) (v : Conversation S A) (frames : List Frame)
      → sending v ≡ true
      → ws_loop (suc fuel) decode v frames ≡ go_on fuel v (read_message v.takes frames)
  unfolding ws_loop go_on read_message
  ws_loop-go_on fuel v frames room = rw (room, ws_loop) (same (read_message v.takes frames))
    where
      same :
          (r : Received × List HeartBeat)
          → (elim r.0 as (λ x. Ended S A) [
            | waiting ↦ reading (with_beats v r.1)
            | hung ↦ blocked_at (with_beats v r.1)
            | read_error ↦ closed (with_beats v r.1) (close_session v.serving)
            | message text rest ↦
                ws_loop fuel decode (handle_message decode (with_beats v r.1) text) rest
          ])
            ≡ go_on fuel v r
      same (waiting, beats) = refl
      same (hung, beats) = refl
      same (read_error, beats) = refl
      same (message text rest, beats) = refl

  go_on-beat :
      (fuel : ℕ) (v : Conversation S A) (beat : HeartBeat) (r : Received × List HeartBeat)
      → go_on fuel v (r.0, beat ∷ r.1) ≡ go_on fuel (with_beats v (beat ∷ [])) r
  unfolding go_on
  go_on-beat fuel v beat (waiting, beats) = ap reading (with_beats-cons v beat beats)
  go_on-beat fuel v beat (hung, beats) = ap blocked_at (with_beats-cons v beat beats)
  go_on-beat fuel v beat (read_error, beats) =
      ap (λ w. closed w (close_session v.serving)) (with_beats-cons v beat beats)
  go_on-beat fuel v beat (message text rest, beats) =
      ap (λ w. ws_loop fuel decode (handle_message decode w text) rest)
        (with_beats-cons v beat beats)

  -- A conversation whose loops receive as before, and that has as many replies or more.
  Follows : Conversation S A → Conversation S A → Type 0
  Follows v w =
      (w.takes ≡ v.takes)
      × (w.sends ≡ v.sends)
      × (length v.serving.replies ≤ length w.serving.replies)

  handle_subscribe-replies :
      (topics : List Text) (s : Serving S A)
      → length s.replies ≤ length ((handle_subscribe s topics).0.replies)
  unfolding handle_subscribe
  handle_subscribe-replies [] s = omega arith
  handle_subscribe-replies (topic ∷ topics) s =
      let answered : List Reply =
        s.replies ++ answer (known (lookup (before_colon topic) s.names)) topic ∷ [] in
      let more = handle_subscribe-replies topics (record s { replies = answered }) in
      let longer =
        length-append s.replies (answer (known (lookup (before_colon topic) s.names)) topic ∷ []) in
      omega (arith, more, longer)

  subscribed_to-Follows :
      (v : Conversation S A) (args : List Text) → Follows v (subscribed_to v args)
  unfolding Follows subscribed_to
  subscribed_to-Follows v args = (refl, refl, handle_subscribe-replies args v.serving)

  handle_message-Follows :
      (v : Conversation S A) (text : Text) → Follows v (handle_message decode v text)
  unfolding Follows handle_message handle_request
  handle_message-Follows v text =
      if_intro (Follows v) (contains text (codes "\"op\""))
        (λ _.
          elim (decode text)
            as (λ r. Follows v (elim r [ none ↦ v | some req ↦ handle_request v req ])) [
              | none ↦ same
              | some req ↦
                  if_intro (Follows v) (text_eqb req.operation (codes "subscribe"))
                    (λ _. subscribed_to-Follows v req.args) (λ _. same)
            ])
        (λ _. same)
    where
      same : Follows v v
      same = (refl, refl, omega arith)

  taken_in-replies :
      (frames : List Frame) (v : Conversation S A)
      → length v.serving.replies ≤ length ((taken_in v frames).serving.replies)
  unfolding Follows
  taken_in-replies [] v = omega arith
  taken_in-replies (broken ∷ frames) v = omega arith
  taken_in-replies (frame text ∷ frames) v = elim (Option-cases (heartbeat_of text)) [
    | inl plain ↦
        let one = (handle_message-Follows v text).2 in
        let rest = taken_in-replies frames (handle_message decode v text) in
        rw (plain, taken_in) (omega (arith, one, rest))
    | inr (beat, e) ↦ rw (e, taken_in) (taken_in-replies frames (with_beats v (beat ∷ [])))
  ]

  -- Fuel beyond the number of frames is enough, where the session's loops receive what there is.
  pub ws_loop-taken_in :
      (frames : List Frame) (fuel : ℕ) (v : Conversation S A)
      → length frames < fuel
      → length (beats_in frames) ≤ v.takes
      → length ((taken_in v frames).serving.replies) ≤ v.sends
      → ws_loop fuel decode v frames ≡ outcome (breaks frames) (taken_in v frames)
  unfolding go_on read_message Follows
  ws_loop-taken_in frames zero v h taken room = absurd (omega arith)
  ws_loop-taken_in [] (suc fuel) v h taken room =
      ws_loop-go_on fuel v [] (ground arith) ∙ ap reading (with_beats-nil v)
  ws_loop-taken_in (broken ∷ frames) (suc fuel) v h taken room =
      ws_loop-go_on fuel v (broken ∷ frames) (ground arith)
      ∙ ap (λ w. closed w (close_session v.serving)) (with_beats-nil v)
  ws_loop-taken_in (frame text ∷ frames) (suc fuel) v h taken room =
      let few = taken_in-replies (frame text ∷ frames) v in
      elim (Option-cases (heartbeat_of text)) [
        | inl plain ↦
            let (t, s, _) = handle_message-Follows v text in
            ws_loop-go_on fuel v (frame text ∷ frames) (ground arith)
            ∙ ap (go_on fuel v) (read_message-plain v.takes text frames plain)
            ∙ ap (λ w. ws_loop fuel decode (handle_message decode w text) frames) (with_beats-nil v)
            ∙ rw (plain, taken_in)
                (ws_loop-taken_in frames fuel (handle_message decode v text) (omega arith)
                  (ground (arith, t)) (ground (arith, s)))
        | inr (beat, e) ↦
            let some_left : v.takes ≡ suc (v.takes - 1) = ground arith in
            ws_loop-go_on fuel v (frame text ∷ frames) (ground arith)
            ∙ ap (λ n. go_on fuel v (read_message n (frame text ∷ frames))) some_left
            ∙ ap (go_on fuel v) (read_message-beat (v.takes - 1) text frames beat e)
            ∙ go_on-beat fuel v beat (read_message (v.takes - 1) frames)
            ∙ sym (ws_loop-go_on fuel (with_beats v (beat ∷ [])) frames (ground arith))
            ∙ rw (e, taken_in)
                (ws_loop-taken_in frames (suc fuel) (with_beats v (beat ∷ [])) (omega arith)
                  (ground arith) (ground arith))
      ]
