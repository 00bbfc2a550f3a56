-- ===== src/Client/Reading/Loop.antt =====
-- client/client.go: one round of messageHandler's loop.
use wstester.Prelude.{
  ℕ, zero, suc, ◌+◌, ◌-◌, ◌<◌, ◌≡◌, refl, sym, ap, ap₂, ◌∙◌, Option, none, some, List, [], ◌∷◌,
  arith, length, Text, text_eq,
}
use mathlib.Core.List.{append_assoc}
use wstester.Channels.{fed, stuck, crashed}
use wstester.Heartbeat.{HeartBeat}
use wstester.Server.Upgrade.{Frame, frame, Received, message, read_error, waiting, hung}
use wstester.Client.Messages.{Decoders, handle_message}
use wstester.Client.Reading.{
  Reader, Progress, reading, closed, beat_stuck, handler_stuck, handler_crashed, beat_of,
  read_message, reset, with_read, shut, message_handler,
}

pub reset-reset : (n : ℕ) (t : Option ℕ) → reset (suc n) t ≡ reset n (reset 1 t)
reset-reset n none = refl
reset-reset n (some count) = ap some (omega arith)

read_message-beat :
    (n : ℕ) (text : Text) (frames : List Frame) (beat : HeartBeat)
    → beat_of text ≡ some beat
    → read_message (suc n) (frame text ∷ frames)
      ≡ ((read_message n frames).0, beat ∷ (read_message n frames).1)
unfolding read_message
read_message-beat n text frames beat e = rw (e, read_message)

read_message-plain :
    (n : ℕ) (text : Text) (frames : List Frame)
    → beat_of text ≡ none
    → read_message n (frame text ∷ frames) ≡ (message text frames, [])
unfolding read_message
read_message-plain zero text frames e = rw (e, read_message)
read_message-plain (suc n) text frames e = rw (e, read_message)

module _ {S A : Type 0} (d : Decoders A) where
  with_read-cons :
      (v : Reader S A) (n : ℕ) (beat : HeartBeat) (beats : List HeartBeat)
      → with_read v (suc n) (beat ∷ beats) ≡ with_read (with_read v 1 (beat ∷ [])) n beats
  with_read-cons v n beat beats =
      ap₂ (λ bs t. record v { beats = bs; timer = t; takes = v.takes - suc (length beats) })
        (sym (append_assoc v.beats (beat ∷ []) beats)) (reset-reset n v.timer)
      ∙ ap (λ m. record (with_read (with_read v 1 (beat ∷ [])) n beats) { takes = m }) (omega arith)

  -- The loop goes on from what a read returns.
  unfoldable pub handled : ℕ → Reader S A → List Frame → Text → Progress S A
  handled fuel v rest text = elim (handle_message d v.receiver text) [
    | fed r ↦ message_handler fuel d (record v { receiver = r }) rest
    | stuck ↦ handler_stuck
    | crashed ↦ handler_crashed
  ]

  unfoldable pub go_on : ℕ → Reader S A → Received × List HeartBeat → Progress S A
  go_on fuel v (waiting, beats) = reading (with_read v (length beats) beats)
  go_on fuel v (hung, beats) = beat_stuck (with_read v (length beats + 1) beats)
  go_on fuel v (read_error, beats) = closed (shut (with_read v (length beats) beats))
  go_on fuel v (message text rest, beats) =
      handled fuel (with_read v (length beats + 1) beats) rest text

  pub message_handler-go_on :
      (fuel : ℕ) (v : Reader S A) (frames : List Frame)
      → message_handler (suc fuel) d v frames ≡ go_on fuel v (read_message v.takes frames)
  unfolding message_handler go_on handled
  message_handler-go_on fuel v frames = same (read_message v.takes frames)
    where
      same :
          (r : Received × List HeartBeat)
          → (elim r.0 as (λ x. Progress S A) [
            | waiting ↦ reading (with_read v (length r.1) r.1)
            | hung ↦ beat_stuck (with_read v (length r.1 + 1) r.1)
            | read_error ↦ closed (shut (with_read v (length r.1) r.1))
            | message text rest ↦ elim (handle_message d v.receiver text) as (λ x. Progress S A) [
              | fed r' ↦
                  message_handler fuel d
                    (record (with_read v (length r.1 + 1) r.1) { receiver = r' })
                    rest
              | stuck ↦ handler_stuck
              | crashed ↦ handler_crashed
            ]
          ])
            ≡ go_on fuel v r
      same (waiting, beats) = refl
      same (hung, beats) = refl
      same (read_error, beats) = refl
      same (message text rest, beats) = refl

  go_on-beat :
      (fuel : ℕ) (v : Reader S A) (beat : HeartBeat) (r : Received × List HeartBeat)
      → go_on fuel v (r.0, beat ∷ r.1) ≡ go_on fuel (with_read v 1 (beat ∷ [])) r
  unfolding go_on
  go_on-beat fuel v beat (waiting, beats) = ap reading (with_read-cons v (length beats) beat beats)
  go_on-beat fuel v beat (hung, beats) = ap beat_stuck (
      ap (λ n. with_read v n (beat ∷ beats)) (omega arith)
      ∙ with_read-cons v (length beats + 1) beat beats)
  go_on-beat fuel v beat (read_error, beats) =
      ap (λ v. closed (shut v)) (with_read-cons v (length beats) beat beats)
  go_on-beat fuel v beat (message text rest, beats) =
      ap (λ v. handled fuel v rest text)
        (ap (λ n. with_read v n (beat ∷ beats)) (omega arith)
          ∙ with_read-cons v (length beats + 1) beat beats)

  pub message_handler-beat :
      (fuel : ℕ) (v : Reader S A) (text : Text) (beat : HeartBeat) (frames : List Frame)
      → beat_of text ≡ some beat
      → 0 < v.takes
      → message_handler (suc fuel) d v (frame text ∷ frames)
        ≡ message_handler (suc fuel) d (with_read v 1 (beat ∷ [])) frames
  message_handler-beat fuel v text beat frames e left =
      let some_left : v.takes ≡ suc (v.takes - 1) = ground arith in
      message_handler-go_on fuel v (frame text ∷ frames)
      ∙ ap (λ n. go_on fuel v (read_message n (frame text ∷ frames))) some_left
      ∙ ap (go_on fuel v) (read_message-beat (v.takes - 1) text frames beat e)
      ∙ go_on-beat fuel v beat (read_message (v.takes - 1) frames)
      ∙ sym (message_handler-go_on fuel (with_read v 1 (beat ∷ [])) frames)

  pub message_handler-plain :
      (fuel : ℕ) (v : Reader S A) (text : Text) (frames : List Frame)
      → beat_of text ≡ none
      → message_handler (suc fuel) d v (frame text ∷ frames)
        ≡ handled fuel (with_read v 1 []) frames text
  unfolding go_on
  message_handler-plain fuel v text frames e =
      message_handler-go_on fuel v (frame text ∷ frames)
      ∙ ap (go_on fuel v) (read_message-plain v.takes text frames e)
