-- ===== src/Client/Reading.antt =====
-- client/client.go: readMessage, and the loop of messageHandler over what it reads. The frames that the
-- server sends are a list, which ends where no more have come. heartbeatChan has no buffer, and
-- heartbeatHandler, which receives from it, may end before; the context's end is left out.
pub mod Loop
pub mod Intake
use wstester.Prelude.{
  ℕ, zero, suc, ◌+◌, ◌-◌, Bool, true, false, Option, none, some, List, [], ◌∷◌, ◌++◌, if◌then◌else◌,
  length, Text, codes, contains,
}
use wstester.Channels.{Fed, fed, stuck, crashed}
use wstester.Heartbeat.{HeartBeat, ping, pong}
use wstester.Server.Upgrade.{Frame, broken, frame, Received, message, read_error, waiting, hung}
use wstester.Client.{close_handler}
use wstester.Client.Messages.{Decoders, Receiver, handle_message}

-- The client looks for `PongPattern` first.
unfoldable pub beat_of : Text → Option HeartBeat
beat_of text =
    if contains text (codes "pong")
    then some pong
    else if contains text (codes "ping")
    then some ping
    else none

-- `readMessage`: what it returns, and the heartbeats that it hands on before. The number says how many of
-- them heartbeatHandler still receives before it returns; a write of one more waits for ever.
unfoldable pub read_message : ℕ → List Frame → Received × List HeartBeat
unfolding beat_of
read_message takes [] = (waiting, [])
read_message takes (broken ∷ frames) = (read_error, [])
read_message zero (frame text ∷ frames) = elim (beat_of text) [
  | some beat ↦ (hung, [])
  | none ↦ (message text frames, [])
]
read_message (suc takes) (frame text ∷ frames) =
    let (received, beats) = read_message takes frames in
    elim (beat_of text) [ some beat ↦ (received, beat ∷ beats) | none ↦ (message text frames, []) ]

-- The client as it reads. `timer` says how often heartbeatTimer was reset, and is `none` where it is nil;
-- `takes` how many heartbeats heartbeatHandler still receives.
pub record Reader (S A : Type 0) : Type 0 where
  pub receiver : Receiver S A
  pub beats : List HeartBeat
  pub timer : Option ℕ
  pub takes : ℕ

-- How messageHandler stands: it waits for more, has closed the connection, waits for ever to hand on a
-- heartbeat or in a handler, or has panicked.
pub data Progress (S A : Type 0) : Type 0 where
  reading closed beat_stuck : Reader S A → Progress S A
  handler_stuck handler_crashed no_fuel : Progress S A

abbrev pub reset : ℕ → Option ℕ → Option ℕ
reset n none = none
reset n (some count) = some (count + n)

module _ {S A : Type 0} where
  -- After `n` frames that were read, of which `beats` were heartbeats.
  abbrev pub with_read : Reader S A → ℕ → List HeartBeat → Reader S A
  with_read v n beats = record v {
    beats = v.beats ++ beats;
    timer = reset n v.timer;
    takes = v.takes - length beats;
  }

  abbrev pub shut : Reader S A → Reader S A
  shut v = record v { receiver = record v.receiver { client = close_handler v.receiver.client } }

  unfoldable pub message_handler : ℕ → Decoders A → Reader S A → List Frame → Progress S A
  unfolding read_message handle_message
  message_handler zero d v frames = no_fuel
  message_handler (suc fuel) d v frames =
      let (received, beats) = read_message v.takes frames in
      elim received [
        | waiting ↦ reading (with_read v (length beats) beats)
        | hung ↦ beat_stuck (with_read v (length beats + 1) beats)
        | read_error ↦ closed (shut (with_read v (length beats) beats))
        | message text rest ↦
            let v' = with_read v (length beats + 1) beats in
            elim (handle_message d v'.receiver text) [
              | fed r ↦ message_handler fuel d (record v' { receiver = r }) rest
              | stuck ↦ handler_stuck
              | crashed ↦ handler_crashed
            ]
      ]
