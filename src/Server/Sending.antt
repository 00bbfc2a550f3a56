-- ===== src/Server/Sending.antt =====
-- server/session.go: sendMessageLoop, and the two functions that hand it messages. `J` is the type of what
-- is sent as JSON. The connection gives each write its outcome; where the loop may take a message or see
-- the end of its context, a list of events says which it does.
pub mod Answers
use wstester.Prelude.{
  Bool, true, false, ◌||◌, Option, none, some, List, [], ◌∷◌, ◌++◌, if◌then◌else◌, Text,
}

-- `message`: no text is the empty one.
pub record Message (J : Type 0) : Type 0 where
  pub json : Option J
  pub txt : Text
  pub is_sync : Bool

pub data Payload (J : Type 0) : Type 0 where
  json_payload : J → Payload J
  text_payload : Text → Payload J

-- The loop takes a message, of which the write succeeds or fails, or nil, or sees that its context is done.
pub data Event (J : Type 0) : Type 0 where
  take : Message J → Bool → Event J
  take_nil see_done : Event J

-- The loop: whether `err` holds an error, what was written, and what was answered, `true` for an error;
-- whether the session was closed, and whether the loop has returned.
pub record Sender (J : Type 0) : Type 0 where
  pub err : Bool
  pub written : List (Payload J)
  pub answers : List Bool
  pub is_closed : Bool
  pub returned : Bool

-- What a write comes to: it waits for ever, or returns, with an error or without.
pub data Wrote (J : Type 0) : Type 0 where
  blocked : Wrote J
  wrote : Sender J → Bool → Wrote J

module _ {J : Type 0} where
  abbrev pub text_of : Text → Option (Payload J)
  text_of [] = none
  text_of (n ∷ txt) = some (text_payload (n ∷ txt))

  abbrev pub payload : Message J → Option (Payload J)
  payload msg = elim msg.json [ none ↦ text_of msg.txt | some obj ↦ some (json_payload obj) ]

  -- A message without text and object is not written, and leaves `err` as it was.
  abbrev pub attempt : Sender J → Option (Payload J) → Bool → Sender J
  attempt s none ok = s
  attempt s (some p) true = record s { err = false; written = s.written ++ p ∷ [] }
  attempt s (some p) false = record s { err = true }

  abbrev pub answer : Sender J → Bool → Sender J
  answer s true = record s { answers = s.answers ++ s.err ∷ [] }
  answer s false = s

  abbrev pub checked : Sender J → Sender J
  checked s = if s.err then record s { is_closed = true } else s

  -- `Close` is called for an error that an earlier message left, too.
  unfoldable pub take_message : Sender J → Message J → Bool → Sender J
  take_message s msg ok = checked (answer (attempt s (payload msg) ok) msg.is_sync)

  -- The context is done once the session is closed.
  unfoldable pub send_message_loop : Sender J → List (Event J) → Sender J
  unfolding take_message
  send_message_loop s [] = s
  send_message_loop s (take msg ok ∷ events) = send_message_loop (take_message s msg ok) events
  send_message_loop s (take_nil ∷ events) = record s { returned = true }
  send_message_loop s (see_done ∷ events) =
      let rest = send_message_loop s events in
      if s.is_closed then record s { returned = true } else rest

  -- `WriteTextMessage` and `WriteJSONMessage`: the channel has no buffer, so that a write waits for the
  -- loop; only a synchronous one is given the error.
  unfoldable pub write_message : Sender J → Message J → Bool → Wrote J
  unfolding take_message
  write_message s msg ok =
      if s.returned
      then blocked
      else (let s' = take_message s msg ok in wrote s' (if msg.is_sync then s'.err else false))

  abbrev pub text_message : Text → Bool → Message J
  text_message txt sync = record { json = none; txt = txt; is_sync = sync }

  abbrev pub json_message : J → Bool → Message J
  json_message obj sync = record { json = some obj; txt = []; is_sync = sync }
