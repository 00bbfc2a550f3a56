-- ===== src/Examples/Sending.antt =====
-- server/session.go: sendMessageLoop, and models/common.go: Args, at small runs.
use wstester.Prelude.{
  ℕ, ◌≡◌, refl, Bool, true, false, Option, none, List, [], ◌∷◌, ◌++◌, codes, Text, join,
}
use wstester.Server.Args.{unmarshal_json, unmarshal_json-join}
use wstester.Server.Sending.{
  Message, Event, take, see_done, Sender, blocked, json_payload, text_payload, text_message,
  json_message, send_message_loop, write_message,
}
use wstester.Server.Sending.Answers.{Sends, takes, any_failed, send_message_loop-Sends}

abbrev idle : Sender ℕ
idle = record { err = false; written = []; answers = []; is_closed = false; returned = false }

-- A heartbeat, a response that nobody waits for, and an answer that fails.
abbrev three : List (Message ℕ × Bool)
three =
    (text_message (codes "pong") true, true)
    ∷ (json_message 7 false, true)
    ∷ (json_message 8 true, false)
    ∷ []

three-sent : send_message_loop idle (takes three) ≡ record {
  err = true;
  written = text_payload (codes "pong") ∷ json_payload 7 ∷ [];
  answers = false ∷ true ∷ [];
  is_closed = true;
  returned = false;
}
unfolding send_message_loop
three-sent = refl

-- A message without text and object is told the error of the message before it.
abbrev failed_then_empty : List (Event ℕ)
failed_then_empty = take (json_message 8 false) false ∷ take (text_message [] true) true ∷ []

empty-told : (send_message_loop idle failed_then_empty).answers ≡ true ∷ []
unfolding send_message_loop
empty-told = refl

send_message_loop-Sends_example :
    Sends idle three (send_message_loop idle (takes three))
    × (any_failed three ≡ true
        → (msg : Message ℕ) (ok : Bool)
        → write_message (send_message_loop idle (takes three ++ see_done ∷ [])) msg ok ≡ blocked)
send_message_loop-Sends_example = send_message_loop-Sends three idle refl

abbrev no_json : Text → Option (List Text)
no_json input = none

-- "trade,quote"
two_topics :
    unmarshal_json no_json [] (codes "\"trade,quote\"") ≡ (codes "trade" ∷ codes "quote" ∷ [], true)
unfolding unmarshal_json
two_topics = refl

unmarshal_json-join_example :
    unmarshal_json no_json [] (34 ∷ join 44 (codes "trade" ∷ codes "quote" ∷ []) ++ 34 ∷ [])
    ≡ (codes "trade" ∷ codes "quote" ∷ [], true)
unmarshal_json-join_example =
    unmarshal_json-join no_json [] (codes "trade") (codes "quote" ∷ []) refl refl refl
