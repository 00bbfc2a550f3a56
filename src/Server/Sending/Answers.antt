-- ===== src/Server/Sending/Answers.antt =====
-- server/session.go: what the messages of a session come to.
use wstester.Prelude.{
  ◌≡◌, refl, sym, ap, subst, ◌∙◌, Bool, true, false, not, ◌||◌, Option, none, some, List, [], ◌∷◌,
  ◌++◌, arith, if◌then◌else◌, inl, inr, Option-cases,
}
use mathlib.Core.List.{append-nil, append_assoc}
use wstester.Server.Sending.{
  Message, Payload, Event, take, see_done, Sender, blocked, payload, attempt, answer, checked,
  take_message, send_message_loop, write_message,
}

abbrev told : Bool → Bool → List Bool
told sync ok = if sync then not ok ∷ [] else []

or_true : (b : Bool) → true ≡ (b || true)
or_true true = refl
or_true false = refl

or_false : (b : Bool) → b ≡ (b || false)
or_false true = refl
or_false false = refl

told-cons :
    (sync ok : Bool) (rest : List Bool)
    → told sync ok ++ rest ≡ (if sync then not ok ∷ rest else rest)
told-cons true ok rest = refl
told-cons false ok rest = refl

or_assoc : (a b c : Bool) → ((a || b) || c) ≡ (a || (b || c))
or_assoc true b c = refl
or_assoc false b c = refl

module _ {J : Type 0} where
  abbrev pub has_content : List (Message J × Bool) → Bool
  has_content [] = true
  has_content ((msg, ok) ∷ rest) = elim (payload msg) [ none ↦ false | some p ↦ has_content rest ]

  abbrev pub takes : List (Message J × Bool) → List (Event J)
  takes [] = []
  takes ((msg, ok) ∷ rest) = take msg ok ∷ takes rest

  -- The specification: what reaches the client, what the writers that wait are told, and whether a write
  -- has failed.
  abbrev pub written_ok : Bool → Option (Payload J) → List (Payload J)
  written_ok true (some p) = p ∷ []
  written_ok _ _ = []

  abbrev pub sent_of : List (Message J × Bool) → List (Payload J)
  sent_of [] = []
  sent_of ((msg, ok) ∷ rest) = written_ok ok (payload msg) ++ sent_of rest

  abbrev pub told_of : List (Message J × Bool) → List Bool
  told_of [] = []
  told_of ((msg, ok) ∷ rest) =
      let told = told_of rest in if msg.is_sync then not ok ∷ told else told

  abbrev pub any_failed : List (Message J × Bool) → Bool
  any_failed [] = false
  any_failed ((msg, ok) ∷ rest) = not ok || any_failed rest

  pub record Sends (s : Sender J) (msgs : List (Message J × Bool)) (s' : Sender J) : Type 0 where
    pub written : s'.written ≡ s.written ++ sent_of msgs
    pub answers : s'.answers ≡ s.answers ++ told_of msgs
    pub is_closed : s'.is_closed ≡ (s.is_closed || any_failed msgs)
    pub returned : s'.returned ≡ s.returned

  -- One message with content.
  record One (s : Sender J) (p : Payload J) (ok sync : Bool) (s' : Sender J) : Type 0 where
    written : s'.written ≡ s.written ++ written_ok ok (some p)
    answers : s'.answers ≡ s.answers ++ told sync ok
    is_closed : s'.is_closed ≡ (s.is_closed || not ok)
    returned : s'.returned ≡ s.returned

  take-One :
      (s : Sender J) (p : Payload J) (ok sync : Bool)
      → One s p ok sync (checked (answer (attempt s (some p) ok) sync))
  take-One s p true true = record {
    written = refl;
    answers = refl;
    is_closed = or_false s.is_closed;
    returned = refl;
  }
  take-One s p true false = record {
    written = refl;
    answers = sym (append-nil s.answers);
    is_closed = or_false s.is_closed;
    returned = refl;
  }
  take-One s p false true = record {
    written = sym (append-nil s.written);
    answers = refl;
    is_closed = or_true s.is_closed;
    returned = refl;
  }
  take-One s p false false = record {
    written = sym (append-nil s.written);
    answers = sym (append-nil s.answers);
    is_closed = or_true s.is_closed;
    returned = refl;
  }

  take_message-One :
      (s : Sender J) (msg : Message J) (ok : Bool) (p : Payload J)
      → payload msg ≡ some p
      → One s p ok msg.is_sync (take_message s msg ok)
  unfolding take_message
  take_message-One s msg ok p e =
      subst (λ o. One s p ok msg.is_sync (checked (answer (attempt s o ok) msg.is_sync))) (sym e)
        (take-One s p ok msg.is_sync)

  cons-Sends :
      (s s1 s2 : Sender J) (msg : Message J) (ok : Bool) (p : Payload J)
      (msgs : List (Message J × Bool))
      → payload msg ≡ some p
      → One s p ok msg.is_sync s1
      → Sends s1 msgs s2
      → Sends s ((msg, ok) ∷ msgs) s2
  cons-Sends s s1 s2 msg ok p msgs e one rest = record {
    written =
        rest.written
        ∙ ap (λ l. l ++ sent_of msgs) one.written
        ∙ append_assoc s.written (written_ok ok (some p)) (sent_of msgs)
        ∙ ap (λ o. s.written ++ (written_ok ok o ++ sent_of msgs)) (sym e);
    answers =
        rest.answers
        ∙ ap (λ l. l ++ told_of msgs) one.answers
        ∙ append_assoc s.answers (told msg.is_sync ok) (told_of msgs)
        ∙ ap (λ l. s.answers ++ l) (told-cons msg.is_sync ok (told_of msgs));
    is_closed =
        rest.is_closed
        ∙ ap (λ b. b || any_failed msgs) one.is_closed
        ∙ or_assoc s.is_closed (not ok) (any_failed msgs);
    returned = rest.returned ∙ one.returned;
  }

  send_message_loop-takes :
      (msgs : List (Message J × Bool)) (s : Sender J)
      → has_content msgs ≡ true
      → Sends s msgs (send_message_loop s (takes msgs))
  unfolding send_message_loop
  send_message_loop-takes [] s h = record {
    written = sym (append-nil s.written);
    answers = sym (append-nil s.answers);
    is_closed = or_false s.is_closed;
    returned = refl;
  }
  send_message_loop-takes ((msg, ok) ∷ msgs) s h = elim (Option-cases (payload msg)) [
    | inl e ↦ ground (arith, e)
    | inr (p, e) ↦
        cons-Sends s (take_message s msg ok)
          (send_message_loop (take_message s msg ok) (takes msgs)) msg ok p msgs e
          (take_message-One s msg ok p e)
          (send_message_loop-takes msgs (take_message s msg ok) (ground (arith, e)))
  ]

  send_message_loop-append :
      (msgs : List (Message J × Bool)) (events : List (Event J)) (s : Sender J)
      → send_message_loop s (takes msgs ++ events)
        ≡ send_message_loop (send_message_loop s (takes msgs)) events
  unfolding send_message_loop
  send_message_loop-append [] events s = refl
  send_message_loop-append ((msg, ok) ∷ msgs) events s =
      send_message_loop-append msgs events (take_message s msg ok)

  write_message-blocked :
      (s : Sender J) (msg : Message J) (ok : Bool)
      → s.is_closed ≡ true
      → write_message (send_message_loop s (see_done ∷ [])) msg ok ≡ blocked
  unfolding send_message_loop write_message
  write_message-blocked s msg ok h = rw h

  -- For any state of the loop, and any messages with a text or an object that it takes: what succeeds is written
  -- in order and once, each writer that waits is told of its own write, and the session is closed if one
  -- fails; once one has failed and the loop has seen its context done, every later write waits for ever.
  pub send_message_loop-Sends :
      (msgs : List (Message J × Bool)) (s : Sender J)
      → has_content msgs ≡ true
      → Sends s msgs (send_message_loop s (takes msgs))
        × (any_failed msgs ≡ true
            → (msg : Message J) (ok : Bool)
            → write_message (send_message_loop s (takes msgs ++ see_done ∷ [])) msg ok ≡ blocked)
  send_message_loop-Sends msgs s h =
      let sends = send_message_loop-takes msgs s h in
      (
        sends,
        λ failed msg ok.
            let s' = send_message_loop s (takes msgs) in
            let shut : s'.is_closed ≡ true = sends.is_closed ∙ ground (arith, failed) in
            ap (λ t. write_message t msg ok) (send_message_loop-append msgs (see_done ∷ []) s)
            ∙ write_message-blocked s' msg ok shut,
      )
