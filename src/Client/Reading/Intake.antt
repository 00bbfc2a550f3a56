-- ===== src/Client/Reading/Intake.antt =====
-- client/client.go: what the client's frames come to, one after another.
use wstester.Prelude.{
  ℕ, suc, ◌≡◌, Bool, true, false, none, some, List, [], ◌∷◌, ◌++◌, if◌then◌else◌, lookup, Text,
  text_eq,
}
use wstester.Heartbeat.{HeartBeat}
use wstester.Server.Upgrade.{Frame, broken, frame}
use wstester.Client.Messages.{Decoders}
use wstester.Client.Messages.Order.{pipeline_of, is_there, inputs_of}
use wstester.Client.Reading.{Reader, Progress, reading, closed, beat_of, reset, shut}

-- The specification: what the frames before the first error are.
abbrev pub messages_in : List Frame → List Text
messages_in [] = []
messages_in (broken ∷ frames) = []
messages_in (frame text ∷ frames) =
    let rest = messages_in frames in elim (beat_of text) [ some beat ↦ rest | none ↦ text ∷ rest ]

abbrev pub beats_in : List Frame → List HeartBeat
beats_in [] = []
beats_in (broken ∷ frames) = []
beats_in (frame text ∷ frames) =
    let rest = beats_in frames in elim (beat_of text) [ some beat ↦ beat ∷ rest | none ↦ rest ]

abbrev pub intact : List Frame → ℕ
intact [] = 0
intact (broken ∷ frames) = 0
intact (frame text ∷ frames) = suc (intact frames)

module _ {S A : Type 0} (d : Decoders A) where
  abbrev pub outcome : Bool → Reader S A → Progress S A
  outcome true v = closed (shut v)
  outcome false v = reading v

  -- What the client has taken in, after the frames.
  pub record Reads (v : Reader S A) (frames : List Frame) (v' : Reader S A) : Type 0 where
    pub pipeline :
        (name : Text)
        → pipeline_of (lookup name v'.receiver.tables) ≡ (
            if is_there (lookup name v.receiver.tables)
            then pipeline_of (lookup name v.receiver.tables)
              ++ inputs_of d name (messages_in frames)
            else [])
    pub beats : v'.beats ≡ v.beats ++ beats_in frames
    pub timer : v'.timer ≡ reset (intact frames) v.timer
