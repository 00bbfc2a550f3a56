-- ===== src/Server/Upgrade.antt =====
-- server/session.go: ReadMessage; server/server.go: wsUpgrader, from the handshake of one connection to
-- its end. The frames that the client sends are a list, which ends where no more have come; JSON is given
-- by a decoder. The server's own exit is left out.
pub mod Taken
pub mod Loop
use wstester.Prelude.{
  ℕ, zero, suc, ◌+◌, ◌-◌, leb, length, Bool, true, false, not, Option, none, some, List, [], ◌∷◌,
  ◌++◌, Run, done, panic, if◌then◌else◌, Text, codes, text_eqb, contains,
}
use wstester.Channels.{Fed, fed, stuck, crashed}
use wstester.Heartbeat.{HeartBeat, ping, pong}
use wstester.Server.{Session, Server, inc_clients, dec_clients, leaving, check_expires, header_args}
use wstester.Server.Subscribe.{Serving, Task, handle_subscribe, close_session}

pub data Frame : Type 0 where
  broken : Frame
  frame : Text → Frame

-- What a read comes to: a message with the frames after it, an error, a wait for more frames, or a wait
-- for ever at a heartbeat that no one takes.
pub data Received : Type 0 where
  message : Text → List Frame → Received
  read_error waiting hung : Received

-- `pingPattern` is looked for first.
unfoldable pub heartbeat_of : Text → Option HeartBeat
heartbeat_of text =
    if contains text (codes "ping")
    then some ping
    else if contains text (codes "pong")
    then some pong
    else none

-- `ReadMessage`: what it returns, and the heartbeats that it hands to the session's loop before. hbChan has
-- no buffer: the number says how many of them heartbeatLoop still receives before it returns, and a write
-- of one more waits for ever.
unfoldable pub read_message : ℕ → List Frame → Received × List HeartBeat
unfolding heartbeat_of
read_message takes [] = (waiting, [])
read_message takes (broken ∷ frames) = (read_error, [])
read_message zero (frame text ∷ frames) = elim (heartbeat_of text) [
  | some beat ↦ (hung, [])
  | none ↦ (message text frames, [])
]
read_message (suc takes) (frame text ∷ frames) =
    let (received, beats) = read_message takes frames in
    elim (heartbeat_of text) [
      | some beat ↦ (received, beat ∷ beats)
      | none ↦ (message text frames, [])
    ]

pub record Request : Type 0 where
  pub operation : Text
  pub args : List Text

-- One client's session, with the goroutines that were started for its topics. `takes` says how many
-- heartbeats its heartbeatLoop still receives, `sends` how many replies its sendMessageLoop receives in all;
-- both loops end by themselves, and their channels have no buffers.
pub record Conversation (S A : Type 0) : Type 0 where
  pub serving : Serving S A
  pub tasks : List Task
  pub beats : List HeartBeat
  pub takes : ℕ
  pub sends : ℕ

-- How the loop of wsUpgrader is left: it waits for more, it has closed the session, with what Close came to,
-- or it waits for ever to hand on a heartbeat or a reply.
pub data Ended (S A : Type 0) : Type 0 where
  reading : Conversation S A → Ended S A
  closed : Conversation S A → Fed (Serving S A) → Ended S A
  blocked_at : Conversation S A → Ended S A
  no_fuel : Ended S A

-- A connection: the session that it gets, the time its request expires, the outcomes of the handshake
-- and of the welcome, the topics in its query, its frames, and what the session's loops receive.
pub record Connection : Type 0 where
  pub session : Session
  pub expires : ℕ
  pub upgraded : Bool
  pub welcomed : Bool
  pub query : List Text
  pub frames : List Frame
  pub takes : ℕ
  pub sends : ℕ

module _ {S A : Type 0} where
  unfoldable pub subscribed_to : Conversation S A → List Text → Conversation S A
  subscribed_to v args =
      let (serving', tasks) = handle_subscribe v.serving args in
      record v { serving = serving'; tasks = v.tasks ++ tasks }

  -- The switch over operations: "auth" is answered by nothing, others are logged.
  unfoldable pub handle_request : Conversation S A → Request → Conversation S A
  unfolding subscribed_to
  handle_request v req =
      if text_eqb req.operation (codes "subscribe") then subscribed_to v req.args else v

  -- A message that does not look like a request, or is none, is logged.
  unfoldable pub handle_message :
      (Text → Option Request) → Conversation S A → Text → Conversation S A
  unfolding handle_request
  handle_message decode v text =
      if contains text (codes "\"op\"")
      then elim (decode text) [ none ↦ v | some req ↦ handle_request v req ]
      else v

  abbrev pub with_beats : Conversation S A → List HeartBeat → Conversation S A
  with_beats v beats = record v { beats = v.beats ++ beats; takes = v.takes - length beats }

  abbrev pub sending : Conversation S A → Bool
  sending v = leb (length v.serving.replies) v.sends

  unfoldable pub ws_loop : ℕ → (Text → Option Request) → Conversation S A → List Frame → Ended S A
  unfolding read_message handle_message
  ws_loop zero decode v frames = no_fuel
  ws_loop (suc fuel) decode v frames =
      let (received, beats) = read_message v.takes frames in
      elim (sending v) [
        | false ↦ blocked_at v
        | true ↦ elim received [
          | waiting ↦ reading (with_beats v beats)
          | hung ↦ blocked_at (with_beats v beats)
          | read_error ↦ closed (with_beats v beats) (close_session v.serving)
          | message text rest ↦
              ws_loop fuel decode (handle_message decode (with_beats v beats) text) rest
        ]
      ]

  -- The deferred decClients runs when the handler returns, which it does once Close has.
  abbrev pub after : Server → Session → Ended S A → Run (Server × Option (Ended S A))
  after server session (closed v (fed left)) =
      done (dec_clients server (leaving session), some (closed v (fed left)))
  after server session (closed v crashed) = panic
  after server session ended = done (server, some ended)

  -- `wsUpgrader`. Without a connection NewSession asks nil for its address; without a welcome the
  -- session is nil, and is asked for its messages. `none` is a refused request.
  unfoldable pub ws_upgrader :
      ℕ
      → (Text → Option Request)
      → ℕ
      → Server
      → Serving S A
      → Connection
      → Run (Server × Option (Ended S A))
  unfolding ws_loop
  ws_upgrader fuel decode now server serving conn = elim (check_expires conn.expires now) [
    | some expired ↦ done (server, none)
    | none ↦
        if not conn.upgraded
        then panic
        else (let (server', client) = inc_clients conn.welcomed server conn.session in
            elim client [
              | none ↦ panic
              | some session ↦
                  let start : Conversation S A = record {
                    serving = serving;
                    tasks = [];
                    beats = [];
                    takes = conn.takes;
                    sends = conn.sends;
                  } in
                  let ended =
                    ws_loop fuel decode (subscribed_to start (header_args conn.query))
                      conn.frames in
                  after server' session ended
            ])
  ]
