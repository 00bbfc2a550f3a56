-- ===== src/Examples/Messages.antt =====
-- server/session.go and server/server.go: frames and messages at small runs.
use wstester.Prelude.{
  ℕ, ◌≡◌, refl, true, false, [], ◌∷◌, Option, none, some, done, arith, codes, Text, text_eq, pos,
}
use wstester.Server.{header_args, Server, check_expires}
use wstester.Server.Clients.{IsLike}
use wstester.Channels.{fed}
use wstester.Server.Subscribe.{handle_subscribe, Serving, answer, close_session}
use wstester.Server.Upgrade.{
  heartbeat_of, handle_message, broken, frame, Request, Connection, closed, ws_upgrader,
}
use wstester.Server.Upgrade.Loop.{talk, ws_upgrader-returns}

abbrev nothing : Serving ℕ ℕ
nothing = record {
  names = [];
  tables = [];
  replies = [];
  cleanup = none;
  is_closed = false;
  pipeline_answers = λ cache. true;
  channel_answers = λ cache depth. true;
}

abbrev decode : Text → Option Request
decode text = some (record { operation = codes "subscribe"; args = codes "trade" ∷ [] })

abbrev server : Server
server = record { clients = []; count = pos 0 }

abbrev connection : Connection
connection = record {
  session = record { id = 1; connection = 1 };
  expires = 0;
  upgraded = true;
  welcomed = true;
  query = [];
  frames = frame (codes "ping") ∷ frame (codes "{\"op\":\"subscribe\"}") ∷ broken ∷ [];
  takes = 1;
  sends = 1;
}

unexpired : check_expires 0 5 ≡ none
unfolding check_expires
unexpired = refl

-- One topic of an unknown name was asked for.
abbrev answered : Serving ℕ ℕ
answered = record nothing { replies = answer false (codes "trade") ∷ [] }

answered-closed : close_session answered ≡ fed (record answered { is_closed = true })
unfolding close_session
answered-closed = refl

ws_upgrader-returns_example :
    (server' : Server) × (ws_upgrader 4 decode 5 server nothing connection
      ≡ done (
        server',
        some (
            closed
              (talk decode 4 5 server nothing connection unexpired)
              (fed (record answered { is_closed = true }))),
      ))
    × IsLike server server'
unfolding heartbeat_of handle_message handle_subscribe header_args
ws_upgrader-returns_example =
    ws_upgrader-returns decode 4 5 server nothing connection unexpired
      (record answered { is_closed = true }) refl refl refl refl (omega arith) (omega arith)
      (omega arith) answered-closed

abbrev unwelcome : Connection
unwelcome = record connection { welcomed = false }
