-- ===== src/Server/Upgrade/Loop.antt =====
-- server/server.go: what a connection comes to.
use wstester.Prelude.{
  ℕ, ◌<◌, ◌≤◌, ◌≡◌, ap, ◌∙◌, text_eq, true, Option, none, some, [], done, length, Text, lookup,
  nat_eq,
}
use wstester.Server.{Server, inc_clients, dec_clients, leaving, check_expires, header_args}
use wstester.Server.Clients.{IsLike, dec_clients-inc_clients}
use wstester.Channels.{fed}
use wstester.Server.Subscribe.{Serving, close_session}
use wstester.Server.Upgrade.{
  Request, Conversation, closed, subscribed_to, ws_loop, Connection, ws_upgrader,
}
use wstester.Server.Upgrade.Taken.{breaks, beats_in, taken_in, outcome, ws_loop-taken_in}

module _ {S A : Type 0} (decode : Text → Option Request) where
  module _ (fuel now : ℕ) (server : Server) (serving : Serving S A) (conn : Connection)
      (fresh : check_expires conn.expires now ≡ none) where
    -- What the connection's frames come to.
    abbrev pub talk : Conversation S A
    talk =
        taken_in decode
          (subscribed_to
            (record {
              serving = serving;
              tasks = [];
              beats = [];
              takes = conn.takes;
              sends = conn.sends;
            })
            (header_args conn.query))
          conn.frames

    -- A connection that the handler takes up, of a session whose identity no other has, whose frames end
    -- in a read error, where the session's heartbeat loop and its send loop receive all the heartbeats and
    -- replies before that, and Close returns: with more fuel than there are frames the handler returns. It
    -- has taken the requests in one by one up to the error, the heartbeats between them set apart, has
    -- closed the session, and the server knows and counts the sessions that it did before.
    pub ws_upgrader-returns :
        (left : Serving S A)
        → conn.upgraded ≡ true
        → conn.welcomed ≡ true
        → lookup conn.session.id server.clients ≡ none
        → breaks conn.frames ≡ true
        → length conn.frames < fuel
        → length (beats_in conn.frames) ≤ conn.takes
        → length talk.serving.replies ≤ conn.sends
        → close_session talk.serving ≡ fed left
        → (server' : Server) × (ws_upgrader fuel decode now server serving conn
            ≡ done (server', some (closed talk (fed left))))
          × IsLike server server'
    unfolding ws_upgrader inc_clients
    ws_upgrader-returns left upgraded welcomed new ends enough taken room gone =
        let start =
          subscribed_to
            record {
              serving = serving;
              tasks = [];
              beats = [];
              takes = conn.takes;
              sends = conn.sends;
            }
            (header_args conn.query) in
        let ran : ws_loop fuel decode start conn.frames ≡ closed talk (fed left) =
          ws_loop-taken_in decode conn.frames fuel start enough taken room
          ∙ ap (λ b. outcome decode b talk) ends
          ∙ ap (closed talk) gone in
        (
          dec_clients ((inc_clients true server conn.session).0) (leaving conn.session),
          rw (fresh, upgraded, welcomed, ran, ws_upgrader)
              (ap
                (λ b. done (
                  dec_clients ((inc_clients b server conn.session).0) (leaving conn.session),
                  some (closed talk (fed left)),
                ))
                welcomed),
          (dec_clients-inc_clients server conn.session new).1,
        )
