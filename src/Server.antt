-- ===== src/Server.antt =====
-- server/server.go: the server's clients, and what a subscription asks for. HTTP, the upgrade of a
-- connection and JSON are the environment: a request is given decoded, a welcome with its outcome.
pub mod Clients
pub mod Subscribe
pub mod Upgrade
pub mod Sending
pub mod Args
use wstester.Prelude.{
  ℕ, zero, suc, ◌+◌, ◌-◌, ◌*◌, Bool, true, false, not, ◌&&◌, ◌||◌, Option, none, some, List, [],
  ◌∷◌, ◌++◌, leb, ltb, ◌==◌, if◌then◌else◌, lookup, put, erase, nat_eq, ℤ, pos, negsuc, Text, codes,
  text_eqb, text_eq, before_colon, split,
}
use wstester.Heartbeat.{up, down}

-- A session of `clients`, by its identity, which NewSession computes from the client's address: two
-- sessions from one address have the same. `connection` tells them apart.
pub record Session : Type 0 where
  pub id : ℕ
  pub connection : ℕ

pub record Server : Type 0 where
  pub clients : List (ℕ × Session)
  pub count : ℤ

-- `incClients`, with the outcome of the welcome message; `none` is a nil session.
unfoldable pub inc_clients : Bool → Server → Session → Server × Option Session
inc_clients welcomed s session =
    if not welcomed
    then (s, none)
    else (record s { clients = put session.id session s.clients; count = up s.count }, some session)

-- What decClients is called with: nil, a session's identity, or a session.
pub data Leaving : Type 0 where
  nobody : Leaving
  by_id : ℕ → Leaving
  leaving : Session → Leaving

abbrev pub removed : Server → Session → Server
removed s session = record s { clients = erase session.id s.clients; count = down s.count }

unfoldable pub dec_clients : Server → Leaving → Server
dec_clients s nobody = s
dec_clients s (by_id id) = elim (lookup id s.clients) [
  | none ↦ s
  | some session ↦ removed s session
]
dec_clients s (leaving session) = removed s session

-- `getReqAuth`'s last test: the time that a request expires at, against the clock. `none` is no error.
unfoldable pub check_expires : ℕ → ℕ → Option ℕ
check_expires api_expires now = if ltb now api_expires then some api_expires else none

-- `getReqSubscribe`'s arguments, from the values that the query has for "subscribe".
unfoldable pub header_args : List Text → List Text
header_args [] = []
header_args (value ∷ values) = split 44 value ++ header_args values
