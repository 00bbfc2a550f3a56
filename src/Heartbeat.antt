-- ===== src/Heartbeat.antt =====
-- models/heartbeat.go, and the loops that use it: heartbeatHandler of client/client.go and
-- heartbeatLoop of server/session.go. The goroutines that make the pings, and the timers, are the
-- environment: a loop is given the heartbeats in the order in which it takes them.
pub mod Counter
use wstester.Prelude.{
  ℕ, zero, suc, ◌+◌, ◌≡◌, Bool, true, false, not, ◌||◌, ◌&&◌, List, [], ◌∷◌, ◌++◌, ltb, leb,
  if◌then◌else◌, ℤ, pos, negsuc,
}

-- `hbValue`: ping, pong, or any other value, whose type is "Invalid type.".
pub data HeartBeat : Type 0 where
  ping pong invalid : HeartBeat

abbrev pub is_ping : HeartBeat → Bool
is_ping ping = true
is_ping _ = false

abbrev pub is_pong : HeartBeat → Bool
is_pong pong = true
is_pong _ = false

-- A counter and `Value()` of a ping, which is 1, or of a pong, which is -1.
abbrev pub up : ℤ → ℤ
up (pos n) = pos (suc n)
up (negsuc zero) = pos 0
up (negsuc (suc n)) = negsuc n

abbrev pub down : ℤ → ℤ
down (pos (suc n)) = pos n
down (pos zero) = negsuc 0
down (negsuc n) = negsuc (suc n)

-- `counter >= failCount || counter < 0`
abbrev pub mismatch : ℕ → ℤ → Bool
mismatch fail_count (pos n) = leb fail_count n
mismatch fail_count (negsuc n) = true

-- One end of a connection: the counter, what was written (oldest first), and whether it was closed.
pub record Peer : Type 0 where
  pub counter : ℤ
  pub written : List HeartBeat
  pub closed : Bool

abbrev pub close : Peer → Peer
close p = record p { closed = true }

-- The test at the end of the loop's body.
abbrev pub checked : ℕ → Peer → Peer
checked fail_count p = if mismatch fail_count p.counter then close p else p

abbrev pub write : HeartBeat → Peer → Peer
write hb p = record p { written = p.written ++ hb ∷ [] }

-- The client's loop body; `ok` says whether the write succeeds. On an invalid heartbeat it continues
-- without the test.
unfoldable pub client_beat : Bool → ℕ → Bool → Peer → HeartBeat → Peer
client_beat reverse fail_count ok p ping =
    if not ok
    then close p
    else checked fail_count
        (if reverse then write pong p else record (write ping p) { counter = up p.counter })
client_beat reverse fail_count ok p pong =
    checked fail_count (record p { counter = down p.counter })
client_beat reverse fail_count ok p invalid = p

-- The server's, where the reverse setting makes the server the one that pings.
unfoldable pub server_beat : Bool → ℕ → Bool → Peer → HeartBeat → Peer
server_beat reverse fail_count ok p ping =
    if not ok
    then close p
    else checked fail_count
        (if reverse then record (write ping p) { counter = up p.counter } else write pong p)
server_beat reverse fail_count ok p pong =
    checked fail_count (record p { counter = down p.counter })
server_beat reverse fail_count ok p invalid = p

-- The loop over the heartbeats, each with the outcome of its write: it returns once it has closed.
unfoldable pub beat_loop : (Bool → Peer → HeartBeat → Peer) → Peer → List (HeartBeat × Bool) → Peer
beat_loop beat p [] = p
beat_loop beat p ((hb, ok) ∷ beats) =
    let next = beat ok p hb in
    let rest = beat_loop beat next beats in if next.closed then next else rest

abbrev pub new_peer : Peer
new_peer = record { counter = pos 0; written = []; closed = false }
