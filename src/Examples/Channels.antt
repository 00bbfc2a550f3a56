-- ===== src/Examples/Channels.antt =====
-- utils/channel.go, utils/cache.go and the heartbeat loops at small runs.
use wstester.Prelude.{
  ℕ, ◌≡◌, refl, Bool, true, false, List, [], ◌∷◌, arith, Option, none, some, done, panic,
  if◌then◌else◌, nat_eq, Run, ◌==◌,
}
use wstester.Channels.{
  Dest, RspChannel, response, fed, stuck, crashed, close, handle, dispatch_destinations, start,
  sent,
}
use wstester.Channels.Dispatch.{separated, survivors, dispatch_destinations-survivors}
use wstester.Channels.Safe.{Safe}
use wstester.Channels.Cycle.{IsSound}
use wstester.Channels.Life.{close-pending}
use wstester.Tables.{realtime, TableCache, CacheInput, append, get_rsp_channel, get_default_channel}
use wstester.Tables.Made.{
  new_cache, new_trade_cache, new_mbl_cache, new_instrument_cache, new_depth_channel,
}
use wstester.Tables.Made.Ready.{HasReady, new_cache-ready}
use wstester.Heartbeat.{HeartBeat, ping, pong, client_beat, beat_loop, new_peer}
use wstester.Heartbeat.Counter.{Counts, pings, pongs, client_beat-Counts}

abbrev reader : Dest ℕ
reader = record { unread = []; closed = false }

abbrev never : ℕ → Bool
never session = false

abbrev dests : List (ℕ × Option (Dest ℕ))
dests = (1, some reader) ∷ []

abbrev running : RspChannel ℕ
running = record {
  source = some [];
  destinations = dests;
  children = [];
  source_closed = false;
  is_ready = true;
  is_closed = false;
}

running-IsSound : IsSound running
running-IsSound = record {
  ready = λ e. refl;
  sourced = λ e. refl;
  live = λ e. refl;
  opened = λ e. refl;
}

dispatch_destinations-survivors_example :
    dispatch_destinations never dests none 5
    ≡ (if separated never false dests then fed (survivors never dests 5) else stuck)
dispatch_destinations-survivors_example = dispatch_destinations-survivors never dests 5 refl

close-pending_example :
    (c' : RspChannel ℕ) × (close running ≡ done (some c'))
    × (handle never c' (response none none 5) ≡ crashed)
close-pending_example = close-pending never running 1 reader [] 5 running-IsSound refl refl

abbrev idle : RspChannel ℕ
idle = record running { source = none; is_ready = false }

abbrev idle_cache : TableCache ℕ ℕ
idle_cache = record {
  state = 0;
  realtime = some ((0, idle) ∷ []);
  snapshot = none;
  tick = none;
  pipeline = [];
  pipeline_closed = false;
  is_ready = false;
  is_closed = false;
}

abbrev ready_cache : TableCache ℕ ℕ
ready_cache = record idle_cache { realtime = some ((0, running) ∷ []); is_ready = true }

idle_cache-channel : get_rsp_channel idle_cache realtime 0 ≡ some idle
unfolding get_rsp_channel
idle_cache-channel = refl

abbrev beats : List (HeartBeat × Bool)
beats = (ping, true) ∷ (pong, true) ∷ (ping, true) ∷ []

abbrev unanswered : List (HeartBeat × Bool)
unanswered = (ping, true) ∷ (ping, true) ∷ (ping, true) ∷ []

beats-open : (beat_loop (client_beat false 3) new_peer beats).closed ≡ false
unfolding beat_loop client_beat
beats-open = refl

client_beat-Counts_example :
    Counts 3 0 (pings beats) (pongs beats) (beat_loop (client_beat false 3) new_peer beats)
client_beat-Counts_example = client_beat-Counts 3 beats (omega arith) beats-open

abbrev default_ready : {S : Type 0} → Run (TableCache S ℕ) → Bool
default_ready (done c) = elim (get_rsp_channel c realtime 0) [
  | none ↦ false
  | some ch ↦ ch.is_ready
]
default_ready panic = false

new_caches-ready :
    (default_ready (new_trade_cache {T = ℕ}) ≡ true)
    × (default_ready new_mbl_cache ≡ true)
    × (default_ready new_instrument_cache ≡ true)
unfolding new_trade_cache new_mbl_cache new_instrument_cache get_rsp_channel start
new_caches-ready = (refl, refl, refl)

new_cache-ready_example :
    (c : TableCache ℕ ℕ) × (new_cache 0 ≡ done c)
    × HasReady c 0
    × (get_default_channel c ≡ sent (get_rsp_channel c realtime 0))
    × ((input : CacheInput ℕ) → append c input ≡ done (record c { pipeline = input ∷ [] }))
    × ((c' : TableCache ℕ ℕ) × (new_depth_channel c 25 ≡ done (c', true)) × HasReady c' 25)
    × ((depth : ℕ) → (25 == depth) ≡ false → new_depth_channel c depth ≡ panic)
new_cache-ready_example = new_cache-ready 0
