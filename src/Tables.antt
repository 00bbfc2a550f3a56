-- ===== src/Tables.antt =====
-- utils/cache.go: what the three caches share, tableCache. `S` is the state of the cache that embeds it,
-- `A` the type of its responses; `snapshotFn` and `handleInputFn` are operations of an interface.
pub mod Cycle
pub mod Trades
pub mod Made
use wstester.Prelude.{
  ℕ, ◌+◌, Bool, true, false, not, ◌&&◌, ◌||◌, Option, none, some, List, [], ◌∷◌, ◌++◌, Run, done,
  panic, ◌>>=◌, deref, ltb, if◌then◌else◌, lookup, put, nat_eq,
}
use wstester.Channels.{
  RspChannel, Sent, sent, refused, blocked, broken, Fed, fed, stuck, crashed, start, close,
  publish_data_to_destination, publish_data,
}

pub data ChannelType : Type 0 where
  realtime snapshot tick : ChannelType

-- The channels of one type, by depth; a group that no one made is nil.
abbrev pub Group : Type 0 → Type 0
Group A = Option (List (ℕ × RspChannel A))

-- An input of the pipeline: nil, a message, that is one of the cache's own table, nil or one of another
-- table, or the breakpoint that TakeSnapshot makes, with the depth and, where it publishes, the depth of a
-- realtime channel and the session on it.
pub data CacheInput (A : Type 0) : Type 0 where
  nil_input : CacheInput A
  message : A → CacheInput A
  nil_message other_message : CacheInput A
  breakpoint : ℕ → Option (ℕ × ℕ) → CacheInput A

-- What a cache gives to tableCache: its snapshot, and what its handleInput does with a message: the state
-- after it, and what is published on which depth of the realtime channels. `nil_panics` says whether it
-- calls a method of a nil message as it logs it.
pub record CacheOps (S A : Type 0) : Type 0 where
  pub take : S → ℕ → A
  pub change : S → A → Run (S × List (ℕ × A))
  pub nil_panics : Bool

pub record TableCache (S A : Type 0) : Type 0 where
  pub state : S
  pub realtime : Group A
  pub snapshot : Group A
  pub tick : Group A
  pub pipeline : List (CacheInput A)
  pub pipeline_closed : Bool
  pub is_ready : Bool
  pub is_closed : Bool

module _ {A : Type 0} where
  -- `rspChan.Start()`, whose error is ignored.
  abbrev pub started : RspChannel A → RspChannel A
  started ch = elim (start ch) [ none ↦ ch | some ch' ↦ ch' ]

  abbrev pub start_all : List (ℕ × RspChannel A) → List (ℕ × RspChannel A)
  start_all [] = []
  start_all ((depth, ch) ∷ chs) = (depth, started ch) ∷ start_all chs

  abbrev pub start_group : Group A → Group A
  start_group none = none
  start_group (some chs) = some (start_all chs)

  -- `rspChan.Close()`, whose error is ignored.
  abbrev pub after_close : RspChannel A → Option (RspChannel A) → RspChannel A
  after_close ch none = ch
  after_close ch (some ch') = ch'

  unfoldable pub close_all : List (ℕ × RspChannel A) → Run (List (ℕ × RspChannel A))
  close_all [] = done []
  close_all ((depth, ch) ∷ chs) =
      close ch >>= λ closed. close_all chs >>= λ rest. done ((depth, after_close ch closed) ∷ rest)

  unfoldable pub close_group : Group A → Run (Group A)
  unfolding close_all
  close_group none = done none
  close_group (some chs) = close_all chs >>= λ chs'. done (some chs')

  -- The channels after a write to the one at a depth: an error is ignored, a channel without a source
  -- takes the writer for ever, a closed source panics.
  abbrev pub written : List (ℕ × RspChannel A) → ℕ → Sent (RspChannel A) → Fed (Group A)
  written chs depth (sent ch) = fed (some (put depth ch chs))
  written chs depth refused = fed (some chs)
  written chs depth blocked = stuck
  written chs depth broken = crashed

  -- A nil channel panics.
  abbrev pub on_depth : Group A → ℕ → (RspChannel A → Sent (RspChannel A)) → Fed (Group A)
  on_depth none depth f = crashed
  on_depth (some chs) depth f = elim (lookup depth chs) [
    | none ↦ crashed
    | some ch ↦ written chs depth (f ch)
  ]

  abbrev pub publish_all : Group A → List (ℕ × A) → Fed (Group A)
  publish_all g [] = fed g
  publish_all g ((depth, rsp) ∷ rsps) = elim (on_depth g depth (λ ch. publish_data ch rsp)) [
    | fed g' ↦ publish_all g' rsps
    | stuck ↦ stuck
    | crashed ↦ crashed
  ]

module _ {S A : Type 0} where
  abbrev pub group : TableCache S A → ChannelType → Group A
  group c realtime = c.realtime
  group c snapshot = c.snapshot
  group c tick = c.tick

  abbrev pub all_started : TableCache S A → TableCache S A
  all_started c = record c {
    realtime = start_group c.realtime;
    snapshot = start_group c.snapshot;
    tick = start_group c.tick;
    is_ready = true;
    is_closed = false;
  }

  -- `Start`; `none` is an error.
  unfoldable pub start_cache : TableCache S A → Option (TableCache S A)
  start_cache c = if c.is_ready then none else if c.is_closed then none else some (all_started c)

  -- `Stop`; `none` is an error.
  unfoldable pub stop_cache : TableCache S A → Run (Option (TableCache S A))
  unfolding close_group
  stop_cache c =
      if c.is_closed
      then done none
      else if not c.is_ready
      then done none
      else (close_group c.realtime >>= λ realtime'. close_group c.snapshot >>= λ snapshot'.
          close_group c.tick >>= λ tick'. done (
            some (record c {
              realtime = realtime';
              snapshot = snapshot';
              tick = tick';
              pipeline_closed = true;
              is_ready = false;
              is_closed = true;
            })))

  -- `Append`: writing to the closed pipeline panics.
  unfoldable pub append : TableCache S A → CacheInput A → Run (TableCache S A)
  append c input =
      if c.pipeline_closed then panic else done (record c { pipeline = c.pipeline ++ input ∷ [] })

  -- `GetRspChannel`; a depth below one stands for zero, and is zero here.
  unfoldable pub get_rsp_channel : TableCache S A → ChannelType → ℕ → Option (RspChannel A)
  get_rsp_channel c ch_type depth = elim (group c ch_type) [
    | none ↦ none
    | some chs ↦ lookup depth chs
  ]

  -- `GetDefaultChannel`; on a cache that is not ready it waits.
  unfoldable pub get_default_channel : TableCache S A → Sent (Option (RspChannel A))
  unfolding get_rsp_channel
  get_default_channel c =
      if c.is_closed
      then sent none
      else if not c.is_ready
      then blocked
      else sent (get_rsp_channel c realtime 0)

  abbrev pub replaced :
      TableCache S A → S → Option A → Fed (Group A) → Fed (TableCache S A × Option A)
  replaced c state snap (fed g) = fed (record c { state = state; realtime = g }, snap)
  replaced c state snap stuck = stuck
  replaced c state snap crashed = crashed

  -- One turn of Start's loop: the cache, and the snapshot that a breakpoint hands to its caller.
  unfoldable pub handle_input :
      CacheOps S A → TableCache S A → CacheInput A → Fed (TableCache S A × Option A)
  handle_input ops c nil_input = fed (c, none)
  handle_input ops c (message rsp) = elim (ops.change c.state rsp) [
    | panic ↦ crashed
    | done (state', published) ↦ replaced c state' none (publish_all c.realtime published)
  ]
  handle_input ops c nil_message = if ops.nil_panics then crashed else fed (c, none)
  handle_input ops c other_message = fed (c, none)
  handle_input ops c (breakpoint depth none) = fed (c, some (ops.take c.state depth))
  handle_input ops c (breakpoint depth (some (on, session))) =
      let snap = ops.take c.state depth in
      replaced c c.state (some snap)
        (on_depth c.realtime on (λ ch. publish_data_to_destination ch snap session))

  -- A snapshot is handed out before those of the inputs that follow.
  abbrev pub handed : Option A → Fed (TableCache S A × List A) → Fed (TableCache S A × List A)
  handed none m = m
  handed (some snap) (fed (c, snaps)) = fed (c, snap ∷ snaps)
  handed (some snap) stuck = stuck
  handed (some snap) crashed = crashed

  -- The loop over inputs that come one after another, and the snapshots that it hands out.
  unfoldable pub run :
      CacheOps S A → TableCache S A → List (CacheInput A) → Fed (TableCache S A × List A)
  unfolding handle_input
  run ops c [] = fed (c, [])
  run ops c (input ∷ inputs) = elim (handle_input ops c input) [
    | fed (c', snap) ↦ handed snap (run ops c' inputs)
    | stuck ↦ stuck
    | crashed ↦ crashed
  ]
