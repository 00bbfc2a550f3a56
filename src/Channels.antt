-- ===== src/Channels.antt =====
-- utils/channel.go: the channels that hand responses on to clients and to child channels.
-- `A` is the type of a response. Sessions, which the source draws from a UUID generator, are numbers
-- that the caller of an operation supplies. A queue that is full delays its writer; only a destination's
-- is bounded here, since only there the code gives up.
pub mod Dispatch
pub mod Safe
pub mod Cycle
pub mod Life
use wstester.Prelude.{
  ℕ, ◌+◌, Bool, true, false, not, ◌&&◌, ◌||◌, Option, none, some, List, [], ◌∷◌, ◌++◌, Run, done,
  panic, ◌>>=◌, length, ltb, ◌==◌, if◌then◌else◌, lookup, put, erase, nat_eq,
}

-- A destination: what its reader has not read yet, at most 1000 responses.
pub record Dest {ℓ} (A : Type ℓ) : Type ℓ where
  pub unread : List A
  pub closed : Bool

abbrev pub dest_capacity : ℕ
dest_capacity = 1000

-- A child channel, as far as its parent's calls of PublishData and Close read and write it; a nil
-- source is `none`.
pub record Child {ℓ} (A : Type ℓ) : Type ℓ where
  pub source : Option (List A)
  pub is_ready : Bool
  pub is_closed : Bool

-- The inputs of a channel: a response, with the destination or the child it is for if it is not for
-- all, and the four breakpoints.
pub data ChannelInput {ℓ} (A : Type ℓ) : Type ℓ where
  nil_input : ChannelInput A
  response : Option ℕ → Option ℕ → A → ChannelInput A
  add_destination remove_destination : ℕ → ChannelInput A
  add_child : ℕ → Child A → ChannelInput A
  remove_child : ℕ → ChannelInput A

pub record RspChannel {ℓ} (A : Type ℓ) : Type ℓ where
  pub source : Option (List (ChannelInput A))
  pub destinations : List (ℕ × Option (Dest A))
  pub children : List (ℕ × Child A)
  pub source_closed : Bool
  pub is_ready : Bool
  pub is_closed : Bool

-- What a sender meets: its input is queued, it gets an error, it waits for ever on a nil source, or it
-- panics on a closed one.
pub data Sent {ℓ} (S : Type ℓ) : Type ℓ where
  sent : S → Sent S
  refused blocked broken : Sent S

module _ {ℓ} {A : Type ℓ} where
  -- `c.source <- input`
  abbrev pub enqueue : RspChannel A → ChannelInput A → Sent (RspChannel A)
  enqueue c input = elim c.source [
    | none ↦ blocked
    | some inputs ↦
        if c.source_closed then broken else sent (record c { source = some (inputs ++ input ∷ []) })
  ]

  unfoldable pub publish_data : RspChannel A → A → Sent (RspChannel A)
  publish_data c rsp = if c.is_closed then refused else enqueue c (response none none rsp)

  unfoldable pub publish_data_to_destination : RspChannel A → A → ℕ → Sent (RspChannel A)
  publish_data_to_destination c rsp session =
      if c.is_closed then refused else enqueue c (response (some session) none rsp)

  unfoldable pub publish_data_to_sub_chan : RspChannel A → A → ℕ → Sent (RspChannel A)
  publish_data_to_sub_chan c rsp session =
      if c.is_closed then refused else enqueue c (response none (some session) rsp)

  unfoldable pub retrive_data : RspChannel A → ℕ → Sent (RspChannel A)
  retrive_data c session = if c.is_closed then refused else enqueue c (add_destination session)

  -- On a closed channel these two report no error.
  unfoldable pub shutdown_retrive : RspChannel A → ℕ → Sent (RspChannel A)
  shutdown_retrive c session =
      if c.is_closed then sent c else enqueue c (remove_destination session)

  unfoldable pub disconnect : RspChannel A → ℕ → Sent (RspChannel A)
  disconnect c session = if c.is_closed then sent c else enqueue c (remove_child session)

  unfoldable pub start : RspChannel A → Option (RspChannel A)
  start c =
      if c.is_ready
      then none
      else if c.is_closed
      then none
      else some (record c {
        source = elim c.source [ none ↦ some [] | some inputs ↦ some inputs ];
        is_closed = false;
        is_ready = true;
      })

  -- `Connect`, which starts the channel if need be, and ignores what Start says.
  unfoldable pub connect : RspChannel A → Child A → ℕ → Sent (RspChannel A)
  unfolding start
  connect c child session =
      let started = if c.is_ready then c else elim (start c) [ none ↦ c | some c' ↦ c' ] in
      if c.is_closed then refused else enqueue started (add_child session child)

  -- Closing a nil channel, or one that is closed already, panics.
  unfoldable pub close_all : List (ℕ × Option (Dest A)) → Run (List (ℕ × Option (Dest A)))
  close_all [] = done []
  close_all ((session, none) ∷ dests) = panic
  close_all ((session, some dest) ∷ dests) = close_all dests >>= λ rest.
      if dest.closed then panic else done ((session, some (record dest { closed = true })) ∷ rest)

  -- `Close`; `none` is an error.
  unfoldable pub close : RspChannel A → Run (Option (RspChannel A))
  unfolding close_all
  close c =
      if not c.is_ready
      then done none
      else if c.is_closed
      then done none
      else (close_all c.destinations >>= λ dests. done (
          some (record c {
            destinations = dests;
            source_closed = true;
            is_ready = false;
            is_closed = true;
          })))

  -- PublishData and Close of a child; `none` is an error.
  abbrev pub child_publish : Child A → A → Sent (Child A)
  child_publish child rsp = if child.is_closed then refused else elim child.source [
    | none ↦ blocked
    | some inputs ↦ sent (record child { source = some (inputs ++ rsp ∷ []) })
  ]

  abbrev pub child_close : Child A → Child A
  child_close child =
      if not child.is_ready || child.is_closed
      then child
      else record child { is_ready = false; is_closed = true }

-- The write timer of one dispatch: it has not fired, or it has and its channel is drained.
pub data Timer : Type 0 where
  armed spent : Timer

-- What a dispatch comes to: what it leaves, a wait that never ends, or a panic (a write to or a close
-- of a channel that is nil or closed).
pub data Fed {ℓ} (S : Type ℓ) : Type ℓ where
  fed : S → Fed S
  stuck crashed : Fed S

module _ {ℓ} {A : Type ℓ} (reads : ℕ → Bool) where
  -- Can the response be written before the timer fires: there is room, or the reader makes some.
  -- `reads` says which readers do; one that does not never reads again.
  abbrev pub accepts : ℕ → Dest A → Bool
  accepts session dest = ltb (length dest.unread) dest_capacity || reads session

  abbrev pub delivered : Dest A → A → Dest A
  delivered dest rsp = record dest { unread = dest.unread ++ rsp ∷ [] }

  -- One destination: what stays of it, and the timer. A successful write resets the timer. The new
  -- timer that is made after a timeout is assigned to the closure's parameter: the loop keeps the spent
  -- one, and a write that finds no reader then waits on it for ever.
  abbrev pub feed_dest : ℕ → Option (Dest A) → A → Timer → Fed (Option (Option (Dest A)) × Timer)
  feed_dest session none rsp timer = fed (none, timer)
  feed_dest session (some dest) rsp timer =
      if dest.closed
      then crashed
      else if accepts session dest
      then fed (some (some (delivered dest rsp)), armed)
      else elim timer [ armed ↦ fed (none, spent) | spent ↦ stuck ]

  abbrev pub kept :
      ℕ → Option (Option (Dest A)) → List (ℕ × Option (Dest A)) → List (ℕ × Option (Dest A))
  kept session none rest = rest
  kept session (some dest) rest = (session, dest) ∷ rest

  -- The loop over all destinations, without those that are to be deleted afterwards.
  unfoldable pub feed_all :
      List (ℕ × Option (Dest A)) → A → Timer → Fed (List (ℕ × Option (Dest A)))
  feed_all [] rsp timer = fed []
  feed_all ((session, dest) ∷ dests) rsp timer = elim (feed_dest session dest rsp timer) [
    | stuck ↦ stuck
    | crashed ↦ crashed
    | fed (stays, timer') ↦ elim (feed_all dests rsp timer') [
      | stuck ↦ stuck
      | crashed ↦ crashed
      | fed rest ↦ fed (kept session stays rest)
    ]
  ]

  -- `dispatchDistinations`
  unfoldable pub dispatch_destinations :
      List (ℕ × Option (Dest A)) → Option ℕ → A → Fed (List (ℕ × Option (Dest A)))
  unfolding feed_all
  dispatch_destinations dests none rsp = feed_all dests rsp armed
  dispatch_destinations dests (some session) rsp = elim (lookup session dests) [
    | none ↦ fed dests
    | some dest ↦ elim (feed_dest session dest rsp armed) [
      | stuck ↦ stuck
      | crashed ↦ crashed
      | fed (none, timer) ↦ fed (erase session dests)
      | fed (some dest', timer) ↦ fed (put session dest' dests)
    ]
  ]

module _ {ℓ} {A : Type ℓ} where
  -- `dispatchSubChannels`: a child that refuses is closed and deleted.
  unfoldable pub feed_children : List (ℕ × Child A) → A → Fed (List (ℕ × Child A))
  feed_children [] rsp = fed []
  feed_children ((session, child) ∷ children) rsp = elim (child_publish child rsp) [
    | blocked ↦ stuck
    | broken ↦ crashed
    | refused ↦ feed_children children rsp
    | sent child' ↦ elim (feed_children children rsp) [
      | stuck ↦ stuck
      | crashed ↦ crashed
      | fed rest ↦ fed ((session, child') ∷ rest)
    ]
  ]

  unfoldable pub dispatch_sub_channels :
      List (ℕ × Child A) → Option ℕ → A → Fed (List (ℕ × Child A))
  unfolding feed_children
  dispatch_sub_channels children none rsp = feed_children children rsp
  dispatch_sub_channels children (some session) rsp = elim (lookup session children) [
    | none ↦ fed children
    | some child ↦ elim (child_publish child rsp) [
      | blocked ↦ stuck
      | broken ↦ crashed
      | refused ↦ fed (erase session children)
      | sent child' ↦ fed (put session child' children)
    ]
  ]

  abbrev pub new_dest : Dest A
  new_dest = record { unread = []; closed = false }

  -- One turn of Start's loop: the channel, and what a breakpoint replies, which is false for an error.
  unfoldable pub handle :
      (ℕ → Bool) → RspChannel A → ChannelInput A → Fed (RspChannel A × Option Bool)
  unfolding dispatch_destinations dispatch_sub_channels
  handle reads c nil_input = fed (c, none)
  handle reads c (response dst sub rsp) =
      elim (dispatch_destinations reads c.destinations dst rsp) [
        | stuck ↦ stuck
        | crashed ↦ crashed
        | fed dests ↦ elim (dispatch_sub_channels c.children sub rsp) [
          | stuck ↦ stuck
          | crashed ↦ crashed
          | fed children ↦ fed (record c { destinations = dests; children = children }, none)
        ]
      ]
  handle reads c (add_destination session) =
      fed (record c { destinations = put session (some new_dest) c.destinations }, none)
  handle reads c (remove_destination session) = elim (lookup session c.destinations) [
    | none ↦ fed (c, some false)
    | some none ↦ crashed
    | some (some dest) ↦
        if dest.closed
        then crashed
        else fed (record c { destinations = erase session c.destinations }, some true)
  ]
  handle reads c (add_child session child) =
      fed (record c { children = put session child c.children }, none)
  handle reads c (remove_child session) = elim (lookup session c.children) [
    | none ↦ fed (c, some false)
    | some child ↦ fed (record c { children = erase session c.children }, some true)
  ]

  -- The loop of Start over inputs that come one after another.
  unfoldable pub run : (ℕ → Bool) → RspChannel A → List (ChannelInput A) → Fed (RspChannel A)
  unfolding handle
  run reads c [] = fed c
  run reads c (input ∷ inputs) = elim (handle reads c input) [
    | stuck ↦ stuck
    | crashed ↦ crashed
    | fed (c', reply) ↦ run reads c' inputs
  ]
