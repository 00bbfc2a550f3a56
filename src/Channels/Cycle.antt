-- ===== src/Channels/Cycle.antt =====
-- utils/channel.go: the life of a channel, as the sequences of its operations and of its loop's turns.
use wstester.Prelude.{
  ℕ, ◌≡◌, refl, Bool, true, false, not, Option, none, some, List, [], ◌∷◌, if◌then◌else◌, nat_eq,
  Bool-cases, Option-cases, inl, inr, Run, done, panic,
}
use wstester.Channels.{
  Child, ChannelInput, RspChannel, Sent, sent, refused, blocked, broken, Fed, fed, stuck, crashed,
  publish_data, publish_data_to_destination, publish_data_to_sub_chan, retrive_data,
  shutdown_retrive, connect, disconnect, start, close, handle, enqueue,
}
use wstester.Channels.Dispatch.{all_open}
use wstester.Channels.Safe.{Safe, has_source}

-- The operations of the interface Channel, and a turn of the loop on the oldest input.
pub data Op {ℓ} (A : Type ℓ) : Type ℓ where
  publishing : A → Op A
  publishing_to publishing_to_sub : A → ℕ → Op A
  retriving shutting disconnecting : ℕ → Op A
  connecting : Child A → ℕ → Op A
  starting closing turning : Op A

-- A ready channel is open and has a source, and an open one has an open source and open destinations only.
pub record IsSound {ℓ} {A : Type ℓ} (c : RspChannel A) : Type 0 where
  pub ready : c.is_ready ≡ true → c.is_closed ≡ false
  pub sourced : c.is_ready ≡ true → has_source c ≡ true
  pub live : c.is_closed ≡ false → c.source_closed ≡ false
  pub opened : c.is_closed ≡ false → all_open c.destinations ≡ true

module _ {ℓ} {A : Type ℓ} where
  abbrev pub settled : RspChannel A → Sent (RspChannel A) → Fed (RspChannel A)
  settled c (sent c') = fed c'
  settled c refused = fed c
  settled c blocked = stuck
  settled c broken = crashed

  abbrev pub closed_as : RspChannel A → Run (Option (RspChannel A)) → Fed (RspChannel A)
  closed_as c panic = crashed
  closed_as c (done none) = fed c
  closed_as c (done (some c')) = fed c'

  abbrev pub turned : Fed (RspChannel A × Option Bool) → Fed (RspChannel A)
  turned stuck = stuck
  turned crashed = crashed
  turned (fed (c, reply)) = fed c

  abbrev pub turn : (ℕ → Bool) → RspChannel A → Option (List (ChannelInput A)) → Fed (RspChannel A)
  turn reads c none = fed c
  turn reads c (some []) = fed c
  turn reads c (some (input ∷ inputs)) =
      turned (handle reads (record c { source = some inputs }) input)

  -- The channel after an operation, which an error leaves as it was.
  abbrev pub apply : (ℕ → Bool) → RspChannel A → Op A → Fed (RspChannel A)
  apply reads c (publishing rsp) = settled c (publish_data c rsp)
  apply reads c (publishing_to rsp session) = settled c (publish_data_to_destination c rsp session)
  apply reads c (publishing_to_sub rsp session) = settled c (publish_data_to_sub_chan c rsp session)
  apply reads c (retriving session) = settled c (retrive_data c session)
  apply reads c (shutting session) = settled c (shutdown_retrive c session)
  apply reads c (disconnecting session) = settled c (disconnect c session)
  apply reads c (connecting child session) = settled c (connect c child session)
  apply reads c starting = elim (start c) [ none ↦ fed c | some c' ↦ fed c' ]
  apply reads c closing = closed_as c (close c)
  apply reads c turning = turn reads c c.source

  -- The loop has ended when the channel is closed.
  abbrev pub allowed : RspChannel A → Op A → Bool
  allowed c turning = not c.is_closed
  allowed c _ = true

  enqueue-IsSound :
      (c : RspChannel A) (input : ChannelInput A)
      → IsSound c
      → c.is_closed ≡ false
      → Safe (settled c (enqueue c input)) IsSound
  enqueue-IsSound c input h is_open = elim (Option-cases c.source) [
    | inl empty ↦ rw empty tt
    | inr (inputs, full) ↦
        rw (full, h.live is_open)
          record { ready = h.ready; sourced = λ _. refl; live = λ _. refl; opened = h.opened }
  ]

  queue-by :
      (c : RspChannel A) (input : ChannelInput A) (b : Bool)
      → c.is_closed ≡ b
      → IsSound c
      → Safe (settled c (if b then refused else enqueue c input)) IsSound
  queue-by c input true e h = h
  queue-by c input false e h = enqueue-IsSound c input h e

  pub queue-IsSound :
      (c : RspChannel A) (input : ChannelInput A)
      → IsSound c
      → Safe (settled c (if c.is_closed then refused else enqueue c input)) IsSound
  queue-IsSound c input h = queue-by c input c.is_closed refl h

  pass-by :
      (c : RspChannel A) (input : ChannelInput A) (b : Bool)
      → c.is_closed ≡ b
      → IsSound c
      → Safe (settled c (if b then sent c else enqueue c input)) IsSound
  pass-by c input true e h = h
  pass-by c input false e h = enqueue-IsSound c input h e

  pub pass-IsSound :
      (c : RspChannel A) (input : ChannelInput A)
      → IsSound c
      → Safe (settled c (if c.is_closed then sent c else enqueue c input)) IsSound
  pass-IsSound c input h = pass-by c input c.is_closed refl h

  pub started-IsSound :
      (c : RspChannel A)
      → IsSound c
      → Safe (elim (start c) [ none ↦ fed c | some c' ↦ fed c' ]) IsSound
  unfolding start
  started-IsSound c h = elim (Bool-cases c.is_ready) [
    | inl is_ready ↦ rw (is_ready, start) h
    | inr idle ↦ elim (Bool-cases c.is_closed) [
      | inl shut ↦ rw (idle, shut, start) h
      | inr live ↦ elim (Option-cases c.source) [
        | inl e ↦
            rw (idle, live, e, start)
              record {
                ready = λ _. refl;
                sourced = λ _. refl;
                live = λ _. h.live live;
                opened = λ _. h.opened live;
              }
        | inr (inputs, e) ↦
            rw (idle, live, e, start)
              record {
                ready = λ _. refl;
                sourced = λ _. refl;
                live = λ _. h.live live;
                opened = λ _. h.opened live;
              }
      ]
    ]
  ]
