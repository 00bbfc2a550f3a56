-- ===== src/Channels/Life.antt =====
-- utils/channel.go: the operations of a channel one after another, and Close.
use wstester.Prelude.{
  ℕ, ◌≡◌, refl, Bool, true, false, Option, none, some, List, [], ◌∷◌, ◌++◌, arith, nat_eq,
  Bool-cases, Option-cases, inl, inr, done,
}
use wstester.Channels.{
  Dest, response, RspChannel, sent, crashed, publish_data, close, close_all, handle,
  dispatch_destinations, feed_all,
}
use wstester.Channels.Dispatch.{all_open}
use wstester.Channels.Safe.{Safe}
use wstester.Channels.Cycle.{IsSound, closed_as}

module _ {ℓ} {A : Type ℓ} where
  -- The destinations after Close.
  abbrev pub shut_all : List (ℕ × Option (Dest A)) → List (ℕ × Option (Dest A))
  shut_all [] = []
  shut_all ((session, none) ∷ dests) = (session, none) ∷ shut_all dests
  shut_all ((session, some dest) ∷ dests) =
      (session, some (record dest { closed = true })) ∷ shut_all dests

  close_all-shut_all :
      (dests : List (ℕ × Option (Dest A)))
      → all_open dests ≡ true
      → close_all dests ≡ done (shut_all dests)
  unfolding close_all
  close_all-shut_all [] h = refl
  close_all-shut_all ((session, none) ∷ dests) h = ground arith
  close_all-shut_all ((session, some dest) ∷ dests) h =
      let is_open : dest.closed ≡ false = ground arith in
      rw (close_all-shut_all dests (ground arith), is_open)

  pub close-ready :
      (c : RspChannel A)
      → IsSound c
      → c.is_ready ≡ true
      → close c
        ≡ done (
            some (record c {
              destinations = shut_all c.destinations;
              source_closed = true;
              is_ready = false;
              is_closed = true;
            }))
  unfolding close
  close-ready c h is_ready = rw (
    is_ready,
    h.ready is_ready,
    close_all-shut_all c.destinations (h.opened (h.ready is_ready)),
    close,
  )

  pub close-IsSound : (c : RspChannel A) → IsSound c → Safe (closed_as c (close c)) IsSound
  unfolding close
  close-IsSound c h = elim (Bool-cases c.is_ready) [
    | inl is_ready ↦ rw (close-ready c h is_ready) record {
      ready = λ e. ground arith;
      sourced = λ e. ground arith;
      live = λ e. ground arith;
      opened = λ e. ground arith;
    }
    | inr idle ↦ let refuses : close c ≡ done none = rw (idle, close) in rw refuses h
  ]

  -- On a sound channel that is ready, PublishData is sent, and does not wait for ever.
  pub publish_data-ready :
      (c : RspChannel A) (rsp : A)
      → IsSound c
      → c.is_ready ≡ true
      → (c' : RspChannel A) × (publish_data c rsp ≡ sent c')
  unfolding publish_data
  publish_data-ready c rsp h e =
      let live = h.ready e in
      let sourced = h.sourced e in
      elim (Option-cases c.source) [
        | inl empty ↦ ground arith
        | inr (inputs, full) ↦ (
          record c { source = some (inputs ++ response none none rsp ∷ []) },
          rw (live, full, h.live live),
        )
      ]

  -- On a sound channel that is ready and has a destination, Close returns without a panic; if a response
  -- to all is still queued then, the turn of the loop that takes it up panics.
  pub close-pending :
      (reads : ℕ → Bool) (c : RspChannel A) (session : ℕ) (dest : Dest A)
      (dests : List (ℕ × Option (Dest A))) (rsp : A)
      → IsSound c
      → c.is_ready ≡ true
      → c.destinations ≡ (session, some dest) ∷ dests
      → (c' : RspChannel A) × (close c ≡ done (some c'))
        × (handle reads c' (response none none rsp) ≡ crashed)
  unfolding handle dispatch_destinations feed_all
  close-pending reads c session dest dests rsp h e shape = (
    record c {
      destinations = shut_all c.destinations;
      source_closed = true;
      is_ready = false;
      is_closed = true;
    },
    close-ready c h e,
    rw shape,
  )
