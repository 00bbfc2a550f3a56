-- ===== src/Channels/Dispatch.antt =====
-- utils/channel.go: whom a dispatch reaches.
use wstester.Prelude.{
  ℕ, ◌≡◌, refl, Bool, true, false, not, ◌&&◌, Option, none, some, List, [], ◌∷◌, arith,
  if◌then◌else◌, nat_eq, Bool-cases, inl, inr,
}
use wstester.Channels.{
  Dest, Timer, armed, spent, fed, stuck, accepts, delivered, feed_all, dispatch_destinations,
}

abbrev pub is_slow : Timer → Bool
is_slow armed = false
is_slow spent = true

module _ {ℓ} {A : Type ℓ} where
  -- Every destination is there and open.
  abbrev pub all_open : List (ℕ × Option (Dest A)) → Bool
  all_open [] = true
  all_open ((session, none) ∷ dests) = false
  all_open ((session, some dest) ∷ dests) = not dest.closed && all_open dests

  module _ (reads : ℕ → Bool) where
    -- The specification of a broadcast. A destination that accepts gets the response; one that does not
    -- is dropped.
    abbrev pub survivors : List (ℕ × Option (Dest A)) → A → List (ℕ × Option (Dest A))
    survivors [] rsp = []
    survivors ((session, none) ∷ dests) rsp = survivors dests rsp
    survivors ((session, some dest) ∷ dests) rsp =
        if accepts reads session dest
        then (session, some (delivered reads dest rsp)) ∷ survivors dests rsp
        else survivors dests rsp

    -- No two destinations in a row are slow, where one before the first was, or was not.
    abbrev pub separated : Bool → List (ℕ × Option (Dest A)) → Bool
    separated slow [] = true
    separated slow ((session, none) ∷ dests) = separated slow dests
    separated slow ((session, some dest) ∷ dests) =
        if accepts reads session dest
        then separated false dests
        else (not slow && separated true dests)

    pub feed_all-survivors :
        (dests : List (ℕ × Option (Dest A))) (rsp : A) (timer : Timer)
        → all_open dests ≡ true
        → feed_all reads dests rsp timer
          ≡ (if separated (is_slow timer) dests then fed (survivors dests rsp) else stuck)
    unfolding feed_all
    feed_all-survivors [] rsp timer opened = refl
    feed_all-survivors ((session, none) ∷ dests) rsp timer opened = ground arith
    feed_all-survivors ((session, some dest) ∷ dests) rsp timer opened =
        elim (Bool-cases (accepts reads session dest)) [
          | inl fast ↦ elim (Bool-cases (separated false dests)) [
            | inl e ↦ rw (ready, fast, feed_all-survivors dests rsp armed rest, e, feed_all)
            | inr e ↦ rw (ready, fast, feed_all-survivors dests rsp armed rest, e, feed_all)
          ]
          | inr slow ↦ rw (slow, slow_next timer slow (feed_all-survivors dests rsp spent rest))
        ]
      where
        ready : dest.closed ≡ false
        ready = ground (arith, opened)

        rest : all_open dests ≡ true
        rest = ground (arith, opened)

        slow_next :
            (timer : Timer)
            → accepts reads session dest ≡ false
            → feed_all reads dests rsp spent
              ≡ (if separated true dests then fed (survivors dests rsp) else stuck)
            → feed_all reads ((session, some dest) ∷ dests) rsp timer ≡ (
                if not (is_slow timer) && separated true dests
                then fed (survivors dests rsp)
                else stuck)
        slow_next spent slow last = rw (ready, slow, feed_all)
        slow_next armed slow last = elim (Bool-cases (separated true dests)) [
          | inl e ↦ rw (ready, slow, last, e, feed_all)
          | inr e ↦ rw (ready, slow, last, e, feed_all)
        ]

    -- A response to all destinations, each of them open: each that accepts the response, since it has
    -- room or a reader, gets it as its newest, and each that does not is dropped; but where two that do
    -- not accept it follow each other, the dispatch never ends.
    pub dispatch_destinations-survivors :
        (dests : List (ℕ × Option (Dest A))) (rsp : A)
        → all_open dests ≡ true
        → dispatch_destinations reads dests none rsp
          ≡ (if separated false dests then fed (survivors dests rsp) else stuck)
    unfolding dispatch_destinations
    dispatch_destinations-survivors dests rsp opened = feed_all-survivors dests rsp armed opened
