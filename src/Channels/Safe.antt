-- ===== src/Channels/Safe.antt =====
-- utils/channel.go: a turn of an open channel's loop does not panic.
use wstester.Prelude.{
  ℕ, ◌≡◌, refl, Bool, true, false, Option, none, some, List, [], ◌∷◌, arith, ◌==◌, lookup, put,
  erase, nat_eq, Bool-cases, Option-cases, inl, inr,
}
use wstester.Channels.{
  Dest, Child, ChannelInput, nil_input, response, add_destination, remove_destination, add_child,
  remove_child, RspChannel, Fed, fed, stuck, crashed, handle, new_dest, accepts,
  dispatch_destinations, feed_children, armed, dispatch_sub_channels,
}
use wstester.Channels.Dispatch.{all_open, survivors, separated, feed_all-survivors}

-- The code does not panic, and what it leaves, if it does not wait for ever, satisfies `P`.
abbrev pub Safe {ℓ} : {S : Type ℓ} → Fed S → (S → Type 0) → Type 0
Safe (fed s) P = P s
Safe stuck P = Unit {0}
Safe crashed P = ⊥

abbrev pub has_source {ℓ} : {A : Type ℓ} → RspChannel A → Bool
has_source c = elim c.source [ none ↦ false | some inputs ↦ true ]

module _ {ℓ} {A : Type ℓ} where
  all_open-put :
      (session : ℕ) (dest : Dest A) (dests : List (ℕ × Option (Dest A)))
      → dest.closed ≡ false
      → all_open dests ≡ true
      → all_open (put session (some dest) dests) ≡ true
  all_open-put session dest [] e h = ground arith
  all_open-put session dest ((s, none) ∷ dests) e h = ground arith
  all_open-put session dest ((s, some d) ∷ dests) e h =
      ground (arith, all_open-put session dest dests e)

  all_open-erase :
      (session : ℕ) (dests : List (ℕ × Option (Dest A)))
      → all_open dests ≡ true
      → all_open (erase session dests) ≡ true
  all_open-erase session [] h = refl
  all_open-erase session ((s, none) ∷ dests) h = ground arith
  all_open-erase session ((s, some d) ∷ dests) h = ground (arith, all_open-erase session dests)

  all_open-lookup :
      (session : ℕ) (dests : List (ℕ × Option (Dest A))) (o : Option (Dest A))
      → all_open dests ≡ true
      → lookup session dests ≡ some o
      → (d : Dest A) × (o ≡ some d) × (d.closed ≡ false)
  all_open-lookup session [] o h e = ground arith
  all_open-lookup session ((s, none) ∷ dests) o h e = ground arith
  all_open-lookup session ((s, some d) ∷ dests) o h e = elim (Bool-cases (session == s)) [
    | inl same ↦ (d, ground arith, ground arith)
    | inr other ↦ all_open-lookup session dests o (ground arith) (ground arith)
  ]

  survivors-all_open :
      (reads : ℕ → Bool) (dests : List (ℕ × Option (Dest A))) (rsp : A)
      → all_open dests ≡ true
      → all_open (survivors reads dests rsp) ≡ true
  survivors-all_open reads [] rsp h = refl
  survivors-all_open reads ((s, none) ∷ dests) rsp h = ground arith
  survivors-all_open reads ((s, some d) ∷ dests) rsp h =
      ground (arith, survivors-all_open reads dests rsp)

  dispatch-Safe :
      (reads : ℕ → Bool) (dests : List (ℕ × Option (Dest A))) (dst : Option ℕ) (rsp : A)
      → all_open dests ≡ true
      → Safe (dispatch_destinations reads dests dst rsp) (λ dests'. all_open dests' ≡ true)
  unfolding dispatch_destinations
  dispatch-Safe reads dests none rsp h = elim (Bool-cases (separated reads false dests)) [
    | inl e ↦
        rw (feed_all-survivors reads dests rsp armed h, e) (survivors-all_open reads dests rsp h)
    | inr e ↦ rw (feed_all-survivors reads dests rsp armed h, e) tt
  ]
  dispatch-Safe reads dests (some session) rsp h = elim (Option-cases (lookup session dests)) [
    | inl missing ↦ rw (missing, dispatch_destinations) h
    | inr (o, found) ↦
        let (d, present, is_open) = all_open-lookup session dests o h found in
        elim (Bool-cases (accepts reads session d)) [
          | inl fast ↦
              rw (found, present, is_open, fast, dispatch_destinations)
                (all_open-put session _ dests refl h)
          | inr slow ↦
              rw (found, present, is_open, slow, dispatch_destinations)
                (all_open-erase session dests h)
        ]
  ]

  cons-Safe :
      (m : Fed (List (ℕ × Child A))) (entry : ℕ × Child A)
      → Safe m (λ _. Unit {0})
      → Safe
          (elim m [ stuck ↦ stuck | crashed ↦ crashed | fed rest ↦ fed (entry ∷ rest) ])
          (λ _. Unit {0})
  cons-Safe (fed rest) entry h = tt
  cons-Safe stuck entry h = tt
  cons-Safe crashed entry h = h

  children-Safe :
      (children : List (ℕ × Child A)) (rsp : A) → Safe (feed_children children rsp) (λ _. Unit {0})
  unfolding feed_children
  children-Safe [] rsp = tt
  children-Safe ((s, child) ∷ children) rsp = elim (Bool-cases child.is_closed) [
    | inl shut ↦ rw (shut, feed_children) (children-Safe children rsp)
    | inr live ↦ elim (Option-cases child.source) [
      | inl e ↦ rw (live, e, feed_children) tt
      | inr (inputs, e) ↦
          rw (live, e, feed_children)
            (cons-Safe (feed_children children rsp) _ (children-Safe children rsp))
    ]
  ]

  sub-Safe :
      (children : List (ℕ × Child A)) (sub : Option ℕ) (rsp : A)
      → Safe (dispatch_sub_channels children sub rsp) (λ _. Unit {0})
  unfolding dispatch_sub_channels
  sub-Safe children none rsp = children-Safe children rsp
  sub-Safe children (some session) rsp = elim (Option-cases (lookup session children)) [
    | inl missing ↦ rw (missing, dispatch_sub_channels) tt
    | inr (child, found) ↦ elim (Bool-cases child.is_closed) [
      | inl shut ↦ rw (found, shut, dispatch_sub_channels) tt
      | inr live ↦ elim (Option-cases child.source) [
        | inl e ↦ rw (found, live, e, dispatch_sub_channels) tt
        | inr (inputs, e) ↦ rw (found, live, e, dispatch_sub_channels) tt
      ]
    ]
  ]

  -- A turn of the loop leaves open destinations, and the rest of the channel's state.
  pub record IsTurned (c c' : RspChannel A) : Type 0 where
    pub opened : all_open c'.destinations ≡ true
    pub sourced : has_source c' ≡ has_source c
    pub ready : c'.is_ready ≡ c.is_ready
    pub source_open : c'.source_closed ≡ c.source_closed
    pub closed : c'.is_closed ≡ c.is_closed

  turned :
      (c : RspChannel A) {dests : List (ℕ × Option (Dest A))} {children : List (ℕ × Child A)}
      → all_open dests ≡ true
      → IsTurned c (record c { destinations = dests; children = children })
  turned c h = record {
    opened = h;
    sourced = refl;
    ready = refl;
    source_open = refl;
    closed = refl;
  }

  dispatched :
      (c : RspChannel A) (m : Fed (List (ℕ × Option (Dest A)))) (n : Fed (List (ℕ × Child A)))
      → Safe m (λ dests. all_open dests ≡ true)
      → Safe n (λ _. Unit {0})
      → Safe {S = RspChannel A × Option Bool}
          (elim m [
            | stuck ↦ stuck
            | crashed ↦ crashed
            | fed dests ↦ elim n [
              | stuck ↦ stuck
              | crashed ↦ crashed
              | fed children ↦ fed ((record c { destinations = dests; children = children }), none)
            ]
          ])
          (λ r. IsTurned c r.0)
  dispatched c (fed dests) (fed children) h k = turned c h
  dispatched c (fed dests) stuck h k = tt
  dispatched c (fed dests) crashed h k = k
  dispatched c stuck n h k = tt
  dispatched c crashed n h k = h

  -- A turn of the loop on any input, where every destination is there and open, does not panic, and
  -- where it ends every destination is still open, and the channel's state and that it has a source are as before.
  pub handle-Safe :
      (reads : ℕ → Bool) (c : RspChannel A) (input : ChannelInput A)
      → all_open c.destinations ≡ true
      → Safe (handle reads c input) (λ r. IsTurned c r.0)
  unfolding handle
  handle-Safe reads c nil_input h = turned c h
  handle-Safe reads c (response dst sub rsp) h =
      dispatched c (dispatch_destinations reads c.destinations dst rsp)
        (dispatch_sub_channels c.children sub rsp) (dispatch-Safe reads c.destinations dst rsp h)
        (sub-Safe c.children sub rsp)
  handle-Safe reads c (add_destination session) h =
      turned c (all_open-put session new_dest c.destinations refl h)
  handle-Safe reads c (remove_destination session) h =
      elim (Option-cases (lookup session c.destinations)) [
        | inl missing ↦ rw (missing, handle) (turned c h)
        | inr (o, found) ↦
            let (d, present, is_open) = all_open-lookup session c.destinations o h found in
            rw (found, present, is_open, handle)
              (turned c (all_open-erase session c.destinations h))
      ]
  handle-Safe reads c (add_child session child) h = turned c h
  handle-Safe reads c (remove_child session) h = elim (Option-cases (lookup session c.children)) [
    | inl missing ↦ rw (missing, handle) (turned c h)
    | inr (child, found) ↦ rw (found, handle) (turned c h)
  ]
