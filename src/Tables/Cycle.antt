-- ===== src/Tables/Cycle.antt =====
-- utils/cache.go: starting, stopping and the order of a pipeline.
use wstester.Prelude.{
  ℕ, ◌≡◌, Bool, true, false, not, ◌&&◌, none, some, List, [], ◌∷◌, lookup, nat_eq, arith,
  Bool-cases, inl, inr, ◌==◌,
}
use wstester.Channels.{RspChannel, start}
use wstester.Channels.Cycle.{IsSound}
use wstester.Tables.{
  ChannelType, realtime, snapshot, tick, Group, TableCache, started, start_all, start_group,
  start_cache, all_started, get_rsp_channel,
}

module _ {A : Type 0} where
  lookup-start_all :
      (depth : ℕ) (chs : List (ℕ × RspChannel A)) (ch : RspChannel A)
      → lookup depth chs ≡ some ch
      → lookup depth (start_all chs) ≡ some (started ch)
  lookup-start_all depth [] ch h = ground arith
  lookup-start_all depth ((d, c) ∷ chs) ch h = elim (Bool-cases (depth == d)) [
    | inl same ↦ let e : c ≡ ch = ground arith in rw (same, e)
    | inr other ↦ rw other (lookup-start_all depth chs ch (ground arith))
  ]

  started-ready : (ch : RspChannel A) → ch.is_closed ≡ false → (started ch).is_ready ≡ true
  unfolding start
  started-ready ch h = elim (Bool-cases ch.is_ready) [
    | inl e ↦ rw (e, start)
    | inr e ↦ rw (e, h, start)
  ]

  lookup-start_group :
      (depth : ℕ) (g : Group A) (ch : RspChannel A)
      → (elim g [ none ↦ none | some chs ↦ lookup depth chs ]) ≡ some ch
      → (elim (start_group g) [ none ↦ none | some chs ↦ lookup depth chs ]) ≡ some (started ch)
  lookup-start_group depth none ch h = ground arith
  lookup-start_group depth (some chs) ch h = lookup-start_all depth chs ch h

  -- Every channel of a group is sound.
  abbrev pub AllSound : List (ℕ × RspChannel A) → Type 0
  AllSound [] = Unit {0}
  AllSound ((depth, ch) ∷ chs) = IsSound ch × AllSound chs

  abbrev pub GroupSound : Group A → Type 0
  GroupSound none = Unit {0}
  GroupSound (some chs) = AllSound chs

  -- No channel of a group takes anything any more.
  abbrev pub all_idle : List (ℕ × RspChannel A) → Bool
  all_idle [] = true
  all_idle ((depth, ch) ∷ chs) = not ch.is_ready && all_idle chs

  abbrev pub group_idle : Group A → Bool
  group_idle none = true
  group_idle (some chs) = all_idle chs

module _ {S A : Type 0} where
  found-started :
      (c : TableCache S A) (t : ChannelType) (depth : ℕ) (ch : RspChannel A)
      → get_rsp_channel c t depth ≡ some ch
      → get_rsp_channel (all_started c) t depth ≡ some (started ch)
  unfolding get_rsp_channel
  found-started c realtime depth ch h = lookup-start_group depth c.realtime ch h
  found-started c snapshot depth ch h = lookup-start_group depth c.snapshot ch h
  found-started c tick depth ch h = lookup-start_group depth c.tick ch h

  -- A cache that is neither ready nor closed, with a channel that is not closed under a type and a depth:
  -- Start succeeds, and then the channel under both is ready.
  pub start_cache-ready :
      (c : TableCache S A) (t : ChannelType) (depth : ℕ) (ch : RspChannel A)
      → c.is_ready ≡ false
      → c.is_closed ≡ false
      → get_rsp_channel c t depth ≡ some ch
      → ch.is_closed ≡ false
      → (c' : TableCache S A) × (start_cache c ≡ some c')
        × ((ch' : RspChannel A) × (get_rsp_channel c' t depth ≡ some ch') × (ch'.is_ready ≡ true))
  unfolding start_cache
  start_cache-ready c t depth ch idle live h e = (
    all_started c,
    rw (idle, live),
    (started ch, found-started c t depth ch h, started-ready ch e),
  )
