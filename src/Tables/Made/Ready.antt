-- ===== src/Tables/Made/Ready.antt =====
-- utils/cache_trade.go, utils/cache_mbl.go and utils/cache_instrument.go: a cache that was just made.
use wstester.Prelude.{
  ℕ, ◌≡◌, refl, true, false, none, some, List, [], ◌∷◌, done, panic, ◌==◌, lookup, put, nat_eq,
  lookup-put,
}
use wstester.Channels.{RspChannel, sent, start}
use wstester.Tables.{
  TableCache, CacheInput, realtime, start_cache, append, get_default_channel, get_rsp_channel,
}
use wstester.Tables.Made.{new_channel, unstarted, new_cache, new_depth_channel}

-- What `start` makes of a new channel.
abbrev pub up_channel : {A : Type 0} → RspChannel A
up_channel = record new_channel { source = some []; is_ready = true }

module _ {S A : Type 0} where
  -- The channel of a depth takes what is published.
  abbrev pub HasReady : TableCache S A → ℕ → Type 0
  HasReady c depth =
      (ch : RspChannel A) × (get_rsp_channel c realtime depth ≡ some ch)
      × (ch.is_ready ≡ true)
      × (ch.source ≡ some [])

  new_depth_channel-25 :
      (c : TableCache S A) (chs : List (ℕ × RspChannel A))
      → c.realtime ≡ some chs
      → (c' : TableCache S A) × (new_depth_channel c 25 ≡ done (c', true)) × HasReady c' 25
  unfolding new_depth_channel start get_rsp_channel
  new_depth_channel-25 c chs h =
      let chs' : List (ℕ × RspChannel A) = put 25 new_channel chs in
      (
        record c { realtime = some (put 25 up_channel chs') },
        rw (h, lookup-put 25 25 new_channel chs),
        (up_channel, lookup-put 25 25 up_channel chs', refl, refl),
      )

  new_depth_channel-panic :
      (c : TableCache S A) (chs : List (ℕ × RspChannel A)) (depth : ℕ)
      → c.realtime ≡ some chs
      → lookup 25 chs ≡ none
      → (25 == depth) ≡ false
      → new_depth_channel c depth ≡ panic
  unfolding new_depth_channel
  new_depth_channel-panic c chs depth h e miss =
      rw (h, lookup-put depth 25 new_channel chs, miss, e)

  -- For any state that a constructor starts from: the cache is made without a panic, its default channel is
  -- there and takes what is published, and its pipeline takes inputs; a channel of depth 25 can be added,
  -- and then takes what is published, but adding one of any other depth first panics.
  pub new_cache-ready :
      (s : S)
      → (c : TableCache S A) × (new_cache s ≡ done c)
        × HasReady c 0
        × (get_default_channel c ≡ sent (get_rsp_channel c realtime 0))
        × ((input : CacheInput A) → append c input ≡ done (record c { pipeline = input ∷ [] }))
        × ((c' : TableCache S A) × (new_depth_channel c 25 ≡ done (c', true)) × HasReady c' 25)
        × ((depth : ℕ) → (25 == depth) ≡ false → new_depth_channel c depth ≡ panic)
  unfolding new_cache start_cache start get_default_channel get_rsp_channel append
  new_cache-ready s =
      let chs : List (ℕ × RspChannel A) = (0, up_channel) ∷ [] in
      let c : TableCache S A = record (unstarted s) { realtime = some chs; is_ready = true } in
      (
        c,
        refl,
        (up_channel, refl, refl, refl),
        refl,
        (λ input. refl),
        new_depth_channel-25 c chs refl,
        λ depth miss. new_depth_channel-panic c chs depth refl refl miss,
      )
