-- ===== src/Mbl/Feed/Update.antt =====
-- utils/cache_mbl.go: a response that updates one order, on a depth-limited channel.
use wstester.Prelude.{
  ℕ, ◌-◌, ◌<◌, ◌≡◌, ◌≢◌, refl, sym, ap, ◌∙◌, true, false, none, some, [], ◌∷◌, done, ◌>>=◌, arith,
  ◌==◌, leb, length, lookup, nat_eq, Returns, Bool-cases, inl, inr,
}
use wstester.Sets.{exist}
use wstester.Mbl.{
  Side, buy, sell, unknown, Order, update, MblResponse, MblCache, Change, handle_update,
}
use wstester.Mbl.Apply.{LimitRsp, applied, apply_changes, apply_orders, feed_update, new_limits}
use wstester.Mbl.Sound.{IsSound, Changes, Keeps}
use wstester.Mbl.Sound.Update.{handle_update-Changes}
use wstester.Mbl.Top.{top, exist-drop, absent_from}
use wstester.Mbl.Feed.{shown, Follows, Feeds}

abbrev pub update_rsp : Order → MblResponse
update_rsp ord = record { suffixes = []; action = update; entries = some ord ∷ [] }

abbrev quiet_pair : LimitRsp
quiet_pair = record {
  main = record { suffixes = []; action = update; entries = [] };
  makeup = none;
}

abbrev updated : Order → LimitRsp
updated ord = record { main = update_rsp ord; makeup = none }

new_limits-two :
    (k : ℕ) (ord : Order) → 0 < k → new_limits (0 ∷ k ∷ []) (update_rsp ord) ≡ (k, quiet_pair) ∷ []
unfolding new_limits
new_limits-two k ord pos = let limited : (k == 0) ≡ false = ground arith in rw limited

module _ (c : MblCache) (ord origin : Order) (sound : IsSound c)
    (old : lookup ord.price c.l2_cache ≡ some origin) (k : ℕ) (r : Change) where
  abbrev resized : Order
  resized = record origin { size = ord.size }

  -- An update moves no price.
  same :
      (s : Side)
      → Changes c s ord.price (Keeps ord.price) (some resized) r
      → s ≢ unknown
      → (q : ℕ) → shown r.0 k q ≡ shown c k q
  same buy ch known q = rw (ch.moved.0, ch.others sell (λ x. cc))
  same sell ch known q = rw (ch.moved.0, ch.others buy (λ x. cc))
  same unknown ch known q = absurd (known refl)

  Follows-updated :
      (s : Side)
      → Changes c s ord.price (Keeps ord.price) (some resized) r
      → s ≢ unknown
      → Follows c r.0 k (updated ord)
  Follows-updated s ch known q = elim (Bool-cases (q == ord.price)) [
    | inl at ↦
        let e : q ≡ ord.price = ground arith in
        let held : lookup q c.l2_cache ≡ some origin = rw (e, old) in
        rw (at, ch.orders q, same s ch known q, held) (ground arith)
    | inr other ↦ rw (other, ch.orders q, same s ch known q, other)
  ]

  Follows-quiet :
      (s : Side)
      → Changes c s ord.price (Keeps ord.price) (some resized) r
      → s ≢ unknown
      → shown c k ord.price ≡ false
      → Follows c r.0 k quiet_pair
  Follows-quiet s ch known hidden q = ground (arith, ch.orders q, same s ch known q)

  -- A price below the limit is not shown.
  hides :
      (s : Side)
      → origin.side ≡ s
      → Changes c s ord.price (Keeps ord.price) (some resized) r
      → k < r.1
      → shown c k ord.price ≡ false
  hides buy e ch below =
      let (moved, ranked) = ch.moved in
      let positive = ranked.positive in
      let inside = ranked.inside in
      let other : exist (top k c.asks.prices) ord.price ≡ false =
        exist-drop c.asks.prices (length c.asks.prices - k) ord.price
          (sound.asks.indexed ord.price ∙ rw (old, e)) in
      let gone =
        absent_from false c.bids.prices (length c.bids.prices - r.1) (length c.bids.prices - k)
          sound.bids.ordered (omega arith) in
      let own : exist (top k c.bids.prices) ord.price ≡ false = rw (← ranked.ranked) gone in
      rw (other, own)
  hides sell e ch below =
      let (moved, ranked) = ch.moved in
      let positive = ranked.positive in
      let inside = ranked.inside in
      let other : exist (top k c.bids.prices) ord.price ≡ false =
        exist-drop c.bids.prices (length c.bids.prices - k) ord.price
          (sound.bids.indexed ord.price ∙ rw (old, e)) in
      let gone =
        absent_from true c.asks.prices (length c.asks.prices - r.1) (length c.asks.prices - k)
          sound.asks.ordered (omega arith) in
      let own : exist (top k c.asks.prices) ord.price ≡ false = rw (← ranked.ranked) gone in
      rw (other, own)
  hides unknown e ch below = absurd (sound.sided ord.price origin old e)

  -- What the loop over the limited channels makes of one updated order.
  fed :
      (s : Side)
      → origin.side ≡ s
      → Changes c s ord.price (Keeps ord.price) (some resized) r
      → Returns
          (feed_update r.0 ord r.1 ((k, quiet_pair) ∷ []) >>= λ limits.
            done (applied r.0 (some limits)))
          (Feeds c k)
  unfolding feed_update
  fed s e ch =
      let known : s ≢ unknown = λ u. sound.sided ord.price origin old (e ∙ u) in
      elim (Bool-cases (leb r.1 k)) [
        | inl within ↦ rw (within, feed_update) (Follows-updated s ch known)
        | inr below ↦
            rw (below, feed_update) (Follows-quiet s ch known (hides s e ch (ground arith)))
      ]

-- A response that updates one order of a sound cache, on its side: the code does not panic, and the
-- response of the limited channel turns the view of the best `k` levels before into that of the best `k`
-- levels after.
pub apply_update-Feeds :
    (c : MblCache) (ord origin : Order) (k : ℕ)
    → IsSound c
    → c.depths ≡ 0 ∷ k ∷ []
    → 0 < k
    → lookup ord.price c.l2_cache ≡ some origin
    → ord.side ≡ origin.side
    → Returns (apply_changes c (update_rsp ord) update) (Feeds c k)
unfolding apply_changes apply_orders
apply_update-Feeds c ord origin k sound channels pos old on =
    let ch = handle_update-Changes c ord sound origin old on in
    rw (ch.no_error, limits)
      (fed c ord origin sound old k (handle_update c ord) ord.side (sym on) ch)
  where
    limits : new_limits c.depths (update_rsp ord) ≡ (k, quiet_pair) ∷ []
    limits = ap (λ depths. new_limits depths (update_rsp ord)) channels ∙ new_limits-two k ord pos
