-- ===== src/Mbl/Feed/Insert.antt =====
-- utils/cache_mbl.go: a response that inserts one order, on a depth-limited channel.
use wstester.Prelude.{
  ℕ, ◌+◌, ◌-◌, ◌≤◌, ◌<◌, ◌≡◌, ◌≢◌, refl, ap, ◌∙◌, true, false, not, ◌||◌, ◌&&◌, Option, none, some,
  [], ◌∷◌, done, ◌>>=◌, arith, ◌==◌, leb, if◌then◌else◌, length, lookup, nat_eq, Returns,
  Bool-cases, inl, inr, Option-cases, drop,
}
use wstester.Sets.{exist}
use wstester.Mbl.{
  Side, buy, sell, unknown, Order, insert, delete, MblResponse, MblCache, Change, insert_side,
}
use wstester.Mbl.View.{get_order_on_depth}
use wstester.Mbl.Apply.{
  LimitRsp, applied, apply_changes, apply_orders, feed_makeup, with_order, with_makeup, new_limits,
}
use wstester.Mbl.Sound.{IsSound, prices_of, Changes, Lists, is_reverse}
use wstester.Mbl.Sound.Insert.{handle_insert-done, insert_side-Changes}
use wstester.Mbl.Top.{
  top, at_depth, is_price, exist-top-splice, top-splice, exist-at_depth, exist-drop,
}
use wstester.Mbl.Feed.Delete.{made_up}
use wstester.Mbl.Feed.{shown, Follows, Feeds, found, get_order_on_depth-found}

abbrev pub insert_rsp : Order → MblResponse
insert_rsp ord = record { suffixes = []; action = insert; entries = some ord ∷ [] }

abbrev inserted_pair : Order → Option Order → LimitRsp
inserted_pair ord makeup = record {
  main = insert_rsp ord;
  makeup = some (record { suffixes = []; action = delete; entries = made_up makeup });
}

abbrev quiet_pair : LimitRsp
quiet_pair = record {
  main = record { suffixes = []; action = insert; entries = [] };
  makeup = some (record { suffixes = []; action = delete; entries = [] });
}

abbrev inserted : Order → Option MblResponse → LimitRsp
inserted ord makeup = record { main = with_order quiet_pair.main ord; makeup = makeup }

new_limits-two :
    (k : ℕ) (ord : Order) → 0 < k → new_limits (0 ∷ k ∷ []) (insert_rsp ord) ≡ (k, quiet_pair) ∷ []
unfolding new_limits
new_limits-two k ord pos = let limited : (k == 0) ≡ false = ground arith in rw limited

module _ (c c' : MblCache) (ord : Order) (k : ℕ) where
  Follows-pair :
      (m : Option ℕ)
      → ((q : ℕ)
          → lookup q c'.l2_cache ≡ (if q == ord.price then some ord else lookup q c.l2_cache))
      → ((p : ℕ) (o : Order) → lookup p c'.l2_cache ≡ some o → o.price ≡ p)
      → ((q : ℕ) → shown c' k q ≡ not (is_price m q) && ((q == ord.price) || shown c k q))
      → Follows c c' k (inserted_pair ord (found m c'.l2_cache))
  Follows-pair none orders keyed shows q = ground (arith, orders q, shows q)
  Follows-pair (some m) orders keyed shows q = elim (Option-cases (lookup m c'.l2_cache)) [
    | inl e ↦ rw e (ground (arith, orders q, shows q, orders m, e))
    | inr (o, e) ↦ rw e (ground (arith, orders q, shows q, keyed m o e, e))
  ]

  Follows-quiet :
      ((q : ℕ) → lookup q c'.l2_cache ≡ (if q == ord.price then some ord else lookup q c.l2_cache))
      → ((q : ℕ) → shown c' k q ≡ shown c k q)
      → shown c k ord.price ≡ false
      → Follows c c' k quiet_pair
  Follows-quiet orders same hidden q = ground (arith, orders q, same q)

-- No price is on both sides of a sound cache.
one_side :
    (c : MblCache) (q n : ℕ)
    → IsSound c
    → exist c.bids.prices q ≡ true
    → exist (drop n c.asks.prices) q ≡ false
one_side c q n sound h =
    exist-drop c.asks.prices n q (ground (arith, sound.asks.indexed q, sound.bids.indexed q))

one_side' :
    (c : MblCache) (q n : ℕ)
    → IsSound c
    → exist c.asks.prices q ≡ true
    → exist (drop n c.bids.prices) q ≡ false
one_side' c q n sound h =
    exist-drop c.bids.prices n q (ground (arith, sound.asks.indexed q, sound.bids.indexed q))

module _ (c : MblCache) (ord : Order) (sound : IsSound c)
    (new : lookup ord.price c.l2_cache ≡ none) where
  not_asked : (n : ℕ) → exist (drop n c.asks.prices) ord.price ≡ false
  not_asked n = exist-drop c.asks.prices n ord.price (sound.asks.indexed ord.price ∙ rw new)

  not_bid : (n : ℕ) → exist (drop n c.bids.prices) ord.price ≡ false
  not_bid n = exist-drop c.bids.prices n ord.price (sound.bids.indexed ord.price ∙ rw new)

  module _ (k : ℕ) (r : Change) where
    shows :
        (s : Side)
        → s ≢ unknown
        → Changes c s ord.price (Lists ord.price (is_reverse s)) (some ord) r
        → r.1 ≤ k
        → (q : ℕ)
        → shown r.0 k q
          ≡ not (is_price (at_depth (k + 1) (prices_of r.0 s)) q)
            && ((q == ord.price) || shown c k q)
    shows buy known ch within q =
        let (i, pos, rest, depth, _) = ch.moved in
        let asks = ch.others sell (λ x. cc) in
        let apart = one_side r.0 q (length r.0.asks.prices - k) ch.sound in
        let listed = exist-at_depth (k + 1) r.0.bids.prices q (omega arith) in
        let top' =
          exist-top-splice false c.bids.prices ord.price i k sound.bids.ordered pos (omega arith)
            q in
        let best : exist (top k r.0.bids.prices) q
            ≡ not (is_price (at_depth (k + 1) r.0.bids.prices) q)
              && ((q == ord.price) || exist (top k c.bids.prices) q) =
          rw rest top' in
        let other : exist (top k r.0.asks.prices) q ≡ exist (top k c.asks.prices) q =
          rw asks refl in
        ground (arith, apart, listed, best, other)
    shows sell known ch within q =
        let (i, pos, rest, depth, _) = ch.moved in
        let bids = ch.others buy (λ x. cc) in
        let apart = one_side' r.0 q (length r.0.bids.prices - k) ch.sound in
        let listed = exist-at_depth (k + 1) r.0.asks.prices q (omega arith) in
        let top' =
          exist-top-splice true c.asks.prices ord.price i k sound.asks.ordered pos (omega arith)
            q in
        let best : exist (top k r.0.asks.prices) q
            ≡ not (is_price (at_depth (k + 1) r.0.asks.prices) q)
              && ((q == ord.price) || exist (top k c.asks.prices) q) =
          rw rest top' in
        let other : exist (top k r.0.bids.prices) q ≡ exist (top k c.bids.prices) q =
          rw bids refl in
        ground (arith, apart, listed, best, other)
    shows unknown known ch within q = absurd (known refl)

    hides :
        (s : Side)
        → s ≢ unknown
        → Changes c s ord.price (Lists ord.price (is_reverse s)) (some ord) r
        → k < r.1
        → (q : ℕ) → shown r.0 k q ≡ shown c k q
    hides buy known ch below q =
        let (i, pos, rest, depth, _) = ch.moved in
        rw (
          rest,
          ch.others sell (λ x. cc),
          top-splice false c.bids.prices ord.price i k sound.bids.ordered pos (omega arith),
        )
    hides sell known ch below q =
        let (i, pos, rest, depth, _) = ch.moved in
        rw (
          rest,
          ch.others buy (λ x. cc),
          top-splice true c.asks.prices ord.price i k sound.asks.ordered pos (omega arith),
        )
    hides unknown known ch below q = absurd (known refl)

    -- What the loop over the limited channels makes of one inserted order.
    fed :
        (s : Side)
        → ord.side ≡ s
        → s ≢ unknown
        → 0 < k
        → Changes c s ord.price (Lists ord.price (is_reverse s)) (some ord) r
        → Returns
            (feed_makeup (λ limit. limit + 1) r.0 ord r.1 ((k, quiet_pair) ∷ []) >>= λ limits.
              done (applied r.0 (some limits)))
            (Feeds c k)
    unfolding feed_makeup
    fed s e known pos ch = elim (Bool-cases (leb r.1 k)) [
      | inl within ↦
          let got : get_order_on_depth r.0 ord.side (k + 1)
              ≡ done (found (at_depth (k + 1) (prices_of r.0 s)) r.0.l2_cache) =
            ap (λ t. get_order_on_depth r.0 t (k + 1)) e
            ∙ get_order_on_depth-found r.0 s (k + 1) (omega arith) in
          rw (within, feed_makeup, got)
            (made (found (at_depth (k + 1) (prices_of r.0 s)) r.0.l2_cache) (
              Follows-pair c r.0 ord k (at_depth (k + 1) (prices_of r.0 s)) ch.orders ch.sound.keyed
                (shows s known ch (ground arith))))
      | inr below ↦
          rw (below, feed_makeup)
            (Follows-quiet c r.0 ord k ch.orders (hides s known ch (ground arith)) (
              ground
                (arith, not_asked (length c.asks.prices - k), not_bid (length c.bids.prices - k))))
    ]
      where
        made :
            (m : Option Order)
            → Follows c r.0 k (inserted_pair ord m)
            → Returns
                ((with_makeup quiet_pair.makeup m >>= λ makeup. done (inserted ord makeup))
                  >>= (λ rsp. done ((k, rsp) ∷ []))
                  >>= λ limits. done (applied r.0 (some limits)))
                (Feeds c k)
        made none h = h
        made (some o) h = h

-- A response that inserts one order, with a valid side and at a price that a sound cache does not hold,
-- once a partial has made the cache's map: the code does not panic, and the two responses of the limited
-- channel turn the view of the best `k` levels before into that of the best `k` levels after.
pub apply_insert-Feeds :
    (c : MblCache) (ord : Order) (k : ℕ)
    → IsSound c
    → c.made ≡ true
    → c.depths ≡ 0 ∷ k ∷ []
    → 0 < k
    → lookup ord.price c.l2_cache ≡ none
    → ord.side ≢ unknown
    → Returns (apply_changes c (insert_rsp ord) insert) (Feeds c k)
unfolding apply_changes apply_orders
apply_insert-Feeds c ord k sound made channels pos new known =
    let ch = insert_side-Changes c ord sound new ord.side refl known in
    rw (handle_insert-done c ord sound new made, ch.no_error, limits)
      (fed c ord sound new k (insert_side c ord ord.side) ord.side refl known pos ch)
  where
    limits : new_limits c.depths (insert_rsp ord) ≡ (k, quiet_pair) ∷ []
    limits = ap (λ depths. new_limits depths (insert_rsp ord)) channels ∙ new_limits-two k ord pos
