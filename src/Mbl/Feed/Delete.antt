-- ===== src/Mbl/Feed/Delete.antt =====
-- utils/cache_mbl.go: a response that deletes one order, on a depth-limited channel.
use wstester.Prelude.{
  ℕ, ◌-◌, ◌≤◌, ◌<◌, ◌≡◌, refl, sym, ap, ◌∙◌, true, false, not, ◌||◌, ◌&&◌, Option, none, some, List,
  [], ◌∷◌, done, ◌>>=◌, arith, ◌==◌, leb, if◌then◌else◌, length, lookup, nat_eq, Returns,
  Returns-bind, Bool-cases, inl, inr, Option-cases, drop,
}
use wstester.Sets.{exist}
use wstester.Mbl.{
  Side, buy, sell, unknown, Order, insert, delete, MblResponse, MblCache, Change, handle_delete,
}
use wstester.Mbl.View.{get_order_on_depth}
use wstester.Mbl.Apply.{
  LimitRsp, applied, apply_changes, apply_orders, feed_makeup, with_order, with_makeup, new_limits,
}
use wstester.Mbl.Sound.{IsSound, prices_of, Changes, Delists}
use wstester.Mbl.Sound.Delete.{handle_delete-Changes}
use wstester.Mbl.Top.{
  at_depth, is_price, exist-top-remove_at, top-remove_at, exist-drop, absent_from,
}
use wstester.Mbl.Feed.{shown, Follows, Feeds, found, get_order_on_depth-found}

abbrev pub delete_rsp : Order → MblResponse
delete_rsp ord = record { suffixes = []; action = delete; entries = some ord ∷ [] }

-- The responses of a limited channel, for an order within the limit and for one below it.
abbrev pub made_up : Option Order → List (Option Order)
made_up none = []
made_up (some o) = some o ∷ []

abbrev deleted_pair : Order → Option Order → LimitRsp
deleted_pair ord makeup = record {
  main = delete_rsp ord;
  makeup = some (record { suffixes = []; action = insert; entries = made_up makeup });
}

abbrev quiet_pair : LimitRsp
quiet_pair = record {
  main = record { suffixes = []; action = delete; entries = [] };
  makeup = some (record { suffixes = []; action = insert; entries = [] });
}

module _ (c c' : MblCache) (ord : Order) (k : ℕ) where
  -- The order that the price now at the limit has.
  abbrev makeup : Side → Option Order
  makeup s = found (at_depth k (prices_of c' s)) c'.l2_cache

  Follows-pair :
      (m : Option ℕ)
      → ((q : ℕ) → lookup q c'.l2_cache ≡ (if q == ord.price then none else lookup q c.l2_cache))
      → ((p : ℕ) (o : Order) → lookup p c'.l2_cache ≡ some o → o.price ≡ p)
      → ((q : ℕ) → shown c' k q ≡ (not (q == ord.price) && shown c k q) || is_price m q)
      → Follows c c' k (deleted_pair ord (found m c'.l2_cache))
  Follows-pair none orders keyed shows q = ground (arith, orders q, shows q)
  Follows-pair (some m) orders keyed shows q = elim (Option-cases (lookup m c'.l2_cache)) [
    | inl e ↦ rw e (ground (arith, orders q, shows q, e))
    | inr (o, e) ↦ rw e (ground (arith, orders q, shows q, orders m, keyed m o e, e))
  ]

  Follows-quiet :
      ((q : ℕ) → lookup q c'.l2_cache ≡ (if q == ord.price then none else lookup q c.l2_cache))
      → ((q : ℕ) → shown c' k q ≡ shown c k q)
      → shown c k ord.price ≡ false
      → Follows c c' k quiet_pair
  Follows-quiet orders same hidden q = ground (arith, orders q, same q)

abbrev deleted : Order → Option MblResponse → LimitRsp
deleted ord makeup = record { main = with_order quiet_pair.main ord; makeup = makeup }

new_limits-two :
    (k : ℕ) (ord : Order) → 0 < k → new_limits (0 ∷ k ∷ []) (delete_rsp ord) ≡ (k, quiet_pair) ∷ []
unfolding new_limits
new_limits-two k ord pos = let limited : (k == 0) ≡ false = ground arith in rw limited

-- A price that is listed on one side is not on the other.
module _ (c : MblCache) (ord origin : Order) (sound : IsSound c)
    (old : lookup ord.price c.l2_cache ≡ some origin) where
  not_asked : origin.side ≡ buy → (n : ℕ) → exist (drop n c.asks.prices) ord.price ≡ false
  not_asked e n = exist-drop c.asks.prices n ord.price (sound.asks.indexed ord.price ∙ rw (old, e))

  not_bid : origin.side ≡ sell → (n : ℕ) → exist (drop n c.bids.prices) ord.price ≡ false
  not_bid e n = exist-drop c.bids.prices n ord.price (sound.bids.indexed ord.price ∙ rw (old, e))

  module _ (k : ℕ) (r : Change) where
    shows :
        (s : Side)
        → origin.side ≡ s
        → Changes c s ord.price (Delists ord.price) none r
        → r.1 ≤ k
        → (q : ℕ)
        → shown r.0 k q
          ≡ (not (q == ord.price) && shown c k q) || is_price (at_depth k (prices_of r.0 s)) q
    shows buy e ch within q =
        let (i, inside, at, rest, depth, _) = ch.moved in
        rw (rest, ch.others sell (λ x. cc))
          (ground (
            arith,
            not_asked e (length c.asks.prices - k),
            exist-top-remove_at false c.bids.prices ord.price i k sound.bids.ordered inside at
                (omega arith) q,
          ))
    shows sell e ch within q =
        let (i, inside, at, rest, depth, _) = ch.moved in
        rw (rest, ch.others buy (λ x. cc))
          (ground (
            arith,
            not_bid e (length c.bids.prices - k),
            exist-top-remove_at true c.asks.prices ord.price i k sound.asks.ordered inside at
                (omega arith) q,
          ))
    shows unknown e ch within q = absurd (sound.sided ord.price origin old e)

    hides :
        (s : Side)
        → origin.side ≡ s
        → Changes c s ord.price (Delists ord.price) none r
        → k < r.1
        → ((q : ℕ) → shown r.0 k q ≡ shown c k q) × (shown c k ord.price ≡ false)
    hides buy e ch below =
        let (i, inside, at, rest, depth, _) = ch.moved in
        (
          λ q. rw (
            rest,
            ch.others sell (λ x. cc),
            top-remove_at false c.bids.prices ord.price i k sound.bids.ordered inside at
                (omega arith),
          ),
          rw (not_asked e (length c.asks.prices - k), ← at)
              (absent_from false c.bids.prices i (length c.bids.prices - k) sound.bids.ordered
                (omega arith)),
        )
    hides sell e ch below =
        let (i, inside, at, rest, depth, _) = ch.moved in
        (
          λ q. rw (
            rest,
            ch.others buy (λ x. cc),
            top-remove_at true c.asks.prices ord.price i k sound.asks.ordered inside at
                (omega arith),
          ),
          rw (not_bid e (length c.bids.prices - k), ← at)
              (ground (
                arith,
                absent_from true c.asks.prices i (length c.asks.prices - k) sound.asks.ordered,
              )),
        )
    hides unknown e ch below = absurd (sound.sided ord.price origin old e)

    -- What the loop over the limited channels makes of one deleted order.
    fed :
        (s : Side)
        → ord.side ≡ s
        → origin.side ≡ s
        → 0 < k
        → Changes c s ord.price (Delists ord.price) none r
        → Returns
            (feed_makeup (λ limit. limit) r.0 ord r.1 ((k, quiet_pair) ∷ []) >>= λ limits.
              done (applied r.0 (some limits)))
            (Feeds c k)
    unfolding feed_makeup
    fed s e e' pos ch = elim (Bool-cases (leb r.1 k)) [
      | inl within ↦
          let got : get_order_on_depth r.0 ord.side k
              ≡ done (found (at_depth k (prices_of r.0 s)) r.0.l2_cache) =
            ap (λ t. get_order_on_depth r.0 t k) e ∙ get_order_on_depth-found r.0 s k pos in
          rw (within, feed_makeup, got)
            (made (found (at_depth k (prices_of r.0 s)) r.0.l2_cache) (
              Follows-pair c r.0 ord k (at_depth k (prices_of r.0 s)) ch.orders ch.sound.keyed
                (shows s e' ch (ground arith))))
      | inr below ↦
          let (same, hidden) = hides s e' ch (ground arith) in
          rw (below, feed_makeup) (Follows-quiet c r.0 ord k ch.orders same hidden)
    ]
      where
        made :
            (m : Option Order)
            → Follows c r.0 k (deleted_pair ord m)
            → Returns
                ((with_makeup quiet_pair.makeup m >>= λ makeup. done (deleted ord makeup))
                  >>= (λ rsp. done ((k, rsp) ∷ []))
                  >>= λ limits. done (applied r.0 (some limits)))
                (Feeds c k)
        made none h = h
        made (some o) h = h

-- A response that deletes one order of a sound cache, on its side and not the last level of it: the
-- code does not panic, and the two responses of the limited channel turn the view of the best `k`
-- levels before into that of the best `k` levels after.
pub apply_delete-Feeds :
    (c : MblCache) (ord origin : Order) (k : ℕ)
    → IsSound c
    → c.depths ≡ 0 ∷ k ∷ []
    → 0 < k
    → lookup ord.price c.l2_cache ≡ some origin
    → ord.side ≡ origin.side
    → 1 < length (prices_of c ord.side)
    → Returns (apply_changes c (delete_rsp ord) delete) (Feeds c k)
unfolding apply_changes apply_orders
apply_delete-Feeds c ord origin k sound channels pos old same more =
    Returns-bind (handle_delete c ord) _ (Changes c ord.side ord.price (Delists ord.price) none) _
      (handle_delete-Changes c ord sound origin old same more)
      (λ r ch.
        rw (ch.no_error, limits) (fed c ord origin sound old k r ord.side refl (sym same) pos ch))
  where
    limits : new_limits c.depths (delete_rsp ord) ≡ (k, quiet_pair) ∷ []
    limits = ap (λ depths. new_limits depths (delete_rsp ord)) channels ∙ new_limits-two k ord pos
