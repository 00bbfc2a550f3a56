-- ===== src/Mbl/Sound/Update.antt =====
-- utils/cache_mbl.go: handleUpdate on a sound cache.
use wstester.Prelude.{
  ℕ, ◌≡◌, ◌≢◌, refl, sym, true, false, Option, none, some, arith, lookup, put, nat_eq, lookup-put,
}
use wstester.Mbl.{
  Side, buy, sell, unknown, is_buy, is_sell, Order, Levels, MblCache, handle_update, update_side,
  update_level, not_found, resize,
}
use wstester.Mbl.Level.{Updates}
use wstester.Mbl.Level.Update.{resize-IsLevel, update_level-Updates}
use wstester.Mbl.Sound.{IsSound, Keeps, Changes, index-IsRanked}

module _ (c : MblCache) (ord : Order) (sound : IsSound c) where
  module _ (origin : Order) (old : lookup ord.price c.l2_cache ≡ some origin) where
    resize-keyed :
        (p : ℕ) (o : Order)
        → lookup p (put ord.price (record origin { size = ord.size }) c.l2_cache) ≡ some o
        → o.price ≡ p
    resize-keyed p o h = ground (
      arith,
      lookup-put ord.price p (record origin { size = ord.size }) c.l2_cache,
      sound.keyed p o,
      sound.keyed ord.price origin,
      old,
    )

    resize-sided :
        (p : ℕ) (o : Order)
        → lookup p (put ord.price (record origin { size = ord.size }) c.l2_cache) ≡ some o
        → o.side ≢ unknown
    resize-sided p o h e = ground (
      arith,
      lookup-put ord.price p (record origin { size = ord.size }) c.l2_cache,
      sound.sided p o,
      sound.sided ord.price origin,
      old,
    )

    abbrev pub resized : Order
    resized = record origin { size = ord.size }

    updated_bid :
        (r : Levels × ℕ × Option ℕ)
        → origin.side ≡ buy
        → Updates false is_buy c.bids c.l2_cache ord.price resized r
        → Changes c buy ord.price
            (Keeps ord.price)
            (some resized)
            (resize (record c { bids = r.0 }) ord origin r.2, r.1, not_found r.2)
    updated_bid (l', depth, none) e d = absurd d
    updated_bid (l', depth, some i) e d = record {
      sound = record {
        asks = resize-IsLevel true is_sell c.asks c.l2_cache ord origin sound.asks old (rw e);
        bids = d.0;
        keyed = resize-keyed;
        sided = resize-sided;
      };
      no_error = refl;
      moved = (d.3, index-IsRanked c.bids.prices ord.price i depth d.1 d.2 d.4);
      others = elim [ buy ↦ λ ne. absurd (ne refl) | sell ↦ λ ne. refl | unknown ↦ λ ne. refl ];
      channels = refl;
      orders = λ q. lookup-put ord.price q resized c.l2_cache;
    }

    updated_ask :
        (r : Levels × ℕ × Option ℕ)
        → origin.side ≡ sell
        → Updates true is_sell c.asks c.l2_cache ord.price resized r
        → Changes c sell ord.price
            (Keeps ord.price)
            (some resized)
            (resize (record c { asks = r.0 }) ord origin r.2, r.1, not_found r.2)
    updated_ask (l', depth, none) e d = absurd d
    updated_ask (l', depth, some i) e d = record {
      sound = record {
        asks = d.0;
        bids = resize-IsLevel false is_buy c.bids c.l2_cache ord origin sound.bids old (rw e);
        keyed = resize-keyed;
        sided = resize-sided;
      };
      no_error = refl;
      moved = (d.3, index-IsRanked c.asks.prices ord.price i depth d.1 d.2 d.4);
      others = elim [ buy ↦ λ ne. refl | sell ↦ λ ne. absurd (ne refl) | unknown ↦ λ ne. refl ];
      channels = refl;
      orders = λ q. lookup-put ord.price q resized c.l2_cache;
    }

    update_side-Changes :
        (s : Side)
        → origin.side ≡ s
        → s ≢ unknown
        → Changes c s ord.price (Keeps ord.price) (some resized) (update_side c ord origin s)
    unfolding update_side
    update_side-Changes buy e known =
        updated_bid (update_level false c.bids ord) e
          (update_level-Updates false is_buy c.bids c.l2_cache ord origin sound.bids old (rw e))
    update_side-Changes sell e known =
        updated_ask (update_level true c.asks ord) e
          (update_level-Updates true is_sell c.asks c.l2_cache ord origin sound.asks old (rw e))
    update_side-Changes unknown e known = absurd (known refl)

    -- handleUpdate of an order that the cache has on the same side: the cached order takes the new
    -- size and nothing else of the new order, and the returned depth is that of the price.
    pub handle_update-Changes :
        ord.side ≡ origin.side
        → Changes c ord.side ord.price (Keeps ord.price) (some resized) (handle_update c ord)
    unfolding handle_update
    handle_update-Changes same =
        rw (old, handle_update)
          (update_side-Changes ord.side (sym same) (rw same (sound.sided ord.price origin old)))
