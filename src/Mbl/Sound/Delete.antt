-- ===== src/Mbl/Sound/Delete.antt =====
-- utils/cache_mbl.go: handleDelete on a sound cache.
use wstester.Prelude.{
  ℕ, ◌<◌, ◌≡◌, ◌≢◌, refl, sym, true, false, Option, none, some, arith, length, lookup, erase,
  nat_eq, lookup-erase, Returns, Returns-bind, ◌∙◌,
}
use wstester.Mbl.{
  Side, buy, sell, unknown, is_buy, is_sell, Order, Levels, MblCache, handle_delete, delete_side,
  not_found,
}
use wstester.Mbl.Level.{Deletes}
use wstester.Mbl.Level.Delete.{erase-IsLevel, delete_level-Deletes}
use wstester.Mbl.Sound.{IsSound, prices_of, Delists, Changes, index-IsRanked}

module _ (c : MblCache) (ord : Order) (sound : IsSound c) where
  module _ (origin : Order) (old : lookup ord.price c.l2_cache ≡ some origin) where
    erase-keyed : (p : ℕ) (o : Order) → lookup p (erase ord.price c.l2_cache) ≡ some o → o.price ≡ p
    erase-keyed p o h = ground (arith, lookup-erase ord.price p c.l2_cache, sound.keyed p o)

    erase-sided :
        (p : ℕ) (o : Order) → lookup p (erase ord.price c.l2_cache) ≡ some o → o.side ≢ unknown
    erase-sided p o h e = ground (arith, lookup-erase ord.price p c.l2_cache, sound.sided p o)

    deleted_bid :
        (r : Levels × ℕ × Option ℕ)
        → origin.side ≡ buy
        → Deletes false is_buy c.bids c.l2_cache ord.price r
        → Changes c buy ord.price
            (Delists ord.price)
            none
            (record c { bids = r.0; l2_cache = erase ord.price c.l2_cache }, r.1, not_found r.2)
    deleted_bid (l', depth, none) e d = absurd d
    deleted_bid (l', depth, some i) e d = record {
      sound = record {
        asks =
            erase-IsLevel true is_sell c.asks c.l2_cache ord.price sound.asks
              (sound.asks.indexed ord.price ∙ rw (old, e));
        bids = d.0;
        keyed = erase-keyed;
        sided = erase-sided;
      };
      no_error = refl;
      moved = (i, d.1, d.2, d.3, d.4, index-IsRanked c.bids.prices ord.price i depth d.1 d.2 d.4);
      others = elim [ buy ↦ λ ne. absurd (ne refl) | sell ↦ λ ne. refl | unknown ↦ λ ne. refl ];
      channels = refl;
      orders = λ q. lookup-erase ord.price q c.l2_cache;
    }

    deleted_ask :
        (r : Levels × ℕ × Option ℕ)
        → origin.side ≡ sell
        → Deletes true is_sell c.asks c.l2_cache ord.price r
        → Changes c sell ord.price
            (Delists ord.price)
            none
            (record c { asks = r.0; l2_cache = erase ord.price c.l2_cache }, r.1, not_found r.2)
    deleted_ask (l', depth, none) e d = absurd d
    deleted_ask (l', depth, some i) e d = record {
      sound = record {
        asks = d.0;
        bids =
            erase-IsLevel false is_buy c.bids c.l2_cache ord.price sound.bids
              (sound.bids.indexed ord.price ∙ rw (old, e));
        keyed = erase-keyed;
        sided = erase-sided;
      };
      no_error = refl;
      moved = (i, d.1, d.2, d.3, d.4, index-IsRanked c.asks.prices ord.price i depth d.1 d.2 d.4);
      others = elim [ buy ↦ λ ne. refl | sell ↦ λ ne. absurd (ne refl) | unknown ↦ λ ne. refl ];
      channels = refl;
      orders = λ q. lookup-erase ord.price q c.l2_cache;
    }

    delete_side-Changes :
        (s : Side)
        → origin.side ≡ s
        → s ≢ unknown
        → 1 < length (prices_of c s)
        → Returns (delete_side c ord s) (Changes c s ord.price (Delists ord.price) none)
    unfolding delete_side
    delete_side-Changes buy e known more =
        Returns-bind _ _ (Deletes false is_buy c.bids c.l2_cache ord.price) _
          (delete_level-Deletes false is_buy c.bids c.l2_cache ord.price sound.bids
            (sound.bids.indexed ord.price ∙ rw (old, e)) more)
          (λ r. deleted_bid r e)
    delete_side-Changes sell e known more =
        Returns-bind _ _ (Deletes true is_sell c.asks c.l2_cache ord.price) _
          (delete_level-Deletes true is_sell c.asks c.l2_cache ord.price sound.asks
            (sound.asks.indexed ord.price ∙ rw (old, e)) more)
          (λ r. deleted_ask r e)
    delete_side-Changes unknown e known more = absurd (known refl)

    -- handleDelete of an order that the cache has on the same side, where that side has another
    -- level: it does not panic, takes the price and the order out, and returns the depth that the
    -- price had.
    pub handle_delete-Changes :
        ord.side ≡ origin.side
        → 1 < length (prices_of c ord.side)
        → Returns (handle_delete c ord) (Changes c ord.side ord.price (Delists ord.price) none)
    unfolding handle_delete
    handle_delete-Changes same more =
        rw (old, handle_delete)
          (delete_side-Changes ord.side (sym same) (rw same (sound.sided ord.price origin old))
            more)
