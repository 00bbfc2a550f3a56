-- ===== src/Mbl/Sound/Insert.antt =====
-- utils/cache_mbl.go: handleInsert on a sound cache.
use wstester.Prelude.{
  ℕ, ◌≡◌, ◌≢◌, refl, true, false, none, some, arith, lookup, put, nat_eq, lookup-put, done, panic,
  Returns,
}
use wstester.Mbl.{
  Side, buy, sell, unknown, is_buy, is_sell, Order, MblCache, handle_insert, insert_side,
}
use wstester.Mbl.Level.Insert.{put-IsLevel, insert_level-Inserts}
use wstester.Mbl.Sound.{IsSound, Lists, Changes, is_reverse, splice-IsRanked}

module _ (c : MblCache) (ord : Order) (sound : IsSound c) where
  module _ (new : lookup ord.price c.l2_cache ≡ none) where
    put-keyed : (p : ℕ) (o : Order) → lookup p (put ord.price ord c.l2_cache) ≡ some o → o.price ≡ p
    put-keyed p o h = ground (arith, lookup-put ord.price p ord c.l2_cache, sound.keyed p o)

    put-sided :
        (p : ℕ) (o : Order)
        → ord.side ≢ unknown
        → lookup p (put ord.price ord c.l2_cache) ≡ some o
        → o.side ≢ unknown
    put-sided p o known h e = ground (arith, lookup-put ord.price p ord c.l2_cache, sound.sided p o)

    pub insert_side-Changes :
        (s : Side)
        → ord.side ≡ s
        → s ≢ unknown
        → Changes c s ord.price (Lists ord.price (is_reverse s)) (some ord) (insert_side c ord s)
    unfolding insert_side
    insert_side-Changes buy e known =
        let ins = insert_level-Inserts false is_buy c.bids c.l2_cache ord sound.bids new (rw e) in
        record {
          sound = record {
            asks = put-IsLevel true is_sell c.asks c.l2_cache ord sound.asks new (rw e);
            bids = ins.0;
            keyed = put-keyed;
            sided = λ p o. put-sided p o (rw e known);
          };
          no_error = refl;
          moved = (
            ins.1.0,
            ins.1.1,
            ins.1.2,
            ins.1.3,
            splice-IsRanked false c.bids.prices _ ord.price ins.1.0 _ ins.1.1 ins.1.2 ins.1.3,
          );
          others = elim [ buy ↦ λ ne. absurd (ne refl) | sell ↦ λ ne. refl | unknown ↦ λ ne. refl ];
          channels = refl;
          orders = λ q. lookup-put ord.price q ord c.l2_cache;
        }
    insert_side-Changes sell e known =
        let ins = insert_level-Inserts true is_sell c.asks c.l2_cache ord sound.asks new (rw e) in
        record {
          sound = record {
            asks = ins.0;
            bids = put-IsLevel false is_buy c.bids c.l2_cache ord sound.bids new (rw e);
            keyed = put-keyed;
            sided = λ p o. put-sided p o (rw e known);
          };
          no_error = refl;
          moved = (
            ins.1.0,
            ins.1.1,
            ins.1.2,
            ins.1.3,
            splice-IsRanked true c.asks.prices _ ord.price ins.1.0 _ ins.1.1 ins.1.2 ins.1.3,
          );
          others = elim [ buy ↦ λ ne. refl | sell ↦ λ ne. absurd (ne refl) | unknown ↦ λ ne. refl ];
          channels = refl;
          orders = λ q. lookup-put ord.price q ord c.l2_cache;
        }
    insert_side-Changes unknown e known = absurd (known refl)

    pub handle_insert-done : c.made ≡ true → handle_insert c ord ≡ done (insert_side c ord ord.side)
    unfolding handle_insert
    handle_insert-done made = rw (new, handle_insert, made)

    -- handleInsert of an order with a side, at a price that the cache does not have: once the map of the
    -- orders is made, it does not panic, the price is listed at the returned depth, the order is stored,
    -- and the cache stays sound; on a nil map, as before the first partial, it panics.
    pub handle_insert-Changes :
        ord.side ≢ unknown
        → (c.made ≡ true
            → Returns
                (handle_insert c ord)
                (Changes c ord.side ord.price (Lists ord.price (is_reverse ord.side)) (some ord)))
          × (c.made ≡ false → handle_insert c ord ≡ panic)
    unfolding handle_insert
    handle_insert-Changes known = (
      λ made. rw (handle_insert-done made) (insert_side-Changes ord.side refl known),
      λ nil. rw (new, handle_insert, nil),
    )
