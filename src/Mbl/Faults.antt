-- ===== src/Mbl/Faults.antt =====
-- utils/cache_mbl.go: the inputs at which the three changes panic or leave the cache unsound.
use wstester.Prelude.{
  ◌≡◌, refl, sym, ◌∙◌, true, false, none, some, panic, Returns, arith, length, lookup, nat_eq,
  lookup-put,
}
use wstester.Mbl.{
  Side, buy, sell, unknown, is_buy, is_sell, Order, MblCache, price_not_found, invalid_side, Change,
  handle_insert, handle_delete, insert_side, delete_side,
}
use wstester.Mbl.Level.Delete.{delete_level-panic}
use wstester.Mbl.Sound.{IsSound, prices_of}

module _ (c : MblCache) (ord : Order) (sound : IsSound c) where
  -- An order of an invalid side is reported, and stored all the same: the cache is left unsound.
  pub handle_insert-unknown :
      ord.side ≡ unknown
      → lookup ord.price c.l2_cache ≡ none
      → c.made ≡ true
      → Returns (handle_insert c ord) (λ r. (r.2 ≡ some invalid_side) × ¬ IsSound r.0)
  unfolding handle_insert insert_side
  handle_insert-unknown e new made =
      rw (new, handle_insert, made, e)
        (
          refl,
          λ after.
              after.sided ord.price ord
                (ground (arith, lookup-put ord.price ord.price ord c.l2_cache)) e,
        )

  module _ (origin : Order) (old : lookup ord.price c.l2_cache ≡ some origin) where
    last_level :
        (s : Side) → origin.side ≡ s → length (prices_of c s) ≡ 1 → delete_side c ord s ≡ panic
    unfolding delete_side
    last_level buy e one = rw (
        delete_level-panic false is_buy c.bids c.l2_cache ord.price sound.bids
          (sound.bids.indexed ord.price ∙ rw (old, e)) one)
    last_level sell e one = rw (
        delete_level-panic true is_sell c.asks c.l2_cache ord.price sound.asks
          (sound.asks.indexed ord.price ∙ rw (old, e)) one)
    last_level unknown e one = absurd (omega arith)

    -- Deleting the only level of a side panics.
    pub handle_delete-panic :
        ord.side ≡ origin.side → length (prices_of c ord.side) ≡ 1 → handle_delete c ord ≡ panic
    unfolding handle_delete
    handle_delete-panic same one = rw (old, handle_delete) (last_level ord.side (sym same) one)

    -- What a delete that names the wrong side returns.
    abbrev pub Wrong : Change → Type 0
    Wrong (c', depth, err) =
        (err ≡ some price_not_found) × (lookup ord.price c'.l2_cache ≡ none) × ¬ IsSound c'
