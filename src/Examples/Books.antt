-- ===== src/Examples/Books.antt =====
-- utils/cache_mbl.go at small books.
use wstester.Prelude.{
  panic, ℕ, ◌≡◌, ◌<◌, refl, none, some, [], ◌∷◌, done, arith, length, lookup, nat_eq, Returns, Bool,
  true, false,
}
use wstester.Prices.{uni_price_add, add_loop}
use wstester.Mbl.{
  update, Side, buy, sell, is_buy, is_sell, Order, insert, delete, Quote, Levels, MblCache,
  handle_insert, insert_side, insert_level, handle_delete, handle_update,
}
use wstester.Mbl.View.{snapshot}
use wstester.Mbl.Apply.Merge.{handle_partial}
use wstester.Mbl.Snapshot.Fill.{Mirrors}
use wstester.Mbl.Snapshot.Mirrored.{handle_partial-snapshot}
use wstester.Mbl.Level.{IsLevel}
use wstester.Mbl.Sound.{IsSound, Changes, Lists, Delists, Keeps}
use wstester.Mbl.Sound.Insert.{handle_insert-Changes, insert_side-Changes}
use wstester.Mbl.Sound.Delete.{handle_delete-Changes}
use wstester.Mbl.Sound.Update.{handle_update-Changes}
use wstester.Mbl.Apply.{apply_changes}
use wstester.Mbl.Feed.{Feeds}
use wstester.Mbl.Feed.Insert.{apply_insert-Feeds, insert_rsp}
use wstester.Mbl.Feed.Update.{apply_update-Feeds, update_rsp}
use wstester.Mbl.Feed.Delete.{apply_delete-Feeds, delete_rsp}

abbrev order : Side → ℕ → ℕ → Order
order side price size = record { id = price; side = side; price = price; size = size }

abbrev no_quote : Quote
no_quote = record { best_price = 0; last_price = 0; best_size = 0; last_size = 0 }

abbrev no_levels : Levels
no_levels = record { prices = []; quote = no_quote }

abbrev empty_book : MblCache
empty_book = record {
  history_count = 0;
  asks = no_levels;
  bids = no_levels;
  l2_cache = [];
  made = true;
  depths = 0 ∷ 1 ∷ [];
  published = [];
}

no_levels-IsLevel : (rev : Bool) (side : Side → Bool) → IsLevel rev side no_levels []
no_levels-IsLevel rev side = record {
  ordered = λ i j h k. absurd (omega arith);
  indexed = λ p. refl;
  best = λ n h. absurd (omega arith);
}

empty_book-IsSound : IsSound empty_book
empty_book-IsSound = record {
  asks = no_levels-IsLevel true is_sell;
  bids = no_levels-IsLevel false is_buy;
  keyed = λ p o h. ground arith;
  sided = λ p o h. ground arith;
}

abbrev one_bid : MblCache
one_bid = (insert_side empty_book (order buy 9 4) buy).0

one_bid-IsSound : IsSound one_bid
one_bid-IsSound =
    (insert_side-Changes empty_book (order buy 9 4) empty_book-IsSound refl buy refl
      (λ e. ground arith)).sound

handle_insert-Changes_example :
    (empty_book.made ≡ true
      → Returns
          (handle_insert empty_book (order buy 9 4))
          (Changes empty_book buy 9 (Lists 9 false) (some (order buy 9 4))))
    × (empty_book.made ≡ false → handle_insert empty_book (order buy 9 4) ≡ panic)
handle_insert-Changes_example =
    handle_insert-Changes empty_book (order buy 9 4) empty_book-IsSound refl (λ e. ground arith)

-- The cache as it was constructed.
unmade-panics : handle_insert (record empty_book { made = false }) (order buy 9 4) ≡ panic
unfolding handle_insert
unmade-panics = refl

abbrev two_bids : MblCache
two_bids = (insert_side one_bid (order buy 8 5) buy).0

one_bid-new : lookup 8 one_bid.l2_cache ≡ none
unfolding handle_insert insert_side
one_bid-new = refl

two_bids-IsSound : IsSound two_bids
two_bids-IsSound =
    (insert_side-Changes one_bid (order buy 8 5) one_bid-IsSound one_bid-new buy refl
      (λ e. ground arith)).sound

two_bids-best : lookup 9 two_bids.l2_cache ≡ some (order buy 9 4)
unfolding handle_insert insert_side
two_bids-best = refl

two_bids-more : 1 < length two_bids.bids.prices
unfolding handle_insert insert_side insert_level uni_price_add add_loop
two_bids-more = omega arith

handle_delete-Changes_example :
    Returns (handle_delete two_bids (order buy 9 0)) (Changes two_bids buy 9 (Delists 9) none)
handle_delete-Changes_example =
    handle_delete-Changes two_bids (order buy 9 0) two_bids-IsSound (order buy 9 4) two_bids-best
      refl two_bids-more

handle_update-Changes_example :
    Changes two_bids buy 9 (Keeps 9) (some (order buy 9 7)) (handle_update two_bids (order buy 9 7))
handle_update-Changes_example =
    handle_update-Changes two_bids (order buy 9 7) two_bids-IsSound (order buy 9 4) two_bids-best
      refl

one_bid-channels : one_bid.depths ≡ 0 ∷ 1 ∷ []
unfolding handle_insert insert_side
one_bid-channels = refl

one_bid-made : one_bid.made ≡ true
unfolding insert_side
one_bid-made = refl

two_bids-channels : two_bids.depths ≡ 0 ∷ 1 ∷ []
unfolding handle_insert insert_side
two_bids-channels = refl

one_bid-above : lookup 10 one_bid.l2_cache ≡ none
unfolding handle_insert insert_side
one_bid-above = refl

apply_insert-Feeds_example :
    Returns (apply_changes one_bid (insert_rsp (order buy 10 3)) insert) (Feeds one_bid 1)
apply_insert-Feeds_example =
    apply_insert-Feeds one_bid (order buy 10 3) 1 one_bid-IsSound one_bid-made one_bid-channels
      (omega arith) one_bid-above (λ e. ground arith)

apply_delete-Feeds_example :
    Returns (apply_changes two_bids (delete_rsp (order buy 9 0)) delete) (Feeds two_bids 1)
apply_delete-Feeds_example =
    apply_delete-Feeds two_bids (order buy 9 0) (order buy 9 4) 1 two_bids-IsSound two_bids-channels
      (omega arith) two_bids-best refl two_bids-more

apply_update-Feeds_example :
    Returns (apply_changes two_bids (update_rsp (order buy 9 7)) update) (Feeds two_bids 1)
apply_update-Feeds_example =
    apply_update-Feeds two_bids (order buy 9 7) (order buy 9 4) 1 two_bids-IsSound two_bids-channels
      (omega arith) two_bids-best refl

one_bid-best : lookup 9 one_bid.l2_cache ≡ some (order buy 9 4)
unfolding handle_insert insert_side
one_bid-best = refl

one_bid-last : length one_bid.bids.prices ≡ 1
unfolding handle_insert insert_side insert_level uni_price_add
one_bid-last = refl

abbrev both_sides : MblCache
both_sides = (insert_side one_bid (order sell 12 1) sell).0

one_bid-no_ask : lookup 12 one_bid.l2_cache ≡ none
unfolding handle_insert insert_side
one_bid-no_ask = refl

both_sides-IsSound : IsSound both_sides
both_sides-IsSound =
    (insert_side-Changes one_bid (order sell 12 1) one_bid-IsSound one_bid-no_ask sell refl
      (λ e. ground arith)).sound

both_sides-asks : 0 < length both_sides.asks.prices
unfolding handle_insert insert_side insert_level uni_price_add add_loop
both_sides-asks = omega arith

both_sides-bids : 0 < length both_sides.bids.prices
unfolding handle_insert insert_side insert_level uni_price_add add_loop
both_sides-bids = omega arith

handle_partial-snapshot_example :
    (c' : MblCache) × (handle_partial empty_book (snapshot both_sides 1).entries ≡ done c')
    × Mirrors both_sides 1 empty_book c'
handle_partial-snapshot_example =
    handle_partial-snapshot both_sides empty_book 1 both_sides-IsSound both_sides-asks
      both_sides-bids refl refl
