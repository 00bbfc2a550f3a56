-- ===== src/Mbl/Sound.antt =====
-- utils/cache_mbl.go: the invariant of the order book cache.
pub mod Insert
pub mod Delete
pub mod Update
use wstester.Prelude.{
  ℕ, zero, suc, ◌+◌, ◌-◌, ◌≤◌, ◌<◌, ◌≡◌, ◌≢◌, refl, sym, Bool, true, false, Option, none, some,
  List, [], Run, done, panic, arith, ◌==◌, if◌then◌else◌, length, lookup, put, erase, nat_eq,
  lookup-put, lookup-erase, inl, inr, Returns, Returns-bind, ◌>>=◌, ◌∙◌, splice, remove_at,
  get_or-splice, length-splice,
}
use wstester.Prices.{◌!◌}
use wstester.Prices.Insert.{Position}
use wstester.Mbl.{
  Side, buy, sell, unknown, is_buy, is_sell, Order, Levels, MblCache, MblError, Change,
  handle_insert, handle_delete, handle_update, insert_side, delete_side, update_side, insert_level,
  delete_level, update_level, not_found, resize,
}
use wstester.Mbl.Level.{of_side, IsLevel, Deletes, Inserts, Updates}
use wstester.Mbl.Level.Insert.{put-IsLevel, insert_level-Inserts}
use wstester.Mbl.Level.Delete.{erase-IsLevel, delete_level-Deletes, delete_level-panic}
use wstester.Mbl.Level.Update.{resize-IsLevel, update_level-Updates}

-- Both sides are sound, and every order stands under its own price, on a side.
pub record IsSound (c : MblCache) : Type 0 where
  pub asks : IsLevel true is_sell c.asks c.l2_cache
  pub bids : IsLevel false is_buy c.bids c.l2_cache
  pub keyed : (p : ℕ) (o : Order) → lookup p c.l2_cache ≡ some o → o.price ≡ p
  pub sided : (p : ℕ) (o : Order) → lookup p c.l2_cache ≡ some o → o.side ≢ unknown

abbrev pub prices_of : MblCache → Side → List ℕ
prices_of c buy = c.bids.prices
prices_of c sell = c.asks.prices
prices_of c unknown = []

-- The price stands at the depth, counted from 1 at the best price.
pub record IsRanked (prices : List ℕ) (price depth : ℕ) : Type 0 where
  pub positive : 0 < depth
  pub inside : depth ≤ length prices
  pub ranked : prices ! (length prices - depth) ≡ price

-- How a change moves a price in the list of its side, with the depth that it returns.
abbrev pub Moves : Type 1
Moves = List ℕ → List ℕ → ℕ → Type 0

abbrev pub Lists : ℕ → (rev : Bool) → Moves
Lists price rev l l' depth =
    (i : ℕ) × Position rev l price i
    × (l' ≡ splice i price i l)
    × (depth ≡ length l + 1 - i)
    × IsRanked l' price depth

abbrev pub Delists : ℕ → Moves
Delists price l l' depth =
    (i : ℕ) × (i < length l)
    × (l ! i ≡ price)
    × (l' ≡ remove_at i l)
    × (depth ≡ length l - i)
    × IsRanked l price depth

abbrev pub Keeps : ℕ → Moves
Keeps price l l' depth = (l' ≡ l) × IsRanked l price depth

-- The order of the list of a side.
abbrev pub is_reverse : Side → Bool
is_reverse sell = true
is_reverse _ = false

-- What a change that succeeds returns: a sound cache, no error, the price moved in the list of its
-- side, the other list as it was, and the orders of all prices.
pub record Changes (c : MblCache) (s : Side) (price : ℕ) (moves : Moves) (new : Option Order)
    (r : Change) : Type 0 where
  pub sound : IsSound r.0
  pub no_error : r.2 ≡ none
  pub moved : moves (prices_of c s) (prices_of r.0 s) r.1
  pub others : (t : Side) → t ≢ s → prices_of r.0 t ≡ prices_of c t
  pub orders : (q : ℕ) → lookup q r.0.l2_cache ≡ (if q == price then new else lookup q c.l2_cache)
  pub channels : r.0.depths ≡ c.depths

pub splice-IsRanked :
    (rev : Bool) (l l' : List ℕ) (p i depth : ℕ)
    → Position rev l p i
    → l' ≡ splice i p i l
    → depth ≡ length l + 1 - i
    → IsRanked l' p depth
splice-IsRanked rev l l' p i depth pos e d =
    let n = length-splice l i p pos.inside in
    let inside = pos.inside in
    let at : length (splice i p i l) - (length l + 1 - i) ≡ i = omega arith in
    rw (e, d)
      (record {
        positive = omega arith;
        inside = omega arith;
        ranked = rw at (ground (arith, get_or-splice l i p 0 i inside));
      })

pub index-IsRanked :
    (l : List ℕ) (p i depth : ℕ)
    → i < length l
    → l ! i ≡ p
    → depth ≡ length l - i
    → IsRanked l p depth
index-IsRanked l p i depth h e d =
    let at : length l - (length l - i) ≡ i = omega arith in
    rw d (record { positive = omega arith; inside = omega arith; ranked = rw at e })
