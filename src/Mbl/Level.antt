-- ===== src/Mbl/Level.antt =====
-- utils/cache_mbl.go: what makes one side of the order book sound: the price list is ordered, it
-- lists exactly the prices of the orders of that side, and the quote is that of the last level.
pub mod Insert
pub mod Delete
pub mod Update
use wstester.Prelude.{
  ℕ, suc, ◌-◌, ◌≡◌, Bool, true, false, Option, none, some, List, length, lookup, nat_eq, ◌<◌, ◌+◌,
  Run, done, panic, remove_at, splice, put, erase,
}
use wstester.Sets.{exist}
use wstester.Prices.{◌!◌, IsOrdered}
use wstester.Prices.Insert.{Position}
use wstester.Mbl.{Side, Order, Levels}

-- Is there an order, and of that side?
abbrev pub of_side : (Side → Bool) → Option Order → Bool
of_side side none = false
of_side side (some ord) = side ord.side

abbrev pub size_of : Option Order → Option ℕ
size_of none = none
size_of (some ord) = some ord.size

abbrev pub IsBest : Levels → List (ℕ × Order) → Type 0
IsBest l l2 =
    (n : ℕ)
    → length l.prices ≡ suc n
    → (l.quote.best_price ≡ l.prices ! n)
      × (size_of (lookup (l.prices ! n) l2) ≡ some l.quote.best_size)

pub record IsLevel (rev : Bool) (side : Side → Bool) (l : Levels) (l2 : List (ℕ × Order))
    : Type 0 where
  pub ordered : IsOrdered rev l.prices
  pub indexed : (p : ℕ) → exist l.prices p ≡ of_side side (lookup p l2)
  pub best : IsBest l l2

-- What handleDelete does to the side: the price leaves the list, and its depth counts the levels
-- from the price to the best one.
abbrev pub Deletes :
    Bool → (Side → Bool) → Levels → List (ℕ × Order) → ℕ → Levels × ℕ × Option ℕ → Type 0
Deletes rev side l l2 p (l', depth, none) = ⊥
Deletes rev side l l2 p (l', depth, some i) =
    IsLevel rev side l' (erase p l2)
    × (i < length l.prices)
    × (l.prices ! i ≡ p)
    × (l'.prices ≡ remove_at i l.prices)
    × (depth ≡ length l.prices - i)

-- What handleInsert does to the side.
abbrev pub Inserts : Bool → (Side → Bool) → Levels → List (ℕ × Order) → Order → Levels × ℕ → Type 0
Inserts rev side l l2 ord (l', depth) =
    IsLevel rev side l' (put ord.price ord l2)
    × ((i : ℕ) × Position rev l.prices ord.price i
        × (l'.prices ≡ splice i ord.price i l.prices)
        × (depth ≡ length l.prices + 1 - i))

-- What handleUpdate does to the side, with `new` the resized order.
abbrev pub Updates :
    Bool → (Side → Bool) → Levels → List (ℕ × Order) → ℕ → Order → Levels × ℕ × Option ℕ → Type 0
Updates rev side l l2 p new (l', depth, none) = ⊥
Updates rev side l l2 p new (l', depth, some i) =
    IsLevel rev side l' (put p new l2)
    × (i < length l.prices)
    × (l.prices ! i ≡ p)
    × (l'.prices ≡ l.prices)
    × (depth ≡ length l.prices - i)
