-- ===== src/Mbl/Level/Update.antt =====
-- utils/cache_mbl.go: handleUpdate on the side that it changes, and on the other side.
use wstester.Prelude.{
  ℕ, ◌-◌, ◌<◌, ◌≡◌, refl, Bool, true, false, Option, none, some, List, arith, ◌==◌, if◌then◌else◌,
  length, lookup, put, nat_eq, lookup-put, ℕ_discrete,
}
use wstester.Prices.{◌!◌, uni_price_search}
use wstester.Prices.Search.{Locates, uni_price_search-Locates}
use wstester.Prices.Holds.{exist-absent, exist-get, IsOrdered-ne}
use wstester.Mbl.{Side, Order, Levels, Quote, update_level}
use wstester.Mbl.Level.{IsBest, IsLevel, Updates}

module _ (rev : Bool) (side : Side → Bool) (l : Levels) (l2 : List (ℕ × Order)) (ord origin : Order)
    (level : IsLevel rev side l l2) (old : lookup ord.price l2 ≡ some origin) where
  abbrev pub resized : Order
  resized = record origin { size = ord.size }

  -- The size of an order of the other side.
  pub resize-IsLevel : side origin.side ≡ false → IsLevel rev side l (put ord.price resized l2)
  resize-IsLevel other = record {
    ordered = level.ordered;
    indexed = λ q. ground (arith, level.indexed q, lookup-put ord.price q resized l2);
    best = λ n h. ground (
      arith,
      level.best n,
      lookup-put ord.price (l.prices ! n) resized l2,
      exist-get l.prices n,
      level.indexed (l.prices ! n),
    );
  }

  module _ (mine : side origin.side ≡ true) where
    found :
        (i : ℕ) × (uni_price_search l.prices ord.price rev ≡ some i)
        × (i < length l.prices)
        × (l.prices ! i ≡ ord.price)
    found =
        go (uni_price_search l.prices ord.price rev) refl
          (uni_price_search-Locates l.prices ord.price rev level.ordered)
      where
        go :
            (o : Option ℕ)
            → uni_price_search l.prices ord.price rev ≡ o
            → Locates l.prices ord.price o
            → (i : ℕ) × (uni_price_search l.prices ord.price rev ≡ some i)
              × (i < length l.prices)
              × (l.prices ! i ≡ ord.price)
        go none e h =
            absurd (ground (arith, exist-absent l.prices ord.price h, level.indexed ord.price))
        go (some i) e (h, p) = (i, e, h, p)

    abbrev i : ℕ
    i = found.0

    abbrev quote : Quote
    quote =
        if length l.prices - i == 1
        then record l.quote { last_size = l.quote.best_size; best_size = ord.size }
        else l.quote

    updated-IsBest : IsBest (record l { quote = quote }) (put ord.price resized l2)
    updated-IsBest n h = elim (ℕ_discrete i n) [
      | yes e ↦
          let top : (length l.prices - i == 1) ≡ true = ground arith in
          let at : l.prices ! n ≡ ord.price = rw (← e) (found.3) in
          let new : lookup ord.price (put ord.price resized l2) ≡ some resized =
            ground (arith, lookup-put ord.price ord.price resized l2) in
          rw (top, at, new) (rw at at ((level.best n h).0), refl)
      | no e ↦
          let under : (length l.prices - i == 1) ≡ false = ground (arith, found) in
          let same : lookup (l.prices ! n) (put ord.price resized l2) ≡ lookup (l.prices ! n) l2 =
            ground (
              arith,
              lookup-put ord.price (l.prices ! n) resized l2,
              found,
              IsOrdered-ne rev l.prices i n level.ordered,
            ) in
          rw (under, same) (level.best n h)
    ]

    updated-IsLevel : IsLevel rev side (record l { quote = quote }) (put ord.price resized l2)
    updated-IsLevel = record {
      ordered = level.ordered;
      indexed = λ q.
          ground
            (arith, level.indexed q, level.indexed ord.price, lookup-put ord.price q resized l2);
      best = updated-IsBest;
    }

    pub update_level-Updates : Updates rev side l l2 ord.price resized (update_level rev l ord)
    unfolding update_level
    update_level-Updates = rw (found.1) (updated-IsLevel, found.2, found.3, refl, refl)
