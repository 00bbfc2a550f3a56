-- ===== src/Mbl/Level/Insert.antt =====
-- utils/cache_mbl.go: handleInsert on the side that it changes, and on the other side.
use wstester.Prelude.{
  ℕ, zero, suc, ◌+◌, ◌-◌, ◌≤◌, ◌<◌, ◌≡◌, ap, ◌∙◌, Bool, true, false, none, some, List, arith, ◌==◌,
  if◌then◌else◌, length, lookup, put, nat_eq, lookup-put, get_or-splice, length-splice, ℕ_discrete,
}
use wstester.Prices.{◌!◌, uni_price_add}
use wstester.Prices.Insert.{Adds, IsAbsent, uni_price_add-Adds, splice-IsOrdered}
use wstester.Prices.Holds.{exist-splice, absent-exist}
use wstester.Mbl.{Side, Order, Levels, insert_level}
use wstester.Mbl.Level.{IsBest, IsLevel, Inserts}

-- A price below the last entry has a depth over one.
deep : (n i : ℕ) → i < suc n → (suc (suc n) - i == 1) ≡ false
deep n i h = ground arith

module _ (rev : Bool) (side : Side → Bool) (l : Levels) (l2 : List (ℕ × Order)) (ord : Order)
    (level : IsLevel rev side l l2) (new : lookup ord.price l2 ≡ none) where
  absent : IsAbsent l.prices ord.price
  absent i h = absent-exist l.prices ord.price i (ground (arith, level.indexed ord.price)) h

  added : Adds rev l.prices ord.price (uni_price_add l.prices ord.price rev)
  added = uni_price_add-Adds l.prices ord.price rev level.ordered absent

  -- The side that the order is not of.
  pub put-IsLevel : side ord.side ≡ false → IsLevel rev side l (put ord.price ord l2)
  put-IsLevel other = record {
    ordered = level.ordered;
    indexed = λ p. ground (arith, level.indexed p, lookup-put ord.price p ord l2);
    best =
        λ n h. ground (arith, level.best n, lookup-put ord.price (l.prices ! n) ord l2, absent n);
  }

  abbrev idx : ℕ
  idx = (uni_price_add l.prices ord.price rev).0

  abbrev prices : List ℕ
  prices = (uni_price_add l.prices ord.price rev).1

  length-prices : length prices ≡ suc (length l.prices)
  length-prices = rw (added.1) (length-splice l.prices idx ord.price added.0.inside)

  idx-le : idx ≤ length l.prices
  idx-le = added.0.inside

  -- The last entry of the new list: the new price, if it stands there, else the old last one.
  last_price :
      (n : ℕ)
      → length l.prices ≡ n
      → prices ! n ≡ (if idx == n then ord.price else l.prices ! (n - 1))
  last_price n e =
      rw (added.1) (ground (arith, get_or-splice l.prices idx ord.price 0 n added.0.inside, idx-le))

  stored : lookup ord.price (put ord.price ord l2) ≡ some ord
  stored = ground (arith, lookup-put ord.price ord.price ord l2)

  kept :
      (n : ℕ)
      → n < length l.prices
      → lookup (l.prices ! n) (put ord.price ord l2) ≡ lookup (l.prices ! n) l2
  kept n h = ground (arith, lookup-put ord.price (l.prices ! n) ord l2, absent n h)

  inserted-IsBest : IsBest (insert_level rev l ord).0 (put ord.price ord l2)
  unfolding insert_level
  inserted-IsBest zero h =
      let e : idx ≡ 0 = omega (arith, length-prices, idx-le) in
      let at : prices ! 0 ≡ ord.price = ground (arith, last_price 0, length-prices) in
      rw (at, h, stored) (ground arith)
  inserted-IsBest (suc n) h = elim (ℕ_discrete idx (suc n)) [
    | yes e ↦
        let at : prices ! suc n ≡ ord.price = ground (arith, last_price (suc n), length-prices) in
        rw (at, h, stored) (ground arith)
    | no e ↦
        let at : prices ! suc n ≡ l.prices ! n =
          ground (arith, last_price (suc n), length-prices) in
        let m : length l.prices ≡ suc n = omega (arith, length-prices) in
        let lower : idx < suc n = omega (arith, idx-le) in
        rw (at, h, kept n (omega arith), deep n idx lower) (level.best n m)
  ]

  pub insert_level-Inserts :
      side ord.side ≡ true → Inserts rev side l l2 ord (insert_level rev l ord)
  unfolding insert_level
  insert_level-Inserts mine = (
    record {
      ordered = rw (added.1) (splice-IsOrdered rev l.prices ord.price idx level.ordered added.0);
      indexed = λ p. rw (added.1) (
          ground (
            arith,
            level.indexed p,
            lookup-put ord.price p ord l2,
            exist-splice l.prices ord.price idx p,
          ));
      best = inserted-IsBest;
    },
    (idx, added.0, added.1, ap (λ n. n - idx) (length-prices ∙ plus_one)),
  )
    where
      plus_one : suc (length l.prices) ≡ length l.prices + 1
      plus_one = omega arith
