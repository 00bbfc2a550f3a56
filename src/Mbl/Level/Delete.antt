-- ===== src/Mbl/Level/Delete.antt =====
-- utils/cache_mbl.go: handleDelete on the side that it changes, and on the other side.
use wstester.Prelude.{
  ℕ, suc, ◌-◌, ◌<◌, ◌≡◌, ◌≢◌, refl, sym, ◌∙◌, Bool, true, false, Option, none, some, List, arith,
  ◌==◌, if◌then◌else◌, length, lookup, erase, nat_eq, lookup-erase, remove_at, get_or-remove_at,
  length-remove_at, done, panic, get_elem?, get_elem?-eq-get_or, Returns, ℕ_discrete,
}
use wstester.Sets.{exist}
use wstester.Prices.{◌!◌, uni_price_remove}
use wstester.Prices.Remove.{Removes, uni_price_remove-Removes, remove_at-IsOrdered}
use wstester.Prices.Holds.{exist-remove_at, exist-absent, exist-get, IsOrdered-ne}
use wstester.Mbl.{Side, Order, Levels, Quote, renew_quote, delete_level}
use wstester.Mbl.Level.{of_side, size_of, IsBest, IsLevel, Deletes}

-- The quote takes the last level of a list that has one.
renew-done :
    (q : Quote) (prices : List ℕ) (l2 : List (ℕ × Order)) (m : ℕ) (ord : Order)
    → length prices ≡ suc m
    → get_elem? prices m ≡ some (prices ! m)
    → lookup (prices ! m) l2 ≡ some ord
    → renew_quote q prices l2
      ≡ done (record {
        best_price = prices ! m;
        last_price = q.best_price;
        best_size = ord.size;
        last_size = q.best_size;
      })
renew-done q prices l2 m ord h got found =
    let some_level : (length prices == 0) ≡ false = ground arith in
    let last : length prices - 1 ≡ m = omega arith in rw (some_level, last, got, found)

module _ (rev : Bool) (side : Side → Bool) (l : Levels) (l2 : List (ℕ × Order)) (p : ℕ)
    (level : IsLevel rev side l l2) where
  -- The side that the price is not listed on.
  pub erase-IsLevel : exist l.prices p ≡ false → IsLevel rev side l (erase p l2)
  erase-IsLevel other = record {
    ordered = level.ordered;
    indexed = λ q. ground (arith, level.indexed q, lookup-erase p q l2, level.indexed p);
    best =
        λ n h. ground (arith, level.best n, lookup-erase p (l.prices ! n) l2, exist-get l.prices n);
  }

  -- The entry at the index of the price leaves the list.
  abbrev Cut : Option ℕ × List ℕ → Type 0
  Cut (o, l') =
      (i : ℕ) × (o ≡ some i)
      × (i < length l.prices)
      × (l.prices ! i ≡ p)
      × (l' ≡ remove_at i l.prices)

  module _ (listed : exist l.prices p ≡ true) where
    cut : Cut (uni_price_remove l.prices p rev)
    cut =
        go (uni_price_remove l.prices p rev) (uni_price_remove-Removes l.prices p rev level.ordered)
      where
        go : (r : Option ℕ × List ℕ) → Removes l.prices p r → Cut r
        go (none, l') (e, h) = absurd (ground (arith, exist-absent l.prices p h))
        go (some i, l') (h, e, f) = (i, refl, h, e, f)

    abbrev i : ℕ
    i = cut.0

    abbrev rest : List ℕ
    rest = remove_at i l.prices

    rest-indexed : (q : ℕ) → exist rest q ≡ of_side side (lookup q (erase p l2))
    rest-indexed q = ground (
      arith,
      cut,
      level.indexed q,
      lookup-erase p q l2,
      exist-remove_at rev l.prices i q level.ordered,
    )

    length-rest : suc (length rest) ≡ length l.prices
    length-rest = length-remove_at l.prices i cut.2

    -- The last entry of the rest: the old last one, unless that was the price.
    last_price :
        (n : ℕ)
        → length rest ≡ suc n
        → rest ! n ≡ (if i == suc n then l.prices ! n else l.prices ! suc n)
    last_price n e =
        let inside : i < length l.prices = cut.2 in
        ground (arith, get_or-remove_at l.prices i 0 n inside, length-rest)

    kept :
        (n : ℕ)
        → n < length l.prices
        → n ≢ i
        → lookup (l.prices ! n) (erase p l2) ≡ lookup (l.prices ! n) l2
    kept n h ne = ground (
      arith,
      cut,
      lookup-erase p (l.prices ! n) l2,
      IsOrdered-ne rev l.prices n i level.ordered,
      IsOrdered-ne rev l.prices i n level.ordered,
    )

    removed : uni_price_remove l.prices p rev ≡ (some i, rest)
    removed = ground (arith, cut)

    -- The last level of a side cannot be deleted: the new best price would be at index -1.
    pub delete_level-panic : length l.prices ≡ 1 → delete_level rev l l2 p ≡ panic
    unfolding delete_level
    delete_level-panic one = rw (removed, one) (ground (arith, length-rest, cut))

    -- A price that is listed has an order.
    listed_order : (q : ℕ) → exist l.prices q ≡ true → (o : Order) × (lookup q l2 ≡ some o)
    listed_order q h = go (lookup q l2) (sym (level.indexed q) ∙ h)
      where
        go : (o : Option Order) → of_side side o ≡ true → (a : Order) × (o ≡ some a)
        go none e = cc
        go (some a) e = (a, refl)

    abbrev levels : Quote → Levels
    levels quote = record { prices = rest; quote = quote }

    rest-IsLevel :
        (quote : Quote)
        → IsBest (levels quote) (erase p l2)
        → IsLevel rev side (levels quote) (erase p l2)
    rest-IsLevel quote best = record {
      ordered = remove_at-IsOrdered rev l.prices i level.ordered cut.2;
      indexed = rest-indexed;
      best = best;
    }

    -- The best price is deleted: the level under it takes its place in the quote.
    renewed :
        (m : ℕ)
        → length rest ≡ suc m
        → i ≡ suc m
        → (quote : Quote) × (renew_quote l.quote rest l2 ≡ done quote)
          × IsBest (levels quote) (erase p l2)
    renewed m h e =
        let at : rest ! m ≡ l.prices ! m = ground (arith, last_price m) in
        let inside : m < length l.prices = omega (arith, length-rest) in
        let (o, found) = listed_order (l.prices ! m) (exist-get l.prices m inside) in
        let got : get_elem? rest m ≡ some (rest ! m) = get_elem?-eq-get_or rest m 0 (omega arith) in
        let index : length rest - 1 ≡ m = omega arith in
        let same = kept m inside (omega arith) in
        (
          record {
            best_price = rest ! m;
            last_price = l.quote.best_price;
            best_size = o.size;
            last_size = l.quote.best_size;
          },
          renew-done l.quote rest l2 m o h got (rw at found),
          λ n k. let same_n : n ≡ m = omega arith in rw (same_n, at, same, found) (refl, refl),
        )

    -- Another price is deleted: the best level stays the last one.
    upper_best :
        (m n : ℕ)
        → length rest ≡ suc m
        → length rest ≡ suc n
        → i ≢ suc m
        → (l.quote.best_price ≡ rest ! n)
          × (size_of (lookup (rest ! n) (erase p l2)) ≡ some l.quote.best_size)
    upper_best m n h k ne =
        let same_n : n ≡ m = omega arith in
        let at : rest ! m ≡ l.prices ! suc m = ground (arith, last_price m) in
        let same = kept (suc m) (omega (arith, length-rest)) (λ e. ne (sym e)) in
        rw (same_n, at, same) (level.best (suc m) (omega (arith, length-rest)))

    deletes :
        (m : ℕ) → length rest ≡ suc m → Returns (delete_level rev l l2 p) (Deletes rev side l l2 p)
    unfolding delete_level
    deletes m h = elim (ℕ_discrete i (suc m)) [
      | yes e ↦
          let (quote, renews, best) = renewed m h e in
          let top : (length l.prices - i == 1) ≡ true = ground (arith, length-rest) in
          rw (removed, top, renews) (rest-IsLevel quote best, cut.2, cut.3, refl, refl)
      | no e ↦
          let under : (length l.prices - i == 1) ≡ false = ground (arith, length-rest, cut) in
          rw (removed, under)
            (rest-IsLevel l.quote (λ n k. upper_best m n h k e), cut.2, cut.3, refl, refl)
    ]

    -- A side that keeps a level is sound again.
    pub delete_level-Deletes :
        1 < length l.prices → Returns (delete_level rev l l2 p) (Deletes rev side l l2 p)
    delete_level-Deletes more = deletes (length rest - 1) (omega (arith, length-rest))
