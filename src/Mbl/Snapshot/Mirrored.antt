-- ===== src/Mbl/Snapshot/Mirrored.antt =====
-- utils/cache_mbl.go: a cache that is filled with another's snapshot.
use wstester.Prelude.{
  ℕ, ◌<◌, ◌≡◌, refl, sym, subst, ap, ◌∙◌, true, false, Option, some, List, [], ◌∷◌, ◌++◌, map,
  reverse, done, arith, lookup, nat_eq, length,
}
use mathlib.Core.List.{append-nil, reverse-reverse, map-append}
use wstester.Sets.{exist}
use wstester.Prices.{IsOrdered}
use wstester.Mbl.{buy, sell, is_buy, is_sell, Order, Levels, MblCache}
use wstester.Mbl.View.{snapshot}
use wstester.Mbl.Level.{of_side, IsBest}
use wstester.Mbl.Sound.{IsSound}
use wstester.Mbl.Apply.Merge.{fill, fill_quote, handle_partial, init_cache}
use wstester.Mbl.Snapshot.{
  shown_prices, snapshot-entries, AllOf, asks-AllOf, bids-AllOf, copied, lookup-copied, fill-side,
}
use wstester.Mbl.Snapshot.Fill.{
  Mirrors, exist-reverse, shown-AllOf, shown-IsOrdered, HasBoth, HasBoth-indexed, fill_quote-IsBest,
  first_partial-filled, shown-length,
}

module _ (c d : MblCache) (depth : ℕ) (sound : IsSound c) where
  asks : List ℕ
  asks = shown_prices depth c.asks.prices

  bids : List ℕ
  bids = shown_prices depth c.bids.prices

  book : List (ℕ × Order)
  book = copied c.l2_cache (reverse bids) (copied c.l2_cache asks [])

  -- The cache after the loop over the entries.
  filled : MblCache
  unfolding asks bids book
  filled = record d {
    asks = record d.asks { prices = asks };
    bids = record d.bids { prices = reverse bids };
    l2_cache = book;
    made = true;
  }

  asks-shown : AllOf c.l2_cache sell asks
  unfolding asks
  asks-shown = shown-AllOf c.l2_cache sell c.asks.prices depth (asks-AllOf c sound)

  bids-shown : AllOf c.l2_cache buy bids
  unfolding bids
  bids-shown = shown-AllOf c.l2_cache buy c.bids.prices depth (bids-AllOf c sound)

  bids-reversed : AllOf c.l2_cache buy (reverse bids)
  bids-reversed p h = bids-shown p (sym (exist-reverse bids p) ∙ h)

  fill-snapshot : fill (init_cache d) (snapshot c depth).entries ≡ done filled
  unfolding asks bids book filled init_cache fill
  fill-snapshot =
      let lk : ℕ → Option Order = λ price. lookup price c.l2_cache in
      let one_side = record d {
        asks = record d.asks { prices = asks };
        bids = record d.bids { prices = [] };
        l2_cache = copied c.l2_cache asks [];
        made = true;
      } in
      ap (fill (init_cache d)) (snapshot-entries c depth ∙ map-append lk asks (reverse bids))
      ∙ fill-side c.l2_cache sell asks (map lk (reverse bids)) (init_cache d) (λ e. ground arith)
          asks-shown
      ∙ ap (fill one_side) (sym (append-nil (map lk (reverse bids))))
      ∙ fill-side c.l2_cache buy (reverse bids) [] one_side (λ e. ground arith) bids-reversed

  book-HasBoth : HasBoth c.l2_cache asks bids book
  unfolding book
  book-HasBoth q = ground (
    arith,
    lookup-copied c.l2_cache buy (reverse bids) (copied c.l2_cache asks []) q bids-reversed,
    lookup-copied c.l2_cache sell asks [] q asks-shown,
    exist-reverse bids q,
  )

  asks-indexed : (p : ℕ) → exist asks p ≡ of_side is_sell (lookup p book)
  asks-indexed =
      HasBoth-indexed c.l2_cache book asks bids sell buy is_sell asks-shown bids-shown refl refl
        book-HasBoth

  bids-indexed : (p : ℕ) → exist bids p ≡ of_side is_buy (lookup p book)
  bids-indexed =
      HasBoth-indexed c.l2_cache book bids asks buy sell is_buy bids-shown asks-shown refl refl
        (λ q. ground (arith, book-HasBoth q))

  book-origin : (p : ℕ) (o : Order) → lookup p book ≡ some o → lookup p c.l2_cache ≡ some o
  book-origin p o e = ground (arith, book-HasBoth p)

  ready : Levels → Levels → MblCache
  unfolding filled
  ready new_asks new_bids =
      let c' = record d { asks = new_asks; bids = new_bids; l2_cache = book; made = true } in
      record c' { published = c'.published ++ (0, snapshot c' 0) ∷ [] }

  ready-IsSound :
      (new_asks new_bids : Levels)
      → new_asks.prices ≡ asks
      → IsBest new_asks book
      → new_bids.prices ≡ bids
      → IsBest new_bids book
      → IsSound (ready new_asks new_bids)
  unfolding ready asks bids
  ready-IsSound new_asks new_bids ea best_ask eb best_bid = record {
    asks = record {
      ordered =
          subst (IsOrdered true) (sym ea)
            (shown-IsOrdered true c.asks.prices depth sound.asks.ordered);
      indexed = λ p. ap (λ l. exist l p) ea ∙ asks-indexed p;
      best = best_ask;
    };
    bids = record {
      ordered =
          subst (IsOrdered false) (sym eb)
            (shown-IsOrdered false c.bids.prices depth sound.bids.ordered);
      indexed = λ p. ap (λ l. exist l p) eb ∙ bids-indexed p;
      best = best_bid;
    };
    keyed = λ p o e. sound.keyed p o (book-origin p o e);
    sided = λ p o e. sound.sided p o (book-origin p o e);
  }

  ready-Mirrors :
      (new_asks new_bids : Levels)
      → new_asks.prices ≡ asks
      → IsBest new_asks book
      → new_bids.prices ≡ bids
      → IsBest new_bids book
      → Mirrors c depth d (ready new_asks new_bids)
  unfolding ready asks bids snapshot
  ready-Mirrors new_asks new_bids ea best_ask eb best_bid = record {
    sound = ready-IsSound new_asks new_bids ea best_ask eb best_bid;
    asks = ea;
    bids = eb;
    orders = λ q. rw (ea, eb) (book-HasBoth q);
    channels = refl;
    published = refl;
  }

  -- For a sound order book with orders on both sides, and another cache that is empty and has the
  -- channel 0: a snapshot of the book, of any depth, given to handlePartial of the other cache, leaves
  -- it sound, with the shown prices of both sides and their orders and no others, and is published in
  -- full on channel 0.
  pub handle_partial-snapshot :
      0 < length c.asks.prices
      → 0 < length c.bids.prices
      → d.l2_cache ≡ []
      → exist d.depths 0 ≡ true
      → (c' : MblCache) × (handle_partial d (snapshot c depth).entries ≡ done c')
        × Mirrors c depth d c'
  unfolding handle_partial filled ready asks bids
  handle_partial-snapshot some_ask some_bid empty channel =
      let (new_asks, quoted_asks, same_asks, best_ask) =
        fill_quote-IsBest (filled.asks) book is_sell (shown-length depth c.asks.prices some_ask)
          asks-indexed in
      let (new_bids, quoted_bids, same_bids, best_bid) =
        fill_quote-IsBest (record d.bids { prices = bids }) book is_buy
          (shown-length depth c.bids.prices some_bid) bids-indexed in
      let turned : reverse (reverse bids) ≡ bids = reverse-reverse bids in
      let quoted : fill_quote (record d.bids { prices = reverse (reverse bids) }) book
          ≡ done new_bids =
        ap (λ l. fill_quote (record d.bids { prices = l }) book) turned ∙ quoted_bids in
      (
        ready new_asks new_bids,
        rw (ap length empty) (
            first_partial-filled d filled (snapshot c depth).entries new_asks new_bids fill-snapshot
              quoted quoted_asks channel),
        ready-Mirrors new_asks new_bids same_asks best_ask same_bids best_bid,
      )
