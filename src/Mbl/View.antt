-- ===== src/Mbl/View.antt =====
-- utils/cache_mbl.go: what the order book cache answers: its best quotes, its depths, the order at
-- a depth, and snapshots.
use wstester.Prelude.{
  ℕ, ◌-◌, Bool, not, ◌||◌, Option, none, some, List, [], ◌∷◌, ◌++◌, map, reverse, Run, done, deref,
  ◌>>=◌, ◌==◌, ltb, leb, if◌then◌else◌, length, get_elem?, drop, lookup, nat_eq,
}
use wstester.Mbl.{Side, buy, sell, unknown, Order, partial, MblResponse, Quote, Levels, MblCache}

abbrev pub best_bid_price : MblCache → ℕ
best_bid_price c = c.bids.quote.best_price

abbrev pub best_bid_size : MblCache → ℕ
best_bid_size c = c.bids.quote.best_size

abbrev pub best_ask_price : MblCache → ℕ
best_ask_price c = c.asks.quote.best_price

abbrev pub best_ask_size : MblCache → ℕ
best_ask_size c = c.asks.quote.best_size

abbrev pub quote_changed : Quote → Bool
quote_changed q = not (q.best_price == q.last_price) || not (q.best_size == q.last_size)

abbrev pub settle : Levels → Levels
settle l =
    if quote_changed l.quote
    then record l {
      quote = record l.quote { last_price = l.quote.best_price; last_size = l.quote.best_size };
    }
    else l

-- The answer of IsQuoteChange, and the cache with what it has marked as seen.
unfoldable pub is_quote_change : MblCache → Bool × MblCache
is_quote_change c = (
  quote_changed c.bids.quote || quote_changed c.asks.quote,
  record c { bids = settle c.bids; asks = settle c.asks },
)

-- `MinInt(i, j)`
abbrev pub min_int : ℕ → ℕ → ℕ
min_int i j = if leb i j then i else j

-- Depth 0 is every level. The asks come first, the farthest one on top; then the bids, from the
-- best one down. An entry is nil where the cache has no order at a listed price.
unfoldable pub snapshot : MblCache → ℕ → MblResponse
snapshot c depth =
    let asks = c.asks.prices in
    let bids = c.bids.prices in
    let sell_depth = if ltb 0 depth then min_int (length asks) depth else length asks in
    let buy_depth = if ltb 0 depth then min_int (length bids) depth else length bids in
    record {
      suffixes = if ltb 0 depth then depth ∷ [] else [];
      action = partial;
      entries =
          map (λ price. lookup price c.l2_cache)
            (drop (length asks - sell_depth) asks ++ reverse (drop (length bids - buy_depth) bids));
    }

-- `none` is the source's -1.
unfoldable pub get_depth : MblCache → Side → Option ℕ
get_depth c buy = some (length c.bids.prices)
get_depth c sell = some (length c.asks.prices)
get_depth c unknown = none

-- The order at a depth of one price list. At depth 0 the index is out of range.
unfoldable pub order_on_level : List ℕ → List (ℕ × Order) → ℕ → Run (Option Order)
order_on_level prices l2 depth =
    if ltb (length prices) 1 || ltb (length prices) depth
    then done none
    else deref (get_elem? prices (length prices - depth)) >>= λ price. done (lookup price l2)

unfoldable pub get_order_on_depth : MblCache → Side → ℕ → Run (Option Order)
unfolding order_on_level
get_order_on_depth c buy depth = order_on_level c.bids.prices c.l2_cache depth
get_order_on_depth c sell depth = order_on_level c.asks.prices c.l2_cache depth
get_order_on_depth c unknown depth = done none
