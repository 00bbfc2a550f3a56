-- ===== src/Mbl/Apply/Merge.antt =====
-- utils/cache_mbl.go: partial responses, which fill an empty cache and are merged into a full one,
-- and the handler of the cache's pipeline.
use wstester.Prelude.{
  ℕ, ◌+◌, ◌-◌, ◌%◌, ◌^◌, Bool, true, false, not, ◌||◌, Option, none, some, List, [], ◌∷◌, ◌++◌, map,
  reverse, Run, done, panic, deref, ◌>>=◌, ◌==◌, ltb, if◌then◌else◌, length, get_elem?, lookup, put,
  nat_eq,
}
use wstester.Sets.{exist, append, values, add, join, sub, new_set}
use wstester.Mbl.{
  is_sell, is_buy, Side, buy, sell, unknown, Order, Action, partial, insert, update, delete,
  MblResponse, Levels, MblCache,
}
use wstester.Mbl.View.{snapshot}
use wstester.Mbl.Apply.{Applied, applied, failed, apply_changes, dispatch_rsp}

unfoldable pub init_cache : MblCache → MblCache
init_cache c = record c {
  l2_cache = [];
  made = true;
  asks = record c.asks { prices = [] };
  bids = record c.bids { prices = [] };
}

abbrev pub push_price : Levels → ℕ → Levels
push_price l price = record l { prices = l.prices ++ price ∷ [] }

-- One order of a first partial; one of an invalid side is skipped.
abbrev pub fill_order : MblCache → Order → Side → MblCache
fill_order c ord buy = record c {
  bids = push_price c.bids ord.price;
  l2_cache = put ord.price ord c.l2_cache;
}
fill_order c ord sell = record c {
  asks = push_price c.asks ord.price;
  l2_cache = put ord.price ord c.l2_cache;
}
fill_order c ord unknown = c

unfoldable pub fill : MblCache → List (Option Order) → Run MblCache
fill c [] = done c
fill c (entry ∷ entries) = deref entry >>= λ ord. fill (fill_order c ord ord.side) entries

-- The best price and size of a filled side, which must not be empty.
abbrev pub fill_quote : Levels → List (ℕ × Order) → Run Levels
fill_quote l l2 = do
  best ← deref (if length l.prices == 0 then none else get_elem? l.prices (length l.prices - 1))
  ord ← deref (lookup best l2)
  done (record l { quote = record l.quote { best_price = best; best_size = ord.size } })

-- `PublishData` on channel 0, which the channel group must have.
abbrev pub publish_default : MblCache → MblResponse → Run MblCache
publish_default c rsp =
    if exist c.depths 0 then done (record c { published = c.published ++ (0, rsp) ∷ [] }) else panic

-- handlePartial on an empty cache.
unfoldable pub first_partial : MblCache → List (Option Order) → Run MblCache
unfolding init_cache fill
first_partial c entries = do
  filled ← fill (init_cache c) entries
  let bid_levels = record filled.bids { prices = reverse filled.bids.prices }
  bids ← fill_quote bid_levels filled.l2_cache
  asks ← fill_quote filled.asks filled.l2_cache
  let ready = record filled { bids = bids; asks = asks }
  publish_default ready (snapshot ready 0)

-- The prices of the orders of one side.
unfoldable pub side_prices : (Side → Bool) → List (Option Order) → Run (List ℕ)
side_prices of_side [] = done []
side_prices of_side (entry ∷ entries) = do
  ord ← deref entry
  rest ← side_prices of_side entries
  done (if of_side ord.side then ord.price ∷ rest else rest)

-- The sets that handlePartial compares: what a partial adds to, takes from, and keeps of one side.
pub record Changed : Type 0 where
  pub added : List ℕ
  pub deleted : List ℕ
  pub updated : List ℕ

abbrev pub changed_prices : List ℕ → List ℕ → Changed
changed_prices origin_prices prices =
    let new = append [] prices in
    let origin = new_set origin_prices in
    record { added = sub new origin; deleted = sub origin new; updated = join origin new }

-- `prices.Exist(ord.Price) && c.l2Cache[ord.Price].Size != ord.Size`
abbrev pub resized : MblCache → List ℕ → Order → Run Bool
resized c prices ord =
    if exist prices ord.price
    then (deref (lookup ord.price c.l2_cache) >>= λ origin. done (not (origin.size == ord.size)))
    else done false

-- The loop that collects the inserted and the updated orders; `||` stops at the first test that
-- holds.
unfoldable pub collect :
    MblCache
    → Changed
    → Changed
    → List (Option Order)
    → Run (List (Option Order) × List (Option Order))
collect c sells buys [] = done ([], [])
collect c sells buys (entry ∷ entries) = do
  ord ← deref entry
  let is_new = exist sells.added ord.price || exist buys.added ord.price
  sell_resized ← resized c sells.updated ord
  is_resized ← if sell_resized then done true else resized c buys.updated ord
  rest ← collect c sells buys entries
  let (inserts, updates) = rest
  done (
    if is_new then some ord ∷ inserts else inserts,
    if is_resized then some ord ∷ updates else updates,
  )

abbrev pub change_rsp : Action → List (Option Order) → MblResponse
change_rsp action entries = record { suffixes = []; action = action; entries = entries }

-- What failed is logged and left as it is; what succeeded is dispatched.
abbrev pub dispatch_applied : MblResponse → Applied → MblCache
dispatch_applied rsp (applied c limits) = dispatch_rsp c rsp limits
dispatch_applied rsp (failed c e) = c

-- `if len(rsp.Data) > 0`: apply a made response and dispatch it.
unfoldable pub merge_rsp : MblCache → MblResponse → Run MblCache
unfolding apply_changes
merge_rsp c rsp =
    if length rsp.entries == 0
    then done c
    else apply_changes c rsp rsp.action >>= λ result. done (dispatch_applied rsp result)

-- handlePartial on a full cache: the differences go through the three changes, deletions first.
unfoldable pub merge_partial : MblCache → List (Option Order) → Run MblCache
unfolding merge_rsp collect side_prices
merge_partial c entries = do
  sell_prices ← side_prices is_sell entries
  buy_prices ← side_prices is_buy entries
  let sells = changed_prices c.asks.prices sell_prices
  let buys = changed_prices c.bids.prices buy_prices
  let dropped = values (add sells.deleted buys.deleted)
  c1 ← merge_rsp c (change_rsp delete (map (λ price. lookup price c.l2_cache) dropped))
  changes ← collect c1 sells buys entries
  let (inserts, updates) = changes
  c2 ← merge_rsp c1 (change_rsp insert inserts)
  merge_rsp c2 (change_rsp update updates)

unfoldable pub handle_partial : MblCache → List (Option Order) → Run MblCache
unfolding first_partial merge_partial
handle_partial c entries =
    if ltb (length c.l2_cache) 1 then first_partial c entries else merge_partial c entries

unfoldable pub apply_data : MblCache → MblResponse → Action → Run Applied
unfolding apply_changes handle_partial
apply_data c rsp partial = handle_partial c rsp.entries >>= λ c'. done (applied c' none)
apply_data c rsp action = apply_changes c rsp action

-- What stands in the cache's pipeline: a snapshot request, nothing, an order book response, or a
-- response of another table.
pub data MblInput : Type 0 where
  breakpoint no_msg other_table : MblInput
  mbl : MblResponse → MblInput

-- A breakpoint runs its own function, which reads the cache only.
unfoldable pub handle_input : MblCache → MblInput → Run MblCache
unfolding apply_data
handle_input c breakpoint = done c
handle_input c no_msg = done c
handle_input c other_table = done c
handle_input c (mbl rsp) =
    let counted = record c { history_count = (c.history_count + length rsp.entries) % 2 ^ 64 } in
    apply_data counted rsp rsp.action >>= λ result. done (dispatch_applied rsp result)
