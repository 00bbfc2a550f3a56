-- ===== src/Mbl.antt =====
-- utils/cache_mbl.go: the order book cache. Its types, and the three changes of one order.
-- Prices are ticks and sizes are contracts, both natural numbers; the source's float64 and float32
-- hold such values exactly. A price list and its quote are kept together for each side.
pub mod View
pub mod Apply
pub mod Level
pub mod Sound
pub mod Faults
pub mod Top
pub mod Feed
pub mod Snapshot
use wstester.Prelude.{
  ℕ, zero, suc, ◌+◌, ◌-◌, Bool, true, false, Option, none, some, List, [], ◌∷◌, ◌++◌, Run, done,
  panic, deref, ◌>>=◌, ◌==◌, if◌then◌else◌, length, get_elem?, lookup, put, erase, nat_eq,
}
use wstester.Prices.{uni_price_search, uni_price_add, uni_price_remove}

-- `Side`: "Buy", "Sell" or any other text.
pub data Side : Type 0 where
  buy sell unknown : Side

abbrev pub is_sell : Side → Bool
is_sell sell = true
is_sell _ = false

abbrev pub is_buy : Side → Bool
is_buy buy = true
is_buy _ = false

-- The fields of an OrderBookL2 entry that the cache reads.
pub record Order : Type 0 where
  pub id : ℕ
  pub side : Side
  pub price : ℕ
  pub size : ℕ

pub data Action : Type 0 where
  partial insert update delete invalid : Action

-- A response's data are pointers, which a message may leave nil. `suffixes` are the depths that
-- were appended to the table's name, as in "orderBookL2_25".
pub record MblResponse : Type 0 where
  pub suffixes : List ℕ
  pub action : Action
  pub entries : List (Option Order)

pub record Quote : Type 0 where
  pub best_price : ℕ
  pub last_price : ℕ
  pub best_size : ℕ
  pub last_size : ℕ

-- `bidPrices` and `bidQuote`, or `askPrices` and `askQuote`.
pub record Levels : Type 0 where
  pub prices : List ℕ
  pub quote : Quote

-- `depths` are the keys of channelGroup[Realtime]; `published` is what was given to PublishData on
-- those channels, oldest first. `made` says that l2Cache is not nil; a nil map is read as an empty one.
pub record MblCache : Type 0 where
  pub history_count : ℕ
  pub asks : Levels
  pub bids : Levels
  pub l2_cache : List (ℕ × Order)
  pub made : Bool
  pub depths : List ℕ
  pub published : List (ℕ × MblResponse)

pub data MblError : Type 0 where
  not_exist already_exist invalid_side price_not_found invalid_action : MblError

-- What one change returns beside the cache: the depth of the price, and an error.
abbrev pub Change : Type 0
Change = MblCache × ℕ × Option MblError

-- `originLen - idx`, where `none` stands for an index of -1.
abbrev pub depth_of : ℕ → Option ℕ → ℕ
depth_of len none = len + 1
depth_of len (some idx) = len - idx

-- The best level becomes the last of the price list, which must not be empty.
abbrev pub renew_quote : Quote → List ℕ → List (ℕ × Order) → Run Quote
renew_quote q prices l2 =
    deref (if length prices == 0 then none else get_elem? prices (length prices - 1)) >>= λ best.
    deref (lookup best l2) >>= λ ord. done (record {
      best_price = best;
      last_price = q.best_price;
      best_size = ord.size;
      last_size = q.best_size;
    })

-- One case of handleDelete: the price leaves its list, and the quote follows the best level.
unfoldable pub delete_level : Bool → Levels → List (ℕ × Order) → ℕ → Run (Levels × ℕ × Option ℕ)
delete_level rev l l2 price =
    let (idx, prices) = uni_price_remove l.prices price rev in
    let depth = depth_of (length l.prices) idx in
    (if depth == 1 then renew_quote l.quote prices l2 else done l.quote) >>= λ quote.
    done (record { prices = prices; quote = quote }, depth, idx)

abbrev pub not_found : Option ℕ → Option MblError
not_found none = some price_not_found
not_found (some idx) = none

-- handleDelete behind its first test, by the order's side.
unfoldable pub delete_side : MblCache → Order → Side → Run Change
unfolding delete_level
delete_side c ord buy = delete_level false c.bids c.l2_cache ord.price >>= λ (levels, depth, idx).
    done (record c { bids = levels; l2_cache = erase ord.price c.l2_cache }, depth, not_found idx)
delete_side c ord sell = delete_level true c.asks c.l2_cache ord.price >>= λ (levels, depth, idx).
    done (record c { asks = levels; l2_cache = erase ord.price c.l2_cache }, depth, not_found idx)
delete_side c ord unknown =
    done (record c { l2_cache = erase ord.price c.l2_cache }, 0, some price_not_found)

unfoldable pub handle_delete : MblCache → Order → Run Change
unfolding delete_side
handle_delete c ord = elim (lookup ord.price c.l2_cache) [
  | none ↦ done (c, 0, some not_exist)
  | some origin ↦ delete_side c ord ord.side
]

-- One case of handleInsert.
unfoldable pub insert_level : Bool → Levels → Order → Levels × ℕ
insert_level rev l ord =
    let (idx, prices) = uni_price_add l.prices ord.price rev in
    let depth = length prices - idx in
    let best : Quote = record {
      best_price = ord.price;
      last_price = l.quote.best_price;
      best_size = ord.size;
      last_size = l.quote.best_size;
    } in
    (record { prices = prices; quote = if depth == 1 then best else l.quote }, depth)

-- The last statements of handleInsert, also on an invalid side.
abbrev pub store : MblCache → Order → MblCache
store c ord = record c { l2_cache = put ord.price ord c.l2_cache }

unfoldable pub insert_side : MblCache → Order → Side → Change
unfolding insert_level
insert_side c ord buy =
    let (levels, depth) = insert_level false c.bids ord in
    (store (record c { bids = levels }) ord, depth, none)
insert_side c ord sell =
    let (levels, depth) = insert_level true c.asks ord in
    (store (record c { asks = levels }) ord, depth, none)
insert_side c ord unknown = (store c ord, 0, some invalid_side)

-- The last write, to a map that is nil, panics.
unfoldable pub handle_insert : MblCache → Order → Run Change
unfolding insert_side
handle_insert c ord = elim (lookup ord.price c.l2_cache) [
  | some origin ↦ done (c, 0, some already_exist)
  | none ↦ if c.made then done (insert_side c ord ord.side) else panic
]

-- One case of handleUpdate.
unfoldable pub update_level : Bool → Levels → Order → Levels × ℕ × Option ℕ
update_level rev l ord =
    let idx = uni_price_search l.prices ord.price rev in
    let depth = depth_of (length l.prices) idx in
    let resized = record l.quote { last_size = l.quote.best_size; best_size = ord.size } in
    (record l { quote = if depth == 1 then resized else l.quote }, depth, idx)

-- `origin.Size = ord.Size`, if the price was found.
abbrev pub resize : MblCache → Order → Order → Option ℕ → MblCache
resize c ord origin none = c
resize c ord origin (some idx) = record c {
  l2_cache = put ord.price (record origin { size = ord.size }) c.l2_cache;
}

unfoldable pub update_side : MblCache → Order → Order → Side → Change
unfolding update_level
update_side c ord origin buy =
    let (levels, depth, idx) = update_level false c.bids ord in
    (resize (record c { bids = levels }) ord origin idx, depth, not_found idx)
update_side c ord origin sell =
    let (levels, depth, idx) = update_level true c.asks ord in
    (resize (record c { asks = levels }) ord origin idx, depth, not_found idx)
update_side c ord origin unknown = (c, 0, some price_not_found)

unfoldable pub handle_update : MblCache → Order → Change
unfolding update_side
handle_update c ord = elim (lookup ord.price c.l2_cache) [
  | some origin ↦ update_side c ord origin ord.side
  | none ↦ (c, 0, some not_exist)
]
