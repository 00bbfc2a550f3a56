-- ===== src/Examples/Caches.antt =====
-- utils/cache_trade.go, cache_instrument.go and cache.go at small caches.
use wstester.Prelude.{
  ℕ, true, false, none, ◌≡◌, refl, List, [], ◌∷◌, arith, some, done, Returns, nat_eq, pos,
}
use wstester.Mbl.{partial, insert, update}
use wstester.Trade.{TradeCache, TradeResponse, TradeInput, breakpoint, trade, run_inputs}
use wstester.Channels.{RspChannel}
use wstester.Tables.{CacheInput, message}
use wstester.Tables as Tables
use wstester.Tables.Trades.{TradeTable, snaps_of as table_snaps_of}
use wstester.Trade.Newest.{snaps_of, snapshots, run_inputs-snapshots}
use wstester.Instruments.{
  Instrument, InstrumentCache, InstrumentInput, instrument, find, handle_update, handle_input,
}
use wstester.Instruments.History.{IsBounded, handle_input-IsBounded}
use wstester.Instruments.Update.{Updates, handle_update-Updates, handle_input-lost_change}

abbrev no_trades : TradeCache ℕ
no_trades = record { history_trade = []; published = [] }

abbrev trades : List ℕ → TradeResponse ℕ
trades entries = record { action = insert; entries = entries }

abbrev inputs : List (TradeInput ℕ)
inputs = trade (trades (1 ∷ 2 ∷ [])) ∷ breakpoint 1 ∷ trade (trades (3 ∷ [])) ∷ breakpoint 0 ∷ []

snaps :
    snapshots [] inputs
    ≡ done (
        record { action = partial; entries = 2 ∷ [] }
        ∷ record { action = partial; entries = 1 ∷ 2 ∷ 3 ∷ [] }
        ∷ [])
snaps = refl

run_inputs-snapshots_example : snaps_of (run_inputs no_trades inputs) ≡ snapshots [] inputs
run_inputs-snapshots_example = run_inputs-snapshots no_trades inputs

abbrev default_channel : RspChannel (TradeResponse ℕ)
default_channel = record {
  source = some [];
  destinations = [];
  children = [];
  source_closed = false;
  is_ready = true;
  is_closed = false;
}

abbrev table : TradeTable
table = record {
  state = no_trades;
  realtime = some ((0, default_channel) ∷ []);
  snapshot = none;
  tick = none;
  pipeline = [];
  pipeline_closed = false;
  is_ready = true;
  is_closed = false;
}

abbrev table_inputs : List (CacheInput (TradeResponse ℕ))
table_inputs =
    message (trades (1 ∷ 2 ∷ []))
    ∷ Tables.breakpoint 1 (some (0, 7))
    ∷ message (trades (3 ∷ []))
    ∷ Tables.breakpoint 0 none
    ∷ []

abbrev at_price : ℕ → ℕ → Instrument
at_price symbol price = record {
  symbol = symbol;
  indicative_settle_price = pos 0;
  mark_price = pos 0;
  fair_basis = pos 0;
  fair_price = pos 0;
  prev_mark_price_24h = pos 0;
  bid_price = pos 0;
  ask_price = pos 0;
  last_price = pos price;
  prev_price_24h = pos 0;
  last_change_pcnt = pos 0;
  last_tick_direction = pos 0;
  volume = pos 0;
  volume_24h = pos 0;
  total_volume = pos 0;
  prev_total_volume = pos 0;
  turnover = pos 0;
  turnover_24h = pos 0;
  total_turnover = pos 0;
  prev_total_turnover = pos 0;
  funding_rate = pos 0;
  funding_timestamp = pos 0;
}

abbrev stored : List (ℕ × Instrument)
stored = (1, at_price 1 5) ∷ []

abbrev instruments : InstrumentCache
instruments = record {
  indicative_price_list = [];
  mark_price_list = [];
  ins_cache = some stored;
  published = [];
}

instruments-IsBounded : IsBounded instruments
instruments-IsBounded = record { indicative = omega arith; aligned = refl }

abbrev two_updates : InstrumentInput
two_updates =
    instrument record { action = update; entries = some (at_price 1 6) ∷ some (at_price 2 7) ∷ [] }

handle_update-Updates_example :
    Updates instruments stored
      (at_price 1 5)
      (at_price 1 6)
      (handle_update instruments (at_price 1 6))
handle_update-Updates_example =
    handle_update-Updates instruments stored (at_price 1 5) (at_price 1 6) refl refl

handle_input-lost_change_example : Returns (handle_input instruments two_updates) (λ r.
    (r.0.published ≡ [])
    × ((after : Instrument) × (find 1 r.0.ins_cache ≡ some after) × (after.last_price ≡ pos 6)))
handle_input-lost_change_example =
    handle_input-lost_change instruments stored (at_price 1 5) (at_price 1 6) (at_price 2 7) refl
      refl refl refl

handle_input-IsBounded_example : Returns (handle_input instruments two_updates) (λ r. IsBounded r.0)
handle_input-IsBounded_example =
    handle_input-IsBounded instruments two_updates instruments-IsBounded refl
