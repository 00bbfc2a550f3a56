-- ===== src/Tables/Made.antt =====
-- utils/cache_trade.go, utils/cache_mbl.go and utils/cache_instrument.go: NewTradeCache, NewMBLCache and
-- NewInstrumentCache, which do the same on their own states, and NewDepthChannel. Contexts are left out.
pub mod Ready
use wstester.Prelude.{
  ℕ, Bool, true, false, Option, none, some, List, [], ◌∷◌, Run, done, panic, deref, ◌>>=◌, lookup,
  put, nat_eq,
}
use wstester.Channels.{RspChannel, start}
use wstester.Tables.{TableCache, start_cache}
use wstester.Trade.{TradeCache}
use wstester.Mbl.{Quote, MblCache}
use wstester.Instruments.{InstrumentCache}

-- `&rspChannel{...}`
abbrev pub new_channel : {A : Type 0} → RspChannel A
new_channel = record {
  source = none;
  destinations = [];
  children = [];
  source_closed = false;
  is_ready = false;
  is_closed = false;
}

module _ {S A : Type 0} where
  abbrev pub unstarted : S → TableCache S A
  unstarted s = record {
    state = s;
    realtime = some ((0, new_channel) ∷ []);
    snapshot = none;
    tick = none;
    pipeline = [];
    pipeline_closed = false;
    is_ready = false;
    is_closed = false;
  }

  -- The constructors, from the zero value of their state; an error of Start panics.
  unfoldable pub new_cache : S → Run (TableCache S A)
  unfolding start_cache
  new_cache s = deref (start_cache (unstarted s))

  -- `Start()` of the channel that the code has under 25, and whether it returns no error.
  abbrev pub started_25 :
      TableCache S A → List (ℕ × RspChannel A) → RspChannel A → TableCache S A × Bool
  started_25 c chs ch = elim (start ch) [
    | none ↦ (record c { realtime = some chs }, false)
    | some ch' ↦ (record c { realtime = some (put 25 ch' chs) }, true)
  ]

  -- `NewDepthChannel`: it panics on a nil map, and on a nil channel under 25.
  unfoldable pub new_depth_channel : TableCache S A → ℕ → Run (TableCache S A × Bool)
  new_depth_channel c depth = deref c.realtime >>= λ chs.
      let chs' = put depth new_channel chs in
      deref (lookup 25 chs') >>= λ ch. done (started_25 c chs' ch)

-- `NewTradeCache`
unfoldable pub new_trade_cache : {T A : Type 0} → Run (TableCache (TradeCache T) A)
unfolding new_cache
new_trade_cache = new_cache (record { history_trade = []; published = [] })

abbrev pub no_quote : Quote
no_quote = record { best_price = 0; last_price = 0; best_size = 0; last_size = 0 }

-- `NewMBLCache`
unfoldable pub new_mbl_cache : {A : Type 0} → Run (TableCache MblCache A)
unfolding new_cache
new_mbl_cache = new_cache (record {
  history_count = 0;
  asks = record { prices = []; quote = no_quote };
  bids = record { prices = []; quote = no_quote };
  l2_cache = [];
  made = false;
  depths = 0 ∷ [];
  published = [];
})

-- `NewInstrumentCache`
unfoldable pub new_instrument_cache : {A : Type 0} → Run (TableCache InstrumentCache A)
unfolding new_cache
new_instrument_cache =
    new_cache (record {
      indicative_price_list = [];
      mark_price_list = [];
      ins_cache = none;
      published = [];
    })
