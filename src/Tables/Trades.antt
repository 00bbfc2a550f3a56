-- ===== src/Tables/Trades.antt =====
-- utils/cache.go and utils/cache_trade.go together: the trade cache behind the pipeline of tableCache.
use wstester.Prelude.{
  ℕ, ◌≡◌, Bool, true, false, ◌&&◌, Option, none, some, List, [], ◌∷◌, Run, done, panic, ◌>>=◌,
  if◌then◌else◌, ◌==◌, lookup, nat_eq, not, ◌||◌,
}
use wstester.Channels.{RspChannel, Sent, sent, refused, blocked, broken, Fed, fed, stuck, crashed}
use wstester.Trade.{TradeCache, TradeResponse, TradeInput}
use wstester.Trade as Trade
use wstester.Tables.{
  Group, CacheInput, nil_input, nil_message, other_message, message, breakpoint, CacheOps,
  TableCache,
}

-- What the trade cache gives to tableCache. It publishes on channel 0 only, where the list `published`
-- of Trade.handle_input stands for that channel.
abbrev pub trade_ops : CacheOps (TradeCache ℕ) (TradeResponse ℕ)
trade_ops = record {
  take = Trade.snapshot;
  change = λ c rsp.
      let (c', publish) = Trade.apply_data c rsp rsp.action in
      done (c', if publish then (0, rsp) ∷ [] else []);
  nil_panics = true;
}

abbrev pub TradeTable : Type 0
TradeTable = TableCache (TradeCache ℕ) (TradeResponse ℕ)

-- A write to the channel does not wait for ever: the channel is closed, or it has a source that is open.
abbrev pub is_writable : RspChannel (TradeResponse ℕ) → Bool
is_writable ch =
    ch.is_closed || (elim ch.source [ none ↦ false | some inputs ↦ true ] && not ch.source_closed)

abbrev writable_at : Option (RspChannel (TradeResponse ℕ)) → Bool
writable_at none = false
writable_at (some ch) = is_writable ch

-- The group has a channel at depth 0, the default one, and it can be written to.
abbrev pub has_default : Group (TradeResponse ℕ) → Bool
has_default none = false
has_default (some chs) = writable_at (lookup 0 chs)

-- An input of the trade cache, as the pipeline has it; a nil input does nothing.
abbrev pub asked : CacheInput (TradeResponse ℕ) → TradeInput ℕ
asked nil_input = Trade.other
asked (message rsp) = Trade.trade rsp
asked nil_message = Trade.nothing
asked other_message = Trade.other
asked (breakpoint depth publish) = Trade.breakpoint depth

-- A snapshot is published on channel 0, or not at all.
abbrev pub on_default : List (CacheInput (TradeResponse ℕ)) → Bool
on_default [] = true
on_default (breakpoint depth (some (on, session)) ∷ inputs) = (on == 0) && on_default inputs
on_default (_ ∷ inputs) = on_default inputs

-- A write that is done, or refused, and leaves the channel one that can be written to.
abbrev Writes : Sent (RspChannel (TradeResponse ℕ)) → Type 0
Writes (sent ch) = is_writable ch ≡ true
Writes refused = Unit {0}
Writes blocked = ⊥
Writes broken = ⊥

-- The snapshots of a run, where it panics or waits as the run does.
abbrev pub snaps_of : Fed (TradeTable × List (TradeResponse ℕ)) → Fed (List (TradeResponse ℕ))
snaps_of (fed (c, snaps)) = fed snaps
snaps_of stuck = stuck
snaps_of crashed = crashed

-- The same for the specification, which does not wait.
abbrev pub fed_of : Run (List (TradeResponse ℕ)) → Fed (List (TradeResponse ℕ))
fed_of (done snaps) = fed snaps
fed_of panic = crashed

abbrev with_snap : TradeResponse ℕ → Run (List (TradeResponse ℕ)) → Run (List (TradeResponse ℕ))
with_snap s m = m >>= λ snaps. done (s ∷ snaps)
