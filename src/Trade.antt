-- ===== src/Trade.antt =====
-- utils/cache_trade.go: the cache of the newest trades.
-- `A` is the type of a trade, whose fields the cache does not read.
pub mod Newest
use wstester.Prelude.{
  ℕ, ◌-◌, ◌*◌, ◌/◌, Bool, true, false, ◌||◌, Option, none, some, List, [], ◌∷◌, ◌++◌, Run, done,
  panic, length, drop, ◌>>=◌, ltb, if◌then◌else◌, min,
}
use wstester.Mbl.{Action, partial, insert, update, delete, invalid}

-- `maxTradeLen` and `maxMultiple`.
abbrev pub max_trade_len : ℕ
max_trade_len = 200

abbrev pub max_multiple : ℕ
max_multiple = 3

pub record TradeResponse {ℓ} (A : Type ℓ) : Type ℓ where
  pub action : Action
  pub entries : List A

-- `published` is what was given to PublishData on channelGroup[Realtime][0], oldest first.
pub record TradeCache {ℓ} (A : Type ℓ) : Type ℓ where
  pub history_trade : List A
  pub published : List (TradeResponse A)

-- An input of the pipeline: TakeSnapshot's breakpoint, a message that is nil, one of trades, or one
-- of another table.
pub data TradeInput {ℓ} (A : Type ℓ) : Type ℓ where
  breakpoint : ℕ → TradeInput A
  nothing : TradeInput A
  trade : TradeResponse A → TradeInput A
  other : TradeInput A

module _ {ℓ} {A : Type ℓ} where
  -- `snapshot(depth)`; a depth below one stands for zero.
  unfoldable pub snapshot : TradeCache A → ℕ → TradeResponse A
  snapshot c depth =
      let his_len = length c.history_trade in
      let trim_len =
        if ltb depth 1 then min his_len max_trade_len else min (min max_trade_len his_len) depth in
      record { action = partial; entries = drop (his_len - trim_len) c.history_trade }

  -- The history after an insert, cut to half of its largest length when it is longer than that.
  unfoldable pub trimmed : List A → List A
  trimmed history =
      if ltb (max_trade_len * max_multiple) (length history)
      then drop (length history - max_trade_len * max_multiple / 2) history
      else history

  -- `applyData`: the cache, and whether the response is to be published.
  unfoldable pub apply_data : TradeCache A → TradeResponse A → Action → TradeCache A × Bool
  unfolding trimmed
  apply_data c rsp partial =
      (record c { history_trade = rsp.entries }, ltb (length c.history_trade) 1)
  apply_data c rsp insert =
      (record c { history_trade = trimmed (c.history_trade ++ rsp.entries) }, true)
  apply_data c rsp _ = (c, false)

  -- `handleInput`: the cache, and the snapshot that a breakpoint hands to TakeSnapshot. A nil message
  -- is logged through a method of the nil interface.
  unfoldable pub handle_input :
      TradeCache A → TradeInput A → Run (TradeCache A × Option (TradeResponse A))
  unfolding apply_data snapshot
  handle_input c (breakpoint depth) = done (c, some (snapshot c depth))
  handle_input c nothing = panic
  handle_input c (trade rsp) =
      let (c', publish) = apply_data c rsp rsp.action in
      done (if publish then record c' { published = c'.published ++ rsp ∷ [] } else c', none)
  handle_input c other = done (c, none)

  -- The loop of Start, over inputs that come one after another: what the snapshots were.
  unfoldable pub run_inputs :
      TradeCache A → List (TradeInput A) → Run (TradeCache A × List (TradeResponse A))
  unfolding handle_input
  run_inputs c [] = done (c, [])
  run_inputs c (input ∷ inputs) = do
    (c', snap) ← handle_input c input
    (c'', snaps) ← run_inputs c' inputs
    done (c'', elim snap [ none ↦ snaps | some s ↦ s ∷ snaps ])
