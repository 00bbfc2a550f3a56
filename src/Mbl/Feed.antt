-- ===== src/Mbl/Feed.antt =====
-- utils/cache_mbl.go: what a client of a depth-limited channel sees. The specification is a view,
-- the orders of the best `k` levels of either side; the code sends changes for it (applyData), which
-- a client replays.
pub mod Delete
pub mod Insert
pub mod Update
use wstester.Prelude.{
  ℕ, zero, suc, ◌+◌, ◌-◌, ◌≤◌, ◌<◌, ◌≡◌, ◌≢◌, refl, Bool, true, false, not, ◌||◌, ◌&&◌, Option,
  none, some, List, [], ◌∷◌, Run, done, panic, deref, ◌>>=◌, arith, ◌==◌, leb, ltb, if◌then◌else◌,
  length, get_elem?, get_elem?-eq-get_or, lookup, nat_eq, Returns, Bool-cases, inl, inr,
}
use wstester.Sets.{exist}
use wstester.Prices.{◌!◌}
use wstester.Mbl.{
  Side, buy, sell, unknown, Order, Action, insert, update, delete, MblResponse, MblCache, MblError,
}
use wstester.Mbl.View.{order_on_level, get_order_on_depth}
use wstester.Mbl.Apply.{LimitRsp, Applied, applied, failed}
use wstester.Mbl.Sound.{prices_of}
use wstester.Mbl.Top.{top, at_depth}

-- Is the price among the best `k` of its side?
abbrev pub shown : MblCache → ℕ → ℕ → Bool
shown c k q = exist (top k (prices_of c sell)) q || exist (top k (prices_of c buy)) q

abbrev pub View : Type 0
View = ℕ → Option Order

abbrev pub view : MblCache → ℕ → View
view c k q = if shown c k q then lookup q c.l2_cache else none

abbrev pub with_size : ℕ → Option Order → Option Order
with_size size none = none
with_size size (some o) = some (record o { size = size })

-- What a client does with an order of a response.
abbrev pub replay_order : Action → Order → View → View
replay_order delete o v q = if q == o.price then none else v q
replay_order insert o v q = if q == o.price then some o else v q
replay_order update o v q = if q == o.price then with_size o.size (v q) else v q
replay_order _ o v q = v q

abbrev pub replay_entries : Action → List (Option Order) → View → View
replay_entries action [] v = v
replay_entries action (none ∷ entries) v = replay_entries action entries v
replay_entries action (some o ∷ entries) v = replay_entries action entries (replay_order action o v)

-- The two responses of a limited channel, in the order in which they are sent.
abbrev pub replay_makeup : Option MblResponse → View → View
replay_makeup none v = v
replay_makeup (some rsp) v = replay_entries rsp.action rsp.entries v

abbrev pub replay : LimitRsp → View → View
replay pair v = replay_makeup pair.makeup (replay_entries pair.main.action pair.main.entries v)

-- The responses turn the view of the cache before into the view of the cache after.
abbrev pub Follows : MblCache → MblCache → ℕ → LimitRsp → Type 0
Follows c c' k pair = (q : ℕ) → replay pair (view c k) q ≡ view c' k q

-- applyData fed one limited channel, and its responses follow the cache.
abbrev pub Feeds : MblCache → ℕ → Applied → Type 0
Feeds c k (applied c' (some ((limit, pair) ∷ []))) = Follows c c' k pair
Feeds c k _ = ⊥

abbrev pub found : Option ℕ → List (ℕ × Order) → Option Order
found none l2 = none
found (some p) l2 = lookup p l2

-- The order at a depth, from the price at that depth.
pub order_on_level-found :
    (prices : List ℕ) (l2 : List (ℕ × Order)) (k : ℕ)
    → 0 < k
    → order_on_level prices l2 k ≡ done (found (at_depth k prices) l2)
unfolding order_on_level
order_on_level-found prices l2 k pos =
    elim (Bool-cases (ltb (length prices) 1 || ltb (length prices) k)) [
      | inl short ↦ rw (short, order_on_level)
      | inr deep ↦
          let got = get_elem?-eq-get_or prices (length prices - k) 0 (ground arith) in
          rw (deep, order_on_level, got)
    ]

pub get_order_on_depth-found :
    (c : MblCache) (s : Side) (k : ℕ)
    → 0 < k
    → get_order_on_depth c s k ≡ done (found (at_depth k (prices_of c s)) c.l2_cache)
unfolding get_order_on_depth
get_order_on_depth-found c buy k pos = order_on_level-found c.bids.prices c.l2_cache k pos
get_order_on_depth-found c sell k pos = order_on_level-found c.asks.prices c.l2_cache k pos
get_order_on_depth-found c unknown k pos = refl
