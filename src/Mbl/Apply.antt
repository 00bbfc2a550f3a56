-- ===== src/Mbl/Apply.antt =====
-- utils/cache_mbl.go: how a response changes the cache, and what is published on the channels.
pub mod Merge
use wstester.Prelude.{
  ℕ, zero, suc, ◌+◌, ◌-◌, ◌%◌, ◌^◌, Bool, true, false, not, ◌||◌, ◌&&◌, Option, none, some, List,
  [], ◌∷◌, ◌++◌, map, reverse, Run, done, panic, deref, ◌>>=◌, ◌==◌, ltb, leb, if◌then◌else◌,
  length, get_elem?, lookup, put, nat_eq,
}
use wstester.Mbl.{
  Side, buy, sell, unknown, Order, Action, partial, insert, update, delete, invalid, MblResponse,
  Quote, Levels, MblCache, MblError, invalid_action, Change, handle_insert, handle_update,
  handle_delete,
}
use wstester.Mbl.View.{get_order_on_depth, is_quote_change}

-- `limitRspMap[depth]`: the response for a limited channel, and the one that makes up for it.
pub record LimitRsp : Type 0 where
  pub main : MblResponse
  pub makeup : Option MblResponse

abbrev pub empty_rsp : MblResponse → Action → MblResponse
empty_rsp rsp action = record { suffixes = rsp.suffixes; action = action; entries = [] }

abbrev pub new_makeup : MblResponse → Action → Option MblResponse
new_makeup rsp delete = some (empty_rsp rsp insert)
new_makeup rsp insert = some (empty_rsp rsp delete)
new_makeup rsp _ = none

-- One entry for every limited channel, before any order is applied.
unfoldable pub new_limits : List ℕ → MblResponse → List (ℕ × LimitRsp)
new_limits [] rsp = []
new_limits (depth ∷ depths) rsp =
    let rest = new_limits depths rsp in
    if not (depth == 0)
    then (depth, record { main = empty_rsp rsp rsp.action; makeup = new_makeup rsp rsp.action })
      ∷ rest
    else rest

abbrev pub with_order : MblResponse → Order → MblResponse
with_order rsp ord = record rsp { entries = rsp.entries ++ some ord ∷ [] }

-- `rspList[1].Data = append(...)`, where the order at the makeup depth is there.
abbrev pub with_makeup : Option MblResponse → Option Order → Run (Option MblResponse)
with_makeup makeup none = done makeup
with_makeup makeup (some ord) = deref makeup >>= λ rsp. done (some (with_order rsp ord))

-- One limited channel and one deleted or inserted order: an order within the limit is appended, and
-- so is the order that now stands at the makeup depth.
abbrev pub feed_one : MblCache → Order → ℕ → ℕ → LimitRsp → Run LimitRsp
feed_one c ord limit next rsp = do
  makeup_ord ← get_order_on_depth c ord.side next
  makeup ← with_makeup rsp.makeup makeup_ord
  done (record { main = with_order rsp.main ord; makeup = makeup })

-- The loop over the limited channels for a deleted (`next` is the limit) or an inserted order
-- (`next` is the limit plus one).
unfoldable pub feed_makeup :
    (ℕ → ℕ) → MblCache → Order → ℕ → List (ℕ × LimitRsp) → Run (List (ℕ × LimitRsp))
feed_makeup next c ord depth [] = done []
feed_makeup next c ord depth ((limit, rsp) ∷ limits) = do
  fed ← if leb depth limit then feed_one c ord limit (next limit) rsp else done rsp
  rest ← feed_makeup next c ord depth limits
  done ((limit, fed) ∷ rest)

-- The loop over the limited channels for an updated order.
unfoldable pub feed_update : MblCache → Order → ℕ → List (ℕ × LimitRsp) → Run (List (ℕ × LimitRsp))
feed_update c ord depth [] = done []
feed_update c ord depth ((limit, rsp) ∷ limits) = feed_update c ord depth limits >>= λ rest.
    done (
      (limit, if leb depth limit then record rsp { main = with_order rsp.main ord } else rsp)
      ∷ rest)

-- What applyData returns: the cache, which an error does not take back, and the limited responses.
pub data Applied : Type 0 where
  applied : MblCache → Option (List (ℕ × LimitRsp)) → Applied
  failed : MblCache → MblError → Applied

-- The loops over a response's orders: each is applied, then fed to the limited channels; the first
-- error ends the loop.
unfoldable pub apply_orders :
    (MblCache → Order → Run Change)
    → (MblCache → Order → ℕ → List (ℕ × LimitRsp) → Run (List (ℕ × LimitRsp)))
    → MblCache
    → List (Option Order)
    → List (ℕ × LimitRsp)
    → Run Applied
apply_orders change feed c [] limits = done (applied c (some limits))
apply_orders change feed c (entry ∷ entries) limits = deref entry >>= λ ord.
    change c ord >>= λ (c', depth, err). elim err [
      | some e ↦ done (failed c' e)
      | none ↦ feed c' ord depth limits >>= λ limits'. apply_orders change feed c' entries limits'
    ]

-- applyData for the actions that handlePartial makes.
unfoldable pub apply_changes : MblCache → MblResponse → Action → Run Applied
unfolding apply_orders new_limits feed_makeup feed_update
apply_changes c rsp delete =
    apply_orders handle_delete (feed_makeup (λ limit. limit)) c rsp.entries
      (new_limits c.depths rsp)
apply_changes c rsp insert =
    apply_orders handle_insert (feed_makeup (λ limit. limit + 1)) c rsp.entries
      (new_limits c.depths rsp)
apply_changes c rsp update =
    apply_orders (λ c ord. done (handle_update c ord)) feed_update c rsp.entries
      (new_limits c.depths rsp)
apply_changes c rsp partial = done (applied c none)
apply_changes c rsp invalid = done (failed c invalid_action)

-- A limited response goes out if it holds something, under the table's name with its depth.
abbrev pub limited : ℕ → Option MblResponse → List (ℕ × MblResponse)
limited depth none = []
limited depth (some rsp) =
    if length rsp.entries == 0
    then []
    else (depth, record rsp { suffixes = rsp.suffixes ++ depth ∷ [] }) ∷ []

-- What is published on the channels of the given depths.
unfoldable pub publications : List ℕ → MblResponse → List (ℕ × LimitRsp) → List (ℕ × MblResponse)
publications [] rsp limits = []
publications (depth ∷ depths) rsp limits =
    (if depth == 0 then (depth, rsp) ∷ [] else elim (lookup depth limits) [
      | none ↦ []
      | some pair ↦ limited depth (some pair.main) ++ limited depth pair.makeup
    ])
    ++ publications depths rsp limits

unfoldable pub dispatch_rsp : MblCache → MblResponse → Option (List (ℕ × LimitRsp)) → MblCache
unfolding publications
dispatch_rsp c rsp none = (is_quote_change c).1
dispatch_rsp c rsp (some limits) =
    let seen = (is_quote_change c).1 in
    record seen { published = seen.published ++ publications seen.depths rsp limits }
