-- ===== src/Prices.antt =====
-- utils/common.go: the sorted price lists under the order book. A price is a number of ticks.
-- `reverse` is the source's flag: the list rises if it is false (bids) and falls if it is true
-- (asks), so that the best price of either side stands last.
pub mod Search
pub mod Insert
pub mod Remove
pub mod Holds
use wstester.Prelude.{
  ℕ, zero, suc, ◌+◌, ◌-◌, ◌/◌, ◌<◌, ◌≡◌, Bool, true, false, ◌||◌, not, Option, none, some, List, [],
  ◌∷◌, ◌++◌, arith, ltb, leb, ◌==◌, if◌then◌else◌, length, get_or, take, drop, splice,
}

-- The index of the first entry in [i, j) at which `test` holds, `j` if there is none: the standard
-- library's binary search (sort.Search). The fuel bounds the rounds.
unfoldable pub search_loop : ℕ → (ℕ → Bool) → ℕ → ℕ → ℕ
search_loop zero test i j = i
search_loop (suc fuel) test i j =
    let h = (i + j) / 2 in
    let left = search_loop fuel test i h in
    let right = search_loop fuel test (h + 1) j in
    if ltb i j then (if test h then left else right) else i

unfoldable pub sort_search : ℕ → (ℕ → Bool) → ℕ
unfolding search_loop
sort_search n test = search_loop (n + 1) test 0 n

-- `priceList[i]`, where the code has shown that `i` is in range.
infixl 90 ◌!◌
abbrev pub ◌!◌ : List ℕ → ℕ → ℕ
l ! i = get_or l i 0

-- The entry at `i` is not before `price`: the test that the search is given.
abbrev pub reaches : List ℕ → ℕ → Bool → ℕ → Bool
reaches prices price true i = leb (prices ! i) price
reaches prices price false i = leb price (prices ! i)

-- `none` is the source's -1.
unfoldable pub uni_price_search : List ℕ → ℕ → Bool → Option ℕ
unfolding sort_search
uni_price_search prices price rev =
    let idx = sort_search (length prices) (reaches prices price rev) in
    if leb (length prices) idx || not (prices ! idx == price) then none else some idx

-- `price` comes after `other` in the list's order.
abbrev pub after : Bool → ℕ → ℕ → Bool
after true price other = ltb price other
after false price other = ltb other price

-- The bisecting loop of UniPriceAdd: where the list is cut, and from where its right part is taken.
-- The two loops of the source differ in the direction of the comparisons only.
unfoldable pub add_loop : ℕ → Bool → List ℕ → ℕ → ℕ → ℕ → ℕ × ℕ
add_loop zero rev prices price start end = (start + 1, end)
add_loop (suc fuel) rev prices price start end =
    let mid = (end - start) / 2 + start in
    let upper = add_loop fuel rev prices price mid end in
    let lower = add_loop fuel rev prices price start mid in
    if leb (end - start) 1
    then (start + 1, end)
    else if after rev price (prices ! mid)
    then (if after rev (prices ! (mid + 1)) price then (mid + 1, mid + 1) else upper)
    else (if after rev price (prices ! (mid - 1)) then (mid, mid) else lower)

abbrev pub placed : List ℕ → ℕ → ℕ × ℕ → ℕ × List ℕ
placed prices price (cut, from) = (cut, splice cut price from prices)

-- The new list, and the index of the price in it.
unfoldable pub uni_price_add : List ℕ → ℕ → Bool → ℕ × List ℕ
unfolding add_loop
uni_price_add [] price rev = (0, price ∷ [])
uni_price_add (p ∷ ps) price rev =
    let prices = p ∷ ps in
    let end = length ps in
    let front : ℕ × List ℕ = (0, price ∷ prices) in
    let back : ℕ × List ℕ = (end + 1, prices ++ price ∷ []) in
    let inside = placed prices price (add_loop (end + 1) rev prices price 0 end) in
    if rev
    then (if ltb (prices ! 0) price
        then front
        else if ltb price (prices ! end)
        then back
        else inside)
    else (if ltb (prices ! end) price
        then back
        else if ltb price (prices ! 0)
        then front
        else inside)

-- The index of the price that was taken out (`none` for -1), and the list that is left.
unfoldable pub uni_price_remove : List ℕ → ℕ → Bool → Option ℕ × List ℕ
unfolding uni_price_search
uni_price_remove prices price rev = elim (uni_price_search prices price rev) [
  | none ↦ (none, prices)
  | some idx ↦ (
    some idx,
    if idx == 0
        then drop 1 prices
        else if idx == length prices - 1
        then take idx prices
        else take idx prices ++ drop (idx + 1) prices,
  )
]

-- The order of the list: every entry before all that follow it.
abbrev pub Before : Bool → ℕ → ℕ → Type 0
Before true x y = y < x
Before false x y = x < y

abbrev pub IsOrdered : Bool → List ℕ → Type 0
IsOrdered rev l = (i j : ℕ) → i < j → j < length l → Before rev (l ! i) (l ! j)
