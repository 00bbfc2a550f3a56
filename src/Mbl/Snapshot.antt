-- ===== src/Mbl/Snapshot.antt =====
-- utils/cache_mbl.go: what a snapshot holds, and what filling an empty cache with entries of another
-- cache leaves there.
pub mod Fill
pub mod Mirrored
use wstester.Prelude.{
  ℕ, Bool, zero, suc, ap₂, drop, ◌-◌, ◌≡◌, ◌≢◌, refl, sym, ap, ◌∙◌, ◌||◌, true, false, Option, none,
  some, List, [], ◌∷◌, ◌++◌, map, reverse, Run, ◌>>=◌, arith, ◌==◌, if◌then◌else◌, lookup, put,
  nat_eq, lookup-put, inl, inr, Option-cases, length, ltb,
}
use mathlib.Core.List.{append-nil, append_assoc, reverse-cons}
use wstester.Sets.{exist}
use wstester.Sets.Laws.{exist-append_list}
use wstester.Mbl.{Side, buy, sell, unknown, is_buy, is_sell, Order, MblCache}
use wstester.Mbl.View.{snapshot, min_int}
use wstester.Mbl.Top.{top}
use wstester.Mbl.Level.{of_side, IsLevel}
use wstester.Mbl.Sound.{IsSound, prices_of}
use wstester.Mbl.Apply.Merge.{fill, fill_order}

-- The prices of one side that a snapshot of a depth shows.
abbrev pub shown_prices : ℕ → List ℕ → List ℕ
shown_prices depth l = if depth == 0 then l else top depth l

shown-cut :
    (depth : ℕ) (l : List ℕ)
    → top (if ltb 0 depth then min_int (length l) depth else length l) l ≡ shown_prices depth l
shown-cut zero l = let e : length l - length l ≡ 0 = omega arith in rw e
shown-cut (suc k) l =
    let cut = if ltb 0 (suc k) then min_int (length l) (suc k) else length l in
    let e : length l - cut ≡ length l - suc k = ground arith in
    let positive : (suc k == 0) ≡ false = ground arith in rw positive (ap (λ n. drop n l) e)

pub snapshot-entries :
    (c : MblCache) (depth : ℕ)
    → (snapshot c depth).entries
      ≡ map
          (λ price. lookup price c.l2_cache)
          (shown_prices depth c.asks.prices ++ reverse (shown_prices depth c.bids.prices))
unfolding snapshot
snapshot-entries c depth =
    ap₂ (λ asks bids. map (λ price. lookup price c.l2_cache) (asks ++ reverse bids))
      (shown-cut depth c.asks.prices) (shown-cut depth c.bids.prices)

-- The prices are those of orders of one side, each under its own price.
abbrev pub AllOf : List (ℕ × Order) → Side → List ℕ → Type 0
AllOf l2 s ps =
    (p : ℕ)
    → exist ps p ≡ true
    → (o : Order) × (lookup p l2 ≡ some o) × (o.price ≡ p) × (o.side ≡ s)

pub is_sell-eq : (s : Side) → is_sell s ≡ true → s ≡ sell
is_sell-eq sell h = refl
is_sell-eq buy h = ground arith
is_sell-eq unknown h = ground arith

pub is_buy-eq : (s : Side) → is_buy s ≡ true → s ≡ buy
is_buy-eq buy h = refl
is_buy-eq sell h = ground arith
is_buy-eq unknown h = ground arith

-- The listed prices of a sound cache.
listed :
    (c : MblCache) (s : Side) (side : Side → Bool) (ps : List ℕ)
    → IsSound c
    → ((t : Side) → side t ≡ true → t ≡ s)
    → ((p : ℕ) → exist ps p ≡ of_side side (lookup p c.l2_cache))
    → AllOf c.l2_cache s ps
listed c s side ps sound only indexed p h = elim (Option-cases (lookup p c.l2_cache)) [
  | inl e ↦ ground (arith, indexed p)
  | inr (o, e) ↦ (o, e, sound.keyed p o e, only o.side (ground (arith, indexed p)))
]

-- The orders of some prices, put into a map.
abbrev pub copied : List (ℕ × Order) → List ℕ → List (ℕ × Order) → List (ℕ × Order)
copied l2 [] t = t
copied l2 (p ∷ ps) t = copied l2 ps (elim (lookup p l2) [ none ↦ t | some o ↦ put p o t ])

pub lookup-copied :
    (l2 : List (ℕ × Order)) (s : Side) (ps : List ℕ) (t : List (ℕ × Order)) (q : ℕ)
    → AllOf l2 s ps
    → lookup q (copied l2 ps t) ≡ (if exist ps q then lookup q l2 else lookup q t)
lookup-copied l2 s [] t q all = refl
lookup-copied l2 s (p ∷ ps) t q all =
    let (o, e, _, _) = all p (ground arith) in
    rw e (
      lookup-copied l2 s ps (put p o t) q (λ v h. all v (ground arith))
      ∙ ground (arith, lookup-put p q o t))

-- The shown prices of a sound cache, on either side.
pub asks-AllOf : (c : MblCache) → IsSound c → AllOf c.l2_cache sell c.asks.prices
asks-AllOf c sound = listed c sell is_sell c.asks.prices sound is_sell-eq sound.asks.indexed

pub bids-AllOf : (c : MblCache) → IsSound c → AllOf c.l2_cache buy c.bids.prices
bids-AllOf c sound = listed c buy is_buy c.bids.prices sound is_buy-eq sound.bids.indexed

-- `fill` on the entries of some prices of one side.
abbrev pub with_side : Side → MblCache → List ℕ → List (ℕ × Order) → MblCache
with_side buy c ps l2 = record c { bids = record c.bids { prices = ps }; l2_cache = l2 }
with_side sell c ps l2 = record c { asks = record c.asks { prices = ps }; l2_cache = l2 }
with_side unknown c ps l2 = c

with_side-same : (s : Side) (c : MblCache) → with_side s c (prices_of c s ++ []) c.l2_cache ≡ c
with_side-same buy c = rw (append-nil c.bids.prices)
with_side-same sell c = rw (append-nil c.asks.prices)
with_side-same unknown c = refl

with_side-step :
    (s : Side) (c : MblCache) (o : Order) (p : ℕ) (ps : List ℕ) (l2 : List (ℕ × Order))
    → s ≢ unknown
    → o.price ≡ p
    → with_side s (fill_order c o s) (prices_of (fill_order c o s) s ++ ps) l2
      ≡ with_side s c (prices_of c s ++ p ∷ ps) l2
with_side-step buy c o p ps l2 known e = rw (e, append_assoc)
with_side-step sell c o p ps l2 known e = rw (e, append_assoc)
with_side-step unknown c o p ps l2 known e = absurd (known refl)

fill_order-l2 :
    (s : Side) (c : MblCache) (o : Order) (p : ℕ)
    → s ≢ unknown
    → o.price ≡ p
    → (fill_order c o s).l2_cache ≡ put p o c.l2_cache
fill_order-l2 buy c o p known e = rw e
fill_order-l2 sell c o p known e = rw e
fill_order-l2 unknown c o p known e = absurd (known refl)

-- One entry, and the rest after it.
fill-cons :
    (s : Side) (p : ℕ) (ps : List ℕ) (entry : Option Order) (o : Order) (c : MblCache)
    (l2 : List (ℕ × Order)) (more rest : List (Option Order))
    → s ≢ unknown
    → entry ≡ some o
    → o.price ≡ p
    → o.side ≡ s
    → fill (fill_order c o s) more
      ≡ fill (with_side s (fill_order c o s) (prices_of (fill_order c o s) s ++ ps) l2) rest
    → fill c (entry ∷ more) ≡ fill (with_side s c (prices_of c s ++ p ∷ ps) l2) rest
unfolding fill
fill-cons s p ps entry o c l2 more rest known e at side ih =
    ap (λ x. fill c (x ∷ more)) e
    ∙ ap (λ t. fill (fill_order c o t) more) side
    ∙ ih
    ∙ ap (λ d. fill d rest) (with_side-step s c o p ps l2 known at)

copied-cons :
    (l2 : List (ℕ × Order)) (p : ℕ) (ps : List ℕ) (o : Order) (t : List (ℕ × Order))
    → lookup p l2 ≡ some o
    → copied l2 (p ∷ ps) t ≡ copied l2 ps (put p o t)
copied-cons l2 p ps o t e = rw e

-- Entries of orders of one side fill that side with their prices, and the map with the orders.
pub fill-side :
    (l2 : List (ℕ × Order)) (s : Side) (ps : List ℕ) (rest : List (Option Order)) (c : MblCache)
    → s ≢ unknown
    → AllOf l2 s ps
    → fill c (map (λ price. lookup price l2) ps ++ rest)
      ≡ fill (with_side s c (prices_of c s ++ ps) (copied l2 ps c.l2_cache)) rest
fill-side l2 s [] rest c known all = rw (with_side-same s c)
fill-side l2 s (p ∷ ps) rest c known all =
    let (o, e, at, side) = all p (ground arith) in
    let next = fill_order c o s in
    let ih = fill-side l2 s ps rest next known (λ v h. all v (ground arith)) in
    let same : copied l2 ps next.l2_cache ≡ copied l2 (p ∷ ps) c.l2_cache =
      ap (copied l2 ps) (fill_order-l2 s c o p known at)
      ∙ sym (copied-cons l2 p ps o c.l2_cache e) in
    fill-cons s p ps (lookup p l2) o c (copied l2 (p ∷ ps) c.l2_cache)
      (map (λ price. lookup price l2) ps ++ rest) rest known e at side
      (ih ∙ ap (λ m. fill (with_side s next (prices_of next s ++ ps) m) rest) same)
