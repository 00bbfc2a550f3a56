-- ===== src/Mbl/Snapshot/Fill.antt =====
-- utils/cache_mbl.go: handlePartial on an empty cache, given the entries of another cache's snapshot, as
-- a client's cache gets them from the server's.
use wstester.Prelude.{
  ℕ, suc, zero, ◌-◌, ◌<◌, ◌≡◌, refl, ap, ◌||◌, Bool, true, false, Option, none, List, [], ◌∷◌, ◌++◌,
  reverse, done, arith, ◌==◌, if◌then◌else◌, lookup, nat_eq, inl, inr, Option-cases, Bool-cases,
  length, length-drop, get_elem?-eq-get_or,
}
use mathlib.Core.List.{reverse-cons}
use wstester.Sets.{exist}
use wstester.Sets.Laws.{exist-append_list}
use wstester.Prices.{◌!◌, IsOrdered}
use wstester.Prices.Holds.{exist-get}
use wstester.Mbl.{Side, Order, Levels, MblCache}
use wstester.Mbl.View.{snapshot}
use wstester.Mbl.Top.{drop-IsOrdered, exist-drop}
use wstester.Mbl.Level.{of_side, size_of, IsBest}
use wstester.Mbl.Sound.{IsSound}
use wstester.Mbl.Apply.Merge.{fill, fill_quote, first_partial, init_cache}
use wstester.Mbl.Snapshot.{shown_prices, AllOf}

-- The cache holds what a snapshot of `c` shows, and has published it.
pub record Mirrors (c : MblCache) (depth : ℕ) (d c' : MblCache) : Type 0 where
  pub sound : IsSound c'
  pub asks : c'.asks.prices ≡ shown_prices depth c.asks.prices
  pub bids : c'.bids.prices ≡ shown_prices depth c.bids.prices
  pub orders :
      (q : ℕ)
      → lookup q c'.l2_cache
        ≡ (if exist c'.asks.prices q || exist c'.bids.prices q then lookup q c.l2_cache else none)
  pub channels : c'.depths ≡ d.depths
  pub published : c'.published ≡ d.published ++ (0, snapshot c' 0) ∷ []

pub exist-reverse : (l : List ℕ) (v : ℕ) → exist (reverse l) v ≡ exist l v
exist-reverse [] v = refl
exist-reverse (x ∷ l) v =
    rw (reverse-cons x l)
      (ground (arith, exist-append_list (reverse l) (x ∷ []) v, exist-reverse l v))

pub shown-AllOf :
    (l2 : List (ℕ × Order)) (s : Side) (l : List ℕ) (depth : ℕ)
    → AllOf l2 s l
    → AllOf l2 s (shown_prices depth l)
shown-AllOf l2 s l depth all p h = all p (ground (arith, exist-drop l (length l - depth) p))

pub shown-IsOrdered :
    (rev : Bool) (l : List ℕ) (depth : ℕ) → IsOrdered rev l → IsOrdered rev (shown_prices depth l)
shown-IsOrdered rev l zero ord = ord
shown-IsOrdered rev l (suc k) ord =
    let positive : (suc k == 0) ≡ false = ground arith in
    rw positive (drop-IsOrdered rev l (length l - suc k) ord)

-- The map of a cache that has the orders of two sides.
abbrev pub HasBoth : List (ℕ × Order) → List ℕ → List ℕ → List (ℕ × Order) → Type 0
HasBoth l2 ps qs l2' =
    (q : ℕ) → lookup q l2' ≡ (if exist ps q || exist qs q then lookup q l2 else none)

pub HasBoth-indexed :
    (l2 l2' : List (ℕ × Order)) (ps qs : List ℕ) (s t : Side) (side : Side → Bool)
    → AllOf l2 s ps
    → AllOf l2 t qs
    → side s ≡ true
    → side t ≡ false
    → HasBoth l2 ps qs l2'
    → (p : ℕ) → exist ps p ≡ of_side side (lookup p l2')
HasBoth-indexed l2 l2' ps qs s t side all_ps all_qs hs ht both p = elim (Bool-cases (exist ps p)) [
  | inl h ↦ let (o, e, _, es) = all_ps p h in ground (arith, both p, ap side es)
  | inr h ↦ elim (Bool-cases (exist qs p)) [
    | inl k ↦ let (o, e, _, es) = all_qs p k in ground (arith, both p, ap side es)
    | inr k ↦ ground (arith, both p)
  ]
]

-- The quote of a filled side.
pub fill_quote-IsBest :
    (l : Levels) (l2' : List (ℕ × Order)) (side : Side → Bool)
    → 0 < length l.prices
    → ((p : ℕ) → exist l.prices p ≡ of_side side (lookup p l2'))
    → (l' : Levels) × (fill_quote l l2' ≡ done l') × (l'.prices ≡ l.prices) × IsBest l' l2'
fill_quote-IsBest l l2' side some_price indexed =
    let m = length l.prices - 1 in
    let best = l.prices ! m in
    let got = get_elem?-eq-get_or l.prices m 0 (omega arith) in
    let there = exist-get l.prices m (omega arith) in
    let full : (length l.prices == 0) ≡ false = ground arith in
    elim (Option-cases (lookup best l2')) [
      | inl e ↦ ground (arith, indexed best)
      | inr (o, e) ↦ (
        record l { quote = record l.quote { best_price = best; best_size = o.size } },
        rw (full, got) (rw e),
        refl,
        λ n h. let same : n ≡ m = omega arith in rw same (refl, ap size_of e),
      )
    ]

-- What is left of handlePartial when its loop has gone over the entries.
pub first_partial-filled :
    (d book : MblCache) (entries : List (Option Order)) (new_asks new_bids : Levels)
    → fill (init_cache d) entries ≡ done book
    → fill_quote (record book.bids { prices = reverse book.bids.prices }) book.l2_cache
      ≡ done new_bids
    → fill_quote book.asks book.l2_cache ≡ done new_asks
    → exist book.depths 0 ≡ true
    → let c' = record book { asks = new_asks; bids = new_bids } in
      first_partial d entries
      ≡ done (record c' { published = c'.published ++ (0, snapshot c' 0) ∷ [] })
unfolding first_partial
first_partial-filled d book entries new_asks new_bids loop bids asks channel =
    rw (loop, bids, asks, channel)

pub shown-length : (depth : ℕ) (l : List ℕ) → 0 < length l → 0 < length (shown_prices depth l)
shown-length zero l h = h
shown-length (suc k) l h =
    let positive : (suc k == 0) ≡ false = ground arith in
    rw positive (omega (arith, length-drop (length l - suc k) l))
