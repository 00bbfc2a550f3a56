-- ===== src/Prices/Search.antt =====
-- utils/common.go: UniPriceSearch, on the standard library's binary search.
use mathlib.Core.Bool.{false≢true}
use wstester.Prelude.{
  sym, ◌∙◌, ℕ, zero, suc, ◌+◌, ◌-◌, ◌/◌, ◌≤◌, ◌<◌, ◌≡◌, ◌≢◌, Bool, true, false, not, ◌||◌, Option,
  none, some, List, arith, ltb, leb, ◌==◌, if◌then◌else◌, length, Bool-cases, inl, inr, dec_lt,
}
use wstester.Prices.{search_loop, sort_search, ◌!◌, reaches, uni_price_search, IsOrdered}

-- `r` splits [i, j): the test fails below it and holds from it on.
pub record Splits (test : ℕ → Bool) (i j r : ℕ) : Type 0 where
  pub low : i ≤ r
  pub high : r ≤ j
  pub fails : (k : ℕ) → i ≤ k → k < r → test k ≡ false
  pub holds : (k : ℕ) → r ≤ k → k < j → test k ≡ true

abbrev pub IsMonotone : (ℕ → Bool) → ℕ → Type 0
IsMonotone test n = (k m : ℕ) → k ≤ m → m < n → test k ≡ true → test m ≡ true

search_loop-Splits :
    (fuel : ℕ) (test : ℕ → Bool) (n i j : ℕ)
    → IsMonotone test n
    → j ≤ n
    → i ≤ j
    → j - i < fuel
    → Splits test i j (search_loop fuel test i j)
unfolding search_loop
search_loop-Splits zero test n i j mono jn ij f = absurd (omega arith)
search_loop-Splits (suc fuel) test n i j mono jn ij f =
    let h = (i + j) / 2 in
    elim (Bool-cases (ltb i j)) [
      | inr stop ↦ rw stop (record {
        low = ground arith;
        high = ground arith;
        fails = λ k p q. absurd (omega arith);
        holds = λ k p q. ground arith;
      })
      | inl more ↦ elim (Bool-cases (test h)) [
        | inl hit ↦
            rw (more, hit)
              (let ih =
                  search_loop-Splits fuel test n i h mono (ground arith) (ground arith)
                    (ground arith) in
                record {
                  low = ih.low;
                  high = ground (arith, ih.high);
                  fails = ih.fails;
                  holds = λ k p q. elim (dec_lt k h) [
                    | yes lt ↦ ih.holds k p lt
                    | no ge ↦ mono h k (omega arith) (omega arith) hit
                  ];
                })
        | inr miss ↦
            rw (more, miss)
              (let ih =
                  search_loop-Splits fuel test n (h + 1) j mono jn (ground arith) (ground arith) in
                record {
                  low = ground (arith, ih.low);
                  high = ih.high;
                  fails = λ k p q. elim (dec_lt h k) [
                    | yes lt ↦ ih.fails k (omega arith) q
                    | no ge ↦ elim (Bool-cases (test k)) [
                      | inr e ↦ e
                      | inl e ↦
                          absurd (false≢true (sym miss ∙ mono k h (omega arith) (omega arith) e))
                    ]
                  ];
                  holds = ih.holds;
                })
      ]
    ]

-- On a monotone test the search returns the split point of [0, n).
pub sort_search-Splits :
    (n : ℕ) (test : ℕ → Bool) → IsMonotone test n → Splits test 0 n (sort_search n test)
unfolding sort_search
sort_search-Splits n test mono =
    search_loop-Splits (n + 1) test n 0 n mono (omega arith) (omega arith) (omega arith)

reaches-IsMonotone :
    (l : List ℕ) (p : ℕ) (rev : Bool) → IsOrdered rev l → IsMonotone (reaches l p rev) (length l)
reaches-IsMonotone l p true ord k m km mn h = elim (dec_lt k m) [
  | yes lt ↦ ground (arith, ord k m lt mn)
  | no ge ↦ let e : m ≡ k = omega arith in rw e h
]
reaches-IsMonotone l p false ord k m km mn h = elim (dec_lt k m) [
  | yes lt ↦ ground (arith, ord k m lt mn)
  | no ge ↦ let e : m ≡ k = omega arith in rw e h
]

-- What UniPriceSearch answers: the index of the price, or that no entry is the price.
abbrev pub Locates : List ℕ → ℕ → Option ℕ → Type 0
Locates l p (some i) = (i < length l) × (l ! i ≡ p)
Locates l p none = (i : ℕ) → i < length l → l ! i ≢ p

-- Where the split point does not hold the price, no index does.
absent :
    (l : List ℕ) (p : ℕ) (rev : Bool) (r : ℕ)
    → IsOrdered rev l
    → Splits (reaches l p rev) 0 (length l) r
    → (r < length l → l ! r ≢ p)
    → (i : ℕ) → i < length l
    → l ! i ≢ p
absent l p true r ord s ne i h e = elim (dec_lt i r) [
  | yes lt ↦ ground (arith, s.fails i (omega arith) lt)
  | no ge ↦ ground (arith, s.holds r, ord r i, ne)
]
absent l p false r ord s ne i h e = elim (dec_lt i r) [
  | yes lt ↦ ground (arith, s.fails i (omega arith) lt)
  | no ge ↦ ground (arith, s.holds r, ord r i, ne)
]

located :
    (l : List ℕ) (p : ℕ) (rev : Bool) (r : ℕ)
    → IsOrdered rev l
    → Splits (reaches l p rev) 0 (length l) r
    → Locates l p (if leb (length l) r || not (l ! r == p) then none else some r)
located l p rev r ord s = elim (Bool-cases (leb (length l) r || not (l ! r == p))) [
  | inl miss ↦ rw miss (absent l p rev r ord s (ground arith))
  | inr hit ↦ rw hit (ground arith)
]

-- On an ordered list the search finds the price exactly when it is there.
pub uni_price_search-Locates :
    (l : List ℕ) (p : ℕ) (rev : Bool) → IsOrdered rev l → Locates l p (uni_price_search l p rev)
unfolding uni_price_search
uni_price_search-Locates l p rev ord =
    located l p rev (sort_search (length l) (reaches l p rev)) ord
      (sort_search-Splits (length l) (reaches l p rev) (reaches-IsMonotone l p rev ord))
