-- ===== src/Prices/Remove.antt =====
-- utils/common.go: UniPriceRemove, and what a list that was added to or removed from holds.
use wstester.Prelude.{
  ℕ, zero, suc, ◌+◌, ◌-◌, ◌≤◌, ◌<◌, ◌≡◌, ◌≢◌, refl, sym, Bool, true, false, Option, none, some,
  List, [], ◌∷◌, ◌++◌, arith, ◌==◌, if◌then◌else◌, length, take, drop, remove_at, get_or-remove_at,
  length-remove_at, ap, if_intro,
}
use wstester.Prices.{◌!◌, uni_price_search, uni_price_remove, IsOrdered}
use wstester.Prices.Search.{Locates, uni_price_search-Locates}

take-length : (l : List ℕ) (i : ℕ) → length l ≤ suc i → i < length l → remove_at i l ≡ take i l
take-length [] i h k = absurd (omega arith)
take-length (x ∷ []) zero h k = refl
take-length (x ∷ y ∷ l) zero h k = absurd (omega arith)
take-length (x ∷ l) (suc i) h k = ap (◌∷◌ x) (take-length l i (omega arith) (omega arith))

-- What UniPriceRemove answers: the list as it was, or the list without the one entry at the index,
-- which held the price.
abbrev pub Removes : List ℕ → ℕ → Option ℕ × List ℕ → Type 0
Removes l p (none, l') = (l' ≡ l) × ((i : ℕ) → i < length l → l ! i ≢ p)
Removes l p (some i, l') = (i < length l) × (l ! i ≡ p) × (l' ≡ remove_at i l)

-- The three ways the source builds the rest are one.
rest-remove_at :
    (l : List ℕ) (i : ℕ)
    → i < length l
    → (if i == 0
        then drop 1 l
        else if i == length l - 1
        then take i l
        else take i l ++ drop (i + 1) l)
      ≡ remove_at i l
rest-remove_at l i h =
    if_intro (λ r. r ≡ remove_at i l) (i == 0) (λ e. let z : i ≡ 0 = ground arith in rw z)
      λ _.
        if_intro (λ r. r ≡ remove_at i l) (i == length l - 1)
          (λ e. sym (take-length l i (ground arith) h))
          (λ _. let e : i + 1 ≡ suc i = omega arith in rw e)

-- For an ordered list: UniPriceRemove returns the index of the price and the list without that entry, or
-- -1 and the list as it was if no entry is the price.
pub uni_price_remove-Removes :
    (l : List ℕ) (p : ℕ) (rev : Bool) → IsOrdered rev l → Removes l p (uni_price_remove l p rev)
unfolding uni_price_remove
uni_price_remove-Removes l p rev ord =
    go (uni_price_search l p rev) (uni_price_search-Locates l p rev ord)
  where
    go :
        (o : Option ℕ)
        → Locates l p o
        → Removes l p (elim o [
          | none ↦ (none, l)
          | some idx ↦ (
            some idx,
            if idx == 0
                then drop 1 l
                else if idx == length l - 1
                then take idx l
                else take idx l ++ drop (idx + 1) l,
          )
        ])
    go none h = (refl, h)
    go (some i) h = (h.0, h.1, rest-remove_at l i h.0)

pub remove_at-IsOrdered :
    (rev : Bool) (l : List ℕ) (r : ℕ)
    → IsOrdered rev l
    → r < length l
    → IsOrdered rev (remove_at r l)
remove_at-IsOrdered true l r ord h i j ij jn =
    let n = length-remove_at l r h in
    ground (
      arith,
      get_or-remove_at l r 0 i h,
      get_or-remove_at l r 0 j h,
      n,
      ord i j,
      ord i (suc j),
      ord (suc i) (suc j),
    )
remove_at-IsOrdered false l r ord h i j ij jn =
    let n = length-remove_at l r h in
    ground (
      arith,
      get_or-remove_at l r 0 i h,
      get_or-remove_at l r 0 j h,
      n,
      ord i j,
      ord i (suc j),
      ord (suc i) (suc j),
    )
