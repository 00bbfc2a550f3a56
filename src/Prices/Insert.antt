-- ===== src/Prices/Insert.antt =====
-- utils/common.go: UniPriceAdd.
use wstester.Prelude.{
  ℕ, zero, suc, ◌+◌, ◌-◌, ◌/◌, ◌≤◌, ◌<◌, ◌≡◌, ◌≢◌, refl, Bool, true, false, List, [], ◌∷◌, ◌++◌,
  arith, ltb, length, splice, get_or-splice, length-splice, ap, if_intro,
}
use wstester.Prices.{◌!◌, add_loop, placed, uni_price_add, Before, IsOrdered}

-- The index at which the price belongs.
pub record Position (rev : Bool) (l : List ℕ) (p r : ℕ) : Type 0 where
  pub inside : r ≤ length l
  pub below : (i : ℕ) → i < r → Before rev (l ! i) p
  pub above : (i : ℕ) → r ≤ i → i < length l → Before rev p (l ! i)

abbrev pub IsAbsent : List ℕ → ℕ → Type 0
IsAbsent l p = (i : ℕ) → i < length l → l ! i ≢ p

-- The price belongs between two neighbours.
Position-between :
    (rev : Bool) (l : List ℕ) (p i : ℕ)
    → IsOrdered rev l
    → suc i < length l
    → Before rev (l ! i) p
    → Before rev p (l ! suc i)
    → Position rev l p (suc i)
Position-between true l p i ord h lo hi = record {
  inside = omega arith;
  below = λ k q. grind (arith, ord k i);
  above = λ k q r. grind (arith, ord (suc i) k);
}
Position-between false l p i ord h lo hi = record {
  inside = omega arith;
  below = λ k q. grind (arith, ord k i);
  above = λ k q r. grind (arith, ord (suc i) k);
}

-- What the loop returns: one cut, at the position.
abbrev Cuts : Bool → List ℕ → ℕ → ℕ × ℕ → Type 0
Cuts rev l p (cut, from) = (from ≡ cut) × Position rev l p cut

add_loop-Cuts :
    (fuel : ℕ) (rev : Bool) (l : List ℕ) (p start end : ℕ)
    → IsOrdered rev l
    → IsAbsent l p
    → start < end
    → end < length l
    → end - start < fuel
    → Before rev (l ! start) p
    → Before rev p (l ! end)
    → Cuts rev l p (add_loop fuel rev l p start end)
unfolding add_loop
add_loop-Cuts zero rev l p start end ord abs se el f lo hi = absurd (omega arith)
add_loop-Cuts (suc fuel) true l p start end ord abs se el f lo hi =
    let mid = (end - start) / 2 + start in
    ground (
      arith,
      Position-between true l p start ord,
      Position-between true l p mid ord,
      Position-between true l p (mid - 1) ord,
      abs mid,
      abs (mid + 1),
      add_loop-Cuts fuel true l p mid end ord abs,
      add_loop-Cuts fuel true l p start mid ord abs,
    )
add_loop-Cuts (suc fuel) false l p start end ord abs se el f lo hi =
    let mid = (end - start) / 2 + start in
    ground (
      arith,
      Position-between false l p start ord,
      Position-between false l p mid ord,
      Position-between false l p (mid - 1) ord,
      abs mid,
      abs (mid + 1),
      add_loop-Cuts fuel false l p mid end ord abs,
      add_loop-Cuts fuel false l p start mid ord abs,
    )

Position-front :
    (rev : Bool) (l : List ℕ) (p : ℕ) → IsOrdered rev l → Before rev p (l ! 0) → Position rev l p 0
Position-front true l p ord h = record {
  inside = omega arith;
  below = λ k q. absurd (omega arith);
  above = λ k q r. grind (arith, ord 0 k);
}
Position-front false l p ord h = record {
  inside = omega arith;
  below = λ k q. absurd (omega arith);
  above = λ k q r. grind (arith, ord 0 k);
}

Position-back :
    (rev : Bool) (l : List ℕ) (p end : ℕ)
    → IsOrdered rev l
    → suc end ≡ length l
    → Before rev (l ! end) p
    → Position rev l p (suc end)
Position-back true l p end ord e h = record {
  inside = omega arith;
  below = λ k q. grind (arith, ord k end);
  above = λ k q r. absurd (omega arith);
}
Position-back false l p end ord e h = record {
  inside = omega arith;
  below = λ k q. grind (arith, ord k end);
  above = λ k q r. absurd (omega arith);
}

-- The list with the price put at its position, and that index.
abbrev pub Adds : Bool → List ℕ → ℕ → ℕ × List ℕ → Type 0
Adds rev l p (idx, l') = Position rev l p idx × (l' ≡ splice idx p idx l)

splice-length : (l : List ℕ) (p : ℕ) → l ++ p ∷ [] ≡ splice (length l) p (length l) l
splice-length [] p = refl
splice-length (x ∷ xs) p = ap (◌∷◌ x) (splice-length xs p)

placed-Adds :
    (rev : Bool) (l : List ℕ) (p : ℕ) (c : ℕ × ℕ) → Cuts rev l p c → Adds rev l p (placed l p c)
placed-Adds rev l p (cut, from) (e, pos) = rw e (pos, refl)

module _ (x : ℕ) (xs : List ℕ) (p : ℕ) where
  abbrev list : List ℕ
  list = x ∷ xs

  between :
      (rev : Bool)
      → IsOrdered rev list
      → IsAbsent list p
      → Before rev x p
      → Before rev p (list ! length xs)
      → Adds rev list p (placed list p (add_loop (length xs + 1) rev list p 0 (length xs)))
  between rev ord abs lo hi = placed-Adds rev list p _ (
      add_loop-Cuts (length xs + 1) rev list p 0 (length xs) ord abs (several rev lo hi)
        (omega arith) (omega arith) lo hi)
    where
      several : (rev : Bool) → Before rev x p → Before rev p (list ! length xs) → 0 < length xs
      several true = ground arith
      several false = ground arith

  add_cons-Adds :
      (rev : Bool)
      → IsOrdered rev list
      → IsAbsent list p
      → Adds rev list p (uni_price_add list p rev)
  unfolding uni_price_add
  add_cons-Adds true ord abs =
      if_intro (Adds true list p) (ltb x p)
        (λ a. (Position-front true list p ord (ground arith), refl))
        λ a.
          if_intro (Adds true list p) (ltb p (list ! length xs))
            (λ b.
              ground (arith, Position-back true list p (length xs) ord refl, splice-length list p))
            (λ b. between true ord abs (ground (arith, abs 0)) (ground (arith, abs (length xs))))
  add_cons-Adds false ord abs =
      if_intro (Adds false list p) (ltb (list ! length xs) p)
        (λ a. ground (arith, Position-back false list p (length xs) ord refl, splice-length list p))
        λ a.
          if_intro (Adds false list p) (ltb p x)
            (λ b. (Position-front false list p ord (ground arith), refl))
            (λ b. between false ord abs (ground (arith, abs 0)) (ground (arith, abs (length xs))))

-- For an ordered list and a price that it has not: UniPriceAdd returns the index that the price belongs
-- at, every entry before it in the list's order and every entry from it on after, and the list with the
-- price put there.
pub uni_price_add-Adds :
    (l : List ℕ) (p : ℕ) (rev : Bool)
    → IsOrdered rev l
    → IsAbsent l p
    → Adds rev l p (uni_price_add l p rev)
unfolding uni_price_add
uni_price_add-Adds [] p rev ord abs = (
  record {
    inside = omega arith;
    below = λ k q. absurd (omega arith);
    above = λ k q r. absurd (omega arith);
  },
  refl,
)
uni_price_add-Adds (x ∷ xs) p rev ord abs = add_cons-Adds x xs p rev ord abs

-- A list with a price put at its position is ordered.
pub splice-IsOrdered :
    (rev : Bool) (l : List ℕ) (p r : ℕ)
    → IsOrdered rev l
    → Position rev l p r
    → IsOrdered rev (splice r p r l)
splice-IsOrdered true l p r ord pos i j ij jn =
    let n = length-splice l r p pos.inside in
    ground (
      arith,
      get_or-splice l r p 0 i pos.inside,
      get_or-splice l r p 0 j pos.inside,
      n,
      ord i j,
      ord i (j - 1),
      ord (i - 1) (j - 1),
      pos.below i,
      pos.above (j - 1),
    )
splice-IsOrdered false l p r ord pos i j ij jn =
    let n = length-splice l r p pos.inside in
    ground (
      arith,
      get_or-splice l r p 0 i pos.inside,
      get_or-splice l r p 0 j pos.inside,
      n,
      ord i j,
      ord i (j - 1),
      ord (i - 1) (j - 1),
      pos.below i,
      pos.above (j - 1),
    )
