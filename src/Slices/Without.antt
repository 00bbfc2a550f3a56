-- ===== src/Slices/Without.antt =====
-- utils/slice.go: what RangeSlice is asked to keep, and its sorted indexes.
use wstester.Prelude.{
  ℕ, suc, ◌+◌, ◌-◌, ◌<◌, ◌≤◌, ◌≡◌, refl, ap, ◌∙◌, Bool, true, false, not, ◌&&◌, ◌||◌, List, [], ◌∷◌,
  arith, leb, ==_iff, if◌then◌else◌, ℤ, pos, negsuc, same_int,
}
use wstester.Slices.{insert, sort, trim_of}

abbrev pub has : ℤ → List ℤ → Bool
has v [] = false
has v (x ∷ xs) = same_int v x || has v xs

abbrev pub distinct : List ℤ → Bool
distinct [] = true
distinct (x ∷ xs) = not (has x xs) && distinct xs

module _ {A : Type 0} where
  -- The specification: the entries from index `i` on whose indexes are not listed.
  abbrev pub without : ℕ → List ℤ → List A → List A
  without i sliced [] = []
  without i sliced (x ∷ xs) =
      let rest = without (suc i) sliced xs in if has (pos i) sliced then rest else x ∷ rest

-- The indexes from 0 on rise from `i`.
abbrev pub rises : ℕ → List ℤ → Bool
rises i [] = true
rises i (negsuc n ∷ xs) = rises i xs
rises i (pos j ∷ xs) = leb i j && rises (suc j) xs

rises_le : (i j : ℕ) (xs : List ℤ) → j ≤ i → rises i xs ≡ true → rises j xs ≡ true
rises_le i j [] h r = refl
rises_le i j (negsuc n ∷ xs) h r = rises_le i j xs h r
rises_le i j (pos k ∷ xs) h r = ground arith

insert-rises :
    (x : ℤ) (i : ℕ) (xs : List ℤ)
    → rises i xs ≡ true
    → has x xs ≡ false
    → rises i (x ∷ []) ≡ true
    → rises i (insert x xs) ≡ true
insert-rises x i [] r h k = k
insert-rises (negsuc n) i (pos j ∷ xs) r h k = r
insert-rises (negsuc n) i (negsuc m ∷ xs) r h k = ground (arith, insert-rises (negsuc n) i xs)
insert-rises (pos n) i (negsuc m ∷ xs) r h k = insert-rises (pos n) i xs r h k
insert-rises (pos n) i (pos j ∷ xs) r h k = ground (arith, insert-rises (pos n) (suc j) xs)

insert-has : (v x : ℤ) (xs : List ℤ) → has v (insert x xs) ≡ has v (x ∷ xs)
insert-has v x [] = refl
insert-has v x (y ∷ xs) = ground (arith, insert-has v x xs)

pub sort-has : (v : ℤ) (xs : List ℤ) → has v (sort xs) ≡ has v xs
sort-has v [] = refl
sort-has v (x ∷ xs) = insert-has v x (sort xs) ∙ ap (λ b. same_int v x || b) (sort-has v xs)

rises-one : (x : ℤ) → rises 0 (x ∷ []) ≡ true
rises-one (pos n) = ground arith
rises-one (negsuc n) = refl

pub sort-rises : (xs : List ℤ) → distinct xs ≡ true → rises 0 (sort xs) ≡ true
sort-rises [] h = refl
sort-rises (x ∷ xs) h =
    ground (arith, insert-rises x 0 (sort xs), sort-rises xs, sort-has x xs, rises-one x)

-- Where the loop looks, after it has taken `r` entries out.
pub trim-negsuc :
    (n r count invalid : ℕ)
    → count ≡ invalid + r
    → trim_of (negsuc n) count invalid ≡ negsuc (r + n)
trim-negsuc n r count invalid h = ground arith

pub trim-pos :
    (j r count invalid : ℕ)
    → count ≡ invalid + r
    → r ≤ j
    → trim_of (pos j) count invalid ≡ pos (j - r)
trim-pos j r count invalid h k = ground arith

pub rises-has : (i j : ℕ) (xs : List ℤ) → rises i xs ≡ true → j < i → has (pos j) xs ≡ false
rises-has i j [] r h = refl
rises-has i j (negsuc n ∷ xs) r h = rises-has i j xs r h
rises-has i j (pos k ∷ xs) r h = ground (arith, ==_iff j k, rises-has (suc k) j xs)
