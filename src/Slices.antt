-- ===== src/Slices.antt =====
-- utils/slice.go: entries taken out of a slice by their indexes, and a slice turned around in place.
pub mod Reversed
pub mod Without
pub mod Kept
use wstester.Prelude.{
  ℕ, zero, suc, ◌+◌, ◌-◌, ◌<◌, Bool, true, false, not, ◌&&◌, ◌||◌, Option, none, some, List, [],
  ◌∷◌, ltb, leb, if◌then◌else◌, length, get_elem?, take, drop, remove_at, ◌++◌, ℤ, pos, negsuc,
  same_int,
}

module _ {A : Type 0} where
  -- `s[i] = a`
  abbrev pub set : List A → ℕ → A → List A
  set [] i a = []
  set (x ∷ xs) zero a = a ∷ xs
  set (x ∷ xs) (suc i) a = x ∷ set xs i a

  -- `s[i], s[j] = s[j], s[i]`, or `none` where it panics.
  unfoldable pub swap : List A → ℕ → ℕ → Option (List A)
  swap s i j = elim (get_elem? s i) [
    | none ↦ none
    | some x ↦ elim (get_elem? s j) [ none ↦ none | some y ↦ some (set (set s i y) j x) ]
  ]

  -- The loop, `none` where it panics or takes more rounds than `fuel`. The last index of an empty slice is
  -- 0 here and -1 there; neither is above 0.
  unfoldable pub reverse_loop : ℕ → List A → ℕ → ℕ → Option (List A)
  unfolding swap
  reverse_loop zero s i j = if ltb i j then none else some s
  reverse_loop (suc fuel) s i j =
      if ltb i j
      then elim (swap s i j) [ none ↦ none | some s' ↦ reverse_loop fuel s' (i + 1) (j - 1) ]
      else some s

  -- `ReverseFloat64Slice`
  unfoldable pub reverse_float_slice : ℕ → List A → Option (List A)
  unfolding reverse_loop
  reverse_float_slice fuel s = reverse_loop fuel s 0 (length s - 1)

  -- `Slice`
  unfoldable pub slice : List A → ℤ → List A
  slice src (negsuc i) = src
  slice src (pos i) = if ltb i (length src) then remove_at i src else src

-- `m - n`
abbrev pub diff : ℕ → ℕ → ℤ
diff m n = if leb n m then pos (m - n) else negsuc (n - m - 1)

-- `idx - count + invalid`
abbrev pub trim_of : ℤ → ℕ → ℕ → ℤ
trim_of (pos i) count invalid = diff (i + invalid) count
trim_of (negsuc i) count invalid = diff invalid (count + i + 1)

abbrev pub int_leb : ℤ → ℤ → Bool
int_leb (pos m) (pos n) = leb m n
int_leb (pos m) (negsuc n) = false
int_leb (negsuc m) (pos n) = true
int_leb (negsuc m) (negsuc n) = leb n m

-- `sort.Sort(sort.IntSlice(sliced))`
abbrev pub insert : ℤ → List ℤ → List ℤ
insert x [] = x ∷ []
insert x (y ∷ ys) = if int_leb x y then x ∷ y ∷ ys else y ∷ insert x ys

abbrev pub sort : List ℤ → List ℤ
sort [] = []
sort (x ∷ xs) = insert x (sort xs)

module _ {A : Type 0} where
  unfoldable pub range_loop : List A → ℕ → ℕ → List ℤ → List A
  range_loop src count invalid [] = src
  range_loop src count invalid (idx ∷ sliced) = elim (trim_of idx count invalid) [
    | negsuc _ ↦ range_loop src (count + 1) (invalid + 1) sliced
    | pos trim ↦
        if leb (length src) trim
        then src
        else range_loop (remove_at trim src) (count + 1) invalid sliced
  ]

  -- `RangeSlice`. What it does to the arrays that its arguments share with others is left out.
  unfoldable pub range_slice : List A → List ℤ → List A
  unfolding range_loop
  range_slice src sliced = range_loop src 0 0 (sort sliced)
