-- ===== src/Prelude/Lists.antt =====
-- Lists measured and indexed by native numbers, as Go's slices are.
use Prim.Native.Nat.{ℕ, zero, suc, ◌+◌, ◌-◌, ◌<◌, ◌≤◌, min}
use mathlib.Core.Path.{◌≡◌, refl, ap}
use mathlib.Core.List.{List, [], ◌∷◌, ◌++◌}
use mathlib.Core.Option.{Option, none, some}
use native.Mathlib.Omega.{arith}
use wstester.Prelude.Tests.{ltb, ◌==◌, if◌then◌else◌}

module _ {ℓ} {A : Type ℓ} where
  abbrev pub length : List A → ℕ
  length [] = 0
  length (x ∷ xs) = suc (length xs)

  abbrev pub get_elem? : List A → ℕ → Option A
  get_elem? [] i = none
  get_elem? (x ∷ xs) zero = some x
  get_elem? (x ∷ xs) (suc i) = get_elem? xs i

  abbrev pub get_or : List A → ℕ → A → A
  get_or [] i d = d
  get_or (x ∷ xs) zero d = x
  get_or (x ∷ xs) (suc i) d = get_or xs i d

  abbrev pub take : ℕ → List A → List A
  take zero xs = []
  take (suc n) [] = []
  take (suc n) (x ∷ xs) = x ∷ take n xs

  abbrev pub drop : ℕ → List A → List A
  drop zero xs = xs
  drop (suc n) [] = []
  drop (suc n) (x ∷ xs) = drop n xs

module _ {ℓ} {A : Type ℓ} where
  pub get_elem?-eq-get_or :
      (xs : List A) (i : ℕ) (d : A) → i < length xs → get_elem? xs i ≡ some (get_or xs i d)
  get_elem?-eq-get_or [] i d h = absurd (omega arith)
  get_elem?-eq-get_or (x ∷ xs) zero d h = refl
  get_elem?-eq-get_or (x ∷ xs) (suc i) d h = get_elem?-eq-get_or xs i d (omega arith)

  pub length-append : (xs ys : List A) → length (xs ++ ys) ≡ length xs + length ys
  length-append [] ys = omega arith
  length-append (x ∷ xs) ys = omega (arith, length-append xs ys)

  pub length-take : (n : ℕ) (xs : List A) → length (take n xs) ≡ min n (length xs)
  length-take zero xs = omega arith
  length-take (suc n) [] = omega arith
  length-take (suc n) (x ∷ xs) = omega (arith, length-take n xs)

  pub length-drop : (n : ℕ) (xs : List A) → length (drop n xs) ≡ length xs - n
  length-drop zero xs = omega arith
  length-drop (suc n) [] = omega arith
  length-drop (suc n) (x ∷ xs) = omega (arith, length-drop n xs)

  pub take-append-drop : (n : ℕ) (xs : List A) → take n xs ++ drop n xs ≡ xs
  take-append-drop zero xs = refl
  take-append-drop (suc n) [] = refl
  take-append-drop (suc n) (x ∷ xs) = ap (◌∷◌ x) (take-append-drop n xs)

  pub drop-nil : (n : ℕ) → drop {A = A} n [] ≡ []
  drop-nil zero = refl
  drop-nil (suc n) = refl

  pub get_or-drop : (n i : ℕ) (xs : List A) (d : A) → get_or (drop n xs) i d ≡ get_or xs (n + i) d
  get_or-drop zero i xs d = ap (λ k. get_or xs k d) (omega arith)
  get_or-drop (suc n) i [] d = refl
  get_or-drop (suc n) i (x ∷ xs) d = ground (arith, get_or-drop n i xs d)

  -- `append(append(l[:n], a), l[m:]...)`
  abbrev pub splice : ℕ → A → ℕ → List A → List A
  splice n a m xs = take n xs ++ a ∷ drop m xs

  pub get_or-splice :
      (xs : List A) (n : ℕ) (a d : A) (i : ℕ)
      → n ≤ length xs
      → get_or (splice n a n xs) i d
        ≡ (if ltb i n then get_or xs i d else if i == n then a else get_or xs (i - 1) d)
  get_or-splice xs zero a d zero h = refl
  get_or-splice xs zero a d (suc i) h = ground arith
  get_or-splice [] (suc n) a d i h = absurd (omega arith)
  get_or-splice (x ∷ xs) (suc n) a d zero h = ground arith
  get_or-splice (x ∷ xs) (suc n) a d (suc zero) h = ground (arith, get_or-splice xs n a d zero)
  get_or-splice (x ∷ xs) (suc n) a d (suc (suc i)) h =
      ground (arith, get_or-splice xs n a d (suc i))

  pub length-splice :
      (xs : List A) (n : ℕ) (a : A) → n ≤ length xs → length (splice n a n xs) ≡ suc (length xs)
  length-splice xs n a h =
      omega (arith, length-append (take n xs) (a ∷ drop n xs), length-take n xs, length-drop n xs)

  -- `l` without the entry at `n`.
  abbrev pub remove_at : ℕ → List A → List A
  remove_at n xs = take n xs ++ drop (suc n) xs

  pub get_or-remove_at :
      (xs : List A) (n : ℕ) (d : A) (i : ℕ)
      → n < length xs
      → get_or (remove_at n xs) i d ≡ (if ltb i n then get_or xs i d else get_or xs (suc i) d)
  get_or-remove_at [] n d i h = absurd (omega arith)
  get_or-remove_at (x ∷ xs) zero d i h = ground arith
  get_or-remove_at (x ∷ xs) (suc n) d zero h = ground arith
  get_or-remove_at (x ∷ xs) (suc n) d (suc i) h = ground (arith, get_or-remove_at xs n d i)

  pub length-remove_at :
      (xs : List A) (n : ℕ) → n < length xs → suc (length (remove_at n xs)) ≡ length xs
  length-remove_at xs n h =
      omega (
        arith,
        length-append (take n xs) (drop (suc n) xs),
        length-take n xs,
        length-drop (suc n) xs,
      )
