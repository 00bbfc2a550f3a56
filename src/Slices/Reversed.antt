-- ===== src/Slices/Reversed.antt =====
-- utils/slice.go: the loop of ReverseFloat64Slice.
use wstester.Prelude.{
  ℕ, zero, suc, ◌+◌, ◌*◌, ◌-◌, ◌<◌, ◌≤◌, ◌≡◌, refl, sym, ap, subst, ◌∙◌, none, some, List, [], ◌∷◌,
  ◌++◌, reverse, arith, lt→ltb, length, get_elem?, length-append,
}
use mathlib.Core.List.{append-nil, append_assoc, reverse-cons, reverse-append}
use wstester.Slices.{set, swap, reverse_loop, reverse_float_slice}

module _ {A : Type 0} where
  get_elem?-append :
      (pre : List A) (x : A) (xs : List A) (i : ℕ)
      → i ≡ length pre
      → get_elem? (pre ++ x ∷ xs) i ≡ some x
  get_elem?-append [] x xs zero h = refl
  get_elem?-append [] x xs (suc i) h = absurd (omega arith)
  get_elem?-append (y ∷ pre) x xs zero h = absurd (omega arith)
  get_elem?-append (y ∷ pre) x xs (suc i) h = get_elem?-append pre x xs i (omega arith)

  set-append :
      (pre : List A) (x y : A) (xs : List A) (i : ℕ)
      → i ≡ length pre
      → set (pre ++ x ∷ xs) i y ≡ pre ++ y ∷ xs
  set-append [] x y xs zero h = refl
  set-append [] x y xs (suc i) h = absurd (omega arith)
  set-append (z ∷ pre) x y xs zero h = absurd (omega arith)
  set-append (z ∷ pre) x y xs (suc i) h = ap (◌∷◌ z) (set-append pre x y xs i (omega arith))

  swap-ends :
      (pre m post : List A) (x y : A) (i j : ℕ)
      → i ≡ length pre
      → j ≡ suc (length pre + length m)
      → swap (pre ++ x ∷ (m ++ y ∷ post)) i j ≡ some (pre ++ y ∷ (m ++ x ∷ post))
  unfolding swap
  swap-ends pre m post x y i j hi hj =
      let at : (z : A) → j ≡ length (pre ++ z ∷ m) =
        λ z. omega (arith, length-append pre (z ∷ m)) in
      let last : get_elem? (pre ++ x ∷ (m ++ y ∷ post)) j ≡ some y =
        ap (λ s. get_elem? s j) (sym (append_assoc pre (x ∷ m) (y ∷ post)))
        ∙ get_elem?-append (pre ++ x ∷ m) y post j (at x) in
      let put : set (pre ++ y ∷ (m ++ y ∷ post)) j x ≡ pre ++ y ∷ (m ++ x ∷ post) =
        ap (λ s. set s j x) (sym (append_assoc pre (y ∷ m) (y ∷ post)))
        ∙ set-append (pre ++ y ∷ m) y x post j (at y)
        ∙ append_assoc pre (y ∷ m) (x ∷ post) in
      rw (
        swap,
        get_elem?-append pre x (m ++ y ∷ post) i hi,
        last,
        set-append pre x y (m ++ y ∷ post) i hi,
        put,
      )

  snoc : (x : A) (xs : List A) → (m : List A) × (y : A) × (x ∷ xs ≡ m ++ y ∷ [])
  snoc x [] = ([], x, refl)
  snoc x (z ∷ xs) = let (m, y, e) = snoc z xs in (x ∷ m, y, ap (◌∷◌ x) e)

  reverse-ends : (m : List A) (x y : A) → reverse (x ∷ (m ++ y ∷ [])) ≡ y ∷ (reverse m ++ x ∷ [])
  reverse-ends m x y =
      reverse-cons x (m ++ y ∷ []) ∙ ap (λ r. r ++ x ∷ []) (reverse-append m (y ∷ []))

  reverse_loop-step :
      (fuel : ℕ) (s s' : List A) (i j : ℕ)
      → i < j
      → swap s i j ≡ some s'
      → reverse_loop (suc fuel) s i j ≡ reverse_loop fuel s' (i + 1) (j - 1)
  unfolding reverse_loop
  reverse_loop-step fuel s s' i j h k =
      rw (lt→ltb i j h)
        (ap (λ o. elim o [ none ↦ none | some s' ↦ reverse_loop fuel s' (i + 1) (j - 1) ]) k)

  reverse_loop-ends :
      (fuel : ℕ) (pre m post : List A) (x y : A) (i j : ℕ)
      → i ≡ length pre
      → j ≡ suc (length pre + length m)
      → reverse_loop (suc fuel) (pre ++ ((x ∷ (m ++ y ∷ [])) ++ post)) i j
        ≡ reverse_loop fuel ((pre ++ y ∷ []) ++ (m ++ x ∷ post)) (i + 1) (j - 1)
  reverse_loop-ends fuel pre m post x y i j hi hj =
      ap (λ l. reverse_loop (suc fuel) (pre ++ x ∷ l) i j) (append_assoc m (y ∷ []) post)
      ∙ reverse_loop-step fuel (pre ++ x ∷ (m ++ y ∷ post)) (pre ++ y ∷ (m ++ x ∷ post)) i j
          (omega arith) (swap-ends pre m post x y i j hi hj)
      ∙ ap (λ l. reverse_loop fuel l (i + 1) (j - 1))
          (sym (append_assoc pre (y ∷ []) (m ++ x ∷ post)))

  turned-ends :
      (pre m post : List A) (x y : A)
      → (pre ++ y ∷ []) ++ (reverse m ++ x ∷ post) ≡ pre ++ (reverse (x ∷ (m ++ y ∷ [])) ++ post)
  turned-ends pre m post x y =
      append_assoc pre (y ∷ []) (reverse m ++ x ∷ post)
      ∙ ap (λ l. pre ++ y ∷ l) (sym (append_assoc (reverse m) (x ∷ []) post))
      ∙ ap (λ l. pre ++ (l ++ post)) (sym (reverse-ends m x y))

  reverse_loop-reverse :
      (fuel : ℕ) (pre mid post : List A) (i j : ℕ)
      → i ≡ length pre
      → j ≡ length pre + length mid - 1
      → length mid ≤ 2 * fuel + 1
      → reverse_loop fuel (pre ++ (mid ++ post)) i j ≡ some (pre ++ (reverse mid ++ post))
  unfolding reverse_loop
  reverse_loop-reverse zero pre [] post i j hi hj f = ground arith
  reverse_loop-reverse (suc fuel) pre [] post i j hi hj f = ground arith
  reverse_loop-reverse zero pre (x ∷ []) post i j hi hj f = ground arith
  reverse_loop-reverse (suc fuel) pre (x ∷ []) post i j hi hj f = ground arith
  reverse_loop-reverse zero pre (x ∷ z ∷ mid) post i j hi hj f = absurd (omega arith)
  reverse_loop-reverse (suc fuel) pre (x ∷ z ∷ mid) post i j hi hj f =
      let (m, y, e) = snoc z mid in
      let long : suc (length mid) ≡ length m + 1 = ap length e ∙ length-append m (y ∷ []) in
      subst
        (λ l.
          reverse_loop (suc fuel) (pre ++ ((x ∷ l) ++ post)) i j
          ≡ some (pre ++ (reverse (x ∷ l) ++ post)))
        (sym e)
        (reverse_loop-ends fuel pre m post x y i j hi (omega arith)
          ∙ reverse_loop-reverse fuel (pre ++ y ∷ []) m (x ∷ post) (i + 1) (j - 1)
              (omega (arith, length-append pre (y ∷ [])))
              (omega (arith, length-append pre (y ∷ []))) (omega arith)
          ∙ ap some (turned-ends pre m post x y))

-- The loop of ReverseFloat64Slice, on any slice and within half as many rounds as it has entries, ends
-- without an index out of bounds, and leaves the slice turned around.
pub reverse_float_slice-reverse :
    {A : Type 0} (fuel : ℕ) (s : List A)
    → length s ≤ 2 * fuel + 1
    → reverse_float_slice fuel s ≡ some (reverse s)
unfolding reverse_float_slice
reverse_float_slice-reverse fuel s h =
    ap (λ l. reverse_loop fuel l 0 (length s - 1)) (sym (append-nil s))
    ∙ reverse_loop-reverse fuel [] s [] 0 (length s - 1) refl (omega arith) h
    ∙ ap some (append-nil (reverse s))
