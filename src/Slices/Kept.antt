-- ===== src/Slices/Kept.antt =====
-- utils/slice.go: the loop of RangeSlice.
use wstester.Prelude.{
  ℕ, zero, suc, ◌+◌, ◌-◌, ◌<◌, ◌≤◌, ◌≡◌, refl, sym, ap, ◌∙◌, true, false, List, [], ◌∷◌, ◌++◌,
  arith, leb, le→leb, if◌then◌else◌, length, length-append, length-remove_at, if_intro, remove_at,
  ℤ, pos, negsuc, dec_lt,
}
use mathlib.Core.List.{append_assoc, append-nil}
use wstester.Slices.{sort, range_loop, range_slice}
use wstester.Slices.Without.{
  has, distinct, without, rises, sort-has, sort-rises, trim-negsuc, trim-pos, rises-has,
}

module _ {A : Type 0} where
  without-rises :
      (i j : ℕ) (sliced : List ℤ) (xs : List A)
      → j < i
      → without i (pos j ∷ sliced) xs ≡ without i sliced xs
  without-rises i j sliced [] h = refl
  without-rises i j sliced (x ∷ xs) h = ground (arith, without-rises (suc i) j sliced xs)

  without-negsuc :
      (i n : ℕ) (sliced : List ℤ) (xs : List A)
      → without i (negsuc n ∷ sliced) xs ≡ without i sliced xs
  without-negsuc i n sliced [] = refl
  without-negsuc i n sliced (x ∷ xs) = ground (arith, without-negsuc (suc i) n sliced xs)

  without-none : (i : ℕ) (xs : List A) → without i [] xs ≡ xs
  without-none i [] = refl
  without-none i (x ∷ xs) = ap (◌∷◌ x) (without-none (suc i) xs)

  without-ext :
      (i : ℕ) (sliced others : List ℤ) (xs : List A)
      → ((v : ℤ) → has v sliced ≡ has v others)
      → without i sliced xs ≡ without i others xs
  without-ext i sliced others [] h = refl
  without-ext i sliced others (x ∷ xs) h = rw (h (pos i), without-ext (suc i) sliced others xs h)

  remove_at-append :
      (pre : List A) (x : A) (xs : List A) (n : ℕ)
      → n ≡ length pre
      → remove_at n (pre ++ x ∷ xs) ≡ pre ++ xs
  remove_at-append [] x xs zero h = refl
  remove_at-append [] x xs (suc n) h = absurd (omega arith)
  remove_at-append (y ∷ pre) x xs zero h = absurd (omega arith)
  remove_at-append (y ∷ pre) x xs (suc n) h = ap (◌∷◌ y) (remove_at-append pre x xs n (omega arith))

  range_loop-nil : (src : List A) (count invalid : ℕ) → range_loop src count invalid [] ≡ src
  unfolding range_loop
  range_loop-nil src count invalid = refl

  range_loop-skip :
      (src : List A) (n r count invalid : ℕ) (sliced : List ℤ)
      → count ≡ invalid + r
      → range_loop src count invalid (negsuc n ∷ sliced)
        ≡ range_loop src (count + 1) (invalid + 1) sliced
  unfolding range_loop
  range_loop-skip src n r count invalid sliced h =
      ap
        (λ t. elim t [
          | negsuc _ ↦ range_loop src (count + 1) (invalid + 1) sliced
          | pos trim ↦
              if leb (length src) trim
              then src
              else range_loop (remove_at trim src) (count + 1) invalid sliced
        ])
        (trim-negsuc n r count invalid h)

  range_loop-take :
      (src : List A) (j r count invalid : ℕ) (sliced : List ℤ)
      → count ≡ invalid + r
      → r ≤ j
      → range_loop src count invalid (pos j ∷ sliced) ≡ (
          if leb (length src) (j - r)
          then src
          else range_loop (remove_at (j - r) src) (count + 1) invalid sliced)
  unfolding range_loop
  range_loop-take src j r count invalid sliced h k =
      ap
        (λ t. elim t [
          | negsuc _ ↦ range_loop src (count + 1) (invalid + 1) sliced
          | pos trim ↦
              if leb (length src) trim
              then src
              else range_loop (remove_at trim src) (count + 1) invalid sliced
        ])
        (trim-pos j r count invalid h k)

  range_loop-cut :
      (src : List A) (j r k count invalid : ℕ) (sliced : List ℤ)
      → count ≡ invalid + r
      → j ≡ k + r
      → k < length src
      → range_loop src count invalid (pos j ∷ sliced)
        ≡ range_loop (remove_at k src) (count + 1) invalid sliced
  range_loop-cut src j r k count invalid sliced h e lt =
      let at : j - r ≡ k = omega arith in
      let long : leb (length src) k ≡ false = ground arith in
      range_loop-take src j r count invalid sliced h (omega arith) ∙ rw (at, long)

  range_loop-end :
      (pre : List A) (j r count invalid : ℕ) (sliced : List ℤ)
      → count ≡ invalid + r
      → length pre + r ≤ j
      → range_loop pre count invalid (pos j ∷ sliced) ≡ pre
  range_loop-end pre j r count invalid sliced h k =
      range_loop-take pre j r count invalid sliced h (omega arith)
      ∙ rw (le→leb (length pre) (j - r) (omega arith))

  range_loop-remove :
      (pre : List A) (x : A) (xs : List A) (j r count invalid : ℕ) (sliced : List ℤ)
      → count ≡ invalid + r
      → j ≡ length pre + r
      → range_loop (pre ++ x ∷ xs) count invalid (pos j ∷ sliced)
        ≡ range_loop (pre ++ xs) (count + 1) invalid sliced
  range_loop-remove pre x xs j r count invalid sliced h k =
      range_loop-cut (pre ++ x ∷ xs) j r (length pre) count invalid sliced h k
        (omega (arith, length-append pre (x ∷ xs)))
      ∙ ap (λ l. range_loop l (count + 1) invalid sliced)
          (remove_at-append pre x xs (length pre) refl)

  range_loop-without :
      (sliced : List ℤ) (xs pre : List A) (i r count invalid : ℕ)
      → i ≡ length pre + r
      → count ≡ invalid + r
      → rises i sliced ≡ true
      → range_loop (pre ++ xs) count invalid sliced ≡ pre ++ without i sliced xs
  range_loop-without [] xs pre i r count invalid hi hc h =
      range_loop-nil (pre ++ xs) count invalid ∙ ap (λ l. pre ++ l) (sym (without-none i xs))
  range_loop-without (negsuc n ∷ sliced) xs pre i r count invalid hi hc h =
      range_loop-skip (pre ++ xs) n r count invalid sliced hc
      ∙ range_loop-without sliced xs pre i r (count + 1) (invalid + 1) hi (omega arith) h
      ∙ ap (λ l. pre ++ l) (sym (without-negsuc i n sliced xs))
  range_loop-without (pos j ∷ sliced) [] pre i r count invalid hi hc h =
      ap (λ l. range_loop l count invalid (pos j ∷ sliced)) (append-nil pre)
      ∙ range_loop-end pre j r count invalid sliced hc (ground arith)
      ∙ sym (append-nil pre)
  range_loop-without (pos j ∷ sliced) (x ∷ xs) pre i r count invalid hi hc h = elim (dec_lt i j) [
    | no here ↦
        let at : j ≡ i = ground arith in
        let hit : has (pos i) (pos j ∷ sliced) ≡ true = ground arith in
        range_loop-remove pre x xs j r count invalid sliced hc (omega arith)
        ∙ range_loop-without sliced xs pre (suc i) (r + 1) (count + 1) invalid (omega arith)
            (omega arith) (ground arith)
        ∙ ap (λ l. pre ++ l) (sym (without-rises (suc i) j sliced xs (omega arith)))
        ∙ ap
            (λ b.
              pre
              ++ (if b
                  then without (suc i) (pos j ∷ sliced) xs
                  else x ∷ without (suc i) (pos j ∷ sliced) xs))
            (sym hit)
    | yes later ↦
        let miss : has (pos i) (pos j ∷ sliced) ≡ false =
          rises-has (suc i) i (pos j ∷ sliced) (ground arith) (omega arith) in
        ap (λ l. range_loop l count invalid (pos j ∷ sliced)) (sym (append_assoc pre (x ∷ []) xs))
        ∙ range_loop-without (pos j ∷ sliced) xs (pre ++ x ∷ []) (suc i) r count invalid
            (omega (arith, length-append pre (x ∷ []))) hc (ground arith)
        ∙ append_assoc pre (x ∷ []) (without (suc i) (pos j ∷ sliced) xs)
        ∙ ap
            (λ b.
              pre
              ++ (if b
                  then without (suc i) (pos j ∷ sliced) xs
                  else x ∷ without (suc i) (pos j ∷ sliced) xs))
            (sym miss)
  ]

  -- For any slice and any indexes, in any order, negative ones and ones out of range among them, but none
  -- twice: RangeSlice keeps the entries whose indexes are not listed, in their order, and no others.
  pub range_slice-without :
      (src : List A) (sliced : List ℤ)
      → distinct sliced ≡ true
      → range_slice src sliced ≡ without 0 sliced src
  unfolding range_slice
  range_slice-without src sliced h =
      range_loop-without (sort sliced) src [] 0 0 0 0 refl refl (sort-rises sliced h)
      ∙ without-ext 0 (sort sliced) sliced src (λ v. sort-has v sliced)

  -- An index given twice takes out the entry before it as well.
  range_slice-twice :
      (src : List A) (i : ℕ)
      → i + 1 < length src
      → range_slice src (pos (i + 1) ∷ pos (i + 1) ∷ []) ≡ remove_at i (remove_at (i + 1) src)
  unfolding range_slice
  range_slice-twice src i h =
      let once : List A = remove_at (i + 1) src in
      let long : suc (length once) ≡ length src = length-remove_at src (i + 1) h in
      let both : range_loop src 0 0 (pos (i + 1) ∷ pos (i + 1) ∷ []) ≡ remove_at i once =
        range_loop-cut src (i + 1) 0 (i + 1) 0 0 (pos (i + 1) ∷ []) refl (omega arith) h
        ∙ range_loop-cut once (i + 1) 1 i 1 0 [] refl refl (omega arith)
        ∙ range_loop-nil (remove_at i once) 2 0 in
      if_intro (λ l. range_loop src 0 0 l ≡ remove_at i once) (leb (i + 1) (i + 1)) (λ _. both)
        (λ _. both)
