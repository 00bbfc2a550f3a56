-- ===== src/Prelude/Drops.antt =====
-- The tail of a list from an index, after an entry was put in or taken out.
use Prim.Native.Nat.{ℕ, zero, suc, ◌-◌, ◌<◌, ◌≤◌}
use mathlib.Core.Path.{◌≡◌, refl}
use mathlib.Core.List.{List, [], ◌∷◌}
use native.Mathlib.Omega.{arith}
use wstester.Prelude.Lists.{length, get_or, drop, splice, remove_at}

module _ {ℓ} {A : Type ℓ} where
  pub drop-cons :
      (l : List A) (n : ℕ) (d : A) → n < length l → drop n l ≡ get_or l n d ∷ drop (suc n) l
  drop-cons [] n d h = absurd (omega arith)
  drop-cons (x ∷ l) zero d h = refl
  drop-cons (x ∷ l) (suc n) d h = drop-cons l n d (omega arith)

  pub drop-remove_at_le :
      (l : List A) (n i : ℕ)
      → n ≤ i
      → i < length l
      → drop n (remove_at i l) ≡ remove_at (i - n) (drop n l)
  drop-remove_at_le l zero i h k = let e : i - 0 ≡ i = omega arith in rw e
  drop-remove_at_le l (suc n) zero h k = absurd (omega arith)
  drop-remove_at_le [] (suc n) (suc i) h k = absurd (omega arith)
  drop-remove_at_le (x ∷ l) (suc n) (suc i) h k =
      let e : suc i - suc n ≡ i - n = omega arith in
      rw e (drop-remove_at_le l n i (omega arith) (omega arith))

  pub drop-remove_at_ge :
      (l : List A) (n i : ℕ) → i ≤ n → i < length l → drop n (remove_at i l) ≡ drop (suc n) l
  drop-remove_at_ge [] n i h k = absurd (omega arith)
  drop-remove_at_ge (x ∷ l) n zero h k = refl
  drop-remove_at_ge (x ∷ l) zero (suc i) h k = absurd (omega arith)
  drop-remove_at_ge (x ∷ l) (suc n) (suc i) h k =
      drop-remove_at_ge l n i (omega arith) (omega arith)

  pub drop-splice_le :
      (l : List A) (n i : ℕ) (p : A)
      → n ≤ i
      → i ≤ length l
      → drop n (splice i p i l) ≡ splice (i - n) p (i - n) (drop n l)
  drop-splice_le l zero i p h k = let e : i - 0 ≡ i = omega arith in rw e
  drop-splice_le l (suc n) zero p h k = absurd (omega arith)
  drop-splice_le [] (suc n) (suc i) p h k = absurd (omega arith)
  drop-splice_le (x ∷ l) (suc n) (suc i) p h k =
      let e : suc i - suc n ≡ i - n = omega arith in
      rw e (drop-splice_le l n i p (omega arith) (omega arith))

  pub drop-splice_gt :
      (l : List A) (n i : ℕ) (p : A)
      → i ≤ n
      → i ≤ length l
      → drop (suc n) (splice i p i l) ≡ drop n l
  drop-splice_gt l n zero p h k = refl
  drop-splice_gt l zero (suc i) p h k = absurd (omega arith)
  drop-splice_gt [] (suc n) (suc i) p h k = absurd (omega arith)
  drop-splice_gt (x ∷ l) (suc n) (suc i) p h k = drop-splice_gt l n i p (omega arith) (omega arith)
