-- ===== src/Prices/Holds.antt =====
-- utils/common.go: which prices a list holds, after a price was added or removed.
use wstester.Prelude.{
  ℕ, zero, suc, ◌<◌, ◌≡◌, ◌≢◌, refl, Bool, true, false, not, ◌||◌, ◌&&◌, List, [], ◌∷◌, arith, ◌==◌,
  length, splice, remove_at, nat_eq, take, drop, take-append-drop, sym,
}
use wstester.Sets.{exist}
use wstester.Sets.Laws.{exist-append_list}
use wstester.Prices.{◌!◌, IsOrdered}

pub exist-get : (l : List ℕ) (i : ℕ) → i < length l → exist l (l ! i) ≡ true
exist-get [] i h = absurd (omega arith)
exist-get (x ∷ xs) zero h = ground arith
exist-get (x ∷ xs) (suc i) h = ground (arith, exist-get xs i)

pub exist-absent : (l : List ℕ) (p : ℕ) → ((i : ℕ) → i < length l → l ! i ≢ p) → exist l p ≡ false
exist-absent [] p h = refl
exist-absent (x ∷ xs) p h = ground (arith, h 0, exist-absent xs p (λ i q. h (suc i) (omega arith)))

pub absent-exist : (l : List ℕ) (p i : ℕ) → exist l p ≡ false → i < length l → l ! i ≢ p
absent-exist l p i h q e = ground (arith, exist-get l i q)

IsOrdered-tail : (rev : Bool) (x : ℕ) (l : List ℕ) → IsOrdered rev (x ∷ l) → IsOrdered rev l
IsOrdered-tail true x l ord i j ij jn = ord (suc i) (suc j) (omega arith) (omega arith)
IsOrdered-tail false x l ord i j ij jn = ord (suc i) (suc j) (omega arith) (omega arith)

-- The entries of an ordered list are distinct.
pub IsOrdered-ne :
    (rev : Bool) (l : List ℕ) (i j : ℕ) → IsOrdered rev l → i < j → j < length l → l ! i ≢ l ! j
IsOrdered-ne true l i j ord ij jn = ground (arith, ord i j)
IsOrdered-ne false l i j ord ij jn = ground (arith, ord i j)

pub exist-splice : (l : List ℕ) (p r v : ℕ) → exist (splice r p r l) v ≡ (v == p) || exist l v
exist-splice l p r v = ground (
  arith,
  exist-append_list (take r l) (p ∷ drop r l) v,
  exist-append_list (take r l) (drop r l) v,
  take-append-drop r l,
)

pub exist-remove_at :
    (rev : Bool) (l : List ℕ) (r v : ℕ)
    → IsOrdered rev l
    → r < length l
    → exist (remove_at r l) v ≡ not (v == l ! r) && exist l v
exist-remove_at rev [] r v ord h = absurd (omega arith)
exist-remove_at rev (x ∷ xs) zero v ord h = ground (
  arith,
  exist-absent xs x
      (λ i q e. IsOrdered-ne rev (x ∷ xs) 0 (suc i) ord (omega arith) (omega arith) (sym e)),
)
exist-remove_at rev (x ∷ xs) (suc r) v ord h = ground (
  arith,
  exist-remove_at rev xs r v (IsOrdered-tail rev x xs ord),
  IsOrdered-ne rev (x ∷ xs) 0 (suc r) ord,
)
