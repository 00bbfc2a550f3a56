-- ===== src/Mbl/Top.antt =====
-- utils/cache_mbl.go: the best levels of a price list, before and after a price was put in or taken
-- out. These are what a channel with a limited depth shows.
use wstester.Prelude.{
  ℕ, zero, suc, ◌+◌, ◌-◌, ◌≤◌, ◌<◌, ◌≡◌, ◌≢◌, refl, sym, ◌∙◌, Bool, true, false, not, ◌||◌, ◌&&◌,
  Option, none, some, List, [], ◌∷◌, arith, ◌==◌, ltb, if◌then◌else◌, length, drop, splice,
  remove_at, nat_eq, drop-cons, drop-remove_at_le, drop-remove_at_ge, drop-splice_le,
  drop-splice_gt, length-drop, length-remove_at, length-splice, get_or-drop, get_or-remove_at,
  get_or-splice, dec_le, subst,
}
use wstester.Sets.{exist}
use wstester.Prices.{◌!◌, IsOrdered, Before}
use wstester.Prices.Insert.{Position}
use wstester.Prices.Holds.{exist-remove_at, exist-splice, exist-absent, exist-get, IsOrdered-ne}

-- The best `k` prices.
abbrev pub top : ℕ → List ℕ → List ℕ
top k l = drop (length l - k) l

-- The price at depth `k`, if the list is that deep.
abbrev pub at_depth : ℕ → List ℕ → Option ℕ
at_depth k l = if ltb (length l) 1 || ltb (length l) k then none else some (l ! (length l - k))

abbrev pub is_price : Option ℕ → ℕ → Bool
is_price none v = false
is_price (some p) v = v == p

pub drop-IsOrdered : (rev : Bool) (l : List ℕ) (n : ℕ) → IsOrdered rev l → IsOrdered rev (drop n l)
drop-IsOrdered rev l n ord i j ij jn =
    let len = length-drop n l in
    subst (λ x. Before rev x (drop n l ! j)) (sym (get_or-drop n i l 0))
      (subst (Before rev (l ! (n + i))) (sym (get_or-drop n j l 0))
        (ord (n + i) (n + j) (omega arith) (omega arith)))

Position-ne : (rev : Bool) (l : List ℕ) (p i n : ℕ) → Position rev l p i → n < i → l ! n ≢ p
Position-ne true l p i n pos h = ground (arith, pos.below n h)
Position-ne false l p i n pos h = ground (arith, pos.below n h)

-- An entry does not occur among those from a later index on.
pub absent_from :
    (rev : Bool) (l : List ℕ) (i n : ℕ) → IsOrdered rev l → i < n → exist (drop n l) (l ! i) ≡ false
absent_from rev l i n ord h = exist-absent (drop n l) (l ! i) λ j inside same.
    IsOrdered-ne rev l i (n + j) ord (omega arith) (omega (arith, length-drop n l))
      (sym same ∙ get_or-drop n j l 0)

-- The best prices are prices of the list.
pub exist-drop : (l : List ℕ) (n v : ℕ) → exist l v ≡ false → exist (drop n l) v ≡ false
exist-drop l zero v h = h
exist-drop [] (suc n) v h = refl
exist-drop (x ∷ l) (suc n) v h = exist-drop l n v (ground arith)

-- An entry does not occur again after itself.
absent_after :
    (rev : Bool) (l : List ℕ) (n v : ℕ)
    → IsOrdered rev l
    → v ≡ l ! n
    → exist (drop (suc n) l) v ≡ false
absent_after rev l n v ord e = exist-absent (drop (suc n) l) v λ j h same.
    IsOrdered-ne rev l n (suc n + j) ord (omega arith) (omega (arith, length-drop (suc n) l))
      (sym e ∙ sym same ∙ get_or-drop (suc n) j l 0)

at_depth-some :
    (k : ℕ) (l : List ℕ) → 0 < k → k ≤ length l → at_depth k l ≡ some (l ! (length l - k))
at_depth-some k l pos h = ground arith

at_depth-none : (k : ℕ) (l : List ℕ) → length l < k → at_depth k l ≡ none
at_depth-none k l h = ground arith

module _ (rev : Bool) (l : List ℕ) (p i k : ℕ) (ord : IsOrdered rev l) where
  module _ (h : i < length l) (e : l ! i ≡ p) where
    exist-drop-remove_at :
        (n v : ℕ) → n ≤ i → exist (drop n (remove_at i l)) v ≡ not (v == p) && exist (drop n l) v
    exist-drop-remove_at n v ni =
        let at : drop n l ! (i - n) ≡ p =
          get_or-drop n (i - n) l 0 ∙ (let same : n + (i - n) ≡ i = omega arith in rw same e) in
        rw (drop-remove_at_le l n i ni h, ← at)
          (exist-remove_at rev (drop n l) (i - n) v (drop-IsOrdered rev l n ord)
            (omega (arith, length-drop n l)))

    -- A price within the best `k` is taken out: they lose it, and gain the price now at depth `k`.
    pub exist-top-remove_at :
        length l - i ≤ k
        → (v : ℕ)
        → exist (top k (remove_at i l)) v
          ≡ (not (v == p) && exist (top k l) v) || is_price (at_depth k (remove_at i l)) v
    exist-top-remove_at d v =
        let len = length-remove_at l i h in
        elim (dec_le k (length (remove_at i l))) [
          | yes deep ↦
              let n = length (remove_at i l) - k in
              let above : suc n ≡ length l - k = omega arith in
              let cons = drop-cons l n 0 (omega arith) in
              let ne = IsOrdered-ne rev l n i ord (omega arith) h in
              let at : remove_at i l ! n ≡ l ! n = ground (arith, get_or-remove_at l i 0 n h) in
              rw
                (
                  exist-drop-remove_at n v (omega arith),
                  at_depth-some k (remove_at i l) (omega arith) deep,
                  cons,
                  at,
                  ← above,
                )
                (ground arith)
          | no shallow ↦
              let n : length (remove_at i l) - k ≡ 0 = omega arith in
              let m : length l - k ≡ 0 = omega arith in
              rw (at_depth-none k (remove_at i l) (omega arith), n, m)
                (exist-drop-remove_at 0 v (omega arith) ∙ ground arith)
        ]

    -- A price below the best `k` is taken out: they stay.
    pub top-remove_at : k < length l - i → top k (remove_at i l) ≡ top k l
    top-remove_at d =
        let len = length-remove_at l i h in
        let above : suc (length (remove_at i l) - k) ≡ length l - k = omega arith in
        rw (drop-remove_at_ge l (length (remove_at i l) - k) i (omega arith) h, above)

  module _ (pos : Position rev l p i) where
    exist-drop-splice :
        (n v : ℕ) → n ≤ i → exist (drop n (splice i p i l)) v ≡ (v == p) || exist (drop n l) v
    exist-drop-splice n v ni =
        rw (drop-splice_le l n i p ni pos.inside) (exist-splice (drop n l) p (i - n) v)

    -- A price is put in within the best `k`: they gain it, and lose the price now at depth `k + 1`.
    pub exist-top-splice :
        length l + 1 - i ≤ k
        → (v : ℕ)
        → exist (top k (splice i p i l)) v
          ≡ not (is_price (at_depth (k + 1) (splice i p i l)) v) && ((v == p) || exist (top k l) v)
    exist-top-splice d v =
        let len = length-splice l i p pos.inside in
        let inside = pos.inside in
        elim (dec_le k (length l)) [
          | yes deep ↦
              let n = length l - k in
              let above : length (splice i p i l) - k ≡ suc n = omega arith in
              let index : length (splice i p i l) - (k + 1) ≡ n = omega arith in
              let at : splice i p i l ! n ≡ l ! n =
                ground (arith, get_or-splice l i p 0 n inside) in
              rw
                (
                  above,
                  exist-drop-splice (suc n) v (omega arith),
                  at_depth-some (k + 1) (splice i p i l) (omega arith) (omega arith),
                  index,
                  at,
                  drop-cons l n 0 (omega arith),
                )
                (ground
                  (arith, Position-ne rev l p i n pos (omega arith), absent_after rev l n v ord))
          | no shallow ↦
              let n : length (splice i p i l) - k ≡ 0 = omega arith in
              let m : length l - k ≡ 0 = omega arith in
              rw (at_depth-none (k + 1) (splice i p i l) (omega arith), n, m)
                (exist-drop-splice 0 v (omega arith))
        ]

    -- A price is put in below the best `k`: they stay.
    pub top-splice : k < length l + 1 - i → top k (splice i p i l) ≡ top k l
    top-splice d =
        let len = length-splice l i p pos.inside in
        let inside = pos.inside in
        let above : length (splice i p i l) - k ≡ suc (length l - k) = omega arith in
        rw (above, drop-splice_gt l (length l - k) i p (omega arith) inside)

-- The price at a depth is a price of the list.
pub exist-at_depth :
    (k : ℕ) (l : List ℕ) (v : ℕ) → 0 < k → is_price (at_depth k l) v ≡ true → exist l v ≡ true
exist-at_depth k l v pos h = elim (dec_le k (length l)) [
  | yes deep ↦ ground (arith, at_depth-some k l pos deep, exist-get l (length l - k))
  | no shallow ↦ ground (arith, at_depth-none k l)
]
