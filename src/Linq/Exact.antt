-- ===== src/Linq/Exact.antt =====
-- utils/linq.go: a field compared with a literal.
use wstester.Prelude.{
  ℕ, zero, suc, ◌+◌, ◌-◌, ◌*◌, ◌/◌, ◌%◌, ◌==◌, leb, ltb, if◌then◌else◌, ap₂, ℤ, pos, negsuc,
  same_int, text_lt, text_eqb, ◌≡◌, refl, ap, ◌∙◌, Bool-cases, Bool, true, false, not, Option, none,
  some, arith, inl, inr,
}
use wstester.Linq.{
  text, whole, real, str_val, int_val, float_val, other_val, int_lt, unit, truncate, widen, negated,
  Value, SqlVal, order_of,
}

-- The specification: a field and a literal of a fitting kind, both as they are, in a unit that both are
-- whole in; numbers are compared exactly, and a number that a literal without a fraction is compared with
-- has none either.
abbrev pub has_fraction : ℤ → Bool
has_fraction (pos n) = not (n % unit == 0)
has_fraction (negsuc n) = not (suc n % unit == 0)

abbrev pub times_unit : ℤ → ℤ
times_unit (pos n) = pos (n * unit)
times_unit (negsuc n) = negsuc (n * unit + (unit - 1))

abbrev pub below : ℤ → ℤ → Bool
below (pos m) (pos n) = leb (suc m) n
below (pos m) (negsuc n) = false
below (negsuc m) (pos n) = true
below (negsuc m) (negsuc n) = leb (suc n) m

abbrev pub exact : ℤ → ℤ → Bool × Bool
exact a b = (below a b, same_int a b)

abbrev pub compared_to : Value → SqlVal → Option (Bool × Bool)
compared_to (text s) (str_val t) = some (text_lt s t, text_eqb s t)
compared_to (whole m) (int_val n) = some (exact m n)
compared_to (real m) (int_val n) = if has_fraction m then none else some (exact m (times_unit n))
compared_to (whole m) (float_val n) = some (exact (times_unit m) n)
compared_to (real m) (float_val n) = some (exact m n)
compared_to _ _ = none

-- The code's order agrees with it.
abbrev coded : ℤ → ℤ → Bool × Bool
coded a b = (int_lt a b, same_int a b)

coded-exact : (a b : ℤ) → coded a b ≡ exact a b
coded-exact (pos m) (pos n) =
    let e : ltb m n ≡ leb (suc m) n = ground arith in ap (λ less. (less, m == n)) e
coded-exact (pos m) (negsuc n) = refl
coded-exact (negsuc m) (pos n) = refl
coded-exact (negsuc m) (negsuc n) =
    let e : ltb n m ≡ leb (suc n) m = ground arith in ap (λ less. (less, m == n)) e

negated-coded :
    (m q : ℕ) (n : ℤ)
    → suc m ≡ q * unit
    → (int_lt (negated q) n, same_int (negated q) n) ≡ coded (negsuc m) (times_unit n)
negated-coded m zero n h = absurd (ground arith)
negated-coded m (suc q) (pos n) h = refl
negated-coded m (suc q) (negsuc n) h =
    let less : ltb n q ≡ ltb (n * unit + (unit - 1)) m = ground arith in
    let same : (q == n) ≡ (m == n * unit + (unit - 1)) = ground arith in
    ap₂ (λ a b. (a, b)) less same

truncate-coded :
    (m n : ℤ)
    → has_fraction m ≡ false
    → (int_lt (truncate m) n, same_int (truncate m) n) ≡ coded m (times_unit n)
truncate-coded (pos m) (pos n) h =
    let whole_part : m ≡ m / unit * unit = ground arith in
    let less : ltb (m / unit) n ≡ ltb m (n * unit) = ground arith in
    let same : (m / unit == n) ≡ (m == n * unit) = ground arith in ap₂ (λ a b. (a, b)) less same
truncate-coded (pos m) (negsuc n) h = refl
truncate-coded (negsuc m) (pos n) h = negated-coded m (suc m / unit) (pos n) (ground arith)
truncate-coded (negsuc m) (negsuc n) h = negated-coded m (suc m / unit) (negsuc n) (ground arith)

widen-coded : (m n : ℤ) → (int_lt (widen m) n, same_int (widen m) n) ≡ coded (times_unit m) n
widen-coded (pos m) n = refl
widen-coded (negsuc m) n = let e : suc m * unit ≡ suc (m * unit + (unit - 1)) = omega arith in rw e

pub order_of-compared_to :
    (v : Value) (r : SqlVal) (o : Bool × Bool) → compared_to v r ≡ some o → order_of v r ≡ some o
order_of-compared_to (text s) (str_val t) o h = h
order_of-compared_to (whole m) (int_val n) o h = ap some (coded-exact m n) ∙ h
order_of-compared_to (real m) (int_val n) o h = elim (Bool-cases (has_fraction m)) [
  | inl e ↦ ground (arith, e)
  | inr e ↦ ap some (truncate-coded m n e ∙ coded-exact m (times_unit n)) ∙ ground (arith, e)
]
order_of-compared_to (whole m) (float_val n) o h =
    ap some (widen-coded m n ∙ coded-exact (times_unit m) n) ∙ h
order_of-compared_to (real m) (float_val n) o h = ap some (coded-exact m n) ∙ h
order_of-compared_to (text s) (int_val n) o h = ground arith
order_of-compared_to (text s) (float_val n) o h = ground arith
order_of-compared_to (text s) other_val o h = ground arith
order_of-compared_to (whole m) (str_val t) o h = ground arith
order_of-compared_to (whole m) other_val o h = ground arith
order_of-compared_to (real m) (str_val t) o h = ground arith
order_of-compared_to (real m) other_val o h = ground arith
