-- ===== src/Linq/Condition.antt =====
-- utils/linq.go: which conditions are accepted, and what their filters decide.
use wstester.Prelude.{
  ◌≡◌, refl, sym, subst, ap, ◌∙◌, Bool, true, false, not, ◌&&◌, ◌||◌, Option, none, some, done,
  ◌>>=◌, deref, arith, Text, to_lower, Option-cases, inl, inr,
}
use wstester.Linq.Exact.{compared_to, order_of-compared_to}
use wstester.Linq.{
  Value, SqlVal, Operator, equal, less_than, greater_than, less_equal, greater_equal, not_equal,
  other_operator, Operand, col_name, literal, other_operand, Expr, comparison, and, or, paren,
  other_expr, order_of, compare_by, compare_val, find, Row, Columns, Parsed, ok, error, Filter,
  compare_field, parse_comparison, both, any, parsed_pair, parse_condition, bad_column,
}

-- What an operator makes of that, where it is one of the six.
abbrev pub decides : Operator → Bool → Bool → Option Bool
decides equal less same = some same
decides less_than less same = some less
decides greater_than less same = some (not less && not same)
decides less_equal less same = some (less || same)
decides greater_equal less same = some (not less)
decides not_equal less same = some (not same)
decides other_operator less same = none

abbrev pub bind : {A B : Type 0} → Option A → (A → Option B) → Option B
bind none f = none
bind (some a) f = f a

abbrev pub compared : Columns → Row → Operator → Operand → Operand → Option Bool
compared columns row op (col_name left) (literal r) =
    bind (find (to_lower left) columns)
      λ name. bind (find name row) λ v. bind (compared_to v r) λ (less, same). decides op less same
compared columns row op _ _ = none

-- The truth of a condition on a row, where every comparison of it has one.
abbrev pub truth : Columns → Row → Expr → Option Bool
truth columns row (comparison op left right) = compared columns row op left right
truth columns row (and left right) =
    bind (truth columns row left) λ a. bind (truth columns row right) λ b. some (a && b)
truth columns row (or left right) =
    bind (truth columns row left) λ a. bind (truth columns row right) λ b. some (a || b)
truth columns row (paren e) = truth columns row e
truth columns row other_expr = none

-- The filter was made, and decides the row as given.
abbrev pub Decides : Parsed Filter → Row → Bool → Type 0
Decides (ok f) row b = f row ≡ done b
Decides (error e) row b = ⊥

compared_to-decides :
    (v : Value) (r : SqlVal) (op : Operator) (b : Bool)
    → bind (compared_to v r) (λ (less, same). decides op less same) ≡ some b
    → bind (order_of v r) (λ (less, same). decides op less same) ≡ some b
compared_to-decides v r op b h = elim (Option-cases (compared_to v r)) [
  | inl e ↦ ground (arith, e)
  | inr (o, e) ↦
      ap (λ x. bind x (λ (less, same). decides op less same)) (order_of-compared_to v r o e ∙ sym e)
      ∙ h
]

compare_by-decides :
    (op : Operator) (less same b : Bool)
    → decides op less same ≡ some b
    → compare_by op less same ≡ done b
compare_by-decides op less same b h = ground arith

order-decides :
    (o : Option (Bool × Bool)) (op : Operator) (b : Bool)
    → bind o (λ (less, same). decides op less same) ≡ some b
    → (deref o >>= λ (less, same). compare_by op less same) ≡ done b
order-decides none op b h = ground arith
order-decides (some (less, same)) op b h = compare_by-decides op less same b h

field-decides :
    (o : Option Value) (op : Operator) (r : SqlVal) (b : Bool)
    → bind o (λ v. bind (compared_to v r) λ (less, same). decides op less same) ≡ some b
    → (deref o >>= λ v. compare_val op v r) ≡ done b
field-decides none op r b h = ground arith
field-decides (some v) op r b h = order-decides (order_of v r) op b (compared_to-decides v r op b h)

column-Decides :
    (o : Option Text) (row : Row) (op : Operator) (r : SqlVal) (b : Bool)
    → bind o (λ name.
      bind (find name row) λ v. bind (compared_to v r) λ (less, same). decides op less same)
      ≡ some b
    → Decides (elim o [ none ↦ error bad_column | some name ↦ ok (compare_field op name r) ]) row b
unfolding compare_field
column-Decides none row op r b h = ground arith
column-Decides (some name) row op r b h = field-decides (find name row) op r b h

comparison-Decides :
    (columns : Columns) (row : Row) (op : Operator) (left right : Operand) (b : Bool)
    → compared columns row op left right ≡ some b
    → Decides (parse_comparison columns op left right) row b
unfolding parse_comparison compare_field
comparison-Decides columns row op (col_name left) (literal r) b h =
    column-Decides (find (to_lower left) columns) row op r b h
comparison-Decides columns row op (col_name left) (col_name r) b h = ground arith
comparison-Decides columns row op (col_name left) other_operand b h = ground arith
comparison-Decides columns row op (literal l) right b h = ground arith
comparison-Decides columns row op other_operand right b h = ground arith

pair-Decides :
    (p q : Parsed Filter) (row : Row) (a b : Bool)
    → Decides p row a
    → Decides q row b
    → Decides (parsed_pair both p q) row (a && b) × Decides (parsed_pair any p q) row (a || b)
pair-Decides (error e) q row a b h k = absurd h
pair-Decides (ok f) (error e) row a b h k = absurd k
pair-Decides (ok f) (ok g) row true b h k = (rw (h, k), rw h)
pair-Decides (ok f) (ok g) row false b h k = (rw h, rw (h, k))

bind-both :
    (o p : Option Bool) (f : Bool → Bool → Bool) (b : Bool)
    → bind o (λ a. bind p λ c. some (f a c)) ≡ some b
    → (a : Bool) × (c : Bool) × (o ≡ some a) × (p ≡ some c) × (f a c ≡ b)
bind-both none p f b h = ground arith
bind-both (some a) none f b h = ground arith
bind-both (some a) (some c) f b h = (a, c, refl, refl, ground arith)

-- A condition whose every comparison is of a known column, that the row has, with a literal of a fitting
-- kind by a known operator, where no field with a fraction is compared with a literal without one: it is
-- accepted, and its filter does not panic on the row and decides it by the exact comparison of the
-- field's value with the literal's, with the connectives as operations on truth values.
pub parse_condition-Decides :
    (columns : Columns) (row : Row) (e : Expr) (b : Bool)
    → truth columns row e ≡ some b
    → Decides (parse_condition columns e) row b
unfolding parse_condition
parse_condition-Decides columns row (comparison op left right) b h =
    comparison-Decides columns row op left right b h
parse_condition-Decides columns row (and left right) b h =
    let (a, c, l, r, e) =
      bind-both (truth columns row left) (truth columns row right) (λ a c. a && c) b h in
    subst
      (Decides (parsed_pair both (parse_condition columns left) (parse_condition columns right))
        row)
      e
      ((pair-Decides (parse_condition columns left) (parse_condition columns right) row a c
        (parse_condition-Decides columns row left a l)
        (parse_condition-Decides columns row right c r)).0)
parse_condition-Decides columns row (or left right) b h =
    let (a, c, l, r, e) =
      bind-both (truth columns row left) (truth columns row right) (λ a c. a || c) b h in
    subst
      (Decides (parsed_pair any (parse_condition columns left) (parse_condition columns right)) row)
      e
      ((pair-Decides (parse_condition columns left) (parse_condition columns right) row a c
        (parse_condition-Decides columns row left a l)
        (parse_condition-Decides columns row right c r)).1)
parse_condition-Decides columns row (paren e) b h = parse_condition-Decides columns row e b h
parse_condition-Decides columns row other_expr b h = ground arith

abbrev pub is_some {ℓ} : {A : Type ℓ} → Option A → Bool
is_some none = false
is_some (some a) = true

abbrev pub is_ok : {A : Type 0} → Parsed A → Bool
is_ok (ok a) = true
is_ok (error e) = false

-- The conditions that the code accepts: comparisons of a known column with a literal, joined by And, Or
-- and parentheses.
abbrev pub accepted : Columns → Expr → Bool
accepted columns (comparison op (col_name left) (literal r)) =
    is_some (find (to_lower left) columns)
accepted columns (comparison op _ _) = false
accepted columns (and left right) = accepted columns left && accepted columns right
accepted columns (or left right) = accepted columns left && accepted columns right
accepted columns (paren e) = accepted columns e
accepted columns other_expr = false

is_ok-pair :
    (join : Filter → Filter → Filter) (p q : Parsed Filter)
    → is_ok (parsed_pair join p q) ≡ is_ok p && is_ok q
is_ok-pair join (error e) q = refl
is_ok-pair join (ok f) (error e) = refl
is_ok-pair join (ok f) (ok g) = refl

is_ok-column :
    (o : Option Text) (op : Operator) (r : SqlVal)
    → is_ok (elim o as (λ _. Parsed Filter) [
      | none ↦ error bad_column
      | some name ↦ ok (compare_field op name r)
    ])
      ≡ is_some o
is_ok-column none op r = refl
is_ok-column (some name) op r = refl

is_ok-comparison :
    (columns : Columns) (op : Operator) (left right : Operand)
    → is_ok (parse_comparison columns op left right) ≡ accepted columns (comparison op left right)
unfolding parse_comparison
is_ok-comparison columns op (col_name left) (literal r) =
    is_ok-column (find (to_lower left) columns) op r
is_ok-comparison columns op (col_name left) (col_name r) =
    elim (Option-cases (find (to_lower left) columns)) [
      | inl e ↦ rw (e, parse_comparison)
      | inr (name, e) ↦ rw (e, parse_comparison)
    ]
is_ok-comparison columns op (col_name left) other_operand =
    elim (Option-cases (find (to_lower left) columns)) [
      | inl e ↦ rw (e, parse_comparison)
      | inr (name, e) ↦ rw (e, parse_comparison)
    ]
is_ok-comparison columns op (literal l) right = refl
is_ok-comparison columns op other_operand right = refl

-- For any columns and any condition: a filter is made exactly if every comparison is of a known column,
-- whatever its case, with a literal, and nothing else but And, Or and parentheses joins them.
pub parse_condition-accepted :
    (columns : Columns) (e : Expr) → is_ok (parse_condition columns e) ≡ accepted columns e
unfolding parse_condition
parse_condition-accepted columns (comparison op left right) = is_ok-comparison columns op left right
parse_condition-accepted columns (and left right) =
    is_ok-pair both (parse_condition columns left) (parse_condition columns right)
    ∙ rw (parse_condition-accepted columns left, parse_condition-accepted columns right)
parse_condition-accepted columns (or left right) =
    is_ok-pair any (parse_condition columns left) (parse_condition columns right)
    ∙ rw (parse_condition-accepted columns left, parse_condition-accepted columns right)
parse_condition-accepted columns (paren e) = parse_condition-accepted columns e
parse_condition-accepted columns other_expr = refl
