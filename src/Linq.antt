-- ===== src/Linq.antt =====
-- utils/linq.go: the filters that are made of SQL statements. The parser (github.com/xwb1989/sqlparser)
-- gives the statement, whose nodes are data types here with the nodes' names; a node that the code has
-- no case for is `other`. Texts are lists of character codes. A struct's fields, which the code reads by
-- reflection, are an association list; a float64 is a number of hundred-millionths.
pub mod Exact
pub mod Condition
pub mod Union
pub mod Table
use wstester.Prelude.{
  ℕ, zero, suc, ◌+◌, ◌*◌, ◌/◌, ◌≤◌, Bool, true, false, not, ◌&&◌, ◌||◌, Option, none, some, List,
  [], ◌∷◌, ◌++◌, Run, done, panic, ◌>>=◌, deref, ltb, leb, ◌==◌, if◌then◌else◌, lookup, put, nat_eq,
  ℤ, pos, negsuc, same_int, Text, to_lower, text_eqb, text_lt,
}

abbrev pub int_lt : ℤ → ℤ → Bool
int_lt (pos m) (pos n) = ltb m n
int_lt (pos m) (negsuc n) = false
int_lt (negsuc m) (pos n) = true
int_lt (negsuc m) (negsuc n) = ltb n m

-- A field's value, and a literal of a statement, whose kinds the parser numbers 0, 1, 2 and beyond.
pub data Value : Type 0 where
  text : Text → Value
  whole real : ℤ → Value

pub data SqlVal : Type 0 where
  str_val : Text → SqlVal
  int_val float_val : ℤ → SqlVal
  other_val : SqlVal

-- `ComparisonExpr.Operator`
pub data Operator : Type 0 where
  equal less_than greater_than less_equal greater_equal not_equal : Operator
  other_operator : Operator

pub data Operand : Type 0 where
  col_name : Text → Operand
  literal : SqlVal → Operand
  other_operand : Operand

pub data Expr : Type 0 where
  comparison : Operator → Operand → Operand → Expr
  and or : Expr → Expr → Expr
  paren : Expr → Expr
  other_expr : Expr

-- `operatorMapper`, from the tests for less and for equal; an operator that it has not panics.
abbrev pub compare_by : Operator → Bool → Bool → Run Bool
compare_by equal less same = done same
compare_by less_than less same = done less
compare_by greater_than less same = done (not (less || same))
compare_by less_equal less same = done (less || same)
compare_by greater_equal less same = done (not less)
compare_by not_equal less same = done (not same)
compare_by other_operator less same = panic

abbrev pub unit : ℕ
unit = 100000000

-- `Convert` of a float64 to an int64 cuts the fraction off, and of an int64 to a float64 adds none.
abbrev pub negated : ℕ → ℤ
negated zero = pos 0
negated (suc n) = negsuc n

abbrev pub truncate : ℤ → ℤ
truncate (pos n) = pos (n / unit)
truncate (negsuc n) = negated (suc n / unit)

abbrev pub widen : ℤ → ℤ
widen (pos n) = pos (n * unit)
widen (negsuc n) = negated (suc n * unit)

-- parseStr panics unless the field is a string, parseInt and parseFloat if it is one. The literal is read
-- in its own kind, and the field converted to it. The result says whether the field is less, and equal.
abbrev pub order_of : Value → SqlVal → Option (Bool × Bool)
order_of (text s) (str_val t) = some (text_lt s t, text_eqb s t)
order_of (whole m) (int_val n) = some (int_lt m n, same_int m n)
order_of (real m) (int_val n) = some (int_lt (truncate m) n, same_int (truncate m) n)
order_of (whole m) (float_val n) = some (int_lt (widen m) n, same_int (widen m) n)
order_of (real m) (float_val n) = some (int_lt m n, same_int m n)
order_of _ _ = none

abbrev pub compare_val : Operator → Value → SqlVal → Run Bool
compare_val op v r = deref (order_of v r) >>= λ (less, same). compare_by op less same

abbrev pub find {ℓ} : {A : Type ℓ} → Text → List (Text × A) → Option A
find name [] = none
find name ((key, a) ∷ rest) = if text_eqb name key then some a else find name rest

-- A struct's fields by name, and a table's columns by their names in lower case.
abbrev pub Row : Type 0
Row = List (Text × Value)

abbrev pub Columns : Type 0
Columns = List (Text × Text)

pub data ParseError : Type 0 where
  bad_left bad_column bad_right bad_condition : ParseError

pub data Parsed (A : Type 0) : Type 0 where
  ok : A → Parsed A
  error : ParseError → Parsed A

abbrev pub Filter : Type 0
Filter = Row → Run Bool

unfoldable pub compare_field : Operator → Text → SqlVal → Filter
compare_field op name right row = deref (find name row) >>= λ v. compare_val op v right

unfoldable pub parse_comparison : Columns → Operator → Operand → Operand → Parsed Filter
unfolding compare_field
parse_comparison columns op (col_name left) right = elim (find (to_lower left) columns) [
  | none ↦ error bad_column
  | some name ↦ elim right [ literal r ↦ ok (compare_field op name r) | _ ↦ error bad_right ]
]
parse_comparison columns op _ right = error bad_left

-- `leftFn(v) && rightFn(v)` and `leftFn(v) || rightFn(v)`
abbrev pub both : Filter → Filter → Filter
both f g row = f row >>= λ b. if b then g row else done false

abbrev pub any : Filter → Filter → Filter
any f g row = f row >>= λ b. if b then done true else g row

abbrev pub parsed_pair : (Filter → Filter → Filter) → Parsed Filter → Parsed Filter → Parsed Filter
parsed_pair join (error e) right = error e
parsed_pair join (ok f) (error e) = error e
parsed_pair join (ok f) (ok g) = ok (join f g)

unfoldable pub parse_condition : Columns → Expr → Parsed Filter
unfolding parse_comparison
parse_condition columns (comparison op left right) = parse_comparison columns op left right
parse_condition columns (and left right) =
    parsed_pair both (parse_condition columns left) (parse_condition columns right)
parse_condition columns (or left right) =
    parsed_pair any (parse_condition columns left) (parse_condition columns right)
parse_condition columns (paren e) = parse_condition columns e
parse_condition columns other_expr = error bad_condition

-- A statement: a select of type `A`, a union, or any other.
pub data Statement (A : Type 0) : Type 0 where
  select : A → Statement A
  union : Statement A → Statement A → Statement A
  other_statement : Statement A

unfoldable pub parse_union : {A : Type 0} → Statement A → List A
parse_union (select s) = s ∷ []
parse_union (union left right) = parse_union right ++ parse_union left
parse_union other_statement = []

-- A select as far as ParseSQL's loop reads it: its table's name and columns, if parseTable gives them,
-- and its condition.
pub record Select : Type 0 where
  pub table : Option (ℕ × Columns)
  pub condition : Option Expr

abbrev pub parse_where : Columns → Option Expr → Option (Option Filter)
parse_where columns none = some none
parse_where columns (some e) = elim (parse_condition columns e) [
  | ok f ↦ some (some f)
  | error e ↦ none
]

-- ParseSQL's loop over the selects: the filters by table, or `none` for the first error.
unfoldable pub parse_selects :
    List (ℕ × Option Filter) → List Select → Option (List (ℕ × Option Filter))
parse_selects tables [] = some tables
parse_selects tables (sel ∷ sels) = elim sel.table [
  | none ↦ none
  | some (name, columns) ↦ elim (parse_where columns sel.condition) [
    | none ↦ none
    | some f ↦ parse_selects (put name f tables) sels
  ]
]

unfoldable pub parse_sql : Statement Select → Option (List (ℕ × Option Filter))
unfolding parse_selects parse_union
parse_sql stmt = parse_selects [] (parse_union stmt)
