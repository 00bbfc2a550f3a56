-- ===== src/Linq/Table/Pointers.antt =====
-- utils/linq.go: the columns that a table has selected.
use wstester.Prelude.{
  ◌≡◌, refl, ap, subst, sym, ◌∙◌, Bool-cases, inl, inr, Bool, true, false, ◌&&◌, ◌||◌, none, some,
  List, [], ◌∷◌, done, arith, if◌then◌else◌, lookup, put, lookup-put, Text, text_eq, text_eqb,
  text_eqb_iff, to_lower,
}
use wstester.Linq.Table.Columns.{parse_columns-aliased, result_of}
use wstester.Linq.Table.{
  ColumnDef, TableDef, SelectExpr, aliased, star, other_select, with_alias, select_column,
  select_all, parse_columns,
}

abbrev pub has_key : Text → List (Text × ColumnDef) → Bool
has_key key columns = elim (lookup key columns) [ none ↦ false | some col ↦ true ]

-- Every pointer of `selected` is one to a column.
abbrev pub points : List (Text × ColumnDef) → List (Text × Text) → Bool
points columns [] = true
points columns ((name, key) ∷ selected) = has_key key columns && points columns selected

-- A map has this entry.
abbrev pub has_entry : Text → Text → List (Text × Text) → Bool
has_entry name key [] = false
has_entry name key ((n, k) ∷ entries) =
    (text_eqb name n && text_eqb key k) || has_entry name key entries

-- The entries of a map in an order that its range may visit them in.
abbrev pub IsOrderOf : List (Text × Text) → List (Text × Text) → Type 0
IsOrderOf order selected =
    (name key : Text) → has_entry name key order ≡ has_entry name key selected

has_entry-points :
    (columns : List (Text × ColumnDef)) (name key : Text) (selected : List (Text × Text))
    → points columns selected ≡ true
    → has_entry name key selected ≡ true
    → has_key key columns ≡ true
has_entry-points columns name key [] p h = ground arith
has_entry-points columns name key ((n, k) ∷ selected) p h = elim (Bool-cases (text_eqb key k)) [
  | inl same ↦
      let e : key ≡ k = (text_eqb_iff key k).0 same in
      subst (λ x. has_key x columns ≡ true) (sym e) (ground arith)
  | inr other ↦ has_entry-points columns name key selected (ground arith) (ground arith)
]

points-entries :
    (columns : List (Text × ColumnDef)) (order : List (Text × Text))
    → ((name key : Text) → has_entry name key order ≡ true → has_key key columns ≡ true)
    → points columns order ≡ true
points-entries columns [] h = refl
points-entries columns ((n, k) ∷ order) h =
    let here : has_key k columns ≡ true =
      h n k (ground (arith, text_eqb_iff n n, text_eqb_iff k k)) in
    let rest = points-entries columns order (λ name key e. h name key (ground arith)) in
    ground (arith, here, rest)

pub points-order :
    (columns : List (Text × ColumnDef)) (order selected : List (Text × Text))
    → IsOrderOf order selected
    → points columns selected ≡ true
    → points columns order ≡ true
points-order columns order selected same p =
    points-entries columns order
      (λ name key e. has_entry-points columns name key selected p (sym (same name key) ∙ e))

points-put :
    (columns : List (Text × ColumnDef)) (name key : Text) (selected : List (Text × Text))
    → has_key key columns ≡ true
    → points columns selected ≡ true
    → points columns (put name key selected) ≡ true
points-put columns name key [] h p = ground arith
points-put columns name key ((n, k) ∷ selected) h p =
    ground (arith, points-put columns name key selected)

points-select_all :
    (columns rest : List (Text × ColumnDef)) (selected : List (Text × Text))
    → ((key : Text) → has_key key rest ≡ true → has_key key columns ≡ true)
    → points columns selected ≡ true
    → points columns (select_all rest selected) ≡ true
points-select_all columns [] selected h p = p
points-select_all columns ((key, col) ∷ rest) selected h p =
    points-select_all columns rest (put col.name key selected)
      (λ k e. h k (ground (arith, text_eqb_iff k key)))
      (points-put columns col.name key selected (h key (ground (arith, text_eqb_iff key key))) p)

points-columns :
    (columns columns' : List (Text × ColumnDef)) (selected : List (Text × Text))
    → ((key : Text) → has_key key columns ≡ true → has_key key columns' ≡ true)
    → points columns selected ≡ true
    → points columns' selected ≡ true
points-columns columns columns' [] h p = refl
points-columns columns columns' ((name, key) ∷ selected) h p =
    ground (arith, h key, points-columns columns columns' selected h)

pub parse_columns-points :
    (exprs : List SelectExpr) (tbl tbl' : TableDef)
    → points tbl.columns tbl.selected ≡ true
    → parse_columns tbl exprs ≡ done (some tbl')
    → points tbl'.columns tbl'.selected ≡ true
unfolding parse_columns
parse_columns-points [] tbl tbl' p h =
    subst (λ t. points t.columns t.selected ≡ true) (ap (result_of tbl) h) p
parse_columns-points (star ∷ exprs) tbl tbl' p h =
    parse_columns-points exprs (record tbl { selected = select_all tbl.columns tbl.selected }) tbl'
      (points-select_all tbl.columns tbl.columns tbl.selected (λ key e. e) p) h
parse_columns-points (other_select ∷ exprs) tbl tbl' p h = ground (arith, h)
parse_columns-points (aliased none alias ∷ exprs) tbl tbl' p h = ground (arith, h)
parse_columns-points (aliased (some name) alias ∷ exprs) tbl tbl' p h =
    let (def, e, rest) = parse_columns-aliased tbl tbl' name alias exprs h in
    let key = to_lower name in
    let columns : List (Text × ColumnDef) = put key (with_alias alias def) tbl.columns in
    let now : (k : Text)
        → lookup k columns
          ≡ (if text_eqb k key then some (with_alias alias def) else lookup k tbl.columns) =
      λ k. lookup-put key k (with_alias alias def) tbl.columns in
    parse_columns-points exprs (select_column tbl key alias def) tbl'
      (points-put columns def.name key tbl.selected (ground (arith, now key, text_eqb_iff key key))
        (points-columns tbl.columns columns tbl.selected (λ k f. ground (arith, now k)) p))
      rest
