-- ===== src/Linq/Table.antt =====
-- utils/linq.go: the table and the columns of a select, and the map that the filter makes of a row. The
-- parser's nodes are data types; the library go-linq, which runs over the rows, is left out. A model is a
-- list of struct fields.
pub mod Keyed
pub mod Columns
pub mod Parsed
pub mod Pointers
pub mod Shown
use wstester.Prelude.{
  ℕ, zero, suc, Bool, true, false, not, ◌&&◌, Option, none, some, List, [], ◌∷◌, Run, done, panic,
  ◌>>=◌, deref, ltb, ◌==◌, if◌then◌else◌, length, lookup, put, pos, Text, text_eq, to_lower, split,
}
use wstester.Linq.{Value, text, whole, real}

-- What an interface holds: nothing, a nil pointer, map or slice, one that is not nil, or any other value.
pub data Held : Type 0 where
  nothing held_nil : Held
  held_ref held_plain : ℕ → Held

-- A field's value: one that conditions can read, a nil pointer, map or slice, an interface, or any other.
pub data Cell : Type 0 where
  value : Value → Cell
  nil : Cell
  interface : Held → Cell
  opaque : ℕ → Cell

abbrev pub Cells : Type 0
Cells = List (Text × Cell)

-- `StructField`: its name and its json tag.
pub record Field : Type 0 where
  pub name : Text
  pub tag : Option Text

pub record ColumnDef : Type 0 where
  pub name : Text
  pub alias : Text
  pub tag : Option Text

abbrev pub is_named : Text → Bool
is_named [] = false
is_named (n ∷ name) = true

abbrev pub head_or : List Text → Text → Text
head_or [] d = d
head_or (part ∷ parts) d = part

abbrev pub get_json_name : ColumnDef → Text
get_json_name col = elim col.tag [ none ↦ col.name | some tag ↦ head_or (split 44 tag) tag ]

abbrev pub has_alias : ColumnDef → Bool
has_alias col = is_named col.alias

abbrev pub get_alias_name : ColumnDef → Text
get_alias_name col = if has_alias col then col.alias else col.name

-- The columns by their names in lower case. `selected` holds pointers to them, which are those names
-- here, by the columns' own names: an alias that is given to a column shows in both.
pub record TableDef : Type 0 where
  pub name : Text
  pub alias : Text
  pub columns : List (Text × ColumnDef)
  pub selected : List (Text × Text)

pub data SelectExpr : Type 0 where
  aliased : Option Text → Text → SelectExpr
  star : SelectExpr
  other_select : SelectExpr

abbrev pub with_alias : Text → ColumnDef → ColumnDef
with_alias [] col = col
with_alias (n ∷ name) col = record col { alias = n ∷ name }

abbrev pub select_column : TableDef → Text → Text → ColumnDef → TableDef
select_column tbl key name col = record tbl {
  columns = put key (with_alias name col) tbl.columns;
  selected = put col.name key tbl.selected;
}

abbrev pub select_all : List (Text × ColumnDef) → List (Text × Text) → List (Text × Text)
select_all [] selected = selected
select_all ((key, col) ∷ columns) selected = select_all columns (put col.name key selected)

-- `parseColumns`: `none` is an error. An expression that is no column is a nil pointer.
unfoldable pub parse_columns : TableDef → List SelectExpr → Run (Option TableDef)
parse_columns tbl [] = done (some tbl)
parse_columns tbl (aliased none name ∷ exprs) = panic
parse_columns tbl (aliased (some col) name ∷ exprs) = elim (lookup (to_lower col) tbl.columns) [
  | none ↦ done none
  | some def ↦ parse_columns (select_column tbl (to_lower col) name def) exprs
]
parse_columns tbl (star ∷ exprs) =
    parse_columns (record tbl { selected = select_all tbl.columns tbl.selected }) exprs
parse_columns tbl (other_select ∷ exprs) = done none

-- `TableExpr`: an aliased expression, which may be a table's name, or any other.
pub data TableExpr : Type 0 where
  aliased_table : Option Text → Text → TableExpr
  other_table : TableExpr

pub record SelectStmt : Type 0 where
  pub from : List TableExpr
  pub exprs : List SelectExpr

-- The columns of a model, by GetFieldTypes with "*". Of two fields that differ in case only, Go keeps
-- either.
abbrev pub columns_of : List Field → List (Text × ColumnDef)
columns_of [] = []
columns_of (field ∷ fields) =
    put (to_lower field.name) (record { name = field.name; alias = []; tag = field.tag })
      (columns_of fields)

abbrev pub define_table :
    List (Text × List Field) → SelectStmt → Text → Text → Run (Option TableDef)
define_table models stmt name alias = elim (lookup name models) [
  | none ↦ done none
  | some fields ↦
      parse_columns
        (record { name = name; alias = alias; columns = columns_of fields; selected = [] })
        stmt.exprs
]

-- `parseTable`, from `tableModels`.
unfoldable pub parse_table : List (Text × List Field) → SelectStmt → Run (Option TableDef)
unfolding parse_columns
parse_table models stmt = elim stmt.from [
  | [] ↦ panic
  | t ∷ rest ↦ if ltb 0 (length rest) then done none else elim t [
    | other_table ↦ done none
    | aliased_table none alias ↦ done none
    | aliased_table (some name) alias ↦ define_table models stmt name alias
  ]
]

-- The values that GetFilter leaves out. `IsNil` panics at nothing, and at what is no reference.
abbrev pub is_zero : Cell → Run Bool
is_zero (value (text [])) = done true
is_zero (value (whole (pos zero))) = done true
is_zero (value (real (pos zero))) = done true
is_zero nil = done true
is_zero (interface held_nil) = done true
is_zero (interface nothing) = panic
is_zero (interface (held_plain n)) = panic
is_zero _ = done false

abbrev pub shown_key : ColumnDef → Text
shown_key col = if has_alias col then get_alias_name col else get_json_name col

abbrev pub shows : Bool → Cell → Run Bool
shows false cell = done true
shows true cell = is_zero cell >>= λ zero. done (not zero)

-- `GetFieldValue`
abbrev pub get_field_value : Cells → Text → Run Cell
get_field_value row name = deref (lookup name row)

abbrev pub show_columns :
    Bool → List (Text × ColumnDef) → Cells → List (Text × Text) → Cells → Run Cells
show_columns all columns row [] result = done result
show_columns all columns row ((name, key) ∷ selected) result = deref (lookup key columns) >>= λ col.
    get_field_value row col.name >>= λ cell. shows all cell >>= λ shown.
    show_columns all columns row selected
      (if shown then put (shown_key col) cell result else result)

-- The map that GetFilter's Select makes of one row. Go ranges over the selected columns, a map, in an
-- order of its own, which is given here.
unfoldable pub select_row : TableDef → List (Text × Text) → Cells → Run Cells
select_row tbl order row =
    show_columns (length tbl.selected == length tbl.columns) tbl.columns row order []
