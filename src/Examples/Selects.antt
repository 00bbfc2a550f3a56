-- ===== src/Examples/Selects.antt =====
-- utils/slice.go and the selects of utils/linq.go at small inputs.
use wstester.Prelude.{
  ◌≡◌, refl, subst, Bool, true, false, ◌&&◌, ◌||◌, Option, none, some, List, [], ◌∷◌, reverse, Run,
  done, panic, ◌>>=◌, length, ◌==◌, if◌then◌else◌, lookup, pos, negsuc, ℕ, ℤ, Text, codes, text_eq,
  text_eqb, Bool-cases, inl, inr, arith,
}
use wstester.Slices.{reverse_float_slice, range_slice, slice}
use wstester.Slices.Reversed.{reverse_float_slice-reverse}
use wstester.Slices.Without.{without}
use wstester.Slices.Kept.{range_slice-without}
use wstester.Linq.{text, whole}
use wstester.Linq.Table.{
  Cell, Cells, Field, ColumnDef, TableDef, TableExpr, SelectExpr, aliased, aliased_table, value,
  interface, nothing, parse_table, select_row,
}
use wstester.Linq.Table.Columns.{Selects}
use wstester.Linq.Table.Parsed.{parse_table-Selects, unselected}
use wstester.Linq.Table.Pointers.{IsOrderOf}
use wstester.Linq.Table.Shown.{HasCells, is_readable, cells_at, last_shown, select_row-shows}

abbrev letters : List ℕ
letters = 10 ∷ 11 ∷ 12 ∷ 13 ∷ 14 ∷ []

letters-turned : reverse_float_slice 2 letters ≡ some (14 ∷ 13 ∷ 12 ∷ 11 ∷ 10 ∷ [])
unfolding reverse_float_slice
letters-turned = refl

reverse_float_slice-reverse_example : reverse_float_slice 2 letters ≡ some (reverse letters)
reverse_float_slice-reverse_example = reverse_float_slice-reverse 2 letters (omega arith)

abbrev indexes : List ℤ
indexes = pos 3 ∷ negsuc 0 ∷ pos 9 ∷ pos 0 ∷ []

letters-ranged : range_slice letters indexes ≡ 11 ∷ 12 ∷ 14 ∷ []
unfolding range_slice
letters-ranged = refl

range_slice-without_example : range_slice letters indexes ≡ without 0 indexes letters
range_slice-without_example = range_slice-without letters indexes refl

letters-sliced : slice letters (pos 1) ≡ 10 ∷ 12 ∷ 13 ∷ 14 ∷ []
unfolding slice
letters-sliced = refl

abbrev trade_fields : List Field
trade_fields =
    record { name = codes "Symbol"; tag = some (codes "symbol,omitempty") }
    ∷ record { name = codes "Size"; tag = some (codes "size") }
    ∷ record { name = codes "Price"; tag = none }
    ∷ []

abbrev trade_models : List (Text × List Field)
trade_models = (codes "trade", trade_fields) ∷ []

-- SELECT Symbol, SIZE AS volume FROM trade
abbrev from_trade : List TableExpr
from_trade = aliased_table (some (codes "trade")) [] ∷ []

abbrev two_columns : List SelectExpr
two_columns =
    aliased (some (codes "Symbol")) [] ∷ aliased (some (codes "SIZE")) (codes "volume") ∷ []

abbrev symbol_col : ColumnDef
symbol_col = record { name = codes "Symbol"; alias = []; tag = some (codes "symbol,omitempty") }

abbrev size_col : ColumnDef
size_col = record { name = codes "Size"; alias = codes "volume"; tag = some (codes "size") }

abbrev price_col : ColumnDef
price_col = record { name = codes "Price"; alias = []; tag = none }

abbrev trade_table : TableDef
trade_table = record {
  name = codes "trade";
  alias = [];
  columns =
      (codes "price", price_col) ∷ (codes "size", size_col) ∷ (codes "symbol", symbol_col) ∷ [];
  selected = (codes "Symbol", codes "symbol") ∷ (codes "Size", codes "size") ∷ [];
}

two_columns-parsed :
    parse_table trade_models (record { from = from_trade; exprs = two_columns })
    ≡ done (some trade_table)
unfolding parse_table
two_columns-parsed = refl

abbrev trade_row : Cells
trade_row =
    (codes "Symbol", value (text (codes "XBTUSD")))
    ∷ (codes "Size", value (whole (pos 0)))
    ∷ (codes "Price", value (whole (pos 7)))
    ∷ []

-- The columns may be visited in this order.
abbrev turned_columns : List (Text × Text)
turned_columns = (codes "Size", codes "size") ∷ (codes "Symbol", codes "symbol") ∷ []

turned_columns-IsOrderOf : IsOrderOf turned_columns trade_table.selected
turned_columns-IsOrderOf name key =
    swapped (text_eqb name (codes "Size") && text_eqb key (codes "size"))
      (text_eqb name (codes "Symbol") && text_eqb key (codes "symbol"))
  where
    swapped : (a b : Bool) → (a || (b || false)) ≡ (b || (a || false))
    swapped a b = ground arith

-- A zero of a column that is named stays.
trade_row-shown :
    select_row trade_table turned_columns trade_row
    ≡ done (
        (codes "volume", value (whole (pos 0)))
        ∷ (codes "symbol", value (text (codes "XBTUSD")))
        ∷ [])
unfolding select_row
trade_row-shown = refl

parse_table-Selects_example :
    (name : Text) × (alias : Text) × (fields : List Field) × (from_trade
      ≡ aliased_table (some name) alias ∷ [])
    × (lookup name trade_models ≡ some fields)
    × Selects (unselected name alias fields) two_columns trade_table
parse_table-Selects_example =
    parse_table-Selects trade_models from_trade two_columns trade_table two_columns-parsed

nil-HasCells : (row : Cells) → HasCells [] row
nil-HasCells row key col h = ground (arith, h)

abbrev column_name : Option ColumnDef → Text
column_name none = []
column_name (some col) = col.name

cons-HasCells :
    (key : Text) (col : ColumnDef) (columns : List (Text × ColumnDef)) (row : Cells) (cell : Cell)
    → lookup col.name row ≡ some cell
    → is_readable cell ≡ true
    → HasCells columns row
    → HasCells ((key, col) ∷ columns) row
cons-HasCells key col columns row cell e r h k c found =
    let entry : Bool → Option ColumnDef = λ b. if b then some col else lookup k columns in
    elim (Bool-cases (text_eqb k key)) [
      | inl hit ↦
          let same : some col ≡ some c = subst (λ b. entry b ≡ some c) hit found in
          (cell, subst (λ o. lookup (column_name o) row ≡ some cell) same e, r)
      | inr miss ↦ h k c (subst (λ b. entry b ≡ some c) miss found)
    ]

trade_row-HasCells : HasCells trade_table.columns trade_row
trade_row-HasCells =
    cons-HasCells (codes "price") price_col
      ((codes "size", size_col) ∷ (codes "symbol", symbol_col) ∷ []) trade_row
      (value (whole (pos 7))) refl refl
      (cons-HasCells (codes "size") size_col ((codes "symbol", symbol_col) ∷ []) trade_row
        (value (whole (pos 0))) refl refl
        (cons-HasCells (codes "symbol") symbol_col [] trade_row (value (text (codes "XBTUSD"))) refl
          refl (nil-HasCells trade_row)))

select_row-shows_example :
    (shown : Cells) × (select_row trade_table turned_columns trade_row ≡ done shown)
    × ((k : Text)
        → lookup k shown
          ≡ last_shown
              (length trade_table.selected == length trade_table.columns)
              (cells_at k trade_table.columns trade_row turned_columns)
              none)
select_row-shows_example =
    select_row-shows trade_models from_trade two_columns trade_table turned_columns trade_row
      two_columns-parsed turned_columns-IsOrderOf trade_row-HasCells

-- Naming every column leaves zeros out, as a star does.
abbrev every_column : List (Text × Text)
every_column =
    (codes "Price", codes "price")
    ∷ (codes "Size", codes "size")
    ∷ (codes "Symbol", codes "symbol")
    ∷ []

abbrev all_columns : List SelectExpr
all_columns =
    aliased (some (codes "Symbol")) []
    ∷ aliased (some (codes "Size")) []
    ∷ aliased (some (codes "Price")) []
    ∷ []

abbrev shown_by : List SelectExpr → Run (Option (Run Cells))
shown_by exprs = parse_table trade_models (record { from = from_trade; exprs = exprs }) >>= λ tbl.
    elim tbl [ none ↦ done none | some t ↦ done (some (select_row t t.selected trade_row)) ]

all_columns-shown :
    shown_by all_columns
    ≡ done (
        some (
          done (
            (codes "symbol", value (text (codes "XBTUSD")))
            ∷ (codes "Price", value (whole (pos 7)))
            ∷ [])))
unfolding parse_table select_row
all_columns-shown = refl

-- A column that is named twice is shown once, by its last alias.
twice-shown :
    shown_by
      (aliased (some (codes "Price")) [] ∷ aliased (some (codes "Price")) (codes "last") ∷ [])
    ≡ done (some (done ((codes "last", value (whole (pos 7))) ∷ [])))
unfolding parse_table select_row
twice-shown = refl

-- An expression that is no column panics.
count-panics :
    parse_table trade_models (record { from = from_trade; exprs = aliased none [] ∷ [] }) ≡ panic
unfolding parse_table
count-panics = refl

-- So does a star at an interface that holds nothing.
abbrev empty_row : Cells
empty_row =
    (codes "Symbol", interface nothing)
    ∷ (codes "Size", value (whole (pos 1)))
    ∷ (codes "Price", value (whole (pos 7)))
    ∷ []

empty_row-panics :
    select_row (record trade_table { selected = every_column }) every_column empty_row ≡ panic
unfolding select_row
empty_row-panics = refl
