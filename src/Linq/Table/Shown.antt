-- ===== src/Linq/Table/Shown.antt =====
-- utils/linq.go: the map that GetFilter makes of a row.
use wstester.Prelude.{
  ◌≡◌, refl, sym, ap, ◌∙◌, Bool, true, false, not, ◌&&◌, Option, none, some, List, [], ◌∷◌, done,
  arith, length, ◌==◌, if◌then◌else◌, lookup, put, lookup-put, Text, text_eq, text_eqb,
  Option-cases, Bool-cases, inl, inr, pos, negsuc, zero, suc,
}
use wstester.Linq.{text, whole, real}
use wstester.Linq.Table.{
  Cell, Cells, value, nil, interface, opaque, nothing, held_nil, held_ref, held_plain, ColumnDef,
  TableDef, SelectExpr, TableExpr, Field, shows, shown_key, show_columns, select_row, parse_table,
}
use wstester.Linq.Table.Pointers.{points, parse_columns-points, IsOrderOf, points-order}
use wstester.Linq.Table.Parsed.{unselected, parse_table-Accepts}

-- The cells that are left out of a row of which every column is selected, and those that can be tested.
abbrev pub is_empty : Cell → Bool
is_empty (value (text [])) = true
is_empty (value (whole (pos zero))) = true
is_empty (value (real (pos zero))) = true
is_empty nil = true
is_empty (interface held_nil) = true
is_empty _ = false

abbrev pub is_readable : Cell → Bool
is_readable (interface nothing) = false
is_readable (interface (held_plain n)) = false
is_readable _ = true

abbrev pub visible : Bool → Cell → Bool
visible all cell = not (all && is_empty cell)

shows-visible :
    (all : Bool) (cell : Cell) → is_readable cell ≡ true → shows all cell ≡ done (visible all cell)
shows-visible false cell h = refl
shows-visible true (value (text [])) h = refl
shows-visible true (value (text (n ∷ t))) h = refl
shows-visible true (value (whole (pos zero))) h = refl
shows-visible true (value (whole (pos (suc n)))) h = refl
shows-visible true (value (whole (negsuc n))) h = refl
shows-visible true (value (real (pos zero))) h = refl
shows-visible true (value (real (pos (suc n)))) h = refl
shows-visible true (value (real (negsuc n))) h = refl
shows-visible true nil h = refl
shows-visible true (interface nothing) h = ground (arith, h)
shows-visible true (interface held_nil) h = refl
shows-visible true (interface (held_ref n)) h = refl
shows-visible true (interface (held_plain n)) h = ground (arith, h)
shows-visible true (opaque n) h = refl

-- A row that has a cell for every column, of which none is an interface with nothing or no reference in it.
abbrev pub HasCells : List (Text × ColumnDef) → Cells → Type 0
HasCells columns row =
    (key : Text) (col : ColumnDef)
    → lookup key columns ≡ some col
    → (cell : Cell) × (lookup col.name row ≡ some cell) × (is_readable cell ≡ true)

-- The specification: the cells of the selected columns that are shown by one key, in the order in which
-- the columns are visited, and the last of them that is not left out.
abbrev pub add_cell : Bool → Option Cell → List Cell → List Cell
add_cell true (some cell) cells = cell ∷ cells
add_cell _ _ cells = cells

abbrev pub add_column : Text → Cells → Option ColumnDef → List Cell → List Cell
add_column k row none cells = cells
add_column k row (some col) cells =
    add_cell (text_eqb k (shown_key col)) (lookup col.name row) cells

abbrev pub cells_at : Text → List (Text × ColumnDef) → Cells → List (Text × Text) → List Cell
cells_at k columns row [] = []
cells_at k columns row ((name, key) ∷ selected) =
    add_column k row (lookup key columns) (cells_at k columns row selected)

abbrev pub last_shown : Bool → List Cell → Option Cell → Option Cell
last_shown all [] shown = shown
last_shown all (cell ∷ cells) shown =
    last_shown all cells (if visible all cell then some cell else shown)

-- What one column does to what is shown at a key.
one_shown :
    (k : Text) (all : Bool) (key : Text) (cell : Cell) (result : Cells) (cells : List Cell)
    → last_shown all cells (lookup k (if visible all cell then put key cell result else result))
      ≡ last_shown all (add_cell (text_eqb k key) (some cell) cells) (lookup k result)
one_shown k all key cell result cells = elim (Bool-cases (visible all cell)) [
  | inl show ↦ elim (Bool-cases (text_eqb k key)) [
    | inl hit ↦
        rw (show, hit, lookup-put key k cell result, hit)
          (ap (λ b. last_shown all cells (if b then some cell else lookup k result)) (sym show))
    | inr miss ↦ rw (show, miss, lookup-put key k cell result, miss)
  ]
  | inr hide ↦ elim (Bool-cases (text_eqb k key)) [
    | inl hit ↦
        rw (hide, hit)
          (ap (λ b. last_shown all cells (if b then some cell else lookup k result)) (sym hide))
    | inr miss ↦ rw (hide, miss)
  ]
]

show_columns-shows :
    (all : Bool) (columns : List (Text × ColumnDef)) (row : Cells) (selected : List (Text × Text))
    (result : Cells)
    → points columns selected ≡ true
    → HasCells columns row
    → (shown : Cells) × (show_columns all columns row selected result ≡ done shown)
      × ((k : Text)
          → lookup k shown ≡ last_shown all (cells_at k columns row selected) (lookup k result))
show_columns-shows all columns row [] result p h = (result, refl, λ k. refl)
show_columns-shows all columns row ((name, key) ∷ selected) result p h =
    elim (Option-cases (lookup key columns)) [
      | inl e ↦ ground (arith, e)
      | inr (col, e) ↦
          let (cell, c, r) = h key col e in
          let (shown, run, spec) =
            show_columns-shows all columns row selected
              (if visible all cell then put (shown_key col) cell result else result) (ground arith)
              h in
          (
            shown,
            rw (e, c, shows-visible all cell r) run,
            λ k.
                spec k
                ∙ one_shown k all (shown_key col) cell result (cells_at k columns row selected)
                ∙ rw (e, c),
          )
    ]

-- For any models and any select that parseTable accepts, and any row that has a cell for every column of
-- the table, none an interface with nothing or no reference in it, and for any order in which the map of the
-- selected columns is visited: GetFilter makes a map of the row without a panic, and it has at each key
-- the cell of the selected column that is shown by that key, by its alias or else its JSON name; where
-- every column is selected, zero values are left out, and where several are shown by one key, the one
-- that was visited last stays.
pub select_row-shows :
    (models : List (Text × List Field)) (from : List TableExpr) (exprs : List SelectExpr)
    (tbl : TableDef) (order : List (Text × Text)) (row : Cells)
    → parse_table models (record { from = from; exprs = exprs }) ≡ done (some tbl)
    → IsOrderOf order tbl.selected
    → HasCells tbl.columns row
    → (shown : Cells) × (select_row tbl order row ≡ done shown)
      × ((k : Text)
          → lookup k shown
            ≡ last_shown
                (length tbl.selected == length tbl.columns)
                (cells_at k tbl.columns row order)
                none)
unfolding select_row
select_row-shows models from exprs tbl order row parsed same h =
    let a = parse_table-Accepts models from exprs tbl parsed in
    show_columns-shows (length tbl.selected == length tbl.columns) tbl.columns row order []
      (points-order tbl.columns order tbl.selected same
        (parse_columns-points exprs (unselected a.table_name a.as_name a.fields) tbl refl a.parsed))
      h
