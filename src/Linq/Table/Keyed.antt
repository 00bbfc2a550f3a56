-- ===== src/Linq/Table/Keyed.antt =====
-- utils/linq.go: the keys of a table's columns.
use wstester.Prelude.{
  ◌≡◌, refl, ◌∙◌, Bool, true, false, ◌&&◌, ◌||◌, some, List, [], ◌∷◌, arith, if◌then◌else◌, lookup,
  put, lookup-put, Text, text_eq, text_eqb, text_eqb_iff, to_lower,
}
use wstester.Linq.Table.{ColumnDef, Field, select_all, columns_of}

-- Every column stands under its own name in lower case.
abbrev pub keyed : List (Text × ColumnDef) → Bool
keyed [] = true
keyed ((key, col) ∷ columns) = text_eqb (to_lower col.name) key && keyed columns

pub keyed-lookup :
    (key : Text) (col : ColumnDef) (columns : List (Text × ColumnDef))
    → keyed columns ≡ true
    → lookup key columns ≡ some col
    → to_lower col.name ≡ key
keyed-lookup key col [] h e = ground arith
keyed-lookup key col ((k, c) ∷ columns) h e =
    ground
      (arith, text_eqb_iff key k, text_eqb_iff (to_lower c.name) k, keyed-lookup key col columns)

pub keyed-put :
    (key : Text) (col : ColumnDef) (columns : List (Text × ColumnDef))
    → keyed columns ≡ true
    → to_lower col.name ≡ key
    → keyed (put key col columns) ≡ true
keyed-put key col [] h e = ground (arith, text_eqb_iff (to_lower col.name) key)
keyed-put key col ((k, c) ∷ columns) h e =
    ground (arith, text_eqb_iff (to_lower col.name) key, keyed-put key col columns)

pub columns_of-keyed : (fields : List Field) → keyed (columns_of fields) ≡ true
columns_of-keyed [] = refl
columns_of-keyed (field ∷ fields) =
    keyed-put (to_lower field.name) _ (columns_of fields) (columns_of-keyed fields) refl

-- The names of the columns.
abbrev pub has_name : Text → List (Text × ColumnDef) → Bool
has_name name [] = false
has_name name ((key, col) ∷ columns) = text_eqb name col.name || has_name name columns

pub lookup-has_name :
    (key : Text) (col : ColumnDef) (columns : List (Text × ColumnDef))
    → lookup key columns ≡ some col
    → has_name col.name columns ≡ true
lookup-has_name key col [] h = ground arith
lookup-has_name key col ((k, c) ∷ columns) h =
    ground (arith, text_eqb_iff col.name c.name, lookup-has_name key col columns)

pub lookup-select_all :
    (name : Text) (columns : List (Text × ColumnDef)) (selected : List (Text × Text))
    → keyed columns ≡ true
    → lookup name (select_all columns selected)
      ≡ (if has_name name columns then some (to_lower name) else lookup name selected)
lookup-select_all name [] selected h = refl
lookup-select_all name ((key, col) ∷ columns) selected h =
    lookup-select_all name columns (put col.name key selected) (ground arith)
    ∙ ground (
      arith,
      lookup-put col.name name key selected,
      text_eqb_iff name col.name,
      text_eqb_iff (to_lower col.name) key,
    )
