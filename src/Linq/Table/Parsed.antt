-- ===== src/Linq/Table/Parsed.antt =====
-- utils/linq.go: the selects of parseTable.
use wstester.Prelude.{
  ◌≡◌, refl, sym, ap, ◌∙◌, Option, none, some, List, [], ◌∷◌, Run, done, arith, lookup, Text,
  text_eq, Option-cases, inl, inr,
}
use wstester.Linq.Table.Columns.{Selects, parse_columns-Selects}
use wstester.Linq.Table.Keyed.{columns_of-keyed}
use wstester.Linq.Table.{
  TableExpr, TableDef, SelectExpr, Field, SelectStmt, aliased_table, other_table, parse_columns,
  columns_of, define_table, parse_table,
}

-- The table as parseTable starts it.
abbrev pub unselected : Text → Text → List Field → TableDef
unselected name alias fields = record {
  name = name;
  alias = alias;
  columns = columns_of fields;
  selected = [];
}

-- What parseTable accepts.
pub record Accepts (models : List (Text × List Field)) (stmt : SelectStmt) (tbl : TableDef)
    : Type 0 where
  pub table_name : Text
  pub as_name : Text
  pub fields : List Field
  pub from : stmt.from ≡ aliased_table (some table_name) as_name ∷ []
  pub model : lookup table_name models ≡ some fields
  pub parsed : parse_columns (unselected table_name as_name fields) stmt.exprs ≡ done (some tbl)

define_table-Accepts :
    (models : List (Text × List Field)) (stmt : SelectStmt) (tbl : TableDef) (name alias : Text)
    → stmt.from ≡ aliased_table (some name) alias ∷ []
    → define_table models stmt name alias ≡ done (some tbl)
    → Accepts models stmt tbl
define_table-Accepts models stmt tbl name alias e h =
    let step : Option (List Field) → Run (Option TableDef) = λ o. elim o [
      | none ↦ done none
      | some fields ↦ parse_columns (unselected name alias fields) stmt.exprs
    ] in
    elim (Option-cases (lookup name models)) [
      | inl m ↦
          let fails : done none ≡ done (some tbl) = ap step (sym m) ∙ h in ground (arith, fails)
      | inr (fields, m) ↦ record {
        table_name = name;
        as_name = alias;
        fields = fields;
        from = e;
        model = m;
        parsed = ap step (sym m) ∙ h;
      }
    ]

pub parse_table-Accepts :
    (models : List (Text × List Field)) (from : List TableExpr) (exprs : List SelectExpr)
    (tbl : TableDef)
    → parse_table models (record { from = from; exprs = exprs }) ≡ done (some tbl)
    → Accepts models (record { from = from; exprs = exprs }) tbl
unfolding parse_table
parse_table-Accepts models [] exprs tbl h = ground (arith, h)
parse_table-Accepts models (other_table ∷ []) exprs tbl h = ground (arith, h)
parse_table-Accepts models (other_table ∷ t ∷ rest) exprs tbl h = ground (arith, h)
parse_table-Accepts models (aliased_table none alias ∷ []) exprs tbl h = ground (arith, h)
parse_table-Accepts models (aliased_table name alias ∷ t ∷ rest) exprs tbl h = ground (arith, h)
parse_table-Accepts models (aliased_table (some name) alias ∷ []) exprs tbl h =
    define_table-Accepts models
      (record { from = aliased_table (some name) alias ∷ []; exprs = exprs }) tbl name alias refl h

-- For any models and any select that parseTable accepts: the select is from one table alone, whose model
-- is registered; the table's columns are the model's, each with the alias that the select gives it last;
-- and a column is selected where the select names it, in any case of letters, or has a star.
pub parse_table-Selects :
    (models : List (Text × List Field)) (from : List TableExpr) (exprs : List SelectExpr)
    (tbl : TableDef)
    → parse_table models (record { from = from; exprs = exprs }) ≡ done (some tbl)
    → (name : Text) × (alias : Text) × (fields : List Field) × (from
        ≡ aliased_table (some name) alias ∷ [])
      × (lookup name models ≡ some fields)
      × Selects (unselected name alias fields) exprs tbl
parse_table-Selects models from exprs tbl h =
    let a = parse_table-Accepts models from exprs tbl h in
    (
      a.table_name,
      a.as_name,
      a.fields,
      a.from,
      a.model,
      parse_columns-Selects exprs (unselected a.table_name a.as_name a.fields) tbl
          (columns_of-keyed a.fields) a.parsed,
    )
