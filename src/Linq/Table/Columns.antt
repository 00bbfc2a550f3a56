-- ===== src/Linq/Table/Columns.antt =====
-- utils/linq.go: which columns parseColumns selects, and by which names.
use wstester.Prelude.{
  ◌≡◌, refl, sym, ap, subst, ◌∙◌, Bool, true, false, ◌||◌, Option, none, some, List, [], ◌∷◌, Run,
  done, arith, if◌then◌else◌, lookup, put, lookup-put, Text, text_eq, text_eqb, text_eqb_iff,
  to_lower, Option-cases, Bool-cases, inl, inr,
}
use wstester.Linq.Table.Keyed.{keyed, keyed-lookup, keyed-put, lookup-has_name, lookup-select_all}
use wstester.Linq.Table.{
  ColumnDef, TableDef, SelectExpr, aliased, star, other_select, with_alias, select_column,
  select_all, parse_columns,
}

-- The specification: the alias that the select expressions give a column last, and whether they name it.
abbrev pub given : Text → Text → Text
given [] alias = alias
given (n ∷ name) alias = n ∷ name

abbrev pub last_alias : Text → List SelectExpr → Text → Text
last_alias key [] alias = alias
last_alias key (aliased (some col) name ∷ exprs) alias =
    last_alias key exprs (if text_eqb key (to_lower col) then given name alias else alias)
last_alias key (_ ∷ exprs) alias = last_alias key exprs alias

abbrev pub names_column : Text → SelectExpr → Bool
names_column key (aliased (some col) name) = text_eqb key (to_lower col)
names_column key star = true
names_column key _ = false

abbrev pub mentions : Text → List SelectExpr → Bool
mentions key [] = false
mentions key (expr ∷ exprs) = names_column key expr || mentions key exprs

abbrev pub renamed : Text → List SelectExpr → Option ColumnDef → Option ColumnDef
renamed key exprs none = none
renamed key exprs (some col) = some (record col { alias = last_alias key exprs col.alias })

renamed-miss :
    (key name alias : Text) (exprs : List SelectExpr) (o : Option ColumnDef)
    → text_eqb key (to_lower name) ≡ false
    → renamed key exprs o ≡ renamed key (aliased (some name) alias ∷ exprs) o
renamed-miss key name alias exprs none h = refl
renamed-miss key name alias exprs (some col) h = rw h

renamed-nil : (key : Text) (o : Option ColumnDef) → o ≡ renamed key [] o
renamed-nil key none = refl
renamed-nil key (some col) = refl

with_alias-given :
    (name : Text) (col : ColumnDef)
    → with_alias name col ≡ record col { alias = given name col.alias }
with_alias-given [] col = refl
with_alias-given (n ∷ name) col = refl

pub with_alias-name : (name : Text) (col : ColumnDef) → (with_alias name col).name ≡ col.name
with_alias-name [] col = refl
with_alias-name (n ∷ name) col = refl

-- What a select's expressions do to a table's definition.
pub record Selects (tbl : TableDef) (exprs : List SelectExpr) (tbl' : TableDef) : Type 0 where
  pub columns : (key : Text) → lookup key tbl'.columns ≡ renamed key exprs (lookup key tbl.columns)
  pub selected :
      (key : Text) (col : ColumnDef)
      → lookup key tbl.columns ≡ some col
      → lookup col.name tbl'.selected
        ≡ (if mentions key exprs then some key else lookup col.name tbl.selected)

nil-Selects : (tbl : TableDef) → Selects tbl [] tbl
nil-Selects tbl = record {
  columns = λ key. renamed-nil key (lookup key tbl.columns);
  selected = λ key col h. refl;
}

star-Selects :
    (tbl tbl' : TableDef) (exprs : List SelectExpr)
    → keyed tbl.columns ≡ true
    → Selects (record tbl { selected = select_all tbl.columns tbl.selected }) exprs tbl'
    → Selects tbl (star ∷ exprs) tbl'
star-Selects tbl tbl' exprs k s =
    let star_key : (key : Text) (col : ColumnDef)
        → lookup key tbl.columns ≡ some col
        → (if mentions key exprs
            then some key
            else lookup col.name (select_all tbl.columns tbl.selected))
          ≡ some key =
      λ key col h. ground (
        arith,
        lookup-select_all col.name tbl.columns tbl.selected k,
        lookup-has_name key col tbl.columns h,
        keyed-lookup key col tbl.columns k h,
      ) in
    record {
      columns = s.columns;
      selected = λ key col h. s.selected key col h ∙ star_key key col h;
    }

aliased-columns :
    (key name alias : Text) (def : ColumnDef) (exprs : List SelectExpr)
    (columns : List (Text × ColumnDef))
    → lookup (to_lower name) columns ≡ some def
    → renamed key exprs (lookup key (put (to_lower name) (with_alias alias def) columns))
      ≡ renamed key (aliased (some name) alias ∷ exprs) (lookup key columns)
aliased-columns key name alias def exprs columns e =
    ap (renamed key exprs) (lookup-put (to_lower name) key (with_alias alias def) columns)
    ∙ elim (Bool-cases (text_eqb key (to_lower name))) [
      | inl hit ↦
          let at : lookup key columns ≡ some def =
            ap (λ k. lookup k columns) ((text_eqb_iff key (to_lower name)).0 hit) ∙ e in
          rw (hit, at, with_alias-given alias def, hit)
      | inr miss ↦ rw miss (renamed-miss key name alias exprs (lookup key columns) miss)
    ]

module _ (tbl : TableDef) (name alias : Text) (def : ColumnDef) where
  aliased-hit :
      (sel : List (Text × Text)) (key : Text) (exprs : List SelectExpr)
      → key ≡ to_lower name
      → lookup (with_alias alias def).name sel ≡ (
          if mentions key exprs
          then some key
          else lookup (with_alias alias def).name (put def.name (to_lower name) tbl.selected))
      → lookup def.name sel ≡ some key
  aliased-hit sel key exprs hit ih =
      subst
        (λ n. lookup n sel ≡ (
          if mentions key exprs
          then some key
          else lookup n (put def.name (to_lower name) tbl.selected)))
        (with_alias-name alias def) ih
      ∙ ground (
        arith,
        lookup-put def.name def.name (to_lower name) tbl.selected,
        text_eqb_iff def.name def.name,
      )

  aliased-miss :
      (key : Text) (col : ColumnDef) (exprs : List SelectExpr)
      → keyed tbl.columns ≡ true
      → lookup (to_lower name) tbl.columns ≡ some def
      → lookup key tbl.columns ≡ some col
      → text_eqb key (to_lower name) ≡ false
      → (if mentions key exprs
          then some key
          else lookup col.name (put def.name (to_lower name) tbl.selected))
        ≡ (if mentions key exprs then some key else lookup col.name tbl.selected)
  aliased-miss key col exprs k e h miss =
      let same : col.name ≡ def.name → key ≡ to_lower name = λ p.
        sym (keyed-lookup key col tbl.columns k h)
        ∙ ap to_lower p
        ∙ keyed-lookup (to_lower name) def tbl.columns k e in
      ground (
        arith,
        lookup-put def.name col.name (to_lower name) tbl.selected,
        text_eqb_iff col.name def.name,
        text_eqb_iff key (to_lower name),
        same,
      )

abbrev name_of : Option ColumnDef → Text → Text
name_of none name = name
name_of (some col) name = col.name

abbrev pub result_of : TableDef → Run (Option TableDef) → TableDef
result_of tbl (done (some tbl')) = tbl'
result_of tbl _ = tbl

aliased-Selects :
    (tbl tbl' : TableDef) (exprs : List SelectExpr) (name : Text) (alias : Text) (def : ColumnDef)
    → keyed tbl.columns ≡ true
    → lookup (to_lower name) tbl.columns ≡ some def
    → Selects (select_column tbl (to_lower name) alias def) exprs tbl'
    → Selects tbl (aliased (some name) alias ∷ exprs) tbl'
aliased-Selects tbl tbl' exprs name alias def k e s =
    let now : (key : Text)
        → lookup key (put (to_lower name) (with_alias alias def) tbl.columns) ≡ (
            if text_eqb key (to_lower name)
            then some (with_alias alias def)
            else lookup key tbl.columns) =
      λ key. lookup-put (to_lower name) key (with_alias alias def) tbl.columns in
    record {
      columns = λ key. s.columns key ∙ aliased-columns key name alias def exprs tbl.columns e;
      selected = λ key col h. elim (Bool-cases (text_eqb key (to_lower name))) [
        | inl hit ↦
            let at : key ≡ to_lower name = (text_eqb_iff key (to_lower name)).0 hit in
            let same : some col ≡ some def = sym h ∙ ap (λ k. lookup k tbl.columns) at ∙ e in
            rw hit (
              subst (λ o. lookup (name_of o col.name) tbl'.selected ≡ some key) (sym same)
                (aliased-hit tbl name alias def tbl'.selected key exprs at
                  (s.selected key (with_alias alias def) (now key ∙ rw hit))))
        | inr miss ↦ rw miss (
            s.selected key col (now key ∙ rw miss h)
            ∙ aliased-miss tbl name alias def key col exprs k e h miss)
      ];
    }

-- An aliased column that parseColumns accepts is one of the table.
pub parse_columns-aliased :
    (tbl tbl' : TableDef) (name alias : Text) (exprs : List SelectExpr)
    → parse_columns tbl (aliased (some name) alias ∷ exprs) ≡ done (some tbl')
    → (def : ColumnDef) × (lookup (to_lower name) tbl.columns ≡ some def)
      × (parse_columns (select_column tbl (to_lower name) alias def) exprs ≡ done (some tbl'))
unfolding parse_columns
parse_columns-aliased tbl tbl' name alias exprs h =
    let step : Option ColumnDef → Run (Option TableDef) = λ o. elim o [
      | none ↦ done none
      | some def ↦ parse_columns (select_column tbl (to_lower name) alias def) exprs
    ] in
    elim (Option-cases (lookup (to_lower name) tbl.columns)) [
      | inl e ↦
          let fails : done none ≡ done (some tbl') = ap step (sym e) ∙ h in ground (arith, fails)
      | inr (def, e) ↦ (def, e, ap step (sym e) ∙ h)
    ]

pub parse_columns-Selects :
    (exprs : List SelectExpr) (tbl tbl' : TableDef)
    → keyed tbl.columns ≡ true
    → parse_columns tbl exprs ≡ done (some tbl')
    → Selects tbl exprs tbl'
unfolding parse_columns
parse_columns-Selects [] tbl tbl' k h =
    subst (λ t. Selects tbl [] t) (ap (result_of tbl) h) (nil-Selects tbl)
parse_columns-Selects (star ∷ exprs) tbl tbl' k h = star-Selects tbl tbl' exprs k (
    parse_columns-Selects exprs (record tbl { selected = select_all tbl.columns tbl.selected }) tbl'
      k h)
parse_columns-Selects (other_select ∷ exprs) tbl tbl' k h = ground arith
parse_columns-Selects (aliased none alias ∷ exprs) tbl tbl' k h = ground arith
parse_columns-Selects (aliased (some name) alias ∷ exprs) tbl tbl' k h =
    let (def, e, rest) = parse_columns-aliased tbl tbl' name alias exprs h in
    aliased-Selects tbl tbl' exprs name alias def k e (
      parse_columns-Selects exprs (select_column tbl (to_lower name) alias def) tbl'
        (keyed-put (to_lower name) (with_alias alias def) tbl.columns k (
          ap to_lower (with_alias-name alias def)
          ∙ keyed-lookup (to_lower name) def tbl.columns k e))
        rest)
