-- ===== src/Linq/Union.antt =====
-- utils/linq.go: which select of a union a table's filter comes from.
use wstester.Prelude.{
  ℕ, ◌≡◌, refl, sym, ap, ◌∙◌, Bool, false, Option, none, some, List, [], ◌∷◌, ◌++◌, if◌then◌else◌,
  ◌==◌, lookup, put, nat_eq, lookup-put, arith, Option-cases, inl, inr,
}
use wstester.Linq.{
  Statement, select, union, other_statement, Select, Filter, parse_union, parse_selects, parse_sql,
  parse_where,
}

-- The filter that a select gives a table, if it is of that table.
abbrev pub filter_of : Select → Option Filter
filter_of sel = elim sel.table [
  | none ↦ none
  | some (name, columns) ↦ elim (parse_where columns sel.condition) [ none ↦ none | some f ↦ f ]
]

abbrev pub is_of : ℕ → Select → Bool
is_of name sel = elim sel.table [ none ↦ false | some (n, columns) ↦ name == n ]

-- The specification: the leftmost select of the table, and a default if there is none.
abbrev pub leftmost : Statement Select → ℕ → Option (Option Filter) → Option (Option Filter)
leftmost (select sel) name default = if is_of name sel then some (filter_of sel) else default
leftmost (union left right) name default = leftmost left name (leftmost right name default)
leftmost other_statement name default = default

abbrev then_parse :
    Option (List (ℕ × Option Filter)) → List Select → Option (List (ℕ × Option Filter))
then_parse none sels = none
then_parse (some tables) sels = parse_selects tables sels

parse_selects-append :
    (tables : List (ℕ × Option Filter)) (xs ys : List Select)
    → parse_selects tables (xs ++ ys) ≡ then_parse (parse_selects tables xs) ys
unfolding parse_selects
parse_selects-append tables [] ys = refl
parse_selects-append tables (sel ∷ xs) ys = elim (Option-cases sel.table) [
  | inl e ↦ rw e
  | inr ((name, columns), e) ↦ elim (Option-cases (parse_where columns sel.condition)) [
    | inl w ↦ rw (e, w)
    | inr (f, w) ↦ rw (e, w) (parse_selects-append (put name f tables) xs ys)
  ]
]

some_eq : {A : Type 0} {a b : A} {o : Option A} → o ≡ some a → o ≡ some b → a ≡ b
some_eq e h = ground (arith, e, h)

none-some : {A : Type 0} {a : A} {o : Option A} → o ≡ none → o ≡ some a → ⊥
none-some e h = ground (arith, e, h)

select-leftmost :
    (sel : Select) (tables after : List (ℕ × Option Filter)) (name : ℕ)
    → parse_selects tables (sel ∷ []) ≡ some after
    → lookup name after ≡ leftmost (select sel) name (lookup name tables)
unfolding parse_selects
select-leftmost sel tables after name h = elim (Option-cases sel.table) [
  | inl e ↦
      let fails : parse_selects tables (sel ∷ []) ≡ none = rw (e, parse_selects) in
      absurd (none-some fails h)
  | inr ((n, columns), e) ↦ elim (Option-cases (parse_where columns sel.condition)) [
    | inl w ↦
        let fails : parse_selects tables (sel ∷ []) ≡ none = rw (e, w, parse_selects) in
        absurd (none-some fails h)
    | inr (f, w) ↦
        let made : parse_selects tables (sel ∷ []) ≡ some (put n f tables) =
          rw (e, w, parse_selects) in
        let own : filter_of sel ≡ f = rw (e, filter_of, w) in
        let of : is_of name sel ≡ (name == n) = rw e in
        rw (← some_eq made h, of, own) (lookup-put n name f tables)
  ]
]

select_none :
    (tables after : List (ℕ × Option Filter)) (name : ℕ)
    → parse_selects tables [] ≡ some after
    → lookup name after ≡ lookup name tables
unfolding parse_selects
select_none tables after name h = let same = some_eq refl h in rw (← same)

parse_selects-leftmost :
    (stmt : Statement Select) (tables after : List (ℕ × Option Filter)) (name : ℕ)
    → parse_selects tables (parse_union stmt) ≡ some after
    → lookup name after ≡ leftmost stmt name (lookup name tables)
unfolding parse_union
parse_selects-leftmost (select sel) tables after name h = select-leftmost sel tables after name h
parse_selects-leftmost (union left right) tables after name h =
    let split = parse_selects-append tables (parse_union right) (parse_union left) in
    elim (Option-cases (parse_selects tables (parse_union right))) [
      | inl e ↦ absurd (none-some (split ∙ rw e) h)
      | inr (middle, e) ↦
          let rest : parse_selects tables (parse_union right ++ parse_union left)
              ≡ parse_selects middle (parse_union left) =
            split ∙ rw e in
          parse_selects-leftmost left middle after name (sym rest ∙ h)
          ∙ ap (leftmost left name) (parse_selects-leftmost right tables middle name e)
    ]
parse_selects-leftmost other_statement tables after name h = select_none tables after name h

-- A statement whose every select is accepted: a table's filter is the one that the leftmost select of it
-- in the union has, and only the tables that a select is of have one.
pub parse_sql-leftmost :
    (stmt : Statement Select) (tables : List (ℕ × Option Filter)) (name : ℕ)
    → parse_sql stmt ≡ some tables
    → lookup name tables ≡ leftmost stmt name none
unfolding parse_sql
parse_sql-leftmost stmt tables name h = parse_selects-leftmost stmt [] tables name h
