-- ===== src/Sets.antt =====
-- utils/set.go, utils/set_float.go and utils/set_string.go: the two set types have one text, which
-- is modelled once, at any type of keys. A set is the keys of a Go map.
pub mod Laws
use wstester.Prelude.{
  ℕ, ◌<◌, Bool, true, false, not, ◌||◌, Option, none, some, List, [], ◌∷◌, ◌++◌, Eq, length, ltb,
  if◌then◌else◌,
}

module _ {ℓ} {K : Type ℓ} ⦃e : Eq K⦄ where
  -- `_, exist := flt.values[v]`
  abbrev pub exist : List K → K → Bool
  exist [] v = false
  exist (k ∷ ks) v = e.beq v k || exist ks v

  -- `flt.values[num] = exist{}`
  abbrev pub insert_key : List K → K → List K
  insert_key ks v = if exist ks v then ks else ks ++ v ∷ []

  pub append : List K → List K → List K
  append set [] = set
  append set (v ∷ vs) = append (insert_key set v) vs

  -- `delete(new.values, k)`
  abbrev pub delete_key : List K → K → List K
  delete_key [] v = []
  delete_key (k ∷ ks) v = if e.beq v k then delete_key ks v else k ∷ delete_key ks v

  -- The keys, in the order in which Go visits them.
  abbrev pub values : List K → List K
  values set = set

  pub copy : List K → List K
  unfolding append
  copy set = append [] (values set)

  -- `nil` for an empty set, else the set.
  pub check_set : List K → Option (List K)
  check_set b = if ltb (length b) 1 then none else some b

  add_keys : List K → List K → List K
  add_keys new [] = new
  add_keys new (k ∷ ks) = add_keys (insert_key new k) ks

  pub add : List K → List K → List K
  unfolding copy check_set add_keys
  add set b = elim (check_set b) [ none ↦ copy set | some other ↦ add_keys (copy set) other ]

  -- Deletes from `new` the keys of `other` that `set` does not have.
  join_keys : List K → List K → List K → List K
  join_keys set new [] = new
  join_keys set new (k ∷ ks) =
      join_keys set (if not (exist set k) then delete_key new k else new) ks

  pub join : List K → List K → List K
  unfolding copy check_set join_keys
  join set b = elim (check_set b) [ none ↦ copy set | some other ↦ join_keys set (copy set) other ]

  sub_keys : List K → List K → List K → List K
  sub_keys set new [] = new
  sub_keys set new (k ∷ ks) = sub_keys set (if exist set k then delete_key new k else new) ks

  pub sub : List K → List K → List K
  unfolding copy check_set sub_keys
  sub set b = elim (check_set b) [ none ↦ copy set | some other ↦ sub_keys set (copy set) other ]

  contain_keys : List K → List K → Bool
  contain_keys set [] = true
  contain_keys set (k ∷ ks) = if not (exist set k) then false else contain_keys set ks

  pub contain : List K → List K → Bool
  unfolding check_set contain_keys
  contain set b = elim (check_set b) [ none ↦ true | some other ↦ contain_keys set other ]

  pub new_set : List K → List K
  unfolding append
  new_set ele = append [] ele
