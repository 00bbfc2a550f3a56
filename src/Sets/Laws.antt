-- ===== src/Sets/Laws.antt =====
-- utils/set_float.go, utils/set_string.go: which elements the results of the set operations have.
use wstester.Prelude.{
  ◌≡◌, refl, true, not, ◌||◌, ◌&&◌, List, [], ◌∷◌, ◌++◌, Eq, ◌↔◌, if◌then◌else◌, arith,
}
use wstester.Sets.{
  exist, insert_key, append, delete_key, copy, add_keys, add, join_keys, join, sub_keys, sub,
  check_set, contain, contain_keys, new_set,
}

module _ {ℓ} {K : Type ℓ} ⦃e : Eq K⦄ where
  pub exist-append_list : (xs ys : List K) (v : K) → exist (xs ++ ys) v ≡ exist xs v || exist ys v
  exist-append_list [] ys v = refl
  exist-append_list (x ∷ xs) ys v = ground (arith, exist-append_list xs ys v)

  exist_beq : (xs : List K) (v w : K) → e.beq v w ≡ true → exist xs v ≡ exist xs w
  exist_beq xs v w h = let p : v ≡ w = (e.beq_iff v w).0 h in rw p

  exist-insert_key : (xs : List K) (k v : K) → exist (insert_key xs k) v ≡ e.beq v k || exist xs v
  exist-insert_key xs k v = ground (arith, exist-append_list xs (k ∷ []) v, exist_beq xs v k)

  exist-delete_key :
      (xs : List K) (k v : K) → exist (delete_key xs k) v ≡ not (e.beq v k) && exist xs v
  exist-delete_key [] k v = ground arith
  exist-delete_key (x ∷ xs) k v =
      ground (arith, exist-delete_key xs k v, e.beq_iff v k, e.beq_iff v x, e.beq_iff k x)

  exist-append : (xs ys : List K) (v : K) → exist (append xs ys) v ≡ exist ys v || exist xs v
  unfolding append
  exist-append xs [] v = refl
  exist-append xs (y ∷ ys) v =
      ground (arith, exist-append (insert_key xs y) ys v, exist-insert_key xs y v)

  exist-copy : (xs : List K) (v : K) → exist (copy xs) v ≡ exist xs v
  unfolding copy
  exist-copy xs v = ground (arith, exist-append [] xs v)

  -- The set of a slice's elements.
  pub exist-new_set : (xs : List K) (v : K) → exist (new_set xs) v ≡ exist xs v
  unfolding new_set
  exist-new_set xs v = ground (arith, exist-append [] xs v)

  exist-add_keys : (new ks : List K) (v : K) → exist (add_keys new ks) v ≡ exist new v || exist ks v
  unfolding add_keys
  exist-add_keys new [] v = ground arith
  exist-add_keys new (k ∷ ks) v =
      ground (arith, exist-add_keys (insert_key new k) ks v, exist-insert_key new k v)

  -- Add has the elements of both sets.
  pub exist-add : (xs ys : List K) (v : K) → exist (add xs ys) v ≡ exist xs v || exist ys v
  unfolding add
  exist-add xs [] v = ground (arith, exist-copy xs v)
  exist-add xs (y ∷ ys) v = ground (arith, exist-copy xs v, exist-add_keys (copy xs) (y ∷ ys) v)

  exist-sub_keys :
      (set new ks : List K) (v : K)
      → exist (sub_keys set new ks) v ≡ exist new v && not (exist set v && exist ks v)
  unfolding sub_keys
  exist-sub_keys set new [] v = ground arith
  exist-sub_keys set new (k ∷ ks) v = ground (
    arith,
    exist-sub_keys set (if exist set k then delete_key new k else new) ks v,
    exist-delete_key new k v,
    exist_beq set v k,
  )

  -- Sub has the elements of the set that the other has not.
  pub exist-sub : (xs ys : List K) (v : K) → exist (sub xs ys) v ≡ exist xs v && not (exist ys v)
  unfolding sub
  exist-sub xs [] v = ground (arith, exist-copy xs v)
  exist-sub xs (y ∷ ys) v = ground (arith, exist-copy xs v, exist-sub_keys xs (copy xs) (y ∷ ys) v)

  exist-join_keys :
      (set new ks : List K) (v : K)
      → exist (join_keys set new ks) v ≡ exist new v && (exist set v || not (exist ks v))
  unfolding join_keys
  exist-join_keys set new [] v = ground arith
  exist-join_keys set new (k ∷ ks) v = ground (
    arith,
    exist-join_keys set (if not (exist set k) then delete_key new k else new) ks v,
    exist-delete_key new k v,
    exist_beq set v k,
  )

  -- Join keeps every element of its receiver, whatever the other set holds: it is no intersection.
  pub exist-join : (xs ys : List K) (v : K) → exist (join xs ys) v ≡ exist xs v
  unfolding join
  exist-join xs [] v = ground (arith, exist-copy xs v)
  exist-join xs (y ∷ ys) v =
      ground (arith, exist-copy xs v, exist-join_keys xs (copy xs) (y ∷ ys) v)

  contain_keys-exist :
      (set ks : List K) (v : K)
      → contain_keys set ks ≡ true
      → exist ks v ≡ true
      → exist set v ≡ true
  unfolding contain_keys
  contain_keys-exist set [] v h m = ground arith
  contain_keys-exist set (k ∷ ks) v h m =
      ground (arith, contain_keys-exist set ks v, exist_beq set v k)

  contain_keys-all :
      (set ks : List K)
      → ((v : K) → exist ks v ≡ true → exist set v ≡ true)
      → contain_keys set ks ≡ true
  unfolding contain_keys
  contain_keys-all set [] h = refl
  contain_keys-all set (k ∷ ks) h =
      ground (arith, h k, e.beq_iff k k, contain_keys-all set ks (λ v m. h v (ground arith)))

  contain_cons : (set ks : List K) (k : K) → contain set (k ∷ ks) ≡ contain_keys set (k ∷ ks)
  unfolding contain check_set
  contain_cons set ks k = ground arith

  -- Contain decides whether the set has every element of the other.
  pub contain_iff :
      (set b : List K) → (contain set b ≡ true) ↔ ((v : K) → exist b v ≡ true → exist set v ≡ true)
  unfolding contain check_set
  contain_iff set [] = (λ h v m. ground arith, λ h. refl)
  contain_iff set (k ∷ ks) =
      rw (contain_cons set ks k)
        (λ h v. contain_keys-exist set (k ∷ ks) v h, contain_keys-all set (k ∷ ks))
