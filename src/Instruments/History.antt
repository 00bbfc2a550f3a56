-- ===== src/Instruments/History.antt =====
-- utils/cache_instrument.go: the price histories stay bounded, and equally long.
use wstester.Prelude.{
  ℕ, ◌-◌, ◌/◌, ◌≤◌, ◌≡◌, refl, Bool, true, false, Option, none, some, List, [], ◌∷◌, ◌++◌, done,
  Returns, Returns-bind, length, length-append, length-drop, arith, if_intro, ltb, if◌then◌else◌, ℤ,
  inl, inr, Option-cases, put, nat_eq,
}
use wstester.Mbl.{Action, partial, insert, update, delete, invalid}
use wstester.Instruments.{
  Instrument, InstrumentResponse, InstrumentCache, InstrumentInput, breakpoint, nothing, other,
  instrument, find, max_history, cut, apply_ins_price, handle_update, handle_partial, apply_updates,
  apply_data, handle_input, store_all, has_marks,
}

-- Both histories are within the limit, and equally long.
pub record IsBounded (c : InstrumentCache) : Type 0 where
  pub indicative : length c.indicative_price_list ≤ max_history
  pub aligned : length c.mark_price_list ≡ length c.indicative_price_list

length-cut :
    (l : List ℤ)
    → length (cut l) ≡ (if ltb max_history (length l) then max_history / 2 else length l)
unfolding cut
length-cut l = ground (arith, length-drop (length l - max_history / 2) l)

apply_ins_price-IsBounded :
    (c : InstrumentCache) (x y : ℤ) → IsBounded c → IsBounded (apply_ins_price c x y)
unfolding apply_ins_price
apply_ins_price-IsBounded c x y h =
    let ind = c.indicative_price_list in
    let mark = c.mark_price_list in
    let i = length-append ind (x ∷ []) in
    let m = length-append mark (y ∷ []) in
    let same : length (mark ++ y ∷ []) ≡ length (ind ++ x ∷ []) = omega (arith, h.aligned) in
    record {
      indicative = ground (arith, length-cut (ind ++ x ∷ []), h.indicative);
      aligned = rw (length-cut (mark ++ y ∷ []), length-cut (ind ++ x ∷ []), same);
    }

handle_update-IsBounded :
    (c : InstrumentCache) (upd : Instrument) → IsBounded c → IsBounded ((handle_update c upd).0)
unfolding handle_update
handle_update-IsBounded c upd h = elim (Option-cases (find upd.symbol c.ins_cache)) [
  | inl e ↦ rw (e, handle_update) h
  | inr (ins, e) ↦
      let k =
        if_intro IsBounded (has_marks upd)
          {x = apply_ins_price c upd.indicative_settle_price upd.mark_price} {y = c}
          (λ _. apply_ins_price-IsBounded c upd.indicative_settle_price upd.mark_price h)
          (λ _. h) in
      rw (e, handle_update) record { indicative = k.indicative; aligned = k.aligned }
]

-- No entry is nil.
abbrev pub present : List (Option Instrument) → Bool
present [] = true
present (none ∷ entries) = false
present (some ins ∷ entries) = present entries

abbrev pub well_formed : InstrumentInput → Bool
well_formed nothing = false
well_formed (instrument rsp) = present rsp.entries
well_formed _ = true

apply_updates-IsBounded :
    (entries : List (Option Instrument)) (c : InstrumentCache) (changed : Bool)
    → IsBounded c
    → present entries ≡ true
    → Returns (apply_updates c changed entries) (λ r. IsBounded r.0)
unfolding apply_updates
apply_updates-IsBounded [] c changed h w = h
apply_updates-IsBounded (none ∷ entries) c changed h w = ground arith
apply_updates-IsBounded (some upd ∷ entries) c changed h w =
    apply_updates-IsBounded entries _ _ (handle_update-IsBounded c upd h) w

store_all-done :
    (entries : List (Option Instrument)) (m : List (ℕ × Instrument))
    → present entries ≡ true
    → (m' : List (ℕ × Instrument)) × (store_all m entries ≡ done m')
store_all-done [] m w = (m, refl)
store_all-done (none ∷ entries) m w = ground arith
store_all-done (some ins ∷ entries) m w = store_all-done entries (put ins.symbol ins m) w

handle_partial-IsBounded :
    (c : InstrumentCache) (rsp : InstrumentResponse)
    → IsBounded c
    → present rsp.entries ≡ true
    → Returns (handle_partial c rsp) (λ r. IsBounded r.0)
unfolding handle_partial
handle_partial-IsBounded c rsp h w = elim (Option-cases c.ins_cache) [
  | inl e ↦
      let (m, stored) = store_all-done rsp.entries [] w in
      rw (e, stored, handle_partial) record { indicative = h.indicative; aligned = h.aligned }
  | inr (m0, e) ↦
      let (m, stored) = store_all-done rsp.entries m0 w in
      rw (e, stored, handle_partial) record { indicative = h.indicative; aligned = h.aligned }
]

apply_data-IsBounded :
    (c : InstrumentCache) (rsp : InstrumentResponse) (action : Action)
    → IsBounded c
    → present rsp.entries ≡ true
    → Returns (apply_data c rsp action) (λ r. IsBounded r.0)
unfolding apply_data
apply_data-IsBounded c rsp partial h w = handle_partial-IsBounded c rsp h w
apply_data-IsBounded c rsp update h w = apply_updates-IsBounded rsp.entries c false h w
apply_data-IsBounded c rsp insert h w = h
apply_data-IsBounded c rsp delete h w = h
apply_data-IsBounded c rsp invalid h w = h

-- From a cache whose two price histories are within the limit and equally long, and for an input that
-- is not nil and has no nil entry: the loop's step does not panic, and the histories still are.
pub handle_input-IsBounded :
    (c : InstrumentCache) (input : InstrumentInput)
    → IsBounded c
    → well_formed input ≡ true
    → Returns (handle_input c input) (λ r. IsBounded r.0)
unfolding handle_input
handle_input-IsBounded c breakpoint h w = h
handle_input-IsBounded c nothing h w = ground arith
handle_input-IsBounded c other h w = h
handle_input-IsBounded c (instrument rsp) h w =
    Returns-bind (apply_data c rsp rsp.action) _ (λ r. IsBounded r.0) _
      (apply_data-IsBounded c rsp rsp.action h w)
      (λ r k.
        if_intro IsBounded r.1 (λ _. record { indicative = k.indicative; aligned = k.aligned })
          (λ _. k))
