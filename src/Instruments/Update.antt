-- ===== src/Instruments/Update.antt =====
-- utils/cache_instrument.go: an update of a stored instrument, and the response that has it.
use wstester.Prelude.{
  ℕ, ◌≡◌, refl, Bool, true, false, none, some, List, [], ◌∷◌, Returns, arith, if◌then◌else◌, ◌==◌,
  ℤ, is_positive, lookup, nat_eq, lookup-put, inl, inr, Option-cases,
}
use wstester.Mbl.{update}
use wstester.Instruments.{
  Instrument, InstrumentCache, instrument, find, apply_ins_price, handle_update, apply_updates,
  apply_data, handle_input, has_marks, merge,
}
use wstester.Instruments.Merge.{Merged, merge-Merged}
use wstester.Instruments.Same.{IsSame, quiet}

priced-cache :
    (c : InstrumentCache) (x y : ℤ) (b : Bool)
    → (if b then apply_ins_price c x y else c).ins_cache ≡ c.ins_cache
unfolding apply_ins_price
priced-cache c x y true = refl
priced-cache c x y false = refl

-- What handleUpdate did to a cache that holds the symbol.
pub record Updates (c : InstrumentCache) (m : List (ℕ × Instrument)) (ins upd : Instrument)
    (r : InstrumentCache × Bool × Bool) : Type 0 where
  pub found : r.2 ≡ false
  pub after : Instrument
  pub merged : Merged ins upd after
  pub kept : (q : ℕ) → find q r.0.ins_cache ≡ (if q == upd.symbol then some after else lookup q m)
  pub changed : r.1 ≡ false → IsSame ins after

-- An update of a symbol that the cache holds: no error is reported, every other symbol keeps its
-- instrument, and every other field of the symbol's instrument comes from the update where the test on
-- its group lets it (the ask price goes by the test on the bid price) and stays otherwise. No change is
-- reported only if the settle, mark, bid, ask and last price, the volume, the turnover and the funding
-- rate do not differ; the fair price and its companions may differ then.
pub handle_update-Updates :
    (c : InstrumentCache) (m : List (ℕ × Instrument)) (ins upd : Instrument)
    → c.ins_cache ≡ some m
    → lookup upd.symbol m ≡ some ins
    → Updates c m ins upd (handle_update c upd)
unfolding handle_update
handle_update-Updates c m ins upd e known =
    let held : find upd.symbol c.ins_cache ≡ some ins = rw e known in
    let same = priced-cache c upd.indicative_settle_price upd.mark_price (has_marks upd) in
    rw (held, handle_update)
      record {
        found = refl;
        after = (merge ins upd).0;
        merged = merge-Merged ins upd;
        kept = λ q. rw (same, e) (lookup-put upd.symbol q ((merge ins upd).0) m);
        changed = quiet ins upd;
      }

handle_update-missing :
    (c : InstrumentCache) (upd : Instrument)
    → find upd.symbol c.ins_cache ≡ none
    → handle_update c upd ≡ (c, false, true)
unfolding handle_update
handle_update-missing c upd e = rw (e, handle_update)

priced-published :
    (c : InstrumentCache) (x y : ℤ) (b : Bool)
    → (if b then apply_ins_price c x y else c).published ≡ c.published
unfolding apply_ins_price
priced-published c x y true = refl
priced-published c x y false = refl

handle_update-published :
    (c : InstrumentCache) (upd : Instrument) → (handle_update c upd).0.published ≡ c.published
unfolding handle_update
handle_update-published c upd = elim (Option-cases (find upd.symbol c.ins_cache)) [
  | inl e ↦ rw (e, handle_update)
  | inr (ins, e) ↦
      rw (e, handle_update)
        (priced-published c upd.indicative_settle_price upd.mark_price (has_marks upd))
]

-- Two updates in one response, the first of a symbol that the cache holds with a last price, the
-- second of a symbol that it does not hold: the cache takes the first one's last price, and the
-- response is not published.
pub handle_input-lost_change :
    (c : InstrumentCache) (m : List (ℕ × Instrument)) (ins a b : Instrument)
    → c.ins_cache ≡ some m
    → lookup a.symbol m ≡ some ins
    → is_positive a.last_price ≡ true
    → lookup b.symbol m ≡ none
    → Returns
        (handle_input c (instrument record { action = update; entries = some a ∷ some b ∷ [] }))
        (λ r.
          (r.0.published ≡ c.published)
          × ((after : Instrument) × (find a.symbol r.0.ins_cache ≡ some after)
              × (after.last_price ≡ a.last_price)))
unfolding handle_input apply_data apply_updates
handle_input-lost_change c m ins a b e known fresh missing =
    let r = handle_update c a in
    let u = handle_update-Updates c m ins a e known in
    let apart : find b.symbol r.0.ins_cache ≡ none = ground (arith, u.kept b.symbol) in
    let last : u.after.last_price ≡ a.last_price = ground (arith, u.merged.last) in
    let stored : find a.symbol r.0.ins_cache ≡ some u.after = ground (arith, u.kept a.symbol) in
    rw (handle_update-missing r.0 b apart) (handle_update-published c a, (u.after, stored, last))
