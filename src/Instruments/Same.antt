-- ===== src/Instruments/Same.antt =====
-- utils/cache_instrument.go: what an update that reports no change leaves as it was.
use wstester.Prelude.{
  ◌≡◌, refl, ◌∙◌, Bool, false, arith, if_intro, is_positive, same_int_iff, nat_eq,
}
use wstester.Instruments.{
  Instrument, merge, update_marks, update_quote, update_last, update_funding,
}

-- The settle, mark, bid, ask and last price, volume, turnover and funding rate do not differ.
pub record IsSame (ins after : Instrument) : Type 0 where
  pub indicative : after.indicative_settle_price ≡ ins.indicative_settle_price
  pub mark : after.mark_price ≡ ins.mark_price
  pub bid : after.bid_price ≡ ins.bid_price
  pub ask : after.ask_price ≡ ins.ask_price
  pub last : after.last_price ≡ ins.last_price
  pub volume : after.volume ≡ ins.volume
  pub turnover : after.turnover ≡ ins.turnover
  pub funding : after.funding_rate ≡ ins.funding_rate

IsSame-refl : (ins : Instrument) → IsSame ins ins
IsSame-refl ins = record {
  indicative = refl;
  mark = refl;
  bid = refl;
  ask = refl;
  last = refl;
  volume = refl;
  turnover = refl;
  funding = refl;
}

IsSame-trans : (a b c : Instrument) → IsSame a b → IsSame b c → IsSame a c
IsSame-trans a b c h k = record {
  indicative = k.indicative ∙ h.indicative;
  mark = k.mark ∙ h.mark;
  bid = k.bid ∙ h.bid;
  ask = k.ask ∙ h.ask;
  last = k.last ∙ h.last;
  volume = k.volume ∙ h.volume;
  turnover = k.turnover ∙ h.turnover;
  funding = k.funding ∙ h.funding;
}

quiet_marks :
    (ins upd : Instrument)
    → (update_marks ins upd).1 ≡ false
    → IsSame ins ((update_marks ins upd).0)
unfolding update_marks
quiet_marks ins upd h = record {
  indicative = ground (arith, same_int_iff ins.indicative_settle_price upd.indicative_settle_price);
  mark = ground (arith, same_int_iff ins.mark_price upd.mark_price);
  bid = ground (arith);
  ask = ground (arith);
  last = ground (arith);
  volume = ground (arith);
  turnover = ground (arith);
  funding = ground (arith);
}

quiet_quote :
    (ins upd : Instrument)
    → (update_quote ins upd).1 ≡ false
    → IsSame ins ((update_quote ins upd).0)
unfolding update_quote
quiet_quote ins upd h = record {
  indicative = ground (arith);
  mark = ground (arith);
  bid = ground (arith, same_int_iff ins.bid_price upd.bid_price);
  ask = ground (arith, same_int_iff ins.ask_price upd.ask_price);
  last = ground (arith);
  volume = ground (arith);
  turnover = ground (arith);
  funding = ground (arith);
}

quiet_last :
    (ins upd : Instrument) → (update_last ins upd).1 ≡ false → IsSame ins ((update_last ins upd).0)
unfolding update_last
quiet_last ins upd =
    if_intro (λ (r : Instrument × Bool). r.1 ≡ false → IsSame ins r.0) (is_positive upd.last_price)
      (λ _ h. ground arith) (λ _ _. IsSame-refl ins)

quiet_funding :
    (ins upd : Instrument)
    → (update_funding ins upd).1 ≡ false
    → IsSame ins ((update_funding ins upd).0)
unfolding update_funding
quiet_funding ins upd =
    if_intro (λ (r : Instrument × Bool). r.1 ≡ false → IsSame ins r.0)
      (is_positive upd.funding_rate) (λ _ h. ground arith) (λ _ _. IsSame-refl ins)

-- The update reports no change only if those values do not differ.
pub quiet : (ins upd : Instrument) → (merge ins upd).1 ≡ false → IsSame ins ((merge ins upd).0)
unfolding merge
quiet ins upd h =
    let ins1 = (update_marks ins upd).0 in
    let ins2 = (update_quote ins1 upd).0 in
    let ins3 = (update_last ins2 upd).0 in
    IsSame-trans ins ins1 _ (quiet_marks ins upd (ground arith)) (
      IsSame-trans ins1 ins2 _ (quiet_quote ins1 upd (ground arith)) (
        IsSame-trans ins2 ins3 _ (quiet_last ins2 upd (ground arith))
          (quiet_funding ins3 upd (ground arith))))
