-- ===== src/Instruments/Merge.antt =====
-- utils/cache_instrument.go: what an update makes of a stored instrument.
use wstester.Prelude.{
  ◌≡◌, refl, sym, subst, ap, ◌∙◌, Bool, true, false, if◌then◌else◌, ℤ, is_positive, nat_eq,
}
use wstester.Instruments.{
  Instrument, has_marks, merge, update_marks, update_quote, update_last, update_funding,
}

abbrev pub either : Bool → ℤ → ℤ → ℤ
either fresh new old = if fresh then new else old

-- All values of an instrument after an update: each from the update or from before.
pub record Merged (ins upd after : Instrument) : Type 0 where
  pub symbol : after.symbol ≡ ins.symbol
  pub indicative :
      after.indicative_settle_price
      ≡ either (has_marks upd) upd.indicative_settle_price ins.indicative_settle_price
  pub mark : after.mark_price ≡ either (has_marks upd) upd.mark_price ins.mark_price
  pub bid : after.bid_price ≡ either (is_positive upd.bid_price) upd.bid_price ins.bid_price
  pub ask : after.ask_price ≡ either (is_positive upd.bid_price) upd.ask_price ins.ask_price
  pub last : after.last_price ≡ either (is_positive upd.last_price) upd.last_price ins.last_price
  pub volume : after.volume ≡ either (is_positive upd.last_price) upd.volume ins.volume
  pub turnover : after.turnover ≡ either (is_positive upd.last_price) upd.turnover ins.turnover
  pub funding :
      after.funding_rate ≡ either (is_positive upd.funding_rate) upd.funding_rate ins.funding_rate
  pub fair_basis : after.fair_basis ≡ either (has_marks upd) upd.fair_basis ins.fair_basis
  pub fair_price : after.fair_price ≡ either (has_marks upd) upd.fair_price ins.fair_price
  pub prev_mark_price_24h :
      after.prev_mark_price_24h
      ≡ either (has_marks upd) upd.prev_mark_price_24h ins.prev_mark_price_24h
  pub prev_price_24h :
      after.prev_price_24h
      ≡ either (is_positive upd.last_price) upd.prev_price_24h ins.prev_price_24h
  pub last_change_pcnt :
      after.last_change_pcnt
      ≡ either (is_positive upd.last_price) upd.last_change_pcnt ins.last_change_pcnt
  pub last_tick_direction :
      after.last_tick_direction
      ≡ either (is_positive upd.last_price) upd.last_tick_direction ins.last_tick_direction
  pub volume_24h :
      after.volume_24h ≡ either (is_positive upd.last_price) upd.volume_24h ins.volume_24h
  pub total_volume :
      after.total_volume ≡ either (is_positive upd.last_price) upd.total_volume ins.total_volume
  pub prev_total_volume :
      after.prev_total_volume
      ≡ either (is_positive upd.last_price) upd.prev_total_volume ins.prev_total_volume
  pub turnover_24h :
      after.turnover_24h ≡ either (is_positive upd.last_price) upd.turnover_24h ins.turnover_24h
  pub total_turnover :
      after.total_turnover
      ≡ either (is_positive upd.last_price) upd.total_turnover ins.total_turnover
  pub prev_total_turnover :
      after.prev_total_turnover
      ≡ either (is_positive upd.last_price) upd.prev_total_turnover ins.prev_total_turnover
  pub funding_timestamp :
      after.funding_timestamp
      ≡ either (is_positive upd.funding_rate) upd.funding_timestamp ins.funding_timestamp

-- The parts of an update, each as one test that its fields share.
abbrev with_marks : Bool → Instrument → Instrument → Instrument
with_marks b upd ins = record ins {
  indicative_settle_price = either b upd.indicative_settle_price ins.indicative_settle_price;
  mark_price = either b upd.mark_price ins.mark_price;
  fair_basis = either b upd.fair_basis ins.fair_basis;
  fair_price = either b upd.fair_price ins.fair_price;
  prev_mark_price_24h = either b upd.prev_mark_price_24h ins.prev_mark_price_24h;
}

abbrev with_quote : Bool → Instrument → Instrument → Instrument
with_quote b upd ins = record ins {
  bid_price = either b upd.bid_price ins.bid_price;
  ask_price = either b upd.ask_price ins.ask_price;
}

abbrev with_last : Bool → Instrument → Instrument → Instrument
with_last b upd ins = record ins {
  last_price = either b upd.last_price ins.last_price;
  prev_price_24h = either b upd.prev_price_24h ins.prev_price_24h;
  last_change_pcnt = either b upd.last_change_pcnt ins.last_change_pcnt;
  last_tick_direction = either b upd.last_tick_direction ins.last_tick_direction;
  volume = either b upd.volume ins.volume;
  volume_24h = either b upd.volume_24h ins.volume_24h;
  total_volume = either b upd.total_volume ins.total_volume;
  prev_total_volume = either b upd.prev_total_volume ins.prev_total_volume;
  turnover = either b upd.turnover ins.turnover;
  turnover_24h = either b upd.turnover_24h ins.turnover_24h;
  total_turnover = either b upd.total_turnover ins.total_turnover;
  prev_total_turnover = either b upd.prev_total_turnover ins.prev_total_turnover;
}

abbrev with_funding : Bool → Instrument → Instrument → Instrument
with_funding b upd ins = record ins {
  funding_rate = either b upd.funding_rate ins.funding_rate;
  funding_timestamp = either b upd.funding_timestamp ins.funding_timestamp;
}

update_marks-eq :
    (ins upd : Instrument) (b : Bool)
    → has_marks upd ≡ b
    → (update_marks ins upd).0 ≡ with_marks b upd ins
unfolding update_marks
update_marks-eq ins upd true e = rw (e, update_marks)
update_marks-eq ins upd false e = rw (e, update_marks)

update_quote-eq :
    (ins upd : Instrument) (b : Bool)
    → is_positive upd.bid_price ≡ b
    → (update_quote ins upd).0 ≡ with_quote b upd ins
unfolding update_quote
update_quote-eq ins upd true e = rw (e, update_quote)
update_quote-eq ins upd false e = rw (e, update_quote)

update_last-eq :
    (ins upd : Instrument) (b : Bool)
    → is_positive upd.last_price ≡ b
    → (update_last ins upd).0 ≡ with_last b upd ins
unfolding update_last
update_last-eq ins upd true e = rw (e, update_last)
update_last-eq ins upd false e = rw (e, update_last)

update_funding-eq :
    (ins upd : Instrument) (b : Bool)
    → is_positive upd.funding_rate ≡ b
    → (update_funding ins upd).0 ≡ with_funding b upd ins
unfolding update_funding
update_funding-eq ins upd true e = rw (e, update_funding)
update_funding-eq ins upd false e = rw (e, update_funding)

merge-eq :
    (ins upd : Instrument)
    → (merge ins upd).0
      ≡ with_funding (is_positive upd.funding_rate) upd (
          with_last
            (is_positive upd.last_price)
            upd
            (with_quote (is_positive upd.bid_price) upd (with_marks (has_marks upd) upd ins)))
unfolding merge
merge-eq ins upd =
    let ins1 = (update_marks ins upd).0 in
    let ins2 = (update_quote ins1 upd).0 in
    let ins3 = (update_last ins2 upd).0 in
    update_funding-eq ins3 upd _ refl
    ∙ ap (with_funding (is_positive upd.funding_rate) upd) (
        update_last-eq ins2 upd _ refl
        ∙ ap (with_last (is_positive upd.last_price) upd) (
            update_quote-eq ins1 upd _ refl
            ∙ ap (with_quote (is_positive upd.bid_price) upd) (update_marks-eq ins upd _ refl)))

pub merge-Merged : (ins upd : Instrument) → Merged ins upd ((merge ins upd).0)
merge-Merged ins upd = subst (Merged ins upd) (sym (merge-eq ins upd)) record {
  symbol = refl;
  indicative = refl;
  mark = refl;
  bid = refl;
  ask = refl;
  last = refl;
  volume = refl;
  turnover = refl;
  funding = refl;
  fair_basis = refl;
  fair_price = refl;
  prev_mark_price_24h = refl;
  prev_price_24h = refl;
  last_change_pcnt = refl;
  last_tick_direction = refl;
  volume_24h = refl;
  total_volume = refl;
  prev_total_volume = refl;
  turnover_24h = refl;
  total_turnover = refl;
  prev_total_turnover = refl;
  funding_timestamp = refl;
}
