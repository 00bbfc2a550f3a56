-- ===== src/Instruments.antt =====
-- utils/cache_instrument.go: the cache of the instruments' latest values.
-- Numbers are integers (ticks, contracts, basis points); texts and times that are only copied are
-- numbered too. The cache owns its instruments: the pointers it shares with a response and with a
-- snapshot are not followed.
pub mod History
pub mod Merge
pub mod Same
pub mod Update
use wstester.Prelude.{
  ℕ, zero, suc, ◌-◌, ◌*◌, ◌/◌, Bool, true, false, not, ◌&&◌, ◌||◌, Option, none, some, List, [],
  ◌∷◌, ◌++◌, Run, done, panic, deref, ◌>>=◌, length, drop, ltb, ◌==◌, if◌then◌else◌, lookup, put,
  nat_eq, map, ℤ, pos, negsuc, is_positive, same_int,
}
use wstester.Mbl.{Action, partial, insert, update, delete, invalid}

-- `maxInsLength`, a day in steps of five seconds, times `maxMultiple`.
abbrev pub max_history : ℕ
max_history = (3600 / 5) * 24 * 3

-- The fields of an Instrument that the cache reads or writes; symbols are numbered.
pub record Instrument : Type 0 where
  pub symbol : ℕ
  pub indicative_settle_price : ℤ
  pub mark_price : ℤ
  pub fair_basis : ℤ
  pub fair_price : ℤ
  pub prev_mark_price_24h : ℤ
  pub bid_price : ℤ
  pub ask_price : ℤ
  pub last_price : ℤ
  pub prev_price_24h : ℤ
  pub last_change_pcnt : ℤ
  pub last_tick_direction : ℤ
  pub volume : ℤ
  pub volume_24h : ℤ
  pub total_volume : ℤ
  pub prev_total_volume : ℤ
  pub turnover : ℤ
  pub turnover_24h : ℤ
  pub total_turnover : ℤ
  pub prev_total_turnover : ℤ
  pub funding_rate : ℤ
  pub funding_timestamp : ℤ

pub record InstrumentResponse : Type 0 where
  pub action : Action
  pub entries : List (Option Instrument)

-- `ins_cache` is nil until the first partial; `published` is what was given to PublishData on
-- channelGroup[Realtime][0], oldest first.
pub record InstrumentCache : Type 0 where
  pub indicative_price_list : List ℤ
  pub mark_price_list : List ℤ
  pub ins_cache : Option (List (ℕ × Instrument))
  pub published : List InstrumentResponse

-- Reading a nil map finds nothing.
abbrev pub find : ℕ → Option (List (ℕ × Instrument)) → Option Instrument
find symbol none = none
find symbol (some m) = lookup symbol m

abbrev pub values : Option (List (ℕ × Instrument)) → List Instrument
values none = []
values (some m) = map (λ entry. entry.1) m

unfoldable pub snapshot : InstrumentCache → InstrumentResponse
snapshot c = record { action = partial; entries = map some (values c.ins_cache) }

unfoldable pub cut : List ℤ → List ℤ
cut l = if ltb max_history (length l) then drop (length l - max_history / 2) l else l

unfoldable pub apply_ins_price : InstrumentCache → ℤ → ℤ → InstrumentCache
unfolding cut
apply_ins_price c ind_price mark_price = record c {
  indicative_price_list = cut (c.indicative_price_list ++ ind_price ∷ []);
  mark_price_list = cut (c.mark_price_list ++ mark_price ∷ []);
}

-- The loop of handlePartial.
abbrev pub store_all :
    List (ℕ × Instrument) → List (Option Instrument) → Run (List (ℕ × Instrument))
store_all m [] = done m
store_all m (entry ∷ entries) = deref entry >>= λ ins. store_all (put ins.symbol ins m) entries

-- `handlePartial`: it initialises a nil map first, and then reports a change.
unfoldable pub handle_partial : InstrumentCache → InstrumentResponse → Run (InstrumentCache × Bool)
handle_partial c rsp = elim c.ins_cache [
  | none ↦ store_all [] rsp.entries >>= λ m. done (record c { ins_cache = some m }, true)
  | some m ↦ store_all m rsp.entries >>= λ m'. done (record c { ins_cache = some m' }, false)
]

-- The parts of handleUpdate: each gives the instrument after it, and whether it reports a change.
abbrev pub has_marks : Instrument → Bool
has_marks upd = is_positive upd.indicative_settle_price && is_positive upd.mark_price

unfoldable pub update_marks : Instrument → Instrument → Instrument × Bool
update_marks ins upd =
    if has_marks upd
    then (
      record ins {
        indicative_settle_price = upd.indicative_settle_price;
        mark_price = upd.mark_price;
        fair_basis = upd.fair_basis;
        fair_price = upd.fair_price;
        prev_mark_price_24h = upd.prev_mark_price_24h;
      },
      not (same_int ins.indicative_settle_price upd.indicative_settle_price)
          || not (same_int ins.mark_price upd.mark_price),
    )
    else (ins, false)

unfoldable pub update_quote : Instrument → Instrument → Instrument × Bool
update_quote ins upd =
    if is_positive upd.bid_price
    then (
      record ins { bid_price = upd.bid_price; ask_price = upd.ask_price },
      not (same_int ins.bid_price upd.bid_price) || not (same_int ins.ask_price upd.ask_price),
    )
    else (ins, false)

unfoldable pub update_last : Instrument → Instrument → Instrument × Bool
update_last ins upd =
    if is_positive upd.last_price
    then (
      record ins {
        last_price = upd.last_price;
        prev_price_24h = upd.prev_price_24h;
        last_change_pcnt = upd.last_change_pcnt;
        last_tick_direction = upd.last_tick_direction;
        volume = upd.volume;
        volume_24h = upd.volume_24h;
        total_volume = upd.total_volume;
        prev_total_volume = upd.prev_total_volume;
        turnover = upd.turnover;
        turnover_24h = upd.turnover_24h;
        total_turnover = upd.total_turnover;
        prev_total_turnover = upd.prev_total_turnover;
      },
      true,
    )
    else (ins, false)

unfoldable pub update_funding : Instrument → Instrument → Instrument × Bool
update_funding ins upd =
    if is_positive upd.funding_rate
    then (
      record ins { funding_rate = upd.funding_rate; funding_timestamp = upd.funding_timestamp },
      true,
    )
    else (ins, false)

unfoldable pub merge : Instrument → Instrument → Instrument × Bool
unfolding update_marks update_quote update_last update_funding
merge ins upd =
    let (ins1, marks) = update_marks ins upd in
    let (ins2, quote) = update_quote ins1 upd in
    let (ins3, last) = update_last ins2 upd in
    let (ins4, funding) = update_funding ins3 upd in (ins4, marks || quote || last || funding)

-- Storing into the map through the instrument's pointer.
abbrev pub store : ℕ → Instrument → Option (List (ℕ × Instrument)) → Option (List (ℕ × Instrument))
store symbol ins none = none
store symbol ins (some m) = some (put symbol ins m)

-- `handleUpdate`: the cache, whether something changed, and whether the symbol is missing.
unfoldable pub handle_update : InstrumentCache → Instrument → InstrumentCache × Bool × Bool
unfolding merge apply_ins_price
handle_update c upd = elim (find upd.symbol c.ins_cache) [
  | none ↦ (c, false, true)
  | some ins ↦
      let (merged, changed) = merge ins upd in
      let priced =
        if has_marks upd then apply_ins_price c upd.indicative_settle_price upd.mark_price else c in
      (record priced { ins_cache = store upd.symbol merged priced.ins_cache }, changed, false)
]

-- The loop of applyData over the updates; `changed` is what the last of them reported.
unfoldable pub apply_updates :
    InstrumentCache → Bool → List (Option Instrument) → Run (InstrumentCache × Bool)
unfolding handle_update
apply_updates c changed [] = done (c, changed)
apply_updates c changed (entry ∷ entries) = deref entry >>= λ upd.
    let (c', changed', missing) = handle_update c upd in apply_updates c' changed' entries

unfoldable pub apply_data :
    InstrumentCache → InstrumentResponse → Action → Run (InstrumentCache × Bool)
unfolding apply_updates handle_partial
apply_data c rsp partial = handle_partial c rsp
apply_data c rsp update = apply_updates c false rsp.entries
apply_data c rsp _ = done (c, false)

-- An input of the pipeline: a breakpoint of TakeSnapshot, a nil message, one of instruments, or one
-- of another table.
pub data InstrumentInput : Type 0 where
  breakpoint nothing other : InstrumentInput
  instrument : InstrumentResponse → InstrumentInput

abbrev pub publish : InstrumentCache → InstrumentResponse → Bool → InstrumentCache
publish c rsp changed = if changed then record c { published = c.published ++ rsp ∷ [] } else c

-- `handleInput`: a nil message is logged through a method of the nil interface.
unfoldable pub handle_input :
    InstrumentCache → InstrumentInput → Run (InstrumentCache × Option InstrumentResponse)
unfolding apply_data snapshot
handle_input c breakpoint = done (c, some (snapshot c))
handle_input c nothing = panic
handle_input c other = done (c, none)
handle_input c (instrument rsp) =
    apply_data c rsp rsp.action >>= λ (c', changed). done (publish c' rsp changed, none)
