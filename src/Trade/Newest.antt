-- ===== src/Trade/Newest.antt =====
-- utils/cache_trade.go: what a snapshot holds, whatever was trimmed before it.
use wstester.Prelude.{
  ℕ, zero, suc, ◌+◌, ◌-◌, ◌*◌, ◌/◌, ◌≤◌, ◌≡◌, refl, sym, ap, ◌∙◌, List, [], ◌∷◌, ◌++◌, Run, done,
  panic, ◌>>=◌, length, drop, ltb, if◌then◌else◌, min, arith, if_intro, dec_le, length-append,
  length-drop, drop-nil,
}
use wstester.Mbl.{partial, insert, update, delete, invalid}
use wstester.Trade.{
  TradeResponse, TradeCache, TradeInput, breakpoint, nothing, trade, other, max_trade_len,
  max_multiple, snapshot, trimmed, apply_data, run_inputs,
}

-- How many trades a snapshot shows at most.
abbrev pub shown : ℕ → ℕ
shown depth = if ltb depth 1 then max_trade_len else min max_trade_len depth

module _ {ℓ} {A : Type ℓ} where
  -- The last `n` entries.
  abbrev pub newest : ℕ → List A → List A
  newest n l = drop (length l - n) l

  drop-append_le : (n : ℕ) (l k : List A) → n ≤ length l → drop n (l ++ k) ≡ drop n l ++ k
  drop-append_le zero l k h = refl
  drop-append_le (suc n) [] k h = absurd (omega arith)
  drop-append_le (suc n) (x ∷ l) k h = drop-append_le n l k (omega arith)

  drop-append_ge : (n : ℕ) (l k : List A) → length l ≤ n → drop n (l ++ k) ≡ drop (n - length l) k
  drop-append_ge n [] k h = let e : n - 0 ≡ n = omega arith in rw e
  drop-append_ge zero (x ∷ l) k h = absurd (omega arith)
  drop-append_ge (suc n) (x ∷ l) k h =
      let e : suc n - suc (length l) ≡ n - length l = omega arith in
      rw e (drop-append_ge n l k (omega arith))

  drop-drop : (n m : ℕ) (l : List A) → drop n (drop m l) ≡ drop (m + n) l
  drop-drop n zero l = let e : 0 + n ≡ n = omega arith in rw e
  drop-drop n (suc m) [] = rw (drop-nil n, drop-nil (suc m + n))
  drop-drop n (suc m) (x ∷ l) =
      let e : suc m + n ≡ suc (m + n) = omega arith in rw e (drop-drop n m l)

  newest-drop : (n m : ℕ) (l : List A) → m + n ≤ length l → newest n (drop m l) ≡ newest n l
  newest-drop n m l h =
      let e : m + (length (drop m l) - n) ≡ length l - n = omega (arith, length-drop m l) in
      rw (drop-drop (length (drop m l) - n) m l, e)

  -- The newest entries after more were appended.
  newest-append : (n : ℕ) (l k : List A) → newest n (newest n l ++ k) ≡ newest n (l ++ k)
  newest-append n l k =
      let m = length l - n in
      let e = drop-append_le m l k (omega arith) in
      elim (dec_le n (length l)) [
        | yes h ↦ rw (← e) (newest-drop n m (l ++ k) (omega (arith, length-append l k)))
        | no h ↦ let z : length l - n ≡ 0 = omega arith in rw z
      ]

  newest-newest : (n m : ℕ) (l : List A) → n ≤ m → newest n (newest m l) ≡ newest n l
  newest-newest n m l h = elim (dec_le m (length l)) [
    | yes k ↦ newest-drop n (length l - m) l (omega arith)
    | no k ↦ let z : length l - m ≡ 0 = omega arith in rw z
  ]

  newest-trimmed : (l : List A) → newest max_trade_len (trimmed l) ≡ newest max_trade_len l
  unfolding trimmed
  newest-trimmed l =
      if_intro (λ h. newest max_trade_len h ≡ newest max_trade_len l)
        (ltb (max_trade_len * max_multiple) (length l))
        (λ _. newest-newest max_trade_len (max_trade_len * max_multiple / 2) l (omega arith))
        (λ _. refl)

  -- The specification: a history that is never trimmed, and snapshots of its newest trades.
  abbrev pub recorded : List A → TradeInput A → List A
  recorded full (trade rsp) = elim rsp.action [
    | partial ↦ rsp.entries
    | insert ↦ full ++ rsp.entries
    | _ ↦ full
  ]
  recorded full _ = full

  abbrev pub snapshots : List A → List (TradeInput A) → Run (List (TradeResponse A))
  snapshots full [] = done []
  snapshots full (breakpoint depth ∷ inputs) = snapshots full inputs >>= λ snaps.
      done (record { action = partial; entries = newest (shown depth) full } ∷ snaps)
  snapshots full (nothing ∷ inputs) = panic
  snapshots full (trade rsp ∷ inputs) = snapshots (recorded full (trade rsp)) inputs
  snapshots full (other ∷ inputs) = snapshots full inputs

  snapshot-newest :
      (c : TradeCache A) (depth : ℕ)
      → (snapshot c depth).entries ≡ newest (shown depth) c.history_trade
  unfolding snapshot
  snapshot-newest c depth =
      let n =
        if ltb depth 1
        then min (length c.history_trade) max_trade_len
        else min (min max_trade_len (length c.history_trade)) depth in
      let e : length c.history_trade - n ≡ length c.history_trade - shown depth = ground arith in
      rw e

  -- A cache whose newest trades are those of the whole history.
  abbrev pub Covers : TradeCache A → List A → Type ℓ
  Covers c full = newest max_trade_len c.history_trade ≡ newest max_trade_len full

  pub snapshot-covered :
      (c : TradeCache A) (full : List A) (depth : ℕ)
      → Covers c full
      → (snapshot c depth).entries ≡ newest (shown depth) full
  snapshot-covered c full depth h =
      let within : shown depth ≤ max_trade_len = ground arith in
      snapshot-newest c depth
      ∙ sym (newest-newest (shown depth) max_trade_len c.history_trade within)
      ∙ ap (newest (shown depth)) h
      ∙ newest-newest (shown depth) max_trade_len full within

  pub apply_data-Covers :
      (c : TradeCache A) (full : List A) (rsp : TradeResponse A)
      → Covers c full
      → Covers ((apply_data c rsp rsp.action).0) (recorded full (trade rsp))
  unfolding apply_data
  apply_data-Covers c full rsp h =
      elim rsp.action
        as (λ a.
          Covers ((apply_data c rsp a).0) (recorded full (trade (record rsp { action = a })))) [
            | partial ↦ refl
            | insert ↦
                newest-trimmed (c.history_trade ++ rsp.entries)
                ∙ sym (newest-append max_trade_len c.history_trade rsp.entries)
                ∙ ap (λ l. newest max_trade_len (l ++ rsp.entries)) h
                ∙ newest-append max_trade_len full rsp.entries
            | update ↦ h
            | delete ↦ h
            | invalid ↦ h
          ]

  -- The snapshots of a run.
  abbrev pub snaps_of : Run (TradeCache A × List (TradeResponse A)) → Run (List (TradeResponse A))
  snaps_of m = m >>= λ r. done r.1

  abbrev with_snaps :
      (List (TradeResponse A) → List (TradeResponse A))
      → TradeCache A × List (TradeResponse A)
      → Run (TradeCache A × List (TradeResponse A))
  with_snaps f r = done (r.0, f r.1)

  snaps_of-bind :
      (m : Run (TradeCache A × List (TradeResponse A)))
      (f : List (TradeResponse A) → List (TradeResponse A))
      → snaps_of (m >>= with_snaps f) ≡ (snaps_of m >>= λ snaps. done (f snaps))
  snaps_of-bind (done r) f = refl
  snaps_of-bind panic f = refl

  snaps_of-same :
      (m : Run (TradeCache A × List (TradeResponse A)))
      → snaps_of (m >>= with_snaps (λ snaps. snaps)) ≡ snaps_of m
  snaps_of-same (done r) = refl
  snaps_of-same panic = refl

  run_inputs-Covers :
      (inputs : List (TradeInput A)) (c : TradeCache A) (full : List A)
      → Covers c full
      → snaps_of (run_inputs c inputs) ≡ snapshots full inputs
  unfolding run_inputs
  run_inputs-Covers [] c full h = refl
  run_inputs-Covers (breakpoint depth ∷ inputs) c full h =
      let taken : snapshot c depth
          ≡ record { action = partial; entries = newest (shown depth) full } =
        ap (λ l. record { action = partial; entries = l }) (snapshot-covered c full depth h) in
      rw (
        snaps_of-bind (run_inputs c inputs) (◌∷◌ (snapshot c depth)),
        run_inputs-Covers inputs c full h,
        taken,
      )
  run_inputs-Covers (nothing ∷ inputs) c full h = refl
  run_inputs-Covers (trade rsp ∷ inputs) c full h =
      let (c', publish) = apply_data c rsp rsp.action in
      let after = if publish then record c' { published = c'.published ++ rsp ∷ [] } else c' in
      snaps_of-same (run_inputs after inputs)
      ∙ run_inputs-Covers inputs after (recorded full (trade rsp)) (
          if_intro (λ x. Covers x (recorded full (trade rsp))) publish
            (λ _. apply_data-Covers c full rsp h) (λ _. apply_data-Covers c full rsp h))
  run_inputs-Covers (other ∷ inputs) c full h =
      snaps_of-same (run_inputs c inputs) ∙ run_inputs-Covers inputs c full h

  -- For any cache and any inputs: the snapshots that the loop hands out, trimming the history as it
  -- goes, are those of a history that is never trimmed; and the loop panics on the same inputs, those
  -- that have a nil message.
  pub run_inputs-snapshots :
      (c : TradeCache A) (inputs : List (TradeInput A))
      → snaps_of (run_inputs c inputs) ≡ snapshots c.history_trade inputs
  run_inputs-snapshots c inputs = run_inputs-Covers inputs c c.history_trade refl

  -- For any cache and any response that inserts trades: the history is afterwards at most 600 trades
  -- long and a tail of the one before with the new trades behind it.
  pub apply_data-insert_bound :
      (c : TradeCache A) (rsp : TradeResponse A)
      → let history = (apply_data c rsp insert).0.history_trade in
        (length history ≤ max_trade_len * max_multiple)
        × ((n : ℕ) × (history ≡ drop n (c.history_trade ++ rsp.entries)))
  unfolding apply_data
  apply_data-insert_bound c rsp =
      let full = c.history_trade ++ rsp.entries in
      if_intro
        (λ history.
          (length history ≤ max_trade_len * max_multiple) × ((n : ℕ) × (history ≡ drop n full)))
        (ltb (max_trade_len * max_multiple) (length full))
        (λ long.
          let n = length full - max_trade_len * max_multiple / 2 in
          (omega (arith, length-drop n full), (n, refl)))
        (λ short. (ground arith, (0, refl)))
