-- ===== src/Server/Subscribe/Queue.antt =====
-- server/server.go: what one subscription does to the queues of the caches' channels.
use wstester.Prelude.{
  ℕ, ◌≡◌, sym, ap, ◌∙◌, false, ◌&&◌, ◌||◌, Option, none, some, List, [], ◌∷◌, ◌++◌, arith, ◌==◌,
  if◌then◌else◌, lookup, put, nat_eq, lookup-put, ==_iff, Bool-cases, inl, inr,
}
use wstester.Channels.{
  sent, RspChannel, ChannelInput, add_destination, remove_destination, retrive_data,
  shutdown_retrive,
}
use wstester.Tables.{TableCache, realtime, get_rsp_channel}
use wstester.Server.Subscribe.{Task, Serving, with_channel}

module _ {A : Type 0} where
  -- The queue of an open channel: what its loop will be told.
  abbrev pub channel_queue : Option (RspChannel A) → Option (List (ChannelInput A))
  channel_queue none = none
  channel_queue (some ch) = if ch.is_closed || ch.source_closed then none else ch.source

  abbrev pub with_inputs :
      Option (List (ChannelInput A)) → List (ChannelInput A) → Option (List (ChannelInput A))
  with_inputs none inputs = none
  with_inputs (some q) inputs = some (q ++ inputs)

  -- An open channel with one more input.
  abbrev pub told : RspChannel A → List (ChannelInput A) → ChannelInput A → RspChannel A
  told ch q input = record ch { source = some (q ++ input ∷ []) }

  pub channel_queue-open :
      (ch : RspChannel A) (q : List (ChannelInput A))
      → channel_queue (some ch) ≡ some q
      → (ch.is_closed ≡ false) × (ch.source_closed ≡ false) × (ch.source ≡ some q)
  channel_queue-open ch q h = elim (Bool-cases ch.is_closed) [
    | inl e ↦ absurd (ground arith)
    | inr e ↦ elim (Bool-cases ch.source_closed) [
      | inl k ↦ absurd (ground arith)
      | inr k ↦ (e, k, ground arith)
    ]
  ]

  pub retrive_data-told :
      (ch : RspChannel A) (q : List (ChannelInput A)) (session : ℕ)
      → channel_queue (some ch) ≡ some q
      → retrive_data ch session ≡ sent (told ch q (add_destination session))
  unfolding retrive_data
  retrive_data-told ch q session h =
      let (open_ch, open_source, source) = channel_queue-open ch q h in
      rw (open_ch, source, open_source)

  pub shutdown_retrive-told :
      (ch : RspChannel A) (q : List (ChannelInput A)) (session : ℕ)
      → channel_queue (some ch) ≡ some q
      → shutdown_retrive ch session ≡ sent (told ch q (remove_destination session))
  unfolding shutdown_retrive
  shutdown_retrive-told ch q session h =
      let (open_ch, open_source, source) = channel_queue-open ch q h in
      rw (open_ch, source, open_source)

  pub told-queue :
      (ch : RspChannel A) (q : List (ChannelInput A)) (input : ChannelInput A)
      → channel_queue (some ch) ≡ some q
      → channel_queue (some (told ch q input)) ≡ some (q ++ input ∷ [])
  told-queue ch q input h =
      let (open_ch, open_source, source) = channel_queue-open ch q h in rw (open_ch, open_source)

  group-replaced :
      (g : Option (List (ℕ × RspChannel A))) (depth d : ℕ) (ch ch' : RspChannel A)
      → elim g [ none ↦ none | some chs ↦ lookup depth chs ] ≡ some ch
      → elim (elim g as (λ x. Option (List (ℕ × RspChannel A))) [
        | none ↦ none
        | some chs ↦ some (put depth ch' chs)
      ])
          as (λ x. Option (RspChannel A)) [ none ↦ none | some chs ↦ lookup d chs ]
        ≡ (if d == depth then some ch' else elim g [ none ↦ none | some chs ↦ lookup d chs ])
  group-replaced none depth d ch ch' h = absurd (ground arith)
  group-replaced (some chs) depth d ch ch' h = lookup-put depth d ch' chs

module _ {S A : Type 0} where
  abbrev pub table_queue : Option (TableCache S A) → ℕ → Option (List (ChannelInput A))
  table_queue none depth = none
  table_queue (some table) depth =
      if table.pipeline_closed then none else channel_queue (get_rsp_channel table realtime depth)

  abbrev pub queue : Serving S A → ℕ → ℕ → Option (List (ChannelInput A))
  queue s cache depth = table_queue (lookup cache s.tables) depth

  -- One channel's queue has grown, all others are as they were.
  abbrev pub Grows : Serving S A → Serving S A → Task → List (ChannelInput A) → Type 0
  Grows s s' task inputs =
      (cache depth : ℕ)
      → queue s' cache depth ≡ (
          if (cache == task.cache) && (depth == task.depth)
          then with_inputs (queue s cache depth) inputs
          else queue s cache depth)

  channel-replaced :
      (table : TableCache S A) (depth d : ℕ) (ch ch' : RspChannel A)
      → get_rsp_channel table realtime depth ≡ some ch
      → get_rsp_channel (with_channel table depth ch') realtime d
        ≡ (if d == depth then some ch' else get_rsp_channel table realtime d)
  unfolding get_rsp_channel
  channel-replaced table depth d ch ch' h = group-replaced table.realtime depth d ch ch' h

  table_queue-open :
      (table : TableCache S A) (depth : ℕ)
      → table.pipeline_closed ≡ false
      → table_queue (some table) depth ≡ channel_queue (get_rsp_channel table realtime depth)
  table_queue-open table depth h =
      ap (λ b. if b then none else channel_queue (get_rsp_channel table realtime depth)) h

  module _ (s s' : Serving S A) (task : Task) (q : List (ChannelInput A)) (input : ChannelInput A)
      (table table' : TableCache S A) (ch ch' : RspChannel A)
      (e : lookup task.cache s.tables ≡ some table)
      (k : get_rsp_channel table realtime task.depth ≡ some ch)
      (h : queue s task.cache task.depth ≡ some q) where
    pub queue-open : (table.pipeline_closed ≡ false) × (channel_queue (some ch) ≡ some q)
    queue-open =
        let at : table_queue (some table) task.depth ≡ some q =
          ap (λ t. table_queue t task.depth) (sym e) ∙ h in
        elim (Bool-cases table.pipeline_closed) [
          | inl closed ↦ absurd (ground arith)
          | inr is_open ↦ (
            is_open,
            ap channel_queue (sym k) ∙ sym (table_queue-open table task.depth is_open) ∙ at,
          )
        ]

    pub tables-Grows :
        s'.tables ≡ put task.cache table' s.tables
        → table'.pipeline_closed ≡ false
        → table'.realtime ≡ (with_channel table task.depth ch').realtime
        → channel_queue (some ch') ≡ some (q ++ input ∷ [])
        → Grows s s' task (input ∷ [])
    unfolding get_rsp_channel
    tables-Grows tables is_open channels fed_ch cache depth =
        let there : get_rsp_channel table' realtime depth
            ≡ (if depth == task.depth then some ch' else get_rsp_channel table realtime depth) =
          ap
            (λ g. elim g as (λ x. Option (RspChannel A)) [
              | none ↦ none
              | some chs ↦ lookup depth chs
            ])
            channels
          ∙ channel-replaced table task.depth depth ch ch' k in
        let now : queue s' cache depth
            ≡ table_queue (if cache == task.cache then some table' else lookup cache s.tables)
                depth =
          ap (λ m. table_queue (lookup cache m) depth) tables
          ∙ ap (λ t. table_queue t depth) (lookup-put task.cache cache table' s.tables) in
        let fed_queue : table_queue (some table') depth
            ≡ channel_queue
                (if depth == task.depth then some ch' else get_rsp_channel table realtime depth) =
          table_queue-open table' depth is_open ∙ ap channel_queue there in
        elim (Bool-cases (cache == task.cache)) [
          | inr other ↦ now ∙ rw other
          | inl same ↦
              let old : queue s cache depth ≡ channel_queue (get_rsp_channel table realtime depth) =
                ap (λ x. queue s x depth) ((==_iff cache task.cache).0 same)
                ∙ ap (λ t. table_queue t depth) e
                ∙ table_queue-open table depth (queue-open.0) in
              let at : queue s' cache depth
                  ≡ channel_queue (
                      if depth == task.depth
                      then some ch'
                      else get_rsp_channel table realtime depth) =
                now
                ∙ ap (λ b. table_queue (if b then some table' else lookup cache s.tables) depth)
                    same
                ∙ fed_queue in
              elim (Bool-cases (depth == task.depth)) [
                | inr other ↦
                    let kept : queue s' cache depth ≡ queue s cache depth =
                      at
                      ∙ ap
                          (λ b.
                            channel_queue
                              (if b then some ch' else get_rsp_channel table realtime depth))
                          other
                      ∙ sym old in
                    rw (same, other) kept
                | inl here ↦
                    let known : queue s cache depth ≡ some q =
                      old
                      ∙ ap (λ d. channel_queue (get_rsp_channel table realtime d))
                          ((==_iff depth task.depth).0 here)
                      ∙ ap channel_queue k
                      ∙ queue-open.1 in
                    let grown : queue s' cache depth ≡ some (q ++ input ∷ []) =
                      at
                      ∙ ap
                          (λ b.
                            channel_queue
                              (if b then some ch' else get_rsp_channel table realtime depth))
                          here
                      ∙ fed_ch in
                    rw (same, here, known) grown
              ]
        ]
