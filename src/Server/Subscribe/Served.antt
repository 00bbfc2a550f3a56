-- ===== src/Server/Subscribe/Served.antt =====
-- server/server.go: the queues after one topic was served, or ended.
use wstester.Prelude.{
  ℕ, ◌≡◌, refl, true, false, some, List, [], ◌∷◌, ◌++◌, arith, lookup, put, nat_eq, Option-cases,
  inl, inr,
}
use wstester.Channels.{RspChannel, ChannelInput, add_destination, remove_destination, fed}
use wstester.Tables.{TableCache, breakpoint, realtime, get_rsp_channel, append}
use wstester.Server.Subscribe.{Task, Serving, with_channel, with_table, retrieved, shut_down, serve}
use wstester.Server.Subscribe.Queue.{
  told, retrive_data-told, shutdown_retrive-told, told-queue, queue, Grows, queue-open,
  tables-Grows, channel_queue-open,
}

module _ {S A : Type 0} where
  pub record Served (s : Serving S A) (task : Task) (session : ℕ) (s' : Serving S A) : Type 0 where
    pub grows : Grows s s' task (add_destination session ∷ [])
    pub cleanup : s'.cleanup ≡ some (task, session)
    pub is_open : s'.is_closed ≡ s.is_closed
    pub answering :
        (s'.pipeline_answers ≡ s.pipeline_answers) × (s'.channel_answers ≡ s.channel_answers)

  retrieved-open :
      (s : Serving S A) (task : Task) (session : ℕ) (table : TableCache S A) (ch : RspChannel A)
      → table.pipeline_closed ≡ false
      → s.pipeline_answers task.cache ≡ true
      → retrieved s task session table ch
        ≡ fed (record s {
          tables =
              put task.cache
                (record (with_channel table task.depth ch) {
                  pipeline =
                      table.pipeline ++ breakpoint task.depth (some (task.depth, session)) ∷ [];
                })
                s.tables;
          cleanup = some (task, session);
        })
  unfolding append
  retrieved-open s task session table ch h a = rw (h, a)

  pub serve-Served :
      (s : Serving S A) (task : Task) (session : ℕ) (q : List (ChannelInput A))
      → queue s task.cache task.depth ≡ some q
      → s.pipeline_answers task.cache ≡ true
      → (s' : Serving S A) × (serve s (task, session) ≡ fed s') × Served s task session s'
  unfolding serve
  serve-Served s task session q h a = elim (Option-cases (lookup task.cache s.tables)) [
    | inl e ↦ absurd (ground arith)
    | inr (table, e) ↦ elim (Option-cases (get_rsp_channel table realtime task.depth)) [
      | inl k ↦ absurd (ground arith)
      | inr (ch, k) ↦
          let (is_open, fed_by) =
            queue-open s s task q (add_destination session) table table ch ch e k h in
          let ch' = told ch q (add_destination session) in
          let table' = record (with_channel table task.depth ch') {
            pipeline = table.pipeline ++ breakpoint task.depth (some (task.depth, session)) ∷ [];
          } in
          let s' = record s {
            tables = put task.cache table' s.tables;
            cleanup = some (task, session);
          } in
          (
            s',
            rw (e, k, retrive_data-told ch q session fed_by, serve)
                (retrieved-open s task session table ch' is_open a),
            record {
              grows =
                  tables-Grows s s' task q (add_destination session) table table' ch ch' e k h refl
                    is_open refl (told-queue ch q (add_destination session) fed_by);
              cleanup = refl;
              is_open = refl;
              answering = (refl, refl);
            },
          )
    ]
  ]

  pub shut_down-Grows :
      (s : Serving S A) (task : Task) (session : ℕ) (q : List (ChannelInput A))
      → queue s task.cache task.depth ≡ some q
      → s.channel_answers task.cache task.depth ≡ true
      → (s' : Serving S A) × (shut_down s (task, session) ≡ fed s')
        × Grows s s' task (remove_destination session ∷ [])
  shut_down-Grows s task session q h a = elim (Option-cases (lookup task.cache s.tables)) [
    | inl e ↦ absurd (ground arith)
    | inr (table, e) ↦ elim (Option-cases (get_rsp_channel table realtime task.depth)) [
      | inl k ↦ absurd (ground arith)
      | inr (ch, k) ↦
          let input : ChannelInput A = remove_destination session in
          let (is_open, fed_by) = queue-open s s task q input table table ch ch e k h in
          let ch' = told ch q input in
          let table' = with_channel table task.depth ch' in
          let s' = with_table s task.cache table' in
          (
            s',
            rw (
              e,
              k,
              shutdown_retrive-told ch q session fed_by,
              a,
              (channel_queue-open ch q fed_by).0,
              shut_down,
            ),
            tables-Grows s s' task q input table table' ch ch' e k h refl is_open refl
                (told-queue ch q input fed_by),
          )
    ]
  ]
