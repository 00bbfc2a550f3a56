-- ===== src/Server/Subscribe.antt =====
-- server/server.go: handleSubscribe, and the goroutine that it starts for every topic it knows, with
-- SetCleanup and Close of server/session.go. Several names may stand for one cache. The goroutines run
-- one after another here, in any order that the caller gives; a session that RetriveData draws from a
-- generator is given with its task.
pub mod Queue
pub mod Served
pub mod Cleanup
use wstester.Prelude.{
  ℕ, ◌+◌, ◌-◌, ◌*◌, ◌^◌, Bool, true, false, not, ◌&&◌, ◌||◌, Option, none, some, List, [], ◌∷◌,
  ◌++◌, Run, done, panic, ◌>>=◌, min, leb, if◌then◌else◌, lookup, put, nat_eq, drop, Text, codes,
  text_eq, before_colon, has_prefix,
}
use wstester.Channels.{
  RspChannel, ChannelInput, sent, refused, blocked, broken, Fed, fed, stuck, crashed, retrive_data,
  shutdown_retrive,
}
use wstester.Tables.{TableCache, breakpoint, realtime, get_rsp_channel, append}

-- The longest prefix of digits, and its value, which Atoi cuts at the largest integer.
abbrev pub digits : Text → Text
digits [] = []
digits (n ∷ text) = let rest = digits text in if leb 48 n && leb n 57 then n ∷ rest else []

abbrev pub decimal : ℕ → Text → ℕ
decimal acc [] = acc
decimal acc (n ∷ text) = decimal (acc * 10 + (n - 48)) text

unfoldable pub atoi : Text → ℕ
atoi text = min (decimal 0 text) (2 ^ 63 - 1)

abbrev pub is_empty : Text → Bool
is_empty [] = true
is_empty (n ∷ text) = false

-- The group of the first match of `(?:L2_)(\d+)`.
abbrev pub find_depth : Text → Option Text
find_depth [] = none
find_depth (n ∷ text) =
    let found = digits (drop 3 (n ∷ text)) in
    let rest = find_depth text in
    if has_prefix (n ∷ text) (codes "L2_") && not (is_empty found) then some found else rest

-- The depth that a topic's name asks for.
unfoldable pub topic_depth : Text → ℕ
unfolding atoi
topic_depth name =
    if has_prefix name (codes "orderBook")
    then elim (find_depth (drop 9 name)) [ none ↦ 0 | some found ↦ atoi found ]
    else 0

-- What the goroutine of a topic works on.
pub record Task : Type 0 where
  pub topic : Text
  pub cache : ℕ
  pub depth : ℕ

-- What is written to the client: the answer to one topic, or that there is no channel for it.
pub data Reply : Type 0 where
  answer : Bool → Text → Reply
  no_channel : Text → ℕ → Reply

-- One client's session with the server's caches. `names` is dataCaches, whose values are pointers.
-- `cleanup` is cleanupFn: the channel that it leaves, and as what. The loops of the caches and of their
-- channels run beside the session: `pipeline_answers` says which cache's loop comes to the breakpoint that
-- TakeSnapshot waits for, `channel_answers` which channel's loop comes to the one of ShutdownRetrive.
pub record Serving (S A : Type 0) : Type 0 where
  pub names : List (Text × ℕ)
  pub tables : List (ℕ × TableCache S A)
  pub replies : List Reply
  pub cleanup : Option (Task × ℕ)
  pub is_closed : Bool
  pub pipeline_answers : ℕ → Bool
  pub channel_answers : ℕ → ℕ → Bool

abbrev pub known : Option ℕ → Bool
known none = false
known (some cache) = true

module _ {S A : Type 0} where
  -- handleSubscribe: the answers go out in the order of the topics, before the goroutines go on.
  unfoldable pub handle_subscribe : Serving S A → List Text → Serving S A × List Task
  handle_subscribe s [] = (s, [])
  handle_subscribe s (topic ∷ topics) =
      let name = before_colon topic in
      let found = lookup name s.names in
      let success = known found in
      let (s', tasks) =
        handle_subscribe (record s { replies = s.replies ++ answer success topic ∷ [] }) topics in
      (
        s',
        elim found [
          | none ↦ tasks
          | some cache ↦ record { topic = name; cache = cache; depth = topic_depth name } ∷ tasks
        ],
      )

  -- A cache with one of its real-time channels replaced.
  abbrev pub with_channel : TableCache S A → ℕ → RspChannel A → TableCache S A
  with_channel table depth ch = record table {
    realtime = elim table.realtime [ none ↦ none | some chs ↦ some (put depth ch chs) ];
  }

  abbrev pub with_table : Serving S A → ℕ → TableCache S A → Serving S A
  with_table s cache table = record s { tables = put cache table s.tables }

  -- `rspChan.ShutdownRetrive(session)` for the channel of a task, which waits for the loop unless the
  -- channel is closed.
  abbrev pub shut_down : Serving S A → Task × ℕ → Fed (Serving S A)
  shut_down s (task, session) = elim (lookup task.cache s.tables) [
    | none ↦ crashed
    | some table ↦ elim (get_rsp_channel table realtime task.depth) [
      | none ↦ crashed
      | some ch ↦ elim (shutdown_retrive ch session) [
        | sent ch' ↦
            if ch.is_closed || s.channel_answers task.cache task.depth
            then fed (with_table s task.cache (with_channel table task.depth ch'))
            else stuck
        | refused ↦ fed s
        | blocked ↦ stuck
        | broken ↦ crashed
      ]
    ]
  ]

  -- `Close`, whose body runs once, and the cleanup in it.
  abbrev pub closing : Serving S A → Option (Task × ℕ) → Fed (Serving S A)
  closing s none = fed (record s { is_closed = true })
  closing s (some left) = shut_down (record s { is_closed = true }) left

  unfoldable pub close_session : Serving S A → Fed (Serving S A)
  close_session s = if s.is_closed then fed s else closing s s.cleanup

  -- What the goroutine does with the channel that RetriveData leaves: the cleanup is set, and
  -- TakeSnapshot puts its breakpoint into the cache's pipeline and waits for the snapshot.
  abbrev pub retrieved : Serving S A → Task → ℕ → TableCache S A → RspChannel A → Fed (Serving S A)
  retrieved s task session table ch =
      elim (append (with_channel table task.depth ch)
        (breakpoint task.depth (some (task.depth, session)))) [
          | panic ↦ crashed
          | done table' ↦
              if s.pipeline_answers task.cache
              then fed (record s {
                tables = put task.cache table' s.tables;
                cleanup = some (task, session);
              })
              else stuck
        ]

  -- The goroutine of one topic, up to its loop that forwards what arrives. RetriveData of a closed
  -- channel gives none to read from.
  unfoldable pub serve : Serving S A → Task × ℕ → Fed (Serving S A)
  unfolding close_session
  serve s (task, session) = elim (lookup task.cache s.tables) [
    | none ↦ crashed
    | some table ↦ elim (get_rsp_channel table realtime task.depth) [
      | none ↦
          close_session (record s { replies = s.replies ++ no_channel task.topic task.depth ∷ [] })
      | some ch ↦ elim (retrive_data ch session) [
        | sent ch' ↦ retrieved s task session table ch'
        | refused ↦ retrieved s task session table ch
        | blocked ↦ stuck
        | broken ↦ crashed
      ]
    ]
  ]

  unfoldable pub serve_all : Serving S A → List (Task × ℕ) → Fed (Serving S A)
  unfolding serve
  serve_all s [] = fed s
  serve_all s (task ∷ tasks) = elim (serve s task) [
    | fed s' ↦ serve_all s' tasks
    | stuck ↦ stuck
    | crashed ↦ crashed
  ]
