-- ===== src/Client/Messages.antt =====
-- client/client.go: messageHandler, which sorts the messages by regular expressions, and the handlers
-- of the messages. JSON is given by decoders; `A` is the type of the responses of all tables. The user's
-- handlers and the logs are left out.
pub mod Order
use wstester.Prelude.{
  Bool, true, false, not, ◌||◌, Option, none, some, List, [], ◌∷◌, ◌++◌, Run, done, panic,
  if◌then◌else◌, lookup, put, Text, codes, contains, text_eq, nat_eq,
}
use wstester.Channels.{
  Fed, fed, stuck, crashed, Sent, sent, refused, blocked, broken, publish_data, RspChannel,
}
use wstester.Tables.{TableCache, append, message, get_default_channel, realtime, ChannelType}
use wstester.Client.{Client, handle_sub_msg, handle_auth_msg}

pub data Kind : Type 0 where
  info subscribe error auth instrument mbl trade unknown : Kind

-- `"table": ?"name`
abbrev pub names_table : Text → Text → Bool
names_table text name =
    contains text (codes "\"table\":\"" ++ name) || contains text (codes "\"table\": \"" ++ name)

-- The switch of messageHandler: the first pattern that matches.
unfoldable pub classify : Text → Kind
classify text =
    if contains text (codes "\"info\"")
    then info
    else if contains text (codes "\"subscribe\"")
    then subscribe
    else if contains text (codes "\"error\"")
    then error
    else if contains text (codes "\"authKeyExpires\"") || contains text (codes "\"api-key\"")
    then auth
    else if names_table text (codes "instrument\"")
    then instrument
    else if names_table text (codes "orderBook")
    then mbl
    else if names_table text (codes "trade\"")
    then trade
    else unknown

-- What json.Unmarshal makes of a message: the topic and the success of a subscription, the success of an
-- authentication, and the table's name and the response of a table. `none` is an error.
pub record Decoders (A : Type 0) : Type 0 where
  pub sub_msg : Text → Option (Text × Bool)
  pub auth_msg : Text → Option Bool
  pub ins_msg : Text → Option (Text × A)
  pub mbl_msg : Text → Option (Text × A)
  pub td_msg : Text → Option (Text × A)

-- The client with its rspCache.
pub record Receiver (S A : Type 0) : Type 0 where
  pub client : Client
  pub tables : List (Text × TableCache S A)
  pub disable_cache : Bool

module _ {S A : Type 0} where
  abbrev pub with_table : Receiver S A → Text → TableCache S A → Receiver S A
  with_table r name table = record r { tables = put name table r.tables }

  -- The default channel with what it has been given; an error of PublishData is ignored.
  abbrev pub with_default : TableCache S A → RspChannel A → TableCache S A
  with_default table ch = record table {
    realtime = elim table.realtime [ none ↦ none | some chs ↦ some (put 0 ch chs) ];
  }

  abbrev pub published :
      Receiver S A → Text → TableCache S A → A → Sent (Option (RspChannel A)) → Fed (Receiver S A)
  published r name table rsp blocked = stuck
  published r name table rsp broken = crashed
  published r name table rsp refused = fed r
  published r name table rsp (sent none) = crashed
  published r name table rsp (sent (some ch)) = elim (publish_data ch rsp) [
    | sent ch' ↦ fed (with_table r name (with_default table ch'))
    | refused ↦ fed r
    | blocked ↦ stuck
    | broken ↦ crashed
  ]

  abbrev pub appended : Receiver S A → Text → Run (TableCache S A) → Fed (Receiver S A)
  appended r name panic = crashed
  appended r name (done table) = fed (with_table r name table)

  -- The end of handleInsMsg, handleTdMsg and handleMblMsg: the response goes to the cache of its table.
  unfoldable pub to_cache : Receiver S A → Option (Text × A) → Fed (Receiver S A)
  to_cache r none = fed r
  to_cache r (some (name, rsp)) = elim (lookup name r.tables) [
    | none ↦ fed r
    | some table ↦
        if not r.disable_cache
        then appended r name (append table (message rsp))
        else published r name table rsp (get_default_channel table)
  ]

  abbrev pub take_sub : Receiver S A → Option (Text × Bool) → Receiver S A
  take_sub r none = r
  take_sub r (some (topic, success)) = record r { client = handle_sub_msg r.client topic success }

  abbrev pub take_auth : Receiver S A → Option Bool → Receiver S A
  take_auth r none = r
  take_auth r (some success) = record r { client = handle_auth_msg r.client success }

  -- One message; one that cannot be decoded is logged.
  unfoldable pub handle_kind : Decoders A → Receiver S A → Text → Kind → Fed (Receiver S A)
  unfolding to_cache
  handle_kind d r text subscribe = fed (take_sub r (d.sub_msg text))
  handle_kind d r text auth = fed (take_auth r (d.auth_msg text))
  handle_kind d r text instrument = to_cache r (d.ins_msg text)
  handle_kind d r text mbl = to_cache r (d.mbl_msg text)
  handle_kind d r text trade = to_cache r (d.td_msg text)
  handle_kind d r text info = fed r
  handle_kind d r text error = fed r
  handle_kind d r text unknown = fed r

  unfoldable pub handle_message : Decoders A → Receiver S A → Text → Fed (Receiver S A)
  unfolding handle_kind classify
  handle_message d r text = handle_kind d r text (classify text)

  -- The loop over the messages that readMessage returns.
  unfoldable pub handle_messages : Decoders A → Receiver S A → List Text → Fed (Receiver S A)
  unfolding handle_message
  handle_messages d r [] = fed r
  handle_messages d r (text ∷ texts) = elim (handle_message d r text) [
    | fed r' ↦ handle_messages d r' texts
    | stuck ↦ stuck
    | crashed ↦ crashed
  ]
