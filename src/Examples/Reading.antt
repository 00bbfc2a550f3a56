-- ===== src/Examples/Reading.antt =====
-- client/client.go: frames and messages at small runs.
use wstester.Prelude.{
  ℕ, ◌≡◌, refl, true, false, List, [], ◌∷◌, Option, none, some, codes, Text, text_eq,
}
use wstester.Tables.{TableCache, append}
use wstester.Client.Messages.{Receiver, Decoders, classify, trade}
use wstester.Server.Upgrade.{Frame, broken, frame}
use wstester.Client.Reading.{Reader, Progress, closed, message_handler}

abbrev decoders : Decoders ℕ
decoders = record {
  sub_msg = λ text. none;
  auth_msg = λ text. none;
  ins_msg = λ text. none;
  mbl_msg = λ text. none;
  td_msg = λ text. some (codes "trade", 5);
}

abbrev trades : TableCache ℕ ℕ
trades = record {
  state = 0;
  realtime = none;
  snapshot = none;
  tick = none;
  pipeline = [];
  pipeline_closed = false;
  is_ready = true;
  is_closed = false;
}

abbrev receiver : Receiver ℕ ℕ
receiver = record {
  client = record {
    symbol = codes "XBTUSD";
    subscribed = [];
    caches = codes "trade" ∷ [];
    requests = [];
    connected = true;
    authencated = false;
    has_auth = false;
  };
  tables = (codes "trade", trades) ∷ [];
  disable_cache = false;
}

a_trade : classify (codes "{\"table\":\"trade\",\"data\":[]}") ≡ trade
unfolding classify
a_trade = refl

abbrev texts : List Text
texts = codes "{\"table\":\"trade\",\"data\":[]}" ∷ codes "{\"error\":1}" ∷ []

-- A trade, the server's ping, an error message, and the end of the connection.
abbrev sent : List Frame
sent =
    frame (codes "{\"table\":\"trade\",\"data\":[]}")
    ∷ frame (codes "ping")
    ∷ frame (codes "{\"error\":1}")
    ∷ broken
    ∷ []

abbrev reader : Reader ℕ ℕ
reader = record { receiver = receiver; beats = []; timer = some 0; takes = 1 }

abbrev all_read : Progress ℕ ℕ → Option ℕ
all_read (closed v) = v.timer
all_read _ = none

sent-read : all_read (message_handler 5 decoders reader sent) ≡ some 3
unfolding message_handler append
sent-read = refl
