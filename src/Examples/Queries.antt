-- ===== src/Examples/Queries.antt =====
-- utils/linq.go, client/client.go and server/server.go at small inputs.
use wstester.Prelude.{
  ℕ, ◌≡◌, refl, true, false, List, [], ◌∷◌, ◌++◌, Option, none, some, done, panic, lookup,
  if◌then◌else◌, pos, codes, to_lower, text_eqb, before_colon, text_eq, nat_eq,
}
use wstester.Linq.{
  compare_val, real, float_val, Columns, Row, whole, text, int_val, str_val, greater_than, equal,
  col_name, literal, Expr, comparison, and, parse_condition, Statement, select, union, Select,
  parse_sql, Filter,
}
use wstester.Linq.Condition.{
  Decides, is_ok, accepted, parse_condition-Decides, parse_condition-accepted,
}
use wstester.Linq.Union.{leftmost, parse_sql-leftmost}
use wstester.Client.{
  Client, is_subscribed, normalize_topic, subscribe, handle_sub_msg, connect_topics, is_valid_topic,
  is_public_topic, is_private_topic,
}
use wstester.Client.Topics.{normalize_topic-name, subscribe-confirmed}
use wstester.Client.Connect.{subs_of, all_cached, queried, connect_topics-queried}
use wstester.Server.{Session, Server}

abbrev columns : Columns
columns = (codes "price", codes "Price") ∷ (codes "side", codes "Side") ∷ []

abbrev row : Row
row = (codes "Price", whole (pos 7)) ∷ (codes "Side", text (codes "Buy")) ∷ []

abbrev condition : Expr
condition =
    and (comparison greater_than (col_name (codes "PRICE")) (literal (int_val (pos 5))))
      (comparison equal (col_name (codes "side")) (literal (str_val (codes "Buy"))))

parse_condition-Decides_example : Decides (parse_condition columns condition) row true
parse_condition-Decides_example = parse_condition-Decides columns row condition true refl

parse_condition-accepted_example :
    is_ok (parse_condition columns condition) ≡ accepted columns condition
parse_condition-accepted_example = parse_condition-accepted columns condition

abbrev two_selects : Statement Select
two_selects =
    union (select (record { table = some (1, columns); condition = none }))
      (select (record { table = some (2, columns); condition = none }))

abbrev made : List (ℕ × Option Filter)
made = (2, none) ∷ (1, none) ∷ []

two_selects-tables : parse_sql two_selects ≡ some made
unfolding parse_sql
two_selects-tables = refl

parse_sql-leftmost_example : lookup 1 made ≡ leftmost two_selects 1 none
parse_sql-leftmost_example = parse_sql-leftmost two_selects made 1 two_selects-tables

abbrev client : Client
client = record {
  symbol = codes "XBTUSD";
  subscribed = [];
  caches = [];
  requests = [];
  connected = true;
  authencated = false;
  has_auth = false;
}

trade-valid : is_valid_topic (codes "Trade") ≡ true
unfolding is_valid_topic is_public_topic
trade-valid = refl

trade-fresh : is_subscribed client (codes "Trade") ≡ false
unfolding is_subscribed
trade-fresh = refl

normalize_topic-name_example :
    to_lower (before_colon (normalize_topic client (codes "Trade"))) ≡ to_lower (codes "Trade")
normalize_topic-name_example = normalize_topic-name client (codes "Trade") trade-valid

subscribe-confirmed_example :
    let asked = normalize_topic client (codes "Trade") in
    let c' = subscribe client (codes "Trade" ∷ []) in
    (c'.requests ≡ client.requests ++ (asked ∷ []) ∷ [])
    × (is_subscribed (handle_sub_msg c' asked true) (codes "Trade")
        ≡ text_eqb (codes "Trade") (before_colon asked))
subscribe-confirmed_example =
    subscribe-confirmed client (codes "Trade") refl trade-valid trade-fresh

connect_topics-queried_example :
    subs_of (connect_topics client (codes "trade" ∷ codes "quote" ∷ [])) ≡ (
      if all_cached client (codes "trade" ∷ codes "quote" ∷ [])
      then done (queried client (codes "trade" ∷ codes "quote" ∷ []))
      else panic)
connect_topics-queried_example = connect_topics-queried (codes "trade" ∷ codes "quote" ∷ []) client

quote-panics : all_cached client (codes "trade" ∷ codes "quote" ∷ []) ≡ false
unfolding is_public_topic is_private_topic
quote-panics = refl

-- A field of 0.5 is not greater than the literal 0, which has no fraction, but greater than 0.0.
half-cut : compare_val greater_than (real (pos 50000000)) (int_val (pos 0)) ≡ done false
half-cut = refl

half-kept : compare_val greater_than (real (pos 50000000)) (float_val (pos 0)) ≡ done true
half-kept = refl

abbrev no_clients : Server
no_clients = record { clients = []; count = pos 0 }

abbrev one : Session
one = record { id = 1; connection = 1 }

abbrev again : Session
again = record { id = 1; connection = 2 }
