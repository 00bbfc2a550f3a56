-- ===== src/Wire.antt =====
-- client/client.go and server/server.go together: a client connects with its topics in the query of the
-- URL, the server answers each of them, and the client reads the answers. The query is read as net/url
-- does; a text that makes no request line, as one with a space, is left out. The texts of the answers are
-- given by an encoder, which stands for encoding/json.
pub mod Query
pub mod Plain
pub mod Answers
use wstester.Prelude.{
  ℕ, suc, Bool, true, false, Option, none, some, List, [], ◌∷◌, ◌++◌, Run, done, ◌>>=◌, length,
  Text, join, codes,
}
use wstester.Client.{Client, connect}
use wstester.Client.Messages.{Decoders, Receiver}
use wstester.Client.Reading.{Reader, Progress, message_handler}
use wstester.Server.{header_args}
use wstester.Server.Upgrade.{Frame, frame}
use wstester.Server.Subscribe.{Serving, Task, Reply, handle_subscribe}
use wstester.Wire.Query.{query_values}

-- Connect's RawQuery, which is not set where it takes up no topic.
abbrev pub raw_query : List Text → Text
raw_query [] = []
raw_query (sub ∷ subs) = codes "subscribe=" ++ join 44 (sub ∷ subs)

-- `WriteJSONMessage` of each reply; an answer has the arguments of the request in it.
abbrev pub frames_of : (List Text → Reply → Text) → List Text → List Reply → List Frame
frames_of encode args [] = []
frames_of encode args (reply ∷ replies) = frame (encode args reply) ∷ frames_of encode args replies

abbrev pub with_client : {S A : Type 0} → Reader S A → Client → Reader S A
with_client v c = record v { receiver = record v.receiver { client = c } }

-- Connect, the server's handling of the query, and messageHandler over what the server has written then.
unfoldable pub connect_and_subscribe :
    {S A T B : Type 0}
    → (List Text → Reply → Text)
    → Decoders B
    → Reader T B
    → Serving S A
    → Run (Progress T B × Serving S A × List Task)
connect_and_subscribe encode d v s = connect true v.receiver.client >>= λ (c', subs).
    let args = header_args (query_values (raw_query subs)) in
    let (s', tasks) = handle_subscribe s args in
    done (
      message_handler (suc (length s'.replies)) d (with_client v c')
          (frames_of encode args s'.replies),
      s',
      tasks,
    )
