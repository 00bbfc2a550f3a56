-- ===== src/Server/Clients.antt =====
-- server/server.go: the sessions that the server knows, as they come and go.
use wstester.Prelude.{
  ℕ, ◌≡◌, refl, true, none, some, lookup, put, nat_eq, lookup-put, lookup-erase, arith, ℤ, pos,
  negsuc, zero, suc,
}
use wstester.Heartbeat.{up, down}
use wstester.Server.{Session, Server, inc_clients, dec_clients, leaving, by_id, removed}

down-up : (z : ℤ) → down (up z) ≡ z
down-up (pos n) = refl
down-up (negsuc zero) = refl
down-up (negsuc (suc n)) = refl

-- The sessions of a server, by identity, are as of another, and as many are counted.
pub record IsLike (s t : Server) : Type 0 where
  pub clients : (id : ℕ) → lookup id t.clients ≡ lookup id s.clients
  pub count : t.count ≡ s.count

-- A session that is welcomed, and whose identity no other has, is known while it is there; when it has left,
-- by itself or by its identity, the server knows and counts the sessions that it did before.
pub dec_clients-inc_clients :
    (s : Server) (session : Session)
    → lookup session.id s.clients ≡ none
    → (lookup session.id ((inc_clients true s session).0.clients) ≡ some session)
      × IsLike s (dec_clients ((inc_clients true s session).0) (leaving session))
      × IsLike s (dec_clients ((inc_clients true s session).0) (by_id session.id))
unfolding inc_clients dec_clients
dec_clients-inc_clients s session fresh =
    let known : lookup session.id (put session.id session s.clients) ≡ some session =
      ground (arith, lookup-put session.id session.id session s.clients) in
    let after : IsLike s (removed ((inc_clients true s session).0) session) = record {
      clients = λ id. ground (
        arith,
        lookup-erase session.id id (put session.id session s.clients),
        lookup-put session.id id session s.clients,
        fresh,
      );
      count = down-up s.count;
    } in
    (known, after, rw (known, dec_clients) after)

-- Two sessions of one identity, which two connections from one address have: when the first has left, the
-- server does not know the second, and counts one more than before either came.
pub dec_clients-collision :
    (s : Server) (first second : Session)
    → first.id ≡ second.id
    → let s1 = (inc_clients true s first).0 in
      let s2 = (inc_clients true s1 second).0 in
      let s3 = dec_clients s2 (leaving first) in
      (lookup second.id s3.clients ≡ none) × (s3.count ≡ up s.count)
unfolding inc_clients dec_clients
dec_clients-collision s first second same = (
  ground (
    arith,
    lookup-erase first.id second.id (put second.id second (put first.id first s.clients)),
    same,
  ),
  down-up (up s.count),
)
