-- ===== src/Heartbeat/Counter.antt =====
-- client/client.go and server/session.go: what the heartbeat counters count.
use wstester.Prelude.{
  ℕ, zero, suc, ◌+◌, ◌≤◌, ◌<◌, ◌≡◌, refl, sym, ap, ◌∙◌, Bool, true, false, List, [], ◌∷◌, ◌++◌, leb,
  pos, ◌⊎◌, arith, Bool-cases, inl, inr,
}
use wstester.Heartbeat.{
  HeartBeat, ping, pong, invalid, Peer, client_beat, server_beat, beat_loop, new_peer,
}

abbrev pub rise : HeartBeat → ℕ
rise ping = 1
rise _ = 0

abbrev pub fall : HeartBeat → ℕ
fall pong = 1
fall _ = 0

abbrev pub pings : List (HeartBeat × Bool) → ℕ
pings [] = 0
pings ((hb, ok) ∷ beats) = rise hb + pings beats

abbrev pub pongs : List (HeartBeat × Bool) → ℕ
pongs [] = 0
pongs ((hb, ok) ∷ beats) = fall hb + pongs beats

abbrev at : ℕ → List HeartBeat → Peer
at n written = record { counter = pos n; written = written; closed = false }

-- The peer after `p` pings and `q` pongs that left the loop running.
pub record Counts (fail_count n p q : ℕ) (after : Peer) : Type 0 where
  pub unanswered : ℕ
  pub texts : List HeartBeat
  pub peer : after ≡ at unanswered texts
  pub balance : unanswered + q ≡ n + p
  pub bound : unanswered < fail_count

-- A loop body that counts, or closes.
abbrev Counting : ℕ → (Bool → Peer → HeartBeat → Peer) → Type 0
Counting fail_count beat =
    (n : ℕ) (texts : List HeartBeat) (ok : Bool) (hb : HeartBeat)
    → n < fail_count
    → ((beat ok (at n texts) hb).closed ≡ true)
      ⊎ Counts fail_count n (rise hb) (fall hb) (beat ok (at n texts) hb)

client-Counting : (fail_count : ℕ) → Counting fail_count (client_beat false fail_count)
unfolding client_beat
client-Counting fail_count n texts false ping h = inl refl
client-Counting fail_count n texts true ping h = elim (Bool-cases (leb fail_count (suc n))) [
  | inl e ↦ inl (rw e)
  | inr e ↦ inr record {
    unanswered = suc n;
    texts = texts ++ ping ∷ [];
    peer = rw e;
    balance = omega arith;
    bound = ground arith;
  }
]
client-Counting fail_count zero texts ok pong h = inl refl
client-Counting fail_count (suc n) texts ok pong h =
    let below : leb fail_count n ≡ false = ground arith in
    inr record {
      unanswered = n;
      texts = texts;
      peer = rw below;
      balance = omega arith;
      bound = omega arith;
    }
client-Counting fail_count n texts ok invalid h =
    inr record { unanswered = n; texts = texts; peer = refl; balance = omega arith; bound = h }

server-Counting : (fail_count : ℕ) → Counting fail_count (server_beat true fail_count)
unfolding server_beat client_beat
server-Counting fail_count n texts ok ping h = client-Counting fail_count n texts ok ping h
server-Counting fail_count n texts ok pong h = client-Counting fail_count n texts ok pong h
server-Counting fail_count n texts ok invalid h = client-Counting fail_count n texts ok invalid h

module _ (fail_count : ℕ) (beat : Bool → Peer → HeartBeat → Peer)
    (counting : Counting fail_count beat) where
  beat_loop-Counts :
      (beats : List (HeartBeat × Bool)) (n : ℕ) (texts : List HeartBeat)
      → n < fail_count
      → (beat_loop beat (at n texts) beats).closed ≡ false
      → Counts fail_count n (pings beats) (pongs beats) (beat_loop beat (at n texts) beats)
  unfolding beat_loop
  beat_loop-Counts [] n texts h running = record {
    unanswered = n;
    texts = texts;
    peer = refl;
    balance = omega arith;
    bound = h;
  }
  beat_loop-Counts ((hb, ok) ∷ beats) n texts h running = elim (counting n texts ok hb h) [
    | inl shut ↦ ground (arith, shut, running)
    | inr step ↦
        let same : beat_loop beat (at n texts) ((hb, ok) ∷ beats)
            ≡ beat_loop beat (at step.unanswered step.texts) beats =
          rw (step.peer, beat_loop) in
        let rest =
          beat_loop-Counts beats step.unanswered step.texts step.bound
            (ap (λ p. p.closed) (sym same) ∙ running) in
        rw same record {
          unanswered = rest.unanswered;
          texts = rest.texts;
          peer = rest.peer;
          balance = omega (arith, rest.balance, step.balance);
          bound = rest.bound;
        }
  ]

  beat_loop-closes :
      (beats : List (HeartBeat × Bool))
      → 0 < fail_count
      → fail_count + pongs beats ≤ pings beats
      → (beat_loop beat new_peer beats).closed ≡ true
  beat_loop-closes beats h k = elim (Bool-cases ((beat_loop beat new_peer beats).closed)) [
    | inl shut ↦ shut
    | inr running ↦
        let counts = beat_loop-Counts beats 0 [] h running in
        absurd (omega (arith, counts.balance, counts.bound))
  ]

-- A client that pings, with a positive fail count, whose loop has not closed the connection: its counter
-- is the number of its pings less the number of pongs, never negative and below the fail count.
pub client_beat-Counts :
    (fail_count : ℕ) (beats : List (HeartBeat × Bool))
    → 0 < fail_count
    → (beat_loop (client_beat false fail_count) new_peer beats).closed ≡ false
    → Counts fail_count 0
        (pings beats)
        (pongs beats)
        (beat_loop (client_beat false fail_count) new_peer beats)
client_beat-Counts fail_count beats h running =
    beat_loop-Counts fail_count _ (client-Counting fail_count) beats 0 [] h running

-- A server that pings, with a positive fail count: once it has made as many pings more than it has got
-- pongs as the fail count is, its loop has closed the session.
pub server_beat-closes :
    (fail_count : ℕ) (beats : List (HeartBeat × Bool))
    → 0 < fail_count
    → fail_count + pongs beats ≤ pings beats
    → (beat_loop (server_beat true fail_count) new_peer beats).closed ≡ true
server_beat-closes fail_count beats h k =
    beat_loop-closes fail_count _ (server-Counting fail_count) beats h k
