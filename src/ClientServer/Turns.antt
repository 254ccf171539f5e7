-- ===== src/ClientServer/Turns.antt =====
-- "broadcastTest copy.cpp": what the second client is sent after "get_data".
use aggregation.Base.{
  ℕ, zero, suc, ◌+◌, ◌<◌, ◌≡◌, refl, ◌∙◌, ap, Bool, true, false, some, List, [], ◌∷◌, ◌++◌, arith,
  replicate,
}
use aggregation.Server.{Action, points, text, Sent}
use aggregation.Server.Registry.{find}
use aggregation.ClientServer.{ClientServer, goes_on, looping_pass, rounds}

replicate-swap :
    (n : ℕ) (x : Sent) (xs : List Sent) → replicate n x ++ x ∷ xs ≡ x ∷ replicate n x ++ xs
replicate-swap zero x xs = refl
replicate-swap (suc n) x xs = ap (◌∷◌ x) (replicate-swap n x xs)

module _ (delivers : List Sent → ℕ → Bool) (expired : ℕ → Bool) where
  -- `b` is an action of "client2", which is connected, and takes what is sent.
  pub record IsClient2 (a : Action) (s : ClientServer) : Type 0 where
    pub pointed : s.b ≡ points a
    pub known : find a.hdl s.connections ≡ some "client2"
    pub alive : expired a.hdl ≡ false
    pub delivered : (l : List Sent) → delivers l a.hdl ≡ true
    pub running : s.stop_streaming ≡ false

  abbrev pub b_to : ℕ → Sent
  b_to hdl = record { to = hdl; payload = text (b'b' ∷ []) }

  one :
      (a : Action) (s : ClientServer)
      → IsClient2 a s
      → s.streaming_to_client2 ≡ true
      → s.client2_data_count < s.max_client2_data_count
      → looping_pass delivers expired s
        ≡ goes_on
            (record s { sent = b_to a.hdl ∷ s.sent; client2_data_count = s.client2_data_count + 1 })
  unfolding looping_pass
  one a s v on lt = ground (arith, v.pointed, v.known, v.alive, v.delivered s.sent, v.running)

  turn :
      (a : Action) (s : ClientServer)
      → IsClient2 a s
      → s.streaming_to_client2 ≡ true
      → s.client2_data_count ≡ s.max_client2_data_count
      → looping_pass delivers expired s
        ≡ goes_on (record s { streaming_to_client2 = false; streaming_to_client1 = true })
  unfolding looping_pass
  turn a s v on e = ground (arith, v.pointed, v.known, v.alive, v.running)

  idle :
      (a : Action) (k : ℕ) (s : ClientServer)
      → IsClient2 a s
      → s.streaming_to_client2 ≡ false
      → rounds delivers expired k s ≡ goes_on s
  unfolding rounds looping_pass
  idle a zero s v off = refl
  idle a (suc k) s v off =
      let e : looping_pass delivers expired s ≡ goes_on s =
        ground (arith, v.pointed, v.known, v.alive, v.running) in
      rw (rounds, e) (idle a k s v off)

  -- With `n` strings still due to "client2", and no other thread moving: `n` rounds of `looping` send
  -- it `n` times "b", the next round hands the turn to the first client, and any further rounds send
  -- nothing as long as `b` is an action of "client2".
  pub rounds-client2 :
      (a : Action) (n k m : ℕ) (s : ClientServer)
      → m ≡ n + k + 1
      → IsClient2 a s
      → s.streaming_to_client2 ≡ true
      → s.client2_data_count + n ≡ s.max_client2_data_count
      → rounds delivers expired m s
        ≡ goes_on (record s {
          sent = replicate n (b_to a.hdl) ++ s.sent;
          client2_data_count = s.max_client2_data_count;
          streaming_to_client2 = false;
          streaming_to_client1 = true;
        })
  unfolding rounds
  rounds-client2 a n k zero s h v on e = absurd (omega arith)
  rounds-client2 a zero k (suc m) s h v on e =
      let t : ClientServer = record s {
        streaming_to_client2 = false;
        streaming_to_client1 = true;
      } in
      rw (rounds, turn a s v on (omega arith))
        (idle a m t
            (record {
              pointed = v.pointed;
              known = v.known;
              alive = v.alive;
              delivered = v.delivered;
              running = v.running;
            })
            refl
          ∙ ap (λ c. goes_on (record t { client2_data_count = c })) (omega arith))
  rounds-client2 a (suc n) k (suc m) s h v on e =
      let t : ClientServer = record s {
        sent = b_to a.hdl ∷ s.sent;
        client2_data_count = s.client2_data_count + 1;
      } in
      rw (rounds, one a s v on (omega arith), ← replicate-swap n (b_to a.hdl) s.sent)
        (rounds-client2 a n k m t (omega arith)
          (record {
            pointed = v.pointed;
            known = v.known;
            alive = v.alive;
            delivered = v.delivered;
            running = v.running;
          })
          on (omega arith))
