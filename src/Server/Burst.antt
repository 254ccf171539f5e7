-- ===== src/Server/Burst.antt =====
-- broadcastTest.cpp: the answer to "get_data", over several rounds of `looping`.
use aggregation.Base.{
  ℕ, zero, suc, ◌+◌, ◌<◌, ◌≡◌, refl, true, false, none, some, List, [], ◌∷◌, ◌++◌, arith, ◌≢◌,
  length, length-append, All, All-append,
}
use mathlib.Core.List.{append_assoc}
use aggregation.Server.{
  Server, Action, Outside, Pass, goes_on, crashes, points, Payload, Sent, looping_pass,
}
use aggregation.Server.Registry.{find}

module _ {C Image : Type 0} (out : Outside C Image) where
  -- `n` rounds of `looping` with nothing in between.
  unfoldable pub passes : ℕ → Pass C → Pass C
  passes zero p = p
  passes (suc n) (crashes e) = crashes e
  passes (suc n) (goes_on s c) = passes n (looping_pass out s c)

  -- The client behind `b` is in the map, the transport takes what is sent to it, and the camera
  -- gives strings.
  pub record IsServing (a : Action) (s : Server) : Type 0 where
    pub pointed : s.b ≡ points a
    pub known : find a.hdl s.connections ≢ none
    pub delivered : (l : List Sent) → out.delivers l a.hdl ≡ true
    pub strings : (c : C) → (str : List ℕ) × (d : C) × (out.get_string c ≡ (some (some str), d))

  -- One string goes out and is counted.
  string_pass :
      (a : Action) (s : Server) (c : C)
      → IsServing a s
      → s.get_data ≡ true
      → s.client2_data_count < s.max_client2_data_count
      → (str : List ℕ) × (d : C) × (looping_pass out s c
          ≡ goes_on
              (record s {
                sent = record { to = a.hdl; payload = Payload.text str } ∷ s.sent;
                client2_data_count = s.client2_data_count + 1;
              })
              d)
  unfolding looping_pass
  string_pass a s c v g lt =
      let (str, d, e) = v.strings c in (str, d, ground (arith, v.delivered s.sent))

  abbrev pub IsTextTo : ℕ → Sent → Type 0
  IsTextTo hdl x = (x.to ≡ hdl) × (str : List ℕ) × (x.payload ≡ Payload.text str)

  pub record Burst (a : Action) (s : Server) (k : ℕ) : Type 0 where
    pub new : List Sent
    pub camera : C
    pub counted : length new ≡ k
    pub texts : All (IsTextTo a.hdl) new

  after_burst : {a : Action} {s : Server} {k : ℕ} → Burst a s k → ℕ → Server
  after_burst {s} r count = record s { sent = r.new ++ s.sent; client2_data_count = count }

  -- The strings that are still due, one to a pass.
  strings_passes :
      (a : Action) (k : ℕ) (s : Server) (c : C)
      → IsServing a s
      → s.get_data ≡ true
      → s.client2_data_count + k ≡ s.max_client2_data_count
      → (r : Burst a s k) × (passes k (goes_on s c)
          ≡ goes_on (after_burst r s.max_client2_data_count) r.camera)
  unfolding passes after_burst
  strings_passes a zero s c v g e =
      (record { new = []; camera = c; counted = refl; texts = tt }, ground arith)
  strings_passes a (suc k) s c v g e =
      let (str, d, h) = string_pass a s c v g (omega arith) in
      let x : Sent = record { to = a.hdl; payload = Payload.text str } in
      let s' : Server = record s {
        sent = x ∷ s.sent;
        client2_data_count = s.client2_data_count + 1;
      } in
      let v' : IsServing a s' = record {
        pointed = v.pointed;
        known = v.known;
        delivered = v.delivered;
        strings = v.strings;
      } in
      let (r, p) = strings_passes a k s' d v' g (omega arith) in
      (
        record {
          new = r.new ++ x ∷ [];
          camera = r.camera;
          counted = omega (arith, length-append r.new (x ∷ []), r.counted);
          texts = All-append (IsTextTo a.hdl) r.new (x ∷ []) r.texts ((refl, str, refl), tt);
        },
        rw h (rw append_assoc p),
      )

  passes_last : (n : ℕ) (p : Pass C) → passes (suc n) p ≡ passes 1 (passes n p)
  unfolding passes
  passes_last zero p = refl
  passes_last (suc n) (crashes e) = refl
  passes_last (suc n) (goes_on s c) = passes_last n (looping_pass out s c)

  -- With nothing due the pass clears the flags and sends nothing.
  reset_pass :
      (a : Action) (s : Server) (c : C)
      → s.b ≡ points a
      → find a.hdl s.connections ≢ none
      → s.get_data ≡ true
      → s.client2_data_count ≡ s.max_client2_data_count
      → passes 1 (goes_on s c)
        ≡ goes_on (record s { stop_streaming = false; get_data = false; client2_data_count = 0 }) c
  unfolding passes looping_pass
  reset_pass a s c pointed known g e = ground arith

  -- "get_data" and its answer: with `n` strings still due, `n` rounds of `looping` send `n` texts
  -- to the client of the action behind `b` and nothing else, and the round after them clears `get_data`, the
  -- counter and `stop_streaming`, whatever `stop_streaming` was. No other thread moves meanwhile.
  pub passes-Burst :
      (a : Action) (n : ℕ) (s : Server) (c : C)
      → IsServing a s
      → s.get_data ≡ true
      → s.client2_data_count + n ≡ s.max_client2_data_count
      → (r : Burst a s n) × (passes (suc n) (goes_on s c)
          ≡ goes_on
              (record s {
                sent = r.new ++ s.sent;
                stop_streaming = false;
                get_data = false;
                client2_data_count = 0;
              })
              r.camera)
  unfolding after_burst
  passes-Burst a n s c v g e =
      let (r, p) = strings_passes a n s c v g e in
      (
        r,
        rw (passes_last n (goes_on s c), p)
            (reset_pass a (after_burst r _) r.camera v.pointed v.known g refl),
      )
