-- ===== src/Server/Traffic.antt =====
-- broadcastTest.cpp: what a command does to the next pass of `looping`, and to whom a pass sends.
pub mod Origins
use aggregation.Base.{
  ◌≡◌, refl, ◌≢◌, ◌⊎◌, inl, inr, true, false, none, some, List, ◌∷◌, arith, Option-cases,
  Bool-cases, ltb, sym, ◌∙◌, ap, ◌+◌, ℕ,
}
use aggregation.Server.{
  Server, Action, ActionPtr, null, wild, dangling, points, Payload, Outside, goes_on, crashes, Pass,
  bad_pointer, handle_payload, looping_pass, serve, stream_image, send_string,
}
use aggregation.Server.Registry.{find}

module _ {C Image : Type 0} (out : Outside C Image) where
  -- A pass that survives sends at most one frame, and only to the client of the action behind `b`,
  -- which the map knows: the camera's image, encoded, while nothing stops the stream, and the
  -- camera's string only for "get_data". `c` is the camera before the pass.
  pub data Sends (s : Server) (c : C) (t : Server) : Type 0 where
    silent : t.sent ≡ s.sent → Sends s c t
    image :
        (a : Action) (i : Image) (buf : List ℕ)
        → (out.get_image c).0 ≡ some i
        → out.imencode i ≡ some buf
        → s.b ≡ points a
        → find a.hdl s.connections ≢ none
        → s.stop_streaming ≡ false
        → s.get_data ≡ false
        → t.sent ≡ record { to = a.hdl; payload = Payload.binary buf } ∷ s.sent
        → Sends s c t
    string :
        (a : Action) (str : List ℕ)
        → (out.get_string c).0 ≡ some (some str)
        → s.b ≡ points a
        → find a.hdl s.connections ≢ none
        → s.get_data ≡ true
        → t.client2_data_count ≡ s.client2_data_count + 1
        → t.sent ≡ record { to = a.hdl; payload = Payload.text str } ∷ s.sent
        → Sends s c t

  -- After "stop_streaming", with no "get_data" in progress, a pass of `looping` that survives
  -- sends nothing and changes nothing.
  stop_silences :
      (s t : Server) (c d : C)
      → s.get_data ≡ false
      → looping_pass out (handle_payload "stop_streaming" s) c ≡ goes_on t d
      → (t ≡ handle_payload "stop_streaming" s) × (d ≡ c)
  unfolding looping_pass handle_payload
  stop_silences s t c d g e = ground arith

  stream_image-sent :
      (hdl : ℕ) (s t : Server) (c d : C)
      → stream_image out hdl s c ≡ goes_on t d
      → (i : Image) × (buf : List ℕ) × ((out.get_image c).0 ≡ some i)
        × (out.imencode i ≡ some buf)
        × (t.sent ≡ record { to = hdl; payload = Payload.binary buf } ∷ s.sent)
  unfolding stream_image
  stream_image-sent hdl s t c d e = elim (Option-cases (out.get_image c).0) [
    | inl p ↦ absurd (ground arith)
    | inr (i, p) ↦ elim (Option-cases (out.imencode i)) [
      | inl q ↦ absurd (ground arith)
      | inr (buf, q) ↦ (i, buf, p, q, ground arith)
    ]
  ]

  send_string-sent :
      (hdl : ℕ) (s t : Server) (c d : C)
      → send_string out hdl s c ≡ goes_on t d
      → (str : List ℕ) × ((out.get_string c).0 ≡ some (some str))
        × (t.client2_data_count ≡ s.client2_data_count + 1)
        × (t.sent ≡ record { to = hdl; payload = Payload.text str } ∷ s.sent)
  unfolding send_string
  send_string-sent hdl s t c d e = elim (Option-cases (out.get_string c).0) [
    | inl p ↦ absurd (ground arith)
    | inr (q, p) ↦ elim (Option-cases q) [
      | inl r ↦ absurd (ground arith)
      | inr (str, r) ↦ (str, p ∙ ap some r, ground arith, ground arith)
    ]
  ]

  serve-string :
      (hdl : ℕ) (s : Server) (c : C)
      → s.get_data ≡ true
      → ltb s.client2_data_count s.max_client2_data_count ≡ true
      → serve out hdl s c ≡ send_string out hdl s c
  unfolding serve
  serve-string hdl s c g l = rw (g, l, serve) (ground arith)

  serve-image :
      (hdl : ℕ) (s : Server) (c : C)
      → s.get_data ≡ false
      → s.stop_streaming ≡ false
      → serve out hdl s c ≡ stream_image out hdl s c
  unfolding serve
  serve-image hdl s c g l = ground arith

  serve-sent :
      (hdl : ℕ) (s t : Server) (c d : C)
      → serve out hdl s c ≡ goes_on t d
      → ((s.get_data ≡ true) × (ltb s.client2_data_count s.max_client2_data_count ≡ false))
        ⊎ ((s.get_data ≡ false) × (s.stop_streaming ≡ true))
      → t.sent ≡ s.sent
  unfolding serve
  serve-sent hdl s t c d e (inl h) = ground arith
  serve-sent hdl s t c d e (inr h) = ground arith

  serve-Sends :
      (a : Action) (s t : Server) (c d : C)
      → s.b ≡ points a
      → find a.hdl s.connections ≢ none
      → serve out a.hdl s c ≡ goes_on t d
      → Sends s c t
  serve-Sends a s t c d b k e = elim (Bool-cases s.get_data) [
    | inl g ↦ elim (Bool-cases (ltb s.client2_data_count s.max_client2_data_count)) [
      | inl l ↦
          let (str, o, n, p) =
            send_string-sent a.hdl s t c d (sym (serve-string a.hdl s c g l) ∙ e) in
          string a str o b k g n p
      | inr l ↦ silent (serve-sent a.hdl s t c d e (inl (g, l)))
    ]
    | inr g ↦ elim (Bool-cases s.stop_streaming) [
      | inl h ↦ silent (serve-sent a.hdl s t c d e (inr (g, h)))
      | inr h ↦
          let (i, buf, o, q, p) =
            stream_image-sent a.hdl s t c d (sym (serve-image a.hdl s c g h) ∙ e) in
          image a i buf o q b k h g p
    ]
  ]

  -- `b` as a variable, to split on it.
  pass_at : ActionPtr → Server → C → Pass C
  pass_at null s c = goes_on s c
  pass_at wild s c = crashes bad_pointer
  pass_at dangling s c = crashes bad_pointer
  pass_at (points a) s c = elim (find a.hdl s.connections) [
    | none ↦ goes_on s c
    | some client_id ↦ serve out a.hdl s c
  ]

  pass_at_lem : (s : Server) (c : C) → looping_pass out s c ≡ pass_at s.b s c
  unfolding looping_pass pass_at
  pass_at_lem s c = ground arith

  pass_at-Sends :
      (p : ActionPtr) (s t : Server) (c d : C) → s.b ≡ p → pass_at p s c ≡ goes_on t d → Sends s c t
  unfolding pass_at
  pass_at-Sends null s t c d b e = silent (ground arith)
  pass_at-Sends wild s t c d b e = absurd (cc)
  pass_at-Sends dangling s t c d b e = absurd (cc)
  pass_at-Sends (points a) s t c d b e = elim (Option-cases (find a.hdl s.connections)) [
    | inl k ↦ silent (ground arith)
    | inr (client_id, k) ↦ serve-Sends a s t c d b (λ q. cc) (rw (k, pass_at) at e)
  ]

  -- A pass of `looping` that does not end the process sends nothing, or one frame to the client of the
  -- action behind `b`, which is in the map: the image that the camera gives, encoded, if nothing stops
  -- the stream and no answer to "get_data" is in progress, or the string that the camera gives, which
  -- is counted, if one is.
  pub pass-Sends : (s t : Server) (c d : C) → looping_pass out s c ≡ goes_on t d → Sends s c t
  pass-Sends s t c d e = pass_at-Sends s.b s t c d refl (sym (pass_at_lem s c) ∙ e)
