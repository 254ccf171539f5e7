-- ===== src/Server/Closing.antt =====
-- broadcastTest.cpp: what `on_close` leaves in the map of connections.
use aggregation.Base.{ℕ, ◌≡◌, ◌≢◌, none, some, arith, ◌==◌, if◌then◌else◌}
use aggregation.Server.{
  Server, Action, Outside, on_open, on_close, on_message, take_action, handle, looping_pass,
  goes_on, end_round,
}
use aggregation.Server.Registry.{
  find, erase, subscript_missing, find-assign, find-erase, find-subscript,
}
use aggregation.Server.Threads.{
  System, Step, opens, closes, receives, takes, handles, ends, loops, Reach, here, next,
}

-- After `on_close (h)` the map still has the key `h`, with an empty client id; each other handle
-- has what it had.
pub find-on_close :
    (h j : ℕ) (s : Server)
    → find j (on_close h s).connections ≡ (if h == j then some "" else find j s.connections)
unfolding on_close
find-on_close h j s = ground (
  arith,
  find-subscript h j (erase h s.connections),
  find-erase h j s.connections,
  find-erase h h s.connections,
  subscript_missing h (erase h s.connections),
)

take-connections :
    (s t : Server) {a : Action} → take_action s ≡ some (a, t) → t.connections ≡ s.connections
unfolding take_action
take-connections s t e = ground arith

handle-connections :
    (a : Action) (s t : Server) → handle a s ≡ some t → t.connections ≡ s.connections
unfolding handle
handle-connections a s t e = ground arith

module _ {C Image : Type 0} (out : Outside C Image) where
  pass-connections :
      (s t : Server) (c d : C) → looping_pass out s c ≡ goes_on t d → t.connections ≡ s.connections
  unfolding looping_pass
  pass-connections s t c d e = ground arith

  -- No step of any thread takes a handle out of the map, `on_close` included: what the map once knew
  -- it knows in every state that follows, in any interleaving.
  pub Step-find :
      {y z : System C} (h : ℕ)
      → Step out y z
      → find h y.server.connections ≢ none
      → find h z.server.connections ≢ none
  unfolding on_open on_message end_round
  Step-find {y} h (opens hdl client_id e) known =
      ground (arith, find-assign hdl h client_id y.server.connections)
  Step-find {y} h (closes hdl e) known = ground (arith, find-on_close hdl h y.server)
  Step-find h (receives hdl msg e) known = ground arith
  Step-find {y} h (takes a s w e f) known = ground (arith, take-connections y.server s e)
  Step-find {y} h (handles a s w e f) known = ground (arith, handle-connections a y.server s e)
  Step-find h (ends a w f) known = ground arith
  Step-find {y} h (loops s c e f) known = ground (arith, pass-connections y.server s y.camera c e)

  -- After `on_close (h)`, in any state and any interleaving from there, the map has an entry for `h`.
  pub closed-Reach :
      (z : System C) (h : ℕ) {w : System C}
      → Reach out (record z { server = on_close h z.server }) w
      → find h w.server.connections ≢ none
  closed-Reach z h here = ground (arith, find-on_close h h z.server)
  closed-Reach z h (next r st) = Step-find h st (closed-Reach z h r)
