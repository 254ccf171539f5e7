-- ===== src/Server/Order.antt =====
-- broadcastTest.cpp: the queue between `on_message` and `process_messages`, in any interleaving.
use Prim.Native.String.{String}
use mathlib.Core.List.{append_assoc, append-nil}
use aggregation.Base.{ℕ, ◌≡◌, sym, ◌∙◌, ap, some, List, [], ◌∷◌, ◌++◌, arith}
use aggregation.Server.{
  Server, Action, ActionType, Outside, goes_on, on_message, take_action, handle, looping_pass,
  end_round, on_open, on_close,
}
use aggregation.Server.Threads.{
  System, opens, closes, receives, takes, handles, ends, loops, Reach, here, next,
}

abbrev pub action_of : ℕ → String → Action
action_of hdl msg = record { type = ActionType.message; hdl = hdl; msg = some msg }

take_front : (s t : Server) (a : Action) → take_action s ≡ some (a, t) → s.actions ≡ a ∷ t.actions
unfolding take_action
take_front s t a e = ground arith

handle-actions : (a : Action) (s t : Server) → handle a s ≡ some t → t.actions ≡ s.actions
unfolding handle
handle-actions a s t e = ground arith

module _ {C Image : Type 0} (out : Outside C Image) where
  pass-actions :
      (s t : Server) (c d : C) → looping_pass out s c ≡ goes_on t d → t.actions ≡ s.actions
  unfolding looping_pass
  pass-actions s t c d e = ground arith

  -- The messages that `on_message` queued in a run, and the actions that `process_messages` took,
  -- each in the order of the run.
  abbrev pub received : {y z : System C} → Reach out y z → List Action
  received here = []
  received (next r (receives hdl msg e)) = received r ++ action_of hdl msg ∷ []
  received (next r (opens hdl client_id e)) = received r
  received (next r (closes hdl e)) = received r
  received (next r (takes a s w e f)) = received r
  received (next r (handles a s w e f)) = received r
  received (next r (ends a w f)) = received r
  received (next r (loops s c e f)) = received r

  abbrev pub taken : {y z : System C} → Reach out y z → List Action
  taken here = []
  taken (next r (takes a s w e f)) = taken r ++ a ∷ []
  taken (next r (opens hdl client_id e)) = taken r
  taken (next r (closes hdl e)) = taken r
  taken (next r (receives hdl msg e)) = taken r
  taken (next r (handles a s w e f)) = taken r
  taken (next r (ends a w f)) = taken r
  taken (next r (loops s c e f)) = taken r

  -- No message is lost, doubled or overtaken: what was taken, followed by what is queued, is what
  -- was queued at first followed by what was received.
  pub taken-append-actions :
      {y z : System C} (r : Reach out y z)
      → taken r ++ z.server.actions ≡ y.server.actions ++ received r
  unfolding on_message end_round on_open on_close
  taken-append-actions here = sym (append-nil _)
  taken-append-actions (next r (opens hdl client_id e)) = rw e (taken-append-actions r)
  taken-append-actions (next r (closes hdl e)) = rw e (taken-append-actions r)
  taken-append-actions {y} (next {z = x} r (receives hdl msg e)) = rw e (
      sym (append_assoc (taken r) x.server.actions _)
      ∙ ap (λ l. l ++ action_of hdl msg ∷ []) (taken-append-actions r)
      ∙ append_assoc y.server.actions (received r) _)
  taken-append-actions (next {z = x} r (takes a s w e f)) =
      rw (f, append_assoc (taken r) (a ∷ []) s.actions, ← take_front x.server s a e)
        (taken-append-actions r)
  taken-append-actions (next {z = x} r (handles a s w e f)) =
      rw (f, handle-actions a x.server s e) (taken-append-actions r)
  taken-append-actions (next r (ends a w f)) = rw f (taken-append-actions r)
  taken-append-actions (next {z = x} r (loops s c e f)) =
      rw (f, pass-actions x.server s x.camera c e) (taken-append-actions r)
