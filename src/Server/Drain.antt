-- ===== src/Server/Drain.antt =====
-- broadcastTest.cpp: `process_messages` on its own, up to where it waits for the next message.
use Prim.Native.String.{String}
use mathlib.Core.Path.{subst}
use aggregation.Base.{◌≡◌, ◌≢◌, refl, sym, ◌∙◌, ap, some, List, [], ◌∷◌, ◌++◌, All, arith, inl, inr}
use aggregation.Server.{
  Server, Action, ActionPtr, points, Outside, take_action, handle, handle_payload, end_round,
}
use aggregation.Server.Threads.{
  System, Worker, waiting, holding, finishing, start, takes, handles, ends, Reach, here, next,
}
use aggregation.Server.Safety.{IsMessage, Window, Inv, Inv-start, Reach-Inv, handle_message}
use aggregation.Server.Modes.{command}
use aggregation.Server.Modes.Simulation.{handle-cases}

-- The commands of a queue, in their order, and those that the thread still has before it.
abbrev pub commands : List Action → List String
commands [] = []
commands (a ∷ rest) = command a ++ commands rest

abbrev pub held : Worker → List String
held waiting = []
held (holding a) = command a
held (finishing a) = []

-- The commands handled one after the other.
abbrev pub obeyed : List String → Server → Server
obeyed [] s = s
obeyed (p ∷ ps) s = obeyed ps (handle_payload p s)

abbrev pub SameFlags : Server → Server → Type 0
SameFlags s t = (t.stop_streaming ≡ s.stop_streaming) × (t.get_data ≡ s.get_data)

payload-SameFlags :
    (p : String) (s t : Server)
    → SameFlags s t
    → SameFlags (handle_payload p s) (handle_payload p t)
unfolding handle_payload
payload-SameFlags p s t v = ground arith

obeyed-SameFlags :
    (ps : List String) (s t : Server) → SameFlags s t → SameFlags (obeyed ps s) (obeyed ps t)
obeyed-SameFlags [] s t v = v
obeyed-SameFlags (p ∷ ps) s t v =
    obeyed-SameFlags ps (handle_payload p s) (handle_payload p t) (payload-SameFlags p s t v)

obeyed-append : (ps qs : List String) (s : Server) → obeyed (ps ++ qs) s ≡ obeyed qs (obeyed ps s)
obeyed-append [] qs s = refl
obeyed-append (p ∷ ps) qs s = obeyed-append ps qs (handle_payload p s)

-- Of the fields of the server, handling a message changes the flags only.
payload-fields :
    (p : String) (s : Server)
    → ((handle_payload p s).actions ≡ s.actions) × ((handle_payload p s).sent ≡ s.sent)
unfolding handle_payload
payload-fields p s = ground arith

record Handled (a : Action) (s t : Server) : Type 0 where
  flags : t ≡ obeyed (command a) s
  actions : t.actions ≡ s.actions
  sent : t.sent ≡ s.sent

handle-Handled : (a : Action) (s t : Server) → handle a s ≡ some t → Handled a s t
handle-Handled a s t e = elim (handle-cases a s t e) [
  | inl (u, k) ↦ record {
    flags = u ∙ ap (λ ps. obeyed ps s) (sym k);
    actions = ap (λ r. r.actions) u;
    sent = ap (λ r. r.sent) u;
  }
  | inr (p, u, k) ↦
      let (x, y) = payload-fields p s in
      record {
        flags = u ∙ ap (λ ps. obeyed ps s) (sym k);
        actions = ap (λ r. r.actions) u ∙ x;
        sent = ap (λ r. r.sent) u ∙ y;
      }
]

module _ {C Image : Type 0} (out : Outside C Image) where
  Reach-trans : {x y z : System C} → Reach out x y → Reach out y z → Reach out x z
  Reach-trans r here = r
  Reach-trans r (next s st) = next (Reach-trans r s) st

  -- The thread comes to wait, with the flags of `g`, and nothing is sent meanwhile.
  abbrev pub Drained : Server → System C → Type 0
  Drained g y =
      (z : System C) × Reach out y z
      × (z.server.actions ≡ [])
      × (z.worker ≡ waiting)
      × (z.server.sent ≡ y.server.sent)
      × SameFlags g z.server

  after :
      {y w : System C} (g g' : Server)
      → Reach out y w
      → w.server.sent ≡ y.server.sent
      → SameFlags g' g
      → Drained g w
      → Drained g' y
  after g g' r e (f, f') (z, r', a, w, s, (k, k')) =
      (z, Reach-trans r r', a, w, s ∙ e, (k ∙ f, k' ∙ f'))

  -- One message, from the queue to the end of its round.
  round_end :
      (y : System C) (a : Action) (s t : Server)
      → y.worker ≡ waiting
      → take_action y.server ≡ some (a, s)
      → handle a s ≡ some t
      → Reach out y (record y { server = end_round t; worker = waiting })
  round_end y a s t w e h =
      next (next (next here (takes a s w e refl)) (handles a t refl h refl)) (ends a refl refl)

  drain_queue :
      (queue : List Action) (y : System C)
      → y.server.actions ≡ queue
      → y.worker ≡ waiting
      → All IsMessage queue
      → Drained (obeyed (commands queue) y.server) y
  unfolding take_action end_round
  drain_queue [] y e w m = (y, here, e, w, refl, (refl, refl))
  drain_queue (a ∷ rest) y e w m =
      let s : Server = record y.server { actions = rest; b = points a } in
      let (t, h) = handle_message out a s m.0 in
      let v = handle-Handled a s t h in
      let last : System C = record y { server = end_round t; worker = waiting } in
      let ih = drain_queue rest last v.actions refl m.1 in
      let r = round_end y a s t w (ground (arith, e)) h in
      let flags : SameFlags (obeyed (command a) y.server) t =
        subst (SameFlags (obeyed (command a) y.server)) (sym v.flags)
          (obeyed-SameFlags (command a) y.server s (refl, refl)) in
      after (obeyed (commands rest) last.server) (obeyed (commands (a ∷ rest)) y.server) r v.sent
        (rw (obeyed-append (command a) (commands rest) y.server)
          (obeyed-SameFlags (commands rest) (obeyed (command a) y.server) (end_round t) flags))
        ih

  drain_worker :
      (w : Worker) (y : System C)
      → y.worker ≡ w
      → ((a : Action) → w ≡ holding a → IsMessage a)
      → All IsMessage y.server.actions
      → Drained (obeyed (held w ++ commands y.server.actions) y.server) y
  unfolding end_round
  drain_worker waiting y e h m = drain_queue y.server.actions y refl e m
  drain_worker (finishing a) y e h m =
      let last : System C = record y { server = end_round y.server; worker = waiting } in
      let ih = drain_queue y.server.actions last refl refl m in
      after (obeyed (commands y.server.actions) last.server)
        (obeyed (commands y.server.actions) y.server) (next here (ends a e refl)) refl
        (obeyed-SameFlags (commands y.server.actions) y.server last.server (refl, refl)) ih
  drain_worker (holding a) y e h m =
      let (t, q) = handle_message out a y.server (h a refl) in
      let v = handle-Handled a y.server t q in
      let last : System C = record y { server = end_round t; worker = waiting } in
      let ih = drain_queue y.server.actions last v.actions refl m in
      let flags : SameFlags (obeyed (command a) y.server) t =
        subst (SameFlags (obeyed (command a) y.server)) (sym v.flags) (refl, refl) in
      after (obeyed (commands y.server.actions) last.server)
        (obeyed (command a ++ commands y.server.actions) y.server)
        (next (next here (handles a t e q refl)) (ends a refl refl)) v.sent
        (rw (obeyed-append (command a) (commands y.server.actions) y.server) (
          obeyed-SameFlags (commands y.server.actions) (obeyed (command a) y.server) last.server
            flags))
        ih

  -- From every state that the threads reach from the start, with a `b` that points to no action at
  -- first, they can go on to where `process_messages` waits with an empty queue, and send nothing
  -- meanwhile; `stop_streaming` and `get_data` are then as after the commands that it had taken, but not
  -- handled, and those in the queue, handled in the order in which they came.
  pub start-Drained :
      (b0 : ActionPtr) (c : C) {y : System C}
      → ((a : Action) → b0 ≢ points a)
      → Reach out (start b0 c) y
      → Drained (obeyed (held y.worker ++ commands y.server.actions) y.server) y
  start-Drained b0 c {y} none_yet r =
      let v : Inv y = Reach-Inv out (Inv-start out b0 c none_yet) r in
      let window : Window y.worker y.server.b = v.window in
      drain_worker y.worker y refl (λ a e. (subst (λ w. Window w y.server.b) e window).1) v.queued
