-- ===== src/Server/Safety.antt =====
-- broadcastTest.cpp: what holds in every state that the threads of `main` can reach.
use mathlib.Core.Path.{subst}
use aggregation.Base.{
  ℕ, ◌≤◌, ◌≡◌, refl, ◌≢◌, ◌⊎◌, inl, inr, false, none, some, arith, All, All-append, Option-cases,
}
use aggregation.Server.{
  Server, Action, ActionType, ActionPtr, null, wild, dangling, points, Outside, goes_on, crashes,
  bad_pointer, init, on_open, on_close, on_message, take_action, handle, handle_payload, end_round,
  looping_pass,
}
use aggregation.Server.Threads.{
  System, Worker, waiting, holding, finishing, start, Step, opens, closes, receives, takes, handles,
  ends, loops, Reach, here, next,
}

-- The queue holds what `on_message` puts there.
abbrev pub IsMessage : Action → Type 0
IsMessage a = (a.type ≡ ActionType.message) × (a.msg ≢ none)

-- `b` points to a live action just while the processing thread has it.
abbrev pub Window : Worker → ActionPtr → Type 0
Window waiting b = (a : Action) → b ≢ points a
Window (holding a) b = (b ≡ points a) × IsMessage a
Window (finishing a) b = b ≡ points a

pub record Inv {C : Type 0} (y : System C) : Type 0 where
  pub queued : All IsMessage y.server.actions
  pub window : Window y.worker y.server.b
  pub counted : y.server.client2_data_count ≤ y.server.max_client2_data_count
  pub idle : y.server.get_data ≡ false → y.server.client2_data_count ≡ 0

module _ {C Image : Type 0} (out : Outside C Image) where
  pub Inv-start : (b0 : ActionPtr) (c : C) → ((a : Action) → b0 ≢ points a) → Inv (start b0 c)
  unfolding init
  Inv-start b0 c h = record { queued = tt; window = h; counted = omega arith; idle = λ e. refl }

  -- What the queue's end and the two counters do in each function, in one lemma each.
  message-Inv :
      (y : System C) (hdl : ℕ) (msg : _)
      → Inv y
      → Inv (record y { server = on_message hdl msg y.server })
  unfolding on_message
  message-Inv y hdl msg v = record {
    queued = All-append IsMessage y.server.actions _ v.queued ((refl, λ e. cc), tt);
    window = v.window;
    counted = v.counted;
    idle = v.idle;
  }

  takes-Inv :
      (y : System C) (a : Action) (s : Server)
      → take_action y.server ≡ some (a, s)
      → Inv y
      → Inv (record y { server = s; worker = holding a })
  unfolding take_action
  takes-Inv y a s e v = ground arith

  handles-Inv :
      (y : System C) (a : Action) (s : Server)
      → y.worker ≡ holding a
      → handle a y.server ≡ some s
      → Inv y
      → Inv (record y { server = s; worker = finishing a })
  unfolding handle
  handles-Inv y a s w e v = let (b, m) = subst (λ u. Window u y.server.b) w v.window in ground arith

  ends-Inv :
      (y : System C) → Inv y → Inv (record y { server = end_round y.server; worker = waiting })
  unfolding end_round
  ends-Inv y v = record {
    queued = v.queued;
    window = λ a e. cc;
    counted = v.counted;
    idle = v.idle;
  }

  loops-Inv :
      (y : System C) (s : Server) (c : C)
      → looping_pass out y.server y.camera ≡ goes_on s c
      → Inv y
      → Inv (record y { server = s; camera = c })
  unfolding looping_pass
  loops-Inv y s c e v = ground arith

  Step-Inv : {y z : System C} → Step out y z → Inv y → Inv z
  unfolding on_open on_close
  Step-Inv (opens hdl client_id e) v = ground arith
  Step-Inv (closes hdl e) v = ground arith
  Step-Inv {y} (receives hdl msg e) v = rw e (message-Inv y hdl msg v)
  Step-Inv {y} (takes a s w e f) v = rw f (takes-Inv y a s e v)
  Step-Inv {y} (handles a s w e f) v = rw f (handles-Inv y a s w e v)
  Step-Inv {y} (ends a w f) v = rw f (ends-Inv y v)
  Step-Inv {y} (loops s c e f) v = rw f (loops-Inv y s c e v)

  pub Reach-Inv : {y z : System C} → Inv y → Reach out y z → Inv z
  Reach-Inv v here = v
  Reach-Inv v (next r st) = Step-Inv st (Reach-Inv v r)

  -- From the start on, in any interleaving: the counter of strings stays within its maximum, and is
  -- 0 whenever no answer to "get_data" is in progress.
  pub count_bounded :
      (b0 : ActionPtr) (c : C) {z : System C}
      → ((a : Action) → b0 ≢ points a)
      → Reach out (start b0 c) z
      → (z.server.client2_data_count ≤ z.server.max_client2_data_count)
        × (z.server.get_data ≡ false → z.server.client2_data_count ≡ 0)
  count_bounded b0 c h r = let v = Reach-Inv (Inv-start b0 c h) r in (v.counted, v.idle)

  pub handle_message :
      (a : Action) (s : Server) → IsMessage a → (t : Server) × (handle a s ≡ some t)
  unfolding handle
  handle_message a s (t, m) = elim (Option-cases a.msg) [
    | inl e ↦ absurd (m e)
    | inr (msg, e) ↦ (handle_payload msg s, ground arith)
  ]

  -- In every state reached from the start, the action that the processing thread holds can be
  -- handled: it never goes through a null message.
  holding_progress :
      (b0 : ActionPtr) (c : C) (a : Action) {z : System C}
      → ((a' : Action) → b0 ≢ points a')
      → Reach out (start b0 c) z
      → z.worker ≡ holding a
      → (t : Server) × (handle a z.server ≡ some t)
  holding_progress b0 c a {z} h r e =
      handle_message a z.server (subst (λ w. Window w z.server.b) e v.window).1
    where
      v : Inv z
      v = Reach-Inv (Inv-start b0 c h) r

  pass_at :
      (s : Server) (c : C) (p : ActionPtr)
      → s.b ≡ p
      → ((a : Action) → s.b ≢ points a)
      → (looping_pass out s c ≡ goes_on s c) ⊎ (looping_pass out s c ≡ crashes bad_pointer)
  unfolding looping_pass
  pass_at s c null e h = inl (ground arith)
  pass_at s c wild e h = inr (rw (e, looping_pass))
  pass_at s c dangling e h = inr (rw (e, looping_pass))
  pass_at s c (points a) e h = absurd (h a e)

  -- In every state reached from the start in which the processing thread waits for a message, a pass
  -- of `looping` does nothing or goes through a bad pointer.
  waiting_pass :
      (b0 : ActionPtr) (c : C) {z : System C}
      → ((a : Action) → b0 ≢ points a)
      → Reach out (start b0 c) z
      → z.worker ≡ waiting
      → (looping_pass out z.server z.camera ≡ goes_on z.server z.camera)
        ⊎ (looping_pass out z.server z.camera ≡ crashes bad_pointer)
  waiting_pass b0 c {z} h r e =
      pass_at z.server z.camera z.server.b refl (subst (λ w. Window w z.server.b) e v.window)
    where
      v : Inv z
      v = Reach-Inv (Inv-start b0 c h) r

  -- Steps through which the processing thread stays at its wait.
  pub data Waits (y : System C) : System C → Type 0 where
    stay : Waits y y
    more : {z w : System C} → Waits y z → Step out z w → w.worker ≡ waiting → Waits y w

  Waits-dangling :
      {y z : System C}
      → y.server.b ≡ dangling
      → y.worker ≡ waiting
      → Waits y z
      → (z.server.b ≡ dangling) × (z.worker ≡ waiting)
  unfolding on_open on_close on_message looping_pass
  Waits-dangling b w stay = (b, w)
  Waits-dangling b w (more r (opens hdl client_id e) u) =
      let (b', _) = Waits-dangling b w r in (ground arith, u)
  Waits-dangling b w (more r (closes hdl e) u) =
      let (b', _) = Waits-dangling b w r in (ground arith, u)
  Waits-dangling b w (more r (receives hdl msg e) u) =
      let (b', _) = Waits-dangling b w r in (ground arith, u)
  Waits-dangling b w (more r (takes a s x e f) u) = absurd (ground arith)
  Waits-dangling b w (more r (handles a s x e f) u) =
      let (_, w') = Waits-dangling b w r in absurd (ground arith)
  Waits-dangling b w (more r (ends a x f) u) =
      let (_, w') = Waits-dangling b w r in absurd (ground arith)
  Waits-dangling b w (more r (loops s c e f) u) =
      let (b', _) = Waits-dangling b w r in absurd (ground arith)

  -- Once the round of a message has ended, each pass of `looping` made before the next one is taken goes
  -- through the pointer to the destroyed action, whatever handlers run in between.
  pub handled_pass :
      (y : System C) {z : System C}
      → Waits (record y { server = end_round y.server; worker = waiting }) z
      → looping_pass out z.server z.camera ≡ crashes bad_pointer
  unfolding looping_pass end_round
  handled_pass y r = let (b, _) = Waits-dangling refl refl r in rw (b, looping_pass)
