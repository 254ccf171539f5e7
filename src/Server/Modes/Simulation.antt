-- ===== src/Server/Modes/Simulation.antt =====
-- broadcastTest.cpp: what a step of a thread is to the machine of modes.
use Prim.Native.String.{String}
use aggregation.Base.{
  ℕ, ◌+◌, ◌≤◌, ◌<◌, ◌≡◌, refl, ◌∙◌, ◌≢◌, ◌⊎◌, inl, inr, false, some, List, [], ◌∷◌, ◌++◌, arith,
  Option-cases,
}
use aggregation.Server.{
  Server, Action, ActionPtr, null, wild, dangling, points, Outside, goes_on, init, on_open,
  on_close, on_message, take_action, handle, handle_payload, end_round, looping_pass,
}
use aggregation.Server.Threads.{
  System, Step, opens, closes, receives, takes, handles, ends, loops, Reach, here, next, start,
}
use aggregation.Server.Safety.{count_bounded}
use aggregation.Server.Modes.{
  streaming, answering, image, string, Emitted, next_mode, Move, rests, obeys, shows, answers,
  resumes, Run, begin, then_move, mode, command, emitted,
}

abbrev target : ActionPtr → ℕ
target null = 0
target wild = 0
target dangling = 0
target (points a) = a.hdl

-- With nothing due the counter is 0.
abbrev IsIdle : Server → Type 0
IsIdle s = s.get_data ≡ false → s.client2_data_count ≡ 0

mode-handle_payload :
    (p : String) (s : Server) → IsIdle s → mode (handle_payload p s) ≡ next_mode p (mode s)
unfolding mode handle_payload next_mode
mode-handle_payload p s h = ground arith

pub handle-cases :
    (a : Action) (s t : Server)
    → handle a s ≡ some t
    → ((t ≡ s) × (command a ≡ []))
      ⊎ ((p : String) × (t ≡ handle_payload p s) × (command a ≡ p ∷ []))
unfolding handle
handle-cases a s t e = elim (Option-cases a.msg) [
  | inl m ↦ inl (ground arith)
  | inr (p, m) ↦
      let q : ((t ≡ s) × (command a ≡ [])) ⊎ ((t ≡ handle_payload p s) × (command a ≡ p ∷ [])) =
        ground arith in
      elim q [ inl u ↦ inl u | inr u ↦ inr (p, u.0, u.1) ]
]

module _ {C Image : Type 0} (out : Outside C Image) where
  pass-cases :
      (s t : Server) (c d : C)
      → looping_pass out s c ≡ goes_on t d
      → ((mode t ≡ mode s) × (emitted t.sent ≡ emitted s.sent))
        ⊎ ((mode s ≡ streaming)
            × (mode t ≡ streaming)
            × (emitted t.sent ≡ (target s.b, image) ∷ emitted s.sent))
        ⊎ ((mode s ≡ answering s.client2_data_count)
            × (s.client2_data_count < s.max_client2_data_count)
            × (mode t ≡ answering (s.client2_data_count + 1))
            × (emitted t.sent ≡ (target s.b, string) ∷ emitted s.sent))
        ⊎ ((mode s ≡ answering s.client2_data_count)
            × (s.max_client2_data_count ≤ s.client2_data_count)
            × (mode t ≡ streaming)
            × (emitted t.sent ≡ emitted s.sent))
  unfolding looping_pass mode emitted
  pass-cases s t c d e = ground arith

  -- What a step from `s` to `t` is to the machine: a move, what it emits, and the limit as it was.
  record Moved (s t : Server) (cmds : List String) : Type 0 where
    new : List Emitted
    move : Move s.max_client2_data_count (mode s) cmds new (mode t)
    sends : emitted t.sent ≡ new ++ emitted s.sent
    limit : t.max_client2_data_count ≡ s.max_client2_data_count

  rests-Moved :
      (s t : Server)
      → mode t ≡ mode s
      → emitted t.sent ≡ emitted s.sent
      → t.max_client2_data_count ≡ s.max_client2_data_count
      → Moved s t []
  rests-Moved s t m e l = record { new = []; move = rw m rests; sends = e; limit = l }

  pass-limit :
      (s t : Server) (c d : C)
      → looping_pass out s c ≡ goes_on t d
      → t.max_client2_data_count ≡ s.max_client2_data_count
  unfolding looping_pass
  pass-limit s t c d e = ground arith

  pass-Moved : (s t : Server) (c d : C) → looping_pass out s c ≡ goes_on t d → Moved s t []
  pass-Moved s t c d e =
      let l = pass-limit s t c d e in
      elim (pass-cases s t c d e) [
        | inl (m, x) ↦ rests-Moved s t m x l
        | inr (inl (m, n, x)) ↦ record {
          new = (target s.b, image) ∷ [];
          move = rw (m, n) (shows (target s.b));
          sends = x;
          limit = l;
        }
        | inr (inr (inl (m, lt, n, x))) ↦ record {
          new = (target s.b, string) ∷ [];
          move = rw (m, n) (answers (target s.b) lt);
          sends = x;
          limit = l;
        }
        | inr (inr (inr (m, le, n, x))) ↦ record {
          new = [];
          move = rw (m, n) (resumes le);
          sends = x;
          limit = l;
        }
      ]

  payload-sent : (p : String) (s : Server) → (handle_payload p s).sent ≡ s.sent
  unfolding handle_payload
  payload-sent p s = ground arith

  payload-limit :
      (p : String) (s : Server)
      → (handle_payload p s).max_client2_data_count ≡ s.max_client2_data_count
  unfolding handle_payload
  payload-limit p s = ground arith

  handle-Moved :
      (a : Action) (s t : Server) → IsIdle s → handle a s ≡ some t → Moved s t (command a)
  unfolding mode
  handle-Moved a s t h e = elim (handle-cases a s t e) [
    | inl (u, k) ↦ rw (u, k) (rests-Moved s s refl refl refl)
    | inr (p, u, k) ↦
        rw (u, k)
          (record {
            new = [];
            move = rw (mode-handle_payload p s h) (obeys p);
            sends = rw (payload-sent p s) refl;
            limit = payload-limit p s;
          })
  ]

  take-Moved : (s t : Server) (a : Action) → take_action s ≡ some (a, t) → Moved s t []
  unfolding take_action mode
  take-Moved s t a e = rests-Moved s t (ground arith) (ground arith) (ground arith)

  -- The commands that are handled in a step, and in a run of the threads, the latest first.
  abbrev pub told_by : {y z : System C} → Step out y z → List String
  told_by (handles a s w e f) = command a
  told_by (opens hdl client_id e) = []
  told_by (closes hdl e) = []
  told_by (receives hdl msg e) = []
  told_by (takes a s w e f) = []
  told_by (ends a w f) = []
  told_by (loops s c e f) = []

  abbrev pub handled : {y z : System C} → Reach out y z → List String
  handled here = []
  handled (next r st) = told_by st ++ handled r

  -- The run of the machine up to a state of the server.
  record Simulated (s : Server) (cmds : List String) : Type 0 where
    run : Run 1 streaming cmds (emitted s.sent) (mode s)
    limit : s.max_client2_data_count ≡ 1

  Moved-Simulated :
      (s t : Server) (told cmds : List String)
      → Simulated s told
      → Moved s t cmds
      → Simulated t (cmds ++ told)
  unfolding mode
  Moved-Simulated s t told cmds v w = record {
    run = rw w.sends (then_move v.run (rw v.limit at w.move));
    limit = w.limit ∙ v.limit;
  }

  Step-Moved :
      {y z : System C} (r : Step out y z) → IsIdle y.server → Moved y.server z.server (told_by r)
  unfolding on_open on_close on_message end_round mode
  Step-Moved (opens hdl client_id e) h = rw e (rests-Moved _ _ refl refl refl)
  Step-Moved (closes hdl e) h = rw e (rests-Moved _ _ refl refl refl)
  Step-Moved (receives hdl msg e) h = rw e (rests-Moved _ _ refl refl refl)
  Step-Moved {y} (takes a s w e f) h = rw f (take-Moved y.server s a e)
  Step-Moved {y} (handles a s w e f) h = rw f (handle-Moved a y.server s h e)
  Step-Moved {y} (ends a w f) h = rw f (rests-Moved y.server (end_round y.server) refl refl refl)
  Step-Moved {y} (loops s c e f) h = rw f (pass-Moved y.server s y.camera c e)

  Reach-Simulated :
      (b0 : ActionPtr) (c : C) {z : System C}
      → ((a : Action) → b0 ≢ points a)
      → (r : Reach out (start b0 c) z) → Simulated z.server (handled r)
  unfolding init mode emitted
  Reach-Simulated b0 c h here = record { run = begin; limit = refl }
  Reach-Simulated b0 c h (next {z = y} {w = z} r st) =
      Moved-Simulated y.server z.server (handled r) (told_by st) (Reach-Simulated b0 c h r)
        (Step-Moved st (count_bounded out b0 c h r).1)

  -- Every run of the three threads, from the start with a `b` that points to no action and in any
  -- interleaving of handlers, messages and whole passes of `looping`, is a run of the machine with a
  -- limit of one string: the commands that were handled take it from streaming to the mode
  -- that the flags and the counter of the server stand for, and what it emits on the way are the
  -- frames that the server has sent, in their order.
  pub Reach-Run :
      (b0 : ActionPtr) (c : C) {z : System C}
      → ((a : Action) → b0 ≢ points a)
      → (r : Reach out (start b0 c) z)
      → Run 1 streaming (handled r) (emitted z.server.sent) (mode z.server)
  Reach-Run b0 c h r = (Reach-Simulated b0 c h r).run
