-- ===== src/Server/Stages/Stopped.antt =====
-- broadcastTest.cpp: the stream after "stop_streaming", however the threads move between the stages of
-- `looping`.
use package.text.Mathlib.Text.{◌==◌ as str_eq}
use Prim.Native.String.{String}
use aggregation.Base.{
  ℕ, ◌+◌, ◌≤◌, ◌≡◌, refl, sym, ◌∙◌, ap, inl, inr, Bool, not, ◌&&◌, length, true, false, some, List,
  [], ◌∷◌, ◌++◌, arith, if◌then◌else◌,
}
use aggregation.Server.{
  Server, Action, Payload, binary, text, Outside, on_open, on_close, on_message, take_action,
  handle, handle_payload, end_round,
}
use aggregation.Server.Threads as Threads
use aggregation.Server.Threads.{System, opens, closes, receives, takes, handles, ends, loops}
use aggregation.Server.Modes.{command}
use aggregation.Server.Modes.Simulation.{told_by, handle-cases}
use aggregation.Server.Stages.{
  Looper, idle, found, at_entry, ready, moves, look, read_entry, decide, deliver, stage,
}
use aggregation.Server.Stages.Threads.{
  IsOther, after-holds, Config, Step, others, stages, Reach, here, next,
}
use aggregation.Server.Stages.Commands.{told, handled}

-- None of the commands starts the stream, or asks for texts.
abbrev pub quiet : List String → Bool
quiet [] = true
quiet (p ∷ ps) = not (str_eq p "start_stream") && not (str_eq p "get_data") && quiet ps

quiet-append :
    (ps qs : List String) → quiet (ps ++ qs) ≡ true → (quiet ps ≡ true) × (quiet qs ≡ true)
quiet-append [] qs e = (refl, e)
quiet-append (p ∷ ps) qs e =
    let ih = quiet-append ps qs in (ground (arith, e, ih), ground (arith, e, ih))

abbrev pub is_ready : Looper → Bool
is_ready idle = false
is_ready found = false
is_ready (at_entry k kept) = false
is_ready (ready p) = true

-- The stream is stopped, and with the frame that is ready at most `n` frames are sent.
record Stopped (n : ℕ) (s : Server) (l : Looper) : Type 0 where
  total : length s.sent + (if is_ready l then 1 else 0) ≤ n
  stop : s.stop_streaming ≡ true
  no_data : s.get_data ≡ false

payload-Stopped :
    (n : ℕ) (p : String) (s : Server) (l : Looper)
    → quiet (p ∷ []) ≡ true
    → Stopped n s l
    → Stopped n (handle_payload p s) l
unfolding handle_payload
payload-Stopped n p s l q v = record {
  total = ground (arith, q, v.total);
  stop = ground (arith, q, v.stop);
  no_data = ground (arith, q, v.no_data);
}

handle-Stopped :
    (n : ℕ) (a : Action) (s t : Server) (l : Looper)
    → handle a s ≡ some t
    → quiet (command a) ≡ true
    → Stopped n s l
    → Stopped n t l
handle-Stopped n a s t l e q v = elim (handle-cases a s t e) [
  | inl (u, k) ↦ rw u v
  | inr (p, u, k) ↦ rw u (payload-Stopped n p s l (ap quiet (sym k) ∙ q) v)
]

module _ {C Image : Type 0} (out : Outside C Image) where
  Other-Stopped :
      (n : ℕ) (l : Looper) {y z : System C} (st : Threads.Step out y z)
      → IsOther out st
      → quiet (told_by out st) ≡ true
      → Stopped n y.server l
      → Stopped n z.server l
  unfolding on_open on_close on_message take_action end_round
  Other-Stopped n l (opens hdl client_id e) o q v = ground arith
  Other-Stopped n l (closes hdl e) o q v = ground arith
  Other-Stopped n l (receives hdl msg e) o q v = ground arith
  Other-Stopped n l (takes a s w e f) o q v = ground arith
  Other-Stopped n l {y} (handles a s w e f) o q v = rw f (handle-Stopped n a y.server s l e q v)
  Other-Stopped n l (ends a w f) o q v = ground arith
  Other-Stopped n l (loops s c e f) o q v = absurd o

  look-Stopped :
      (n : ℕ) (s t : Server) (c d : C) (l : Looper)
      → look out s c ≡ moves t d l
      → Stopped n s idle
      → Stopped n t l
  unfolding look
  look-Stopped n s t c d l e v = ground arith

  decide-Stopped :
      (n : ℕ) (s t : Server) (c d : C) (l : Looper)
      → decide out s c ≡ moves t d l
      → Stopped n s found
      → Stopped n t l
  unfolding decide
  decide-Stopped n s t c d l e v = ground (arith, v.stop, v.no_data)

  deliver-Stopped :
      (n : ℕ) (p : Payload) (s t : Server) (c d : C) (l : Looper)
      → deliver out p s c ≡ moves t d l
      → Stopped n s (ready p)
      → Stopped n t l
  unfolding deliver
  deliver-Stopped n (binary buf) s t c d l e v = ground arith
  deliver-Stopped n (text str) s t c d l e v = ground arith

  entry-Stopped :
      (n k : ℕ) (kept : Bool) (s t : Server) (c d : C) (l : Looper)
      → read_entry kept s c ≡ moves t d l
      → Stopped n s (at_entry k kept)
      → Stopped n t l
  unfolding read_entry
  entry-Stopped n k true s t c d l e v = ground arith
  entry-Stopped n k false s t c d l e v = absurd (ground arith)

  stage-Stopped :
      (n : ℕ) (k l : Looper) (s t : Server) (c d : C)
      → stage out k s c ≡ moves t d l
      → Stopped n s k
      → Stopped n t l
  unfolding stage
  stage-Stopped n idle l s t c d e v = look-Stopped n s t c d l e v
  stage-Stopped n (at_entry k kept) l s t c d e v = entry-Stopped n k kept s t c d l e v
  stage-Stopped n found l s t c d e v = decide-Stopped n s t c d l e v
  stage-Stopped n (ready p) l s t c d e v = deliver-Stopped n p s t c d l e v

  Step-Stopped :
      (n : ℕ) {y z : Config C} (st : Step out y z)
      → quiet (told out st) ≡ true
      → Stopped n y.system.server y.looper
      → Stopped n z.system.server z.looper
  Step-Stopped n {y} (others w st o e) q v = rw e (
      after-holds out (Stopped n w.server)
        (λ k a b p. record { total = p.total; stop = p.stop; no_data = p.no_data }) st y.looper
        (Other-Stopped n y.looper st o q v))
  Step-Stopped n {y} (stages s c l e f) q v =
      rw f (stage-Stopped n y.looper l y.system.server s y.system.camera c e v)

  Reach-Stopped :
      (n : ℕ) {y z : Config C} (r : Reach out y z)
      → quiet (handled out r) ≡ true
      → Stopped n y.system.server y.looper
      → Stopped n z.system.server z.looper
  Reach-Stopped n here q v = v
  Reach-Stopped n (next r st) q v =
      let (a, b) = quiet-append (told out st) (handled out r) q in
      Step-Stopped n st a (Reach-Stopped n r b v)

  -- The stream is stopped, and no texts are due. In every run from there in which no "start_stream" and
  -- no "get_data" is handled, where the other threads move also within a pass of `looping`: at most
  -- one more frame is sent, the one that was ready, and the stream stays stopped.
  pub sent-stopped_bound :
      (y : Config C) {z : Config C} (r : Reach out y z)
      → y.system.server.stop_streaming ≡ true
      → y.system.server.get_data ≡ false
      → quiet (handled out r) ≡ true
      → (length z.system.server.sent
          ≤ length y.system.server.sent + (if is_ready y.looper then 1 else 0))
        × (z.system.server.stop_streaming ≡ true)
  sent-stopped_bound y r stop none_due q =
      let first : Stopped (length y.system.server.sent + (if is_ready y.looper then 1 else 0))
          y.system.server y.looper =
        record { total = omega arith; stop = stop; no_data = none_due } in
      let v =
        Reach-Stopped (length y.system.server.sent + (if is_ready y.looper then 1 else 0)) r q
          first in
      (omega (arith, v.total), v.stop)
