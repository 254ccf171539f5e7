-- ===== src/Server/Traffic/Origins.antt =====
-- broadcastTest.cpp: where the frames that the server has sent come from, and who gets them.
use Prim.Native.String.{String}
use mathlib.Core.Path.{subst}
use mathlib.Core.List.{Mem, mem-cons_self, mem-cons_of_mem}
use aggregation.Base.{ℕ, ◌≡◌, ◌≢◌, refl, sym, ◌∙◌, some, List, [], ◌∷◌, arith, All, All-append}
use aggregation.Server.{
  Server, Action, ActionPtr, dangling, points, Payload, binary, text, Sent, Outside, goes_on, init,
  on_open, on_close, on_message, take_action, handle, end_round, looping_pass,
}
use aggregation.Server.Threads.{
  System, start, Step, opens, closes, receives, takes, handles, ends, loops, Reach, here, next,
}
use aggregation.Server.Traffic.{Sends, silent, image, string, pass-Sends}

All-mono :
    {A : Type 0} (P Q : A → Type 0) (xs : List A) → ((a : A) → P a → Q a) → All P xs → All Q xs
All-mono P Q [] f h = tt
All-mono P Q (x ∷ xs) f h = (f x h.0, All-mono P Q xs f h.1)

module _ {C Image : Type 0} (out : Outside C Image) where
  -- The handle behind a message that is received, put in front of those before.
  abbrev pub adds : {y z : System C} → Step out y z → List ℕ → List ℕ
  adds (receives hdl msg e) hs = hdl ∷ hs
  adds (opens hdl client_id e) hs = hs
  adds (closes hdl e) hs = hs
  adds (takes a s w e f) hs = hs
  adds (handles a s w e f) hs = hs
  adds (ends a w f) hs = hs
  adds (loops s c e f) hs = hs

  -- The handles behind the messages of a run, the latest first.
  abbrev pub senders : {y z : System C} → Reach out y z → List ℕ
  senders here = []
  senders (next r st) = adds st (senders r)

  -- An image that the camera gave in some state, encoded, or a string that it gave.
  abbrev pub FromCamera : Payload → Type 0
  FromCamera (binary buf) =
      (c : C) × (i : Image) × ((out.get_image c).0 ≡ some i) × (out.imencode i ≡ some buf)
  FromCamera (text str) = (c : C) × ((out.get_string c).0 ≡ some (some str))

  abbrev pub Origin : List ℕ → Sent → Type 0
  Origin hs x = Mem x.to hs × FromCamera x.payload

  -- What was queued, what `b` points to and what was sent go back to the handles of the list.
  pub record Traced (hs : List ℕ) (s : Server) : Type 0 where
    pub queued : All (λ a. Mem a.hdl hs) s.actions
    pub pointed : (a : Action) → s.b ≡ points a → Mem a.hdl hs
    pub origin : All (Origin hs) s.sent

  grow : (h : ℕ) (hs : List ℕ) (s : Server) → Traced hs s → Traced (h ∷ hs) s
  grow h hs s v = record {
    queued = All-mono _ _ s.actions (λ a m. mem-cons_of_mem h m) v.queued;
    pointed = λ a e. mem-cons_of_mem h (v.pointed a e);
    origin = All-mono _ _ s.sent (λ x o. (mem-cons_of_mem h o.0, o.1)) v.origin;
  }

  message-Traced :
      (h : ℕ) (msg : String) (hs : List ℕ) (s : Server)
      → Traced hs s
      → Traced (h ∷ hs) (on_message h msg s)
  unfolding on_message
  message-Traced h msg hs s v =
      let w = grow h hs s v in
      record {
        queued = All-append (λ a. Mem a.hdl (h ∷ hs)) s.actions _ w.queued (mem-cons_self, tt);
        pointed = w.pointed;
        origin = w.origin;
      }

  take-parts :
      (s t : Server) (a : Action)
      → take_action s ≡ some (a, t)
      → (s.actions ≡ a ∷ t.actions) × (t.b ≡ points a) × (t.sent ≡ s.sent)
  unfolding take_action
  take-parts s t a e = ground arith

  handle-parts :
      (s t : Server) (a : Action)
      → handle a s ≡ some t
      → (t.actions ≡ s.actions) × (t.b ≡ s.b) × (t.sent ≡ s.sent)
  unfolding handle
  handle-parts s t a e = ground arith

  pass-parts :
      (s t : Server) (c d : C)
      → looping_pass out s c ≡ goes_on t d
      → (t.actions ≡ s.actions) × (t.b ≡ s.b)
  unfolding looping_pass
  pass-parts s t c d e = ground arith

  -- The queue as it was, the pointer as it was or gone, and `sent` accounted for.
  pub same-Traced :
      (hs : List ℕ) (s t : Server)
      → Traced hs s
      → t.actions ≡ s.actions
      → ((a : Action) → t.b ≡ points a → s.b ≡ points a)
      → All (Origin hs) t.sent
      → Traced hs t
  same-Traced hs s t v q p o = record {
    queued = rw q v.queued;
    pointed = λ a e. v.pointed a (p a e);
    origin = o;
  }

  take-Traced :
      (hs : List ℕ) (s t : Server) (a : Action)
      → take_action s ≡ some (a, t)
      → Traced hs s
      → Traced hs t
  take-Traced hs s t a e v =
      let (q, p, o) = take-parts s t a e in
      let front : All (λ a'. Mem a'.hdl hs) (a ∷ t.actions) = rw q at v.queued in
      record {
        queued = front.1;
        pointed = λ a' e'. subst (λ x. Mem x.hdl hs) (same a a' (sym p ∙ e')) front.0;
        origin = rw o v.origin;
      }
    where
      same : (a a' : Action) → points a ≡ points a' → a ≡ a'
      same a a' e' = cc

  handle-Traced :
      (hs : List ℕ) (s t : Server) (a : Action) → handle a s ≡ some t → Traced hs s → Traced hs t
  handle-Traced hs s t a e v =
      let (q, p, o) = handle-parts s t a e in
      same-Traced hs s t v q (λ a' e'. sym p ∙ e') (rw o v.origin)

  Sends-Origin :
      (hs : List ℕ) (s t : Server) (c : C) → Sends out s c t → Traced hs s → All (Origin hs) t.sent
  Sends-Origin hs s t c (silent e) v = rw e v.origin
  Sends-Origin hs s t c (image a i buf g m b k h n e) v =
      rw e ((v.pointed a b, (c, i, g, m)), v.origin)
  Sends-Origin hs s t c (string a str g b k n m e) v = rw e ((v.pointed a b, (c, g)), v.origin)

  pass-Traced :
      (hs : List ℕ) (s t : Server) (c d : C)
      → looping_pass out s c ≡ goes_on t d
      → Traced hs s
      → Traced hs t
  pass-Traced hs s t c d e v =
      let (q, p) = pass-parts s t c d e in
      same-Traced hs s t v q (λ a e'. sym p ∙ e')
        (Sends-Origin hs s t c (pass-Sends out s t c d e) v)

  ends-Traced : (hs : List ℕ) (s : Server) → Traced hs s → Traced hs (end_round s)
  unfolding end_round
  ends-Traced hs s v =
      same-Traced hs s (record s { b = dangling }) v refl (λ a e. absurd (cc)) v.origin

  pub Step-Traced :
      (hs : List ℕ) {y z : System C} (st : Step out y z)
      → Traced hs y.server
      → Traced (adds st hs) z.server
  unfolding on_open on_close
  Step-Traced hs {y} (opens hdl client_id e) v =
      rw e (same-Traced hs y.server _ v refl (λ a q. q) v.origin)
  Step-Traced hs {y} (closes hdl e) v = rw e (same-Traced hs y.server _ v refl (λ a q. q) v.origin)
  Step-Traced hs {y} (receives hdl msg e) v = rw e (message-Traced hdl msg hs y.server v)
  Step-Traced hs {y} (takes a s w e f) v = rw f (take-Traced hs y.server s a e v)
  Step-Traced hs {y} (handles a s w e f) v = rw f (handle-Traced hs y.server s a e v)
  Step-Traced hs {y} (ends a w f) v = rw f (ends-Traced hs y.server v)
  Step-Traced hs {y} (loops s d e f) v = rw f (pass-Traced hs y.server s y.camera d e v)

  pub init-Traced : (b0 : ActionPtr) → ((a : Action) → b0 ≢ points a) → Traced [] (init b0)
  unfolding init
  init-Traced b0 h = record { queued = tt; pointed = λ a e. absurd (h a e); origin = tt }

  Reach-Traced :
      (b0 : ActionPtr) (c : C) {z : System C}
      → ((a : Action) → b0 ≢ points a)
      → (r : Reach out (start b0 c) z) → Traced (senders r) z.server
  Reach-Traced b0 c h here = init-Traced b0 h
  Reach-Traced b0 c h (next r st) = Step-Traced (senders r) st (Reach-Traced b0 c h r)

  -- In every run of the threads from the start, each frame that the server has sent went to a handle
  -- that a message of the run came from, and is an image that the camera gave, encoded, or a string
  -- that it gave.
  Reach-Origin :
      (b0 : ActionPtr) (c : C) {z : System C}
      → ((a : Action) → b0 ≢ points a)
      → (r : Reach out (start b0 c) z) → All (Origin (senders r)) z.server.sent
  Reach-Origin b0 c h r = (Reach-Traced b0 c h r).origin
