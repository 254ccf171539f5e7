-- ===== src/Server/Stages/Crashes.antt =====
-- broadcastTest.cpp: what ends the process from the thread of `looping`.
use mathlib.Core.Path.{subst}
use aggregation.Base.{
  ℕ, ◌≡◌, ◌≢◌, ◌⊎◌, refl, sym, ◌∙◌, ap, inl, inr, Bool, true, false, some, none, List, [], ◌∷◌,
  ◌==◌, if◌then◌else◌, arith, Option-cases,
}
use aggregation.Server.{
  Server, ActionPtr, null, wild, dangling, points, Payload, binary, text, Outside, Crash,
  bad_pointer, dead_iterator, on_open, on_close, on_message, take_action, handle, handle_payload,
  end_round,
}
use aggregation.Server.Threads as Threads
use aggregation.Server.Threads.{System, opens, closes, receives, takes, handles, ends, loops}
use aggregation.Server.Stages.{
  Looper, idle, found, at_entry, ready, moves, stops, look, read_entry, take_image, take_string,
  decide, deliver, stage,
}
use aggregation.Server.Stages.Threads.{
  IsOther, after, after-holds, Config, start, others, stages, Reach, here, next,
}

-- As things stand, the camera would give an image, which can be encoded, and a string, and `send`
-- would not throw.
pub record Works {C Image : Type 0} (out : Outside C Image) (s : Server) (c : C) : Type 0 where
  pub images : (out.get_image c).0 ≢ none
  pub encodes : (i : Image) → (out.get_image c).0 ≡ some i → out.imencode i ≢ none
  pub strings : (out.get_string c).0 ≢ none
  pub texts : (out.get_string c).0 ≢ some none
  pub delivers : (hdl : ℕ) → out.delivers s.sent hdl ≡ true

-- Whether a handle is among these.
abbrev listed : ℕ → List ℕ → Bool
listed k [] = false
listed k (h ∷ hs) = if k == h then true else listed k hs

-- What ends the process where all that works: a `b` that has no value yet, or points to the action of
-- a round that has ended; or an iterator to an entry that went with a connection among `hs`.
abbrev pub Lost : List ℕ → Looper → Server → Crash → Type 0
Lost hs l s e =
    ((e ≡ bad_pointer) × ((s.b ≡ wild) ⊎ (s.b ≡ dangling)))
    ⊎ ((e ≡ dead_iterator) × (k : ℕ) × (l ≡ at_entry k false) × (listed k hs ≡ true))

-- Past `find` there was an action behind `b`.
abbrev Seen : Looper → ActionPtr → Type 0
Seen idle b = Unit
Seen found b = b ≢ null
Seen (at_entry k kept) b = b ≢ null
Seen (ready p) b = b ≢ null

seen : (l : Looper) (b : ActionPtr) → b ≢ null → Seen l b
seen idle b h = tt
seen found b h = h
seen (at_entry k kept) b h = h
seen (ready p) b h = h

-- An iterator to an entry that is gone, with the connections that have been closed.
abbrev Gone : List ℕ → Looper → Type 0
Gone hs idle = Unit
Gone hs found = Unit
Gone hs (at_entry k kept) = kept ≡ false → listed k hs ≡ true
Gone hs (ready p) = Unit

module _ {C Image : Type 0} (out : Outside C Image) where
  take_image-goes_on :
      (s : Server) (c : C) (e : Crash) → Works out s c → take_image out s c ≢ stops e
  unfolding take_image
  take_image-goes_on s c e works q = elim (Option-cases (out.get_image c).0) [
    | inl n ↦ works.images n
    | inr (i, p) ↦ elim (Option-cases (out.imencode i)) [
      | inl n ↦ works.encodes i p n
      | inr (buf, m) ↦ ground (arith, q, p, m)
    ]
  ]

  take_string-goes_on :
      (s : Server) (c : C) (e : Crash) → Works out s c → take_string out s c ≢ stops e
  unfolding take_string
  take_string-goes_on s c e works q = elim (Option-cases (out.get_string c).0) [
    | inl n ↦ works.strings n
    | inr (o, p) ↦ elim (Option-cases o) [
      | inl n ↦ works.texts (p ∙ ap some n)
      | inr (str, m) ↦ ground (arith, q, p, m)
    ]
  ]

  decide-goes_on : (s : Server) (c : C) (e : Crash) → Works out s c → decide out s c ≢ stops e
  unfolding decide
  decide-goes_on s c e works q =
      ground (arith, q, take_image-goes_on s c e works, take_string-goes_on s c e works)

  abbrev IsBad : ActionPtr → Crash → Type 0
  IsBad b e = (e ≡ bad_pointer) × ((b ≡ wild) ⊎ (b ≡ dangling))

  deliver-IsBad :
      (at : ActionPtr) (p : Payload) (s : Server) (c : C) (e : Crash)
      → Works out s c
      → s.b ≡ at
      → s.b ≢ null
      → deliver out p s c ≡ stops e
      → IsBad s.b e
  unfolding deliver
  deliver-IsBad null p s c e works b v q = absurd (v b)
  deliver-IsBad wild p s c e works b v q = ground (arith, b, q)
  deliver-IsBad dangling p s c e works b v q = ground (arith, b, q)
  deliver-IsBad (points a) (binary buf) s c e works b v q =
      ground (arith, b, q, works.delivers a.hdl)
  deliver-IsBad (points a) (text str) s c e works b v q = ground (arith, b, q, works.delivers a.hdl)

  look-IsBad : (s : Server) (c : C) (e : Crash) → look out s c ≡ stops e → IsBad s.b e
  unfolding look
  look-IsBad s c e q = ground arith

  read_entry-stops :
      (kept : Bool) (s : Server) (c : C) (e : Crash)
      → read_entry kept s c ≡ stops e
      → (e ≡ dead_iterator) × (kept ≡ false)
  unfolding read_entry
  read_entry-stops true s c e q = absurd (ground arith)
  read_entry-stops false s c e q = ground arith

  stage-Lost :
      (hs : List ℕ) (l : Looper) (s : Server) (c : C) (e : Crash)
      → Works out s c
      → Seen l s.b
      → Gone hs l
      → stage out l s c ≡ stops e
      → Lost hs l s e
  unfolding stage
  stage-Lost hs idle s c e works v g q = inl (look-IsBad s c e q)
  stage-Lost hs (at_entry k kept) s c e works v g q =
      let (x, dead) = read_entry-stops kept s c e q in inr (x, k, ap (at_entry k) dead, g dead)
  stage-Lost hs found s c e works v g q = absurd (decide-goes_on s c e works q)
  stage-Lost hs (ready p) s c e works v g q = inl (deliver-IsBad s.b p s c e works refl v q)

  look-Seen :
      (at : ActionPtr) (s t : Server) (c d : C) (l : Looper)
      → s.b ≡ at
      → look out s c ≡ moves t d l
      → (t.b ≡ s.b) × ((l ≡ idle) ⊎ (s.b ≢ null))
  unfolding look
  look-Seen null s t c d l b e = (ground arith, inl (ground arith))
  look-Seen wild s t c d l b e = absurd (ground arith)
  look-Seen dangling s t c d l b e = absurd (ground arith)
  look-Seen (points a) s t c d l b e = (ground arith, inr (λ n. ground (arith, n, b)))

  decide-b : (s t : Server) (c d : C) (l : Looper) → decide out s c ≡ moves t d l → t.b ≡ s.b
  unfolding decide take_image take_string
  decide-b s t c d l e = ground arith

  deliver-b :
      (p : Payload) (s t : Server) (c d : C) (l : Looper)
      → deliver out p s c ≡ moves t d l
      → (t.b ≡ s.b) × (l ≡ idle)
  unfolding deliver
  deliver-b (binary buf) s t c d l e = ground arith
  deliver-b (text str) s t c d l e = ground arith

  entry-found :
      (kept : Bool) (s t : Server) (c d : C) (l : Looper)
      → read_entry kept s c ≡ moves t d l
      → (t ≡ s) × (l ≡ found)
  unfolding read_entry
  entry-found true s t c d l e = ground arith
  entry-found false s t c d l e = absurd (ground arith)

  -- A stage makes no iterator to an entry that is gone.
  look-kept :
      (hs : List ℕ) (s t : Server) (c d : C) (l : Looper) → look out s c ≡ moves t d l → Gone hs l
  unfolding look
  look-kept hs s t c d idle e = tt
  look-kept hs s t c d found e = tt
  look-kept hs s t c d (at_entry k kept) e = λ dead. absurd (ground (arith, dead))
  look-kept hs s t c d (ready p) e = tt

  decide-kept :
      (hs : List ℕ) (s t : Server) (c d : C) (l : Looper) → decide out s c ≡ moves t d l → Gone hs l
  unfolding decide take_image take_string
  decide-kept hs s t c d idle e = tt
  decide-kept hs s t c d found e = tt
  decide-kept hs s t c d (at_entry k kept) e = absurd (ground arith)
  decide-kept hs s t c d (ready p) e = tt

  stage-Gone :
      (hs : List ℕ) (k l : Looper) (s t : Server) (c d : C)
      → stage out k s c ≡ moves t d l
      → Gone hs l
  unfolding stage
  stage-Gone hs idle l s t c d e = look-kept hs s t c d l e
  stage-Gone hs (at_entry j kept) l s t c d e =
      subst (Gone hs) (sym (entry-found kept s t c d l e).1) tt
  stage-Gone hs found l s t c d e = decide-kept hs s t c d l e
  stage-Gone hs (ready p) l s t c d e = subst (Gone hs) (sym (deliver-b p s t c d l e).1) tt

  -- The handle whose connection a step closes, before the others.
  abbrev closes_also : {y z : System C} → Threads.Step out y z → List ℕ → List ℕ
  closes_also (opens hdl client_id e) hs = hs
  closes_also (closes hdl e) hs = hdl ∷ hs
  closes_also (receives hdl msg e) hs = hs
  closes_also (takes a s w e f) hs = hs
  closes_also (handles a s w e f) hs = hs
  closes_also (ends a w f) hs = hs
  closes_also (loops s c e f) hs = hs

  -- The handles whose connections a run closes, the latest first.
  abbrev pub closed : {y z : Config C} → Reach out y z → List ℕ
  closed here = []
  closed (next r (others w st o e)) = closes_also st (closed r)
  closed (next r (stages s c l e f)) = closed r

  after-Gone :
      {y z : System C} (st : Threads.Step out y z) (hs : List ℕ) (l : Looper)
      → Gone hs l
      → Gone (closes_also st hs) (after out st l)
  after-Gone (opens hdl client_id e) hs l g = g
  after-Gone (closes hdl e) hs idle g = tt
  after-Gone (closes hdl e) hs found g = tt
  after-Gone (closes hdl e) hs (at_entry k kept) g = λ dead. ground (arith, g, dead)
  after-Gone (closes hdl e) hs (ready p) g = tt
  after-Gone (receives hdl msg e) hs l g = g
  after-Gone (takes a s w e f) hs l g = g
  after-Gone (handles a s w e f) hs l g = g
  after-Gone (ends a w f) hs l g = g
  after-Gone (loops s c e f) hs l g = g

  stage-Seen :
      (k l : Looper) (s t : Server) (c d : C)
      → stage out k s c ≡ moves t d l
      → Seen k s.b
      → Seen l t.b
  unfolding stage
  stage-Seen idle l s t c d e v =
      let (b, o) = look-Seen s.b s t c d l refl e in
      elim o [
        | inl m ↦ subst (λ k. Seen k t.b) (sym m) tt
        | inr n ↦ seen l t.b (λ q. n (sym b ∙ q))
      ]
  stage-Seen (at_entry k kept) l s t c d e v =
      seen l t.b (λ q. v (sym (ap (λ r. r.b) (entry-found kept s t c d l e).0) ∙ q))
  stage-Seen found l s t c d e v = seen l t.b (λ q. v (sym (decide-b s t c d l e) ∙ q))
  stage-Seen (ready p) l s t c d e v = subst (λ k. Seen k t.b) (sym (deliver-b p s t c d l e).1) tt

  Other-b :
      {y z : System C} (st : Threads.Step out y z)
      → IsOther out st
      → (z.server.b ≡ y.server.b) ⊎ (z.server.b ≢ null)
  unfolding on_open on_close on_message take_action handle handle_payload end_round
  Other-b (opens hdl client_id e) o = inl (ground arith)
  Other-b (closes hdl e) o = inl (ground arith)
  Other-b (receives hdl msg e) o = inl (ground arith)
  Other-b (takes a s w e f) o = inr (λ n. ground (arith, n))
  Other-b (handles a s w e f) o = inl (ground arith)
  Other-b (ends a w f) o = inr (λ n. ground (arith, n))
  Other-b (loops s c e f) o = absurd o

  Reach-Seen :
      (b0 : ActionPtr) (c : C) {z : Config C}
      → Reach out (start b0 c) z
      → Seen z.looper z.system.server.b
  Reach-Seen b0 c here = tt
  Reach-Seen b0 c (next {z = y} r (others w st o e)) =
      let v = Reach-Seen b0 c r in
      rw e (
        after-holds out (λ l. Seen l w.server.b) (λ k a b p. p) st y.looper
          (elim (Other-b st o) [
            | inl same ↦ subst (Seen y.looper) (sym same) v
            | inr new ↦ seen y.looper w.server.b new
          ]))
  Reach-Seen b0 c (next {z = y} r (stages s d l e f)) =
      rw f (stage-Seen y.looper l y.system.server s y.system.camera d e (Reach-Seen b0 c r))

  Reach-Gone :
      (b0 : ActionPtr) (c : C) {z : Config C} (r : Reach out (start b0 c) z)
      → Gone (closed r) z.looper
  Reach-Gone b0 c here = tt
  Reach-Gone b0 c (next {z = y} r (others w st o e)) =
      rw e (after-Gone st (closed r) y.looper (Reach-Gone b0 c r))
  Reach-Gone b0 c (next {z = y} r (stages s d l e f)) =
      rw f (stage-Gone (closed r) y.looper l y.system.server s y.system.camera d e)

  -- However the threads moved between the stages of a pass of `looping`, and where in the state they
  -- have reached the camera would give an image that can be encoded and a string that is no null
  -- pointer, and `send` would not throw: the next stage ends the process only by going through `b`
  -- while `b` has no value yet or points to the action of a round that has ended, or by reading
  -- `it->second` after `on_close` has erased the entry, for a connection that was closed in the run.
  pub stops-Lost :
      (b0 : ActionPtr) (c : C) (e : Crash) {z : Config C} (r : Reach out (start b0 c) z)
      → Works out z.system.server z.system.camera
      → stage out z.looper z.system.server z.system.camera ≡ stops e
      → Lost (closed r) z.looper z.system.server e
  stops-Lost b0 c e {z} r works q =
      stage-Lost (closed r) z.looper z.system.server z.system.camera e works (Reach-Seen b0 c r)
        (Reach-Gone b0 c r) q
