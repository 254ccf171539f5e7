-- ===== src/Server/Stages/Safety.antt =====
-- broadcastTest.cpp: what holds however the threads move between the stages of `looping`.
use mathlib.Core.Path.{subst}
use aggregation.Base.{
  ℕ, ◌≤◌, ◌<◌, ◌≡◌, ◌≢◌, ◌⊎◌, refl, sym, ◌∙◌, ap, inl, inr, Bool, true, false, some, List, [], ◌∷◌,
  arith, All, Option-cases,
}
use aggregation.Server.{
  Server, Action, ActionPtr, null, wild, dangling, points, Payload, binary, text, Outside, on_open,
  on_close, on_message, take_action, handle, end_round, init,
}
use aggregation.Server.Threads as Threads
use aggregation.Server.Threads.{opens, closes, receives, takes, handles, ends, loops}
use aggregation.Server.Registry.{find}
use aggregation.Server.Traffic.Origins.{
  FromCamera, Origin, Traced, adds, same-Traced, Step-Traced, init-Traced,
}
use aggregation.Server.Stages.{
  Looper, idle, found, at_entry, ready, moves, read_entry, look, take_image, take_string, decide,
  deliver, stage,
}
use aggregation.Server.Stages.Threads.{
  IsOther, after, after-holds, Config, start, others, stages, Reach, here, next,
}

module _ {C Image : Type 0} (out : Outside C Image) where
  -- The frame that is ready comes from the camera.
  abbrev Loaded : Looper → Type 0
  Loaded idle = Unit
  Loaded found = Unit
  Loaded (at_entry k kept) = Unit
  Loaded (ready p) = FromCamera out p

  take_image-Loaded :
      (s t : Server) (c d : C) (l : Looper) → take_image out s c ≡ moves t d l → (t ≡ s) × Loaded l
  unfolding take_image
  take_image-Loaded s t c d l e = elim (Option-cases (out.get_image c).0) [
    | inl p ↦ absurd (ground arith)
    | inr (i, p) ↦ elim (Option-cases (out.imencode i)) [
      | inl q ↦ absurd (ground arith)
      | inr (buf, q) ↦
          let same : (t ≡ s) × (l ≡ ready (binary buf)) = ground arith in
          (same.0, subst Loaded (sym same.1) (c, i, p, q))
    ]
  ]

  take_string-Loaded :
      (s t : Server) (c d : C) (l : Looper) → take_string out s c ≡ moves t d l → (t ≡ s) × Loaded l
  unfolding take_string
  take_string-Loaded s t c d l e = elim (Option-cases (out.get_string c).0) [
    | inl p ↦ absurd (ground arith)
    | inr (q, p) ↦ elim (Option-cases q) [
      | inl r ↦ absurd (ground arith)
      | inr (str, r) ↦
          let same : (t ≡ s) × (l ≡ ready (text str)) = ground arith in
          (same.0, subst Loaded (sym same.1) (c, p ∙ ap some r))
    ]
  ]

  decide-Loaded :
      (s t : Server) (c d : C) (l : Looper)
      → decide out s c ≡ moves t d l
      → (t.actions ≡ s.actions) × (t.b ≡ s.b) × (t.sent ≡ s.sent) × Loaded l
  unfolding decide
  decide-Loaded s t c d l e =
      let cases : (take_image out s c ≡ moves t d l)
          ⊎ (take_string out s c ≡ moves t d l)
          ⊎ ((t.actions ≡ s.actions) × (t.b ≡ s.b) × (t.sent ≡ s.sent) × (l ≡ idle)) =
        ground arith in
      elim cases [
        | inl i ↦
            let (u, o) = take_image-Loaded s t c d l i in
            (ap (λ r. r.actions) u, ap (λ r. r.b) u, ap (λ r. r.sent) u, o)
        | inr (inl g) ↦
            let (u, o) = take_string-Loaded s t c d l g in
            (ap (λ r. r.actions) u, ap (λ r. r.b) u, ap (λ r. r.sent) u, o)
        | inr (inr (q, p, x, m)) ↦ (q, p, x, subst Loaded (sym m) tt)
      ]

  deliver-sent :
      (at : ActionPtr) (p : Payload) (s t : Server) (c d : C) (l : Looper)
      → s.b ≡ at
      → deliver out p s c ≡ moves t d l
      → (a : Action) × (s.b ≡ points a)
        × (t.actions ≡ s.actions)
        × (t.b ≡ s.b)
        × (l ≡ idle)
        × (t.sent ≡ record { to = a.hdl; payload = p } ∷ s.sent)
  unfolding deliver
  deliver-sent null p s t c d l b e = absurd (ground arith)
  deliver-sent wild p s t c d l b e = absurd (ground arith)
  deliver-sent dangling p s t c d l b e = absurd (ground arith)
  deliver-sent (points a) (binary buf) s t c d l b e =
      (a, b, ground arith, ground arith, ground arith, ground arith)
  deliver-sent (points a) (text str) s t c d l b e =
      (a, b, ground arith, ground arith, ground arith, ground arith)

  look-same :
      (s t : Server) (c d : C) (l : Looper) → look out s c ≡ moves t d l → (t ≡ s) × Loaded l
  unfolding look
  look-same s t c d l e =
      let same : (t ≡ s) × ((l ≡ idle) ⊎ ((k : ℕ) × (l ≡ at_entry k true))) = look-cases s.b refl in
      (
        same.0,
        elim same.1 [ inl m ↦ subst Loaded (sym m) tt | inr (k, m) ↦ subst Loaded (sym m) tt ],
      )
    where
      look-cases :
          (at : ActionPtr) → s.b ≡ at → (t ≡ s) × ((l ≡ idle) ⊎ ((k : ℕ) × (l ≡ at_entry k true)))
      look-cases null b = (ground arith, inl (ground arith))
      look-cases wild b = absurd (ground arith)
      look-cases dangling b = absurd (ground arith)
      look-cases (points a) b = elim (Option-cases (find a.hdl s.connections)) [
        | inl n ↦ (ground arith, inl (ground arith))
        | inr (v, n) ↦ (ground arith, inr (a.hdl, ground arith))
      ]

  read_entry-same :
      (kept : Bool) (s t : Server) (c d : C) (l : Looper)
      → read_entry kept s c ≡ moves t d l
      → (t ≡ s) × (l ≡ found)
  unfolding read_entry
  read_entry-same true s t c d l e = ground arith
  read_entry-same false s t c d l e = absurd (ground arith)

  stage-Traced :
      (hs : List ℕ) (k l : Looper) (s t : Server) (c d : C)
      → stage out k s c ≡ moves t d l
      → Traced out hs s
      → Loaded k
      → Traced out hs t × Loaded l
  unfolding stage
  stage-Traced hs idle l s t c d e v o =
      let (u, k) = look-same s t c d l e in (subst (Traced out hs) (sym u) v, k)
  stage-Traced hs (at_entry k kept) l s t c d e v o =
      let (u, m) = read_entry-same kept s t c d l e in
      (subst (Traced out hs) (sym u) v, subst Loaded (sym m) tt)
  stage-Traced hs found l s t c d e v o =
      let (q, p, x, m) = decide-Loaded s t c d l e in
      (same-Traced out hs s t v q (λ a e'. sym p ∙ e') (rw x v.origin), m)
  stage-Traced hs (ready p) l s t c d e v o =
      let (a, b, q, b', m, x) = deliver-sent s.b p s t c d l refl e in
      (
        same-Traced out hs s t v q (λ a' e'. sym b' ∙ e') (rw x ((v.pointed a b, o), v.origin)),
        subst Loaded (sym m) tt,
      )

  abbrev is_text : Looper → Bool
  is_text idle = false
  is_text found = false
  is_text (at_entry k kept) = false
  is_text (ready (binary buf)) = false
  is_text (ready (text str)) = true

  -- The counter is within its maximum, and below it while a text is ready.
  abbrev Counted : Looper → Server → Type 0
  Counted l s =
      (s.client2_data_count ≤ s.max_client2_data_count)
      × (is_text l ≡ true → s.client2_data_count < s.max_client2_data_count)

  stage-Counted :
      (k l : Looper) (s t : Server) (c d : C)
      → stage out k s c ≡ moves t d l
      → Counted k s
      → Counted l t
  unfolding stage
  stage-Counted idle l s t c d e h = ground arith
  stage-Counted (at_entry k true) l s t c d e h = ground arith
  stage-Counted (at_entry k false) l s t c d e h = absurd (ground arith)
  stage-Counted found l s t c d e h = ground arith
  stage-Counted (ready (binary buf)) l s t c d e h = ground arith
  stage-Counted (ready (text str)) l s t c d e h = ground arith

  other-counts :
      {y z : Threads.System C} (st : Threads.Step out y z)
      → IsOther out st
      → (z.server.client2_data_count ≡ y.server.client2_data_count)
        × (z.server.max_client2_data_count ≡ y.server.max_client2_data_count)
  unfolding on_open on_close on_message take_action handle end_round
  other-counts (opens hdl client_id e) i = ground arith
  other-counts (closes hdl e) i = ground arith
  other-counts (receives hdl msg e) i = ground arith
  other-counts (takes a s w e f) i = ground arith
  other-counts (handles a s w e f) i = ground arith
  other-counts (ends a w f) i = ground arith
  other-counts (loops s c e f) i = absurd i

  -- The handles behind the messages of a run, the latest first.
  abbrev pub senders : {y z : Config C} → Reach out y z → List ℕ
  senders here = []
  senders (next r (others w st o e)) = adds out st (senders r)
  senders (next r (stages s c l e f)) = senders r

  record Inv (hs : List ℕ) (y : Config C) : Type 0 where
    traced : Traced out hs y.system.server
    loaded : Loaded y.looper
    counted : Counted y.looper y.system.server

  others-Inv :
      (hs : List ℕ) (y : Config C) (w : Threads.System C) (st : Threads.Step out y.system w)
      → IsOther out st
      → Inv hs y
      → Inv (adds out st hs) (record { system = w; looper = after out st y.looper })
  others-Inv hs y w st o v =
      let (n, m) = other-counts st o in
      record {
        traced = Step-Traced out hs st v.traced;
        loaded = after-holds out Loaded (λ k a b p. p) st y.looper v.loaded;
        counted =
            after-holds out (λ l. Counted l w.server) (λ k a b p. p) st y.looper
              (omega (arith, n, m, v.counted.0), λ e. omega (arith, n, m, v.counted.1 e));
      }

  Reach-Inv :
      (b0 : ActionPtr) (c : C) {z : Config C}
      → ((a : Action) → b0 ≢ points a)
      → (r : Reach out (start b0 c) z) → Inv (senders r) z
  unfolding init
  Reach-Inv b0 c h here = record {
    traced = init-Traced out b0 h;
    loaded = tt;
    counted = (omega arith, λ e. absurd (ground arith));
  }
  Reach-Inv b0 c h (next {z = y} r (others w st o e)) =
      rw e (others-Inv (senders r) y w st o (Reach-Inv b0 c h r))
  Reach-Inv b0 c h (next {z = y} r (stages s d l e f)) =
      let v = Reach-Inv b0 c h r in
      let t =
        stage-Traced (senders r) y.looper l y.system.server s y.system.camera d e v.traced
          v.loaded in
      rw f (record {
        traced = t.0;
        loaded = t.1;
        counted = stage-Counted y.looper l y.system.server s y.system.camera d e v.counted;
      })

  -- However the threads move between the stages of a pass of `looping`, where `b` points to no action
  -- at first: each frame that the server has sent went to a handle that a message of the run came
  -- from, and is an image that the camera gave, encoded, or a string that it gave; and the counter of
  -- strings stays within its maximum.
  pub stages_safe :
      (b0 : ActionPtr) (c : C) {z : Config C}
      → ((a : Action) → b0 ≢ points a)
      → (r : Reach out (start b0 c) z)
      → All (Origin out (senders r)) z.system.server.sent
        × (z.system.server.client2_data_count ≤ z.system.server.max_client2_data_count)
  stages_safe b0 c h r = let v = Reach-Inv b0 c h r in (v.traced.origin, v.counted.0)
