-- ===== src/Server/Stages/Budget.antt =====
-- broadcastTest.cpp: how many frames the commands account for, however the threads move between the
-- stages of `looping`.
use Prim.Native.String.{String}
use aggregation.Base.{
  ℕ, ◌+◌, ◌≤◌, ◌<◌, ◌≡◌, ◌⊎◌, refl, ◌∙◌, ap, inl, inr, Bool, true, false, List, arith,
  if◌then◌else◌,
}
use aggregation.Server.{Server, ActionPtr, Payload, binary, text, Outside, init}
use aggregation.Server.Modes.{emitted, requests, texts}
use aggregation.Server.Modes.Simulation.{told_by}
use aggregation.Server.Modes.Budget.{requests-append}
use aggregation.Server.Stages.{
  Looper, idle, found, at_entry, ready, moves, read_entry, look, take_image, take_string, decide,
  deliver, stage,
}
use aggregation.Server.Stages.Threads.{
  after-holds, Config, start, Step, others, stages, Reach, here, next,
}
use aggregation.Server.Stages.Commands.{due, Told, Other-Told, told, handled}

abbrev is_text : Looper → Bool
is_text idle = false
is_text found = false
is_text (at_entry k kept) = false
is_text (ready (binary buf)) = false
is_text (ready (text str)) = true

module _ {C Image : Type 0} (out : Outside C Image) where
  record Budget (n : ℕ) (s : Server) (l : Looper) : Type 0 where
    total : texts (emitted s.sent) + due s ≤ n
    limit : s.max_client2_data_count ≡ 1
    loaded : is_text l ≡ true → (s.get_data ≡ true) × (s.client2_data_count < 1)

  take_image-cases :
      (s t : Server) (c d : C) (l : Looper)
      → take_image out s c ≡ moves t d l
      → (t ≡ s) × (is_text l ≡ false)
  unfolding take_image
  take_image-cases s t c d l e = ground arith

  take_string-same :
      (s t : Server) (c d : C) (l : Looper) → take_string out s c ≡ moves t d l → t ≡ s
  unfolding take_string
  take_string-same s t c d l e = ground arith

  decide-cases :
      (s t : Server) (c d : C) (l : Looper)
      → decide out s c ≡ moves t d l
      → ((t ≡ s) × (is_text l ≡ false))
        ⊎ (((t ≡ s) × (s.get_data ≡ true) × (s.client2_data_count < s.max_client2_data_count))
            ⊎ ((t ≡ record s { stop_streaming = false; get_data = false; client2_data_count = 0 })
                × (l ≡ idle)))
  unfolding decide
  decide-cases s t c d l e =
      let cases : (take_image out s c ≡ moves t d l)
          ⊎ (((s.get_data ≡ true)
                × (s.client2_data_count < s.max_client2_data_count)
                × (take_string out s c ≡ moves t d l))
              ⊎ (((t ≡ record s {
                stop_streaming = false;
                get_data = false;
                client2_data_count = 0;
              })
                    × (l ≡ idle))
                  ⊎ ((t ≡ s) × (l ≡ idle)))) =
        ground arith in
      elim cases [
        | inl i ↦ inl (take_image-cases s t c d l i)
        | inr (inl (g, lt, q)) ↦ inr (inl (take_string-same s t c d l q, g, lt))
        | inr (inr (inl r)) ↦ inr (inr r)
        | inr (inr (inr (u, m))) ↦ inl (u, ap is_text m)
      ]

  decide-Budget :
      (n : ℕ) (s t : Server) (c d : C) (l : Looper)
      → decide out s c ≡ moves t d l
      → Budget n s found
      → Budget n t l
  decide-Budget n s t c d l e v = elim (decide-cases s t c d l e) [
    | inl (u, m) ↦
        rw u
          (record { total = v.total; limit = v.limit; loaded = λ q. absurd (ground (arith, m, q)) })
    | inr (inl (u, g, lt)) ↦
        rw u (record {
          total = v.total;
          limit = v.limit;
          loaded = λ q. (g, omega (arith, lt, v.limit));
        })
    | inr (inr (u, m)) ↦
        rw (u, m)
          (record {
            total = omega (arith, v.total);
            limit = v.limit;
            loaded = λ q. absurd (ground (arith, q));
          })
  ]

  -- What is sent is counted, if it is a text.
  deliver-cases :
      (p : Payload) (s t : Server) (c d : C) (l : Looper)
      → deliver out p s c ≡ moves t d l
      → (l ≡ idle)
        × (t.get_data ≡ s.get_data)
        × (t.max_client2_data_count ≡ s.max_client2_data_count)
        × (t.client2_data_count
            ≡ (if is_text (ready p) then s.client2_data_count + 1 else s.client2_data_count))
        × (texts (emitted t.sent)
            ≡ (if is_text (ready p) then texts (emitted s.sent) + 1 else texts (emitted s.sent)))
  unfolding deliver emitted
  deliver-cases (binary buf) s t c d l e =
      (ground arith, ground arith, ground arith, ground arith, ground arith)
  deliver-cases (text str) s t c d l e =
      (ground arith, ground arith, ground arith, ground arith, ground arith)

  deliver-Budget :
      (n : ℕ) (p : Payload) (s t : Server) (c d : C) (l : Looper)
      → deliver out p s c ≡ moves t d l
      → Budget n s (ready p)
      → Budget n t l
  deliver-Budget n p s t c d l e v =
      let (m, g, x, k, q) = deliver-cases p s t c d l e in
      rw m (record {
        total = ground (arith, v.total, v.loaded, v.limit, g, x, k, q);
        limit = x ∙ v.limit;
        loaded = λ o. absurd (ground (arith, o));
      })

  look-cases :
      (s t : Server) (c d : C) (l : Looper)
      → look out s c ≡ moves t d l
      → (t ≡ s) × (is_text l ≡ false)
  unfolding look
  look-cases s t c d l e = ground arith

  look-Budget :
      (n : ℕ) (s t : Server) (c d : C) (l : Looper)
      → look out s c ≡ moves t d l
      → Budget n s idle
      → Budget n t l
  look-Budget n s t c d l e v =
      let (u, m) : (t ≡ s) × (is_text l ≡ false) = look-cases s t c d l e in
      rw u
        (record { total = v.total; limit = v.limit; loaded = λ q. absurd (ground (arith, m, q)) })

  entry-Budget :
      (n k : ℕ) (kept : Bool) (s t : Server) (c d : C) (l : Looper)
      → read_entry kept s c ≡ moves t d l
      → Budget n s (at_entry k kept)
      → Budget n t l
  unfolding read_entry
  entry-Budget n k true s t c d l e v =
      let (u, m) : (t ≡ s) × (is_text l ≡ false) = ground arith in
      rw u
        (record { total = v.total; limit = v.limit; loaded = λ q. absurd (ground (arith, m, q)) })
  entry-Budget n k false s t c d l e v = absurd (ground arith)

  stage-Budget :
      (n : ℕ) (k l : Looper) (s t : Server) (c d : C)
      → stage out k s c ≡ moves t d l
      → Budget n s k
      → Budget n t l
  unfolding stage
  stage-Budget n idle l s t c d e v = look-Budget n s t c d l e v
  stage-Budget n (at_entry k kept) l s t c d e v = entry-Budget n k kept s t c d l e v
  stage-Budget n found l s t c d e v = decide-Budget n s t c d l e v
  stage-Budget n (ready p) l s t c d e v = deliver-Budget n p s t c d l e v

  Told-Budget :
      (n : ℕ) (cmds : List String) (s t : Server) (l : Looper)
      → Told cmds s t
      → Budget n s l
      → Budget (requests cmds + n) t l
  Told-Budget n cmds s t l w v = record {
    total = rw w.sent (omega (arith, w.asked v.limit, v.total));
    limit = w.limit ∙ v.limit;
    loaded = λ q. (w.asks (v.loaded q).0, omega (arith, (v.loaded q).1, w.count));
  }

  Step-Budget :
      (n : ℕ) {y z : Config C} (st : Step out y z)
      → Budget n y.system.server y.looper
      → Budget (requests (told out st) + n) z.system.server z.looper
  Step-Budget n {y} (others w st o e) v = rw e (
      after-holds out (Budget _ w.server)
        (λ k a b p. record {
          total = p.total;
          limit = p.limit;
          loaded = λ q. absurd (ground (arith, q));
        })
        st y.looper
        (Told-Budget n (told_by out st) y.system.server w.server y.looper (Other-Told out st o) v))
  Step-Budget n {y} (stages s c l e f) v =
      let w = stage-Budget n y.looper l y.system.server s y.system.camera c e v in
      rw f (record { total = omega (arith, w.total); limit = w.limit; loaded = w.loaded })

  Reach-Budget :
      (n : ℕ) {y z : Config C} (r : Reach out y z)
      → Budget n y.system.server y.looper
      → Budget (requests (handled out r) + n) z.system.server z.looper
  Reach-Budget n here v = record {
    total = omega (arith, v.total);
    limit = v.limit;
    loaded = v.loaded;
  }
  Reach-Budget n (next r st) v =
      let w = Step-Budget _ st (Reach-Budget n r v) in
      record {
        total = omega (arith, w.total, requests-append (told out st) (handled out r));
        limit = w.limit;
        loaded = w.loaded;
      }

  start-Budget : (b0 : ActionPtr) (c : C) → Budget 0 (init b0) idle
  unfolding init emitted
  start-Budget b0 c = record {
    total = omega arith;
    limit = refl;
    loaded = λ q. absurd (ground (arith, q));
  }

  -- In every run from the start, where the other threads move also within a pass of `looping`, the
  -- server has sent at most as many texts as there were "get_data" among the commands that were
  -- handled.
  pub texts-handled_bound :
      (b0 : ActionPtr) (c : C) {z : Config C} (r : Reach out (start b0 c) z)
      → texts (emitted z.system.server.sent) ≤ requests (handled out r)
  texts-handled_bound b0 c r = omega (arith, (Reach-Budget 0 r (start-Budget b0 c)).total)
