-- ===== src/ClientServer/Budget.antt =====
-- "broadcastTest copy.cpp": how many strings the requests account for.
use Prim.Native.String.{String}
use aggregation.Base.{
  ℕ, ◌+◌, ◌-◌, ◌*◌, ◌≤◌, ◌≡◌, refl, ◌∙◌, Bool, false, some, inl, inr, ◌⊎◌, List, [], ◌∷◌, ◌++◌,
  arith, ◌==◌, if◌then◌else◌, Option-cases,
}
use aggregation.Server.{Action, ActionPtr, Payload, binary, text, Sent}
use aggregation.Server.Modes.{command, requests}
use aggregation.Server.Modes.Budget.{requests-append}
use aggregation.ClientServer.{
  ClientServer, init, on_open, on_close, on_message, take_action, handle, handle_payload,
  looping_pass, goes_on,
}
use aggregation.ClientServer.Threads.{
  System, start, end_round, Step, opens, closes, receives, takes, handles, ends, loops, Reach, here,
  next,
}

-- The text "b", which stands for a string of the camera.
abbrev is_b : Payload → Bool
is_b (binary l) = false
is_b (text []) = false
is_b (text (c ∷ l)) = c == b'b'

abbrev pub bs : List Sent → ℕ
bs [] = 0
bs (x ∷ xs) = (if is_b x.payload then 1 else 0) + bs xs

-- The strings that are still due to "client2".
abbrev due : ClientServer → ℕ
due s = if s.streaming_to_client2 then s.max_client2_data_count - s.client2_data_count else 0

-- What a step may add: `n` requests, each for three strings.
record Spends (n : ℕ) (s t : ClientServer) : Type 0 where
  spent : bs t.sent + due t ≤ bs s.sent + due s + 3 * n
  limit : s.max_client2_data_count ≡ 3 → t.max_client2_data_count ≡ 3

module _ (delivers : List Sent → ℕ → Bool) where
  pass-Spends :
      (expired : ℕ → Bool) (s t : ClientServer)
      → looping_pass delivers expired s ≡ goes_on t
      → Spends 0 s t
  unfolding looping_pass
  pass-Spends expired s t e = record { spent = ground arith; limit = ground arith }

  payload-Spends :
      (p : String) (s : ClientServer)
      → s.max_client2_data_count ≡ 3
      → Spends (requests (p ∷ [])) s (handle_payload p s)
  unfolding handle_payload
  payload-Spends p s m = record { spent = ground (arith, m); limit = λ e. ground (arith, e) }

  same-Spends :
      (s t : ClientServer)
      → t.sent ≡ s.sent
      → due t ≡ due s
      → t.max_client2_data_count ≡ s.max_client2_data_count
      → Spends 0 s t
  same-Spends s t e d m = record { spent = rw (e, d) (omega arith); limit = λ h. m ∙ h }

  handle-cases :
      (a : Action) (s t : ClientServer)
      → handle a s ≡ some t
      → ((t ≡ s) × (command a ≡ []))
        ⊎ ((p : String) × (t ≡ handle_payload p s) × (command a ≡ p ∷ []))
  unfolding handle
  handle-cases a s t e = elim (Option-cases a.msg) [
    | inl m ↦ inl (ground arith)
    | inr (p, m) ↦
        let q : ((t ≡ s) × (command a ≡ [])) ⊎ ((t ≡ handle_payload p s) × (command a ≡ p ∷ [])) =
          ground arith in
        elim q [ inl u ↦ inl u | inr u ↦ inr (p, u.0, u.1) ]
  ]

  handle-Spends :
      (a : Action) (s t : ClientServer)
      → s.max_client2_data_count ≡ 3
      → handle a s ≡ some t
      → Spends (requests (command a)) s t
  handle-Spends a s t m e = elim (handle-cases a s t e) [
    | inl (u, k) ↦ rw (u, k) (same-Spends s s refl refl refl)
    | inr (p, u, k) ↦ rw (u, k) (payload-Spends p s m)
  ]

  take-Spends : (s t : ClientServer) (a : Action) → take_action s ≡ some (a, t) → Spends 0 s t
  unfolding take_action
  take-Spends s t a e = same-Spends s t (ground arith) (ground arith) (ground arith)

  -- The commands that are handled in a step, and in a run, the latest first.
  abbrev pub told_by : {y z : System} → Step delivers y z → List String
  told_by (handles a s w e f) = command a
  told_by (opens hdl client_id e) = []
  told_by (closes hdl e) = []
  told_by (receives hdl msg e) = []
  told_by (takes a s w e f) = []
  told_by (ends a w f) = []
  told_by (loops x s e f) = []

  abbrev pub handled : {y z : System} → Reach delivers y z → List String
  handled here = []
  handled (next r st) = told_by st ++ handled r

  Step-Spends :
      {y z : System} (st : Step delivers y z)
      → y.server.max_client2_data_count ≡ 3
      → Spends (requests (told_by st)) y.server z.server
  unfolding on_open on_close on_message end_round
  Step-Spends (opens hdl client_id e) m = rw e (same-Spends _ _ refl refl refl)
  Step-Spends (closes hdl e) m = rw e (same-Spends _ _ refl refl refl)
  Step-Spends (receives hdl msg e) m = rw e (same-Spends _ _ refl refl refl)
  Step-Spends {y} (takes a s w e f) m = rw f (take-Spends y.server s a e)
  Step-Spends {y} (handles a s w e f) m = rw f (handle-Spends a y.server s m e)
  Step-Spends {y} (ends a w f) m = rw f (same-Spends y.server (end_round y.server) refl refl refl)
  Step-Spends {y} (loops x s e f) m = rw f (pass-Spends x y.server s e)

  -- What has been sent and is due, in a state that is reached.
  record Spent (n : ℕ) (s : ClientServer) : Type 0 where
    total : bs s.sent + due s ≤ 3 * n
    limit : s.max_client2_data_count ≡ 3

  Reach-Spent :
      (b0 : ActionPtr) {z : System} (r : Reach delivers (start b0) z)
      → Spent (requests (handled r)) z.server
  unfolding init
  Reach-Spent b0 here = record { total = omega arith; limit = refl }
  Reach-Spent b0 (next {z = y} {w = z} r st) =
      let before = Reach-Spent b0 r in
      let step = Step-Spends st before.limit in
      record {
        total = omega (arith, before.total, step.spent, requests-append (told_by st) (handled r));
        limit = step.limit before.limit;
      }

  -- In every run of the threads of the earlier server from the start, whatever `b` holds at first, the
  -- texts "b" that it has sent are at most three for each "get_data" among the commands that were
  -- handled.
  pub bs-sent_bound :
      (b0 : ActionPtr) {z : System} (r : Reach delivers (start b0) z)
      → bs z.server.sent ≤ 3 * requests (handled r)
  bs-sent_bound b0 r = omega (arith, (Reach-Spent b0 r).total)
