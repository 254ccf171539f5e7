-- ===== src/Server/Stages/Commands.antt =====
-- broadcastTest.cpp: the commands that are handled while `looping` is between two stages.
use Prim.Native.String.{String}
use aggregation.Base.{
  ℕ, ◌+◌, ◌-◌, ◌≤◌, ◌≡◌, refl, inl, inr, true, some, List, [], ◌∷◌, ◌++◌, arith, if◌then◌else◌,
}
use aggregation.Server.{
  Server, Action, Outside, on_open, on_close, on_message, take_action, handle, handle_payload,
  end_round,
}
use aggregation.Server.Threads as Threads
use aggregation.Server.Threads.{System, opens, closes, receives, takes, handles, ends, loops}
use aggregation.Server.Modes.{command, requests}
use aggregation.Server.Modes.Simulation.{told_by, handle-cases}
use aggregation.Server.Stages.Threads.{IsOther, Config, Step, others, stages, Reach, here, next}

-- The texts that are still due.
abbrev pub due : Server → ℕ
due s = if s.get_data then s.max_client2_data_count - s.client2_data_count else 0

-- Nothing that counts changes, but what the commands ask for.
pub record Told (cmds : List String) (s t : Server) : Type 0 where
  pub sent : t.sent ≡ s.sent
  pub count : t.client2_data_count ≡ s.client2_data_count
  pub limit : t.max_client2_data_count ≡ s.max_client2_data_count
  pub asks : s.get_data ≡ true → t.get_data ≡ true
  pub asked : s.max_client2_data_count ≡ 1 → due t ≤ due s + requests cmds

payload-Told : (p : String) (s : Server) → Told (p ∷ []) s (handle_payload p s)
unfolding handle_payload
payload-Told p s = record {
  sent = ground arith;
  count = ground arith;
  limit = ground arith;
  asks = ground arith;
  asked = ground arith;
}

same-Told : (s : Server) → Told [] s s
same-Told s = record {
  sent = refl;
  count = refl;
  limit = refl;
  asks = λ e. e;
  asked = λ e. omega arith;
}

handle-Told : (a : Action) (s t : Server) → handle a s ≡ some t → Told (command a) s t
handle-Told a s t e = elim (handle-cases a s t e) [
  | inl (u, k) ↦ rw (u, k) (same-Told s)
  | inr (p, u, k) ↦ rw (u, k) (payload-Told p s)
]

module _ {C Image : Type 0} (out : Outside C Image) where
  pub Other-Told :
      {y z : System C} (st : Threads.Step out y z)
      → IsOther out st
      → Told (told_by out st) y.server z.server
  unfolding on_open on_close on_message take_action end_round
  Other-Told (opens hdl client_id e) o = ground arith
  Other-Told (closes hdl e) o = ground arith
  Other-Told (receives hdl msg e) o = ground arith
  Other-Told (takes a s w e f) o = ground arith
  Other-Told {y} (handles a s w e f) o = rw f (handle-Told a y.server s e)
  Other-Told (ends a w f) o = ground arith
  Other-Told (loops s c e f) o = absurd o

  -- The commands that are handled in a run, the latest first.
  abbrev pub told : {y z : Config C} → Step out y z → List String
  told (others w st o e) = told_by out st
  told (stages s c l e f) = []

  abbrev pub handled : {y z : Config C} → Reach out y z → List String
  handled here = []
  handled (next r st) = told st ++ handled r
