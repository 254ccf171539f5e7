-- ===== src/Server/Threads.antt =====
-- broadcastTest.cpp: the threads of `main` over one server. The transport's thread runs the
-- handlers, `t` runs `process_messages`, `l` runs `looping`, in any order.
use Prim.Native.String.{String}
use aggregation.Base.{ℕ, ◌≡◌, some}
use aggregation.Server.{
  Server, Action, ActionPtr, init, on_open, on_close, on_message, take_action, handle, end_round,
  Outside, goes_on, looping_pass,
}

-- Where `process_messages` stands: before `m_actions.front ()`, past `lock.unlock ()` with the local
-- `a`, or past the tests of its message, before the end of the round.
pub data Worker : Type 0 where
  waiting : Worker
  holding finishing : Action → Worker

pub record System (C : Type 0) : Type 0 where
  pub server : Server
  pub worker : Worker
  pub camera : C

abbrev pub start : {C : Type 0} → ActionPtr → C → System C
start b0 c = record { server = init b0; worker = waiting; camera = c }

-- One step of one thread. The regions under `m_action_lock` are one step each. `looping` takes no
-- lock; one of its passes is taken as one step here, and in stages in Server.Stages.
pub data Step {C Image : Type 0} (out : Outside C Image) (y z : System C) : Type 0 where
  opens :
      (hdl : ℕ) (client_id : String)
      → z ≡ record y { server = on_open hdl client_id y.server }
      → Step out y z
  closes : (hdl : ℕ) → z ≡ record y { server = on_close hdl y.server } → Step out y z
  receives :
      (hdl : ℕ) (msg : String)
      → z ≡ record y { server = on_message hdl msg y.server }
      → Step out y z
  takes :
      (a : Action) (s : Server)
      → y.worker ≡ waiting
      → take_action y.server ≡ some (a, s)
      → z ≡ record y { server = s; worker = holding a }
      → Step out y z
  handles :
      (a : Action) (s : Server)
      → y.worker ≡ holding a
      → handle a y.server ≡ some s
      → z ≡ record y { server = s; worker = finishing a }
      → Step out y z
  ends :
      (a : Action)
      → y.worker ≡ finishing a
      → z ≡ record y { server = end_round y.server; worker = waiting }
      → Step out y z
  loops :
      (s : Server) (c : C)
      → looping_pass out y.server y.camera ≡ goes_on s c
      → z ≡ record y { server = s; camera = c }
      → Step out y z

pub data Reach {C Image : Type 0} (out : Outside C Image) (y : System C) : System C → Type 0 where
  here : Reach out y y
  next : {z w : System C} → Reach out y z → Step out z w → Reach out y w
