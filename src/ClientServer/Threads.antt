-- ===== src/ClientServer/Threads.antt =====
-- "broadcastTest copy.cpp": the threads of `main` over one server. The transport's thread runs the
-- handlers, `t` runs `process_messages`, `l` runs `looping`, in any order.
use Prim.Native.String.{String}
use aggregation.Base.{ℕ, ◌≡◌, Bool, some, List}
use aggregation.Server.{Action, ActionPtr, Sent, dangling}
use aggregation.Server.Threads.{Worker, waiting, holding, finishing}
use aggregation.ClientServer.{
  ClientServer, init, on_open, on_close, on_message, take_action, handle, looping_pass, goes_on,
}

pub record System : Type 0 where
  pub server : ClientServer
  pub worker : Worker

abbrev pub start : ActionPtr → System
start b0 = record { server = init b0; worker = waiting }

-- The end of the round of `process_messages`: its local `a` is destroyed.
unfoldable pub end_round : ClientServer → ClientServer
end_round s = record s { b = dangling }

-- One step of one thread, as in the later server. Whether a handle has expired may differ from one
-- pass of `looping` to the next.
pub data Step (delivers : List Sent → ℕ → Bool) (y z : System) : Type 0 where
  opens :
      (hdl : ℕ) (client_id : String)
      → z ≡ record y { server = on_open hdl client_id y.server }
      → Step delivers y z
  closes : (hdl : ℕ) → z ≡ record y { server = on_close hdl y.server } → Step delivers y z
  receives :
      (hdl : ℕ) (msg : String)
      → z ≡ record y { server = on_message hdl msg y.server }
      → Step delivers y z
  takes :
      (a : Action) (s : ClientServer)
      → y.worker ≡ waiting
      → take_action y.server ≡ some (a, s)
      → z ≡ record { server = s; worker = holding a }
      → Step delivers y z
  handles :
      (a : Action) (s : ClientServer)
      → y.worker ≡ holding a
      → handle a y.server ≡ some s
      → z ≡ record { server = s; worker = finishing a }
      → Step delivers y z
  ends :
      (a : Action)
      → y.worker ≡ finishing a
      → z ≡ record { server = end_round y.server; worker = waiting }
      → Step delivers y z
  loops :
      (expired : ℕ → Bool) (s : ClientServer)
      → looping_pass delivers expired y.server ≡ goes_on s
      → z ≡ record y { server = s }
      → Step delivers y z

pub data Reach (delivers : List Sent → ℕ → Bool) (y : System) : System → Type 0 where
  here : Reach delivers y y
  next : {z w : System} → Reach delivers y z → Step delivers z w → Reach delivers y w
