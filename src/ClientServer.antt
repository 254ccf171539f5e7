-- ===== src/ClientServer.antt =====
-- "broadcastTest copy.cpp", the earlier `class broadcast_server`: two named clients, of which one is
-- sent images and the other three strings for each request. The types of actions and messages are
-- those of the later server.
pub mod Turns
pub mod Threads
pub mod Budget
mod Tests
use Prim.Native.String.{String}
use package.text.Mathlib.Text.{◌==◌ as str_eq}
use aggregation.Base.{
  ℕ, ◌+◌, Bool, true, false, ◌&&◌, not, Option, none, some, List, [], ◌∷◌, ◌++◌, ltb, if◌then◌else◌,
}
use aggregation.Server.{
  Action, ActionType, subscribe, unsubscribe, message, ActionPtr, null, wild, dangling, points,
  Payload, text, Sent, Crash, bad_pointer, send_threw,
}
use aggregation.Server.Registry.{ConList, find, assign, erase, subscript}

pub record ClientServer : Type 0 where
  pub connections : ConList
  pub actions : List Action
  pub b : ActionPtr
  pub streaming_to_client1 : Bool
  pub streaming_to_client2 : Bool
  pub stop_streaming : Bool
  pub client2_data_count : ℕ
  pub max_client2_data_count : ℕ
  -- The frames sent so far, the latest first.
  pub sent : List Sent

-- The members as they are initialised; `b` is not.
unfoldable pub init : ActionPtr → ClientServer
init b0 = record {
  connections = [];
  actions = [];
  b = b0;
  streaming_to_client1 = true;
  streaming_to_client2 = false;
  stop_streaming = false;
  client2_data_count = 0;
  max_client2_data_count = 3;
  sent = [];
}

unfoldable pub on_open : ℕ → String → ClientServer → ClientServer
on_open hdl client_id s = record s { connections = assign hdl client_id s.connections }

unfoldable pub on_close : ℕ → ClientServer → ClientServer
on_close hdl s = record s { connections = (subscript hdl (erase hdl s.connections)).1 }

unfoldable pub on_message : ℕ → String → ClientServer → ClientServer
on_message hdl msg s = record s {
  actions = s.actions ++ record { type = message; hdl = hdl; msg = some msg } ∷ [];
}

-- `process_messages` up to `lock.unlock ()`; `none` while the thread waits.
unfoldable pub take_action : ClientServer → Option (Action × ClientServer)
take_action s = elim s.actions [
  | [] ↦ none
  | a ∷ rest ↦ some (a, record s { actions = rest; b = points a })
]

unfoldable pub handle_payload : String → ClientServer → ClientServer
handle_payload payload s =
    if str_eq payload "stop_streaming"
    then record s { stop_streaming = true }
    else if str_eq payload "get_data"
    then record s {
      streaming_to_client1 = false;
      streaming_to_client2 = true;
      client2_data_count = 0;
    }
    else if str_eq payload "start_streaming"
    then record s { stop_streaming = false; streaming_to_client1 = true }
    else s

-- The rest of the round: `none` is a call through the null `msg`.
unfoldable pub handle : Action → ClientServer → Option ClientServer
unfolding handle_payload
handle a s = elim a.type [
  | subscribe ↦ some s
  | unsubscribe ↦ some s
  | message ↦ elim a.msg [ none ↦ none | some m ↦ some (handle_payload m s) ]
]

pub data Turn : Type 0 where
  goes_on : ClientServer → Turn
  crashes : Crash → Turn

-- The transport: whether `send` to a handle returns, and whether a handle has expired.
module _ (delivers : List Sent → ℕ → Bool) (expired : ℕ → Bool) where
  unfoldable pub send : ℕ → Payload → ClientServer → Turn
  send hdl p s =
      if delivers s.sent hdl
      then goes_on (record s { sent = record { to = hdl; payload = p } ∷ s.sent })
      else crashes send_threw

  unfoldable pub count : Turn → Turn
  count (crashes e) = crashes e
  count (goes_on s) = goes_on (record s { client2_data_count = s.client2_data_count + 1 })

  -- The body of the `if` on the iterator that `find` gave.
  unfoldable pub serve : ℕ → String → ClientServer → Turn
  unfolding send count
  serve hdl client_id s =
      if str_eq client_id "client1" && s.streaming_to_client1
      then send hdl (text (b'a' ∷ [])) s
      else if str_eq client_id "client2" && s.streaming_to_client2
      then if ltb s.client2_data_count s.max_client2_data_count
        then count (send hdl (text (b'b' ∷ [])) s)
        else goes_on (record s { streaming_to_client2 = false; streaming_to_client1 = true })
      else goes_on s

  -- The branch of a null pointer or an expired handle.
  unfoldable pub reset : ClientServer → ClientServer
  reset s = record s {
    streaming_to_client1 = false;
    streaming_to_client2 = false;
    stop_streaming = false;
  }

  unfoldable pub look_up : ℕ → ClientServer → Turn
  unfolding serve reset
  look_up hdl s = if expired hdl then goes_on (reset s) else elim (find hdl s.connections) [
    | none ↦ goes_on s
    | some client_id ↦ serve hdl client_id s
  ]

  -- One round of `looping`, between two sleeps.
  unfoldable pub looping_pass : ClientServer → Turn
  unfolding look_up
  looping_pass s =
      if not s.stop_streaming
      then elim s.b [
        | null ↦ goes_on (reset s)
        | wild ↦ crashes bad_pointer
        | dangling ↦ crashes bad_pointer
        | points a ↦ look_up a.hdl s
      ]
      else goes_on s

  -- Rounds in a row.
  unfoldable pub rounds : ℕ → ClientServer → Turn
  unfolding looping_pass
  rounds ℕ.zero s = goes_on s
  rounds (ℕ.suc n) s = elim (looping_pass s) [ goes_on t ↦ rounds n t | crashes e ↦ crashes e ]
