-- ===== src/Server.antt =====
-- broadcastTest.cpp, `class broadcast_server` and `main`: the state that the server's threads share,
-- the handlers of the web socket, the two loops, one pass of each at a time.
pub mod Registry
pub mod Threads
pub mod Closing
pub mod Burst
pub mod Safety
pub mod Drain
pub mod Order
pub mod Traffic
pub mod Modes
pub mod Stages
mod Tests
use Prim.Native.String.{String}
use package.text.Mathlib.Text.{◌==◌ as str_eq}
use aggregation.Base.{
  ℕ, ◌+◌, ◌≡◌, Bool, true, false, ◌&&◌, not, Option, none, some, List, [], ◌∷◌, ◌++◌, ltb,
  if◌then◌else◌,
}
use Registry.{ConList, find, assign, erase, subscript}

pub data ActionType : Type 0 where
  subscribe unsubscribe message : ActionType

-- The constructor with two arguments leaves `msg` a null pointer.
pub record Action : Type 0 where
  pub type : ActionType
  pub hdl : ℕ
  pub msg : Option String

-- What the member `b` may hold. The constructor does not set it, so at the start it is `null` or
-- `wild`; `process_messages` sets it to its local `a`, which dies with the round of the loop.
pub data ActionPtr : Type 0 where
  null wild dangling : ActionPtr
  points : Action → ActionPtr

pub data Payload : Type 0 where
  binary text : List ℕ → Payload

-- One successful `m_server.send (hdl, …)`.
pub record Sent : Type 0 where
  pub to : ℕ
  pub payload : Payload

pub record Server : Type 0 where
  pub connections : ConList
  pub actions : List Action
  pub b : ActionPtr
  pub streaming_to_client1 : Bool
  pub streaming_to_client2 : Bool
  pub stop_streaming : Bool
  pub get_data : Bool
  pub client2_data_count : ℕ
  pub max_client2_data_count : ℕ
  -- The frames sent so far, the latest first.
  pub sent : List Sent

-- `broadcast_server ()`, with the value that `b` happens to have.
unfoldable pub init : ActionPtr → Server
init b0 = record {
  connections = [];
  actions = [];
  b = b0;
  streaming_to_client1 = true;
  streaming_to_client2 = false;
  stop_streaming = false;
  get_data = false;
  client2_data_count = 0;
  max_client2_data_count = 1;
  sent = [];
}

-- `client_id` is what the transport gives for the header "Client-ID".
unfoldable pub on_open : ℕ → String → Server → Server
on_open hdl client_id s = record s { connections = assign hdl client_id s.connections }

-- The line that prints the id reads it by `m_connections[hdl]`.
unfoldable pub on_close : ℕ → Server → Server
on_close hdl s = record s { connections = (subscript hdl (erase hdl s.connections)).1 }

unfoldable pub on_message : ℕ → String → Server → Server
on_message hdl msg s = record s {
  actions = s.actions ++ record { type = message; hdl = hdl; msg = some msg } ∷ [];
}

-- `process_messages` up to `lock.unlock ()`; `none` while the queue is empty and the thread waits.
unfoldable pub take_action : Server → Option (Action × Server)
take_action s = elim s.actions [
  | [] ↦ none
  | a ∷ rest ↦ some (a, record s { actions = rest; b = points a })
]

unfoldable pub handle_payload : String → Server → Server
handle_payload payload s =
    if str_eq payload "stop_streaming"
    then record s { stop_streaming = true }
    else if str_eq payload "start_stream"
    then record s { stop_streaming = false }
    else if str_eq payload "get_data"
    then record s { stop_streaming = true; get_data = true }
    else s

-- The rest of the round: `none` is a call through the null `msg`.
unfoldable pub handle : Action → Server → Option Server
unfolding handle_payload
handle a s = elim a.type [
  | subscribe ↦ some s
  | unsubscribe ↦ some s
  | message ↦ elim a.msg [ none ↦ none | some m ↦ some (handle_payload m s) ]
]

-- The end of the round: the local `a` is destroyed, and `b` still points to it.
unfoldable pub end_round : Server → Server
end_round s = record s { b = dangling }

-- What the server takes of the camera (`cam1`), of OpenCV and of the transport. A camera call that
-- runs into undefined behaviour is `none`; `imencode` is `none` where it throws; a null string is
-- `some none`; `delivers` says whether `send` to a handle returns without throwing.
pub record Outside (C Image : Type 0) : Type 0 where
  pub get_image : C → Option Image × C
  pub imencode : Image → Option (List ℕ)
  pub get_string : C → Option (Option (List ℕ)) × C
  pub delivers : List Sent → ℕ → Bool

-- What one pass of `looping` comes to. Nothing catches an exception in that thread, so one ends the
-- process, as undefined behaviour may.
pub data Crash : Type 0 where
  bad_pointer dead_iterator camera_fault encode_threw null_string send_threw : Crash

pub data Pass (C : Type 0) : Type 0 where
  goes_on : Server → C → Pass C
  crashes : Crash → Pass C

module _ {C Image : Type 0} (out : Outside C Image) where
  unfoldable pub send : ℕ → Payload → Server → C → Pass C
  send hdl p s c =
      if out.delivers s.sent hdl
      then goes_on (record s { sent = record { to = hdl; payload = p } ∷ s.sent }) c
      else crashes send_threw

  unfoldable pub stream_image : ℕ → Server → C → Pass C
  unfolding send
  stream_image hdl s c =
      let (image, c') = out.get_image c in
      elim image [
        | none ↦ crashes camera_fault
        | some i ↦ elim (out.imencode i) [
          | none ↦ crashes encode_threw
          | some buf ↦ send hdl (binary buf) s c'
        ]
      ]

  unfoldable pub count_string : Pass C → Pass C
  count_string (crashes e) = crashes e
  count_string (goes_on s c) =
      goes_on (record s { client2_data_count = s.client2_data_count + 1 }) c

  unfoldable pub send_string : ℕ → Server → C → Pass C
  unfolding send count_string
  send_string hdl s c =
      let (string, c') = out.get_string c in
      elim string [
        | none ↦ crashes camera_fault
        | some p ↦ elim p [
          | none ↦ crashes null_string
          | some str ↦ count_string (send hdl (text str) s c')
        ]
      ]

  -- The body of the `if` on the iterator that `find` gave.
  unfoldable pub serve : ℕ → Server → C → Pass C
  unfolding stream_image send_string
  serve hdl s c =
      if not s.stop_streaming && not s.get_data
      then stream_image hdl s c
      else if s.get_data
      then if ltb s.client2_data_count s.max_client2_data_count
        then send_string hdl s c
        else goes_on (record s { stop_streaming = false; get_data = false; client2_data_count = 0 })
            c
      else goes_on s c

  -- One round of `looping`, between two sleeps.
  unfoldable pub looping_pass : Server → C → Pass C
  unfolding serve
  looping_pass s c = elim s.b [
    | null ↦ goes_on s c
    | wild ↦ crashes bad_pointer
    | dangling ↦ crashes bad_pointer
    | points a ↦ elim (find a.hdl s.connections) [
      | none ↦ goes_on s c
      | some client_id ↦ serve a.hdl s c
    ]
  ]
