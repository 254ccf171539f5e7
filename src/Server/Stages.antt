-- ===== src/Server/Stages.antt =====
-- broadcastTest.cpp: a pass of `looping` in the stages between which the other threads can move: up to
-- `find`, the read of `it->second`, up to the frame to send, and the `send`, which reads `b->hdl` once
-- more. Of `m_server.send (b->hdl, cam1.getString (), …)` C++ leaves open which argument comes first;
-- here it is `getString ()`.
pub mod Threads
pub mod Safety
pub mod Crashes
pub mod Commands
pub mod Budget
pub mod Stopped
mod Tests
use aggregation.Base.{
  ℕ, ◌≡◌, Bool, true, false, ◌&&◌, not, Option, none, some, List, [], ◌∷◌, ltb, if◌then◌else◌,
}
use aggregation.Server.{
  Server, Action, ActionPtr, null, wild, dangling, points, Payload, binary, text, Outside, Crash,
  bad_pointer, dead_iterator, camera_fault, encode_threw, null_string, Pass, goes_on, crashes, send,
  count_string,
}
use aggregation.Server.Registry.{find}

-- Where `looping` stands: before its test of `b`; past `find` with an iterator to the entry of a
-- handle, and whether that entry is still in the map; past the read of the id; or with a frame to send.
pub data Looper : Type 0 where
  idle found : Looper
  at_entry : ℕ → Bool → Looper
  ready : Payload → Looper

pub data Stage (C : Type 0) : Type 0 where
  moves : Server → C → Looper → Stage C
  stops : Crash → Stage C

abbrev pub moved : {C : Type 0} → Looper → Pass C → Stage C
moved l (goes_on s c) = moves s c l
moved l (crashes e) = stops e

-- `std::string client_id = it->second;`
unfoldable pub read_entry : {C : Type 0} → Bool → Server → C → Stage C
read_entry true s c = moves s c found
read_entry false s c = stops dead_iterator

module _ {C Image : Type 0} (out : Outside C Image) where
  unfoldable pub look : Server → C → Stage C
  look s c = elim s.b [
    | null ↦ moves s c idle
    | wild ↦ stops bad_pointer
    | dangling ↦ stops bad_pointer
    | points a ↦ elim (find a.hdl s.connections) [
      | none ↦ moves s c idle
      | some client_id ↦ moves s c (at_entry a.hdl true)
    ]
  ]

  unfoldable pub take_image : Server → C → Stage C
  take_image s c =
      let (image, c') = out.get_image c in
      elim image [
        | none ↦ stops camera_fault
        | some i ↦ elim (out.imencode i) [
          | none ↦ stops encode_threw
          | some buf ↦ moves s c' (ready (binary buf))
        ]
      ]

  unfoldable pub take_string : Server → C → Stage C
  take_string s c =
      let (string, c') = out.get_string c in
      elim string [
        | none ↦ stops camera_fault
        | some p ↦ elim p [ none ↦ stops null_string | some str ↦ moves s c' (ready (text str)) ]
      ]

  unfoldable pub decide : Server → C → Stage C
  unfolding take_image take_string
  decide s c =
      if not s.stop_streaming && not s.get_data
      then take_image s c
      else if s.get_data
      then if ltb s.client2_data_count s.max_client2_data_count
        then take_string s c
        else moves (record s { stop_streaming = false; get_data = false; client2_data_count = 0 }) c
            idle
      else moves s c idle

  -- A text is counted once it is sent.
  abbrev counted : Payload → Pass C → Pass C
  counted (binary buf) p = p
  counted (text str) p = count_string out p

  unfoldable pub deliver : Payload → Server → C → Stage C
  unfolding send count_string
  deliver p s c = elim s.b [
    | null ↦ stops bad_pointer
    | wild ↦ stops bad_pointer
    | dangling ↦ stops bad_pointer
    | points a ↦ moved idle (counted p (send out a.hdl p s c))
  ]

  unfoldable pub stage : Looper → Server → C → Stage C
  unfolding look read_entry decide deliver
  stage idle s c = look s c
  stage (at_entry k kept) s c = read_entry kept s c
  stage found s c = decide s c
  stage (ready p) s c = deliver p s c
