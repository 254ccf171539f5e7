-- ===== src/Server/Modes.antt =====
-- broadcastTest.cpp: the server as a machine of three modes. The machine has no flags, no pointer and
-- no map, and of a frame that is sent it keeps the handle and whether it is an image or a text.
pub mod Simulation
pub mod Budget
use Prim.Native.String.{String}
use package.text.Mathlib.Text.{◌==◌ as str_eq}
use aggregation.Base.{
  ℕ, ◌+◌, ◌≤◌, ◌<◌, ◌≡◌, true, false, Option, none, some, List, [], ◌∷◌, ◌++◌, if◌then◌else◌,
}
use aggregation.Server.{
  Server, Action, subscribe, unsubscribe, message, ActionPtr, null, wild, dangling, points, Payload,
  binary, text, Sent,
}

-- `answering n` has sent `n` of the strings that are due.
pub data Mode : Type 0 where
  streaming stopped : Mode
  answering : ℕ → Mode

pub data Kind : Type 0 where
  image string : Kind

-- A frame that is sent, without its contents.
abbrev pub Emitted : Type 0
Emitted = ℕ × Kind

-- What a command does.
unfoldable pub next_mode : String → Mode → Mode
next_mode p streaming =
    if str_eq p "stop_streaming"
    then stopped
    else if str_eq p "start_stream"
    then streaming
    else if str_eq p "get_data"
    then answering 0
    else streaming
next_mode p stopped =
    if str_eq p "stop_streaming"
    then stopped
    else if str_eq p "start_stream"
    then streaming
    else if str_eq p "get_data"
    then answering 0
    else stopped
next_mode p (answering n) = answering n

-- One move of the machine, where `limit` strings answer a request: the commands that it obeys, and
-- what it emits.
pub data Move (limit : ℕ) : Mode → List String → List Emitted → Mode → Type 0 where
  rests : {m : Mode} → Move limit m [] [] m
  obeys : {m : Mode} (p : String) → Move limit m (p ∷ []) [] (next_mode p m)
  shows : (hdl : ℕ) → Move limit streaming [] ((hdl, image) ∷ []) streaming
  answers :
      (hdl : ℕ) {n : ℕ}
      → n < limit
      → Move limit (answering n) [] ((hdl, string) ∷ []) (answering (n + 1))
  resumes : {n : ℕ} → limit ≤ n → Move limit (answering n) [] [] streaming

-- A run from the mode `m`, each list with its latest entry first.
pub data Run (limit : ℕ) (m : Mode) : List String → List Emitted → Mode → Type 0 where
  begin : Run limit m [] [] m
  then_move :
      {m' m'' : Mode} {told cmds : List String} {out new : List Emitted}
      → Run limit m told out m'
      → Move limit m' cmds new m''
      → Run limit m (cmds ++ told) (new ++ out) m''

-- The mode that the flags and the counter stand for.
unfoldable pub mode : Server → Mode
mode s =
    if s.get_data
    then answering s.client2_data_count
    else if s.stop_streaming
    then stopped
    else streaming

abbrev pub kind : Payload → Kind
kind (binary b) = image
kind (text b) = string

unfoldable pub emitted : List Sent → List Emitted
emitted [] = []
emitted (x ∷ xs) = (x.to, kind x.payload) ∷ emitted xs

-- The command in an action that is handled.
abbrev pub command : Action → List String
command a = elim a.type [
  | subscribe ↦ []
  | unsubscribe ↦ []
  | message ↦ elim a.msg [ none ↦ [] | some p ↦ p ∷ [] ]
]

-- How many requests there are, and how many texts.
abbrev pub requests : List String → ℕ
requests [] = 0
requests (p ∷ ps) = (if str_eq p "get_data" then 1 else 0) + requests ps

abbrev pub texts : List Emitted → ℕ
texts [] = 0
texts ((h, image) ∷ xs) = texts xs
texts ((h, string) ∷ xs) = texts xs + 1
