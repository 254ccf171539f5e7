-- ===== src/Server/Modes/Budget.antt =====
-- broadcastTest.cpp: how many texts the requests account for.
use Prim.Native.String.{String}
use aggregation.Base.{ℕ, ◌+◌, ◌-◌, ◌*◌, ◌≤◌, ◌≡◌, ◌≢◌, List, [], ◌∷◌, ◌++◌, arith}
use aggregation.Server.{Action, ActionPtr, points, Outside}
use aggregation.Server.Threads.{System, Reach, start}
use aggregation.Server.Modes.{
  Mode, streaming, stopped, answering, Emitted, next_mode, Move, rests, obeys, shows, answers,
  resumes, image, string, Run, begin, then_move, emitted, requests, texts,
}
use aggregation.Server.Modes.Simulation.{handled, Reach-Run}

-- The strings that are still due.
abbrev due : ℕ → Mode → ℕ
due limit streaming = 0
due limit stopped = 0
due limit (answering n) = limit - n

due-next_mode :
    (limit : ℕ) (p : String) (m : Mode)
    → due limit (next_mode p m) ≤ due limit m + limit * requests (p ∷ [])
unfolding next_mode
due-next_mode limit p streaming = grind arith
due-next_mode limit p stopped = grind arith
due-next_mode limit p (answering n) = omega arith

pub requests-append : (ps qs : List String) → requests (ps ++ qs) ≡ requests ps + requests qs
requests-append [] qs = omega arith
requests-append (p ∷ ps) qs = omega (arith, requests-append ps qs)

texts-append : (xs ys : List Emitted) → texts (xs ++ ys) ≡ texts xs + texts ys
texts-append [] ys = omega arith
texts-append ((h, image) ∷ xs) ys = texts-append xs ys
texts-append ((h, string) ∷ xs) ys = omega (arith, texts-append xs ys)

Move-due :
    {limit : ℕ} {m m' : Mode} {cmds : List String} {new : List Emitted}
    → Move limit m cmds new m'
    → texts new + due limit m' ≤ due limit m + limit * requests cmds
Move-due rests = omega arith
Move-due {limit} {m} (obeys p) = omega (arith, due-next_mode limit p m)
Move-due (shows hdl) = omega arith
Move-due (answers hdl lt) = omega arith
Move-due (resumes le) = omega arith

Run-due :
    {limit : ℕ} {told : List String} {out : List Emitted} {m : Mode}
    → Run limit streaming told out m
    → texts out + due limit m ≤ limit * requests told
Run-due begin = omega arith
Run-due {limit} (then_move {told = told} {cmds = cmds} {out = out} {new = new} r v) =
    grind (arith, Run-due r, Move-due v, requests-append cmds told, texts-append new out)

module _ {C Image : Type 0} (out : Outside C Image) where
  -- In every run of the threads from the start, with a `b` that points to no action, the server has sent at most as many texts as there
  -- were "get_data" among the commands that were handled.
  texts-emitted_bound :
      (b0 : ActionPtr) (c : C) {z : System C}
      → ((a : Action) → b0 ≢ points a)
      → (r : Reach out (start b0 c) z) → texts (emitted z.server.sent) ≤ requests (handled out r)
  texts-emitted_bound b0 c h r = omega (arith, Run-due (Reach-Run out b0 c h r))
