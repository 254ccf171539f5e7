-- ===== src/Server/Tests.antt =====
-- Examples of what is proved of broadcastTest.cpp: the server.
use aggregation.Base.{ℕ, ◌+◌, ◌≡◌, ◌≢◌, refl, true, false, none, some, [], ◌∷◌, ◌++◌, arith}
use aggregation.Server.{
  Server, Action, message, null, points, Outside, goes_on, crashes, bad_pointer, init, on_open,
  on_close, on_message, take_action, handle, end_round, looping_pass, Payload,
}
use aggregation.Server.Registry.{find, assign}
use aggregation.Server.Threads.{
  System, waiting, holding, finishing, start, opens, receives, takes, handles, loops, Reach, here,
  next,
}
use aggregation.Server.Closing.{closed-Reach}
use aggregation.Server.Modes.{Run, streaming, mode, emitted}
use aggregation.Server.Modes.Simulation.{handled, Reach-Run}
use aggregation.Server.Burst.{passes, IsServing, Burst, passes-Burst}
use aggregation.Server.Drain.{Drained, obeyed, held, commands, start-Drained}
use aggregation.Server.Safety.{stay, more, handled_pass}
use aggregation.Server.Order.{received, taken, taken-append-actions}

-- A camera that always has the same image and the same string, without a state of its own.
abbrev outside : Outside (Unit {0}) ℕ
outside = record {
  get_image = λ c. (some 5, c);
  imencode = λ i. some (i ∷ []);
  get_string = λ c. (some (some (b's' ∷ [])), c);
  delivers = λ l h. true;
}

no_action : (a : Action) → null ≢ points a
no_action a = ground arith

abbrev asked : Action
asked = record { type = message; hdl = 7; msg = some "get_data" }

abbrev s0 : Server
s0 = init null

abbrev s1 : Server
s1 = on_open 7 "viewer" s0

abbrev s2 : Server
s2 = on_message 7 "get_data" s1

-- The action taken.
abbrev s3 : Server
s3 = record s1 { b = points asked }

abbrev s4 : Server
s4 = record s3 { stop_streaming = true; get_data = true }

abbrev y0 : System (Unit {0})
y0 = start null tt

abbrev y3 : System (Unit {0})
y3 = record { server = s3; worker = holding asked; camera = tt }

to_y3 : Reach outside y0 y3
unfolding on_open on_message take_action init
to_y3 =
    next (next (next here (opens 7 "viewer" refl)) (receives 7 "get_data" refl))
      (takes asked s3 refl refl refl)

start-Drained_example :
    Drained outside (obeyed (held y3.worker ++ commands y3.server.actions) y3.server) y3
start-Drained_example = start-Drained outside null tt no_action to_y3

taken-append-actions_example :
    taken outside to_y3 ++ y3.server.actions ≡ y0.server.actions ++ received outside to_y3
taken-append-actions_example = taken-append-actions outside to_y3

handle_asked : handle asked s3 ≡ some s4
unfolding handle init on_open
handle_asked = refl

-- The request handled, and before its action is destroyed.
abbrev y4 : System (Unit {0})
y4 = record { server = s4; worker = finishing asked; camera = tt }

to_y4 : Reach outside y0 y4
to_y4 = next to_y3 (handles asked s4 refl handle_asked refl)

abbrev after : System (Unit {0})
after = record { server = on_open 8 "other" (end_round s4); worker = waiting; camera = tt }

handled_pass_example : looping_pass outside after.server tt ≡ crashes bad_pointer
handled_pass_example = handled_pass outside y4 (more stay (opens 8 "other" refl) refl)

closed-Reach_example : find 7 (on_close 7 s3).connections ≢ none
closed-Reach_example = closed-Reach outside y3 7 here

s4-IsServing : IsServing outside asked s4
unfolding on_open init find assign
s4-IsServing = record {
  pointed = refl;
  known = λ e. ground arith;
  delivered = λ l. refl;
  strings = λ c. (b's' ∷ [], c, refl);
}

s4_due : s4.client2_data_count + 1 ≡ s4.max_client2_data_count
unfolding on_open init
s4_due = refl

passes-Burst_example :
    (r : Burst outside asked s4 1) × (passes outside 2 (goes_on s4 tt)
      ≡ goes_on
          (record s4 {
            sent = r.new ++ s4.sent;
            stop_streaming = false;
            get_data = false;
            client2_data_count = 0;
          })
          r.camera)
passes-Burst_example = passes-Burst outside asked 1 s4 tt s4-IsServing refl s4_due

abbrev s5 : Server
s5 = record s4 {
  sent = record { to = 7; payload = Payload.text (b's' ∷ []) } ∷ s4.sent;
  client2_data_count = 1;
}

pass_s5 : looping_pass outside s4 tt ≡ goes_on s5 tt
unfolding looping_pass on_open init find assign
pass_s5 = refl

-- The string sent.
abbrev y5 : System (Unit {0})
y5 = record { server = s5; worker = finishing asked; camera = tt }

to_y5 : Reach outside y0 y5
to_y5 = next to_y4 (loops s5 tt pass_s5 refl)

Reach-Run_example :
    Run 1 streaming (handled outside to_y5) (emitted y5.server.sent) (mode y5.server)
Reach-Run_example = Reach-Run outside null tt no_action to_y5
