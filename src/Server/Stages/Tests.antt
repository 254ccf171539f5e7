-- ===== src/Server/Stages/Tests.antt =====
-- Examples of what is proved of the stages of `looping`.
use aggregation.Base.{ℕ, ◌≤◌, ◌≡◌, refl, true, false, some, [], ◌∷◌, arith, All}
use aggregation.Server.{
  Server, Action, message, null, points, binary, Outside, init, on_open, on_message, take_action,
  handle, end_round,
}
use aggregation.Server.Registry.{find, assign}
use aggregation.Server.Threads as Threads
use aggregation.Server.Threads.{
  System, waiting, holding, finishing, opens, closes, receives, takes, handles, ends,
}
use aggregation.Server.Traffic.Origins.{Origin}
use aggregation.Server.Stages.{Looper, idle, found, at_entry, ready, stage}
use aggregation.Server.Stages.Threads.{Config, start, others, stages, Reach, here, next}
use aggregation.Server.{text, handle_payload}
use aggregation.Base.{length, ◌+◌}
use aggregation.Server.Modes.{texts, emitted, requests}
use aggregation.Server.Stages.Commands.{handled}
use aggregation.Server.Stages.Budget.{texts-handled_bound}
use aggregation.Server.Stages.Stopped.{sent-stopped_bound}
use aggregation.Server.Stages.Crashes.{Works, Lost, closed, stops-Lost}
use aggregation.Server.{dangling, bad_pointer, dead_iterator, on_close}
use aggregation.Server.Stages.{stops}
use aggregation.Server.Stages.Safety.{senders, stages_safe}

abbrev outside : Outside (Unit {0}) ℕ
outside = record {
  get_image = λ c. (some 5, c);
  imencode = λ i. some (i ∷ []);
  get_string = λ c. (some (some (b's' ∷ [])), c);
  delivers = λ l h. true;
}

abbrev asked : ℕ → Action
asked hdl = record { type = message; hdl = hdl; msg = some "start_stream" }

-- Two clients, and a message of each in the queue.
abbrev both : Server
both =
    on_message 9 "start_stream"
      (on_message 7 "start_stream" (on_open 9 "other" (on_open 7 "viewer" (init null))))

abbrev first : Server
first = record both { actions = asked 9 ∷ []; b = points (asked 7) }

abbrev second : Server
second = record first { actions = []; b = points (asked 9) }

abbrev crossed : Server
crossed = record second { sent = record { to = 9; payload = binary (5 ∷ []) } ∷ [] }

abbrev config : Server → Threads.Worker → Looper → Config (Unit {0})
config s w l = record { system = record { server = s; worker = w; camera = tt }; looper = l }

to_both : Reach outside (start null tt) (config both waiting idle)
unfolding on_open on_message init
to_both =
    next
      (next
        (next (next here (others _ (opens 7 "viewer" refl) tt refl))
          (others _ (opens 9 "other" refl) tt refl))
        (others _ (receives 7 "start_stream" refl) tt refl))
      (others _ (receives 9 "start_stream" refl) tt refl)

-- The first message is taken, and an image is ready for its client.
to_image :
    Reach outside (start null tt) (config first (holding (asked 7)) (ready (binary (5 ∷ []))))
unfolding on_open on_message init take_action stage find assign
to_image =
    next
      (next
        (next (next to_both (others _ (takes (asked 7) first refl refl refl) tt refl))
          (stages first tt (at_entry 7 true) refl refl))
        (stages first tt found refl refl))
      (stages first tt (ready (binary (5 ∷ []))) refl refl)

-- The second message is taken before the image is sent.
to_crossed : Reach outside (start null tt) (config crossed (holding (asked 9)) idle)
unfolding on_open on_message init take_action handle end_round stage find assign
to_crossed =
    next
      (next
        (next (next to_image (others _ (handles (asked 7) first refl refl refl) tt refl))
          (others _ (ends (asked 7) refl refl) tt refl))
        (others _ (takes (asked 9) second refl refl refl) tt refl))
      (stages crossed tt idle refl refl)

stages_safe_example :
    All (Origin outside (senders outside to_crossed)) crossed.sent
    × (crossed.client2_data_count ≤ crossed.max_client2_data_count)
stages_safe_example = stages_safe outside null tt (λ a. ground arith) to_crossed

-- One client asks for the data.
abbrev wanted : Action
wanted = record { type = message; hdl = 7; msg = some "get_data" }

abbrev one : Server
one = on_message 7 "get_data" (on_open 7 "viewer" (init null))

abbrev taken : Server
taken = record one { actions = []; b = points wanted }

abbrev told_to : Server
told_to = record taken { stop_streaming = true; get_data = true }

abbrev answered : Server
answered = record told_to {
  client2_data_count = 1;
  sent = record { to = 7; payload = text (b's' ∷ []) } ∷ [];
}

handle_wanted : handle wanted taken ≡ some told_to
unfolding handle handle_payload on_open on_message init
handle_wanted = ground arith

to_told_to : Reach outside (start null tt) (config told_to (finishing wanted) idle)
unfolding on_open on_message init take_action
to_told_to =
    next
      (next
        (next (next here (others _ (opens 7 "viewer" refl) tt refl))
          (others _ (receives 7 "get_data" refl) tt refl))
        (others _ (takes wanted taken refl refl refl) tt refl))
      (others _ (handles wanted told_to refl handle_wanted refl) tt refl)

to_answered : Reach outside (start null tt) (config answered (finishing wanted) idle)
unfolding on_open on_message init take_action stage find assign
to_answered =
    next
      (next
        (next (next to_told_to (stages told_to tt (at_entry 7 true) refl refl))
          (stages told_to tt found refl refl))
        (stages told_to tt (ready (text (b's' ∷ []))) refl refl))
      (stages answered tt idle refl refl)

texts-handled_bound_example : texts (emitted answered.sent) ≤ requests (handled outside to_answered)
texts-handled_bound_example = texts-handled_bound outside null tt to_answered

-- An image is ready when the stream is stopped.
abbrev halted : Server
halted = record first { stop_streaming = true }

abbrev quieted : Server
quieted = record halted { sent = record { to = 7; payload = binary (5 ∷ []) } ∷ [] }

abbrev held : Config (Unit {0})
held = config halted (finishing (asked 7)) (ready (binary (5 ∷ [])))

-- It is sent, and the next pass sends nothing.
to_quieted : Reach outside held (config quieted (finishing (asked 7)) idle)
unfolding on_open on_message init stage find assign
to_quieted =
    next
      (next
        (next (next here (stages quieted tt idle refl refl))
          (stages quieted tt (at_entry 7 true) refl refl))
        (stages quieted tt found refl refl))
      (stages quieted tt idle refl refl)

sent-stopped_bound_example : (1 ≤ length halted.sent + 1) × (quieted.stop_streaming ≡ true)
unfolding on_open on_message init to_quieted
sent-stopped_bound_example = sent-stopped_bound outside held to_quieted refl refl refl

-- The round of the message ends before the next pass.
abbrev expired : Server
expired = record answered { b = dangling }

to_expired : Reach outside (start null tt) (config expired waiting idle)
unfolding end_round
to_expired = next to_answered (others _ (ends wanted refl refl) tt refl)

expired-stops : stage outside idle expired tt ≡ stops bad_pointer
unfolding stage
expired-stops = refl

-- The connection is closed between `find` and the read of the id.
abbrev left_open : Server
left_open = on_close 7 told_to

to_dead : Reach outside (start null tt) (config left_open (finishing wanted) (at_entry 7 false))
unfolding on_open on_message init take_action stage find assign
to_dead =
    next (next to_told_to (stages told_to tt (at_entry 7 true) refl refl))
      (others _ (closes 7 refl) tt refl)

dead-stops : stage outside (at_entry 7 false) left_open tt ≡ stops dead_iterator
unfolding stage
dead-stops = refl

dead-Works : Works outside left_open tt
dead-Works = record {
  images = λ e. ground (arith, e);
  encodes = λ i q e. ground (arith, e);
  strings = λ e. ground (arith, e);
  texts = λ e. ground (arith, e);
  delivers = λ hdl. refl;
}

stops-Lost_example : Lost (closed outside to_dead) (at_entry 7 false) left_open dead_iterator
stops-Lost_example = stops-Lost outside null tt dead_iterator to_dead dead-Works dead-stops
