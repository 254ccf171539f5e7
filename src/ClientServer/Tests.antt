-- ===== src/ClientServer/Tests.antt =====
-- Examples of what is proved of "broadcastTest copy.cpp".
use aggregation.Base.{
  ℕ, Bool, List, ◌≤◌, ◌*◌, ◌≡◌, refl, true, false, some, [], ◌∷◌, ◌++◌, arith, replicate,
}
use aggregation.Server.{Sent, Action, message, points}
use aggregation.Server.Registry.{find}
use aggregation.Server.{null}
use aggregation.Server.Registry.{assign}
use aggregation.Server.Threads.{finishing}
use aggregation.Server.Modes.{requests}
use aggregation.ClientServer.{
  ClientServer, goes_on, rounds, init, on_open, on_message, take_action, handle, looping_pass,
}
use aggregation.ClientServer.Threads.{
  System, start, opens, receives, takes, handles, loops, Reach, here, next,
}
use aggregation.ClientServer.Budget.{bs, handled, bs-sent_bound}
use aggregation.ClientServer.Turns.{IsClient2, b_to, rounds-client2}

abbrev asked : Action
asked = record { type = message; hdl = 7; msg = some "get_data" }

-- While `process_messages` holds the "get_data" of client2.
abbrev answering : ClientServer
answering = record {
  connections = (5, "client1") ∷ (7, "client2") ∷ [];
  actions = [];
  b = points asked;
  streaming_to_client1 = false;
  streaming_to_client2 = true;
  stop_streaming = false;
  client2_data_count = 0;
  max_client2_data_count = 3;
  sent = [];
}

answering-IsClient2 : IsClient2 (λ l h. true) (λ h. false) asked answering
unfolding find
answering-IsClient2 = record {
  pointed = refl;
  known = refl;
  alive = refl;
  delivered = λ l. refl;
  running = refl;
}

rounds-client2_example :
    rounds (λ l h. true) (λ h. false) 6 answering
    ≡ goes_on (record answering {
      sent = replicate 3 (b_to (λ l h. true) (λ h. false) 7) ++ [];
      client2_data_count = 3;
      streaming_to_client2 = false;
      streaming_to_client1 = true;
    })
rounds-client2_example =
    rounds-client2 (λ l h. true) (λ h. false) asked 3 2 6 answering (omega arith)
      answering-IsClient2 refl (omega arith)

abbrev deliver : List Sent → ℕ → Bool
deliver l h = true

-- "client2" has come in, and its request is taken.
abbrev taken : ClientServer
taken = record (on_open 7 "client2" (init null)) { b = points asked }

abbrev told : ClientServer
told = record taken {
  streaming_to_client1 = false;
  streaming_to_client2 = true;
  client2_data_count = 0;
}

abbrev sent_one : ClientServer
sent_one = record told { sent = b_to deliver (λ h. false) 7 ∷ []; client2_data_count = 1 }

told-handle : handle asked taken ≡ some told
unfolding handle init on_open
told-handle = refl

sent_one-pass : looping_pass deliver (λ h. false) told ≡ goes_on sent_one
unfolding looping_pass init on_open find assign
sent_one-pass = refl

abbrev last : System
last = record { server = sent_one; worker = finishing asked }

to_last : Reach deliver (start null) last
unfolding on_open on_message take_action init
to_last =
    next
      (next
        (next (next (next here (opens 7 "client2" refl)) (receives 7 "get_data" refl))
          (takes asked taken refl refl refl))
        (handles asked told refl told-handle refl))
      (loops (λ h. false) sent_one sent_one-pass refl)

bs-sent_bound_example : bs last.server.sent ≤ 3 * requests (handled deliver to_last)
bs-sent_bound_example = bs-sent_bound deliver null to_last
