-- ===== src/Broadcast/Tests.antt =====
-- Examples of what is proved of the server with its camera.
use aggregation.Base.{ℕ, ◌+◌, ◌≡◌, ◌<◌, length, refl, true, false, some, [], ◌∷◌, arith}
use aggregation.Base.Int.{i32}
use aggregation.Base.Decimal.{Bytes}
use aggregation.Station.{Station}
use aggregation.Sample.{reader, running, eight, info_of, code_ab}
use aggregation.Camera.Codes.Fields.{entries}
use aggregation.Camera.Image.{Vision, polygons}
use aggregation.Camera.Codes.{max_bcr_len}
use aggregation.Camera.Report.{piece}
use aggregation.Base.Decimal.{print_int}
use aggregation.Camera.Report.Text.{report}
use aggregation.Server.{Server, Action, message, points, Payload, goes_on, looping_pass}
use aggregation.Server.Registry.{find}
use aggregation.Broadcast.{with_camera}
use aggregation.Broadcast.Program.{Transport}
use aggregation.Broadcast.Answers.{IsListening, looping_pass-report, looping_pass-polygons}

abbrev asked : Action
asked = record { type = message; hdl = 7; msg = some "start_stream" }

abbrev streaming : Server
streaming = record {
  connections = (7, "viewer") ∷ [];
  actions = [];
  b = points asked;
  streaming_to_client1 = true;
  streaming_to_client2 = false;
  stop_streaming = false;
  get_data = false;
  client2_data_count = 0;
  max_client2_data_count = 1;
  sent = [];
}

abbrev answering : Server
answering = record streaming { get_data = true; stop_streaming = true }

streaming-IsListening : IsListening (λ l h. true) asked streaming
unfolding find
streaming-IsListening = record { pointed = refl; known = λ e. ground arith; delivered = λ l. refl }

answering-IsListening : IsListening (λ l h. true) asked answering
answering-IsListening = record {
  pointed = refl;
  known = streaming-IsListening.known;
  delivered = λ l. refl;
}

-- An image is its bytes, and how many polygons are on it.
abbrev opencv : Vision (Bytes × ℕ)
opencv = record {
  empty = ([], 0);
  imdecode = λ b. (b, 0);
  resize = λ i. some i;
  polylines = λ i p. (i.0, i.1 + 1);
  scaled = λ z. z;
}

report_short : length (report (λ b. b) 90 0 (code_ab ∷ [])) < max_bcr_len
unfolding report piece print_int i32
report_short = omega arith

looping_pass-report_example :
    (d : Station) × (looping_pass
        (with_camera opencv reader (λ i. some i.0) (λ l h. true))
        answering
        running
      ≡ goes_on
          (record answering {
            sent =
                record { to = 7; payload = Payload.text (report (λ b. b) 90 0 (code_ab ∷ [])) }
                ∷ [];
            client2_data_count = 0 + 1;
          })
          d)
looping_pass-report_example =
    looping_pass-report opencv reader (λ i. some i.0) (λ l h. true) (λ b. b) asked answering running
      answering-IsListening refl (omega arith) (λ t src. (omega arith, refl)) (λ t. refl)
      (λ t n. refl) refl (omega arith, tt) report_short

looping_pass-polygons_example :
    (d : Station) × (looping_pass
        (with_camera opencv reader (λ i. some i.0) (λ l h. true))
        streaming
        running
      ≡ goes_on
          (record streaming {
            sent =
                record {
                  to = 7;
                  payload =
                      Payload.binary
                        (polygons opencv (entries 0 (code_ab ∷ [])) (1 ∷ 2 ∷ 3 ∷ [], 0)).0;
                }
                ∷ [];
          })
          d)
looping_pass-polygons_example =
    looping_pass-polygons opencv reader (λ i. some i.0) (λ l h. true) asked streaming running eight
      (info_of 8) (1 ∷ 2 ∷ 3 ∷ [], 0)
      (polygons opencv (entries 0 (code_ab ∷ [])) (1 ∷ 2 ∷ 3 ∷ [], 0)).0 streaming-IsListening refl
      refl (record { buffer = refl; info = refl; size = refl }) (λ t. refl) refl refl (omega arith)
      (λ e. ground arith) (omega arith) refl refl

-- The constructor of the server throws.
abbrev no_transport : Transport
no_transport = record { init_asio = false; listen = true; start_accept = true; io_service = true }
