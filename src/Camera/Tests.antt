-- ===== src/Camera/Tests.antt =====
-- Examples of what is proved of broadcastTest.cpp: the camera.
use aggregation.Base.{◌<◌, ◌≤◌, ◌≡◌, refl, some, List, [], ◌∷◌, arith, length, memcpy}
use aggregation.Base.Int.{ℤ, i32}
use aggregation.Base.Decimal.{Bytes, decimal, print_int}
use aggregation.Station.{fresh, fault, over_read, overflow, Ends, and_then}
use aggregation.Sample.{reader, running, eight, info_of, frame_abc, code_ab}
use aggregation.Camera.{init, deinit_resources}
use aggregation.Camera.Lifecycle.{Started, init-Ends}
use aggregation.Camera.Blocks.{Freed, init-deinit_resources-Freed}
use aggregation.Camera.Codes.{get_data, max_bcr_len}
use aggregation.Camera.Codes.Overflow.{get_data_overflow_iff}
use aggregation.Camera.Codes.{max_bcr_info}
use aggregation.Sdk.{Code}
use aggregation.Base.{◌↔◌, replicate}
use aggregation.Camera.Codes.Fields.{entries, Collects, get_data-Ends}
use aggregation.Camera.Image.{Vision, fetch, polygons, get_image}
use aggregation.Camera.Image.Copy.{HasBuffers, Reads, fetch-Reads}
use aggregation.Camera.Image.Result.{get_image-Ends}
use aggregation.Camera.Report.{piece, get_string}
use aggregation.Camera.Report.Reader.{Reads as ReadsText, items, get_string-Reads}
use aggregation.Camera.Report.Text.{report, Even, get_string-report}

init-deinit_resources-Freed_example :
    Ends (Freed reader) (and_then (init reader fresh) (λ r. deinit_resources reader))
init-deinit_resources-Freed_example = init-deinit_resources-Freed reader

get_data-Ends_example :
    Ends
      (Collects reader (code_ab ∷ code_ab ∷ []) running)
      (get_data reader (code_ab ∷ code_ab ∷ []) running)
get_data-Ends_example =
    get_data-Ends reader (code_ab ∷ code_ab ∷ []) running (omega arith) (λ t. refl)

abbrev crowded : List Code
crowded = replicate 101 code_ab

get_data_overflow_iff_example :
    (get_data reader crowded running ≡ fault overflow) ↔ (max_bcr_info < length crowded)
get_data_overflow_iff_example = get_data_overflow_iff reader crowded running (λ t. refl)

running-HasBuffers : HasBuffers eight (info_of 8) running
running-HasBuffers = record { buffer = refl; info = refl; size = refl }

fetch-Reads_example :
    (frame_abc.info.frame_len < running.max_image_size
      → Reads eight
          (info_of 8)
          running
          frame_abc
          running-HasBuffers
          frame_abc.bytes
          (memcpy eight frame_abc.bytes frame_abc.info.frame_len))
    × (frame_abc.info.frame_len ≡ running.max_image_size
        → Reads eight (info_of 8) running frame_abc running-HasBuffers eight eight)
    × (running.max_image_size < frame_abc.info.frame_len
        → fetch frame_abc running ≡ fault over_read)
fetch-Reads_example = fetch-Reads eight (info_of 8) running frame_abc running-HasBuffers refl

-- An image is its bytes and the polygons on it.
abbrev Drawing : Type 0
Drawing = Bytes × List (List (ℤ × ℤ))

abbrev opencv : Vision Drawing
opencv = record {
  empty = ([], []);
  imdecode = λ b. (b, []);
  resize = λ i. some i;
  polylines = λ i p. (i.0, p ∷ i.1);
  scaled = λ z. z;
}

get_image-Ends_example :
    Ends
      (λ image t.
        (image ≡ polygons opencv (entries 0 (code_ab ∷ [])) (1 ∷ 2 ∷ 3 ∷ [], []))
        × HasBuffers (memcpy eight frame_abc.bytes 3) (info_of 3) t)
      (get_image opencv reader running)
get_image-Ends_example =
    get_image-Ends opencv reader eight (info_of 8) running (1 ∷ 2 ∷ 3 ∷ [], []) running-HasBuffers
      refl refl (omega arith) (λ e. cc) (omega arith) (λ t. refl) refl

get_string-report_example :
    (length (report (λ b. b) 90 0 (code_ab ∷ [])) < max_bcr_len
      → Ends
          (λ r t. (r ≡ some (report (λ b. b) 90 0 (code_ab ∷ []))) × Even reader running t)
          (get_string reader running))
    × (max_bcr_len ≤ length (report (λ b. b) 90 0 (code_ab ∷ []))
        → get_string reader running ≡ fault overflow)
get_string-report_example =
    get_string-report reader (λ b. b) (λ t src. (omega arith, refl)) (λ t. refl) running refl
      (omega arith, tt) (λ t n. refl)

get_string-Reads_example :
    Ends
      (ReadsText reader
        (λ b. b)
        (λ t src. (omega arith, refl))
        (items (λ b. b) 90 0 (code_ab ∷ [])))
      (get_string reader running)
unfolding report piece decimal print_int i32
get_string-Reads_example =
    get_string-Reads reader (λ b. b) (λ t src. (omega arith, refl)) running (λ t. refl) refl
      (omega arith, tt) ((ground arith, (ground arith, tt)), tt) (λ t n. refl) (omega arith)

init-Ends_example : Ends (Started reader) (init reader fresh)
init-Ends_example = init-Ends reader fresh
