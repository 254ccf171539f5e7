-- ===== src/StillCamera/Tests.antt =====
-- Examples of what is proved of Camera2.cpp.
use aggregation.Base.{[], ◌∷◌, ◌≡◌, refl, true, false, ◌∷◌, arith, replicate, length-replicate}
use aggregation.Sdk.{Sdk, Frame, malloc_info, malloc_data}
use aggregation.Station.{Station, fresh, fault, overflow, unset_value, Ends}
use aggregation.Pointers.{IsAssigned}
use aggregation.Camera.Image.Copy.{HasBuffers}
use aggregation.Sample.{reader, running, eight, info_of, frame_abc}
use aggregation.StillCamera.Picture.{get_image}
use aggregation.StillCamera.Picture.Shown.{get_image_overflow}
use aggregation.StillCamera.{init}
use aggregation.StillCamera.Program.{main}
use aggregation.StillCamera.Program.Unset.{NoSize, HasPayload, DataIs, main_unset}

-- Two rows of two.
abbrev square : Frame
square = record frame_abc { info = record (info_of 3) { width = 2; height = 2 } }

abbrev square_reader : Sdk
square_reader = record reader { frame = λ t. square }

-- The calls that have assigned the two pointers.
abbrev allocated : Station
allocated = record running { trace = malloc_info ∷ malloc_data 8 ∷ [] }

allocated-HasBuffers : HasBuffers eight (info_of 8) allocated
allocated-HasBuffers = record { buffer = refl; info = refl; size = refl }

get_image_overflow_example : get_image square_reader (λ n. replicate n 0) allocated ≡ fault overflow
get_image_overflow_example =
    get_image_overflow square_reader (λ n. replicate n 0) (λ n. length-replicate n 0) eight
      (info_of 8) allocated (refl, refl) allocated-HasBuffers refl refl (omega arith) (omega arith)
      (omega arith) (omega arith)

main_unset_example :
    (NoSize square_reader → main square_reader (λ n. replicate n 0) fresh ≡ fault unset_value)
    × (HasPayload square_reader
        → DataIs square_reader false
        → main square_reader (λ n. replicate n 0) fresh ≡ fault unset_value)
    × (HasPayload square_reader
        → DataIs square_reader true
        → Ends (λ r t. IsAssigned t) (init square_reader fresh))
main_unset_example = main_unset square_reader (λ n. replicate n 0) fresh (refl, refl)
