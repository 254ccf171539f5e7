-- ===== src/SaveImage/Tests.antt =====
-- Examples of what is proved of SaveImage.cpp.
use aggregation.Base.{◌≢◌, ◌+◌, ◌++◌, ◌<◌, ◌≡◌, refl, true, false, some, [], ◌∷◌, arith}
use aggregation.Base.Decimal.{Bytes}
use aggregation.Sdk.{Sdk, ImageInfo, Trace, jpeg, mono8}
use aggregation.Station.{Station, ok, fault, over_read, Ends, ◌>>◌}
use aggregation.Camera.Image.Copy.{HasBuffers}
use aggregation.Sample.{reader, running, eight, info_of, frame_abc}
use aggregation.SaveImage.{grab_round}
use aggregation.SaveImage.Files.{Tm, stamp, save_raw_image, save_bmp_image, save_jpeg_image}
use aggregation.SaveImage.Frames.{Wrote, grab_round-save_raw_image}
use aggregation.SaveImage.Leaks.{Closes, Keeps, Opens, Encodes, saves_close}
use aggregation.SaveImage.Keys.{key, press}
use aggregation.SaveImage.Locking.{Holds, press_eof}
use aggregation.SaveImage.Names.{IsTime, read_name, read_name-stamp}

abbrev pub noon : Trace → Tm
noon t = record { tm_year = 124; tm_mon = 0; tm_mday = 2; tm_hour = 12; tm_min = 0; tm_sec = 0 }

running-HasBuffers : HasBuffers eight (info_of 8) running
running-HasBuffers = record { buffer = refl; info = refl; size = refl }

grab_round-save_raw_image_example :
    let run = (grab_round reader (some 1) >> save_raw_image reader noon) running in
    (frame_abc.info.frame_len < running.max_image_size → Ends (λ r t. Wrote (1 ∷ 2 ∷ 3 ∷ []) t) run)
    × (frame_abc.info.frame_len ≡ running.max_image_size → Ends (λ r t. Wrote eight t) run)
    × (running.max_image_size < frame_abc.info.frame_len → run ≡ fault over_read)
grab_round-save_raw_image_example =
    grab_round-save_raw_image reader noon (λ t n. refl) (some 1) eight (info_of 8) running
      running-HasBuffers refl refl refl

running-Holds : Holds eight (info_of 8) running
running-Holds = record { buffer = refl; info = refl; fits = omega arith }

abbrev pub jpeg_info : ImageInfo
jpeg_info = record (info_of 8) { pixel_type = jpeg }

abbrev pub with_jpeg : Station
with_jpeg = record running { image_info = some jpeg_info }

pub with_jpeg-Holds : Holds eight jpeg_info with_jpeg
with_jpeg-Holds = record { buffer = refl; info = refl; fits = omega arith }

noon-IsTime : IsTime (noon [])
noon-IsTime = record {
  year = omega arith;
  mon = omega arith;
  mday = omega arith;
  hour = omega arith;
  min = omega arith;
  sec = omega arith;
}

abbrev raw : Bytes
raw = b'.' ∷ b'r' ∷ b'a' ∷ b'w' ∷ []

read_name-stamp_example : read_name (stamp (noon []) ++ raw) ≡ (
  (noon []).tm_year + 1900,
  (noon []).tm_mon + 1,
  (noon []).tm_mday,
  (noon []).tm_hour,
  (noon []).tm_min,
  (noon []).tm_sec,
  raw,
)
read_name-stamp_example = read_name-stamp (noon []) raw noon-IsTime

-- No file can be opened.
abbrev full_disk : Sdk
full_disk = record reader { succeeds = λ t c. false }

saves_close_example :
    (Ends (Closes full_disk running) (save_raw_image full_disk noon running)
      × Ends (Closes full_disk running) (save_bmp_image full_disk noon (some 1) running)
      × Ends (Closes full_disk running) (save_jpeg_image full_disk noon (some 1) running))
    × (Opens full_disk noon (some 1) eight (info_of 8) running running-Holds true
        → Ends (Keeps full_disk 0 running) (save_bmp_image full_disk noon (some 1) running)
          × Ends (Keeps full_disk 0 running) (save_jpeg_image full_disk noon (some 1) running))
    × (Opens full_disk noon (some 1) eight (info_of 8) running running-Holds false
        → Encodes full_disk noon (some 1) eight (info_of 8) running running-Holds
        → (info_of 8).pixel_type ≡ mono8
        → Ends (Keeps full_disk 1 running) (save_bmp_image full_disk noon (some 1) running)
          × Ends (Keeps full_disk 1 running) (save_jpeg_image full_disk noon (some 1) running))
saves_close_example = saves_close full_disk noon (some 1) eight (info_of 8) running running-Holds

-- Key 1, and the end of the input.
press_eof_example : press reader noon (some 1) (key b'1' ∷ []) running ≢ ok (some []) running
press_eof_example =
    press_eof reader noon (some 1) (key b'1' ∷ []) running (λ e. ground (arith, e), tt) [] running
