-- ===== src/CameraLib.antt =====
-- CameraLib.cpp, `class Camera`: the text of the class in broadcastTest.cpp, but for a line that is
-- printed and `getImage`. So the other definitions are those of that class. The factor `scaleddown`,
-- 0.1 in this file, is in the functions `resize` and `scaled` of the Vision.
use aggregation.Base.{ℕ, Option, List, ◌==◌, if◌then◌else◌}
use aggregation.Base.Int.{ℤ}
use aggregation.Base.Decimal.{Bytes}
use aggregation.Sdk.{Sdk, Handle, Code, Frame, get_one_frame, mv_ok}
use aggregation.Station.{M, pure, ◌>>=◌, ◌>>◌, gets, call_ret}
use aggregation.Camera
use aggregation.Camera.Codes
use aggregation.Camera.Codes.{BcrInfo}
use aggregation.Camera.Image.{Vision, copy_frame, read_frame, resize, draw_info}
use aggregation.Camera.Report

unfoldable pub reset_data : BcrInfo
reset_data = Codes.reset_data

module _ (sdk : Sdk) where
  unfoldable pub gb2312_to_utf8 : Bytes → Bytes → M (ℤ × Bytes)
  gb2312_to_utf8 = Codes.gb2312_to_utf8 sdk

  unfoldable pub get_data : List Code → M BcrInfo
  get_data = Codes.get_data sdk

  unfoldable pub deinit_resources : M ℕ
  deinit_resources = Camera.deinit_resources sdk

  unfoldable pub init_resource : Handle → M ℕ
  init_resource = Camera.init_resource sdk

  unfoldable pub init : M ℕ
  init = Camera.init sdk

  unfoldable pub get_string : M (Option Bytes)
  get_string = Report.get_string sdk

module _ {Picture : Type 0} (cv : Vision Picture) (sdk : Sdk) where
  -- What is done with a frame.
  unfoldable pub render : Frame → M Picture
  unfolding copy_frame read_frame draw_info resize
  render f = do
    copy_frame f
    jpeg ← read_frame
    scaled_image ← resize cv (cv.imdecode jpeg)
    bi ← get_data sdk f.codes_ex2
    draw_info cv bi scaled_image

  unfoldable pub get_image : M Picture
  unfolding render
  get_image = do
    h ← gets (λ s. s.handle)
    f ← gets (λ s. sdk.frame s.trace)
    c ← call_ret sdk (get_one_frame h)
    if c == mv_ok then render f else pure cv.empty
