-- ===== src/DisplayCamera.antt =====
-- Camera.cpp: `class Camera` and `main`. The functions have the text of broadcastTest.cpp, but the one
-- object is local, so each read of a pointer is checked; `getImage` shows the image and returns
-- nothing. What is printed and the wait for a key are left out.
pub mod Runs
pub mod Static
mod Tests
use aggregation.Base.{
  ℕ, ◌≡◌, Bool, true, false, Option, none, some, List, [], ◌∷◌, ◌==◌, not, if◌then◌else◌,
}
use aggregation.Base.Int.{ℤ}
use aggregation.Base.Decimal.{Bytes}
use aggregation.Sdk.{
  Sdk, Handle, Frame, Code, Call, stop_grabbing, close_device, destroy_handle, get_one_frame, mv_ok,
}
use aggregation.Station.{Station, M, pure, fail, unset_value, ◌>>=◌, ◌>>◌, gets, modify, call_ret}
use aggregation.Camera.{reserve, catch, teardown, open_device_step, finish_init}
use aggregation.Camera.Codes
use aggregation.Camera.Codes.{BcrInfo}
use aggregation.Camera.Image.{Vision, read_frame, resize, draw_info}
use aggregation.Camera.Report
use aggregation.Pointers.{free_buffers, copy_frame}

unfoldable pub reset_data : BcrInfo
reset_data = Codes.reset_data

module _ (sdk : Sdk) where
  unfoldable pub gb2312_to_utf8 : Bytes → Bytes → M (ℤ × Bytes)
  gb2312_to_utf8 = Codes.gb2312_to_utf8 sdk

  unfoldable pub get_data : List Code → M BcrInfo
  get_data = Codes.get_data sdk

  unfoldable pub deinit_resources : M ℕ
  unfolding free_buffers
  deinit_resources = teardown sdk stop_grabbing (
      teardown sdk close_device (
        teardown sdk destroy_handle
          (modify (λ s. record s { handle = none }) >> (free_buffers >> pure 1))))

  unfoldable pub init_resource : Handle → M ℕ
  unfolding reserve deinit_resources
  init_resource h s = catch sdk deinit_resources (reserve sdk h s)

  unfoldable pub go_on : Option Handle → M ℕ
  unfolding init_resource finish_init
  go_on none = pure 0
  go_on (some h) = do r ← init_resource h; finish_init sdk r

  unfoldable pub init : M ℕ
  unfolding open_device_step go_on
  init = do h ← open_device_step sdk; go_on h

  unfoldable pub get_string : M (Option Bytes)
  get_string = Report.get_string sdk

  abbrev read_codes : List Code → M BcrInfo
  read_codes [] = pure reset_data
  read_codes (c ∷ cs) = get_data (c ∷ cs)

  -- `capture` up to its read of the pointers of `imageData iD`, a local struct that nothing assigns:
  -- after a frame, what it does is undefined. It returns nothing.
  unfoldable pub capture : M (Unit {0})
  unfolding get_data reset_data
  capture = do
    h ← gets (λ s. s.handle)
    f ← gets (λ s. sdk.frame s.trace)
    c ← call_ret sdk (get_one_frame h)
    if c == mv_ok then (read_codes f.codes_ex2 >>= λ bi. fail unset_value) else pure tt

module _ {Picture : Type 0} (cv : Vision Picture) (sdk : Sdk) where
  -- What is done with a frame: the image that `imshow` is given.
  unfoldable pub render : Frame → M Picture
  unfolding copy_frame read_frame draw_info resize get_data
  render f = do
    copy_frame f
    jpeg ← read_frame
    scaled_image ← resize cv (cv.imdecode jpeg)
    bi ← get_data sdk f.codes_ex2
    draw_info cv bi scaled_image

  -- `none` where no frame came.
  unfoldable pub get_image : M (Option Picture)
  unfolding render
  get_image = do
    h ← gets (λ s. s.handle)
    f ← gets (λ s. sdk.frame s.trace)
    c ← call_ret sdk (get_one_frame h)
    if c == mv_ok then (render f >>= λ image. pure (some image)) else pure none

  -- What was shown, and what `DeInitResources` returned, which is not looked at.
  unfoldable pub main : M (Option Picture × ℕ)
  unfolding init get_image deinit_resources
  main = do r ← init sdk; shown ← get_image; d ← deinit_resources sdk; pure (shown, d)
