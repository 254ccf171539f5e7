-- ===== src/StillCamera/Program.antt =====
-- Camera2.cpp: `main`, and `capture`, which nothing calls.
pub mod Unset
use mathlib.Core.List.{head?}
use aggregation.Base.{
  ℕ, ◌≡◌, Bool, true, false, Option, none, some, List, [], ◌∷◌, ◌==◌, if◌then◌else◌,
}
use aggregation.Base.Int.{ℤ}
use aggregation.Base.Decimal.{Bytes}
use aggregation.Sdk.{
  Sdk, Handle, Frame, Code, set_trigger_off, start_grabbing, get_one_frame, mv_ok,
}
use aggregation.Station.{Station, M, pure, fail, unset_value, ◌>>=◌, ◌>>◌, gets, modify, call_ret}
use aggregation.Camera.{reserve, catch}
use aggregation.Camera.Codes
use aggregation.Camera.Codes.{BcrInfo}
use aggregation.Pointers.{free_buffers, copy_frame}
use aggregation.StillCamera.{init, deinit_resources}
use aggregation.StillCamera.Picture.{get_image}

unfoldable pub reset_data : BcrInfo
reset_data = Codes.reset_data

module _ (sdk : Sdk) where
  unfoldable pub gb2312_to_utf8 : Bytes → Bytes → M (ℤ × Bytes)
  gb2312_to_utf8 = Codes.gb2312_to_utf8 sdk

  unfoldable pub get_data : List Code → M BcrInfo
  get_data = Codes.get_data sdk

  abbrev read_codes : List Code → M BcrInfo
  read_codes [] = pure reset_data
  read_codes (c ∷ cs) = get_data (c ∷ cs)

  -- `capture` up to its read of the pointers of `imageData iD`, a local struct that nothing assigns:
  -- after a frame, what it does is undefined. It returns nothing.
  unfoldable pub capture : M (Unit {0})
  unfolding get_data reset_data
  capture = do
    h ← gets (λ s. s.handle)
    g ← call_ret sdk (start_grabbing h)
    f ← gets (λ s. sdk.frame s.trace)
    c ← call_ret sdk (get_one_frame h)
    if c == mv_ok then (read_codes f.codes_ex2 >>= λ bi. fail unset_value) else pure tt

module _ (sdk : Sdk) (new_image : ℕ → Bytes) where
  -- The image that was shown.
  unfoldable pub main : M (Option Bytes)
  unfolding init get_image deinit_resources
  main = do r ← init sdk; image ← get_image sdk new_image; d ← deinit_resources; pure image
