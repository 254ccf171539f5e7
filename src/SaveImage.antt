-- ===== src/SaveImage.antt =====
-- SaveImage.cpp: the globals, `InitResource`, `DeInitResources`, the body of `GrabImageThread` and
-- `PrintDeviceInfo`. The globals and the first half of `InitResource` are as in `class Camera`, and
-- so are the definitions used for them.
pub mod Addresses
pub mod Files
pub mod Frames
pub mod Keys
pub mod Locking
pub mod Names
pub mod Leaks
pub mod Program
pub mod Threads
pub mod Ending
mod Tests
use aggregation.Base.{
  ℕ, ◌/◌, ◌%◌, ◌^◌, Option, none, some, List, ◌∷◌, ◌++◌, [], ◌==◌, if◌then◌else◌, not,
}
use aggregation.Base.Decimal.{Bytes, decimal}
use aggregation.Sdk.{Sdk, Handle, Device, Layer, gige, usb, other_layer, get_one_frame, mv_ok}
use aggregation.Station.{Station, Out, ok, thrown, fault, M, pure, ◌>>=◌, ◌>>◌, gets, call}
use aggregation.Camera.{free_buffers, reserve}
use aggregation.Camera.Image.{copy_frame}

unfoldable pub deinit_resources : M (Unit {0})
unfolding free_buffers
deinit_resources = free_buffers

-- `catch (…) { DeInitResources (); return nRet; }`
abbrev pub caught : Out ℕ → Out ℕ
caught (ok c s) = ok c s
caught (thrown c s) = (free_buffers >> pure c) s
caught (fault e) = fault e

module _ (sdk : Sdk) where
  unfoldable pub init_resource : Handle → M ℕ
  unfolding reserve deinit_resources
  init_resource h s = caught (reserve sdk h s)

  -- One round of the loop, once `g_bExit` was found clear.
  unfoldable pub grab_round : Handle → M (Unit {0})
  unfolding copy_frame
  grab_round h = do
    f ← gets (λ s. sdk.frame s.trace)
    c ← call sdk (get_one_frame h)
    if c == mv_ok then copy_frame f else pure tt

-- "%d.%d.%d.%d"
unfoldable pub address : ℕ → ℕ × ℕ × ℕ × ℕ
address ip = ((ip / 2 ^ 24) % 256, (ip / 2 ^ 16) % 256, (ip / 2 ^ 8) % 256, ip % 256)

-- What `PrintDeviceInfo` finds to print.
pub data Described : Type 0 where
  no_device : Described
  gige_device : ℕ × ℕ × ℕ × ℕ → Bytes → Described
  usb_device : Bytes → Described
  not_supported : Described

unfoldable pub describe : Layer → Device → Described
unfolding address
describe gige d = gige_device (address d.current_ip) d.user_defined_name
describe usb d = usb_device d.user_defined_name
describe other_layer d = not_supported

unfoldable pub print_device_info : Option Device → Described
unfolding describe
print_device_info none = no_device
print_device_info (some d) = describe d.layer d
