-- ===== src/StillCamera.antt =====
-- Camera2.cpp, `class Camera`: `InitResource`, `init` and `DeInitResources`. Unlike in
-- broadcastTest.cpp a failed call is only printed, and `DeInitResources` frees the buffers and does
-- nothing else. The one object is local to `main`, so each read of a pointer is checked.
pub mod Leftovers
pub mod Picture
pub mod Program
mod Tests
use mathlib.Core.List.{head?}
use aggregation.Base.{ℕ}
use aggregation.Sdk.{Sdk, Handle, enum_devices, open_device, set_trigger_off}
use aggregation.Station.{Station, M, pure, ◌>>=◌, ◌>>◌, gets, modify, call_ret}
use aggregation.Camera.{join, create, reserve, catch}
use aggregation.Pointers.{free_buffers}

unfoldable pub deinit_resources : M (Unit {0})
unfolding free_buffers
deinit_resources = free_buffers

module _ (sdk : Sdk) where
  unfoldable pub init_resource : Handle → M ℕ
  unfolding reserve deinit_resources
  init_resource h s = catch sdk deinit_resources (reserve sdk h s)

  unfoldable pub connect : M Handle
  connect = do
    devices ← gets (λ s. sdk.devices s.trace)
    e ← call_ret sdk enum_devices
    c ← create sdk (join (head? devices))
    h ← gets (λ s. s.handle)
    o ← call_ret sdk (open_device h)
    pure h

  -- From InitResource on.
  unfoldable pub prepare : Handle → M (Unit {0})
  unfolding init_resource
  prepare h = do
    r ← init_resource h
    modify (λ s. record s { n_ret = r })
    t ← call_ret sdk (set_trigger_off h)
    pure tt

  unfoldable pub init : M (Unit {0})
  unfolding connect prepare
  init = connect >>= prepare
