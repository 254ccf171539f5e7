-- ===== src/SaveImage/Program.antt =====
-- SaveImage.cpp, `main`: the camera from enumeration to its release. A call that fails leaves the
-- `do … while (0)`, which is `pure true` here; `pure false` is a wait without end.
use aggregation.Base.{
  ℕ, Bool, true, false, Option, none, some, List, ◌==◌, ltb, if◌then◌else◌, not, length, get_elem?,
}
use aggregation.Base.Decimal.{Bytes}
use aggregation.Sdk.{
  Sdk, Handle, Trace, Device, enum_devices, open_device, close_device, destroy_handle,
  start_grabbing, stop_grabbing, set_trigger_off, thread_create, thread_join, mv_ok,
}
use aggregation.Station.{M, pure, ◌>>=◌, ◌>>◌, gets, modify, call, call_ret}
use aggregation.Camera.{join, create}
use aggregation.SaveImage.{init_resource, deinit_resources}
use aggregation.SaveImage.Files.{Tm}
use aggregation.SaveImage.Keys.{Event, chars, unread, handle_key_press, press_enter_to_exit}

-- `if (MV_CODEREADER_OK != nRet) break;`
abbrev pub or_break : M ℕ → M Bool → M Bool
or_break m rest = m >>= λ c. if not (c == mv_ok) then pure true else rest

-- The same, with `bIsNormalRun` cleared.
abbrev pub or_abnormal : M ℕ → M Bool → M Bool
or_abnormal m rest = m >>= λ c.
    if not (c == mv_ok)
    then (modify (λ s. record s { is_normal_run = false }) >> pure true)
    else rest

module _ (sdk : Sdk) where
  -- The calls after the thread has ended.
  unfoldable pub shut_down : Handle → M Bool
  shut_down h = or_abnormal (call_ret sdk thread_join) (
      or_abnormal (call_ret sdk (stop_grabbing h)) (
        or_abnormal (call_ret sdk (close_device h)) (
          or_abnormal (call_ret sdk (destroy_handle h))
            (modify (λ s. record s { handle = none }) >> pure true))))

  -- `if (handle != NULL) { … }`
  unfoldable pub release_handle : M (Unit {0})
  release_handle s = elim s.handle [
    | none ↦ pure tt s
    | some n ↦
        (call sdk (close_device (some n)) >>= λ c.
        call sdk (destroy_handle (some n)) >>= λ d. modify (λ t. record t { handle = none }))
          s
  ]

  -- What follows the loop; the input is what is left of it for `PressEnterToExit`.
  unfoldable pub clean_up : Bytes → M Bool
  unfolding release_handle deinit_resources press_enter_to_exit
  clean_up input = do
    release_handle
    deinit_resources
    normal ← gets (λ s. s.is_normal_run)
    if normal then pure true else press_enter_to_exit input

module _ (sdk : Sdk) (localtime : Trace → Tm) where
  unfoldable pub session : Handle → List Event → M Bool
  unfolding shut_down handle_key_press
  session h events = do
    returned ← handle_key_press sdk localtime h events
    if returned then shut_down sdk h else pure false

  -- From OpenDevice on.
  unfoldable pub use_device : Handle → List Event → M Bool
  unfolding init_resource session
  use_device h events = or_break (call_ret sdk (open_device h)) (
      or_break (init_resource sdk h) (
        or_break (call_ret sdk (set_trigger_off h)) (
          or_break (call_ret sdk (start_grabbing h))
            (or_break (call_ret sdk thread_create) (session h events)))))

  -- The index is what `scanf` leaves in `nIndex`.
  unfoldable pub choose : List (Option Device) → ℕ → List Event → M Bool
  unfolding use_device
  choose devices index events =
      if not (ltb index (length devices))
      then pure true
      else or_break (create sdk (join (get_elem? devices index)))
          (gets (λ s. s.handle) >>= λ h. use_device h events)

  -- The `do … while (0)`.
  unfoldable pub attempt : ℕ → List Event → M Bool
  unfolding choose
  attempt index events = do
    devices ← gets (λ s. sdk.devices s.trace)
    or_break (call_ret sdk enum_devices) (choose devices index events)

  -- Whether `main` returns. The events have the characters that `scanf` leaves.
  unfoldable pub main : ℕ → List Event → M Bool
  unfolding attempt clean_up
  main index events = do
    left ← attempt index events
    exit ← gets (λ s. s.exit)
    if left then clean_up sdk (unread exit (chars events)) else pure false
