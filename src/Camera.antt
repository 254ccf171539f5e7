-- ===== src/Camera.antt =====
-- broadcastTest.cpp, `class Camera`: the buffers, `init` and `DeInitResources`. What the functions
-- print is left out; the mutex is in the trace of calls.
pub mod Codes
pub mod Image
pub mod Report
pub mod Lifecycle
pub mod Blocks
mod Tests
use mathlib.Core.List.{head?}
use aggregation.Base.{
  ℕ, ◌+◌, ◌*◌, ◌%◌, ◌^◌, Bool, true, false, Option, none, some, List, ◌∷◌, ◌==◌, if◌then◌else◌, not,
  replicate,
}
use aggregation.Sdk.{
  Sdk, Handle, Key, payload_size, width_max, height_max, Device, ImageInfo, other_pixel, Call,
  enum_devices, create_handle, open_device, close_device, destroy_handle, start_grabbing,
  stop_grabbing, get_int_value, set_trigger_off, malloc_data, malloc_info, free_data, free_info,
  mutex_init, mutex_destroy, mv_ok, mv_e_resource,
}
use aggregation.Station.{
  Station, Out, ok, thrown, fault, M, pure, throw, ◌>>=◌, ◌>>◌, gets, modify, does, call, call_ret,
  tries,
}

-- IMAGE_EX_LEN
abbrev pub image_ex_len : ℕ
image_ex_len = 4096

-- The info after `memset (…, 0, …)`; 0 is no pixel type of the SDK.
abbrev pub zero_info : ImageInfo
zero_info = record { frame_len = 0; width = 0; height = 0; pixel_type = other_pixel }

abbrev pub join : Option (Option Device) → Option Device
join none = none
join (some d) = d

-- `if (NULL != g_pcDataBuf) { free (…); g_pcDataBuf = NULL; }`, and the same for the info.
unfoldable pub free_data_buf : Station → Station
free_data_buf s = elim s.data_buf [
  | none ↦ s
  | some b ↦ record s { data_buf = none; trace = free_data ∷ s.trace }
]

unfoldable pub free_image_info : Station → Station
free_image_info s = elim s.image_info [
  | none ↦ s
  | some i ↦ record s { image_info = none; trace = free_info ∷ s.trace }
]

-- The end of `DeInitResources`.
unfoldable pub free_buffers : M (Unit {0})
unfolding free_data_buf free_image_info
free_buffers = do modify free_data_buf; modify free_image_info; does mutex_destroy

module _ (sdk : Sdk) where
  -- MV_CODEREADER_GetIntValue: the return code and `nCurValue`.
  abbrev int_value : Handle → Key → M (ℕ × ℕ)
  int_value h key s =
      ok (sdk.code s.trace (get_int_value h key), sdk.int_value s.trace key)
        (record s { trace = get_int_value h key ∷ s.trace })

  -- The first half of the `try`: the size of the data buffer, an `unsigned int`. `nSensorWidth` and
  -- `nSensorHight` are the low 32 bits of their values, and so is the sum.
  unfoldable pub image_size : Handle → M ℕ
  image_size h = do
    (c, payload) ← int_value h payload_size
    if c == mv_ok then pure ((payload + image_ex_len) % 2 ^ 32) else do
      (cw, width) ← int_value h width_max
      if not (cw == mv_ok) then throw cw else do
        (ch, height) ← int_value h height_max
        if not (ch == mv_ok) then throw ch else pure ((width * height + image_ex_len) % 2 ^ 32)

  unfoldable pub alloc_data : ℕ → M (Unit {0})
  alloc_data n = do
    p ← tries sdk (malloc_data n)
    if p
        then modify (λ s. record s { data_buf = some (replicate n 0) })
        else (modify (λ s. record s { data_buf = none }) >> throw mv_e_resource)

  unfoldable pub alloc_info : M (Unit {0})
  alloc_info = do
    p ← tries sdk malloc_info
    if p
        then modify (λ s. record s { image_info = some zero_info })
        else (modify (λ s. record s { image_info = none }) >> throw mv_e_resource)

  -- The `try` of `InitResource`; it ends with `nRet` at MV_CODEREADER_OK.
  unfoldable pub reserve : Handle → M ℕ
  unfolding image_size alloc_data alloc_info
  reserve h = do
    n ← image_size h
    modify (λ s. record s { max_image_size = n })
    alloc_data n
    alloc_info
    does mutex_init
    pure mv_ok

  -- `catch (…) { DeInitResources (); return nRet; }`
  abbrev pub catch : {A : Type 0} → M A → Out ℕ → Out ℕ
  catch cleanup (ok c s) = ok c s
  catch cleanup (thrown c s) = (cleanup >>= λ _. pure c) s
  catch cleanup (fault e) = fault e

  -- One call of the teardown: on a failure `bIsNormalRun` is cleared and the function returns 0.
  abbrev pub teardown : (Handle → Call) → M ℕ → M ℕ
  teardown f rest = do
    h ← gets (λ s. s.handle)
    c ← call_ret sdk (f h)
    if not (c == mv_ok) then (modify (λ s. record s { is_normal_run = false }) >> pure 0) else rest

  unfoldable pub deinit_resources : M ℕ
  unfolding free_buffers
  deinit_resources = teardown stop_grabbing (
      teardown close_device (
        teardown destroy_handle
          (modify (λ s. record s { handle = none }) >> (free_buffers >> pure 1))))

  unfoldable pub init_resource : Handle → M ℕ
  unfolding reserve deinit_resources
  init_resource h s = catch deinit_resources (reserve h s)

  -- MV_CODEREADER_CreateHandle (&handle, device)
  abbrev pub create : Option Device → M ℕ
  create d s = ok (sdk.code s.trace (create_handle d)) (record s {
    n_ret = sdk.code s.trace (create_handle d);
    handle = sdk.created s.trace s.handle;
    trace = create_handle d ∷ s.trace;
  })

  -- The last two calls of `init`.
  unfoldable pub start : M ℕ
  start = do
    h ← gets (λ s. s.handle)
    c ← call_ret sdk (set_trigger_off h)
    if not (c == mv_ok)
        then pure 0
        else do g ← call_ret sdk (start_grabbing h); if not (g == mv_ok) then pure 0 else pure 1

  -- `init` from the return of `InitResource` on.
  unfoldable pub finish_init : ℕ → M ℕ
  unfolding start
  finish_init r = do
    modify (λ s. record s { n_ret = r })
    if not (r == mv_ok) then pure 0 else start

  -- `init` up to OpenDevice; `none` where it has returned 0. A failure of OpenDevice is printed, and
  -- `init` goes on.
  unfoldable pub open_device_step : M (Option Handle)
  open_device_step = do
    devices ← gets (λ s. sdk.devices s.trace)
    e ← call_ret sdk enum_devices
    if not (e == mv_ok) then pure none else do
      c ← create (join (head? devices))
      if not (c == mv_ok)
          then pure none
          else do h ← gets (λ s. s.handle); o ← call_ret sdk (open_device h); pure (some h)

  unfoldable pub go_on : Option Handle → M ℕ
  unfolding init_resource finish_init
  go_on none = pure 0
  go_on (some h) = do r ← init_resource h; finish_init r

  unfoldable pub init : M ℕ
  unfolding open_device_step go_on
  init = do h ← open_device_step; go_on h
