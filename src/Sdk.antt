-- ===== src/Sdk.antt =====
-- What the program takes from outside the repository: the code reader's SDK (declared in Include/),
-- the C library, iconv. Every call that can be seen from outside is an event; a reply may depend
-- on all the calls before it.
use aggregation.Base.{ℕ, ◌^◌, ◌-◌, Bool, Option, List}
use aggregation.Base.Int.{ℤ}
use aggregation.Base.Decimal.{Bytes}

-- `void *handle`; `none` is NULL.
abbrev pub Handle : Type 0
Handle = Option ℕ

-- Return codes, as the bits of an `int`.
abbrev pub mv_ok : ℕ
mv_ok = 0

abbrev pub mv_e_resource : ℕ
mv_e_resource = 0x8002_0005

-- Camera_PayloadSize, Camera_Width, Camera_Height
pub data Key : Type 0 where
  payload_size width_max height_max : Key

-- MV_CODEREADER_GIGE_DEVICE, MV_CODEREADER_USB_DEVICE, any other transport layer.
pub data Layer : Type 0 where
  gige usb other_layer : Layer

-- MV_CODEREADER_DEVICE_INFO, the fields that the program reads.
pub record Device : Type 0 where
  pub layer : Layer
  pub current_ip : ℕ
  pub user_defined_name : Bytes

-- Of the pixel types the program tells two apart.
pub data PixelType : Type 0 where
  mono8 jpeg other_pixel : PixelType

-- MV_CODEREADER_IMAGE_OUT_INFO_EX2 without the lists of codes.
pub record ImageInfo : Type 0 where
  pub frame_len : ℕ  -- unsigned int
  pub width : ℕ  -- unsigned short
  pub height : ℕ  -- unsigned short
  pub pixel_type : PixelType

pub record Point : Type 0 where
  pub x : ℤ
  pub y : ℤ

-- MV_CODEREADER_BCR_INFO_EX and _EX2: the code up to its NUL, its corners, its score.
pub record Code : Type 0 where
  pub text : Bytes
  pub pt0 : Point
  pub pt1 : Point
  pub pt2 : Point
  pub pt3 : Point
  pub idr_score : ℕ  -- unsigned int

-- What GetOneFrameTimeoutEx2 hands out: `pData`, the info, and the two lists of codes, each as long
-- as its `nCodeNum`.
pub record Frame : Type 0 where
  pub bytes : Bytes
  pub info : ImageInfo
  pub codes_ex : List Code
  pub codes_ex2 : List Code

pub data ImageType : Type 0 where
  image_jpeg image_bmp : ImageType

-- MV_CODEREADER_SAVE_IMAGE_PARAM_EX as it is handed in.
pub record SaveParam : Type 0 where
  pub input : Bytes  -- nDataLen bytes at pData
  pub width : ℕ
  pub height : ℕ
  pub pixel_type : PixelType
  pub buffer_size : ℕ
  pub image_type : ImageType
  pub jpg_quality : ℕ

pub data Call : Type 0 where
  enum_devices : Call
  create_handle : Option Device → Call
  open_device close_device destroy_handle : Handle → Call
  start_grabbing stop_grabbing : Handle → Call
  get_int_value : Handle → Key → Call
  set_trigger_off : Handle → Call
  get_one_frame : Handle → Call
  save_image : Handle → SaveParam → Call
  malloc_data : ℕ → Call
  malloc_info malloc_text new_param : Call
  malloc_result : ℕ → Call
  free_data free_info free_text delete_param : Call
  mutex_init mutex_destroy mutex_lock mutex_unlock : Call
  iconv_open iconv_close : Call
  fopen fwrite : Bytes → Call
  fclose : Call
  thread_create thread_join : Call

-- The calls so far, the latest first.
abbrev pub Trace : Type 0
Trace = List Call

-- `iconv_open` returns the descriptor, (iconv_t) -1 if it fails.
abbrev pub iconv_error : ℕ
iconv_error = 2 ^ 64 - 1

pub record Sdk : Type 0 where
  -- The return code of an SDK or thread call.
  pub code : Trace → Call → ℕ
  -- `nCurValue` after GetIntValue, as the bits of an `int64_t`.
  pub int_value : Trace → Key → ℕ
  -- `pDeviceInfo [0 … nDeviceNum - 1]`; an entry can be NULL.
  pub devices : Trace → List (Option Device)
  -- What CreateHandle leaves in `*handle`, from what was there.
  pub created : Trace → Handle → Handle
  pub frame : Trace → Frame
  -- Whether an allocation or `fopen` succeeds.
  pub succeeds : Trace → Call → Bool
  pub descriptor : Trace → ℕ
  -- Whether `iconv` succeeds, and the bytes that it writes.
  pub iconv : ℕ → Bytes → Bool × Bytes
  -- `nImageLen` bytes at `pImageBuffer` after SaveImage.
  pub encoded : Trace → SaveParam → Bytes
