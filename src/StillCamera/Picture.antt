-- ===== src/StillCamera/Picture.antt =====
-- Camera2.cpp: `bufferToImage` and `getImage`. An image is its bytes, row after row.
pub mod Overflow
pub mod Shown
use aggregation.Base.{
  ℕ, suc, ◌+◌, ◌*◌, Option, none, some, List, [], ◌∷◌, ◌==◌, ltb, if◌then◌else◌, length, get_elem?,
}
use aggregation.Base.Decimal.{Bytes}
use aggregation.Sdk.{Sdk, Frame, start_grabbing, get_one_frame, mv_ok}
use aggregation.Station.{
  Station, Fault, null_pointer, over_read, overflow, M, pure, fail, ◌>>=◌, ◌>>◌, gets, call_ret,
}
use aggregation.Pointers.{copy_frame}

-- `image [i] = v`
abbrev pub set_byte : ℕ → ℕ → Bytes → Bytes
set_byte i v [] = []
set_byte ℕ.zero v (x ∷ xs) = v ∷ xs
set_byte (suc i) v (x ∷ xs) = x ∷ set_byte i v xs

pub data Painted : Type 0 where
  painted : Bytes → Painted
  breaks : Fault → Painted

abbrev pub then_paint : Painted → (Bytes → Painted) → Painted
then_paint (painted i) f = f i
then_paint (breaks e) f = breaks e

-- `image.at<cv::Vec3b> (y, x)[c] = buffer [index]`: a row has `width * channels` bytes, and `at` steps
-- over three of them for each x.
unfoldable pub set_pixel : Bytes → ℕ → ℕ → ℕ → ℕ → ℕ → Bytes → Painted
set_pixel buffer width channels y x c image =
    elim (get_elem? buffer (y * width * channels + x * channels + c)) [
      | none ↦ breaks over_read
      | some v ↦
          if ltb (y * (width * channels) + 3 * x + c) (length image)
          then painted (set_byte (y * (width * channels) + 3 * x + c) v image)
          else breaks overflow
    ]

-- The three loops, each from its variable on for the rounds that are left.
unfoldable pub channel_loop : Bytes → ℕ → ℕ → ℕ → ℕ → ℕ → ℕ → Bytes → Painted
unfolding set_pixel
channel_loop buffer width channels y x c ℕ.zero image = painted image
channel_loop buffer width channels y x c (suc n) image =
    then_paint (set_pixel buffer width channels y x c image)
      (λ i. channel_loop buffer width channels y x (suc c) n i)

unfoldable pub column_loop : Bytes → ℕ → ℕ → ℕ → ℕ → ℕ → Bytes → Painted
unfolding channel_loop
column_loop buffer width channels y x ℕ.zero image = painted image
column_loop buffer width channels y x (suc n) image =
    then_paint (channel_loop buffer width channels y x 0 channels image)
      (λ i. column_loop buffer width channels y (suc x) n i)

unfoldable pub row_loop : Bytes → ℕ → ℕ → ℕ → ℕ → Bytes → Painted
unfolding column_loop
row_loop buffer width channels y ℕ.zero image = painted image
row_loop buffer width channels y (suc n) image =
    then_paint (column_loop buffer width channels y 0 width image)
      (λ i. row_loop buffer width channels (suc y) n i)

-- `image` is what the bytes of the new `cv::Mat` happen to be.
unfoldable pub buffer_to_image : Bytes → ℕ → ℕ → ℕ → Bytes → Painted
unfolding row_loop
buffer_to_image buffer width height channels image = row_loop buffer width channels 0 height image

module _ (sdk : Sdk) (new_image : ℕ → Bytes) where
  -- The image that is shown: the function is given the height as the width, and the width as the
  -- height.
  unfoldable pub show : Frame → M Bytes
  unfolding buffer_to_image
  show f s = elim s.data_buf [
    | none ↦ fail null_pointer s
    | some b ↦
        elim (buffer_to_image b f.info.height f.info.width 1
          (new_image (f.info.width * f.info.height))) [
            | painted image ↦ pure image s
            | breaks e ↦ fail e s
          ]
  ]

  -- `none` where no frame came.
  unfoldable pub get_image : M (Option Bytes)
  unfolding copy_frame show
  get_image = do
    h ← gets (λ s. s.handle)
    g ← call_ret sdk (start_grabbing h)
    f ← gets (λ s. sdk.frame s.trace)
    c ← call_ret sdk (get_one_frame h)
    if c == mv_ok then (copy_frame f >> (show f >>= λ image. pure (some image))) else pure none
