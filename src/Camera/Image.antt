-- ===== src/Camera/Image.antt =====
-- broadcastTest.cpp, `Camera::getImage`: one frame from the reader, copied, decoded, scaled down,
-- with a polygon round each code.
pub mod Copy
pub mod Result
use aggregation.Base.{
  ℕ, suc, ◌≡◌, Bool, true, false, ◌&&◌, Option, none, some, List, [], ◌∷◌, ◌==◌, ltb, leb, not,
  if◌then◌else◌, length, memcpy, take, get_elem?,
}
use aggregation.Base.Int.{ℤ}
use aggregation.Base.Decimal.{Bytes}
use aggregation.Sdk.{Sdk, ImageInfo, Frame, Code, get_one_frame, mutex_lock, mutex_unlock, mv_ok}
use aggregation.Station.{
  Station, M, pure, fail, Fault, null_pointer, over_read, unset_value, cv_exception, ◌>>=◌, ◌>>◌,
  gets, modify, does, call_ret,
}
use aggregation.Camera.Codes.{BcrInfo, BcrEntry, get_data}

-- What the function takes of OpenCV, over its images: the empty `cv::Mat`, `imdecode`, `resize`,
-- which throws on an empty image, `polylines`, and the product of an `int` and the `float`
-- `scaleddown`, as an `int`.
pub record Vision (Image : Type 0) : Type 0 where
  pub empty : Image
  pub imdecode : Bytes → Image
  pub resize : Image → Option Image
  pub polylines : Image → List (ℤ × ℤ) → Image
  pub scaled : ℤ → ℤ

abbrev pub is_some {ℓ} : {A : Type ℓ} → Option A → Bool
is_some none = false
is_some (some a) = true

-- The two copies between lock and unlock.
unfoldable pub copy_info : ImageInfo → Station → Station
copy_info i s = if is_some s.image_info then record s { image_info = some i } else s

abbrev overwrite : Option Bytes → Frame → Option Bytes
overwrite none f = none
overwrite (some b) f = some (memcpy b f.bytes f.info.frame_len)

unfoldable pub copy_data : Frame → Station → Station
copy_data f s =
    if is_some s.data_buf && ltb f.info.frame_len s.max_image_size
    then record s { data_buf = overwrite s.data_buf f }
    else s

unfoldable pub copy_frame : Frame → M (Unit {0})
unfolding copy_info copy_data
copy_frame f = do
  does mutex_lock
  modify (copy_info f.info)
  modify (copy_data f)
  does mutex_unlock

-- `cv::Mat (1, g_pstImageInfoEx2->nFrameLen, CV_8UC1, g_pcDataBuf)`, as `imdecode` reads it.
unfoldable pub read_frame : M Bytes
read_frame s = elim s.image_info [
  | none ↦ fail null_pointer s
  | some i ↦ elim s.data_buf [
    | none ↦ fail null_pointer s
    | some b ↦ if leb i.frame_len (length b) then pure (take i.frame_len b) s else fail over_read s
  ]
]

-- The copy of a frame, and the read of the copy.
unfoldable pub fetch : Frame → M Bytes
unfolding copy_frame read_frame
fetch f = copy_frame f >> read_frame

module _ {Image : Type 0} (cv : Vision Image) where
  abbrev corners : BcrEntry → List (ℤ × ℤ)
  corners e =
      (cv.scaled e.xpoint1, cv.scaled e.ypoint1)
      ∷ (cv.scaled e.xpoint2, cv.scaled e.ypoint2)
      ∷ (cv.scaled e.xpoint3, cv.scaled e.ypoint3)
      ∷ (cv.scaled e.xpoint4, cv.scaled e.ypoint4)
      ∷ []

  -- The polygons, one for each entry.
  unfoldable pub polygons : List BcrEntry → Image → Image
  polygons [] image = image
  polygons (e ∷ es) image = polygons es (cv.polylines image (corners e))

  -- `for (i = 0; i < BI.count; i++)`: the loop over the first `n` entries, and one past the entries
  -- that were set reads what has no value.
  unfoldable pub draw : ℕ → List BcrEntry → Image → M Image
  draw ℕ.zero es image = pure image
  draw (suc n) [] image = fail unset_value
  draw (suc n) (e ∷ es) image = draw n es (cv.polylines image (corners e))

  unfoldable pub draw_info : BcrInfo → Image → M Image
  unfolding draw
  draw_info bi image = elim bi.count [ none ↦ fail unset_value | some n ↦ draw n bi.info image ]

  unfoldable pub resize : Image → M Image
  resize image = elim (cv.resize image) [ none ↦ fail cv_exception | some i ↦ pure i ]

  module _ (sdk : Sdk) where
    -- What is done with a frame.
    unfoldable pub render : Frame → M Image
    unfolding fetch draw_info resize
    render f = do
      jpeg ← fetch f
      scaled_image ← resize (cv.imdecode jpeg)
      bi ← get_data sdk f.codes_ex2
      draw_info bi scaled_image

    unfoldable pub get_image : M Image
    unfolding render
    get_image = do
      h ← gets (λ s. s.handle)
      f ← gets (λ s. sdk.frame s.trace)
      c ← call_ret sdk (get_one_frame h)
      if c == mv_ok then render f else pure cv.empty
