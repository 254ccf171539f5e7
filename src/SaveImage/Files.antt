-- ===== src/SaveImage/Files.antt =====
-- SaveImage.cpp: `SaveRawImage`, `SaveJPEGImage`, `SaveBMPImage`.
use aggregation.Base.{ℕ, ◌+◌, Bool, true, false, none, some, [], ◌∷◌, ◌++◌, ◌==◌, if◌then◌else◌}
use aggregation.Base.Decimal.{Bytes, padded}
use aggregation.Sdk.{
  Sdk, Handle, ImageInfo, PixelType, mono8, jpeg, other_pixel, ImageType, image_jpeg, image_bmp,
  SaveParam, Trace, save_image, new_param, delete_param, mutex_lock, mutex_unlock, fopen, fwrite,
  fclose, mv_ok,
}
use aggregation.Station.{M, fail, null_pointer, ◌>>=◌, ◌>>◌, gets, does, call, tries}
use aggregation.Camera.Image.{read_frame}

-- `struct tm`
pub record Tm : Type 0 where
  pub tm_year : ℕ
  pub tm_mon : ℕ
  pub tm_mday : ℕ
  pub tm_hour : ℕ
  pub tm_min : ℕ
  pub tm_sec : ℕ

-- "%.4d%.2d%.2d%.2d%.2d%.2d"
unfoldable pub stamp : Tm → Bytes
unfolding padded
stamp t =
    padded 4 (t.tm_year + 1900)
    ++ padded 2 (t.tm_mon + 1)
    ++ padded 2 t.tm_mday
    ++ padded 2 t.tm_hour
    ++ padded 2 t.tm_min
    ++ padded 2 t.tm_sec

abbrev pub raw_ext : Bytes
raw_ext = b'.' ∷ b'r' ∷ b'a' ∷ b'w' ∷ []

abbrev pub jpg_ext : Bytes
jpg_ext = b'.' ∷ b'j' ∷ b'p' ∷ b'g' ∷ []

abbrev pub bmp_ext : Bytes
bmp_ext = b'.' ∷ b'b' ∷ b'm' ∷ b'p' ∷ []

abbrev pub is_mono8 : PixelType → Bool
is_mono8 mono8 = true
is_mono8 jpeg = false
is_mono8 other_pixel = false

abbrev pub is_jpeg : PixelType → Bool
is_jpeg mono8 = false
is_jpeg jpeg = true
is_jpeg other_pixel = false

-- `g_pstImageInfoEx2->…`
abbrev info_then : {A : Type 0} → (ImageInfo → M A) → M A
info_then k s = elim s.image_info [ none ↦ fail null_pointer s | some i ↦ k i s ]

-- `*pstParam` as it is handed in; SaveImage reads the data in it.
abbrev pub param : ImageType → ImageInfo → ℕ → Bytes → SaveParam
param type i size input = record {
  input = input;
  width = i.width;
  height = i.height;
  pixel_type = i.pixel_type;
  buffer_size = size;
  image_type = type;
  jpg_quality = 60;
}

-- `localtime` of the time at which it is called.
module _ (sdk : Sdk) (localtime : Trace → Tm) where
  -- `fopen (filename, "wb+")`, under the name that the time gives.
  abbrev open_file : Bytes → M Bool
  open_file ext = do t ← gets (λ s. localtime s.trace); tries sdk (fopen (stamp t ++ ext))

  unfoldable pub raw_file : M (Unit {0})
  unfolding stamp read_frame
  raw_file = do
    pfile ← open_file raw_ext
    if pfile
        then (read_frame >>= λ bytes. does (fwrite bytes) >> (does mutex_unlock >> does fclose))
        else does mutex_unlock

  unfoldable pub save_raw_image : M (Unit {0})
  unfolding raw_file
  save_raw_image = do
    does mutex_lock
    b ← gets (λ s. s.data_buf)
    elim b [
      | none ↦ does mutex_unlock
      | some bytes ↦ info_then (λ i. if is_mono8 i.pixel_type then raw_file else does mutex_unlock)
    ]

  -- From `fopen` on, once the image is encoded.
  unfoldable pub encoded_out : Bytes → Bytes → M (Unit {0})
  unfolding stamp
  encoded_out ext out = do
    pfile ← open_file ext
    if pfile
        then (does (fwrite out) >> (does mutex_unlock >> (does delete_param >> does fclose)))
        else does mutex_unlock

  -- From `new` on: the image is encoded, then written.
  unfoldable pub encoded_file : ImageType → Bytes → Handle → ImageInfo → M (Unit {0})
  unfolding encoded_out read_frame
  encoded_file type ext h i = do
    does new_param
    size ← gets (λ s. s.max_image_size)
    input ← read_frame
    out ← gets (λ s. sdk.encoded s.trace (param type i size input))
    c ← call sdk (save_image h (param type i size input))
    if c == mv_ok then encoded_out ext out else (does mutex_unlock >> does delete_param)

  -- The branch of `SaveJPEGImage` for a frame that is a JPEG.
  unfoldable pub jpeg_file : M (Unit {0})
  unfolding stamp read_frame
  jpeg_file = do
    pfile ← open_file jpg_ext
    if pfile
        then (read_frame >>= λ bytes. does (fwrite bytes) >> does fclose)
        else does mutex_unlock

  unfoldable pub save_jpeg_image : Handle → M (Unit {0})
  unfolding encoded_file jpeg_file
  save_jpeg_image h = do
    does mutex_lock
    b ← gets (λ s. s.data_buf)
    elim b [
      | none ↦ does mutex_unlock
      | some bytes ↦
          info_then
            (λ i. if is_jpeg i.pixel_type then jpeg_file else encoded_file image_jpeg jpg_ext h i)
    ]

  unfoldable pub save_bmp_image : Handle → M (Unit {0})
  unfolding encoded_file
  save_bmp_image h = do
    does mutex_lock
    b ← gets (λ s. s.data_buf)
    elim b [
      | none ↦ does mutex_unlock
      | some bytes ↦ info_then (λ i.
          if is_mono8 i.pixel_type then encoded_file image_bmp bmp_ext h i else does mutex_unlock)
    ]
