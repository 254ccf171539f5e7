-- ===== src/SaveImage/Leaks.antt =====
-- SaveImage.cpp: the files and the parameter blocks of the three saves.
use aggregation.Base.{ℕ, ◌+◌, ◌≡◌, Bool, take, true, false, [], ◌∷◌, ◌++◌, arith, if◌then◌else◌}
use aggregation.Base.Decimal.{Bytes}
use aggregation.Sdk.{
  Sdk, Handle, ImageInfo, mono8, Trace, SaveParam, ImageType, image_bmp, image_jpeg, fopen, fclose,
  new_param, delete_param, save_image, mutex_lock, mv_ok,
}
use aggregation.Station.{Station, Ends}
use aggregation.SaveImage.Files.{
  Tm, stamp, bmp_ext, jpg_ext, param, save_raw_image, save_jpeg_image, save_bmp_image,
}
use aggregation.SaveImage.Locking.{Holds}

-- The parameter blocks that the calls so far have made, and those that they have deleted.
abbrev pub made : Trace → ℕ
made [] = 0
made (new_param ∷ t) = made t + 1
made (c ∷ t) = made t

abbrev pub deleted : Trace → ℕ
deleted [] = 0
deleted (delete_param ∷ t) = deleted t + 1
deleted (c ∷ t) = deleted t

abbrev pub closed : Trace → ℕ
closed [] = 0
closed (fclose ∷ t) = closed t + 1
closed (c ∷ t) = closed t

module _ (sdk : Sdk) where
  -- The files that they have opened.
  abbrev pub opened : Trace → ℕ
  opened [] = 0
  opened (fopen name ∷ t) = opened t + (if sdk.succeeds t (fopen name) then 1 else 0)
  opened (c ∷ t) = opened t

  -- As many files have been closed since `s` as opened.
  abbrev pub Closes : Station → Unit {0} → Station → Type 0
  Closes s r t = opened t.trace + closed s.trace ≡ closed t.trace + opened s.trace

  -- `n` parameter blocks more have been made since `s` than deleted.
  abbrev pub Keeps : ℕ → Station → Unit {0} → Station → Type 0
  Keeps n s r t = made t.trace + deleted s.trace ≡ deleted t.trace + made s.trace + n

  module _ (localtime : Trace → Tm) (handle : Handle) (b : Bytes) (i : ImageInfo) (s : Station)
      (h : Holds b i s) where
    raw-Closes : Ends (Closes s) (save_raw_image sdk localtime s)
    unfolding save_raw_image
    raw-Closes = ground (arith, h.buffer, h.info, h.fits)

    bmp-Closes : Ends (Closes s) (save_bmp_image sdk localtime handle s)
    unfolding save_bmp_image
    bmp-Closes = ground (arith, h.buffer, h.info, h.fits)

    jpeg-Closes : Ends (Closes s) (save_jpeg_image sdk localtime handle s)
    unfolding save_jpeg_image
    jpeg-Closes = ground (arith, h.buffer, h.info, h.fits)

    -- What `fopen` comes to, for every name.
    abbrev pub Opens : Bool → Type 0
    Opens o = (t : Trace) (name : Bytes) → sdk.succeeds t (fopen name) ≡ o

    abbrev pub Encodes : Type 0
    Encodes = (t : Trace) (p : SaveParam) → sdk.code t (save_image handle p) ≡ mv_ok

    -- The calls after which a file is opened for an image that was encoded.
    before_open : ImageType → Trace
    before_open type =
        save_image handle (param type i s.max_image_size (take i.frame_len b))
        ∷ new_param
        ∷ mutex_lock
        ∷ s.trace

    bmp-Keeps : Opens true → Ends (Keeps 0 s) (save_bmp_image sdk localtime handle s)
    unfolding save_bmp_image before_open
    bmp-Keeps o =
        let u : Trace = before_open image_bmp in
        ground (arith, h.buffer, h.info, h.fits, o u (stamp (localtime u) ++ bmp_ext))

    bmp_leaks :
        Opens false
        → Encodes
        → i.pixel_type ≡ mono8
        → Ends (Keeps 1 s) (save_bmp_image sdk localtime handle s)
    unfolding save_bmp_image before_open
    bmp_leaks o e m =
        let u : Trace = before_open image_bmp in
        ground (
          arith,
          h.buffer,
          h.info,
          h.fits,
          m,
          e (new_param ∷ mutex_lock ∷ s.trace)
              (param image_bmp i s.max_image_size (take i.frame_len b)),
          o u (stamp (localtime u) ++ bmp_ext),
        )

    jpeg-Keeps : Opens true → Ends (Keeps 0 s) (save_jpeg_image sdk localtime handle s)
    unfolding save_jpeg_image before_open
    jpeg-Keeps o =
        let u : Trace = before_open image_jpeg in
        ground (arith, h.buffer, h.info, h.fits, o u (stamp (localtime u) ++ jpg_ext))

    jpeg_leaks :
        Opens false
        → Encodes
        → i.pixel_type ≡ mono8
        → Ends (Keeps 1 s) (save_jpeg_image sdk localtime handle s)
    unfolding save_jpeg_image before_open
    jpeg_leaks o e m =
        let u : Trace = before_open image_jpeg in
        ground (
          arith,
          h.buffer,
          h.info,
          h.fits,
          m,
          e (new_param ∷ mutex_lock ∷ s.trace)
              (param image_jpeg i s.max_image_size (take i.frame_len b)),
          o u (stamp (localtime u) ++ jpg_ext),
        )

    -- With a frame that lies within the data buffer, each of the three saves closes every file that it
    -- opens. While files can be opened, the saves as BMP and as JPEG delete the parameter block that
    -- they make; for a Mono8 frame that is encoded, where no file can be opened, each of the two leaves
    -- one block behind.
    pub saves_close :
        (Ends (Closes s) (save_raw_image sdk localtime s)
          × Ends (Closes s) (save_bmp_image sdk localtime handle s)
          × Ends (Closes s) (save_jpeg_image sdk localtime handle s))
        × (Opens true
            → Ends (Keeps 0 s) (save_bmp_image sdk localtime handle s)
              × Ends (Keeps 0 s) (save_jpeg_image sdk localtime handle s))
        × (Opens false
            → Encodes
            → i.pixel_type ≡ mono8
            → Ends (Keeps 1 s) (save_bmp_image sdk localtime handle s)
              × Ends (Keeps 1 s) (save_jpeg_image sdk localtime handle s))
    saves_close = (
      (raw-Closes, bmp-Closes, jpeg-Closes),
      λ o. (bmp-Keeps o, jpeg-Keeps o),
      λ o e m. (bmp_leaks o e m, jpeg_leaks o e m),
    )
