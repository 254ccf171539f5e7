-- ===== src/SaveImage/Threads/Contents.antt =====
-- SaveImage.cpp: what the files hold that the two threads write.
use mathlib.Core.Path.{subst}
use aggregation.Base.{
  ℕ, ◌≡◌, ◌⊎◌, ◌≢◌, inl, inr, refl, sym, ◌∙◌, ap, Bool, ◌&&◌, true, some, List, [], ◌∷◌, All, take,
  arith,
}
use aggregation.Base.Decimal.{Bytes}
use aggregation.Sdk.{
  Sdk, Handle, ImageInfo, ImageType, image_jpeg, image_bmp, PixelType, other_pixel, mono8, jpeg,
  Trace, fwrite, save_image, new_param, mutex_lock,
}
use aggregation.Station.{Station, ok}
use aggregation.Camera.{zero_info}
use aggregation.SaveImage.Files.{Tm, param}
use aggregation.SaveImage.Keys.{locked}
use aggregation.SaveImage.Threads.Copies.{Fits, IsFrame, Intact}
use aggregation.SaveImage.Threads.Whole.{saves-Intact}
use aggregation.Camera.Lifecycle.{IsReady}
use aggregation.SaveImage.Threads.Calls.{copy_info-trace, copy_data-trace, set_exit-trace}
use aggregation.SaveImage.Threads.Mutex.{is_saving}
use aggregation.SaveImage.Threads.{
  Kind, raw, jpg, bmp, System, start, save, Step, leaves, stays, takes, misses, locks, copies_info,
  copies_data, frees, skip, read, spins, enters, writes, meets, Reach, here, next,
}

-- What the calls so far have written to files, the latest first.
abbrev pub bodies : Trace → List Bytes
bodies [] = []
bodies (fwrite xs ∷ t) = xs ∷ bodies t
bodies (c ∷ t) = bodies t

-- Each call so far that reads the buffers, or that writes what was read, found the mutex held.
abbrev pub reads_locked : Trace → Bool
reads_locked [] = true
reads_locked (fwrite xs ∷ t) = locked t && reads_locked t
reads_locked (save_image h p ∷ t) = locked t && reads_locked t
reads_locked (c ∷ t) = reads_locked t

-- What may be in a file: the bytes of a Mono8 or a JPEG frame of the reader, what the SDK makes of the
-- bytes and the info of one frame, or what it makes of the zeroed buffers before the first frame.
pub data Content (sdk : Sdk) (xs : Bytes) : Type 0 where
  plain :
      (u : Trace)
      → ((sdk.frame u).info.pixel_type ≡ mono8) ⊎ ((sdk.frame u).info.pixel_type ≡ jpeg)
      → xs ≡ (sdk.frame u).bytes
      → Content sdk xs
  encoded :
      (u t : Trace) (type : ImageType) (size : ℕ)
      → xs ≡ sdk.encoded t (param type (sdk.frame u).info size (sdk.frame u).bytes)
      → Content sdk xs
  blank :
      (t : Trace) (type : ImageType) (size : ℕ)
      → xs ≡ sdk.encoded t (param type zero_info size [])
      → Content sdk xs

take-zero : (b : Bytes) → take 0 b ≡ []
take-zero [] = refl
take-zero (x ∷ b) = refl

module _ (sdk : Sdk) where
  plain-Content :
      (b : Bytes) (i : ImageInfo) (p : PixelType) (xs : Bytes)
      → IsFrame sdk b i
      → p ≢ other_pixel
      → (p ≡ mono8) ⊎ (p ≡ jpeg)
      → i.pixel_type ≡ p
      → xs ≡ take i.frame_len b
      → Content sdk xs
  plain-Content b i p xs (inl e) n k q x = absurd (n (sym q ∙ ap (λ j. j.pixel_type) e))
  plain-Content b i p xs (inr (u, e, t)) n k q x =
      let same = ap (λ j. j.pixel_type) (sym e) ∙ q in
      plain u (elim k [ inl m ↦ inl (same ∙ m) | inr m ↦ inr (same ∙ m) ]) (x ∙ t)

  encoded-Content :
      (type : ImageType) (b : Bytes) (i : ImageInfo) (size : ℕ) (t : Trace) (xs : Bytes)
      → IsFrame sdk b i
      → xs ≡ sdk.encoded t (param type i size (take i.frame_len b))
      → Content sdk xs
  encoded-Content type b i size t xs (inl e) x = blank t type size (
      x
      ∙ ap (λ j. sdk.encoded t (param type j size (take j.frame_len b))) e
      ∙ ap (λ r. sdk.encoded t (param type zero_info size r)) (take-zero b))
  encoded-Content type b i size t xs (inr (u, e, v)) x = encoded u t type size (
      x
      ∙ ap (λ r. sdk.encoded t (param type i size r)) v
      ∙ ap (λ j. sdk.encoded t (param type j size (sdk.frame u).bytes)) e)

module _ (sdk : Sdk) (localtime : Trace → Tm) (h : Handle) where
  -- What a save encodes.
  abbrev encoding : ImageType → Bytes → ImageInfo → Station → Bytes
  encoding type b i s =
      sdk.encoded (new_param ∷ mutex_lock ∷ s.trace)
        (param type i s.max_image_size (take i.frame_len b))

  abbrev Saved : Kind → Bytes → ImageInfo → Station → Station → Type 0
  Saved raw b i s t =
      (i.pixel_type ≡ mono8) × (bodies t.trace ≡ take i.frame_len b ∷ bodies s.trace)
  Saved jpg b i s t =
      ((i.pixel_type ≡ jpeg) × (bodies t.trace ≡ take i.frame_len b ∷ bodies s.trace))
      ⊎ (bodies t.trace ≡ encoding image_jpeg b i s ∷ bodies s.trace)
  Saved bmp b i s t = bodies t.trace ≡ encoding image_bmp b i s ∷ bodies s.trace

  save-Saved :
      (k : Kind) (b : Bytes) (i : ImageInfo) (s t : Station)
      → s.data_buf ≡ some b
      → s.image_info ≡ some i
      → save sdk localtime h k s ≡ ok tt t
      → (bodies t.trace ≡ bodies s.trace) ⊎ Saved k b i s t
  unfolding save
  save-Saved raw b i s t d e q = ground arith
  save-Saved jpg b i s t d e q = ground arith
  save-Saved bmp b i s t d e q = ground arith

  abbrev Contents : Trace → Type 0
  Contents t = All (Content sdk) (bodies t)

  more-Contents :
      (xs : Bytes) (s t : Station)
      → Content sdk xs
      → bodies t.trace ≡ xs ∷ bodies s.trace
      → Contents s.trace
      → Contents t.trace
  more-Contents xs s t c e v = subst (All (Content sdk)) (sym e) (c, v)

  Saved-Contents :
      (k : Kind) (s t : Station) (v : Intact sdk s)
      → Saved k v.data_buf v.image_info s t
      → Contents s.trace
      → Contents t.trace
  Saved-Contents raw s t v (p, e) c =
      more-Contents _ s t
        (plain-Content sdk v.data_buf v.image_info mono8 _ v.frame (λ q. ground (arith, q))
          (inl refl) p refl)
        e c
  Saved-Contents jpg s t v (inl (p, e)) c =
      more-Contents _ s t
        (plain-Content sdk v.data_buf v.image_info jpeg _ v.frame (λ q. ground (arith, q))
          (inr refl) p refl)
        e c
  Saved-Contents jpg s t v (inr e) c =
      more-Contents _ s t
        (encoded-Content sdk image_jpeg v.data_buf v.image_info s.max_image_size _ _ v.frame refl) e
        c
  Saved-Contents bmp s t v e c =
      more-Contents _ s t
        (encoded-Content sdk image_bmp v.data_buf v.image_info s.max_image_size _ _ v.frame refl) e
        c

  save-Contents :
      (k : Kind) (s t : Station)
      → Intact sdk s
      → save sdk localtime h k s ≡ ok tt t
      → Contents s.trace
      → Contents t.trace
  save-Contents k s t v q c =
      elim (save-Saved k v.data_buf v.image_info s t v.held.buffer v.held.info q) [
        | inl e ↦ subst (All (Content sdk)) (sym e) c
        | inr e ↦ Saved-Contents k s t v e c
      ]

  Step-Contents :
      {y z : System}
      → (is_saving y.main ≡ true → Intact sdk y.station)
      → Step sdk localtime h y z
      → Contents y.station.trace
      → Contents z.station.trace
  Step-Contents i (leaves g e q) v = rw q v
  Step-Contents i (stays g e q) v = rw q v
  Step-Contents i (takes g e q) v = rw q v
  Step-Contents i (misses g e q) v = rw q v
  Step-Contents i (locks f g m q) v = rw q v
  Step-Contents {y} i (copies_info f g q) v = rw (q, copy_info-trace f.info y.station) v
  Step-Contents {y} i (copies_data f g q) v = rw (q, copy_data-trace f y.station) v
  Step-Contents i (frees g q) v = rw q v
  Step-Contents i (skip keys m q) v = rw q v
  Step-Contents {y} i (read c keys m q) v = rw (q, set_exit-trace c y.station) v
  Step-Contents i (spins m q) v = rw q v
  Step-Contents i (enters k keys m e q) v = rw q v
  Step-Contents {y} i (writes k keys t m e q) v =
      rw q (save-Contents k y.station t (i (ap is_saving m)) e v)
  Step-Contents i (meets m g q) v = rw q v

  save-reads_locked :
      (k : Kind) (s t : Station)
      → reads_locked s.trace ≡ true
      → save sdk localtime h k s ≡ ok tt t
      → reads_locked t.trace ≡ true
  unfolding save
  save-reads_locked raw s t r e = ground arith
  save-reads_locked jpg s t r e = ground arith
  save-reads_locked bmp s t r e = ground arith

  Step-reads_locked :
      {y z : System}
      → Step sdk localtime h y z
      → reads_locked y.station.trace ≡ true
      → reads_locked z.station.trace ≡ true
  Step-reads_locked (leaves g e q) v = rw q v
  Step-reads_locked (stays g e q) v = rw q v
  Step-reads_locked (takes g e q) v = rw q v
  Step-reads_locked (misses g e q) v = rw q v
  Step-reads_locked (locks f g m q) v = rw q v
  Step-reads_locked {y} (copies_info f g q) v = rw (q, copy_info-trace f.info y.station) v
  Step-reads_locked {y} (copies_data f g q) v = rw (q, copy_data-trace f y.station) v
  Step-reads_locked (frees g q) v = rw q v
  Step-reads_locked (skip keys m q) v = rw q v
  Step-reads_locked {y} (read c keys m q) v = rw (q, set_exit-trace c y.station) v
  Step-reads_locked (spins m q) v = rw q v
  Step-reads_locked (enters k keys m e q) v = rw q v
  Step-reads_locked {y} (writes k keys t m e q) v = rw q (save-reads_locked k y.station t v e)
  Step-reads_locked (meets m g q) v = rw q v

  -- `InitResource` has made the buffers, every frame of the reader has its `nFrameLen` bytes and is
  -- shorter than the data buffer, nothing has been written to files, and no image has been encoded
  -- without the mutex. However the two threads take turns, where a save is one step from its `lock`
  -- on, and whatever the keys: each `fwrite`, and each call that encodes the buffers, was made with the
  -- mutex held; and all that is written to files is the bytes of one Mono8 or JPEG frame of the reader,
  -- what the SDK makes of the bytes and the info of one frame, or what it makes of an empty image.
  pub bodies-Content :
      (s : Station) (keys : List ℕ)
      → IsReady s
      → Fits sdk s.max_image_size
      → bodies s.trace ≡ []
      → reads_locked s.trace ≡ true
      → {z : System} → Reach sdk localtime h (start s keys) z
      → (reads_locked z.station.trace ≡ true) × All (Content sdk) (bodies z.station.trace)
  bodies-Content s keys ready fits none_yet l here =
      (l, subst (All (Content sdk)) (sym none_yet) tt)
  bodies-Content s keys ready fits none_yet l (next r st) =
      let (v, c) = bodies-Content s keys ready fits none_yet l r in
      (
        Step-reads_locked st v,
        Step-Contents (λ saving. (saves-Intact sdk localtime h s keys ready fits r saving).1) st c,
      )
