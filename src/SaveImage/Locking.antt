-- ===== src/SaveImage/Locking.antt =====
-- SaveImage.cpp: the mutex round a save, and what becomes of a mutex that stays held.
use aggregation.Base.{
  ◌≤◌, ◌≡◌, refl, ◌≢◌, true, false, some, List, [], ◌∷◌, ◌++◌, arith, length, take, All, ap,
  if◌then◌else◌,
}
use aggregation.Base.Decimal.{Bytes}
use aggregation.Sdk.{Sdk, Handle, ImageInfo, jpeg, Trace, fopen, fwrite, fclose, mutex_lock}
use aggregation.Station.{Station, Out, ok, thrown, fault, and_then, Ends, Ends-and_then, Ends-mono}
use aggregation.Camera.Image.{read_frame}
use aggregation.SaveImage.Files.{
  Tm, stamp, jpg_ext, save_raw_image, save_jpeg_image, save_bmp_image,
}
use aggregation.SaveImage.Keys.{locked, Event, key, grabbed, press, round, handle_key}

-- The two buffers hold a frame that lies within the data buffer.
pub record Holds (b : Bytes) (i : ImageInfo) (s : Station) : Type 0 where
  pub buffer : s.data_buf ≡ some b
  pub info : s.image_info ≡ some i
  pub fits : i.frame_len ≤ length b

and_then_avoids :
    {A : Type 0} {v : A} {t : Station} (o : Out (Unit {0})) (f : Unit {0} → Station → Out A)
    → ((s : Station) → f tt s ≢ ok v t)
    → and_then o f ≢ ok v t
and_then_avoids (ok a s) f h = h s
and_then_avoids (thrown c s) f h = ground arith
and_then_avoids (fault e) f h = ground arith

module _ (sdk : Sdk) (localtime : Trace → Tm) where
  pub raw_unlocks :
      (b : Bytes) (i : ImageInfo) (s : Station)
      → Holds b i s
      → Ends (λ r t. locked t.trace ≡ false) (save_raw_image sdk localtime s)
  unfolding save_raw_image read_frame
  raw_unlocks b i s h = ground (arith, h.buffer, h.info, h.fits)

  pub bmp_unlocks :
      (handle : Handle) (b : Bytes) (i : ImageInfo) (s : Station)
      → Holds b i s
      → Ends (λ r t. locked t.trace ≡ false) (save_bmp_image sdk localtime handle s)
  unfolding save_bmp_image read_frame
  bmp_unlocks handle b i s h = ground (arith, h.buffer, h.info, h.fits)

  pub jpeg_unlocks :
      (handle : Handle) (b : Bytes) (i : ImageInfo) (s : Station)
      → Holds b i s
      → i.pixel_type ≢ jpeg
      → Ends (λ r t. locked t.trace ≡ false) (save_jpeg_image sdk localtime handle s)
  unfolding save_jpeg_image read_frame
  jpeg_unlocks handle b i s h other = ground (arith, h.buffer, h.info, h.fits)

  -- With a frame that lies within the data buffer, each save ends with the mutex released, whatever
  -- the SDK and the file system reply: RAW and BMP always, JPEG if the frame is not a JPEG already.
  saves_unlock :
      (handle : Handle) (b : Bytes) (i : ImageInfo) (s : Station)
      → Holds b i s
      → Ends (λ r t. locked t.trace ≡ false) (save_raw_image sdk localtime s)
        × Ends (λ r t. locked t.trace ≡ false) (save_bmp_image sdk localtime handle s)
        × (i.pixel_type ≢ jpeg
            → Ends (λ r t. locked t.trace ≡ false) (save_jpeg_image sdk localtime handle s))
  saves_unlock handle b i s h =
      (raw_unlocks b i s h, bmp_unlocks handle b i s h, jpeg_unlocks handle b i s h)

  -- What the save of a JPEG frame as a JPEG leaves: its bytes are written to the file, and the mutex
  -- is held.
  abbrev pub Stuck : Bytes → ImageInfo → Station → Station → Type 0
  Stuck b i s t =
      (locked t.trace ≡ true)
      × (t.data_buf ≡ s.data_buf)
      × (t.image_info ≡ s.image_info)
      × (t.trace
          ≡ fclose
            ∷ fwrite (take i.frame_len b)
            ∷ fopen (stamp (localtime (mutex_lock ∷ s.trace)) ++ jpg_ext)
            ∷ mutex_lock
            ∷ s.trace)

  pub jpeg-Stuck :
      (handle : Handle) (b : Bytes) (i : ImageInfo) (s : Station)
      → Holds b i s
      → i.pixel_type ≡ jpeg
      → ((t : Trace) (name : Bytes) → sdk.succeeds t (fopen name) ≡ true)
      → Ends (λ r t. Stuck b i s t) (save_jpeg_image sdk localtime handle s)
  unfolding save_jpeg_image read_frame
  jpeg-Stuck handle b i s h same opens = ground (
    arith,
    h.buffer,
    h.info,
    h.fits,
    same,
    opens (mutex_lock ∷ s.trace) (stamp (localtime (mutex_lock ∷ s.trace)) ++ jpg_ext),
  )

  press-locked :
      (handle : Handle) (es : List Event) (s : Station)
      → locked s.trace ≡ true
      → Ends (λ r t. t ≡ s) (press sdk localtime handle es s)
  unfolding press round handle_key
  press-locked handle [] s held = refl
  press-locked handle (grabbed ∷ es) s held =
      rw (held, if◌then◌else◌) (press-locked handle es s held)
  press-locked handle (key c ∷ es) s held =
      let rest = press-locked handle es s held in ground (arith, held, rest)

  -- Key 2 while the buffers hold a JPEG frame, and files can be opened: whatever comes after, a key
  -- or a frame, the buffers stay as they are, the mutex stays held and nothing else is called.
  press-jpeg :
      (handle : Handle) (b : Bytes) (i : ImageInfo) (s : Station) (es : List Event)
      → Holds b i s
      → i.pixel_type ≡ jpeg
      → ((t : Trace) (name : Bytes) → sdk.succeeds t (fopen name) ≡ true)
      → locked s.trace ≡ false
      → Ends (λ r t. Stuck b i s t) (press sdk localtime handle (key b'2' ∷ es) s)
  unfolding press handle_key
  press-jpeg handle b i s es h same opens free =
      rw (free, if◌then◌else◌)
        (Ends-and_then (λ r t. Stuck b i s t) (λ r t. Stuck b i s t)
          (save_jpeg_image sdk localtime handle s) (λ _. press sdk localtime handle es)
          (jpeg-Stuck handle b i s h same opens)
          (λ r t q.
            Ends-mono (λ r' u. u ≡ t) (λ r' u. Stuck b i s u) (press sdk localtime handle es t)
              (press-locked handle es t q.0) (λ r' u e. rw e q)))

  -- Without a newline in what is left of the input the loop of `HandleKeyPress` is never left: not by
  -- any key, and not at the end of the input.
  pub press_eof :
      (handle : Handle) (es : List Event) (s : Station)
      → All (λ e. e ≢ key b'\n') es
      → (rest : List Event) (t : Station) → press sdk localtime handle es s ≢ ok (some rest) t
  unfolding press
  press_eof handle [] s h rest t = ground arith
  press_eof handle (grabbed ∷ es) s h rest t =
      and_then_avoids (round sdk localtime handle s) (λ _. press sdk localtime handle es)
        (λ u. press_eof handle es u h.1 rest t)
  press_eof handle (key c ∷ es) s h rest t =
      let other : c ≢ b'\n' = λ e. h.0 (ap key e) in
      let later =
        and_then_avoids (handle_key sdk localtime handle c s) (λ _. press sdk localtime handle es)
          (λ u. press_eof handle es u h.1 rest t) in
      ground (arith, other, later)
