-- ===== src/SaveImage/Threads/Deadlock.antt =====
-- SaveImage.cpp: the two threads after the save of a JPEG frame as a JPEG, which keeps the mutex.
use mathlib.Core.Path.{subst}
use aggregation.Base.{ℕ, ◌≡◌, ◌≢◌, refl, sym, ◌∙◌, ap, true, false, some, List, [], ◌∷◌, arith}
use aggregation.Base.Decimal.{Bytes}
use aggregation.Sdk.{Sdk, Handle, ImageInfo, Frame, jpeg, Trace, fopen}
use aggregation.Station.{Station, ok, Ends}
use aggregation.SaveImage.Files.{Tm, save_jpeg_image}
use aggregation.SaveImage.Locking.{Holds, Stuck, jpeg-Stuck}
use aggregation.SaveImage.Threads.{
  Grab, checks, polls, gone, wants, Main, saves, joined, Kind, jpg, saver, System, skip_key,
  read_key, set_exit, after_save, save, Step, leaves, stays, takes, misses, locks, copies_info,
  copies_data, frees, skip, read, spins, enters, writes, meets, Reach, here, next,
}
use aggregation.SaveImage.Threads.Mutex.{
  inside, is_saving, Held, Held-excludes, is_saving-skip_key, is_saving-read_key,
}

-- The JPEG save is under way, or it is over and has kept the mutex.
record Kept (b : Bytes) (i : ImageInfo) (y : System) : Type 0 where
  mutex : y.mutex ≡ some saver
  outside : inside y.grab ≡ false
  frame : Holds b i y.station
  kind : (k : Kind) (keys : List ℕ) → y.main ≡ saves k keys → k ≡ jpg

-- The grab thread waits for the mutex, and `pthread_join` has not returned.
record Waits (f : Frame) (y : System) : Type 0 where
  grab : y.grab ≡ wants f
  main : y.main ≢ joined

no_save : {m : Main} {k : Kind} {keys : List ℕ} → is_saving m ≡ false → m ≢ saves k keys
no_save e q = ground (arith, e, ap is_saving q)

set_exit-Holds :
    (b : Bytes) (i : ImageInfo) (c : ℕ) (s : Station) → Holds b i s → Holds b i (set_exit c s)
unfolding set_exit
set_exit-Holds b i c s v = record {
  buffer = ground (arith, v.buffer);
  info = ground (arith, v.info);
  fits = v.fits;
}

skip_key-goes_on : (keys : List ℕ) → skip_key keys ≢ joined
unfolding skip_key
skip_key-goes_on [] = λ e. ground (arith, e)
skip_key-goes_on (c ∷ keys) = λ e. ground (arith, e)

read_key-goes_on : (c : ℕ) (keys : List ℕ) → read_key c keys ≢ joined
unfolding read_key
read_key-goes_on c keys = λ e. ground (arith, e)

-- A step of the grab thread that leaves the buffers alone.
grab-Kept :
    (b : Bytes) (i : ImageInfo) (y : System) (t : Trace) (g : Grab)
    → inside g ≡ false
    → Kept b i y
    → Kept b i (record y { station = record (y.station) { trace = t }; grab = g })
grab-Kept b i y t g e v = record {
  mutex = v.mutex;
  outside = e;
  frame = record { buffer = v.frame.buffer; info = v.frame.info; fits = v.frame.fits };
  kind = v.kind;
}

module _ (sdk : Sdk) (localtime : Trace → Tm) (h : Handle) (b : Bytes) (i : ImageInfo) where
  save-Kept :
      (s t : Station)
      → Holds b i s
      → i.pixel_type ≡ jpeg
      → ((u : Trace) (name : Bytes) → sdk.succeeds u (fopen name) ≡ true)
      → save sdk localtime h jpg s ≡ ok tt t
      → (after_save t ≡ some saver) × Holds b i t
  unfolding save save_jpeg_image
  save-Kept s t v same opens e =
      let (held, buffer, info, calls) =
        subst (Ends (λ r u. Stuck sdk localtime b i s u)) e
          (jpeg-Stuck sdk localtime h b i s v same opens) in
      (
        ground (arith, held),
        record { buffer = buffer ∙ v.buffer; info = info ∙ v.info; fits = v.fits },
      )

  module _ (same : i.pixel_type ≡ jpeg)
      (opens : (u : Trace) (name : Bytes) → sdk.succeeds u (fopen name) ≡ true) where
    Step-Kept : {y z : System} → Step sdk localtime h y z → Kept b i y → Kept b i z
    Step-Kept {y} (leaves g e q) v = rw q (grab-Kept b i y y.station.trace gone refl v)
    Step-Kept {y} (stays g e q) v = rw q (grab-Kept b i y y.station.trace polls refl v)
    Step-Kept {y} (takes g e q) v =
        rw q (grab-Kept b i y _ (wants (sdk.frame y.station.trace)) refl v)
    Step-Kept {y} (misses g e q) v = rw q (grab-Kept b i y _ checks refl v)
    Step-Kept (locks f g m q) v = absurd (ground (arith, v.mutex))
    Step-Kept (copies_info f g q) v = absurd (ground (arith, v.outside))
    Step-Kept (copies_data f g q) v = absurd (ground (arith, v.outside))
    Step-Kept (frees g q) v = absurd (ground (arith, v.outside))
    Step-Kept (skip keys m q) v = rw q (record {
      mutex = v.mutex;
      outside = v.outside;
      frame = v.frame;
      kind = λ k rest e. absurd (no_save (is_saving-skip_key keys) e);
    })
    Step-Kept {y} (read c keys m q) v = rw q (record {
      mutex = v.mutex;
      outside = v.outside;
      frame = set_exit-Holds b i c y.station v.frame;
      kind = λ k rest e. absurd (no_save (is_saving-read_key c keys) e);
    })
    Step-Kept (spins m q) v = rw q v
    Step-Kept (enters k keys m e q) v = absurd (ground (arith, v.mutex))
    Step-Kept {y} (writes k keys t m e q) v =
        let e' : save sdk localtime h jpg y.station ≡ ok tt t =
          ap (λ j. save sdk localtime h j y.station) (sym (v.kind k keys m)) ∙ e in
        let (held, frame) = save-Kept y.station t v.frame same opens e' in
        rw q (record {
          mutex = held;
          outside = v.outside;
          frame = frame;
          kind = λ j rest e. absurd (no_save refl e);
        })
    Step-Kept (meets m g q) v = rw q (record {
      mutex = v.mutex;
      outside = v.outside;
      frame = v.frame;
      kind = λ k rest e. absurd (no_save refl e);
    })

    Step-Waits :
        (f : Frame) {y z : System} → Kept b i y → Step sdk localtime h y z → Waits f y → Waits f z
    Step-Waits f v (leaves g e q) w = ground arith
    Step-Waits f v (stays g e q) w = ground arith
    Step-Waits f v (takes g e q) w = ground arith
    Step-Waits f v (misses g e q) w = ground arith
    Step-Waits f v (locks f' g m q) w = ground (arith, v.mutex)
    Step-Waits f v (copies_info f' g q) w = ground arith
    Step-Waits f v (copies_data f' g q) w = ground arith
    Step-Waits f v (frees g q) w = ground arith
    Step-Waits f v (skip keys m q) w = ground (arith, skip_key-goes_on keys)
    Step-Waits f v (read c keys m q) w = ground (arith, read_key-goes_on c keys)
    Step-Waits f v (spins m q) w = ground arith
    Step-Waits f v (enters k keys m e q) w = ground arith
    Step-Waits f v (writes k keys t m e q) w = ground arith
    Step-Waits f v (meets m g q) w = ground arith

    Reach-Kept : {y z : System} → Reach sdk localtime h y z → Kept b i y → Kept b i z
    Reach-Kept here v = v
    Reach-Kept (next r st) v = Step-Kept st (Reach-Kept r v)

    Reach-Waits :
        (f : Frame) {y z : System} → Reach sdk localtime h y z → Kept b i y → Waits f y → Waits f z
    Reach-Waits f here v w = w
    Reach-Waits f (next r st) v w = Step-Waits f (Reach-Kept r v) st (Reach-Waits f r v w)

    -- A save as a JPEG is under way while the buffers hold a JPEG frame, the grab thread has taken
    -- the next frame, the mutex is held by the thread that is within its `lock`, and files can be
    -- opened. In whatever order the threads go on, and whatever the keys: the saver keeps the mutex,
    -- the buffers keep the frame, the grab thread waits for the mutex, and `pthread_join` has not
    -- returned.
    pub save-Deadlock :
        (keys : List ℕ) (f : Frame) (y : System)
        → Held y
        → y.main ≡ saves jpg keys
        → y.grab ≡ wants f
        → Holds b i y.station
        → {z : System} → Reach sdk localtime h y z
        → (z.mutex ≡ some saver)
          × (z.station.data_buf ≡ some b)
          × (z.station.image_info ≡ some i)
          × (z.grab ≡ wants f)
          × (z.main ≢ joined)
    save-Deadlock keys f y held m g v {z} r =
        let is = ap is_saving m in
        let kept : Kept b i y = record {
          mutex = held.saving is;
          outside = Held-excludes held is;
          frame = v;
          kind = λ k rest e. ground (arith, e, m);
        } in
        let u = Reach-Kept r kept in
        let w = Reach-Waits f r kept (record { grab = g; main = λ e. ground (arith, m, e) }) in
        (u.mutex, u.frame.buffer, u.frame.info, w.grab, w.main)
