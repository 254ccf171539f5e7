-- ===== src/SaveImage/Threads/Steady.antt =====
-- SaveImage.cpp: what holds in every state of the two threads when no frame is a JPEG, and the input
-- has two lines.
use mathlib.Core.Path.{subst}
use aggregation.Base.{
  ℕ, ◌≡◌, ◌≢◌, inl, inr, refl, sym, ◌∙◌, ap, Bool, true, false, some, List, [], ◌∷◌, ◌==◌,
  if◌then◌else◌, arith,
}
use aggregation.Sdk.{Sdk, Handle, ImageInfo, Frame, jpeg, Trace}
use aggregation.Station.{Station, ok, Ends}
use aggregation.Camera.Lifecycle.{IsReady}
use aggregation.Camera.Image.{copy_info, copy_data}
use aggregation.SaveImage.Files.{Tm}
use aggregation.SaveImage.Keys.{locked}
use aggregation.SaveImage.Locking.{Holds, raw_unlocks, bmp_unlocks, jpeg_unlocks}
use aggregation.SaveImage.Threads.{
  Main, skips, reads, asks, saves, joins, joined, Kind, raw, jpg, bmp, saver, System, start,
  skip_key, read_key, set_exit, save, Step, leaves, stays, takes, misses, locks, copies_info,
  copies_data, frees, skip, read, spins, enters, writes, meets, Reach, here, next,
}
use aggregation.SaveImage.Threads.Mutex.{
  inside, is_saving, Held, Step-Held, start-Held, Held-excludes, is_saving-skip_key,
  is_saving-read_key,
}
use aggregation.SaveImage.Threads.Copies.{Fits, Intact, Buffers-Intact}
use aggregation.SaveImage.Threads.Whole.{Inv, Step-Inv, start-Inv}

-- There is a newline.
abbrev pub ends : List ℕ → Bool
ends [] = false
ends (c ∷ keys) = if c == b'\n' then true else ends keys

-- There are two.
abbrev pub ends_twice : List ℕ → Bool
ends_twice [] = false
ends_twice (c ∷ keys) = if c == b'\n' then ends keys else ends_twice keys

-- The newlines that the thread of `main` still waits for will come.
abbrev pub will_end : Main → Bool
will_end (skips keys) = ends_twice keys
will_end (reads keys) = ends keys
will_end (asks k keys) = ends keys
will_end (saves k keys) = ends keys
will_end joins = true
will_end joined = true

-- `HandleKeyPress` has returned.
abbrev pub is_over : Main → Bool
is_over (skips keys) = false
is_over (reads keys) = false
is_over (asks k keys) = false
is_over (saves k keys) = false
is_over joins = true
is_over joined = true

skip_key-ends : (keys : List ℕ) → ends_twice keys ≡ true → will_end (skip_key keys) ≡ true
unfolding skip_key
skip_key-ends [] e = ground arith
skip_key-ends (c ∷ keys) e = ground arith

read_key-ends : (c : ℕ) (keys : List ℕ) → ends (c ∷ keys) ≡ true → will_end (read_key c keys) ≡ true
unfolding read_key
read_key-ends c keys e = ground arith

is_over-skip_key : (keys : List ℕ) → is_over (skip_key keys) ≡ false
unfolding skip_key
is_over-skip_key [] = refl
is_over-skip_key (c ∷ keys) = ground arith

-- `g_bExit` is set when the loop is over, and never reset.
read-exit :
    (c : ℕ) (keys : List ℕ) (s : Station)
    → is_over (read_key c keys) ≡ true
    → (set_exit c s).exit ≡ true
unfolding read_key set_exit
read-exit c keys s e = ground arith

pub copy_info-exit : (f : ImageInfo) (s : Station) → (copy_info f s).exit ≡ s.exit
unfolding copy_info
copy_info-exit f s = ground arith

pub copy_data-exit : (f : Frame) (s : Station) → (copy_data f s).exit ≡ s.exit
unfolding copy_data
copy_data-exit f s = ground arith

module _ (sdk : Sdk) where
  abbrev pub NoJpeg : Type 0
  NoJpeg = (u : Trace) → (sdk.frame u).info.pixel_type ≢ jpeg

  Intact-other : NoJpeg → (s : Station) → (v : Intact sdk s) → v.image_info.pixel_type ≢ jpeg
  Intact-other no_jpeg s v = elim v.frame [
    | inl e ↦ λ same. ground (arith, e, same)
    | inr e ↦ λ same. no_jpeg e.0 (ap (λ i. i.pixel_type) (sym e.1) ∙ same)
  ]

-- The mutex, `g_bExit` and the input, by where the thread of `main` stands.
pub record Owed (y : System) : Type 0 where
  pub saver_saves : y.mutex ≡ some saver → is_saving y.main ≡ true
  pub exits : is_over y.main ≡ true → y.station.exit ≡ true
  pub lines : will_end y.main ≡ true

module _ (sdk : Sdk) (localtime : Trace → Tm) (h : Handle) where
  -- Each save ends with the mutex released.
  pub save-Ends :
      (k : Kind) (s : Station)
      → NoJpeg sdk
      → Intact sdk s
      → Ends (λ r t. locked t.trace ≡ false) (save sdk localtime h k s)
  unfolding save
  save-Ends k s no_jpeg v =
      let b = v.data_buf in
      let i = v.image_info in
      let held : Holds b i s = record {
        buffer = v.held.buffer;
        info = v.held.info;
        fits = v.within;
      } in
      elim k as (λ k. Ends (λ r t. locked t.trace ≡ false) (save sdk localtime h k s)) [
        | raw ↦ raw_unlocks sdk localtime b i s held
        | jpg ↦ jpeg_unlocks sdk localtime h b i s held (Intact-other sdk no_jpeg s v)
        | bmp ↦ bmp_unlocks sdk localtime h b i s held
      ]

  Step-Owed :
      {y z : System}
      → ((k : Kind) (t : Station)
          → is_saving y.main ≡ true
          → save sdk localtime h k y.station ≡ ok tt t
          → locked t.trace ≡ false)
      → Step sdk localtime h y z
      → Owed y
      → Owed z
  Step-Owed frees_it (leaves g e q) v = ground arith
  Step-Owed frees_it (stays g e q) v = ground arith
  Step-Owed frees_it (takes g e q) v = ground arith
  Step-Owed frees_it (misses g e q) v = ground arith
  Step-Owed frees_it (locks f g m q) v = ground arith
  Step-Owed {y} frees_it (copies_info f g q) v = ground (arith, copy_info-exit f.info y.station)
  Step-Owed {y} frees_it (copies_data f g q) v = ground (arith, copy_data-exit f y.station)
  Step-Owed frees_it (frees g q) v = ground arith
  Step-Owed frees_it (skip keys m q) v =
      ground (arith, is_saving-skip_key keys, is_over-skip_key keys, skip_key-ends keys)
  Step-Owed {y} frees_it (read c keys m q) v =
      ground (arith, is_saving-read_key c keys, read-exit c keys y.station, read_key-ends c keys)
  Step-Owed frees_it (spins m q) v = ground arith
  Step-Owed frees_it (enters k keys m e q) v = ground arith
  Step-Owed frees_it (writes k keys t m e q) v = ground (arith, frees_it k t)
  Step-Owed frees_it (meets m g q) v = ground arith

  pub record Good (max : ℕ) (y : System) : Type 0 where
    pub inv : Inv sdk max y
    pub held : Held y
    pub owed : Owed y

  -- While a save runs the buffers are those of one frame.
  Good-Intact : (max : ℕ) (y : System) → Good max y → inside y.grab ≡ false → Intact sdk y.station
  Good-Intact max y v e = Buffers-Intact sdk y.grab y.station e v.inv.buffers

  pub saving-Ends :
      (max : ℕ) (k : Kind) (y : System)
      → NoJpeg sdk
      → Good max y
      → is_saving y.main ≡ true
      → Ends (λ r t. locked t.trace ≡ false) (save sdk localtime h k y.station)
  saving-Ends max k y no_jpeg v e =
      save-Ends k y.station no_jpeg (Good-Intact max y v (Held-excludes v.held e))

  pub Step-Good :
      (max : ℕ)
      → Fits sdk max
      → NoJpeg sdk
      → {y z : System} → Step sdk localtime h y z
      → Good max y
      → Good max z
  Step-Good max fits no_jpeg {y} st v =
      let frees_it =
        λ (k : Kind) (t : Station) (e : is_saving y.main ≡ true)
            (q : save sdk localtime h k y.station ≡ ok tt t).
          subst (Ends (λ r u. locked u.trace ≡ false)) q (saving-Ends max k y no_jpeg v e) in
      record {
        inv = Step-Inv sdk localtime h max fits st v.inv;
        held = Step-Held sdk localtime h st v.held;
        owed = Step-Owed frees_it st v.owed;
      }

  pub Reach-Good :
      (max : ℕ)
      → Fits sdk max
      → NoJpeg sdk
      → {y z : System} → Reach sdk localtime h y z
      → Good max y
      → Good max z
  Reach-Good max fits no_jpeg here v = v
  Reach-Good max fits no_jpeg (next r st) v =
      Step-Good max fits no_jpeg st (Reach-Good max fits no_jpeg r v)

  pub start-Good :
      (s : Station) (keys : List ℕ)
      → IsReady s
      → ends_twice keys ≡ true
      → Good s.max_image_size (start s keys)
  start-Good s keys ready e = record {
    inv = start-Inv sdk localtime h s keys ready;
    held = start-Held s keys;
    owed = record { saver_saves = λ q. cc; exits = λ q. cc; lines = e };
  }
