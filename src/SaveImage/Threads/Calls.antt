-- ===== src/SaveImage/Threads/Calls.antt =====
-- SaveImage.cpp: the calls of `pthread_mutex_lock` and `pthread_mutex_unlock` by the two threads.
use aggregation.Base.{
  ℕ, ◌≡◌, Bool, true, false, not, ◌&&◌, Option, none, some, List, [], ◌∷◌, arith,
}
use aggregation.Sdk.{Sdk, Handle, ImageInfo, Frame, Trace, mutex_lock, mutex_unlock}
use aggregation.Station.{Station, ok}
use aggregation.Camera.Image.{copy_info, copy_data}
use aggregation.SaveImage.Files.{Tm}
use aggregation.SaveImage.Keys.{locked}
use aggregation.SaveImage.Threads.{
  Main, Owner, Kind, raw, jpg, bmp, grabber, saver, System, start, set_exit, save, Step, leaves,
  stays, takes, misses, locks, copies_info, copies_data, frees, skip, read, spins, enters, writes,
  meets, Reach, here, next,
}
use aggregation.SaveImage.Threads.Mutex.{
  is_saving, Held, start-Held, Reach-Held, is_saving-skip_key, is_saving-read_key,
}

-- Each `lock` of the calls so far found the mutex free, and each `unlock` found it held.
abbrev pub alternates : Trace → Bool
alternates [] = true
alternates (mutex_lock ∷ t) = not (locked t) && alternates t
alternates (mutex_unlock ∷ t) = locked t && alternates t
alternates (c ∷ t) = alternates t

-- Whether the last of these calls was a `lock`. That of a save comes after it has got the mutex.
abbrev held_by : Option Owner → Main → Bool
held_by none m = false
held_by (some grabber) m = true
held_by (some saver) m = not (is_saving m)

record Called (y : System) : Type 0 where
  turns : alternates y.station.trace ≡ true
  level : locked y.station.trace ≡ held_by y.mutex y.main

pub copy_info-trace : (i : ImageInfo) (s : Station) → (copy_info i s).trace ≡ s.trace
unfolding copy_info
copy_info-trace i s = ground arith

pub copy_data-trace : (f : Frame) (s : Station) → (copy_data f s).trace ≡ s.trace
unfolding copy_data
copy_data-trace f s = ground arith

pub set_exit-trace : (c : ℕ) (s : Station) → (set_exit c s).trace ≡ s.trace
unfolding set_exit
set_exit-trace c s = ground arith

module _ (sdk : Sdk) (localtime : Trace → Tm) (h : Handle) where
  save-alternates :
      (k : Kind) (s t : Station)
      → locked s.trace ≡ false
      → alternates s.trace ≡ true
      → save sdk localtime h k s ≡ ok tt t
      → alternates t.trace ≡ true
  unfolding save
  save-alternates raw s t l a e = ground arith
  save-alternates jpg s t l a e = ground arith
  save-alternates bmp s t l a e = ground arith

  Step-Called : {y z : System} → Step sdk localtime h y z → Held y → Called y → Called z
  Step-Called (leaves g e q) u v = ground arith
  Step-Called (stays g e q) u v = ground arith
  Step-Called (takes g e q) u v = ground arith
  Step-Called (misses g e q) u v = ground arith
  Step-Called (locks f g m q) u v = ground arith
  Step-Called {y} (copies_info f g q) u v = ground (arith, copy_info-trace f.info y.station)
  Step-Called {y} (copies_data f g q) u v = ground (arith, copy_data-trace f y.station)
  Step-Called (frees g q) u v = ground arith
  Step-Called (skip keys m q) u v = ground (arith, is_saving-skip_key keys)
  Step-Called {y} (read c keys m q) u v =
      ground (arith, is_saving-read_key c keys, set_exit-trace c y.station)
  Step-Called (spins m q) u v = ground arith
  Step-Called (enters k keys m e q) u v = ground arith
  Step-Called {y} (writes k keys t m e q) u v =
      ground (arith, u.saving, save-alternates k y.station t, e)
  Step-Called (meets m g q) u v = ground arith

  Reach-Called : {y z : System} → Reach sdk localtime h y z → Held y → Called y → Called z
  Reach-Called here u v = v
  Reach-Called (next r st) u v =
      Step-Called st (Reach-Held sdk localtime h u r) (Reach-Called r u v)

  -- Where the calls before `pthread_create` left the mutex free, and each `lock` of them had found it
  -- free and each `unlock` held: so it is with all the calls up to any state that the two threads
  -- reach, in whatever order they go on.
  pub trace-alternates :
      (s : Station) (keys : List ℕ)
      → locked s.trace ≡ false
      → alternates s.trace ≡ true
      → {z : System} → Reach sdk localtime h (start s keys) z
      → alternates z.station.trace ≡ true
  trace-alternates s keys l a r =
      (Reach-Called r (start-Held s keys) (record { turns = a; level = l })).turns
