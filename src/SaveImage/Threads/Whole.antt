-- ===== src/SaveImage/Threads/Whole.antt =====
-- SaveImage.cpp: what the two buffers hold while the threads move.
use aggregation.Base.{ℕ, ◌≡◌, refl, ◌∙◌, true, false, Option, List}
use aggregation.Sdk.{Sdk, Handle, Trace}
use aggregation.Station.{Station}
use aggregation.Camera.Lifecycle.{IsReady}
use aggregation.SaveImage.Files.{Tm}
use aggregation.SaveImage.Threads.{
  Grab, checks, polls, unlocks, gone, wants, copies, halfway, Main, Owner, System, start, Step,
  leaves, stays, takes, misses, locks, copies_info, copies_data, frees, skip, read, spins, enters,
  writes, meets, Reach, here, next,
}
use aggregation.SaveImage.Threads.Mutex.{inside, is_saving, start-Held, Reach-Held, Held-excludes}
use aggregation.SaveImage.Threads.Copies.{
  SameBuffers, same, set_exit-SameBuffers, Fits, Intact, save-SameBuffers, copy_info-Torn,
  same-Buffers, copied-Intact, copy_info-size, copy_data-size, at, ready-Intact, Buffers-Intact,
  Buffers,
}

module _ (sdk : Sdk) where
  pub record Inv (max : ℕ) (y : System) : Type 0 where
    pub buffers : Buffers sdk y.grab y.station
    pub size : y.station.max_image_size ≡ max

  keeps-Inv :
      (max : ℕ) (y : System) (t : Station) (g : Grab)
      → SameBuffers y.station t
      → Buffers sdk g y.station
      → Inv max y
      → (o : Option Owner) (m : Main)
      → Inv max (record { station = t; mutex = o; grab = g; main = m })
  keeps-Inv max y t g e b v o m = record {
    buffers = same-Buffers sdk g y.station t e b;
    size = e.2 ∙ v.size;
  }

module _ (sdk : Sdk) (localtime : Trace → Tm) (h : Handle) where
  pub Step-Inv :
      (max : ℕ)
      → Fits sdk max
      → {y z : System} → Step sdk localtime h y z
      → Inv sdk max y
      → Inv sdk max z
  Step-Inv max fits {y} (leaves g e q) v = rw q (
      keeps-Inv sdk max y y.station gone (same y.station) (at sdk checks y.station g v.buffers) v _
        _)
  Step-Inv max fits {y} (stays g e q) v = rw q (
      keeps-Inv sdk max y y.station polls (same y.station) (at sdk checks y.station g v.buffers) v _
        _)
  Step-Inv max fits {y} (takes g e q) v = rw q (
      keeps-Inv sdk max y _ (wants (sdk.frame y.station.trace)) (same y.station)
        (at sdk polls y.station g v.buffers, (y.station.trace, refl)) v _ _)
  Step-Inv max fits {y} (misses g e q) v =
      rw q
        (keeps-Inv sdk max y _ checks (same y.station) (at sdk polls y.station g v.buffers) v _ _)
  Step-Inv max fits {y} (locks f g m q) v = rw q (
      keeps-Inv sdk max y _ (copies f) (same y.station) (at sdk (wants f) y.station g v.buffers) v _
        _)
  Step-Inv max fits {y} (copies_info f g q) v =
      let b = at sdk (copies f) y.station g v.buffers in
      rw q (record {
        buffers = (copy_info-Torn sdk f y.station b.0, b.1);
        size = copy_info-size f.info y.station ∙ v.size;
      })
  Step-Inv max fits {y} (copies_data f g q) v =
      let b = at sdk (halfway f) y.station g v.buffers in
      rw q (record {
        buffers = copied-Intact sdk f y.station max fits v.size b.1 b.0;
        size = copy_data-size f y.station ∙ v.size;
      })
  Step-Inv max fits {y} (frees g q) v =
      rw q
        (keeps-Inv sdk max y _ checks (same y.station) (at sdk unlocks y.station g v.buffers) v _ _)
  Step-Inv max fits {y} (skip keys m q) v =
      rw q (keeps-Inv sdk max y y.station y.grab (same y.station) v.buffers v _ _)
  Step-Inv max fits {y} (read c keys m q) v =
      rw q (keeps-Inv sdk max y _ y.grab (set_exit-SameBuffers c y.station) v.buffers v _ _)
  Step-Inv max fits {y} (spins m q) v = rw q v
  Step-Inv max fits {y} (enters k keys m e q) v =
      rw q (keeps-Inv sdk max y y.station y.grab (same y.station) v.buffers v _ _)
  Step-Inv max fits {y} (writes k keys t m e q) v = rw q (
      keeps-Inv sdk max y t y.grab (save-SameBuffers sdk localtime h k y.station t e) v.buffers v _
        _)
  Step-Inv max fits {y} (meets m g q) v =
      rw q (keeps-Inv sdk max y y.station y.grab (same y.station) v.buffers v _ _)

  pub Reach-Inv :
      (max : ℕ)
      → Fits sdk max
      → {y z : System} → Reach sdk localtime h y z
      → Inv sdk max y
      → Inv sdk max z
  Reach-Inv max fits here v = v
  Reach-Inv max fits (next r st) v = Step-Inv max fits st (Reach-Inv max fits r v)

  pub start-Inv :
      (s : Station) (keys : List ℕ) → IsReady s → Inv sdk s.max_image_size (start s keys)
  start-Inv s keys ready = record { buffers = ready-Intact sdk s ready; size = refl }

  -- `InitResource` has made the buffers, and every frame of the reader has its `nFrameLen` bytes and is
  -- shorter than the data buffer. However the two threads take turns, and whatever the keys: between the `lock` of a save and the
  -- rest of it, which is one step, the grab thread is outside its `lock` and `unlock`, and the two buffers are those of one frame, the info
  -- and the data of the same, with the data within the buffer; before the first frame they are zero.
  pub saves-Intact :
      (s : Station) (keys : List ℕ)
      → IsReady s
      → Fits sdk s.max_image_size
      → {z : System} → Reach sdk localtime h (start s keys) z
      → is_saving z.main ≡ true
      → (inside z.grab ≡ false) × Intact sdk z.station
  saves-Intact s keys ready fits {z} r saving =
      let out = Held-excludes (Reach-Held sdk localtime h (start-Held s keys) r) saving in
      let v = Reach-Inv s.max_image_size fits r (start-Inv s keys ready) in
      (out, Buffers-Intact sdk z.grab z.station out v.buffers)
