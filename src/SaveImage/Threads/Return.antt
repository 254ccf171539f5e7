-- ===== src/SaveImage/Threads/Return.antt =====
-- SaveImage.cpp: what is left of the two threads once `HandleKeyPress` has returned.
use native.Mathlib.Decide.{ℕ_discrete}
use aggregation.Base.{
  ℕ, ◌+◌, ◌≤◌, ◌<◌, ◌≡◌, ◌⊎◌, inl, inr, refl, ap, true, false, none, List, arith,
}
use aggregation.Sdk.{Sdk, Handle, Trace, get_one_frame, mv_ok}
use aggregation.Station.{Station}
use aggregation.Camera.Lifecycle.{IsReady}
use aggregation.SaveImage.Files.{Tm}
use aggregation.SaveImage.Threads.{
  Grab, checks, polls, unlocks, gone, wants, copies, halfway, Main, skips, reads, asks, saves,
  joins, joined, System, start, Step, leaves, stays, takes, misses, locks, copies_info, copies_data,
  frees, skip, read, spins, enters, writes, meets, Reach, here, next,
}
use aggregation.SaveImage.Threads.Mutex.{inside, is_saving}
use aggregation.SaveImage.Threads.Copies.{Fits}
use aggregation.SaveImage.Threads.Steady.{
  is_over, ends_twice, NoJpeg, Reach-Good, start-Good, copy_info-exit, copy_data-exit,
}
use aggregation.SaveImage.Threads.Progress.{free}

-- How many steps the grab thread can still make once `g_bExit` is set.
abbrev left : Grab → ℕ
left gone = 0
left checks = 1
left unlocks = 2
left (halfway f) = 3
left (copies f) = 4
left (wants f) = 5
left polls = 6

abbrev left_main : Main → ℕ
left_main (skips keys) = 1
left_main (reads keys) = 1
left_main (asks k keys) = 1
left_main (saves k keys) = 1
left_main joins = 1
left_main joined = 0

abbrev rank : System → ℕ
rank y = left y.grab + left_main y.main

record Over (y : System) : Type 0 where
  over : is_over y.main ≡ true
  exit : y.station.exit ≡ true

rank-le : (g : Grab) (m : Main) → left g + left_main m ≤ 7
rank-le g m = ground arith

module _ (sdk : Sdk) (localtime : Trace → Tm) (h : Handle) where
  abbrev pub steps : {y z : System} → Reach sdk localtime h y z → ℕ
  steps here = 0
  steps (next r st) = steps r + 1

  Step-falls : {y z : System} → Step sdk localtime h y z → Over y → Over z × (rank z < rank y)
  Step-falls (leaves g e q) v = ground arith
  Step-falls (stays g e q) v = ground arith
  Step-falls (takes g e q) v = ground arith
  Step-falls (misses g e q) v = ground arith
  Step-falls (locks f g m q) v = ground arith
  Step-falls {y} (copies_info f g q) v = ground (arith, copy_info-exit f.info y.station)
  Step-falls {y} (copies_data f g q) v = ground (arith, copy_data-exit f y.station)
  Step-falls (frees g q) v = ground arith
  Step-falls (skip keys m q) v = ground arith
  Step-falls (read c keys m q) v = ground arith
  Step-falls (spins m q) v = ground arith
  Step-falls (enters k keys m e q) v = ground arith
  Step-falls (writes k keys t m e q) v = ground arith
  Step-falls (meets m g q) v = ground arith

  Reach-falls :
      {y z : System} (r : Reach sdk localtime h y z) → Over y → Over z × (steps r + rank z ≤ rank y)
  Reach-falls here v = (v, omega arith)
  Reach-falls (next r st) v =
      let (u, le) = Reach-falls r v in let (w, lt) = Step-falls st u in (w, omega (arith, le, lt))

  abbrev Moves : System → Type 0
  Moves y = (w : System) × Step sdk localtime h y w

  joins-Moves :
      (g : Grab) (y : System)
      → y.grab ≡ g
      → y.station.exit ≡ true
      → y.main ≡ joins
      → (inside g ≡ false → y.mutex ≡ none)
      → Moves y
  joins-Moves gone y e x m f = (_, meets m e refl)
  joins-Moves checks y e x m f = (_, leaves e x refl)
  joins-Moves unlocks y e x m f = (_, frees e refl)
  joins-Moves (halfway d) y e x m f = (_, copies_data d e refl)
  joins-Moves (copies d) y e x m f = (_, copies_info d e refl)
  joins-Moves (wants d) y e x m f = (_, locks d e (f refl) refl)
  joins-Moves polls y e x m f =
      elim (ℕ_discrete (sdk.code y.station.trace (get_one_frame h)) mv_ok) [
        | yes p ↦ (_, takes e p refl)
        | no p ↦ (_, misses e p refl)
      ]

  -- A state after the return is at `pthread_join` or past it, and at it one of the threads can move.
  Over-Moves :
      (m : Main) (y : System)
      → y.main ≡ m
      → Over y
      → (is_saving y.main ≡ false → inside y.grab ≡ false → y.mutex ≡ none)
      → (y.main ≡ joined) ⊎ Moves y
  Over-Moves (skips keys) y e v f = absurd (ground (arith, e, v.over))
  Over-Moves (reads keys) y e v f = absurd (ground (arith, e, v.over))
  Over-Moves (asks k keys) y e v f = absurd (ground (arith, e, v.over))
  Over-Moves (saves k keys) y e v f = absurd (ground (arith, e, v.over))
  Over-Moves joins y e v f = inr (joins-Moves y.grab y refl v.exit e (f (ap is_saving e)))
  Over-Moves joined y e v f = inl e

  -- `InitResource` has made the buffers, every frame of the reader has its `nFrameLen` bytes and is
  -- shorter than the data buffer, none is a JPEG, and the input has two newlines. In whatever order
  -- the two threads went on until `HandleKeyPress` returned, and in whatever order they go on from
  -- there: they make at most seven more steps, and as long as `pthread_join` has not returned one of
  -- them can make a step.
  pub steps-over_bound :
      (s : Station) (keys : List ℕ)
      → IsReady s
      → Fits sdk s.max_image_size
      → NoJpeg sdk
      → ends_twice keys ≡ true
      → {y z : System} → Reach sdk localtime h (start s keys) y
      → is_over y.main ≡ true
      → (r : Reach sdk localtime h y z)
      → (steps r ≤ 7) × ((z.main ≡ joined) ⊎ ((w : System) × Step sdk localtime h z w))
  steps-over_bound s keys ready fits no_jpeg e {y} {z} before over r =
      let v =
        Reach-Good sdk localtime h s.max_image_size fits no_jpeg before
          (start-Good sdk localtime h s keys ready e) in
      let u = Reach-Good sdk localtime h s.max_image_size fits no_jpeg r v in
      let (o, le) = Reach-falls r (record { over = over; exit = v.owed.exits over }) in
      (
        omega (arith, le, rank-le y.grab y.main),
        Over-Moves z.main z refl o (free sdk localtime h s.max_image_size fits no_jpeg z u),
      )
