-- ===== src/SaveImage/Threads/Typing.antt =====
-- SaveImage.cpp: how far `HandleKeyPress` gets while the grab thread runs.
use aggregation.Base.{
  ℕ, ◌+◌, ◌*◌, ◌≤◌, ◌<◌, ◌≡◌, ◌⊎◌, inl, inr, refl, ap, Bool, true, false, Bool-cases, List, [], ◌∷◌,
  length, arith, if◌then◌else◌,
}
use aggregation.Sdk.{Sdk, Handle, Trace}
use aggregation.Station.{Station}
use aggregation.Camera.Lifecycle.{IsReady}
use aggregation.SaveImage.Files.{Tm}
use aggregation.SaveImage.Threads.{
  Main, skips, reads, asks, saves, joins, joined, Kind, System, start, skip_key, read_key, Step,
  leaves, stays, takes, misses, locks, copies_info, copies_data, frees, skip, read, spins, enters,
  writes, meets, Reach, here, next,
}
use aggregation.SaveImage.Threads.Mutex.{inside, is_saving}
use aggregation.SaveImage.Threads.Copies.{Fits}
use aggregation.SaveImage.Threads.Steady.{
  is_over, will_end, ends_twice, NoJpeg, Good, Reach-Good, start-Good, saving-Ends,
}
use aggregation.SaveImage.Threads.Progress.{free, saved}

-- The steps that the thread of `main` still has to make: three for a key that saves.
abbrev work : Main → ℕ
work (skips keys) = 3 * length keys + 2
work (reads keys) = 3 * length keys + 1
work (asks k keys) = 3 * length keys + 3
work (saves k keys) = 3 * length keys + 2
work joins = 1
work joined = 0

work-skip_key : (keys : List ℕ) → work (skip_key keys) < work (skips keys)
unfolding skip_key
work-skip_key [] = ground arith
work-skip_key (c ∷ keys) = ground arith

work-read_key : (c : ℕ) (keys : List ℕ) → work (read_key c keys) < work (reads (c ∷ keys))
unfolding read_key
work-read_key c keys = ground arith

module _ (sdk : Sdk) (localtime : Trace → Tm) (h : Handle) where
  -- The steps of the thread of `main`.
  abbrev pub is_main : {y z : System} → Step sdk localtime h y z → Bool
  is_main (leaves g e q) = false
  is_main (stays g e q) = false
  is_main (takes g e q) = false
  is_main (misses g e q) = false
  is_main (locks f g m q) = false
  is_main (copies_info f g q) = false
  is_main (copies_data f g q) = false
  is_main (frees g q) = false
  is_main (skip keys m q) = true
  is_main (read c keys m q) = true
  is_main (spins m q) = true
  is_main (enters k keys m e q) = true
  is_main (writes k keys t m e q) = true
  is_main (meets m g q) = true

  abbrev pub main_steps : {y z : System} → Reach sdk localtime h y z → ℕ
  main_steps here = 0
  main_steps (next r st) = main_steps r + (if is_main st then 1 else 0)

  Step-work :
      {y z : System} (st : Step sdk localtime h y z)
      → will_end y.main ≡ true
      → work z.main + (if is_main st then 1 else 0) ≤ work y.main
  Step-work (leaves g e q) v = ground arith
  Step-work (stays g e q) v = ground arith
  Step-work (takes g e q) v = ground arith
  Step-work (misses g e q) v = ground arith
  Step-work (locks f g m q) v = ground arith
  Step-work (copies_info f g q) v = ground arith
  Step-work (copies_data f g q) v = ground arith
  Step-work (frees g q) v = ground arith
  Step-work (skip keys m q) v = ground (arith, work-skip_key keys)
  Step-work (read c keys m q) v = ground (arith, work-read_key c keys)
  Step-work (spins m q) v = ground arith
  Step-work (enters k keys m e q) v = ground arith
  Step-work (writes k keys t m e q) v = ground arith
  Step-work (meets m g q) v = ground arith

  abbrev Types : System → Type 0
  Types z = (w : System) × (st : Step sdk localtime h z w) × (is_main st ≡ true)

  module _ (max : ℕ) (fits : Fits sdk max) (no_jpeg : NoJpeg sdk) where
    Reach-work :
        {y z : System} (r : Reach sdk localtime h y z)
        → Good sdk localtime h max y
        → work z.main + main_steps r ≤ work y.main
    Reach-work here v = omega arith
    Reach-work (next r st) v =
        let u = Reach-Good sdk localtime h max fits no_jpeg r v in
        omega (arith, Reach-work r v, Step-work st u.owed.lines)

    asks-Types :
        (k : Kind) (keys : List ℕ) (y : System)
        → y.main ≡ asks k keys
        → Good sdk localtime h max y
        → (inside y.grab ≡ true) ⊎ Types y
    asks-Types k keys y e v = elim (Bool-cases (inside y.grab)) [
      | inl i ↦ inl i
      | inr o ↦
          let none_holds = free sdk localtime h max fits no_jpeg y v (ap is_saving e) o in
          inr (_, enters k keys e none_holds refl, refl)
    ]

    saves-Types :
        (k : Kind) (keys : List ℕ) (y : System)
        → y.main ≡ saves k keys
        → Good sdk localtime h max y
        → Types y
    saves-Types k keys y e v =
        let (t, q) =
          saved sdk localtime h _ _
            (saving-Ends sdk localtime h max k y no_jpeg v (ap is_saving e)) in
        (_, writes k keys t e q refl, refl)

    Good-Types :
        (m : Main) (y : System)
        → y.main ≡ m
        → Good sdk localtime h max y
        → (is_over y.main ≡ true) ⊎ ((inside y.grab ≡ true) ⊎ Types y)
    Good-Types (skips keys) y e v = inr (inr (_, skip keys e refl, refl))
    Good-Types (reads []) y e v = absurd (ground (arith, ap will_end e, v.owed.lines))
    Good-Types (reads (c ∷ keys)) y e v = inr (inr (_, read c keys e refl, refl))
    Good-Types (asks k keys) y e v = inr (asks-Types k keys y e v)
    Good-Types (saves k keys) y e v = inr (inr (saves-Types k keys y e v))
    Good-Types joins y e v = inl (ap is_over e)
    Good-Types joined y e v = inl (ap is_over e)

  -- `InitResource` has made the buffers, every frame of the reader has its `nFrameLen` bytes and is
  -- shorter than the data buffer, none is a JPEG, and the input has two newlines. In whatever order
  -- the two threads go on from `pthread_create`: the thread of `main` makes at most three steps for each
  -- character of the input and two more, and until `HandleKeyPress` has returned it can make its next
  -- step, unless the grab thread is within its `lock` and `unlock`.
  pub main_steps_bound :
      (s : Station) (keys : List ℕ)
      → IsReady s
      → Fits sdk s.max_image_size
      → NoJpeg sdk
      → ends_twice keys ≡ true
      → {z : System} (r : Reach sdk localtime h (start s keys) z)
      → (main_steps r ≤ 3 * length keys + 2)
        × ((is_over z.main ≡ true)
            ⊎ ((inside z.grab ≡ true)
                ⊎ ((w : System) × (st : Step sdk localtime h z w) × (is_main st ≡ true))))
  main_steps_bound s keys ready fits no_jpeg e {z} r =
      let first = start-Good sdk localtime h s keys ready e in
      let v = Reach-Good sdk localtime h s.max_image_size fits no_jpeg r first in
      (
        omega (arith, Reach-work s.max_image_size fits no_jpeg r first),
        Good-Types s.max_image_size fits no_jpeg z.main z refl v,
      )
