-- ===== src/SaveImage/Threads/Progress.antt =====
-- SaveImage.cpp: that the two threads can always go on to the end.
use native.Mathlib.Decide.{ℕ_discrete}
use aggregation.Base.{ℕ, ◌≡◌, ◌⊎◌, inl, inr, refl, ◌∙◌, ap, true, false, none, List, [], ◌∷◌, arith}
use aggregation.Sdk.{Sdk, Handle, Trace}
use aggregation.Station.{Station, Out, ok, thrown, fault, Ends}
use aggregation.Camera.Lifecycle.{IsReady}
use aggregation.SaveImage.Files.{Tm}
use aggregation.SaveImage.Threads.{
  Grab, checks, polls, unlocks, gone, wants, copies, halfway, Main, skips, reads, asks, saves,
  joins, joined, Kind, raw, jpg, bmp, System, start, skip_key, read_key, Step, leaves, skip, read,
  enters, writes, meets, Reach, here, next,
}
use aggregation.SaveImage.Threads.Mutex.{inside, is_saving}
use aggregation.SaveImage.Threads.Copies.{Fits}
use aggregation.SaveImage.Threads.Steady.{
  will_end, is_over, ends_twice, NoJpeg, Good, Step-Good, Reach-Good, start-Good, saving-Ends,
}
use aggregation.SaveImage.Threads.Rest.{rests, rests-inside, Reach-trans, rest}

read_key-cases :
    (c : ℕ) (keys : List ℕ)
    → (read_key c keys ≡ joins)
      ⊎ (((k : Kind) × (read_key c keys ≡ asks k keys)) ⊎ (read_key c keys ≡ reads keys))
unfolding read_key
read_key-cases c keys = elim (ℕ_discrete c b'\n') [
  | yes p ↦ inl (ground arith)
  | no p ↦ elim (ℕ_discrete c b'1') [
    | yes q ↦ inr (inl (raw, ground arith))
    | no q ↦ elim (ℕ_discrete c b'2') [
      | yes r ↦ inr (inl (jpg, ground arith))
      | no r ↦ elim (ℕ_discrete c b'3') [
        | yes t ↦ inr (inl (bmp, ground arith))
        | no t ↦ inr (inr (ground arith))
      ]
    ]
  ]
]

skip_key-cases :
    (c : ℕ) (keys : List ℕ)
    → (skip_key (c ∷ keys) ≡ reads keys) ⊎ (skip_key (c ∷ keys) ≡ skips keys)
unfolding skip_key
skip_key-cases c keys = elim (ℕ_discrete c b'\n') [
  | yes p ↦ inl (ground arith)
  | no p ↦ inr (ground arith)
]

module _ (sdk : Sdk) (localtime : Trace → Tm) (h : Handle) where
  -- `pthread_join` returns.
  abbrev pub Joins : System → Type 0
  Joins y = (z : System) × Reach sdk localtime h y z × (z.main ≡ joined)

  onward : {y w : System} → Reach sdk localtime h y w → Joins w → Joins y
  onward r (z, s, e) = (z, Reach-trans sdk localtime h r s, e)

  by : {y w : System} → Step sdk localtime h y w → Joins w → Joins y
  by st = onward (next here st)

  join_gone : (y : System) → y.main ≡ joins → y.grab ≡ gone → Joins y
  join_gone y m g = by (meets m g refl) (_, here, refl)

  join :
      (g : Grab) (y : System)
      → y.grab ≡ g
      → rests g ≡ true
      → y.main ≡ joins
      → y.station.exit ≡ true
      → Joins y
  join checks y g r m e = by (leaves g e refl) (join_gone _ m refl)
  join polls y g r m e = absurd (ground arith)
  join unlocks y g r m e = absurd (ground arith)
  join gone y g r m e = join_gone y m g
  join (wants f) y g r m e = absurd (ground arith)
  join (copies f) y g r m e = absurd (ground arith)
  join (halfway f) y g r m e = absurd (ground arith)

  pub saved :
      (P : Unit {0} → Station → Type 0) (o : Out (Unit {0}))
      → Ends P o
      → (t : Station) × (o ≡ ok tt t)
  saved P (ok tt t) e = (t, refl)
  saved P (thrown c t) e = absurd e
  saved P (fault x) e = absurd e

  module _ (max : ℕ) (fits : Fits sdk max) (no_jpeg : NoJpeg sdk) where
    -- Whoever stands before its `lock` finds the mutex free, or held by the other thread.
    pub free :
        (y : System)
        → Good sdk localtime h max y
        → is_saving y.main ≡ false
        → inside y.grab ≡ false
        → y.mutex ≡ none
    free y v s g = ground (arith, v.held.grabbed, v.owed.saver_saves)

    step :
        {y z : System}
        → Step sdk localtime h y z
        → Good sdk localtime h max y
        → Good sdk localtime h max z
    step st v = Step-Good sdk localtime h max fits no_jpeg st v

    save_ends :
        (k : Kind) (keys : List ℕ) (y : System)
        → y.main ≡ saves k keys
        → Good sdk localtime h max y
        → ((w : System)
            → w.main ≡ reads keys
            → w.grab ≡ y.grab
            → Good sdk localtime h max w
            → Joins w)
        → Joins y
    save_ends k keys y m v later =
        let is = ap is_saving m in
        let (t, e) = saved _ _ (saving-Ends sdk localtime h max k y no_jpeg v is) in
        let st : Step sdk localtime h y _ = writes k keys t m e refl in
        by st (later _ refl refl (step st v))

    asked :
        (k : Kind) (keys : List ℕ) (y : System)
        → y.main ≡ asks k keys
        → rests y.grab ≡ true
        → Good sdk localtime h max y
        → ((w : System)
            → w.main ≡ reads keys
            → rests w.grab ≡ true
            → Good sdk localtime h max w
            → Joins w)
        → Joins y
    asked k keys y m r v later =
        let none_holds = free y v (ap is_saving m) (rests-inside y.grab r) in
        let st : Step sdk localtime h y _ = enters k keys m none_holds refl in
        by st (save_ends k keys _ refl (step st v) (λ w m' g u. later w m' (ap rests g ∙ r) u))

    read_on :
        (keys : List ℕ) (y : System)
        → y.main ≡ reads keys
        → rests y.grab ≡ true
        → Good sdk localtime h max y
        → Joins y
    read_on [] y m r v = absurd (ground (arith, ap will_end m, v.owed.lines))
    read_on (c ∷ keys) y m r v =
        let st : Step sdk localtime h y _ = read c keys m refl in
        let u = step st v in
        let later = λ (w : System) (e : w.main ≡ reads keys). read_on keys w e in
        elim (read_key-cases c keys) [
          | inl e ↦ by st (join y.grab _ refl r e (u.owed.exits (ap is_over e)))
          | inr (inl (k, e)) ↦ by st (asked k keys _ e r u later)
          | inr (inr e) ↦ by st (later _ e r u)
        ]

    skip_on :
        (keys : List ℕ) (y : System)
        → y.main ≡ skips keys
        → rests y.grab ≡ true
        → Good sdk localtime h max y
        → Joins y
    skip_on [] y m r v = absurd (ground (arith, ap will_end m, v.owed.lines))
    skip_on (c ∷ keys) y m r v =
        let st : Step sdk localtime h y _ = skip (c ∷ keys) m refl in
        let u = step st v in
        let later = λ (w : System) (e : w.main ≡ skips keys). skip_on keys w e in
        elim (skip_key-cases c keys) [
          | inl e ↦ by st (read_on keys _ e r u)
          | inr e ↦ by st (later _ e r u)
        ]

    go :
        (m : Main) (y : System)
        → y.main ≡ m
        → rests y.grab ≡ true
        → Good sdk localtime h max y
        → is_saving m ≡ false
        → Joins y
    go (skips keys) y e r v f = skip_on keys y e r v
    go (reads keys) y e r v f = read_on keys y e r v
    go (asks k keys) y e r v f = asked k keys y e r v (read_on keys)
    go (saves k keys) y e r v f = absurd (ground arith)
    go joins y e r v f = join y.grab y refl r e (v.owed.exits (ap is_over e))
    go joined y e r v f = (y, here, e)

    -- First the grab thread ends its round, then the thread of `main` goes on.
    go_on : (y : System) → Good sdk localtime h max y → is_saving y.main ≡ false → Joins y
    go_on y v f =
        let (z, r, e, g) = rest sdk localtime h y.grab y refl (free y v f) in
        onward r (
          go z.main z refl g (Reach-Good sdk localtime h max fits no_jpeg r v) (ap is_saving e ∙ f))

    Good-Joins : (m : Main) (y : System) → y.main ≡ m → Good sdk localtime h max y → Joins y
    Good-Joins (skips keys) y e v = go_on y v (ap is_saving e)
    Good-Joins (reads keys) y e v = go_on y v (ap is_saving e)
    Good-Joins (asks k keys) y e v = go_on y v (ap is_saving e)
    Good-Joins (saves k keys) y e v = save_ends k keys y e v (λ w m g u. go_on w u (ap is_saving m))
    Good-Joins joins y e v = go_on y v (ap is_saving e)
    Good-Joins joined y e v = go_on y v (ap is_saving e)

  -- `InitResource` has made the buffers, every frame of the reader has its `nFrameLen` bytes and is
  -- shorter than the data buffer, none is a JPEG, and the input has two newlines.
  -- However the two threads took turns so far, they can go on to where `pthread_join` returns.
  pub start-Joins :
      (s : Station) (keys : List ℕ)
      → IsReady s
      → Fits sdk s.max_image_size
      → NoJpeg sdk
      → ends_twice keys ≡ true
      → {z : System} → Reach sdk localtime h (start s keys) z
      → Joins z
  start-Joins s keys ready fits no_jpeg e {z} r =
      let v = start-Good sdk localtime h s keys ready e in
      Good-Joins s.max_image_size fits no_jpeg z.main z refl
        (Reach-Good sdk localtime h s.max_image_size fits no_jpeg r v)
