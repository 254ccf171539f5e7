-- ===== src/SaveImage/Ending/Keys.antt =====
-- SaveImage.cpp, `HandleKeyPress`: its end, with saves, where no frame is a JPEG and all fit the buffer.
use native.Mathlib.Decide.{ℕ_discrete}
use mathlib.Core.Path.{subst}
use aggregation.Base.{
  ℕ, ◌≡◌, ◌≢◌, ◌⊎◌, inl, inr, refl, sym, ◌∙◌, true, false, none, some, List, [], ◌∷◌, ◌==◌, arith,
  if◌then◌else◌,
}
use aggregation.Sdk.{Sdk, Handle, Trace, get_one_frame, mutex_lock}
use aggregation.Station.{Station, ok, and_then, Ends, Ends-and_then}
use aggregation.Camera.Image.{copy_info, copy_data}
use aggregation.SaveImage.Files.{Tm}
use aggregation.SaveImage.Keys.{
  Event, key, grabbed, locked, skip, press, round, handle_key, handle_key_press,
}
use aggregation.SaveImage.Ending.{raise_exit-Ends}
use aggregation.SaveImage.Threads.{Kind, raw, jpg, bmp, log, save}
use aggregation.SaveImage.Threads.Copies.{
  SameBuffers, save-SameBuffers, Fits, Intact, same-Intact, copy_info-Torn, copied-Intact,
  copy_info-size, copy_data-size,
}
use aggregation.SaveImage.Threads.Steady.{NoJpeg, ends, ends_twice, save-Ends}
use aggregation.SaveImage.Threads.Progress.{saved}
use aggregation.SaveImage.Threads.Rounds.Pressing.{press-grabbed}
use aggregation.SaveImage.Threads.Rounds.Returning.{skip-grabbed}
use aggregation.SaveImage.Keys.{chars}
use aggregation.SaveImage.Threads.Rounds.{copied, round-cases}

module _ (sdk : Sdk) where
  -- The mutex is free, and the buffers are those of one frame, with room for each to come.
  pub record Ready (s : Station) : Type 0 where
    pub free : locked s.trace ≡ false
    pub intact : Intact sdk s
    pub fits : Fits sdk s.max_image_size

  -- A change that leaves the buffers alone.
  pub same-Ready : (s t : Station) → SameBuffers s t → locked t.trace ≡ false → Ready s → Ready t
  same-Ready s t e l v = record {
    free = l;
    intact = same-Intact sdk s t e v.intact;
    fits = subst (Fits sdk) (sym e.2) v.fits;
  }

module _ (sdk : Sdk) (localtime : Trace → Tm) (h : Handle) where
  copied-Ready : (s : Station) → Ready sdk s → Ready sdk (copied sdk localtime h s)
  copied-Ready s v =
      let f = sdk.frame s.trace in
      let locking = log mutex_lock (log (get_one_frame h) s) in
      let before = same-Intact sdk s locking (refl, refl, refl) v.intact in
      let i = copy_info f.info locking in
      let torn = copy_info-Torn sdk f locking before in
      let after =
        copied-Intact sdk f i s.max_image_size v.fits (copy_info-size f.info locking)
          (s.trace, refl) torn in
      record {
        free = refl;
        intact =
            same-Intact sdk (copy_data f i) (copied sdk localtime h s) (refl, refl, refl) after;
        fits = subst (Fits sdk) (sym (copy_data-size f i ∙ copy_info-size f.info locking)) v.fits;
      }

  round-Ready : (s : Station) → Ready sdk s → Ends (λ r t. Ready sdk t) (round sdk localtime h s)
  round-Ready s v = elim (round-cases sdk localtime h s) [
    | inl e ↦ rw e v
    | inr (inl (l, c, e)) ↦ rw e (copied-Ready s v)
    | inr (inr (c, e)) ↦ rw e (same-Ready sdk s _ (refl, refl, refl) v.free v)
  ]

  save-Ready :
      (k : Kind) (s : Station)
      → NoJpeg sdk
      → Ready sdk s
      → Ends (λ r t. Ready sdk t) (save sdk localtime h k s)
  save-Ready k s no_jpeg v =
      let done = save-Ends sdk localtime h k s no_jpeg v.intact in
      let (t, e) = saved sdk localtime h _ _ done in
      let l : locked t.trace ≡ false = subst (Ends (λ r u. locked u.trace ≡ false)) e done in
      rw e (same-Ready sdk s t (save-SameBuffers sdk localtime h k s t e) l v)

  press-cases :
      (c : ℕ) (es : List Event) (s : Station)
      → locked s.trace ≡ false
      → ((c ≡ b'\n') × (press sdk localtime h (key c ∷ es) s ≡ ok (some es) s))
        ⊎ ((c ≢ b'\n')
            × (((k : Kind) × (press sdk localtime h (key c ∷ es) s
                    ≡ and_then (save sdk localtime h k s) (λ _. press sdk localtime h es)))
                ⊎ (press sdk localtime h (key c ∷ es) s ≡ press sdk localtime h es s)))
  unfolding press handle_key save
  press-cases c es s l = elim (ℕ_discrete c b'\n') [
    | yes p ↦ inl (p, ground arith)
    | no n ↦ elim (ℕ_discrete c b'1') [
      | yes p ↦ inr (n, inl (raw, ground arith))
      | no n1 ↦ elim (ℕ_discrete c b'2') [
        | yes p ↦ inr (n, inl (jpg, ground arith))
        | no n2 ↦ elim (ℕ_discrete c b'3') [
          | yes p ↦ inr (n, inl (bmp, ground arith))
          | no n3 ↦ inr (n, inr (ground arith))
        ]
      ]
    ]
  ]

  skip-key :
      (c : ℕ) (es : List Event) (s : Station)
      → skip sdk localtime h (key c ∷ es) s
        ≡ (if c == b'\n' then ok es s else skip sdk localtime h es s)
  unfolding skip
  skip-key c es s = ground arith

  press-saves-Ends :
      (es : List Event) (s : Station)
      → NoJpeg sdk
      → ends (chars es) ≡ true
      → Ready sdk s
      → Ends (λ r t. r ≢ none) (press sdk localtime h es s)
  press-saves-Ends [] s no_jpeg e v = absurd (ground (arith, e))
  press-saves-Ends (grabbed ∷ es) s no_jpeg e v = rw (press-grabbed sdk localtime h es s) (
      Ends-and_then (λ r t. Ready sdk t) (λ r t. r ≢ none) (round sdk localtime h s) _
        (round-Ready s v) (λ r t u. press-saves-Ends es t no_jpeg e u))
  press-saves-Ends (key c ∷ es) s no_jpeg e v =
      let later = press-saves-Ends es in
      elim (press-cases c es s v.free) [
        | inl (p, q) ↦ rw q (λ r. ground (arith, r))
        | inr (n, inl (k, q)) ↦ rw q (
            Ends-and_then (λ r t. Ready sdk t) (λ r t. r ≢ none) (save sdk localtime h k s) _
              (save-Ready k s no_jpeg v) (λ r t u. later t no_jpeg (ground (arith, n, e)) u))
        | inr (n, inr q) ↦ rw q (later s no_jpeg (ground (arith, n, e)) v)
      ]

  skip-saves-Ends :
      (es : List Event) (s : Station)
      → ends_twice (chars es) ≡ true
      → Ready sdk s
      → Ends (λ r t. (ends (chars r) ≡ true) × Ready sdk t) (skip sdk localtime h es s)
  skip-saves-Ends [] s e v = absurd (ground (arith, e))
  skip-saves-Ends (grabbed ∷ es) s e v = rw (skip-grabbed sdk localtime h es s) (
      Ends-and_then (λ r t. Ready sdk t) (λ r t. (ends (chars r) ≡ true) × Ready sdk t)
        (round sdk localtime h s) _ (round-Ready s v) (λ r t u. skip-saves-Ends es t e u))
  skip-saves-Ends (key c ∷ es) s e v =
      let later = skip-saves-Ends es s in
      elim (ℕ_discrete c b'\n') [
        | yes p ↦
            let q : skip sdk localtime h (key c ∷ es) s ≡ ok es s =
              skip-key c es s ∙ ground (arith, p) in
            rw q (ground (arith, e, p), v)
        | no n ↦
            let q : skip sdk localtime h (key c ∷ es) s ≡ skip sdk localtime h es s =
              skip-key c es s ∙ ground (arith, n) in
            rw q (later (ground (arith, e, n)) v)
      ]

  pub handle_key_press-saves-Ends :
      (es : List Event) (s : Station)
      → NoJpeg sdk
      → ends_twice (chars es) ≡ true
      → Ready sdk s
      → Ends (λ b t. b ≡ true) (handle_key_press sdk localtime h es s)
  unfolding handle_key_press
  handle_key_press-saves-Ends es s no_jpeg e v =
      Ends-and_then (λ r t. (ends (chars r) ≡ true) × Ready sdk t) (λ b t. b ≡ true)
        (skip sdk localtime h es s) _ (skip-saves-Ends es s e v)
        λ rest t two.
          Ends-and_then (λ r u. r ≢ none) (λ b u. b ≡ true) (press sdk localtime h rest t) _
            (press-saves-Ends rest t no_jpeg two.0 two.1) (raise_exit-Ends sdk localtime)
