-- ===== src/SaveImage/Threads/Rounds.antt =====
-- SaveImage.cpp: a whole round of the grab thread between two keys, as steps of the two threads.
pub mod Pressing
pub mod Returning
use native.Mathlib.Decide.{ℕ_discrete}
use mathlib.Core.Path.{subst}
use aggregation.Base.{
  Bool-cases, ℕ, ◌≡◌, ◌≢◌, ◌⊎◌, inl, inr, refl, sym, ◌∙◌, ap, Bool, ◌&&◌, true, false, Option, none,
  some, List, [], ◌∷◌, ◌==◌, if◌then◌else◌, arith,
}
use aggregation.Sdk.{Sdk, Handle, Frame, Trace, get_one_frame, mutex_lock, mutex_unlock, mv_ok}
use aggregation.Station.{Station, M, Out, ok, thrown, fault, and_then}
use aggregation.Camera.Image.{copy_info, copy_data, copy_frame}
use aggregation.SaveImage.{grab_round}
use aggregation.SaveImage.Files.{Tm, save_raw_image, save_jpeg_image, save_bmp_image}
use aggregation.SaveImage.Keys.{
  Event, key, grabbed, chars, locked, press, round, handle_key, raise_exit, handle_key_press,
}
use aggregation.SaveImage.Keys
use aggregation.SaveImage.Threads.{
  Grab, checks, polls, unlocks, gone, wants, copies, halfway, Main, skips, reads, asks, saves,
  joins, joined, Owner, Kind, raw, jpg, bmp, grabber, saver, System, start, log, skip_key, read_key,
  set_exit, after_save, save, Step, leaves, stays, takes, misses, locks, copies_info, copies_data,
  frees, skip, read, spins, enters, writes, meets, Reach, here, next,
}
use aggregation.SaveImage.Threads.Rest.{Reach-trans}

-- The grab thread is between two rounds, and the mutex as the calls so far have left it.
abbrev pub between : Station → Main → System
between s m = record { station = s; mutex = after_save s; grab = checks; main = m }

ok_same : (s t : Station) → ◌≡◌ {A = Out (Unit {0})} (ok tt s) (ok tt t) → s ≡ t
ok_same s t e = cc

module _ {A B : Type 0} where
  pub and_then_ok :
      (o : Out A) (f : A → M B) (b : B) (t : Station)
      → and_then o f ≡ ok b t
      → (a : A) × (s : Station) × (o ≡ ok a s) × (f a s ≡ ok b t)
  and_then_ok (ok a s) f b t e = (a, s, refl, e)
  and_then_ok (thrown c s) f b t e = absurd (ground (arith, e))
  and_then_ok (fault x) f b t e = absurd (ground (arith, e))

module _ (sdk : Sdk) (localtime : Trace → Tm) (h : Handle) where
  -- The state after a frame was copied.
  abbrev pub copied : Station → Station
  copied s =
      let f = sdk.frame s.trace in
      log mutex_unlock (copy_data f (copy_info f.info (log mutex_lock (log (get_one_frame h) s))))

  copied-Reach :
      (s : Station) (m : Main)
      → s.exit ≡ false
      → locked s.trace ≡ false
      → sdk.code s.trace (get_one_frame h) ≡ mv_ok
      → Reach sdk localtime h (between s m) (between (copied s) m)
  copied-Reach s m e l c =
      let f = sdk.frame s.trace in
      let free : after_save s ≡ none = ground (arith, l) in
      next
        (next
          (next
            (next (next (next here (stays refl e refl)) (takes refl c refl))
              (locks f refl free refl))
            (copies_info f refl refl))
          (copies_data f refl refl))
        (frees refl refl)

  missed-Reach :
      (s : Station) (m : Main)
      → s.exit ≡ false
      → sdk.code s.trace (get_one_frame h) ≢ mv_ok
      → Reach sdk localtime h (between s m) (between (log (get_one_frame h) s) m)
  missed-Reach s m e c = next (next here (stays refl e refl)) (misses refl c refl)

  copied-exit : (s : Station) → (copied s).exit ≡ s.exit
  unfolding copy_info copy_data
  copied-exit s = ground arith

  pub round-cases :
      (s : Station)
      → (round sdk localtime h s ≡ ok tt s)
        ⊎ (((locked s.trace ≡ false)
              × (sdk.code s.trace (get_one_frame h) ≡ mv_ok)
              × (round sdk localtime h s ≡ ok tt (copied s)))
            ⊎ ((sdk.code s.trace (get_one_frame h) ≢ mv_ok)
                × (round sdk localtime h s ≡ ok tt (log (get_one_frame h) s))))
  unfolding round grab_round copy_frame
  round-cases s = elim (Bool-cases (locked s.trace)) [
    | inl l ↦ inl (ground arith)
    | inr l ↦ elim (ℕ_discrete (sdk.code s.trace (get_one_frame h)) mv_ok) [
      | yes p ↦ inr (inl (l, p, ground arith))
      | no p ↦ inr (inr (p, ground arith))
    ]
  ]

  pub round-Reach :
      (s t : Station) (m : Main)
      → s.exit ≡ false
      → round sdk localtime h s ≡ ok tt t
      → Reach sdk localtime h (between s m) (between t m) × (t.exit ≡ false)
  round-Reach s t m e r = elim (round-cases s) [
    | inl q ↦ ends_at s t (sym q ∙ r) (here, e)
    | inr (inl (l, c, q)) ↦
        ends_at (copied s) t (sym q ∙ r) (copied-Reach s m e l c, copied-exit s ∙ e)
    | inr (inr (c, q)) ↦ ends_at _ t (sym q ∙ r) (missed-Reach s m e c, e)
  ]
    where
      ends_at :
          (a t : Station)
          → ◌≡◌ {A = Out (Unit {0})} (ok tt a) (ok tt t)
          → Reach sdk localtime h (between s m) (between a m) × (a.exit ≡ false)
          → Reach sdk localtime h (between s m) (between t m) × (t.exit ≡ false)
      ends_at a t q v =
          subst (λ u. Reach sdk localtime h (between s m) (between u m) × (u.exit ≡ false))
            (ok_same a t q) v
