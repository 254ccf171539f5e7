-- ===== src/SaveImage/Threads/Rounds/Returning.antt =====
-- SaveImage.cpp: `HandleKeyPress` up to its return, with whole rounds of the grab thread between two
-- keys, as a run of the two threads.
use native.Mathlib.Decide.{ℕ_discrete}
use mathlib.Core.Path.{subst}
use aggregation.Base.{
  ℕ, ◌≡◌, ◌⊎◌, inl, inr, refl, sym, ◌∙◌, ap, true, false, Option, none, some, List, [], ◌∷◌, arith,
}
use aggregation.Sdk.{Sdk, Handle, Trace}
use aggregation.Station.{Station, ok, and_then}
use aggregation.SaveImage.Files.{Tm}
use aggregation.SaveImage.Keys.{
  Event, key, grabbed, locked, press, round, handle_key, raise_exit, handle_key_press,
}
use aggregation.SaveImage.Keys
use aggregation.SaveImage.Threads.{
  checks, Main, skips, reads, joins, start, skip_key, after_save, skip, Reach, here, next,
}
use aggregation.SaveImage.Threads.Rest.{Reach-trans}
use aggregation.SaveImage.Keys.{chars}
use aggregation.SaveImage.Threads.Rounds.{between, and_then_ok, round-Reach}
use aggregation.SaveImage.Threads.Rounds.Pressing.{press-Reach}

module _ (sdk : Sdk) (localtime : Trace → Tm) (h : Handle) where
  -- The first loop.
  pub skip-grabbed :
      (es : List Event) (s : Station)
      → Keys.skip sdk localtime h (grabbed ∷ es) s
        ≡ and_then (round sdk localtime h s) (λ _. Keys.skip sdk localtime h es)
  unfolding Keys.skip
  skip-grabbed es s = refl

  skip-cases :
      (c : ℕ) (es : List Event) (s : Station) (rest : List Event) (t : Station)
      → Keys.skip sdk localtime h (key c ∷ es) s ≡ ok rest t
      → ((skip_key (c ∷ chars es) ≡ reads (chars rest)) × (s ≡ t))
        ⊎ ((skip_key (c ∷ chars es) ≡ skips (chars es))
            × (Keys.skip sdk localtime h es s ≡ ok rest t))
  unfolding Keys.skip skip_key
  skip-cases c es s rest t e = elim (ℕ_discrete c b'\n') [
    | yes p ↦ inl (ground (arith, p, e), ground (arith, p, e))
    | no n ↦ inr (ground (arith, n), ground (arith, n, e))
  ]

  skip-nil :
      (s : Station) (rest : List Event) (t : Station)
      → Keys.skip sdk localtime h [] s ≡ ok rest t
      → (skip_key [] ≡ reads (chars rest)) × (s ≡ t)
  unfolding Keys.skip skip_key
  skip-nil s rest t e = (ground (arith, e), ground (arith, e))

  skipped :
      (keys : List ℕ) (s t : Station) (m : Main)
      → skip_key keys ≡ m
      → s ≡ t
      → Reach sdk localtime h (between s (skips keys)) (between t m)
  skipped keys s t m e q = next here (skip keys refl (ground (arith, e, q)))

  skip-Reach :
      (es : List Event) (s : Station) (rest : List Event) (t : Station)
      → s.exit ≡ false
      → Keys.skip sdk localtime h es s ≡ ok rest t
      → Reach sdk localtime h (between s (skips (chars es))) (between t (reads (chars rest)))
        × (t.exit ≡ false)
  skip-Reach [] s rest t x e =
      let (a, q) = skip-nil s rest t e in (skipped [] s t _ a q, ap (λ u. u.exit) (sym q) ∙ x)
  skip-Reach (grabbed ∷ es) s rest t x e =
      let (a, u, e1, e2) =
        and_then_ok (round sdk localtime h s) (λ _. Keys.skip sdk localtime h es) rest t
          (sym (skip-grabbed es s) ∙ e) in
      let (r, x') = round-Reach sdk localtime h s u (skips (chars es)) x e1 in
      let (r', y) = skip-Reach es u rest t x' e2 in (Reach-trans sdk localtime h r r', y)
  skip-Reach (key c ∷ es) s rest t x e =
      let later = skip-Reach es s rest t x in
      elim (skip-cases c es s rest t e) [
        | inl (a, q) ↦ (skipped (c ∷ chars es) s t _ a q, ap (λ u. u.exit) (sym q) ∙ x)
        | inr (a, e1) ↦
            let (r, y) = later e1 in
            (Reach-trans sdk localtime h (skipped (c ∷ chars es) s s _ a refl) r, y)
      ]

  raise-cases :
      (o : Option (List Event)) (v t : Station)
      → raise_exit o v ≡ ok true t
      → (left : List Event) × (o ≡ some left) × (record v { exit = true } ≡ t)
  unfolding raise_exit
  raise-cases none v t e = absurd (ground (arith, e))
  raise-cases (some left) v t e = (left, refl, ground (arith, e))

  -- The mutex is free and `g_bExit` clear. A run of `HandleKeyPress` from `pthread_create` on, with whole rounds of the grab thread between
  -- two characters, that returns: the two threads can take the same turns, and they come to the same
  -- station, with the grab thread between two rounds, and `main` before `pthread_join`.
  pub handle_key_press-Reach :
      (es : List Event) (s t : Station)
      → s.exit ≡ false
      → locked s.trace ≡ false
      → handle_key_press sdk localtime h es s ≡ ok true t
      → Reach sdk localtime h (start s (chars es)) (between t joins)
  unfolding handle_key_press
  handle_key_press-Reach es s t x l e =
      let run = Keys.skip sdk localtime h es s in
      let (rest, u, e1, e2) =
        and_then_ok run (λ rest u. and_then (press sdk localtime h rest u) raise_exit) true t e in
      let (o, v, e3, e4) = and_then_ok (press sdk localtime h rest u) raise_exit true t e2 in
      let (left, e5, e6) = raise-cases o v t e4 in
      let (r, y) = skip-Reach es s rest u x e1 in
      let r' = press-Reach sdk localtime h rest u left v y (e3 ∙ ap (λ p. ok p v) e5) in
      let free : after_save s ≡ none = ground (arith, l) in
      subst
        (λ m.
          Reach sdk localtime h
            (record { station = s; mutex = m; grab = checks; main = skips (chars es) })
            (between t joins))
        free
        (subst (λ w. Reach sdk localtime h (between s (skips (chars es))) (between w joins)) e6
          (Reach-trans sdk localtime h r r'))
