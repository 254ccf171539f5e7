-- ===== src/SaveImage/Threads/Rounds/Pressing.antt =====
-- SaveImage.cpp: the second loop of `HandleKeyPress`, with whole rounds of the grab thread between two
-- keys, as a run of the two threads.
use native.Mathlib.Decide.{ℕ_discrete}
use mathlib.Core.Path.{subst}
use aggregation.Base.{
  Bool-cases, ℕ, ◌≡◌, ◌≢◌, ◌⊎◌, inl, inr, refl, sym, ◌∙◌, true, false, none, some, List, [], ◌∷◌,
  if◌then◌else◌, arith,
}
use aggregation.Sdk.{Sdk, Handle, Trace}
use aggregation.Station.{Station, ok, and_then}
use aggregation.SaveImage.Files.{Tm}
use aggregation.SaveImage.Keys.{Event, key, grabbed, locked, press, round, handle_key}
use aggregation.SaveImage.Threads.{
  Main, reads, asks, joins, Kind, raw, jpg, bmp, read_key, set_exit, save, Step, read, enters,
  writes, Reach, here, next,
}
use aggregation.SaveImage.Threads.Rest.{Reach-trans}
use aggregation.SaveImage.Keys.{chars}
use aggregation.SaveImage.Threads.Rounds.{between, and_then_ok, round-Reach}

module _ (sdk : Sdk) (localtime : Trace → Tm) (h : Handle) where
  save-exit : (k : Kind) (s t : Station) → save sdk localtime h k s ≡ ok tt t → t.exit ≡ s.exit
  unfolding save
  save-exit raw s t e = ground arith
  save-exit jpg s t e = ground arith
  save-exit bmp s t e = ground arith

  -- What a run of the loop has done with its first character: saved, or gone on.
  abbrev Saved : ℕ → List Event → Station → List Event → Station → Kind → Type 0
  Saved c es s rest t k =
      (c ≢ b'\n')
      × ((keys : List ℕ) → read_key c keys ≡ asks k keys)
      × (locked s.trace ≡ false)
      × ((u : Station) × (save sdk localtime h k s ≡ ok tt u)
          × (press sdk localtime h es u ≡ ok (some rest) t))

  abbrev Passed : ℕ → List Event → Station → List Event → Station → Type 0
  Passed c es s rest t =
      (c ≢ b'\n')
      × ((keys : List ℕ) → read_key c keys ≡ reads keys)
      × (press sdk localtime h es s ≡ ok (some rest) t)

  press-save :
      (c : ℕ) (k : Kind) (es : List Event) (s : Station) (rest : List Event) (t : Station)
      → c ≢ b'\n'
      → ((keys : List ℕ) → read_key c keys ≡ asks k keys)
      → (handle_key sdk localtime h c s ≡ save sdk localtime h k s)
      → (press sdk localtime h (key c ∷ es) s ≡ (
          if locked s.trace
          then ok none s
          else and_then (handle_key sdk localtime h c s) (λ _. press sdk localtime h es)))
      → press sdk localtime h (key c ∷ es) s ≡ ok (some rest) t
      → Saved c es s rest t k
  press-save c k es s rest t n a q p e = elim (Bool-cases (locked s.trace)) [
    | inl l ↦ absurd (ground (arith, l, p, e))
    | inr l ↦
        let (x, u, e1, e2) =
          and_then_ok (handle_key sdk localtime h c s) (λ _. press sdk localtime h es) (some rest) t
            (ground (arith, l, p, e)) in
        (n, a, l, (u, sym q ∙ e1, e2))
  ]

  press-cases :
      (c : ℕ) (es : List Event) (s : Station) (rest : List Event) (t : Station)
      → press sdk localtime h (key c ∷ es) s ≡ ok (some rest) t
      → ((c ≡ b'\n') × (s ≡ t)) ⊎ (((k : Kind) × Saved c es s rest t k) ⊎ Passed c es s rest t)
  unfolding press read_key handle_key save
  press-cases c es s rest t e = elim (ℕ_discrete c b'\n') [
    | yes p ↦ inl (p, ground (arith, e))
    | no n ↦ elim (ℕ_discrete c b'1') [
      | yes p ↦ inr (
          inl (
            raw,
            press-save c raw es s rest t n (λ keys. ground arith) (ground arith) (ground arith) e,
          ))
      | no n1 ↦ elim (ℕ_discrete c b'2') [
        | yes p ↦ inr (
            inl (
              jpg,
              press-save c jpg es s rest t n (λ keys. ground arith) (ground arith) (ground arith) e,
            ))
        | no n2 ↦ elim (ℕ_discrete c b'3') [
          | yes p ↦ inr (
              inl (
                bmp,
                press-save c bmp es s rest t n (λ keys. ground arith) (ground arith) (ground arith)
                    e,
              ))
          | no n3 ↦ inr (inr (n, λ keys. ground arith, ground (arith, e)))
        ]
      ]
    ]
  ]

  pub press-grabbed :
      (es : List Event) (s : Station)
      → press sdk localtime h (grabbed ∷ es) s
        ≡ and_then (round sdk localtime h s) (λ _. press sdk localtime h es)
  unfolding press
  press-grabbed es s = refl

  press-none :
      (s : Station) (rest : List Event) (t : Station)
      → press sdk localtime h [] s ≢ ok (some rest) t
  unfolding press
  press-none s rest t e = ground (arith, e)

  -- The step for a newline.
  line_step :
      (c : ℕ) (keys : List ℕ) (s : Station)
      → c ≡ b'\n'
      → Step sdk localtime h
          (between s (reads (c ∷ keys)))
          (between (record s { exit = true }) joins)
  unfolding read_key set_exit
  line_step c keys s e = read c keys refl (ground (arith, e))

  -- The step for another character.
  key_step :
      (c : ℕ) (keys : List ℕ) (s : Station) (m : Main)
      → c ≢ b'\n'
      → read_key c keys ≡ m
      → Step sdk localtime h (between s (reads (c ∷ keys))) (between s m)
  unfolding set_exit
  key_step c keys s m n e = read c keys refl (ground (arith, n, e))

  save-Reach :
      (k : Kind) (keys : List ℕ) (s t : Station)
      → locked s.trace ≡ false
      → save sdk localtime h k s ≡ ok tt t
      → Reach sdk localtime h (between s (asks k keys)) (between t (reads keys))
  save-Reach k keys s t l e =
      next (next here (enters k keys refl (ground (arith, l)) refl)) (writes k keys t refl e refl)

  pub press-Reach :
      (es : List Event) (s : Station) (rest : List Event) (t : Station)
      → s.exit ≡ false
      → press sdk localtime h es s ≡ ok (some rest) t
      → Reach sdk localtime h
          (between s (reads (chars es)))
          (between (record t { exit = true }) joins)
  press-Reach [] s rest t x e = absurd (press-none s rest t e)
  press-Reach (grabbed ∷ es) s rest t x e =
      let (a, u, e1, e2) =
        and_then_ok (round sdk localtime h s) (λ _. press sdk localtime h es) (some rest) t
          (sym (press-grabbed es s) ∙ e) in
      let (r, x') = round-Reach sdk localtime h s u (reads (chars es)) x e1 in
      Reach-trans sdk localtime h r (press-Reach es u rest t x' e2)
  press-Reach (key c ∷ es) s rest t x e =
      let later = press-Reach es in
      elim (press-cases c es s rest t e) [
        | inl (n, q) ↦
            subst
              (λ u.
                Reach sdk localtime h (between s (reads (c ∷ chars es)))
                  (between (record u { exit = true }) joins))
              q (next here (line_step c (chars es) s n))
        | inr (inl (k, v)) ↦
            let (n, a, l, (u, e1, e2)) = v in
            Reach-trans sdk localtime h
              (next here (key_step c (chars es) s (asks k (chars es)) n (a (chars es))))
              (Reach-trans sdk localtime h (save-Reach k (chars es) s u l e1)
                (later u rest t (save-exit k s u e1 ∙ x) e2))
        | inr (inr (n, a, e1)) ↦
            Reach-trans sdk localtime h
              (next here (key_step c (chars es) s (reads (chars es)) n (a (chars es))))
              (later s rest t x e1)
      ]
