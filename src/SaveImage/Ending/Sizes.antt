-- ===== src/SaveImage/Ending/Sizes.antt =====
-- SaveImage.cpp, `InitResource`: the size of the data buffer, and that the frames fit it.
use native.Mathlib.Decide.{ℕ_discrete}
use mathlib.Core.Path.{subst}
use aggregation.Base.{
  Bool-cases, ℕ, ◌+◌, ◌*◌, ◌%◌, ◌^◌, ◌<◌, ◌≡◌, ◌≢◌, ◌⊎◌, inl, inr, refl, sym, false, ◌∷◌, arith,
  if◌then◌else◌,
}
use aggregation.Sdk.{
  malloc_data, malloc_info, Sdk, Key, Handle, Trace, mv_ok, get_int_value, payload_size, width_max,
  height_max,
}
use aggregation.Station.{and_then, Station, M, Out, ok, thrown, fault, Ends, Outcome}
use aggregation.Camera.{alloc_data, alloc_info, image_ex_len, reserve, image_size, free_buffers}
use aggregation.Camera.Lifecycle.{IsReady}
use aggregation.Camera.Image.Copy.{IsWhole}
use aggregation.SaveImage.{init_resource, caught}
use aggregation.SaveImage.Keys.{locked}
use aggregation.SaveImage.Ending.Keys.{Ready}
use aggregation.SaveImage.Threads.Copies.{Fits, ready-Intact}

module _ {A B : Type 0} where
  Outcome-and_then :
      (P : A → Station → Type 0) (Q : B → Station → Type 0) (R : ℕ → Station → Type 0) (o : Out A)
      (f : A → M B)
      → Outcome P R o
      → ((a : A) (s : Station) → P a s → Outcome Q R (f a s))
      → Outcome Q R (and_then o f)
  Outcome-and_then P Q R (ok a s) f p h = h a s p
  Outcome-and_then P Q R (thrown c s) f p h = p
  Outcome-and_then P Q R (fault e) f p h = p

module _ (sdk : Sdk) where
  -- A size that InitResource computes.
  abbrev pub IsSize : ℕ → Type 0
  IsSize n =
      ((t : Trace) × (n ≡ (sdk.int_value t payload_size + image_ex_len) % 2 ^ 32))
      ⊎ ((t : Trace) × (u : Trace) × (n
            ≡ (sdk.int_value t width_max * sdk.int_value u height_max + image_ex_len) % 2 ^ 32))

  -- Each frame has its `nFrameLen` bytes, and is shorter than whatever size InitResource computes from
  -- what the reader says.
  pub record HasRoom : Type 0 where
    pub whole : (u : Trace) → IsWhole (sdk.frame u)
    pub payload :
        (u t : Trace)
        → (sdk.frame u).info.frame_len < (sdk.int_value t payload_size + image_ex_len) % 2 ^ 32
    pub sensor :
        (u t t' : Trace)
        → (sdk.frame u).info.frame_len
          < (sdk.int_value t width_max * sdk.int_value t' height_max + image_ex_len) % 2 ^ 32

  size-Fits : (n : ℕ) → HasRoom → IsSize n → Fits sdk n
  size-Fits n room (inl (t, e)) u =
      (room.whole u, subst (λ k. (sdk.frame u).info.frame_len < k) (sym e) (room.payload u t))
  size-Fits n room (inr (t, t', e)) u =
      (room.whole u, subst (λ k. (sdk.frame u).info.frame_len < k) (sym e) (room.sensor u t t'))

  abbrev asked : Station → Handle → Key → Station
  asked s h key = record s { trace = get_int_value h key ∷ s.trace }

  image_size-Ends :
      (h : Handle) (s : Station)
      → locked s.trace ≡ false
      → Outcome (λ n t. IsSize n × (locked t.trace ≡ false)) (λ c t. c ≢ mv_ok) (image_size sdk h s)
  unfolding image_size
  image_size-Ends h s l =
      let s1 = asked s h payload_size in
      let s2 = asked s1 h width_max in
      elim (ℕ_discrete (sdk.code s.trace (get_int_value h payload_size)) mv_ok) [
        | yes p ↦
            let q : image_size sdk h s
                ≡ ok ((sdk.int_value s.trace payload_size + image_ex_len) % 2 ^ 32) s1 =
              ground (arith, p) in
            rw q (inl (s.trace, refl), l)
        | no p ↦ elim (ℕ_discrete (sdk.code s1.trace (get_int_value h width_max)) mv_ok) [
          | no w ↦
              let q : image_size sdk h s
                  ≡ thrown (sdk.code s1.trace (get_int_value h width_max)) s2 =
                ground (arith, p, w) in
              rw q w
          | yes w ↦ elim (ℕ_discrete (sdk.code s2.trace (get_int_value h height_max)) mv_ok) [
            | no x ↦
                let q : image_size sdk h s
                    ≡ thrown (sdk.code s2.trace (get_int_value h height_max))
                        (asked s2 h height_max) =
                  ground (arith, p, w, x) in
                rw q x
            | yes x ↦
                let q : image_size sdk h s
                    ≡ ok
                        ((sdk.int_value s1.trace width_max * sdk.int_value s2.trace height_max
                            + image_ex_len)
                          % 2 ^ 32)
                        (asked s2 h height_max) =
                  ground (arith, p, w, x) in
                rw q (inr (s1.trace, s2.trace, refl), l)
          ]
        ]
      ]

  -- What InitResource leaves where it succeeds.
  abbrev pub Sized : ℕ → Station → Type 0
  Sized r t = (r ≡ mv_ok) × IsReady t × (locked t.trace ≡ false) × IsSize t.max_image_size

  reserve-Sized :
      (h : Handle) (s : Station)
      → locked s.trace ≡ false
      → Outcome Sized (λ c t. c ≢ mv_ok) (reserve sdk h s)
  unfolding reserve alloc_data alloc_info
  reserve-Sized h s l =
      Outcome-and_then (λ n t. IsSize n × (locked t.trace ≡ false)) Sized (λ c t. c ≢ mv_ok)
        (image_size sdk h s) _ (image_size-Ends h s l)
        λ n t p. elim (Bool-cases (sdk.succeeds t.trace (malloc_data n))) [
          | inr e ↦ rw (e, if◌then◌else◌) (ground arith)
          | inl e ↦ elim (Bool-cases (sdk.succeeds (malloc_data n ∷ t.trace) malloc_info)) [
            | inr e' ↦ rw (e, e', if◌then◌else◌) (ground arith)
            | inl e' ↦
                rw (e, e', if◌then◌else◌) (refl, record { buffer = refl; info = refl }, p.1, p.0)
          ]
        ]

  pub Sized-Ready : (r : ℕ) (t : Station) → HasRoom → Sized r t → Ready sdk t
  Sized-Ready r t room (e, ready, l, n) = record {
    free = l;
    intact = ready-Intact sdk t ready;
    fits = size-Fits t.max_image_size room n;
  }

  abbrev pub Tried : ℕ → Station → Type 0
  Tried r t = (r ≢ mv_ok) ⊎ Sized r t

  caught-Tried : (o : Out ℕ) → Outcome Sized (λ c t. c ≢ mv_ok) o → Ends Tried (caught o)
  unfolding free_buffers
  caught-Tried (ok r t) p = inr p
  caught-Tried (thrown c t) p = inl p
  caught-Tried (fault e) p = p

  pub init_resource-Tried :
      (h : Handle) (s : Station) → locked s.trace ≡ false → Ends Tried (init_resource sdk h s)
  unfolding init_resource
  init_resource-Tried h s l = caught-Tried (reserve sdk h s) (reserve-Sized h s l)
