-- ===== src/DisplayCamera/Static.antt =====
-- Camera.cpp: `main`, against the same functions without the checks of unassigned pointers. The image
-- library is one and the same on both sides, with the factor 0.1 of Camera.cpp in `scaled` and `resize`.
use aggregation.Base.{
  ℕ, ◌≡◌, refl, ap, sym, ◌∙◌, Bool, true, false, Option, none, some, inl, inr, Option-cases, List,
  [], ◌∷◌, arith, ◌==◌, if◌then◌else◌,
}
use aggregation.Base.Decimal.{Bytes}
use aggregation.Sdk.{Sdk, Frame, mv_ok, get_one_frame}
use aggregation.Station.{Station, Out, ok, thrown, fault, M, pure, and_then, ◌>>=◌, Ends}
use aggregation.Camera
use aggregation.Camera.{reserve, catch, open_device_step, finish_init}
use aggregation.Camera.Codes.{BcrInfo, BcrEntry, get_data}
use aggregation.Camera.Image
use aggregation.Camera.Image.{Vision, read_frame, resize, draw, draw_info}
use aggregation.Pointers.{IsAssigned, copy_frame-assigned}
use aggregation.DisplayCamera
use aggregation.DisplayCamera.{
  deinit_resources, init_resource, go_on, init, render, get_image, main,
}
use aggregation.DisplayCamera.Runs.{
  Keeps, Keeps-then, then-cong, assoc, Same, deinit_resources-assigned, init-Same, loop-Keeps,
}

module _ {Picture : Type 0} (cv : Vision Picture) (sdk : Sdk) where
  draw-Keeps :
      (n : ℕ) (es : List BcrEntry) (image : Picture) (s : Station)
      → IsAssigned s
      → Keeps (draw cv n es image s)
  unfolding draw
  draw-Keeps ℕ.zero es image s a = a
  draw-Keeps (ℕ.suc n) [] image s a = tt
  draw-Keeps (ℕ.suc n) (e ∷ es) image s a = draw-Keeps n es _ s a

  draw_info-Keeps :
      (bi : BcrInfo) (image : Picture) (s : Station)
      → IsAssigned s
      → Keeps (draw_info cv bi image s)
  unfolding draw_info
  draw_info-Keeps bi image s a = elim (Option-cases bi.count) [
    | inl e ↦ rw (e, draw_info) tt
    | inr (n, e) ↦ rw (e, draw_info) (draw-Keeps n bi.info image s a)
  ]

  copy_frame-Keeps : (f : Frame) (s : Station) → IsAssigned s → Keeps (Image.copy_frame f s)
  unfolding Image.copy_frame
  copy_frame-Keeps f s a = ground (arith, a.0, a.1)

  read_frame-Keeps : (s : Station) → IsAssigned s → Keeps (read_frame s)
  unfolding read_frame
  read_frame-Keeps s a = ground (arith, a.0, a.1)

  resize-Keeps : (image : Picture) (s : Station) → IsAssigned s → Keeps (resize cv image s)
  unfolding resize
  resize-Keeps image s a = ground (arith, a.0, a.1)

  -- From the decoded bytes on.
  finish-Keeps :
      (f : Frame) (jpeg : Bytes) (s : Station)
      → IsAssigned s
      → Keeps (
          (resize cv (cv.imdecode jpeg) >>= λ i.
          get_data sdk f.codes_ex2 >>= λ bi. draw_info cv bi i)
            s)
  unfolding get_data
  finish-Keeps f jpeg s a =
      Keeps-then (resize cv (cv.imdecode jpeg) s) _ (resize-Keeps _ s a) λ i t b.
        Keeps-then (get_data sdk f.codes_ex2 t) _ (loop-Keeps sdk _ 0 f.codes_ex2 _ t b)
          (λ bi u c. draw_info-Keeps bi i u c)

  render-Same :
      (f : Frame) (s : Station)
      → IsAssigned s
      → Same sdk (render cv sdk f s) (Image.render cv sdk f s)
  unfolding render Image.render Image.fetch DisplayCamera.get_data
  render-Same f s a = (
    ap (λ o. and_then o (λ _. read_frame >>= λ jpeg. finish jpeg)) (copy_frame-assigned f s a)
        ∙ sym (assoc (Image.copy_frame f s) (λ _. read_frame) finish),
    Keeps-then _ finish
        (Keeps-then (Image.copy_frame f s) (λ _. read_frame) (copy_frame-Keeps f s a)
          (λ r t b. read_frame-Keeps t b))
        (λ jpeg t b. finish-Keeps f jpeg t b),
  )
    where
      finish : Bytes → M Picture
      finish jpeg =
          resize cv (cv.imdecode jpeg) >>= λ i. get_data sdk f.codes_ex2 >>= λ bi. draw_info cv bi i

  -- The image that is shown; the empty one where none is.
  abbrev pub shown : Option Picture → Picture
  shown none = cv.empty
  shown (some image) = image

  shown-some :
      (o : Out Picture)
      → and_then (and_then o (λ image. pure (some image))) (λ p. pure (shown p)) ≡ o
  shown-some (ok a s) = refl
  shown-some (thrown c s) = refl
  shown-some (fault e) = refl

  branch-Same :
      (c : Bool) (f g : M Picture) (s : Station)
      → IsAssigned s
      → Same sdk (f s) (g s)
      → Same sdk
          (and_then
            ((if c then (f >>= λ image. pure (some image)) else pure none) s)
            (λ p. pure (shown p)))
          ((if c then g else pure cv.empty) s)
  branch-Same true f g s a e = (shown-some (f s) ∙ e.0, e.1)
  branch-Same false f g s a e = (refl, a)

  get_image-Same :
      (s : Station)
      → IsAssigned s
      → Same sdk (and_then (get_image cv sdk s) (λ p. pure (shown p))) (Image.get_image cv sdk s)
  unfolding get_image Image.get_image
  get_image-Same s a =
      branch-Same (sdk.code s.trace (get_one_frame s.handle) == mv_ok) (render cv sdk f)
        (Image.render cv sdk f) t a (render-Same f t a)
    where
      f : Frame
      f = sdk.frame s.trace

      t : Station
      t = record s {
        n_ret = sdk.code s.trace (get_one_frame s.handle);
        trace = get_one_frame s.handle ∷ s.trace;
      }

  abbrev with_shown : Option Picture × ℕ → M (Picture × ℕ)
  with_shown q = pure (shown q.0, q.1)

  abbrev close_with : {A : Type 0} → M ℕ → A → M (A × ℕ)
  close_with close a = close >>= λ d. pure (a, d)

  -- From the image on: the same `DeInitResources`.
  closing-Same :
      (o : Out (Option Picture))
      → Keeps (and_then o (λ p. pure (shown p)))
      → and_then (and_then o (close_with (deinit_resources sdk))) with_shown
        ≡ and_then (and_then o (λ p. pure (shown p))) (close_with (Camera.deinit_resources sdk))
  closing-Same (ok p s) a =
      assoc (deinit_resources sdk s) (λ d. pure (p, d)) with_shown
      ∙ ap (λ o. and_then o (λ d. pure (shown p, d))) (deinit_resources-assigned sdk s a)
  closing-Same (thrown c s) a = refl
  closing-Same (fault e) a = refl

  used :
      (s : Station)
      → IsAssigned s
      → and_then (and_then (get_image cv sdk s) (close_with (deinit_resources sdk))) with_shown
        ≡ and_then (Image.get_image cv sdk s) (close_with (Camera.deinit_resources sdk))
  used s a =
      let same = get_image-Same s a in
      closing-Same (get_image cv sdk s) (rw (same.0) same.1)
      ∙ ap (λ o. and_then o (close_with (Camera.deinit_resources sdk))) same.0

  -- The result of `main`, with the image in place of none.
  abbrev pub shown_main : M (Picture × ℕ)
  shown_main = main cv sdk >>= with_shown

  -- The same three calls where no pointer is ever without a value.
  abbrev pub static_main : M (Picture × ℕ)
  static_main =
      Camera.init sdk >>= λ r. Image.get_image cv sdk >>= close_with (Camera.deinit_resources sdk)

  -- `main` of Camera.cpp on its local object, whose two pointers have no value at first, where `init`
  -- on an object with NULL pointers returns 1: no pointer is read before it has a value. The run is
  -- that of `init`, `getImage` and `DeInitResources` with pointers that start out NULL, with one and
  -- the same image library on both sides: the same image, result, fault and state.
  pub main-Same :
      (s : Station) → Ends (λ r t. r ≡ 1) (Camera.init sdk s) → shown_main s ≡ static_main s
  unfolding main
  main-Same s h =
      let same = init-Same sdk s h in
      assoc (init sdk s) _ with_shown
      ∙ then-cong (init sdk s) _
          (λ r. Image.get_image cv sdk >>= close_with (Camera.deinit_resources sdk))
          (rw (same.0) same.1) (λ r t a. used t a)
      ∙ ap
          (λ o.
            and_then o (λ r. Image.get_image cv sdk >>= close_with (Camera.deinit_resources sdk)))
          same.0
