-- ===== src/StillCamera/Picture/Shown.antt =====
-- Camera2.cpp, `getImage`: what becomes of a frame.
use aggregation.Base.{
  ℕ, ◌*◌, ◌≤◌, ◌<◌, ◌≡◌, ap, some, ◌∷◌, arith, length, memcpy, length-memcpy, if◌then◌else◌,
}
use aggregation.Base.Decimal.{Bytes}
use aggregation.Sdk.{Sdk, ImageInfo, Frame, start_grabbing, get_one_frame, mv_ok}
use aggregation.Station.{Station, fault, overflow, and_then, and_then-fault, ◌>>=◌, pure}
use aggregation.Camera.Image.{copy_frame}
use aggregation.Pointers.{IsAssigned, copy_frame-assigned}
use aggregation.Camera.Image.Copy.{HasBuffers, IsWhole, copied}
use aggregation.Camera.Image.Copy
use aggregation.StillCamera.Picture.{show, get_image}
use aggregation.StillCamera.Picture.Overflow.{buffer_to_image_overflow}

module _ (sdk : Sdk) (new_image : ℕ → Bytes) (sized : (n : ℕ) → length (new_image n) ≡ n) where
  show_overflow :
      (f : Frame) (b : Bytes) (t : Station)
      → t.data_buf ≡ some b
      → 2 ≤ f.info.height
      → 1 ≤ f.info.width
      → f.info.width * f.info.height ≤ length b
      → show sdk new_image f t ≡ fault overflow
  unfolding show
  show_overflow f b t d two one enough = ground (
    arith,
    d,
    buffer_to_image_overflow b (new_image (f.info.width * f.info.height)) f.info.height f.info.width
        two one enough (sized (f.info.width * f.info.height)),
  )

  -- With both pointers assigned and the buffers allocated, a frame of at least two rows and one column that comes and is copied, and
  -- whose rows times columns fit the buffer, makes `getImage` write past the end of the image that it
  -- is to show.
  pub get_image_overflow :
      (b : Bytes) (i : ImageInfo) (s : Station)
      → IsAssigned s
      → HasBuffers b i s
      → let t = record s {
        n_ret = sdk.code s.trace (start_grabbing s.handle);
        trace = start_grabbing s.handle ∷ s.trace;
      } in
        let f = sdk.frame t.trace in
        sdk.code t.trace (get_one_frame s.handle) ≡ mv_ok
        → IsWhole f
        → f.info.frame_len < s.max_image_size
        → 2 ≤ f.info.height
        → 1 ≤ f.info.width
        → f.info.width * f.info.height ≤ s.max_image_size
        → get_image sdk new_image s ≡ fault overflow
  unfolding get_image
  get_image_overflow b i s a v c w lt two one enough =
      let t : Station = record s {
        n_ret = mv_ok;
        trace = get_one_frame s.handle ∷ start_grabbing s.handle ∷ s.trace;
      } in
      let f : Frame = sdk.frame (start_grabbing s.handle ∷ s.trace) in
      let v' : HasBuffers b i t = record { buffer = v.buffer; info = v.info; size = v.size } in
      let m : Bytes = memcpy b f.bytes f.info.frame_len in
      rw (c, if◌then◌else◌, copy_frame-assigned f t a)
        (and_then-fault (Copy.Holds b i t f v' m) (copy_frame f t)
          (λ _. show sdk new_image f >>= λ image. pure (some image)) (copied b i t f v' lt)
          λ r u p.
            ap (λ o. and_then o (λ image. pure (some image)))
              (show_overflow f m u p.1 two one (
                omega (
                  arith,
                  v.size,
                  length-memcpy b f.bytes f.info.frame_len (omega (arith, w))
                      (omega (arith, v.size)),
                ))))
