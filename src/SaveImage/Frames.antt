-- ===== src/SaveImage/Frames.antt =====
-- SaveImage.cpp: which bytes a file has, from the frame that the grab thread took last.
use aggregation.Base.{
  ℕ, ◌≤◌, ◌<◌, ◌≡◌, ◌∙◌, true, some, ◌∷◌, ◌++◌, arith, length, take, memcpy, get_elem?,
  if◌then◌else◌, ap, length-memcpy, take-memcpy,
}
use aggregation.Base.Decimal.{Bytes}
use aggregation.Sdk.{
  Sdk, Handle, ImageInfo, Frame, mono8, Trace, fopen, fwrite, get_one_frame, mutex_lock, mv_ok,
}
use aggregation.Station.{
  Station, fault, over_read, ◌>>◌, Ends, Ends-and_then, Ends-mono, and_then-fault,
}
use aggregation.Camera.Image.{copy_frame, read_frame}
use aggregation.Camera.Image.Copy.{HasBuffers, IsWhole, copied, kept, take_all}
use aggregation.Camera.Image.Copy
use aggregation.SaveImage.{grab_round}
use aggregation.SaveImage.Files.{Tm, stamp, raw_ext, save_raw_image}

-- The third call from the end writes `xs` to the file.
abbrev pub Wrote : Bytes → Station → Type 0
Wrote xs t = get_elem? t.trace 2 ≡ some (fwrite xs)

module _ (sdk : Sdk) (localtime : Trace → Tm)
    (opens : (t : Trace) (name : Bytes) → sdk.succeeds t (fopen name) ≡ true) where
  raw_writes :
      (b : Bytes) (i : ImageInfo) (s : Station)
      → s.data_buf ≡ some b
      → s.image_info ≡ some i
      → i.frame_len ≤ length b
      → i.pixel_type ≡ mono8
      → Ends (λ r t. Wrote (take i.frame_len b) t) (save_raw_image sdk localtime s)
  unfolding save_raw_image read_frame
  raw_writes b i s d e fits mono = ground (
    arith,
    d,
    e,
    fits,
    mono,
    opens (mutex_lock ∷ s.trace) (stamp (localtime (mutex_lock ∷ s.trace)) ++ raw_ext),
  )

  raw_reads_past :
      (b : Bytes) (i : ImageInfo) (s : Station)
      → s.data_buf ≡ some b
      → s.image_info ≡ some i
      → length b < i.frame_len
      → i.pixel_type ≡ mono8
      → save_raw_image sdk localtime s ≡ fault over_read
  unfolding save_raw_image read_frame
  raw_reads_past b i s d e past mono = ground (
    arith,
    d,
    e,
    past,
    mono,
    opens (mutex_lock ∷ s.trace) (stamp (localtime (mutex_lock ∷ s.trace)) ++ raw_ext),
  )

  -- A round of the grab thread that gets a Mono8 frame, then a save as RAW while files can be opened. A
  -- frame shorter than `g_nMaxImageSize` is what the file holds, byte for byte. Of a frame of just that
  -- length the file holds none: it has what was in the buffer before. A longer one makes the save read
  -- past the end of the buffer.
  pub grab_round-save_raw_image :
      (h : Handle) (b : Bytes) (i : ImageInfo) (s : Station)
      → HasBuffers b i s
      → let f = sdk.frame s.trace in
        let run = (grab_round sdk h >> save_raw_image sdk localtime) s in
        sdk.code s.trace (get_one_frame h) ≡ mv_ok
        → IsWhole f
        → f.info.pixel_type ≡ mono8
        → (f.info.frame_len < s.max_image_size → Ends (λ r t. Wrote f.bytes t) run)
          × (f.info.frame_len ≡ s.max_image_size → Ends (λ r t. Wrote b t) run)
          × (s.max_image_size < f.info.frame_len → run ≡ fault over_read)
  unfolding grab_round
  grab_round-save_raw_image h b i s v c w mono =
      let f : Frame = sdk.frame s.trace in
      let n : ℕ = f.info.frame_len in
      let s' : Station = record s { trace = get_one_frame h ∷ s.trace } in
      let v' : HasBuffers b i s' = record { buffer = v.buffer; info = v.info; size = v.size } in
      (
        (λ lt.
            rw (c, if◌then◌else◌)
              (Ends-and_then (Copy.Holds b i s' f v' (memcpy b f.bytes n)) (λ r t. Wrote f.bytes t)
                (copy_frame f s') (λ _. save_raw_image sdk localtime) (copied b i s' f v' lt)
                λ r t p.
                  let same : take n (memcpy b f.bytes n) ≡ f.bytes =
                    take-memcpy b f.bytes n (omega (arith, w)) ∙ take_all n f.bytes w in
                  Ends-mono (λ r u. Wrote (take n (memcpy b f.bytes n)) u) (λ r u. Wrote f.bytes u)
                    (save_raw_image sdk localtime t)
                    (raw_writes (memcpy b f.bytes n) f.info t p.1 p.0
                      (omega (
                        arith,
                        v.size,
                        length-memcpy b f.bytes n (omega (arith, w)) (omega (arith, v.size)),
                      ))
                      mono)
                    (λ r u q. q ∙ ap (λ xs. some (fwrite xs)) same))),
        (λ e.
            rw (c, if◌then◌else◌)
              (Ends-and_then (Copy.Holds b i s' f v' b) (λ r t. Wrote b t) (copy_frame f s')
                (λ _. save_raw_image sdk localtime) (kept b i s' f v' (omega arith))
                λ r t p.
                  Ends-mono (λ r u. Wrote (take n b) u) (λ r u. Wrote b u)
                    (save_raw_image sdk localtime t)
                    (raw_writes b f.info t p.1 p.0 (omega (arith, v.size)) mono)
                    (λ r u q.
                      q ∙ ap (λ xs. some (fwrite xs)) (take_all n b (omega (arith, v.size)))))),
        (λ past.
            rw (c, if◌then◌else◌)
              (and_then-fault (Copy.Holds b i s' f v' b) (copy_frame f s')
                (λ _. save_raw_image sdk localtime) (kept b i s' f v' (omega arith))
                λ r t p. raw_reads_past b f.info t p.1 p.0 (omega (arith, v.size)) mono)),
      )
