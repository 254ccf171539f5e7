-- ===== src/Camera/Image/Copy.antt =====
-- broadcastTest.cpp, `Camera::getImage`: which bytes reach the decoder.
use aggregation.Base.{
  ℕ, ◌≤◌, ◌<◌, ◌≡◌, refl, ◌∙◌, some, [], ◌∷◌, ap, arith, length, memcpy, take, length-memcpy,
  take-memcpy,
}
use aggregation.Base.Decimal.{Bytes}
use aggregation.Sdk.{ImageInfo, Frame}
use aggregation.Station.{Station, fault, over_read, Ends, Ends-and_then, and_then-fault}
use aggregation.Camera.Image.{copy_frame, read_frame, fetch}

-- Both buffers are there, and the data buffer is as long as `g_nMaxImageSize` says.
pub record HasBuffers (b : Bytes) (i : ImageInfo) (s : Station) : Type 0 where
  pub buffer : s.data_buf ≡ some b
  pub info : s.image_info ≡ some i
  pub size : length b ≡ s.max_image_size

-- `pData` has `nFrameLen` bytes.
abbrev pub IsWhole : Frame → Type 0
IsWhole f = length f.bytes ≡ f.info.frame_len

pub take_all : (n : ℕ) (xs : Bytes) → length xs ≡ n → take n xs ≡ xs
take_all ℕ.zero [] h = refl
take_all (ℕ.suc n) [] h = refl
take_all ℕ.zero (x ∷ xs) h = absurd (omega arith)
take_all (ℕ.suc n) (x ∷ xs) h = ap (◌∷◌ x) (take_all n xs (omega arith))

read_whole :
    (xs b : Bytes) (i : ImageInfo) (t : Station)
    → t.data_buf ≡ some b
    → t.image_info ≡ some i
    → length b ≡ t.max_image_size
    → i.frame_len ≤ length b
    → take i.frame_len b ≡ xs
    → Ends (λ r u. (r ≡ xs) × HasBuffers b i u) (read_frame t)
unfolding read_frame
read_whole xs b i t d e size le same = ground (arith, d, e)

read_past :
    (b : Bytes) (i : ImageInfo) (t : Station)
    → t.data_buf ≡ some b
    → t.image_info ≡ some i
    → length b < i.frame_len
    → read_frame t ≡ fault over_read
unfolding read_frame
read_past b i t d e lt = ground (arith, d, e)

module _ (b : Bytes) (i : ImageInfo) (s : Station) (f : Frame) (v : HasBuffers b i s) where
  -- The state after the two copies, where the data buffer holds `c`.
  abbrev pub Holds : Bytes → Unit {0} → Station → Type 0
  Holds c r t =
      (t.image_info ≡ some f.info) × (t.data_buf ≡ some c) × (t.max_image_size ≡ s.max_image_size)

  pub copied :
      f.info.frame_len < s.max_image_size
      → Ends (Holds (memcpy b f.bytes f.info.frame_len)) (copy_frame f s)
  unfolding copy_frame
  copied lt = ground (arith, v.buffer, v.info)

  pub kept : s.max_image_size ≤ f.info.frame_len → Ends (Holds b) (copy_frame f s)
  unfolding copy_frame
  kept le = ground (arith, v.buffer, v.info)

  abbrev pub Reads : Bytes → Bytes → Type 0
  Reads xs c = Ends (λ r t. (r ≡ xs) × HasBuffers c f.info t) (fetch f s)

  short :
      IsWhole f
      → f.info.frame_len < s.max_image_size
      → Reads f.bytes (memcpy b f.bytes f.info.frame_len)
  unfolding fetch
  short w lt =
      let n : ℕ = f.info.frame_len in
      let same : length (memcpy b f.bytes n) ≡ length b =
        length-memcpy b f.bytes n (omega arith) (omega (arith, v.size)) in
      Ends-and_then (Holds (memcpy b f.bytes f.info.frame_len))
        (λ r t. (r ≡ f.bytes) × HasBuffers (memcpy b f.bytes f.info.frame_len) f.info t)
        (copy_frame f s) (λ _. read_frame) (copied lt)
        λ r t p.
          read_whole f.bytes (memcpy b f.bytes n) f.info t p.1 p.0
            (omega (arith, same, v.size, p.2)) (omega (arith, same, v.size))
            (take-memcpy b f.bytes n (omega arith) ∙ take_all n f.bytes w)

  exact : f.info.frame_len ≡ s.max_image_size → Reads b b
  unfolding fetch
  exact e =
      Ends-and_then (Holds b) (λ r t. (r ≡ b) × HasBuffers b f.info t) (copy_frame f s)
        (λ _. read_frame) (kept (omega arith))
        λ r t p.
          read_whole b b f.info t p.1 p.0 (omega (arith, v.size, p.2)) (omega (arith, v.size))
            (take_all f.info.frame_len b (omega (arith, v.size)))

  -- The copy and the read of `getImage`, by the length of the frame. Below `g_nMaxImageSize` the
  -- decoder is given the frame, byte for byte, and the buffer keeps its size; at that length the copy
  -- is skipped and it is given the whole buffer with what was in it before; above, the read goes past
  -- the end of the buffer.
  pub fetch-Reads :
      IsWhole f
      → (f.info.frame_len < s.max_image_size → Reads f.bytes (memcpy b f.bytes f.info.frame_len))
        × (f.info.frame_len ≡ s.max_image_size → Reads b b)
        × (s.max_image_size < f.info.frame_len → fetch f s ≡ fault over_read)
  unfolding fetch
  fetch-Reads w = (
    short w,
    exact,
    λ lt.
        and_then-fault (Holds b) (copy_frame f s) (λ _. read_frame) (kept (omega arith))
          λ r t p. read_past b f.info t p.1 p.0 (omega (arith, v.size)),
  )
