-- ===== src/SaveImage/Threads/Copies.antt =====
-- SaveImage.cpp: the two buffers before, between and after the copies of a frame.
use mathlib.Core.Path.{subst}
use aggregation.Base.{
  ℕ, ◌≤◌, ◌<◌, ◌≡◌, ◌⊎◌, inl, inr, refl, sym, ◌∙◌, ap, false, arith, length, take, memcpy,
  replicate, length-replicate, length-memcpy, take-memcpy,
}
use aggregation.Base.Decimal.{Bytes}
use aggregation.Sdk.{Sdk, Handle, ImageInfo, Frame, Trace}
use aggregation.Station.{Station, ok}
use aggregation.Camera.{zero_info}
use aggregation.Camera.Lifecycle.{IsReady}
use aggregation.Camera.Image.{copy_info, copy_data}
use aggregation.Camera.Image.Copy.{HasBuffers, IsWhole, take_all}
use aggregation.SaveImage.Files.{Tm}
use aggregation.SaveImage.Threads.{
  Grab, checks, polls, unlocks, gone, wants, copies, halfway, Kind, raw, jpg, bmp, set_exit, save,
}
use aggregation.SaveImage.Threads.Mutex.{inside}

-- What a station's buffers are, and `g_bExit` left out.
abbrev pub SameBuffers : Station → Station → Type 0
SameBuffers s t =
    (t.data_buf ≡ s.data_buf)
    × (t.image_info ≡ s.image_info)
    × (t.max_image_size ≡ s.max_image_size)

pub same : (s : Station) → SameBuffers s s
same s = (refl, refl, refl)

pub set_exit-SameBuffers : (c : ℕ) (s : Station) → SameBuffers s (set_exit c s)
unfolding set_exit
set_exit-SameBuffers c s = ground arith

pub copy_info-size :
    (i : ImageInfo) (s : Station) → (copy_info i s).max_image_size ≡ s.max_image_size
unfolding copy_info
copy_info-size i s = ground arith

pub copy_data-size : (f : Frame) (s : Station) → (copy_data f s).max_image_size ≡ s.max_image_size
unfolding copy_data
copy_data-size f s = ground arith

module _ (sdk : Sdk) (localtime : Trace → Tm) (h : Handle) where
  pub save-SameBuffers :
      (k : Kind) (s t : Station) → save sdk localtime h k s ≡ ok tt t → SameBuffers s t
  unfolding save
  save-SameBuffers raw s t e = ground arith
  save-SameBuffers jpg s t e = ground arith
  save-SameBuffers bmp s t e = ground arith

module _ (sdk : Sdk) where
  -- Every frame of the reader has its `nFrameLen` bytes, and is shorter than the data buffer.
  abbrev pub Fits : ℕ → Type 0
  Fits size = (u : Trace) → IsWhole (sdk.frame u) × ((sdk.frame u).info.frame_len < size)

  -- `b` starts with the bytes of a frame of the reader, and `i` is its info; or no frame came yet.
  abbrev pub IsFrame : Bytes → ImageInfo → Type 0
  IsFrame b i =
      (i ≡ zero_info)
      ⊎ ((u : Trace) × (i ≡ (sdk.frame u).info) × (take i.frame_len b ≡ (sdk.frame u).bytes))

  -- The two buffers hold one frame, the info and the data of the same.
  pub record Intact (s : Station) : Type 0 where
    pub data_buf : Bytes
    pub image_info : ImageInfo
    pub held : HasBuffers data_buf image_info s
    pub frame : IsFrame data_buf image_info
    pub within : image_info.frame_len ≤ length data_buf

  -- Between the two copies: the info is that of `f`, the data that of the frame before.
  pub record Torn (f : Frame) (s : Station) : Type 0 where
    pub old : Bytes
    pub held : HasBuffers old f.info s

  abbrev pub FromReader : Frame → Type 0
  FromReader f = (u : Trace) × (f ≡ sdk.frame u)

  abbrev pub Buffers : Grab → Station → Type 0
  Buffers checks s = Intact s
  Buffers polls s = Intact s
  Buffers unlocks s = Intact s
  Buffers gone s = Intact s
  Buffers (wants f) s = Intact s × FromReader f
  Buffers (copies f) s = Intact s × FromReader f
  Buffers (halfway f) s = Torn f s × FromReader f

  pub same-Intact : (s t : Station) → SameBuffers s t → Intact s → Intact t
  same-Intact s t (d, i, m) v = record {
    data_buf = v.data_buf;
    image_info = v.image_info;
    held = record {
      buffer = d ∙ v.held.buffer;
      info = i ∙ v.held.info;
      size = v.held.size ∙ sym m;
    };
    frame = v.frame;
    within = v.within;
  }

  same-Torn : (f : Frame) (s t : Station) → SameBuffers s t → Torn f s → Torn f t
  same-Torn f s t (d, i, m) v = record {
    old = v.old;
    held = record {
      buffer = d ∙ v.held.buffer;
      info = i ∙ v.held.info;
      size = v.held.size ∙ sym m;
    };
  }

  -- A change that leaves the buffers alone.
  pub same-Buffers : (g : Grab) (s t : Station) → SameBuffers s t → Buffers g s → Buffers g t
  same-Buffers checks s t e v = same-Intact s t e v
  same-Buffers polls s t e v = same-Intact s t e v
  same-Buffers unlocks s t e v = same-Intact s t e v
  same-Buffers gone s t e v = same-Intact s t e v
  same-Buffers (wants f) s t e v = (same-Intact s t e v.0, v.1)
  same-Buffers (copies f) s t e v = (same-Intact s t e v.0, v.1)
  same-Buffers (halfway f) s t e v = (same-Torn f s t e v.0, v.1)

  pub copy_info-Torn : (f : Frame) (s : Station) → Intact s → Torn f (copy_info f.info s)
  unfolding copy_info
  copy_info-Torn f s v = record {
    old = v.data_buf;
    held = record {
      buffer = ground (arith, v.held.buffer, v.held.info);
      info = ground (arith, v.held.buffer, v.held.info);
      size = ground (arith, v.held.size, v.held.info);
    };
  }

  copy_data-Intact :
      (f : Frame) (s : Station)
      → IsWhole f
      → f.info.frame_len < s.max_image_size
      → FromReader f
      → Torn f s
      → Intact (copy_data f s)
  unfolding copy_data
  copy_data-Intact f s w lt (u, e) v =
      let n : ℕ = f.info.frame_len in
      let b : Bytes = memcpy v.old f.bytes n in
      let same : length b ≡ length v.old =
        length-memcpy v.old f.bytes n (omega (arith, w)) (omega (arith, v.held.size)) in
      record {
        data_buf = b;
        image_info = f.info;
        held = record {
          buffer = ground (arith, v.held.buffer);
          info = ground (arith, v.held.buffer, v.held.info);
          size = ground (arith, v.held.buffer, v.held.size, same);
        };
        frame = inr (
          u,
          ap (λ g. g.info) e,
          take-memcpy v.old f.bytes n (omega (arith, w))
              ∙ take_all n f.bytes w
              ∙ ap (λ g. g.bytes) e,
        );
        within = omega (arith, lt, same, v.held.size);
      }

  pub copied-Intact :
      (f : Frame) (s : Station) (max : ℕ)
      → Fits max
      → s.max_image_size ≡ max
      → FromReader f
      → Torn f s
      → Intact (copy_data f s)
  copied-Intact f s max fits e (u, q) v =
      let it : IsWhole f × (f.info.frame_len < max) =
        subst (λ g. IsWhole g × (g.info.frame_len < max)) (sym q) (fits u) in
      copy_data-Intact f s it.0 (subst (λ n. f.info.frame_len < n) (sym e) it.1) (u, q) v

  -- The buffers at a place outside the copies, and there.
  pub at : {g : Grab} (k : Grab) (s : Station) → g ≡ k → Buffers g s → Buffers k s
  at k s e b = subst (λ g. Buffers g s) e b

  pub ready-Intact : (s : Station) → IsReady s → Intact s
  ready-Intact s r = record {
    data_buf = replicate s.max_image_size 0;
    image_info = zero_info;
    held = record { buffer = r.buffer; info = r.info; size = length-replicate s.max_image_size 0 };
    frame = inl refl;
    within = ground arith;
  }

  -- Outside the two copies the buffers are those of one frame.
  pub Buffers-Intact : (g : Grab) (s : Station) → inside g ≡ false → Buffers g s → Intact s
  Buffers-Intact checks s e b = b
  Buffers-Intact polls s e b = b
  Buffers-Intact unlocks s e b = b
  Buffers-Intact gone s e b = b
  Buffers-Intact (wants f) s e b = b.0
  Buffers-Intact (copies f) s e b = b.0
  Buffers-Intact (halfway f) s e b = absurd (ground arith)
