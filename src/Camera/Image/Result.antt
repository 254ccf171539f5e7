-- ===== src/Camera/Image/Result.antt =====
-- broadcastTest.cpp, `Camera::getImage`: the image that comes back.
use aggregation.Base.{
  ℕ, ◌≤◌, ◌<◌, ◌≡◌, ◌≢◌, refl, true, some, List, [], ◌∷◌, length, memcpy, sym, ◌∙◌, ap,
  if◌then◌else◌,
}
use aggregation.Base.Decimal.{Bytes}
use aggregation.Sdk.{Sdk, ImageInfo, Frame, Trace, Code, get_one_frame, malloc_text, mv_ok}
use aggregation.Station.{Station, ok, and_then, ◌>>=◌, Ends, Ends-and_then}
use aggregation.Camera.Codes.{BcrInfo, BcrEntry, get_data, max_bcr_info}
use aggregation.Camera.Codes.Fields.{entries, Keeps, Collects, get_data-Ends}
use aggregation.Camera.Image.{Vision, polygons, draw, draw_info, resize, render, get_image, fetch}
use aggregation.Camera.Image.Copy.{HasBuffers, IsWhole, fetch-Reads}

module _ {Image : Type 0} (cv : Vision Image) where
  draw-polygons :
      (es : List BcrEntry) (image : Image) (s : Station)
      → draw cv (length es) es image s ≡ ok (polygons cv es image) s
  unfolding draw polygons
  draw-polygons [] image s = refl
  draw-polygons (e ∷ es) image s = draw-polygons es _ s

length-entries : (i : ℕ) (cs : List Code) → length (entries i cs) ≡ length cs
unfolding entries
length-entries i [] = refl
length-entries i (c ∷ cs) = ap ℕ.suc (length-entries (ℕ.suc i) cs)

module _ {Image : Type 0} (cv : Vision Image) where
  draw_info-polygons :
      (bi : BcrInfo) (es : List BcrEntry) (image : Image) (s : Station)
      → bi.info ≡ es
      → bi.count ≡ some (length es)
      → draw_info cv bi image s ≡ ok (polygons cv es image) s
  unfolding draw_info
  draw_info-polygons bi es image s e n = rw (n, draw_info) (rw e (draw-polygons cv es image s))

  keep_buffers :
      {c : Bytes} {i : ImageInfo} {s t : Station} → HasBuffers c i s → Keeps s t → HasBuffers c i t
  keep_buffers v k = record {
    buffer = k.data_buf ∙ v.buffer;
    info = k.image_info ∙ v.info;
    size = v.size ∙ sym k.max_image_size;
  }

  abbrev pub Shows : List Code → Image → Bytes → ImageInfo → Image → Station → Type 0
  Shows codes small c i image t = (image ≡ polygons cv (entries 0 codes) small) × HasBuffers c i t

  draw_codes :
      (sdk : Sdk) (codes : List Code) (small : Image) (c : Bytes) (i : ImageInfo) (t : Station)
      → HasBuffers c i t
      → codes ≢ []
      → length codes ≤ max_bcr_info
      → ((u : Trace) → sdk.succeeds u malloc_text ≡ true)
      → Ends (Shows codes small c i) (and_then (get_data sdk codes t) (λ bi. draw_info cv bi small))
  draw_codes sdk codes small c i t v ne fits gives =
      Ends-and_then (Collects sdk codes t) (Shows codes small c i) (get_data sdk codes t)
        (λ bi. draw_info cv bi small) (get_data-Ends sdk codes t fits gives)
        λ bi u p.
          rw
            (draw_info-polygons bi (entries 0 codes) small u p.0
              (p.2 ne ∙ ap some (sym (length-entries 0 codes))))
            (refl, keep_buffers v p.5)

  finish :
      (sdk : Sdk) (f : Frame) (small : Image) (c jpeg : Bytes) (t : Station)
      → jpeg ≡ f.bytes
      → HasBuffers c f.info t
      → f.codes_ex2 ≢ []
      → length f.codes_ex2 ≤ max_bcr_info
      → ((u : Trace) → sdk.succeeds u malloc_text ≡ true)
      → cv.resize (cv.imdecode f.bytes) ≡ some small
      → Ends (Shows f.codes_ex2 small c f.info) (
          and_then
            (resize cv (cv.imdecode jpeg) t)
            (λ image. get_data sdk f.codes_ex2 >>= λ bi. draw_info cv bi image))
  unfolding resize
  finish sdk f small c jpeg t same v ne fits gives e =
      rw (same, e, resize) (draw_codes sdk f.codes_ex2 small c f.info t v ne fits gives)

  render-Ends :
      (sdk : Sdk) (b : Bytes) (i : ImageInfo) (s : Station) (f : Frame) (small : Image)
      → HasBuffers b i s
      → IsWhole f
      → f.info.frame_len < s.max_image_size
      → f.codes_ex2 ≢ []
      → length f.codes_ex2 ≤ max_bcr_info
      → ((t : Trace) → sdk.succeeds t malloc_text ≡ true)
      → cv.resize (cv.imdecode f.bytes) ≡ some small
      → Ends
          (Shows f.codes_ex2 small (memcpy b f.bytes f.info.frame_len) f.info)
          (render cv sdk f s)
  unfolding render
  render-Ends sdk b i s f small v w lt ne fits gives e =
      Ends-and_then (λ r t. (r ≡ f.bytes) × HasBuffers (memcpy b f.bytes f.info.frame_len) f.info t)
        (Shows f.codes_ex2 small (memcpy b f.bytes f.info.frame_len) f.info) (fetch f s) _
        ((fetch-Reads b i s f v w).0 lt)
        λ jpeg t p.
          finish sdk f small (memcpy b f.bytes f.info.frame_len) jpeg t p.0 p.1 ne fits gives e

  -- A frame that fits the buffer, with between 1 and 100 codes, gives its own JPEG bytes decoded,
  -- scaled down, with one polygon for each code in order; the two buffers then hold this frame. It
  -- needs memory for the texts, and an image that `resize` takes.
  pub get_image-Ends :
      (sdk : Sdk) (b : Bytes) (i : ImageInfo) (s : Station) (small : Image)
      → HasBuffers b i s
      → let f = sdk.frame s.trace in
        sdk.code s.trace (get_one_frame s.handle) ≡ mv_ok
        → IsWhole f
        → f.info.frame_len < s.max_image_size
        → f.codes_ex2 ≢ []
        → length f.codes_ex2 ≤ max_bcr_info
        → ((t : Trace) → sdk.succeeds t malloc_text ≡ true)
        → cv.resize (cv.imdecode f.bytes) ≡ some small
        → Ends
            (λ image t.
              (image ≡ polygons cv (entries 0 f.codes_ex2) small)
              × HasBuffers (memcpy b f.bytes f.info.frame_len) f.info t)
            (get_image cv sdk s)
  unfolding get_image render
  get_image-Ends sdk b i s small v c w lt ne fits gives e =
      rw (c, if◌then◌else◌)
        (render-Ends sdk b i _ (sdk.frame s.trace) small
          (record { buffer = v.buffer; info = v.info; size = v.size }) w lt ne fits gives e)
