-- ===== src/Broadcast/Answers.antt =====
-- broadcastTest.cpp: what reaches a client, from the frame that the camera has.
use aggregation.Base.{
  ℕ, ◌+◌, ◌<◌, ◌≤◌, ◌≡◌, ◌≢◌, refl, Bool, true, false, Option, none, some, List, [], ◌∷◌, arith,
  All, length,
}
use aggregation.Base.Decimal.{Bytes}
use aggregation.Sdk.{Sdk, Trace, ImageInfo, get_one_frame, malloc_text, malloc_result, mv_ok}
use aggregation.Station.{Station, Out, ok, thrown, fault, Ends}
use aggregation.Camera.Codes.{max_bcr_len, max_bcr_info}
use aggregation.Camera.Codes.Fields.{entries}
use aggregation.Camera.Image.{Vision, polygons, get_image}
use aggregation.Camera.Image.Copy.{HasBuffers, IsWhole}
use aggregation.Camera.Image.Result.{get_image-Ends}
use aggregation.Camera.Report.{first_score, get_string}
use aggregation.Camera.Report.Text.{report, Converts, get_string-report}
use aggregation.Server.{Server, Outside, Action, points, Sent, Payload, goes_on, looping_pass}
use aggregation.Server.Registry.{find}
use aggregation.Broadcast.{with_camera, called}

Ends-ok :
    {A : Type 0} (P : A → Station → Type 0) (o : Out A)
    → Ends P o
    → (a : A) × (s : Station) × (o ≡ ok a s) × P a s
Ends-ok P (ok a s) p = (a, s, refl, p)
Ends-ok P (thrown c s) p = absurd p
Ends-ok P (fault e) p = absurd p

-- `b` is an action of a client in the map, to which the transport delivers.
pub record IsListening (delivers : List Sent → ℕ → Bool) (a : Action) (s : Server) : Type 0 where
  pub pointed : s.b ≡ points a
  pub known : find a.hdl s.connections ≢ none
  pub delivered : (l : List Sent) → delivers l a.hdl ≡ true

module _ {C Image : Type 0} (out : Outside C Image) where
  text_pass :
      (a : Action) (s : Server) (c d : C) (string : Bytes)
      → IsListening out.delivers a s
      → s.get_data ≡ true
      → s.client2_data_count < s.max_client2_data_count
      → out.get_string c ≡ (some (some string), d)
      → looping_pass out s c
        ≡ goes_on
            (record s {
              sent = record { to = a.hdl; payload = Payload.text string } ∷ s.sent;
              client2_data_count = s.client2_data_count + 1;
            })
            d
  unfolding looping_pass
  text_pass a s c d string v g lt e = ground (arith, v.pointed, v.known, v.delivered s.sent)

  image_pass :
      (a : Action) (s : Server) (c d : C) (image : Image) (buf : Bytes)
      → IsListening out.delivers a s
      → s.get_data ≡ false
      → s.stop_streaming ≡ false
      → out.get_image c ≡ (some image, d)
      → out.imencode image ≡ some buf
      → looping_pass out s c
        ≡ goes_on
            (record s { sent = record { to = a.hdl; payload = Payload.binary buf } ∷ s.sent })
            d
  unfolding looping_pass
  image_pass a s c d image buf v g st e i = ground (arith, v.pointed, v.known, v.delivered s.sent)

called-ok :
    {A : Type 0} (c d : Station) (o : Out A) (r r' : A)
    → o ≡ ok r d
    → r ≡ r'
    → called c o ≡ (some r', d)
called-ok c d o r r' e p = rw (e, p) refl

module _ {Image : Type 0} (cv : Vision Image) (sdk : Sdk) (imencode : Image → Option Bytes)
    (delivers : List Sent → ℕ → Bool) where
  -- While an answer to "get_data" is due to a client in the map to which the transport delivers, with
  -- a converter that works, memory, and a frame that comes, whose texts and whose report are each
  -- under 512 bytes: a pass of `looping` sends that client the report of the codes of the frame, and
  -- counts it.
  pub looping_pass-report :
      (utf8 : Bytes → Bytes) (a : Action) (s : Server) (c : Station)
      → IsListening delivers a s
      → s.get_data ≡ true
      → s.client2_data_count < s.max_client2_data_count
      → Converts sdk utf8
      → ((t : Trace) → sdk.succeeds t malloc_text ≡ true)
      → ((t : Trace) (n : ℕ) → sdk.succeeds t (malloc_result n) ≡ true)
      → let codes = (sdk.frame c.trace).codes_ex in
        let string = report utf8 (first_score codes) 0 codes in
        sdk.code c.trace (get_one_frame c.handle) ≡ mv_ok
        → All (λ x. length (utf8 x.text) < max_bcr_len) codes
        → length string < max_bcr_len
        → (d : Station) × (looping_pass (with_camera cv sdk imencode delivers) s c
            ≡ goes_on
                (record s {
                  sent = record { to = a.hdl; payload = Payload.text string } ∷ s.sent;
                  client2_data_count = s.client2_data_count + 1;
                })
                d)
  looping_pass-report utf8 a s c v g lt conv gives result code short fits =
      let (r, d, e, p) =
        Ends-ok _ (get_string sdk c)
          ((get_string-report sdk utf8 conv gives c code short result).0 fits) in
      (
        d,
        text_pass (with_camera cv sdk imencode delivers) a s c d _ v g lt
            (called-ok c d (get_string sdk c) r _ e p.0),
      )

  -- While nothing stops the stream to a client in the map to which the transport delivers, with
  -- memory, and a frame that comes, fits the buffer, has between 1 and 100 codes, and can be scaled
  -- and encoded: a pass of `looping` sends that client the frame decoded, scaled down, with one
  -- polygon for each code, and encoded.
  pub looping_pass-polygons :
      (a : Action) (s : Server) (c : Station) (b : Bytes) (i : ImageInfo) (small : Image)
      (buf : Bytes)
      → IsListening delivers a s
      → s.get_data ≡ false
      → s.stop_streaming ≡ false
      → HasBuffers b i c
      → ((t : Trace) → sdk.succeeds t malloc_text ≡ true)
      → let f = sdk.frame c.trace in
        sdk.code c.trace (get_one_frame c.handle) ≡ mv_ok
        → IsWhole f
        → f.info.frame_len < c.max_image_size
        → f.codes_ex2 ≢ []
        → length f.codes_ex2 ≤ max_bcr_info
        → cv.resize (cv.imdecode f.bytes) ≡ some small
        → imencode (polygons cv (entries 0 f.codes_ex2) small) ≡ some buf
        → (d : Station) × (looping_pass (with_camera cv sdk imencode delivers) s c
            ≡ goes_on
                (record s { sent = record { to = a.hdl; payload = Payload.binary buf } ∷ s.sent })
                d)
  looping_pass-polygons a s c b i small buf v g st h gives code w lt ne fits e enc =
      let (r, d, ok_eq, p) =
        Ends-ok _ (get_image cv sdk c)
          (get_image-Ends cv sdk b i c small h code w lt ne fits gives e) in
      (
        d,
        image_pass (with_camera cv sdk imencode delivers) a s c d _ buf v g st
            (called-ok c d (get_image cv sdk c) r _ ok_eq p.0) enc,
      )
