-- ===== src/Camera/Codes/Fields.antt =====
-- broadcastTest.cpp, `getData`: the entries and their count.
use mathlib.Core.List.{append_assoc, append-nil}
use aggregation.Base.{
  ℕ, suc, ◌+◌, ◌/◌, ◌%◌, ◌^◌, ◌≤◌, ◌<◌, ◌≡◌, refl, ◌≢◌, true, none, some, List, [], ◌∷◌, ◌++◌,
  arith, length, Option, sym, ◌∙◌, ap, if◌then◌else◌,
}
use aggregation.Base.Int.{pos, ◌+ℤ◌, i32, quot}
use aggregation.Base.Decimal.{Bytes}
use aggregation.Sdk.{Sdk, Code, Trace, malloc_text, free_text}
use aggregation.Station.{Station, Ends, Ends-and_then, Ends-mono}
use aggregation.Camera.Codes.{
  BcrInfo, BcrEntry, center, entry, gb2312_to_utf8, get_data_round, get_data_loop, get_data,
  unset_info, max_bcr_info,
}

-- For corners inside an image, the center is the mean, rounded down, no sum overflows, and the center
-- lies between any two bounds on the corners.
center_bounds :
    (a b c d lo hi : ℕ)
    → (lo ≤ a) × (lo ≤ b) × (lo ≤ c) × (lo ≤ d)
    → (a ≤ hi) × (b ≤ hi) × (c ≤ hi) × (d ≤ hi)
    → hi < 2 ^ 29
    → (center (pos a) (pos b) (pos c) (pos d) ≡ pos ((a + b + c + d) / 4))
      × (lo ≤ (a + b + c + d) / 4)
      × ((a + b + c + d) / 4 ≤ hi)
unfolding center i32 quot ◌+ℤ◌
center_bounds a b c d lo hi l h small = ground arith

-- The entries from the `i`th code on.
unfoldable pub entries : ℕ → List Code → List BcrEntry
entries i [] = []
entries i (c ∷ cs) = entry i c ∷ entries (suc i) cs

count_after : ℕ → List Code → Option ℕ → Option ℕ
count_after n [] o = o
count_after n (c ∷ cs) o = some (n % 256)

count_after-some :
    (n : ℕ) (cs : List Code) {o : Option ℕ}
    → o ≡ some (n % 256)
    → count_after n cs o ≡ some (n % 256)
unfolding count_after
count_after-some n [] e = e
count_after-some n (c ∷ cs) e = refl

count_after-length :
    (cs : List Code)
    → cs ≢ []
    → length cs ≤ max_bcr_info
    → count_after (length cs) cs none ≡ some (length cs)
unfolding count_after
count_after-length [] h le = absurd (h refl)
count_after-length (c ∷ cs) h le = ap some (omega arith)

-- The blocks of 512 bytes for texts: those allocated, and those freed.
module _ (sdk : Sdk) where
  abbrev pub text_blocks : Trace → ℕ
  text_blocks [] = 0
  text_blocks (malloc_text ∷ t) = text_blocks t + (if sdk.succeeds t malloc_text then 1 else 0)
  text_blocks (c ∷ t) = text_blocks t

abbrev pub text_frees : Trace → ℕ
text_frees [] = 0
text_frees (free_text ∷ t) = text_frees t + 1
text_frees (c ∷ t) = text_frees t

-- The buffers of the station are left alone.
pub record Keeps (s t : Station) : Type 0 where
  pub data_buf : t.data_buf ≡ s.data_buf
  pub image_info : t.image_info ≡ s.image_info
  pub max_image_size : t.max_image_size ≡ s.max_image_size

Keeps-trans : {s t u : Station} → Keeps s t → Keeps t u → Keeps s u
Keeps-trans p q = record {
  data_buf = q.data_buf ∙ p.data_buf;
  image_info = q.image_info ∙ p.image_info;
  max_image_size = q.max_image_size ∙ p.max_image_size;
}

module _ (sdk : Sdk) where
  -- What a run of rounds has added to the state `s`.
  pub record Adds (k : ℕ) (s t : Station) : Type 0 where
    blocks : text_blocks sdk t.trace ≡ text_blocks sdk s.trace + k
    frees : text_frees t.trace ≡ text_frees s.trace
    keeps : Keeps s t

  pub convert-Adds :
      (src dst : Bytes) (s : Station) → Ends (λ r t. Adds 0 s t) (gb2312_to_utf8 sdk src dst s)
  unfolding gb2312_to_utf8
  convert-Adds src dst s = ground arith

  pub round-Ends :
      (n i : ℕ) (c : Code) (bi : BcrInfo) (s : Station)
      → i < max_bcr_info
      → ((t : Trace) → sdk.succeeds t malloc_text ≡ true)
      → Ends
          (λ r t.
            (r ≡ record { info = bi.info ++ entry i c ∷ []; count = some (n % 256) }) × Adds 1 s t)
          (get_data_round sdk n i c bi s)
  unfolding get_data_round
  round-Ends n i c bi s lt gives =
      Ends-and_then (λ r t. Adds 0 s t) _ (gb2312_to_utf8 sdk c.text [] s) _
        (convert-Adds c.text [] s) (λ r t p. ground (arith, gives t.trace))

  loop-Ends :
      (n i : ℕ) (cs : List Code) (bi : BcrInfo) (s : Station)
      → i + length cs ≤ max_bcr_info
      → ((t : Trace) → sdk.succeeds t malloc_text ≡ true)
      → Ends
          (λ r t.
            (r.info ≡ bi.info ++ entries i cs)
            × (r.count ≡ count_after n cs bi.count)
            × Adds (length cs) s t)
          (get_data_loop sdk n i cs bi s)
  unfolding get_data_loop entries count_after
  loop-Ends n i [] bi s fits gives = (
    sym (append-nil bi.info),
    refl,
    record {
      blocks = omega arith;
      frees = refl;
      keeps = record { data_buf = refl; image_info = refl; max_image_size = refl };
    },
  )
  loop-Ends n i (c ∷ cs) bi s fits gives =
      Ends-and_then _ _ (get_data_round sdk n i c bi s) _
        (round-Ends n i c bi s (omega arith) gives)
        λ r t p.
          Ends-mono _ _ (get_data_loop sdk n (suc i) cs r t)
            (loop-Ends n (suc i) cs r t (omega arith) gives)
            λ r' t' q. (
              q.0 ∙ (rw p.0 (append_assoc bi.info (entry i c ∷ []) (entries (suc i) cs))),
              q.1 ∙ count_after-some n cs (ap (λ (b : BcrInfo). b.count) p.0),
              record {
                blocks = omega (arith, p.1.blocks, q.2.blocks);
                frees = q.2.frees ∙ p.1.frees;
                keeps = Keeps-trans p.1.keeps q.2.keeps;
              },
            )

  -- What `getData` leaves behind from the state `s`.
  abbrev pub Collects : List Code → Station → BcrInfo → Station → Type 0
  Collects codes s r t =
      (r.info ≡ entries 0 codes)
      × (codes ≡ [] → r.count ≡ none)
      × (codes ≢ [] → r.count ≡ some (length codes))
      × (text_blocks sdk t.trace ≡ text_blocks sdk s.trace + length codes)
      × (text_frees t.trace ≡ text_frees s.trace)
      × Keeps s t

  -- `getData` on at most 100 codes, while there is memory: the entries are those of the codes in
  -- order, and `count` is their number; but with no code `count` has no value. One block of 512
  -- bytes is allocated for each code, and none is freed; the buffers of the camera are as before.
  pub get_data-Ends :
      (codes : List Code) (s : Station)
      → length codes ≤ max_bcr_info
      → ((t : Trace) → sdk.succeeds t malloc_text ≡ true)
      → Ends (Collects codes s) (get_data sdk codes s)
  unfolding get_data count_after
  get_data-Ends codes s fits gives =
      Ends-mono _ _ (get_data_loop sdk (length codes) 0 codes unset_info s)
        (loop-Ends (length codes) 0 codes unset_info s (omega arith) gives)
        λ r t q. (
          q.0,
          (λ e. q.1 ∙ ap (λ l. count_after (length codes) l none) e),
          (λ e. q.1 ∙ count_after-length codes e fits),
          q.2.blocks,
          q.2.frees,
          q.2.keeps,
        )
