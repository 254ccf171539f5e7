-- ===== src/Camera/Report/Text.antt =====
-- broadcastTest.cpp, `getString`: the text that comes back.
use mathlib.Core.List.{append_assoc, append-nil}
use native.Mathlib.Decide.{dec_lt}
use aggregation.Base.{
  ℕ, suc, ◌+◌, ◌≤◌, ◌<◌, ◌≡◌, refl, ◌≢◌, true, some, List, [], ◌∷◌, ◌++◌, arith, length,
  length-append, sym, ap, if◌then◌else◌, ltb, All,
}
use aggregation.Base.Decimal.{Bytes}
use aggregation.Sdk.{Sdk, Code, Trace, malloc_text, malloc_result, get_one_frame, mv_ok}
use aggregation.Station.{Station, fault, overflow, Ends, Ends-and_then, Ends-mono, and_then-fault}
use aggregation.Camera.Codes.{gb2312_to_utf8, max_bcr_len}
use aggregation.Camera.Codes.Fields.{text_blocks, text_frees}
use aggregation.Camera.Report.{
  Temp, empty_temp, first_score, piece, get_string_round, get_string_loop, copy_out, get_string,
}

-- The text that the codes from the `i`th on come to, by a converter: the pieces in order, less those
-- of 512 bytes or more.
unfoldable pub report : (Bytes → Bytes) → ℕ → ℕ → List Code → Bytes
report utf8 score i [] = []
report utf8 score i (c ∷ cs) =
    let rest = report utf8 score (suc i) cs in
    let p = piece score i (utf8 c.text) in if ltb (length p) max_bcr_len then p ++ rest else rest

pub report_small :
    (utf8 : Bytes → Bytes) (score i : ℕ) (c : Code) (cs : List Code)
    → length (piece score i (utf8 c.text)) < max_bcr_len
    → report utf8 score i (c ∷ cs) ≡ piece score i (utf8 c.text) ++ report utf8 score (suc i) cs
unfolding report
report_small utf8 score i c cs small = ground arith

pub report_large :
    (utf8 : Bytes → Bytes) (score i : ℕ) (c : Code) (cs : List Code)
    → max_bcr_len ≤ length (piece score i (utf8 c.text))
    → report utf8 score i (c ∷ cs) ≡ report utf8 score (suc i) cs
unfolding report
report_large utf8 score i c cs large = ground arith

-- What `iconv` does with every text that the frames hold.
abbrev pub Converts : Sdk → (Bytes → Bytes) → Type 0
Converts sdk utf8 =
    (t : Trace) (src : Bytes)
    → (sdk.descriptor t ≢ 0) × ((sdk.iconv (sdk.descriptor t) src).1 ≡ utf8 src)

module _ (sdk : Sdk) where
  -- From `s` to `t`, as many blocks for texts are freed as are allocated.
  abbrev pub Even : Station → Station → Type 0
  Even s t =
      text_blocks sdk t.trace + text_frees s.trace ≡ text_blocks sdk s.trace + text_frees t.trace

module _ (sdk : Sdk) (utf8 : Bytes → Bytes) (conv : Converts sdk utf8) where
  converted :
      (src : Bytes) (s : Station)
      → Ends (λ r t. (r.1 ≡ utf8 src) × Even sdk s t) (gb2312_to_utf8 sdk src [] s)
  unfolding gb2312_to_utf8
  converted src s = ground (arith, conv s.trace src)

  -- The text and its length after the pieces `out`.
  Adds : Temp → Bytes → Station → Temp → Station → Type 0
  Adds temp out s r t =
      (r.text ≡ temp.text ++ out) × (r.total_length ≡ temp.total_length + length out) × Even sdk s t

  module _ (gives : (t : Trace) → sdk.succeeds t malloc_text ≡ true) where
    round-Adds :
        (score i : ℕ) (c : Code) (temp : Temp) (s : Station)
        → length (utf8 c.text) < max_bcr_len
        → length (piece score i (utf8 c.text)) < max_bcr_len
        → length temp.text + length (piece score i (utf8 c.text)) < max_bcr_len
        → Ends (Adds temp (piece score i (utf8 c.text)) s) (get_string_round sdk score i c temp s)
    unfolding get_string_round Adds
    round-Adds score i c temp s short small fits =
        Ends-and_then (λ r t. (r.1 ≡ utf8 c.text) × Even sdk s t) _ (gb2312_to_utf8 sdk c.text [] s)
          _ (converted c.text s) (λ r t p. rw p.0 (ground (arith, gives t.trace)))

    round_overflows :
        (score i : ℕ) (c : Code) (temp : Temp) (s : Station)
        → length (utf8 c.text) < max_bcr_len
        → length (piece score i (utf8 c.text)) < max_bcr_len
        → max_bcr_len ≤ length temp.text + length (piece score i (utf8 c.text))
        → get_string_round sdk score i c temp s ≡ fault overflow
    unfolding get_string_round
    round_overflows score i c temp s short small past =
        and_then-fault (λ r t. (r.1 ≡ utf8 c.text) × Even sdk s t) (gb2312_to_utf8 sdk c.text [] s)
          _ (converted c.text s) (λ r t p. rw p.0 (ground (arith, gives t.trace)))

    round_skips :
        (score i : ℕ) (c : Code) (temp : Temp) (s : Station)
        → length (utf8 c.text) < max_bcr_len
        → max_bcr_len ≤ length (piece score i (utf8 c.text))
        → Ends (Adds temp [] s) (get_string_round sdk score i c temp s)
    unfolding get_string_round Adds
    round_skips score i c temp s short large =
        Ends-and_then (λ r t. (r.1 ≡ utf8 c.text) × Even sdk s t) _ (gb2312_to_utf8 sdk c.text [] s)
          _ (converted c.text s)
          (λ r t p. rw p.0 (ground (arith, gives t.trace, append-nil temp.text)))

    Adds-trans :
        (temp r r' : Temp) (out rest : Bytes) (s t u : Station)
        → Adds temp out s r t
        → Adds r rest t r' u
        → Adds temp (out ++ rest) s r' u
    unfolding Adds
    Adds-trans temp r r' out rest s t u p q = (
      rw (q.0, p.0) (append_assoc temp.text out rest),
      omega (arith, q.1, p.1, length-append out rest),
      omega (arith, q.2, p.2),
    )

    text_after :
        (temp r : Temp) (out : Bytes) (s t : Station)
        → Adds temp out s r t
        → length r.text ≡ length temp.text + length out
    unfolding Adds
    text_after temp r out s t p = rw p.0 (length-append temp.text out)

    loop-Adds :
        (score i : ℕ) (cs : List Code) (temp : Temp) (s : Station)
        → All (λ c. length (utf8 c.text) < max_bcr_len) cs
        → length temp.text + length (report utf8 score i cs) < max_bcr_len
        → Ends (Adds temp (report utf8 score i cs) s) (get_string_loop sdk score i cs temp s)
    unfolding get_string_loop report Adds
    loop-Adds score i [] temp s short fits = (sym (append-nil temp.text), omega arith, refl)
    loop-Adds score i (c ∷ cs) temp s short fits =
        let p : Bytes = piece score i (utf8 c.text) in
        let rest : Bytes = report utf8 score (suc i) cs in
        let go : (out : Bytes)
            → length temp.text + length (out ++ rest) < max_bcr_len
            → Ends (Adds temp out s) (get_string_round sdk score i c temp s)
            → Ends (Adds temp (out ++ rest) s) (get_string_loop sdk score i (c ∷ cs) temp s) =
          λ out room h.
            Ends-and_then (Adds temp out s) (Adds temp (out ++ rest) s)
              (get_string_round sdk score i c temp s) (λ r. get_string_loop sdk score (suc i) cs r)
              h
              λ r t q.
                Ends-mono (Adds r rest t) (Adds temp (out ++ rest) s)
                  (get_string_loop sdk score (suc i) cs r t)
                  (loop-Adds score (suc i) cs r t short.1
                    (omega (arith, text_after temp r out s t q, length-append out rest)))
                  (λ r' u w. Adds-trans temp r r' out rest s t u q w) in
        elim (dec_lt (length p) max_bcr_len) [
          | yes small ↦
              let e = report_small utf8 score i c cs small in
              rw e (
                go p (rw (sym e) fits) (
                  round-Adds score i c temp s short.0 small
                    (omega (arith, fits, ap length e, length-append p rest))))
          | no large ↦
              let e = report_large utf8 score i c cs (omega arith) in
              rw e (go [] (rw (sym e) fits) (round_skips score i c temp s short.0 (omega arith)))
        ]

    nothing : (score i : ℕ) → length (report utf8 score i []) ≡ 0
    unfolding report
    nothing score i = refl

    loop_overflows :
        (score i : ℕ) (cs : List Code) (temp : Temp) (s : Station)
        → All (λ c. length (utf8 c.text) < max_bcr_len) cs
        → length temp.text < max_bcr_len
        → max_bcr_len ≤ length temp.text + length (report utf8 score i cs)
        → get_string_loop sdk score i cs temp s ≡ fault overflow
    unfolding get_string_loop
    loop_overflows score i [] temp s short room past = absurd (omega (arith, past, nothing score i))
    loop_overflows score i (c ∷ cs) temp s short room past =
        let p : Bytes = piece score i (utf8 c.text) in
        let rest : Bytes = report utf8 score (suc i) cs in
        let go : (out : Bytes)
            → length temp.text + length out < max_bcr_len
            → max_bcr_len ≤ length temp.text + length (out ++ rest)
            → Ends (Adds temp out s) (get_string_round sdk score i c temp s)
            → get_string_loop sdk score i (c ∷ cs) temp s ≡ fault overflow =
          λ out fits much h.
            and_then-fault (Adds temp out s) (get_string_round sdk score i c temp s)
              (λ r. get_string_loop sdk score (suc i) cs r) h
              λ r t q.
                let n = text_after temp r out s t q in
                loop_overflows score (suc i) cs r t short.1 (omega (arith, n))
                  (omega (arith, n, length-append out rest)) in
        elim (dec_lt (length p) max_bcr_len) [
          | yes small ↦ elim (dec_lt (length temp.text + length p) max_bcr_len) [
            | yes fits ↦
                go p fits (rw (sym (report_small utf8 score i c cs small)) past)
                  (round-Adds score i c temp s short.0 small fits)
            | no full ↦ rw (round_overflows score i c temp s short.0 small (omega arith))
          ]
          | no large ↦
              go [] (omega arith) (rw (sym (report_large utf8 score i c cs (omega arith))) past)
                (round_skips score i c temp s short.0 (omega arith))
        ]

    copied_out :
        (text : Bytes) (s t0 : Station) (r : Temp) (t : Station)
        → text_blocks sdk t0.trace ≡ text_blocks sdk s.trace
        → text_frees t0.trace ≡ text_frees s.trace
        → ((t : Trace) (n : ℕ) → sdk.succeeds t (malloc_result n) ≡ true)
        → Adds empty_temp text t0 r t
        → Ends (λ r' t'. (r' ≡ some text) × Even sdk s t') (copy_out sdk r t)
    unfolding copy_out Adds
    copied_out text s t0 r t b f result q =
        ground (arith, q.0, q.1, q.2, result t.trace (r.total_length + 1), ap length q.0)

    -- `getString` on a frame whose texts are each under 512 bytes in UTF-8: the pieces "i:text:score;"
    -- of the codes in order, each with the score of the first code, less the pieces of 512 bytes or
    -- more, as long as they come to less than 512 bytes in all; every block for a piece is freed
    -- again. If they come to 512 bytes or more, `strcat` writes past the end of `temp_string`. It
    -- needs a converter that works, and memory.
    pub get_string-report :
        (s : Station)
        → let codes = (sdk.frame s.trace).codes_ex in
          let text = report utf8 (first_score codes) 0 codes in
          sdk.code s.trace (get_one_frame s.handle) ≡ mv_ok
          → All (λ c. length (utf8 c.text) < max_bcr_len) codes
          → ((t : Trace) (n : ℕ) → sdk.succeeds t (malloc_result n) ≡ true)
          → (length text < max_bcr_len
              → Ends (λ r t. (r ≡ some text) × Even sdk s t) (get_string sdk s))
            × (max_bcr_len ≤ length text → get_string sdk s ≡ fault overflow)
    unfolding get_string copy_out
    get_string-report s c short result =
        let codes : List Code = (sdk.frame s.trace).codes_ex in
        let t0 : Station = record s { trace = get_one_frame s.handle ∷ s.trace } in
        let score : ℕ = first_score codes in
        let text : Bytes = report utf8 score 0 codes in
        (
          (λ fits.
              rw (c, if◌then◌else◌)
                (Ends-and_then (Adds empty_temp text t0) (λ r t. (r ≡ some text) × Even sdk s t)
                  (get_string_loop sdk score 0 codes empty_temp t0) (copy_out sdk)
                  (loop-Adds score 0 codes empty_temp t0 short (omega arith))
                  (λ r t q. copied_out text s t0 r t refl refl result q))),
          (λ past.
              rw
                (
                  c,
                  if◌then◌else◌,
                  loop_overflows score 0 codes empty_temp t0 short (omega arith) (omega arith),
                )
                refl),
        )
