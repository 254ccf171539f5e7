-- ===== src/Camera/Report/Reader.antt =====
-- broadcastTest.cpp: the text of `getString`, read by a client of the server.
use native.Mathlib.Decide.{dec_lt}
use aggregation.Base.{
  ℕ, zero, suc, ◌≤◌, ◌<◌, ◌≡◌, refl, ◌∙◌, ap, true, Option, some, List, [], ◌∷◌, ◌++◌, arith,
  length, length-append, ltb, if◌then◌else◌, All,
}
use aggregation.Base.Int.{pos, i32}
use aggregation.Base.Decimal.{Bytes, decimal, print_int}
use aggregation.Sdk.{Sdk, Code, Trace, get_one_frame, malloc_text, malloc_result, mv_ok}
use aggregation.Station.{Station, Ends, Ends-mono}
use aggregation.Camera.Codes.{max_bcr_len}
use aggregation.Camera.Report.{piece, first_score, get_string}
use aggregation.Camera.Report.Text.{
  report, report_small, report_large, Converts, Even, get_string-report,
}
use aggregation.Camera.Report.Items.{
  Item, Lacks, read_items, read_item-piece, after_item-piece, piece-ne-nil, length-append-pos,
  read_items-step,
}

-- The items of the codes from the `i`th on, less those whose piece has 512 bytes or more.
unfoldable pub items : (Bytes → Bytes) → ℕ → ℕ → List Code → List Item
items utf8 score i [] = []
items utf8 score i (c ∷ cs) =
    let rest = items utf8 score (suc i) cs in
    if ltb (length (piece score i (utf8 c.text))) max_bcr_len
    then (i, utf8 c.text, i32 (pos score)) ∷ rest
    else rest

module _ (utf8 : Bytes → Bytes) (score : ℕ) where
  items_small :
      (i : ℕ) (c : Code) (cs : List Code)
      → length (piece score i (utf8 c.text)) < max_bcr_len
      → items utf8 score i (c ∷ cs)
        ≡ (i, utf8 c.text, i32 (pos score)) ∷ items utf8 score (suc i) cs
  unfolding items
  items_small i c cs small = ground arith

  items_large :
      (i : ℕ) (c : Code) (cs : List Code)
      → max_bcr_len ≤ length (piece score i (utf8 c.text))
      → items utf8 score i (c ∷ cs) ≡ items utf8 score (suc i) cs
  unfolding items
  items_large i c cs large = ground arith

  read_items-piece :
      (fuel i : ℕ) (str rest : Bytes)
      → Lacks b':' str
      → read_items (suc fuel) (piece score i str ++ rest)
        ≡ (i, str, i32 (pos score)) ∷ read_items fuel rest
  read_items-piece fuel i str rest h =
      read_items-step fuel (piece score i str ++ rest) (piece-ne-nil score i str rest h)
      ∙ (rw (read_item-piece score i str rest h, after_item-piece score i str rest h) refl)

  -- One item, and the rest read with what is left of the fuel.
  read_items-next :
      (fuel i : ℕ) (str rest : Bytes) (xs : List Item)
      → Lacks b':' str
      → suc (length xs) ≤ fuel
      → ((g : ℕ) → length xs ≤ g → read_items g rest ≡ xs)
      → read_items fuel (piece score i str ++ rest) ≡ (i, str, i32 (pos score)) ∷ xs
  read_items-next zero i str rest xs h le later = absurd (omega arith)
  read_items-next (suc g) i str rest xs h le later =
      read_items-piece g i str rest h ∙ ap (◌∷◌ (i, str, i32 (pos score))) (later g (omega arith))

  read_items-report :
      (fuel i : ℕ) (cs : List Code)
      → All (λ c. Lacks b':' (utf8 c.text)) cs
      → length (items utf8 score i cs) ≤ fuel
      → read_items fuel (report utf8 score i cs) ≡ items utf8 score i cs
  unfolding items report read_items
  read_items-report zero i [] h le = refl
  read_items-report (suc fuel) i [] h le = refl
  read_items-report fuel i (c ∷ cs) h le =
      elim (dec_lt (length (piece score i (utf8 c.text))) max_bcr_len) [
        | no large ↦
            let e = items_large i c cs (omega arith) in
            rw (report_large utf8 score i c cs (omega arith), e)
              (read_items-report fuel (suc i) cs h.1 (rw e at le))
        | yes small ↦
            let e = items_small i c cs small in
            rw (report_small utf8 score i c cs small, e)
              (read_items-next fuel i (utf8 c.text) (report utf8 score (suc i) cs)
                (items utf8 score (suc i) cs) h.0 (rw e at le)
                (λ g room. read_items-report g (suc i) cs h.1 room))
      ]

  piece-pos : (i : ℕ) (str : Bytes) → 1 ≤ length (piece score i str)
  unfolding piece
  piece-pos i str =
      length-append-pos (decimal i ++ b':' ∷ str ++ b':' ∷ print_int (i32 (pos score))) b';' []

  length-items :
      (i : ℕ) (cs : List Code) → length (items utf8 score i cs) ≤ length (report utf8 score i cs)
  unfolding items report
  length-items i [] = omega arith
  length-items i (c ∷ cs) =
      let rest = length-items (suc i) cs in
      ground (
        arith,
        rest,
        piece-pos i (utf8 c.text),
        length-append (piece score i (utf8 c.text)) (report utf8 score (suc i) cs),
      )

-- What a client makes of the text: an item is at least one byte, so this is fuel enough.
abbrev pub read : Bytes → List Item
read s = read_items (length s) s

module _ (sdk : Sdk) (utf8 : Bytes → Bytes) (conv : Converts sdk utf8) where
  abbrev pub Reads : List Item → Option Bytes → Station → Type 0
  Reads xs r t = (text : Bytes) × (r ≡ some text) × (read text ≡ xs)

  -- What `getString` returns is read back: of a frame whose texts have no ':' and are under 512 bytes
  -- in UTF-8, with pieces that come to under 512 bytes in all, a client reads the index and the text
  -- of each code in order, and with each the score of the first code; the codes with a piece of 512
  -- bytes or more are missing. It needs a converter that works, and memory.
  pub get_string-Reads :
      (s : Station)
      → let codes = (sdk.frame s.trace).codes_ex in
        let score = first_score codes in
        ((t : Trace) → sdk.succeeds t malloc_text ≡ true)
        → sdk.code s.trace (get_one_frame s.handle) ≡ mv_ok
        → All (λ c. length (utf8 c.text) < max_bcr_len) codes
        → All (λ c. Lacks b':' (utf8 c.text)) codes
        → ((t : Trace) (n : ℕ) → sdk.succeeds t (malloc_result n) ≡ true)
        → length (report utf8 score 0 codes) < max_bcr_len
        → Ends (Reads (items utf8 score 0 codes)) (get_string sdk s)
  get_string-Reads s gives c short plain result fits =
      let codes : List Code = (sdk.frame s.trace).codes_ex in
      let score : ℕ = first_score codes in
      Ends-mono (λ r t. (r ≡ some (report utf8 score 0 codes)) × Even sdk s t)
        (Reads (items utf8 score 0 codes)) (get_string sdk s)
        ((get_string-report sdk utf8 conv gives s c short result).0 fits)
        λ r t q. (
          report utf8 score 0 codes,
          q.0,
          read_items-report utf8 score _ 0 codes plain (length-items utf8 score 0 codes),
        )
