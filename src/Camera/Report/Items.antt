-- ===== src/Camera/Report/Items.antt =====
-- broadcastTest.cpp: the pieces "i:text:score;" of `getString`, cut at their separators.
use mathlib.Core.List.{append_assoc}
use aggregation.Base.{
  ℕ, zero, suc, ◌≤◌, ◌<◌, ◌≡◌, ◌≢◌, refl, sym, ◌∙◌, ap, List, [], ◌∷◌, ◌++◌, arith, length, ◌==◌,
  if◌then◌else◌, All,
}
use aggregation.Base.Int.{ℤ, pos, negsuc, i32}
use aggregation.Base.Decimal.{Bytes, decimal, print_int}
use aggregation.Base.Decimal.Reading.{
  value, read_int, IsDigit, value-decimal, decimal-IsDigit, decimal-ne-nil, read_int-print_int,
}
use aggregation.Camera.Report.{piece}

-- The text before the first `sep`, and the text after it.
abbrev pub before : ℕ → Bytes → Bytes
before sep [] = []
before sep (c ∷ s) = if c == sep then [] else c ∷ before sep s

abbrev pub after : ℕ → Bytes → Bytes
after sep [] = []
after sep (c ∷ s) = if c == sep then s else after sep s

-- An index, a text and a score.
abbrev pub Item : Type 0
Item = ℕ × Bytes × ℤ

abbrev pub read_item : Bytes → Item
read_item s =
    let text = after b':' s in
    (value (before b':' s) 0, before b':' text, read_int (before b';' (after b':' text)))

abbrev pub after_item : Bytes → Bytes
after_item s = after b';' (after b':' (after b':' s))

-- The items of a text, at most `fuel` of them.
unfoldable pub read_items : ℕ → Bytes → List Item
read_items zero s = []
read_items (suc fuel) [] = []
read_items (suc fuel) (c ∷ s) = read_item (c ∷ s) ∷ read_items fuel (after_item (c ∷ s))

abbrev pub Lacks : ℕ → Bytes → Type 0
Lacks c = All (λ x. x ≢ c)

before-append : (sep : ℕ) (p s : Bytes) → Lacks sep p → before sep (p ++ sep ∷ s) ≡ p
before-append sep [] s h = ground arith
before-append sep (c ∷ p) s h = ground (arith, h.0, before-append sep p s h.1)

after-append : (sep : ℕ) (p s : Bytes) → Lacks sep p → after sep (p ++ sep ∷ s) ≡ s
after-append sep [] s h = ground arith
after-append sep (c ∷ p) s h = ground (arith, h.0, after-append sep p s h.1)

pub length-append-pos : (p : Bytes) (c : ℕ) (s : Bytes) → 1 ≤ length (p ++ c ∷ s)
length-append-pos [] c s = omega arith
length-append-pos (x ∷ p) c s = omega arith

digits-Lacks : (c : ℕ) (s : Bytes) → b'9' < c → All IsDigit s → Lacks c s
digits-Lacks c [] h d = tt
digits-Lacks c (x ∷ s) h d = (omega (arith, d.0), digits-Lacks c s h d.1)

print_int-Lacks : (z : ℤ) → Lacks b';' (print_int z)
unfolding print_int
print_int-Lacks (pos n) = digits-Lacks b';' (decimal n) (omega arith) (decimal-IsDigit n)
print_int-Lacks (negsuc n) =
    (omega arith, digits-Lacks b';' (decimal (suc n)) (omega arith) (decimal-IsDigit (suc n)))

module _ (score i : ℕ) (str rest : Bytes) (lacks : Lacks b':' str) where
  shown : Bytes
  shown = print_int (i32 (pos score))

  piece-append :
      piece score i str ++ rest ≡ decimal i ++ b':' ∷ (str ++ b':' ∷ (shown ++ b';' ∷ rest))
  unfolding piece shown
  piece-append = simp append_assoc

  index-Lacks : Lacks b':' (decimal i)
  index-Lacks = digits-Lacks b':' (decimal i) (omega arith) (decimal-IsDigit i)

  after_index : after b':' (piece score i str ++ rest) ≡ str ++ b':' ∷ (shown ++ b';' ∷ rest)
  after_index = rw piece-append (after-append b':' (decimal i) _ index-Lacks)

  after_text : after b':' (after b':' (piece score i str ++ rest)) ≡ shown ++ b';' ∷ rest
  after_text = rw after_index (after-append b':' str _ lacks)

  before_index : before b':' (piece score i str ++ rest) ≡ decimal i
  before_index =
      rw piece-append
        (before-append b':' (decimal i) (str ++ b':' ∷ (shown ++ b';' ∷ rest)) index-Lacks)

  index_read : value (before b':' (piece score i str ++ rest)) 0 ≡ i
  index_read = rw before_index (value-decimal i)

  text_read : before b':' (after b':' (piece score i str ++ rest)) ≡ str
  text_read = rw after_index (before-append b':' str _ lacks)

  score_read :
      read_int (before b';' (after b':' (after b':' (piece score i str ++ rest)))) ≡ i32 (pos score)
  unfolding shown
  score_read =
      rw (after_text, before-append b';' shown rest (print_int-Lacks (i32 (pos score))))
        (read_int-print_int (i32 (pos score)))

  pub read_item-piece : read_item (piece score i str ++ rest) ≡ (i, str, i32 (pos score))
  read_item-piece = λ k. (index_read k, text_read k, score_read k)

  pub after_item-piece : after_item (piece score i str ++ rest) ≡ rest
  unfolding shown
  after_item-piece =
      rw after_text (after-append b';' shown rest (print_int-Lacks (i32 (pos score))))

  pub piece-ne-nil : piece score i str ++ rest ≢ []
  piece-ne-nil e = decimal-ne-nil i (sym before_index ∙ ap (before b':') e)

pub read_items-step :
    (fuel : ℕ) (s : Bytes)
    → s ≢ []
    → read_items (suc fuel) s ≡ read_item s ∷ read_items fuel (after_item s)
unfolding read_items
read_items-step fuel [] h = absurd (h refl)
read_items-step fuel (c ∷ s) h = refl
