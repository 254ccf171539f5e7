-- ===== src/StillCamera/Picture/Overflow.antt =====
-- Camera2.cpp, `bufferToImage` with one channel, as `getImage` calls it.
use mathlib.Core.Path.{subst}
use aggregation.Base.{
  ℕ, ◌-◌, suc, ◌+◌, ◌*◌, ◌≤◌, ◌<◌, ◌≡◌, refl, ap, some, [], ◌∷◌, arith, length, get_elem?,
}
use aggregation.Base.Decimal.{Bytes}
use aggregation.Station.{overflow}
use aggregation.StillCamera.Picture.{
  Painted, painted, breaks, then_paint, set_byte, set_pixel, channel_loop, column_loop, row_loop,
  buffer_to_image,
}

length-set_byte : (i v : ℕ) (xs : Bytes) → length (set_byte i v xs) ≡ length xs
length-set_byte i v [] = refl
length-set_byte ℕ.zero v (x ∷ xs) = refl
length-set_byte (suc i) v (x ∷ xs) = ap suc (length-set_byte i v xs)

get_elem-some : (xs : Bytes) (i : ℕ) → i < length xs → (v : ℕ) × (get_elem? xs i ≡ some v)
get_elem-some [] i lt = absurd (omega arith)
get_elem-some (x ∷ xs) ℕ.zero lt = (x, refl)
get_elem-some (x ∷ xs) (suc i) lt = get_elem-some xs i (omega arith)

within : (y x w h : ℕ) → y < h → x < w → y * w + x < h * w
within y x w h a b = grind arith

past : (y x w : ℕ) → 2 ≤ w → x + 1 ≡ w → suc y * w ≤ y * w + 3 * x
past y x w a b = grind arith

-- An image of `n` bytes, or a write past the end of one.
abbrev Fits : ℕ → Painted → Type 0
Fits n (painted i) = length i ≡ n
Fits n (breaks e) = e ≡ overflow

then_paint-Fits :
    (n : ℕ) (p : Painted) (f : Bytes → Painted)
    → Fits n p
    → ((i : Bytes) → length i ≡ n → Fits n (f i))
    → Fits n (then_paint p f)
then_paint-Fits n (painted i) f h k = k i h
then_paint-Fits n (breaks e) f h k = h

then_paint-overflow :
    (n : ℕ) (p : Painted) (f : Bytes → Painted)
    → Fits n p
    → ((i : Bytes) → length i ≡ n → f i ≡ breaks overflow)
    → then_paint p f ≡ breaks overflow
then_paint-overflow n (painted i) f h k = k i h
then_paint-overflow n (breaks e) f h k = ap breaks h

module _ (buffer : Bytes) (w h : ℕ) (enough : h * w ≤ length buffer) where
  set_pixel-Fits :
      (y x : ℕ) (image : Bytes)
      → y < h
      → x < w
      → Fits (length image) (set_pixel buffer w 1 y x 0 image)
  unfolding set_pixel
  set_pixel-Fits y x image a b =
      let lt = within y x w h a b in
      let (v, e) = get_elem-some buffer (y * w * 1 + x * 1 + 0) (omega arith) in
      ground (arith, e, length-set_byte (y * (w * 1) + 3 * x + 0) v image)

  set_pixel-overflow :
      (y x : ℕ) (image : Bytes)
      → y + 1 ≡ h
      → x + 1 ≡ w
      → 2 ≤ w
      → length image ≡ h * w
      → set_pixel buffer w 1 y x 0 image ≡ breaks overflow
  unfolding set_pixel
  set_pixel-overflow y x image a b two size =
      let lt = within y x w h (omega arith) (omega arith) in
      let (v, e) = get_elem-some buffer (y * w * 1 + x * 1 + 0) (omega arith) in
      let last : suc y ≡ h = omega arith in
      let far : h * w ≤ y * w + 3 * x =
        subst (λ n. n * w ≤ y * w + 3 * x) last (past y x w two b) in
      ground (arith, e, far, size)

  channel-Fits :
      (y x : ℕ) (image : Bytes)
      → y < h
      → x < w
      → Fits (length image) (channel_loop buffer w 1 y x 0 1 image)
  unfolding channel_loop
  channel-Fits y x image a b =
      then_paint-Fits (length image) (set_pixel buffer w 1 y x 0 image) painted
        (set_pixel-Fits y x image a b) (λ i e. e)

  column-Fits :
      (y x n : ℕ) (image : Bytes)
      → y < h
      → x + n ≤ w
      → Fits (length image) (column_loop buffer w 1 y x n image)
  unfolding column_loop
  column-Fits y x ℕ.zero image a b = refl
  column-Fits y x (suc n) image a b =
      then_paint-Fits (length image) (channel_loop buffer w 1 y x 0 1 image)
        (λ i. column_loop buffer w 1 y (suc x) n i) (channel-Fits y x image a (omega arith))
        (λ i e. rw (← e) (column-Fits y (suc x) n i a (omega arith)))

  column-overflow :
      (y x n : ℕ) (image : Bytes)
      → y + 1 ≡ h
      → x + suc n ≡ w
      → 2 ≤ w
      → length image ≡ h * w
      → column_loop buffer w 1 y x (suc n) image ≡ breaks overflow
  unfolding column_loop channel_loop
  column-overflow y x ℕ.zero image a b two size =
      rw (set_pixel-overflow y x image a (omega arith) two size) refl
  column-overflow y x (suc n) image a b two size =
      then_paint-overflow (h * w) (channel_loop buffer w 1 y x 0 1 image)
        (λ i. column_loop buffer w 1 y (suc x) (suc n) i)
        (rw (← size) (channel-Fits y x image (omega arith) (omega arith)))
        (λ i e. column-overflow y (suc x) n i a (omega arith) two e)

  row-overflow :
      (y n : ℕ) (image : Bytes)
      → y + suc n ≡ h
      → 2 ≤ w
      → length image ≡ h * w
      → row_loop buffer w 1 y (suc n) image ≡ breaks overflow
  unfolding row_loop
  row-overflow y ℕ.zero image a two size =
      let all : suc (w - 1) ≡ w = omega arith in
      let e : column_loop buffer w 1 y 0 w image ≡ breaks overflow =
        subst (λ n. column_loop buffer w 1 y 0 n image ≡ breaks overflow) all
          (column-overflow y 0 (w - 1) image a (omega arith) two size) in
      ap (λ p. then_paint p painted) e
  row-overflow y (suc n) image a two size =
      then_paint-overflow (h * w) (column_loop buffer w 1 y 0 w image)
        (λ i. row_loop buffer w 1 (suc y) (suc n) i)
        (rw (← size) (column-Fits y 0 w image (omega arith) (omega arith)))
        (λ i e. row-overflow (suc y) n i (omega arith) two e)

-- On an image of one channel with at least two columns and one row, and a buffer that holds it, the
-- function writes past the end of the image, whatever the bytes are.
pub buffer_to_image_overflow :
    (buffer image : Bytes) (width height : ℕ)
    → 2 ≤ width
    → 1 ≤ height
    → height * width ≤ length buffer
    → length image ≡ height * width
    → buffer_to_image buffer width height 1 image ≡ breaks overflow
unfolding buffer_to_image
buffer_to_image_overflow buffer image width ℕ.zero two one enough size = absurd (omega arith)
buffer_to_image_overflow buffer image width (suc n) two one enough size =
    row-overflow buffer width (suc n) enough 0 n image (omega arith) two size
