-- ===== src/Base/Decimal.antt =====
-- `printf` of integers: "%d" and "%.Nd". Text is the list of its bytes.
pub mod Reading
use aggregation.Base.{
  ℕ, zero, suc, ◌+◌, ◌-◌, ◌/◌, ◌%◌, ◌≡◌, refl, List, [], ◌∷◌, ◌++◌, ltb, length, replicate,
  if◌then◌else◌,
}
use aggregation.Base.Int.{ℤ, pos, negsuc}

abbrev pub Bytes : Type 0
Bytes = List ℕ

-- The digits of `n` before `out`, at most `fuel` of them; `decimal` gives one unit for each digit
-- that a number can have.
digits : ℕ → ℕ → Bytes → Bytes
digits zero n out = out
digits (suc fuel) n out =
    let rest = digits fuel (n / 10) ((b'0' + n % 10) ∷ out) in
    if ltb n 10 then (b'0' + n) ∷ out else rest

-- "%d" of a number that is not negative.
unfoldable pub decimal : ℕ → Bytes
unfolding digits
decimal n = digits (suc n) n []

-- "%d"
unfoldable pub print_int : ℤ → Bytes
unfolding decimal
print_int (pos n) = decimal n
print_int (negsuc n) = b'-' ∷ decimal (suc n)

-- "%.Nd" of a number that is not negative: at least `width` digits.
unfoldable pub padded : ℕ → ℕ → Bytes
unfolding decimal
padded width n = replicate (width - length (decimal n)) b'0' ++ decimal n

decimal_runs :
    decimal 4_294_967_295 ≡ b'4' ∷ b'2' ∷ b'9' ∷ b'4' ∷ b'9' ∷ b'6' ∷ b'7' ∷ b'2' ∷ b'9' ∷ b'5' ∷ []
unfolding decimal
decimal_runs = refl

padded_runs : padded 2 7 ≡ b'0' ∷ b'7' ∷ []
unfolding padded
padded_runs = refl
