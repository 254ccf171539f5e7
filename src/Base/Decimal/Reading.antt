-- ===== src/Base/Decimal/Reading.antt =====
-- Reading back what `printf` writes of an integer.
use aggregation.Base.{
  ℕ, zero, suc, ◌+◌, ◌-◌, ◌*◌, ◌/◌, ◌%◌, ◌^◌, ◌≤◌, ◌<◌, ◌≡◌, ◌≢◌, refl, ◌∙◌, ap, [], ◌∷◌, ◌++◌,
  arith, length, replicate, length-append, length-replicate, All, if◌then◌else◌, ◌==◌,
}
use aggregation.Base.Int.{ℤ, pos, negsuc}
use aggregation.Base.Decimal.{Bytes, digits, decimal, print_int, padded}

-- The number that the digits come to, from the value `n` on.
abbrev pub value : Bytes → ℕ → ℕ
value [] n = n
value (c ∷ s) n = value s (n * 10 + (c - b'0'))

abbrev pub read_int : Bytes → ℤ
read_int [] = pos 0
read_int (c ∷ s) = if c == b'-' then negsuc (value s 0 - 1) else pos (value (c ∷ s) 0)

abbrev pub IsDigit : ℕ → Type 0
IsDigit c = (b'0' ≤ c) × (c ≤ b'9')

value-digits : (fuel n : ℕ) (out : Bytes) → n < fuel → value (digits fuel n out) 0 ≡ value out n
unfolding digits
value-digits zero n out lt = absurd (omega arith)
value-digits (suc fuel) n out lt = grind (arith, value-digits fuel (n / 10) ((b'0' + n % 10) ∷ out))

digits-IsDigit : (fuel n : ℕ) (out : Bytes) → All IsDigit out → All IsDigit (digits fuel n out)
unfolding digits
digits-IsDigit zero n out h = h
digits-IsDigit (suc fuel) n out h =
    let rest =
      digits-IsDigit fuel (n / 10) ((b'0' + n % 10) ∷ out) ((omega arith, omega arith), h) in
    ground (arith, rest)

pub value-decimal : (n : ℕ) → value (decimal n) 0 ≡ n
unfolding decimal
value-decimal n = value-digits (suc n) n [] (omega arith)

pub decimal-IsDigit : (n : ℕ) → All IsDigit (decimal n)
unfolding decimal
decimal-IsDigit n = digits-IsDigit (suc n) n [] tt

value-zeros : (k : ℕ) (s : Bytes) → value (replicate k b'0' ++ s) 0 ≡ value s 0
value-zeros zero s = refl
value-zeros (suc k) s = value-zeros k s

pub value-padded : (w n : ℕ) → value (padded w n) 0 ≡ n
unfolding padded
value-padded w n = rw (value-zeros (w - length (decimal n)) (decimal n)) (value-decimal n)

ten : (k : ℕ) → 10 ^ suc (suc k) ≡ 10 * 10 ^ suc k
ten k = grind arith

length-digits :
    (fuel n k : ℕ) (out : Bytes) → n < 10 ^ suc k → length (digits fuel n out) ≤ suc k + length out
unfolding digits
length-digits zero n k out lt = omega arith
length-digits (suc fuel) n zero out lt = ground arith
length-digits (suc fuel) n (suc k) out lt =
    let rest = length-digits fuel (n / 10) k ((b'0' + n % 10) ∷ out) (omega (arith, ten k)) in
    ground (arith, rest)

-- A number with no more than `w` digits is printed in `w` bytes.
pub length-padded : (w n : ℕ) → n < 10 ^ suc w → length (padded (suc w) n) ≡ suc w
unfolding padded decimal
length-padded w n lt = omega (
  arith,
  length-append (replicate (suc w - length (decimal n)) b'0') (decimal n),
  length-replicate {A = ℕ} (suc w - length (decimal n)) b'0',
  length-digits (suc n) n w [] lt,
)

read_first : (c : ℕ) (s : Bytes) → IsDigit c → read_int (c ∷ s) ≡ pos (value (c ∷ s) 0)
read_first c s h = ground arith

read_digits : (s : Bytes) → s ≢ [] → All IsDigit s → read_int s ≡ pos (value s 0)
read_digits [] ne h = absurd (ne refl)
read_digits (c ∷ s) ne h = read_first c s h.0

digits-ne-nil : (fuel n : ℕ) (out : Bytes) → out ≢ [] → digits fuel n out ≢ []
unfolding digits
digits-ne-nil zero n out h = h
digits-ne-nil (suc fuel) n out h =
    let rest = digits-ne-nil fuel (n / 10) ((b'0' + n % 10) ∷ out) (λ e. ground (arith, e)) in
    ground (arith, rest)

pub decimal-ne-nil : (n : ℕ) → decimal n ≢ []
unfolding decimal digits
decimal-ne-nil n =
    let rest = digits-ne-nil n (n / 10) ((b'0' + n % 10) ∷ []) (λ e. ground (arith, e)) in
    ground (arith, rest)

-- "%d" is read back.
pub read_int-print_int : (z : ℤ) → read_int (print_int z) ≡ z
unfolding print_int
read_int-print_int (pos n) =
    read_digits (decimal n) (decimal-ne-nil n) (decimal-IsDigit n) ∙ ap pos (value-decimal n)
read_int-print_int (negsuc n) = ground (arith, value-decimal (suc n))
