-- ===== src/SaveImage/Names.antt =====
-- SaveImage.cpp: the names of the files that the saves write.
use aggregation.Base.{
  ℕ, zero, suc, ◌+◌, ◌^◌, ◌≤◌, ◌<◌, ◌≡◌, refl, sym, ◌∙◌, ap, [], ◌∷◌, ◌++◌, arith, length,
}
use mathlib.Core.List.{append_assoc}
use aggregation.Base.Decimal.{Bytes, padded}
use aggregation.Base.Decimal.Reading.{value, value-padded, length-padded}
use aggregation.SaveImage.Files.{Tm, stamp}

-- The ranges that the C library documents for `struct tm`, and a year of four digits.
pub record IsTime (t : Tm) : Type 0 where
  pub year : t.tm_year + 1900 < 10 ^ 4
  pub mon : t.tm_mon < 12
  pub mday : t.tm_mday ≤ 31
  pub hour : t.tm_hour < 24
  pub min : t.tm_min < 60
  pub sec : t.tm_sec ≤ 60

-- The number in the next `w` characters of a name, and the characters after them.
abbrev pub column : ℕ → Bytes → ℕ → ℕ × Bytes
column zero s n = (n, s)
column (suc w) [] n = (n, [])
column (suc w) (c ∷ s) n = column w s (value (c ∷ []) n)

-- The six numbers of a name, in columns of 4, 2, 2, 2, 2 and 2 characters, and what follows them.
abbrev pub read_name : Bytes → ℕ × ℕ × ℕ × ℕ × ℕ × ℕ × Bytes
read_name s0 =
    let (year, s1) = column 4 s0 0 in
    let (mon, s2) = column 2 s1 0 in
    let (mday, s3) = column 2 s2 0 in
    let (hour, s4) = column 2 s3 0 in
    let (min, s5) = column 2 s4 0 in
    let (sec, s6) = column 2 s5 0 in (year, mon, mday, hour, min, sec, s6)

column-append : (xs s : Bytes) (n : ℕ) → column (length xs) (xs ++ s) n ≡ (value xs n, s)
column-append [] s n = refl
column-append (x ∷ xs) s n = column-append xs s (value (x ∷ []) n)

column-padded :
    (w n : ℕ) (s : Bytes) → n < 10 ^ suc w → column (suc w) (padded (suc w) n ++ s) 0 ≡ (n, s)
column-padded w n s h =
    ap (λ k. column k (padded (suc w) n ++ s) 0) (sym (length-padded w n h))
    ∙ column-append (padded (suc w) n) s 0
    ∙ ap (λ v. (v, s)) (value-padded (suc w) n)

stamp-append :
    (t : Tm) (ext : Bytes)
    → stamp t ++ ext
      ≡ padded 4 (t.tm_year + 1900)
        ++ (padded 2 (t.tm_mon + 1)
            ++ (padded 2 t.tm_mday
                ++ (padded 2 t.tm_hour ++ (padded 2 t.tm_min ++ (padded 2 t.tm_sec ++ ext)))))
unfolding stamp
stamp-append t ext = simp append_assoc

-- A time in the ranges of `struct tm` with a year of four digits. Of the name that `sprintf` makes of
-- it, with an extension, the first 4 characters and then 2 by 2 read back as the year, the month
-- counted from 1, the day, the hour, the minute and the second; what follows is the extension.
pub read_name-stamp :
    (t : Tm) (ext : Bytes)
    → IsTime t
    → read_name (stamp t ++ ext)
      ≡ (t.tm_year + 1900, t.tm_mon + 1, t.tm_mday, t.tm_hour, t.tm_min, t.tm_sec, ext)
read_name-stamp t ext h =
    rw
      (
        stamp-append t ext,
        column-padded 3 (t.tm_year + 1900) _ h.year,
        column-padded 1 (t.tm_mon + 1) _ (omega (arith, h.mon)),
        column-padded 1 t.tm_mday _ (omega (arith, h.mday)),
        column-padded 1 t.tm_hour _ (omega (arith, h.hour)),
        column-padded 1 t.tm_min _ (omega (arith, h.min)),
        column-padded 1 t.tm_sec _ (omega (arith, h.sec)),
      )
      refl
