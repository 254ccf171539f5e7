-- ===== src/Camera/Codes.antt =====
-- broadcastTest.cpp, `class Camera`: `GB2312ToUTF8`, `struct BcrInfo`, `getData`, `resetData`.
pub mod Descriptors
pub mod Fields
pub mod Overflow
use aggregation.Base.{
  ℕ, suc, ◌+◌, ◌%◌, ◌≡◌, Bool, true, false, Option, none, some, List, [], ◌∷◌, ◌++◌, ◌==◌, ltb,
  if◌then◌else◌, length,
}
use aggregation.Base.Int.{ℤ, pos, negsuc, ◌+ℤ◌, i32, quot}
use aggregation.Base.Decimal.{Bytes}
use aggregation.Sdk.{Sdk, Point, Code, Call, iconv_open, iconv_close, malloc_text}
use aggregation.Station.{
  Station, Out, ok, M, pure, fail, null_pointer, overflow, ◌>>=◌, ◌>>◌, gets, does, tries,
}

-- MAX_BCR_LEN, MAX_BCR_INFO
abbrev pub max_bcr_len : ℕ
max_bcr_len = 512

abbrev pub max_bcr_info : ℕ
max_bcr_info = 100

module _ (sdk : Sdk) where
  -- The `iconv` call and what follows it.
  unfoldable pub convert : ℕ → Bytes → M (ℤ × Bytes)
  convert cd src =
      if (sdk.iconv cd src).0
      then (does iconv_close >> pure (pos 0, (sdk.iconv cd src).1))
      else pure (negsuc 0, (sdk.iconv cd src).1)

  -- The return value, and the text that `szDst` then holds; `dst` is what it held before.
  unfoldable pub gb2312_to_utf8 : Bytes → Bytes → M (ℤ × Bytes)
  unfolding convert
  gb2312_to_utf8 src dst = do
    cd ← gets (λ s. sdk.descriptor s.trace)
    does iconv_open
    if cd == 0 then pure (negsuc 1, dst) else convert cd src

-- One entry of `info`. `data` is never set.
pub record BcrEntry : Type 0 where
  pub xpoint1 : ℤ
  pub xpoint2 : ℤ
  pub xpoint3 : ℤ
  pub xpoint4 : ℤ
  pub ypoint1 : ℤ
  pub ypoint2 : ℤ
  pub ypoint3 : ℤ
  pub ypoint4 : ℤ
  pub center_x : ℤ
  pub center_y : ℤ
  pub num_brcd : ℕ  -- u_int8_t

-- `info` up to the entries that were set; `count`, a `u_int8_t`, is `none` while it has no value.
pub record BcrInfo : Type 0 where
  pub info : List BcrEntry
  pub count : Option ℕ

-- The sum of four `int`s over 4.
unfoldable pub center : ℤ → ℤ → ℤ → ℤ → ℤ
center a b c d = quot (i32 (a +ℤ b +ℤ c +ℤ d)) 4

unfoldable pub entry : ℕ → Code → BcrEntry
entry i c = record {
  xpoint1 = c.pt0.x;
  xpoint2 = c.pt1.x;
  xpoint3 = c.pt2.x;
  xpoint4 = c.pt3.x;
  ypoint1 = c.pt0.y;
  ypoint2 = c.pt1.y;
  ypoint3 = c.pt2.y;
  ypoint4 = c.pt3.y;
  center_x = center c.pt0.x c.pt1.x c.pt2.x c.pt3.x;
  center_y = center c.pt0.y c.pt1.y c.pt2.y c.pt3.y;
  num_brcd = i % 256;
}

-- `BcrInfo BI;`
abbrev pub unset_info : BcrInfo
unset_info = record { info = []; count = none }

-- A write to `info [i]` is past the end of the struct from 100 on.
unfoldable pub put_entry : ℕ → ℕ → Code → BcrInfo → M BcrInfo
unfolding entry
put_entry i code_num c bi =
    if ltb i max_bcr_info
    then pure (record { info = bi.info ++ entry i c ∷ []; count = some (code_num % 256) })
    else fail overflow

-- Without memory, `snprintf` is given the null pointer; with it, the block is not used again.
unfoldable pub text_block : Bool → M (Unit {0})
text_block true = pure tt
text_block false = fail null_pointer

module _ (sdk : Sdk) where
  -- One round of the loop.
  unfoldable pub get_data_round : ℕ → ℕ → Code → BcrInfo → M BcrInfo
  unfolding gb2312_to_utf8 put_entry text_block
  get_data_round code_num i c bi = do
    converted ← gb2312_to_utf8 sdk c.text []
    bi' ← put_entry i code_num c bi
    p ← tries sdk malloc_text
    text_block p
    pure bi'

  -- The rounds from the `i`th code on.
  unfoldable pub get_data_loop : ℕ → ℕ → List Code → BcrInfo → M BcrInfo
  unfolding get_data_round
  get_data_loop code_num i [] bi = pure bi
  get_data_loop code_num i (c ∷ cs) bi = do
    bi' ← get_data_round code_num i c bi
    get_data_loop code_num (suc i) cs bi'

  -- `getData`, on the list of codes as long as `nCodeNum`.
  unfoldable pub get_data : List Code → M BcrInfo
  unfolding get_data_loop
  get_data codes = get_data_loop (length codes) 0 codes unset_info

unfoldable pub reset_data : BcrInfo
reset_data = record { info = []; count = some 0 }
