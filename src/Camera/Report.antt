-- ===== src/Camera/Report.antt =====
-- broadcastTest.cpp, `Camera::getString`: the codes of one frame, as text.
pub mod Text
pub mod Items
pub mod Reader
use aggregation.Base.{
  ℕ, suc, ◌+◌, ◌≡◌, Bool, true, false, Option, none, some, List, [], ◌∷◌, ◌++◌, ◌==◌, ltb, leb,
  if◌then◌else◌, length,
}
use aggregation.Base.Int.{pos, i32}
use aggregation.Base.Decimal.{Bytes, decimal, print_int}
use aggregation.Sdk.{Sdk, Code, Frame, get_one_frame, malloc_text, malloc_result, free_text, mv_ok}
use aggregation.Station.{
  Station, M, pure, fail, over_read, overflow, ◌>>=◌, ◌>>◌, gets, does, call, tries,
}
use aggregation.Camera.Codes.{gb2312_to_utf8, max_bcr_len}

-- `temp_string` up to its NUL, and `total_length`.
pub record Temp : Type 0 where
  pub text : Bytes
  pub total_length : ℕ

abbrev pub empty_temp : Temp
empty_temp = record { text = []; total_length = 0 }

-- `stBcrInfoEx->nIDRScore`: of the first code of the list.
abbrev pub first_score : List Code → ℕ
first_score [] = 0
first_score (c ∷ cs) = c.idr_score

-- "%d:%s:%d;"
unfoldable pub piece : ℕ → ℕ → Bytes → Bytes
piece score i str = decimal i ++ b':' ∷ str ++ b':' ∷ print_int (i32 (pos score)) ++ b';' ∷ []

-- `strcat` into `char [512]`, and the sum.
unfoldable pub concatenate : Bytes → Temp → M Temp
concatenate output temp =
    if ltb (length temp.text + length output) max_bcr_len
    then pure
        (record { text = temp.text ++ output; total_length = temp.total_length + length output })
    else fail overflow

-- `snprintf` into 512 bytes, and what is done with the outcome.
unfoldable pub add_piece : Bytes → Temp → M Temp
unfolding concatenate
add_piece output temp =
    if ltb (length output) max_bcr_len
    then (concatenate output temp >>= λ temp'. does free_text >> pure temp')
    else (does free_text >> pure temp)

-- `strChar` has no NUL left when the conversion filled it.
unfoldable pub format_piece : Bool → ℕ → ℕ → Bytes → Temp → M Temp
unfolding add_piece
format_piece false score i str temp = pure temp
format_piece true score i str temp =
    if ltb (length str) max_bcr_len then add_piece (piece score i str) temp else fail over_read

module _ (sdk : Sdk) where
  -- One round of the loop.
  unfoldable pub get_string_round : ℕ → ℕ → Code → Temp → M Temp
  unfolding gb2312_to_utf8 format_piece
  get_string_round score i c temp = do
    converted ← gb2312_to_utf8 sdk c.text []
    p ← tries sdk malloc_text
    format_piece p score i converted.1 temp

  -- The rounds from the `i`th code on.
  unfoldable pub get_string_loop : ℕ → ℕ → List Code → Temp → M Temp
  unfolding get_string_round
  get_string_loop score i [] temp = pure temp
  get_string_loop score i (c ∷ cs) temp = do
    temp' ← get_string_round score i c temp
    get_string_loop score (suc i) cs temp'

  -- `result_string`: a block of `total_length + 1` bytes, and `strcpy` into it.
  unfoldable pub copy_out : Temp → M (Option Bytes)
  copy_out temp = do
    p ← tries sdk (malloc_result (temp.total_length + 1))
    if p
        then (if leb (length temp.text) temp.total_length
            then pure (some temp.text)
            else fail overflow)
        else pure none

  unfoldable pub get_string : M (Option Bytes)
  unfolding get_string_loop copy_out
  get_string = do
    h ← gets (λ s. s.handle)
    f ← gets (λ s. sdk.frame s.trace)
    nn_ret ← call sdk (get_one_frame h)
    temp ←
        if nn_ret == mv_ok
        then get_string_loop (first_score f.codes_ex) 0 f.codes_ex empty_temp
        else pure empty_temp
    copy_out temp
