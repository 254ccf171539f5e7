-- ===== src/Camera/Codes/Overflow.antt =====
-- broadcastTest.cpp, `getData`: frames with more codes than `info` has room for.
use native.Mathlib.Decide.{dec_lt}
use mathlib.Core.Path.{subst}
use aggregation.Base.{◌↔◌}
use aggregation.Base.{ℕ, suc, ◌+◌, ◌≤◌, ◌<◌, ◌≡◌, true, List, [], ◌∷◌, arith, length}
use aggregation.Sdk.{Sdk, Code, Trace, malloc_text}
use aggregation.Station.{Station, fault, overflow, Ends, and_then-fault}
use aggregation.Camera.Codes.{
  BcrInfo, gb2312_to_utf8, get_data_round, get_data_loop, get_data, unset_info, max_bcr_info,
}
use aggregation.Camera.Codes.Fields.{Adds, convert-Adds, round-Ends, Collects, get_data-Ends}

module _ (sdk : Sdk) where
  round_overflow :
      (n i : ℕ) (c : Code) (bi : BcrInfo) (s : Station)
      → max_bcr_info ≤ i
      → get_data_round sdk n i c bi s ≡ fault overflow
  unfolding get_data_round
  round_overflow n i c bi s le =
      and_then-fault (λ r t. Adds sdk 0 s t) (gb2312_to_utf8 sdk c.text [] s) _
        (convert-Adds sdk c.text [] s) (λ r t p. ground arith)

  overflow_loop :
      (n i : ℕ) (cs : List Code) (bi : BcrInfo) (s : Station)
      → i ≤ max_bcr_info
      → max_bcr_info < i + length cs
      → ((t : Trace) → sdk.succeeds t malloc_text ≡ true)
      → get_data_loop sdk n i cs bi s ≡ fault overflow
  unfolding get_data_loop
  overflow_loop n i [] bi s le lt gives = absurd (omega arith)
  overflow_loop n i (c ∷ cs) bi s le lt gives = elim (dec_lt i max_bcr_info) [
    | yes below ↦
        and_then-fault _ (get_data_round sdk n i c bi s) _ (round-Ends sdk n i c bi s below gives)
          (λ r t p. overflow_loop n (suc i) cs r t below (omega arith) gives)
    | no above ↦ rw (round_overflow n i c bi s (omega arith))
  ]

  -- With more than 100 codes in a frame, and memory, `getData` writes past the end of `info`.
  get_data_overflow :
      (codes : List Code) (s : Station)
      → max_bcr_info < length codes
      → ((t : Trace) → sdk.succeeds t malloc_text ≡ true)
      → get_data sdk codes s ≡ fault overflow
  unfolding get_data
  get_data_overflow codes s lt gives =
      overflow_loop (length codes) 0 codes unset_info s (omega arith) (omega arith) gives

  -- While there is memory, `getData` writes past the end of `info` if a frame has more than 100 codes,
  -- and only then.
  pub get_data_overflow_iff :
      (codes : List Code) (s : Station)
      → ((t : Trace) → sdk.succeeds t malloc_text ≡ true)
      → (get_data sdk codes s ≡ fault overflow) ↔ (max_bcr_info < length codes)
  get_data_overflow_iff codes s gives = (
    λ e. elim (dec_lt max_bcr_info (length codes)) [
      | yes more ↦ more
      | no fits ↦
          absurd
            (subst (Ends (Collects sdk codes s)) e (get_data-Ends sdk codes s (omega arith) gives))
    ],
    λ more. get_data_overflow codes s more gives,
  )
