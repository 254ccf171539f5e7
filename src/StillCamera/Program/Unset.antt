-- ===== src/StillCamera/Program/Unset.antt =====
-- Camera2.cpp: `main`, by what `InitResource` comes to.
use aggregation.Base.{ℕ, ◌+◌, ◌%◌, ◌^◌, ◌≡◌, ◌≢◌, refl, Bool, true, false, ◌∷◌, arith}
use aggregation.Base.Decimal.{Bytes}
use aggregation.Sdk.{Sdk, Handle, Trace, payload_size, width_max, get_int_value, malloc_data, mv_ok}
use aggregation.Station.{Station, fault, unset_value, Ends, Ends-and_then, and_then-fault}
use aggregation.Camera.{image_ex_len}
use aggregation.Pointers.{data_assigned, info_assigned, IsAssigned}
use aggregation.StillCamera.{connect, prepare, init}
use aggregation.StillCamera.Program.{main}

module _ (sdk : Sdk) where
  -- Neither pointer has a value.
  abbrev pub IsUnset : Station → Type 0
  IsUnset s = (data_assigned s.trace ≡ false) × (info_assigned s.trace ≡ false)

  connect-IsUnset : (s : Station) → IsUnset s → Ends (λ h t. IsUnset t) (connect sdk s)
  unfolding connect
  connect-IsUnset s u = ground (arith, u.0, u.1)

  -- Neither the payload size nor the width is read.
  abbrev pub NoSize : Type 0
  NoSize =
      (t : Trace) (h : Handle)
      → (sdk.code t (get_int_value h payload_size) ≢ mv_ok)
        × (sdk.code t (get_int_value h width_max) ≢ mv_ok)

  abbrev pub HasPayload : Type 0
  HasPayload = (t : Trace) (h : Handle) → sdk.code t (get_int_value h payload_size) ≡ mv_ok

  -- What `malloc` makes of the size of the data buffer.
  abbrev pub DataIs : Bool → Type 0
  DataIs b = (t : Trace) (n : ℕ) → sdk.succeeds t (malloc_data n) ≡ b

  size : Station → ℕ
  size s = (sdk.int_value s.trace payload_size + image_ex_len) % 2 ^ 32

  -- The calls up to the answer of the first `malloc`.
  asked : Handle → Station → Trace
  asked h s = get_int_value h payload_size ∷ s.trace

  prepare_no_size :
      NoSize → (h : Handle) (s : Station) → IsUnset s → prepare sdk h s ≡ fault unset_value
  unfolding prepare asked
  prepare_no_size n h s u = ground (arith, u.0, u.1, n s.trace h, n (asked h s) h)

  prepare_no_data :
      HasPayload
      → DataIs false
      → (h : Handle) (s : Station) → IsUnset s
      → prepare sdk h s ≡ fault unset_value
  unfolding prepare size asked
  prepare_no_data p d h s u = ground (arith, u.0, u.1, p s.trace h, d (asked h s) (size s))

  prepare-IsAssigned :
      HasPayload
      → DataIs true
      → (h : Handle) (s : Station) → Ends (λ r t. IsAssigned t) (prepare sdk h s)
  unfolding prepare size asked
  prepare-IsAssigned p d h s = ground (arith, p s.trace h, d (asked h s) (size s))

  init_fault :
      ((h : Handle) (t : Station) → IsUnset t → prepare sdk h t ≡ fault unset_value)
      → (s : Station) → IsUnset s
      → init sdk s ≡ fault unset_value
  unfolding init
  init_fault h s u =
      and_then-fault (λ d t. IsUnset t) (connect sdk s) (prepare sdk) (connect-IsUnset s u) h

  -- `init` on the local object of `main`, whose two pointers have no value yet, whatever the calls
  -- before InitResource return. Where neither the payload size nor the width can be read, or where the
  -- payload size is read and there is no memory for the data, the cleanup reads a pointer that has no value, and `main` ends there; where the payload
  -- size is read and the data has its memory, `init` returns with both pointers assigned.
  pub main_unset :
      (new_image : ℕ → Bytes) (s : Station)
      → IsUnset s
      → (NoSize → main sdk new_image s ≡ fault unset_value)
        × (HasPayload → DataIs false → main sdk new_image s ≡ fault unset_value)
        × (HasPayload → DataIs true → Ends (λ r t. IsAssigned t) (init sdk s))
  unfolding main init
  main_unset new_image s u = (
    λ n. ends (init_fault (prepare_no_size n) s u),
    λ p d. ends (init_fault (prepare_no_data p d) s u),
    λ p d.
        Ends-and_then (λ h t. IsUnset t) (λ r t. IsAssigned t) (connect sdk s) (prepare sdk)
          (connect-IsUnset s u) (λ h t _. prepare-IsAssigned p d h t),
  )
    where
      ends : init sdk s ≡ fault unset_value → main sdk new_image s ≡ fault unset_value
      ends e = rw e refl
