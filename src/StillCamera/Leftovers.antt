-- ===== src/StillCamera/Leftovers.antt =====
-- Camera2.cpp: what `init` and `DeInitResources` leave behind.
use aggregation.Base.{ℕ, ◌+◌, ◌%◌, ◌^◌, ◌≡◌, refl, ◌∙◌, true, none, [], ◌∷◌, arith}
use aggregation.Sdk.{
  Sdk, Handle, enum_devices, Trace, close_device, destroy_handle, get_int_value, payload_size,
}
use aggregation.Station.{Station, and_then, Ends, Ends-and_then, Ends-mono}
use aggregation.Camera.{image_ex_len}
use aggregation.Pointers.{IsAssigned}
use aggregation.StillCamera.{connect, prepare, init, deinit_resources}
use aggregation.StillCamera.Program.Unset.{HasPayload, DataIs}

-- The calls that give a handle back.
abbrev pub closings : Trace → ℕ
closings [] = 0
closings (close_device h ∷ t) = closings t + 1
closings (destroy_handle h ∷ t) = closings t + 1
closings (c ∷ t) = closings t

module _ (sdk : Sdk) where
  -- The handle stays, and so does the number of calls that give one back.
  abbrev Stays : {A : Type 0} → Station → A → Station → Type 0
  Stays s r t = (t.handle ≡ s.handle) × (closings t.trace ≡ closings s.trace)

  prepare-Stays :
      HasPayload sdk
      → DataIs sdk true
      → (h : Handle) (s : Station) → Ends (λ r t. IsAssigned t × Stays s r t) (prepare sdk h s)
  unfolding prepare
  prepare-Stays p d h s =
      let size : ℕ = (sdk.int_value s.trace payload_size + image_ex_len) % 2 ^ 32 in
      ground (arith, p s.trace h, d (get_int_value h payload_size ∷ s.trace) size)

  free_buffers-Stays :
      (s : Station)
      → IsAssigned s
      → Ends (λ r t. Stays s r t × (t.data_buf ≡ none) × (t.image_info ≡ none)) (deinit_resources s)
  unfolding deinit_resources
  free_buffers-Stays s a = ground (arith, a.0, a.1)

  -- The handle is the one that `CreateHandle` left.
  abbrev Connected : {A : Type 0} → Station → A → Station → Type 0
  Connected s r t =
      (t.handle ≡ sdk.created (enum_devices ∷ s.trace) s.handle)
      × (closings t.trace ≡ closings s.trace)

  connect-Ends : (s : Station) → Ends (Connected s) (connect sdk s)
  unfolding connect
  connect-Ends s = (refl, refl)

  abbrev pub Leaves : {A : Type 0} → Station → A → Station → Type 0
  Leaves s r t = (t.data_buf ≡ none) × (t.image_info ≡ none) × Connected s r t

  -- `init`, whatever fails in it but the payload size and the memory for the data, and then
  -- `DeInitResources`, always return: both buffers are freed, and the handle, which is still the one
  -- that `CreateHandle` left, is neither closed nor destroyed.
  init-deinit_resources-Leaves :
      (s : Station)
      → HasPayload sdk
      → DataIs sdk true
      → Ends (Leaves s) (and_then (init sdk s) (λ _. deinit_resources))
  unfolding init
  init-deinit_resources-Leaves s p d =
      Ends-and_then (λ r t. IsAssigned t × Connected s r t) (Leaves s) (init sdk s)
        (λ _. deinit_resources)
        (Ends-and_then (Connected s) (λ r t. IsAssigned t × Connected s r t) (connect sdk s)
          (prepare sdk) (connect-Ends s)
          λ h t c.
            Ends-mono (λ r u. IsAssigned u × Stays t r u) _ (prepare sdk h t)
              (prepare-Stays p d h t) (λ r u q. (q.0, (q.1.0 ∙ c.0, q.1.1 ∙ c.1))))
        λ r t q.
          Ends-mono _ (Leaves s) (deinit_resources t) (free_buffers-Stays t q.0)
            (λ r' u w. (w.1, w.2, (w.0.0 ∙ q.1.0, w.0.1 ∙ q.1.1)))
