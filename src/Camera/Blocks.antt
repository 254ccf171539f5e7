-- ===== src/Camera/Blocks.antt =====
-- broadcastTest.cpp: the heap blocks behind `g_pcDataBuf` and `g_pstImageInfoEx2`.
use aggregation.Base.{
  ℕ, ◌+◌, ◌%◌, ◌^◌, true, false, ◌≡◌, refl, ◌≢◌, Option, none, some, [], ◌∷◌, arith, replicate,
  if◌then◌else◌,
}
use aggregation.Sdk.{
  Sdk, mv_ok, mv_e_resource, Handle, Trace, malloc_data, malloc_info, free_data, free_info,
  stop_grabbing, get_int_value, payload_size,
}
use aggregation.Station.{
  Station, Out, ok, thrown, fault, Ends, Ends-and_then, and_then, Outcome, fresh,
}
use aggregation.Camera.{
  reserve, deinit_resources, init_resource, image_ex_len, init, catch, finish_init,
  open_device_step, go_on,
}

abbrev live {ℓ} : {A : Type ℓ} → Option A → ℕ
live none = 0
live (some a) = 1

-- How often the calls so far have freed the block of the data buffer, and that of the info.
abbrev freed_data : Trace → ℕ
freed_data [] = 0
freed_data (free_data ∷ t) = freed_data t + 1
freed_data (c ∷ t) = freed_data t

abbrev freed_info : Trace → ℕ
freed_info [] = 0
freed_info (free_info ∷ t) = freed_info t + 1
freed_info (c ∷ t) = freed_info t

module _ (sdk : Sdk) where
  -- How often they have allocated each.
  abbrev allocated_data : Trace → ℕ
  allocated_data [] = 0
  allocated_data (malloc_data n ∷ t) =
      allocated_data t + (if sdk.succeeds t (malloc_data n) then 1 else 0)
  allocated_data (c ∷ t) = allocated_data t

  abbrev allocated_info : Trace → ℕ
  allocated_info [] = 0
  allocated_info (malloc_info ∷ t) =
      allocated_info t + (if sdk.succeeds t malloc_info then 1 else 0)
  allocated_info (c ∷ t) = allocated_info t

  -- Of each buffer, the blocks are freed, but for one that is behind its pointer.
  abbrev pub Balanced : Station → Type 0
  Balanced s =
      (allocated_data s.trace ≡ freed_data s.trace + live s.data_buf)
      × (allocated_info s.trace ≡ freed_info s.trace + live s.image_info)

  abbrev pub Freed : ℕ → Station → Type 0
  Freed r t =
      Balanced t
      × (r ≡ 1
          → (allocated_data t.trace ≡ freed_data t.trace)
            × (allocated_info t.trace ≡ freed_info t.trace))

  pub deinit_resources-Freed : (s : Station) → Balanced s → Ends Freed (deinit_resources sdk s)
  unfolding deinit_resources
  deinit_resources-Freed s b = ground arith

  abbrev IsEmpty : Station → Type 0
  IsEmpty s = (s.data_buf ≡ none) × (s.image_info ≡ none)

  reserve-Balanced :
      (h : Handle) (s : Station)
      → Balanced s
      → IsEmpty s
      → Outcome (λ r t. Balanced t) (λ r t. Balanced t) (reserve sdk h s)
  unfolding reserve
  reserve-Balanced h s b e = ground arith

  catch-Balanced :
      (o : Out ℕ)
      → Outcome (λ r t. Balanced t) (λ r t. Balanced t) o
      → Ends (λ r t. Balanced t) (catch sdk (deinit_resources sdk) o)
  catch-Balanced (ok r t) b = b
  catch-Balanced (thrown c t) b =
      Ends-and_then Freed (λ r t. Balanced t) (deinit_resources sdk t) _
        (deinit_resources-Freed t b) (λ a u p. p.0)
  catch-Balanced (fault e) b = b

  abbrev Opening : Option Handle → Station → Type 0
  Opening h t = Balanced t × IsEmpty t

  open_device_step-Opening :
      (s : Station) → Balanced s → IsEmpty s → Ends Opening (open_device_step sdk s)
  unfolding open_device_step
  open_device_step-Opening s b e = ground arith

  finish_init-Balanced :
      (r : ℕ) (s : Station) → Balanced s → Ends (λ r t. Balanced t) (finish_init sdk r s)
  unfolding finish_init
  finish_init-Balanced r s b = ground arith

  go_on-Balanced :
      (h : Option Handle) (s : Station) → Opening h s → Ends (λ r t. Balanced t) (go_on sdk h s)
  unfolding go_on init_resource
  go_on-Balanced none s p = p.0
  go_on-Balanced (some h) s p =
      Ends-and_then (λ r t. Balanced t) (λ r t. Balanced t) (init_resource sdk h s)
        (finish_init sdk) (catch-Balanced (reserve sdk h s) (reserve-Balanced h s p.0 p.1))
        finish_init-Balanced

  pub init-Balanced : (s : Station) → Balanced s → IsEmpty s → Ends (λ r t. Balanced t) (init sdk s)
  unfolding init
  init-Balanced s b e =
      Ends-and_then Opening (λ r t. Balanced t) (open_device_step sdk s) (go_on sdk)
        (open_device_step-Opening s b e) go_on-Balanced

  -- From the start of the program, `init` and then `DeInitResources` always return. Of the data buffer and
  -- of the info, each for itself, the blocks allocated are those freed and the one, if any, that is
  -- still behind its pointer; and if `DeInitResources` returns 1, each has been freed as often
  -- as it was allocated.
  pub init-deinit_resources-Freed :
      Ends Freed (and_then (init sdk fresh) (λ r. deinit_resources sdk))
  init-deinit_resources-Freed =
      Ends-and_then (λ r t. Balanced t) Freed (init sdk fresh) (λ r. deinit_resources sdk)
        (init-Balanced fresh (refl, refl) (refl, refl)) (λ r t b. deinit_resources-Freed t b)

  -- The cleanup of `InitResource` goes through StopGrabbing first. Where that fails, as it may before
  -- the grabbing has begun, a failure to allocate the info leaves the data buffer allocated.
  failed_init_resource_keeps :
      (h : Handle) (s : Station)
      → ((t : Trace) (g : Handle) → sdk.code t (stop_grabbing g) ≢ mv_ok)
      → sdk.code s.trace (get_int_value h payload_size) ≡ mv_ok
      → ((t : Trace) (n : ℕ) → sdk.succeeds t (malloc_data n) ≡ true)
      → ((t : Trace) → sdk.succeeds t malloc_info ≡ false)
      → Ends
          (λ r t.
            (r ≡ mv_e_resource)
            × (t.is_normal_run ≡ false)
            × (t.data_buf
                ≡ some
                    (replicate ((sdk.int_value s.trace payload_size + image_ex_len) % 2 ^ 32) 0)))
          (init_resource sdk h s)
  unfolding init_resource
  failed_init_resource_keeps h s stop size gives none_left =
      let n : ℕ = (sdk.int_value s.trace payload_size + image_ex_len) % 2 ^ 32 in
      let t : Trace = get_int_value h payload_size ∷ s.trace in
      ground (
        arith,
        gives t n,
        none_left (malloc_data n ∷ t),
        stop (malloc_info ∷ malloc_data n ∷ t) s.handle,
      )
