-- ===== src/Camera/Lifecycle.antt =====
-- broadcastTest.cpp: what `init` and `DeInitResources` of the camera come to, on every branch.
use aggregation.Base.{ℕ, ◌≡◌, refl, ◌≢◌, ◌⊎◌, inl, inr, false, Option, none, some, arith, replicate}
use aggregation.Sdk.{Sdk, mv_ok, Handle}
use aggregation.Station.{Station, Out, ok, thrown, fault, Ends, Ends-and_then, Outcome}
use aggregation.Camera.{
  zero_info, reserve, deinit_resources, init_resource, start, init, catch, finish_init,
  open_device_step, go_on,
}

pub record IsReady (s : Station) : Type 0 where
  pub buffer : s.data_buf ≡ some (replicate s.max_image_size 0)
  pub info : s.image_info ≡ some zero_info

module _ (sdk : Sdk) where
  -- A failed teardown leaves the buffers, and says so in `bIsNormalRun` and `nRet`.
  abbrev pub Teardown : Station → ℕ → Station → Type 0
  Teardown s r t =
      ((r ≡ 1)
        × (t.n_ret ≡ mv_ok)
        × (t.handle ≡ none)
        × (t.data_buf ≡ none)
        × (t.image_info ≡ none)
        × (t.is_normal_run ≡ s.is_normal_run))
      ⊎ ((r ≡ 0)
          × (t.n_ret ≢ mv_ok)
          × (t.handle ≡ s.handle)
          × (t.data_buf ≡ s.data_buf)
          × (t.image_info ≡ s.image_info)
          × (t.is_normal_run ≡ false))

  -- `DeInitResources` always returns. With 1, the handle and both buffers are gone and `nRet` is
  -- MV_CODEREADER_OK. With 0, an SDK call has failed: its code is in `nRet`, `bIsNormalRun` is false,
  -- and handle and buffers are as they were.
  pub deinit_resources-Teardown : (s : Station) → Ends (Teardown s) (deinit_resources sdk s)
  unfolding deinit_resources
  deinit_resources-Teardown s = ground arith

  pub reserve-Outcome :
      (h : Handle) (s : Station)
      → Outcome (λ r t. (r ≡ mv_ok) × IsReady t) (λ c t. c ≢ mv_ok) (reserve sdk h s)
  unfolding reserve
  reserve-Outcome h s = ground arith

  abbrev Reserved : ℕ → Station → Type 0
  Reserved r t = (r ≢ mv_ok) ⊎ ((r ≡ mv_ok) × IsReady t)

  catch-Ends :
      (o : Out ℕ)
      → Outcome (λ r t. (r ≡ mv_ok) × IsReady t) (λ c t. c ≢ mv_ok) o
      → Ends Reserved (catch sdk (deinit_resources sdk) o)
  catch-Ends (ok r t) h = inr h
  catch-Ends (thrown c t) h =
      Ends-and_then (Teardown t) Reserved (deinit_resources sdk t) _ (deinit_resources-Teardown t)
        (λ a u p. inl h)
  catch-Ends (fault e) h = h

  -- `InitResource` always returns: MV_CODEREADER_OK with both buffers allocated and zeroed, or the
  -- code of the failure.
  pub init_resource-Ends : (h : Handle) (s : Station) → Ends Reserved (init_resource sdk h s)
  unfolding init_resource
  init_resource-Ends h s = catch-Ends (reserve sdk h s) (reserve-Outcome h s)

  abbrev pub Started : ℕ → Station → Type 0
  Started r t = ((r ≡ 0) × (t.n_ret ≢ mv_ok)) ⊎ ((r ≡ 1) × (t.n_ret ≡ mv_ok) × IsReady t)

  start-Ends : (s : Station) → IsReady s → Ends Started (start sdk s)
  unfolding start
  start-Ends s h = ground arith

  after_reserve-Ends : (r : ℕ) (s : Station) → Reserved r s → Ends Started (finish_init sdk r s)
  unfolding finish_init
  after_reserve-Ends r s (inl h) = ground arith
  after_reserve-Ends r s (inr (e, v)) = ground arith

  abbrev Opened : Option Handle → Station → Type 0
  Opened none t = t.n_ret ≢ mv_ok
  Opened (some h) t = Unit

  open_device_step-Ends : (s : Station) → Ends Opened (open_device_step sdk s)
  unfolding open_device_step
  open_device_step-Ends s = ground arith

  go_on-Ends : (h : Option Handle) (s : Station) → Opened h s → Ends Started (go_on sdk h s)
  unfolding go_on
  go_on-Ends none s p = inl (refl, p)
  go_on-Ends (some h) s p =
      Ends-and_then Reserved Started (init_resource sdk h s) (finish_init sdk)
        (init_resource-Ends h s) after_reserve-Ends

  -- From any state `init` returns: 1 with MV_CODEREADER_OK in `nRet` and both buffers allocated and
  -- zeroed, or 0 with another code in `nRet`.
  pub init-Ends : (s : Station) → Ends Started (init sdk s)
  unfolding init
  init-Ends s =
      Ends-and_then Opened Started (open_device_step sdk s) (go_on sdk) (open_device_step-Ends s)
        go_on-Ends
