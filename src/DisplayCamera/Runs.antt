-- ===== src/DisplayCamera/Runs.antt =====
-- Camera.cpp: runs that keep both pointers assigned, and `init`.
use aggregation.Base.{ℕ, ◌≡◌, ◌≢◌, refl, sym, ◌∙◌, Option, none, some, List, [], ◌∷◌, arith}
use aggregation.Sdk.{Sdk, Handle, Code, mv_ok}
use aggregation.Station.{
  Station, Out, ok, thrown, fault, M, pure, and_then, Ends, Ends-and_then, Outcome,
}
use aggregation.Camera
use aggregation.Camera.{reserve, catch, open_device_step, finish_init}
use aggregation.Camera.Lifecycle.{Teardown, deinit_resources-Teardown}
use aggregation.Camera.Codes.{BcrInfo, get_data_round, get_data_loop}
use aggregation.Pointers
use aggregation.Pointers.{IsAssigned, free_buffers-assigned, copy_frame-assigned}
use aggregation.DisplayCamera.{deinit_resources, init_resource, go_on, init}

-- A run that faults, or ends in a state where both pointers are assigned.
abbrev pub Keeps : {A : Type 0} → Out A → Type 0
Keeps (ok a s) = IsAssigned s
Keeps (thrown c s) = IsAssigned s
Keeps (fault e) = Unit

pub Keeps-then :
    {A B : Type 0} (o : Out A) (f : A → M B)
    → Keeps o
    → ((a : A) (s : Station) → IsAssigned s → Keeps (f a s))
    → Keeps (and_then o f)
Keeps-then (ok a s) f p h = h a s p
Keeps-then (thrown c s) f p h = p
Keeps-then (fault e) f p h = tt

pub then-cong :
    {A B : Type 0} (o : Out A) (f g : A → M B)
    → Keeps o
    → ((a : A) (s : Station) → IsAssigned s → f a s ≡ g a s)
    → and_then o f ≡ and_then o g
then-cong (ok a s) f g p h = h a s p
then-cong (thrown c s) f g p h = refl
then-cong (fault e) f g p h = refl

pub assoc :
    {A B C : Type 0} (o : Out A) (f : A → M B) (g : B → M C)
    → and_then (and_then o f) g ≡ and_then o (λ a s. and_then (f a s) g)
assoc (ok a s) f g = refl
assoc (thrown c s) f g = refl
assoc (fault e) f g = refl

module _ (sdk : Sdk) where
  pub deinit_resources-assigned :
      (s : Station) → IsAssigned s → deinit_resources sdk s ≡ Camera.deinit_resources sdk s
  unfolding deinit_resources Camera.deinit_resources Pointers.free_buffers Camera.free_buffers
  deinit_resources-assigned s a = ground (arith, a.0, a.1)

  reserve-IsAssigned :
      (h : Handle) (s : Station)
      → Outcome (λ r t. IsAssigned t) (λ c t. c ≢ mv_ok) (reserve sdk h s)
  unfolding reserve
  reserve-IsAssigned h s = ground arith

  finish_init-Keeps : (r : ℕ) (s : Station) → IsAssigned s → Keeps (finish_init sdk r s)
  unfolding finish_init
  finish_init-Keeps r s a = ground (arith, a.0, a.1)

  finish_init-failed : (c : ℕ) (s : Station) → c ≢ mv_ok → Ends (λ r t. r ≡ 0) (finish_init sdk c s)
  unfolding finish_init
  finish_init-failed c s h = ground arith

  not_both : (o : Out ℕ) → Ends (λ r t. r ≡ 0) o → Ends (λ r t. r ≡ 1) o → ⊥
  not_both (ok r s) e f = omega (arith, e, f)
  not_both (thrown c s) e f = e
  not_both (fault e) f g = f

  -- Two runs are one, and it keeps the pointers assigned.
  abbrev pub Same : {A : Type 0} → Out A → Out A → Type 0
  Same o p = (o ≡ p) × Keeps p

  abbrev Succeeds : Out ℕ → Type 0
  Succeeds = Ends (λ r t. r ≡ 1)

  caught-Same :
      (o : Out ℕ)
      → Outcome (λ r t. IsAssigned t) (λ c t. c ≢ mv_ok) o
      → Succeeds (and_then (catch sdk (Camera.deinit_resources sdk) o) (finish_init sdk))
      → Same
          (and_then (catch sdk (deinit_resources sdk) o) (finish_init sdk))
          (and_then (catch sdk (Camera.deinit_resources sdk) o) (finish_init sdk))
  caught-Same (ok r t) a h = (refl, finish_init-Keeps r t a)
  caught-Same (thrown c t) a h = absurd (
      not_both _
        (Ends-and_then (λ r u. r ≡ c) (λ r u. r ≡ 0)
          (and_then (Camera.deinit_resources sdk t) (λ _. pure c)) (finish_init sdk)
          (Ends-and_then (Teardown sdk t) (λ r u. r ≡ c) (Camera.deinit_resources sdk t)
            (λ _. pure c) (deinit_resources-Teardown sdk t) (λ r u p. refl))
          (λ r u e. finish_init-failed r u (λ e'. a (sym e ∙ e'))))
        h)
  caught-Same (fault e) a h = absurd h

  opened-Same :
      (o : Out (Option Handle))
      → Succeeds (and_then o (Camera.go_on sdk))
      → Same (and_then o (go_on sdk)) (and_then o (Camera.go_on sdk))
  unfolding go_on Camera.go_on init_resource Camera.init_resource
  opened-Same (ok none t) h = absurd (omega (arith, h))
  opened-Same (ok (some d) t) h = caught-Same (reserve sdk d t) (reserve-IsAssigned d t) h
  opened-Same (thrown c t) h = absurd h
  opened-Same (fault e) h = absurd h

  pub init-Same :
      (s : Station) → Succeeds (Camera.init sdk s) → Same (init sdk s) (Camera.init sdk s)
  unfolding init Camera.init
  init-Same s h = opened-Same (open_device_step sdk s) h

  round-Keeps :
      (n i : ℕ) (c : Code) (bi : BcrInfo) (s : Station)
      → IsAssigned s
      → Keeps (get_data_round sdk n i c bi s)
  unfolding get_data_round
  round-Keeps n i c bi s a = ground (arith, a.0, a.1)

  pub loop-Keeps :
      (n i : ℕ) (cs : List Code) (bi : BcrInfo) (s : Station)
      → IsAssigned s
      → Keeps (get_data_loop sdk n i cs bi s)
  unfolding get_data_loop
  loop-Keeps n i [] bi s a = a
  loop-Keeps n i (c ∷ cs) bi s a =
      Keeps-then (get_data_round sdk n i c bi s) _ (round-Keeps n i c bi s a)
        (λ b t. loop-Keeps n (ℕ.suc i) cs b t)
