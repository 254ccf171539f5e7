-- ===== src/Broadcast/Program/Ending.antt =====
-- broadcastTest.cpp: how `main` leaves the camera.
use aggregation.Base.{ℕ, ◌+◌, ◌≡◌, ◌≢◌, ◌⊎◌, true, false, none, [], ◌∷◌}
use aggregation.Sdk.{Sdk, Trace, stop_grabbing}
use aggregation.Station.{Station}
use aggregation.Camera.Blocks.{Balanced}
use aggregation.Broadcast.Program.{Transport, Exit, returns}

-- Both buffers are gone, or a failed teardown is noted.
abbrev pub IsLeft : Station → Type 0
IsLeft t = ((t.data_buf ≡ none) × (t.image_info ≡ none)) ⊎ (t.is_normal_run ≡ false)

-- The calls of StopGrabbing, with which each `DeInitResources` begins.
abbrev pub stop_calls : Trace → ℕ
stop_calls [] = 0
stop_calls (stop_grabbing h ∷ t) = stop_calls t + 1
stop_calls (c ∷ t) = stop_calls t

module _ (sdk : Sdk) where
  abbrev Closed : Station → Station → Type 0
  Closed s t = Balanced sdk t × IsLeft t × (stop_calls t.trace ≡ stop_calls s.trace + 1)

  module _ (tr : Transport) where
    abbrev pub Left : Station → Exit → Station → Type 0
    Left i r t =
        Balanced sdk t
        × (tr.init_asio ≡ true → (r ≢ returns) × (t ≡ i))
        × (tr.init_asio ≡ false
            → (r ≡ returns) × IsLeft t × (stop_calls t.trace ≡ stop_calls i.trace + 2))
