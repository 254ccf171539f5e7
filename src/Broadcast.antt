-- ===== src/Broadcast.antt =====
-- broadcastTest.cpp: the server with its camera `cam1`, as `looping` calls it.
pub mod Answers
pub mod Program
mod Tests
use aggregation.Base.{ℕ, Bool, Option, none, some, List}
use aggregation.Base.Decimal.{Bytes}
use aggregation.Sdk.{Sdk}
use aggregation.Station.{Station, Out, ok, thrown, fault}
use aggregation.Camera.Image.{Vision, get_image}
use aggregation.Camera.Report.{get_string}
use aggregation.Server.{Outside, Sent}

-- A camera call that returns gives its result and the next state of the camera.
abbrev pub called : {A : Type 0} → Station → Out A → Option A × Station
called s (ok a t) = (some a, t)
called s (thrown c t) = (none, t)
called s (fault e) = (none, s)

module _ {Image : Type 0} (cv : Vision Image) (sdk : Sdk) where
  -- The camera's two functions, with `imencode` and the transport left open.
  abbrev pub with_camera : (Image → Option Bytes) → (List Sent → ℕ → Bool) → Outside Station Image
  with_camera imencode delivers = record {
    get_image = λ s. called s (get_image cv sdk s);
    imencode = imencode;
    get_string = λ s. called s (get_string sdk s);
    delivers = delivers;
  }
