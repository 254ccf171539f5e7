-- ===== src/SaveImage/Ending/Saves.antt =====
-- SaveImage.cpp, `main`: its end, with saves, where no frame is a JPEG and all fit the buffer.
use aggregation.Base.{◌≡◌, Bool, true}
use aggregation.Sdk.{Sdk}
use aggregation.Station.{Station}

abbrev Leaves : Bool → Station → Type 0
Leaves b t = b ≡ true
