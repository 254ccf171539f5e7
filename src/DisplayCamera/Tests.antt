-- ===== src/DisplayCamera/Tests.antt =====
-- Examples of what is proved of Camera.cpp.
use aggregation.Base.{ℕ, ◌+◌, ◌≡◌, refl, some, []}
use aggregation.Base.Decimal.{Bytes}
use aggregation.Sample.{reader}
use aggregation.Station.{fresh, Ends}
use aggregation.Camera
use aggregation.Camera.Image.{Vision}
use aggregation.DisplayCamera.Static.{shown_main, static_main, main-Same}

-- An image is its bytes, and how many polygons are on it.
abbrev opencv : Vision (Bytes × ℕ)
opencv = record {
  empty = ([], 0);
  imdecode = λ b. (b, 0);
  resize = λ i. some i;
  polylines = λ i p. (i.0, i.1 + 1);
  scaled = λ z. z;
}

init_succeeds : Ends (λ r t. r ≡ 1) (Camera.init reader fresh)
unfolding Camera.init
init_succeeds = refl

main-Same_example : shown_main opencv reader fresh ≡ static_main opencv reader fresh
main-Same_example = main-Same opencv reader fresh init_succeeds
