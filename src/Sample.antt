-- ===== src/Sample.antt =====
-- A code reader, a frame and a station to run the examples on.
use aggregation.Base.{ℕ, true, some, [], ◌∷◌, ◌-◌, ◌^◌}
use aggregation.Base.Int.{pos}
use aggregation.Base.Decimal.{Bytes}
use aggregation.Sdk.{Sdk, gige, ImageInfo, mono8, Point, Code, Frame}
use aggregation.Station.{Station, fresh}

abbrev pub point : ℕ → ℕ → Point
point a b = record { x = pos a; y = pos b }

abbrev pub code_ab : Code
code_ab = record {
  text = b'a' ∷ b'b' ∷ [];
  pt0 = point 10 10;
  pt1 = point 20 10;
  pt2 = point 20 20;
  pt3 = point 10 20;
  idr_score = 90;
}

abbrev pub info_of : ℕ → ImageInfo
info_of n = record { frame_len = n; width = 3; height = 1; pixel_type = mono8 }

abbrev pub frame_abc : Frame
frame_abc = record {
  bytes = 1 ∷ 2 ∷ 3 ∷ [];
  info = info_of 3;
  codes_ex = code_ab ∷ [];
  codes_ex2 = code_ab ∷ [];
}

-- Every call succeeds, and the data buffer has 8 bytes.
abbrev pub reader : Sdk
reader = record {
  code = λ t c. 0;
  int_value = λ t k. 2 ^ 32 - 4088;
  devices = λ t. some (record { layer = gige; current_ip = 0; user_defined_name = [] }) ∷ [];
  created = λ t h. some 1;
  frame = λ t. frame_abc;
  succeeds = λ t c. true;
  descriptor = λ t. 3;
  iconv = λ cd src. (true, src);
  encoded = λ t p. p.input;
}

abbrev pub eight : Bytes
eight = 9 ∷ 9 ∷ 9 ∷ 9 ∷ 9 ∷ 9 ∷ 9 ∷ 9 ∷ []

-- After `init` and a frame of nines.
abbrev pub running : Station
running = record fresh {
  handle = some 1;
  max_image_size = 8;
  image_info = some (info_of 8);
  data_buf = some eight;
}
