-- ===== src/Camera/Codes/Descriptors.antt =====
-- broadcastTest.cpp, `GB2312ToUTF8`: conversion descriptors.
use aggregation.Base.{ℕ, ◌+◌, ◌≡◌, ◌≢◌, [], ◌∷◌, arith}
use aggregation.Base.Int.{negsuc}
use aggregation.Base.Decimal.{Bytes}
use aggregation.Sdk.{Sdk, Trace, iconv_open, iconv_close, iconv_error}
use aggregation.Station.{Station, Ends}
use aggregation.Camera.Codes.{gb2312_to_utf8}

abbrev pub opened : Trace → ℕ
opened [] = 0
opened (iconv_open ∷ t) = opened t + 1
opened (c ∷ t) = opened t

abbrev pub closed : Trace → ℕ
closed [] = 0
closed (iconv_close ∷ t) = closed t + 1
closed (c ∷ t) = closed t

module _ (sdk : Sdk) where
  -- The failure of `iconv_open` is not seen: at the value that it returns then, the function goes on
  -- to `iconv`, and never returns -2.
  gb2312_to_utf8-open_error :
      (src dst : Bytes) (s : Station)
      → sdk.descriptor s.trace ≡ iconv_error
      → Ends
          (λ r t. (r.0 ≢ negsuc 1) × (r.1 ≡ (sdk.iconv iconv_error src).1))
          (gb2312_to_utf8 sdk src dst s)
  unfolding gb2312_to_utf8
  gb2312_to_utf8-open_error src dst s e = ground arith
