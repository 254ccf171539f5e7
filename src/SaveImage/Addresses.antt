-- ===== src/SaveImage/Addresses.antt =====
-- SaveImage.cpp, `PrintDeviceInfo`: the address in dotted form.
use aggregation.Base.{ℕ, ◌+◌, ◌*◌, ◌^◌, ◌<◌, ◌≡◌, arith}
use aggregation.SaveImage.{address}

-- The four numbers that are printed of an address of 32 bits are bytes, and are its digits in base
-- 256, the first the highest: put together again they are the address.
address-joined :
    (ip : ℕ)
    → ip < 2 ^ 32
    → ((address ip).0 * 2 ^ 24 + (address ip).1 * 2 ^ 16 + (address ip).2 * 2 ^ 8 + (address ip).3
        ≡ ip)
      × ((address ip).0 < 256)
      × ((address ip).1 < 256)
      × ((address ip).2 < 256)
      × ((address ip).3 < 256)
unfolding address
address-joined ip h = (omega arith, omega arith, omega arith, omega arith, omega arith)
