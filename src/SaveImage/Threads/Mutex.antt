-- ===== src/SaveImage/Threads/Mutex.antt =====
-- SaveImage.cpp: who holds the mutex, by where the threads stand.
use aggregation.Base.{ℕ, ◌≡◌, refl, Bool, true, false, some, List, [], ◌∷◌, arith}
use aggregation.Sdk.{Sdk, Handle, Trace}
use aggregation.Station.{Station}
use aggregation.SaveImage.Files.{Tm}
use aggregation.SaveImage.Threads.{
  Grab, checks, polls, unlocks, gone, wants, copies, halfway, Main, skips, reads, asks, saves,
  joins, joined, grabber, saver, System, start, skip_key, read_key, Step, leaves, stays, takes,
  misses, locks, copies_info, copies_data, frees, skip, read, spins, enters, writes, meets, Reach,
  here, next,
}

-- Between `lock` and `unlock`.
abbrev pub inside : Grab → Bool
inside checks = false
inside polls = false
inside unlocks = true
inside gone = false
inside (wants f) = false
inside (copies f) = true
inside (halfway f) = true

abbrev pub is_saving : Main → Bool
is_saving (skips keys) = false
is_saving (reads keys) = false
is_saving (asks k keys) = false
is_saving (saves k keys) = true
is_saving joins = false
is_saving joined = false

pub record Held (y : System) : Type 0 where
  pub grabs : inside y.grab ≡ true → y.mutex ≡ some grabber
  pub grabbed : y.mutex ≡ some grabber → inside y.grab ≡ true
  pub saving : is_saving y.main ≡ true → y.mutex ≡ some saver

pub is_saving-skip_key : (keys : List ℕ) → is_saving (skip_key keys) ≡ false
unfolding skip_key
is_saving-skip_key [] = refl
is_saving-skip_key (c ∷ keys) = ground arith

pub is_saving-read_key : (c : ℕ) (keys : List ℕ) → is_saving (read_key c keys) ≡ false
unfolding read_key
is_saving-read_key c keys = ground arith

pub start-Held : (s : Station) (keys : List ℕ) → Held (start s keys)
start-Held s keys = record { grabs = λ e. cc; grabbed = λ e. cc; saving = λ e. cc }

module _ (sdk : Sdk) (localtime : Trace → Tm) (h : Handle) where
  pub Step-Held : {y z : System} → Step sdk localtime h y z → Held y → Held z
  Step-Held (leaves g e q) v = ground arith
  Step-Held (stays g e q) v = ground arith
  Step-Held (takes g e q) v = ground arith
  Step-Held (misses g e q) v = ground arith
  Step-Held (locks f g m q) v = ground arith
  Step-Held (copies_info f g q) v = ground arith
  Step-Held (copies_data f g q) v = ground arith
  Step-Held (frees g q) v = ground arith
  Step-Held (skip keys m q) v = ground (arith, is_saving-skip_key keys)
  Step-Held (read c keys m q) v = ground (arith, is_saving-read_key c keys)
  Step-Held (spins m q) v = ground arith
  Step-Held (enters k keys m e q) v = ground arith
  Step-Held (writes k keys t m e q) v = ground arith
  Step-Held (meets m g q) v = ground arith

  pub Reach-Held : {y z : System} → Held y → Reach sdk localtime h y z → Held z
  Reach-Held v here = v
  Reach-Held v (next r st) = Step-Held st (Reach-Held v r)

-- The two threads are never both between their `lock` and their `unlock`.
pub Held-excludes : {y : System} → Held y → is_saving y.main ≡ true → inside y.grab ≡ false
Held-excludes v s = ground (arith, v.grabs, v.saving)
