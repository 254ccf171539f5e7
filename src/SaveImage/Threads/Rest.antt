-- ===== src/SaveImage/Threads/Rest.antt =====
-- SaveImage.cpp: a round of the grab thread to its end, while the thread of `main` stands still.
use native.Mathlib.Decide.{ℕ_discrete}
use aggregation.Base.{◌≡◌, refl, ◌∙◌, ap, Bool, true, false, none, arith}
use aggregation.Sdk.{Sdk, Handle, Frame, Trace, get_one_frame, mv_ok}
use aggregation.SaveImage.Files.{Tm}
use aggregation.SaveImage.Threads.{
  Grab, checks, polls, unlocks, gone, wants, copies, halfway, System, Step, takes, misses, locks,
  copies_info, copies_data, frees, Reach, here, next,
}
use aggregation.SaveImage.Threads.Mutex.{inside}

-- Outside a round of the grab thread.
abbrev pub rests : Grab → Bool
rests checks = true
rests polls = false
rests unlocks = false
rests gone = true
rests (wants f) = false
rests (copies f) = false
rests (halfway f) = false

pub rests-inside : (g : Grab) → rests g ≡ true → inside g ≡ false
rests-inside checks e = refl
rests-inside polls e = refl
rests-inside unlocks e = absurd (ground arith)
rests-inside gone e = refl
rests-inside (wants f) e = refl
rests-inside (copies f) e = absurd (ground arith)
rests-inside (halfway f) e = absurd (ground arith)

module _ (sdk : Sdk) (localtime : Trace → Tm) (h : Handle) where
  pub Reach-trans :
      {x y z : System}
      → Reach sdk localtime h x y
      → Reach sdk localtime h y z
      → Reach sdk localtime h x z
  Reach-trans r here = r
  Reach-trans r (next s st) = next (Reach-trans r s) st

  -- The grab thread gets out of its round while the thread of `main` stands still.
  abbrev pub Rested : System → Type 0
  Rested y = (z : System) × Reach sdk localtime h y z × (z.main ≡ y.main) × (rests z.grab ≡ true)

  first : {y w : System} → Step sdk localtime h y w → w.main ≡ y.main → Rested w → Rested y
  first st e (z, r, q, g) = (z, Reach-trans (next here st) r, q ∙ e, g)

  rest_unlocks : (y : System) → y.grab ≡ unlocks → Rested y
  rest_unlocks y e = first (frees e refl) refl (_, here, refl, refl)

  rest_halfway : (y : System) (f : Frame) → y.grab ≡ halfway f → Rested y
  rest_halfway y f e = first (copies_data f e refl) refl (rest_unlocks _ refl)

  rest_copies : (y : System) (f : Frame) → y.grab ≡ copies f → Rested y
  rest_copies y f e = first (copies_info f e refl) refl (rest_halfway _ f refl)

  rest_wants : (y : System) (f : Frame) → y.grab ≡ wants f → y.mutex ≡ none → Rested y
  rest_wants y f e m = first (locks f e m refl) refl (rest_copies _ f refl)

  rest_polls : (y : System) → y.grab ≡ polls → y.mutex ≡ none → Rested y
  rest_polls y e m = elim (ℕ_discrete (sdk.code y.station.trace (get_one_frame h)) mv_ok) [
    | yes p ↦ first (takes e p refl) refl (rest_wants _ _ refl m)
    | no p ↦ first (misses e p refl) refl (_, here, refl, refl)
  ]

  pub rest : (g : Grab) (y : System) → y.grab ≡ g → (inside g ≡ false → y.mutex ≡ none) → Rested y
  rest checks y e m = (y, here, refl, ap rests e)
  rest polls y e m = rest_polls y e (m refl)
  rest unlocks y e m = rest_unlocks y e
  rest gone y e m = (y, here, refl, ap rests e)
  rest (wants f) y e m = rest_wants y f e (m refl)
  rest (copies f) y e m = rest_copies y f e
  rest (halfway f) y e m = rest_halfway y f e
