-- ===== src/Station.antt =====
-- The state of the two programs around one code reader, and the monad of their functions.
use aggregation.Base.{ℕ, ◌≡◌, Bool, true, false, Option, none, [], ◌∷◌}
use aggregation.Base.Decimal.{Bytes}
use aggregation.Sdk.{Sdk, Handle, ImageInfo, Call, Trace, mv_ok}

-- The members of `class Camera`; in SaveImage.cpp the globals, and `handle` and `bIsNormalRun` of
-- `main`. A pointer is `none` for NULL, and otherwise the contents of its own block.
pub record Station : Type 0 where
  pub n_ret : ℕ
  pub handle : Handle
  pub is_normal_run : Bool
  pub exit : Bool
  pub max_image_size : ℕ
  pub image_info : Option ImageInfo
  pub data_buf : Option Bytes
  pub trace : Trace

-- A static object: the members without an initialiser are zero.
abbrev pub fresh : Station
fresh = record {
  n_ret = mv_ok;
  handle = none;
  is_normal_run = true;
  exit = false;
  max_image_size = 0;
  image_info = none;
  data_buf = none;
  trace = [];
}

-- Undefined behaviour that the code can run into, and an exception of OpenCV.
pub data Fault : Type 0 where
  null_pointer over_read overflow unset_value cv_exception : Fault

-- `thrown` is `throw nRet`.
pub data Out (A : Type 0) : Type 0 where
  ok : A → Station → Out A
  thrown : ℕ → Station → Out A
  fault : Fault → Out A

abbrev pub M : Type 0 → Type 0
M A = Station → Out A

abbrev pub pure : {A : Type 0} → A → M A
pure a s = ok a s

abbrev pub throw : {A : Type 0} → ℕ → M A
throw c s = thrown c s

abbrev pub fail : {A : Type 0} → Fault → M A
fail e s = fault e

abbrev pub and_then : {A B : Type 0} → Out A → (A → M B) → Out B
and_then (ok a s) f = f a s
and_then (thrown c s) f = thrown c s
and_then (fault e) f = fault e

infixl 5 ◌>>=◌ ◌>>◌
abbrev pub ◌>>=◌ : {A B : Type 0} → M A → (A → M B) → M B
◌>>=◌ m f s = and_then (m s) f

abbrev pub ◌>>◌ : {B : Type 0} → M (Unit {0}) → M B → M B
m >> k = m >>= λ _. k

abbrev pub gets : {A : Type 0} → (Station → A) → M A
gets f s = ok (f s) s

abbrev pub modify : (Station → Station) → M (Unit {0})
modify f s = ok tt (f s)

-- A call with nothing to reply.
abbrev pub does : Call → M (Unit {0})
does c s = ok tt (record s { trace = c ∷ s.trace })

module _ (sdk : Sdk) where
  -- An SDK call: its return code.
  abbrev pub call : Call → M ℕ
  call c s = ok (sdk.code s.trace c) (record s { trace = c ∷ s.trace })

  -- The same, with the code kept in the member `nRet`.
  abbrev pub call_ret : Call → M ℕ
  call_ret c s =
      ok (sdk.code s.trace c) (record s { n_ret = sdk.code s.trace c; trace = c ∷ s.trace })

  -- An allocation, or an `fopen`: whether it gave something.
  abbrev pub tries : Call → M Bool
  tries c s = ok (sdk.succeeds s.trace c) (record s { trace = c ∷ s.trace })

-- A run that returns, with a result and a state of which `P` holds.
abbrev pub Ends : {A : Type 0} → (A → Station → Type 0) → Out A → Type 0
Ends P (ok a s) = P a s
Ends P (thrown c s) = ⊥
Ends P (fault e) = ⊥

-- `thrown` is held to `Q`.
abbrev pub Outcome : {A : Type 0} → (A → Station → Type 0) → (ℕ → Station → Type 0) → Out A → Type 0
Outcome P Q (ok a s) = P a s
Outcome P Q (thrown c s) = Q c s
Outcome P Q (fault e) = ⊥

module _ {A B : Type 0} where
  pub Ends-and_then :
      (P : A → Station → Type 0) (Q : B → Station → Type 0) (o : Out A) (f : A → M B)
      → Ends P o
      → ((a : A) (s : Station) → P a s → Ends Q (f a s))
      → Ends Q (and_then o f)
  Ends-and_then P Q (ok a s) f p h = h a s p
  Ends-and_then P Q (thrown c s) f p h = absurd p
  Ends-and_then P Q (fault e) f p h = absurd p

module _ {A : Type 0} where
  pub Ends-mono :
      (P Q : A → Station → Type 0) (o : Out A)
      → Ends P o
      → ((a : A) (s : Station) → P a s → Q a s)
      → Ends Q o
  Ends-mono P Q (ok a s) p h = h a s p
  Ends-mono P Q (thrown c s) p h = p
  Ends-mono P Q (fault e) p h = p

  pub and_then-fault :
      {B : Type 0} (P : A → Station → Type 0) (o : Out A) (f : A → M B) {e : Fault}
      → Ends P o
      → ((a : A) (s : Station) → P a s → f a s ≡ fault e)
      → and_then o f ≡ fault e
  and_then-fault P (ok a s) f p h = h a s p
  and_then-fault P (thrown c s) f p h = absurd p
  and_then-fault P (fault e') f p h = absurd p
