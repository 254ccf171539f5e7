-- ===== src/Server/Stages/Threads.antt =====
-- broadcastTest.cpp: the threads of `main`, where the others may move between the stages of `looping`.
use aggregation.Base.{ℕ, ◌≡◌, Bool, false, ◌==◌, if◌then◌else◌}
use aggregation.Server.{ActionPtr, Outside}
use aggregation.Server.Threads as Threads
use aggregation.Server.Threads.{System, opens, closes, receives, takes, handles, ends, loops}
use aggregation.Server.Stages.{Looper, idle, found, at_entry, ready, moves, stage}

pub record Config (C : Type 0) : Type 0 where
  pub system : System C
  pub looper : Looper

abbrev pub start : {C : Type 0} → ActionPtr → C → Config C
start b0 c = record { system = Threads.start b0 c; looper = idle }

module _ {C Image : Type 0} (out : Outside C Image) where
  -- A step of another thread than that of `looping`.
  abbrev pub IsOther : {y z : System C} → Threads.Step out y z → Type 0
  IsOther (opens hdl client_id e) = Unit
  IsOther (closes hdl e) = Unit
  IsOther (receives hdl msg e) = Unit
  IsOther (takes a s w e f) = Unit
  IsOther (handles a s w e f) = Unit
  IsOther (ends a w f) = Unit
  IsOther (loops s c e f) = ⊥

  -- The `erase` of `on_close` destroys the entry of the handle, and with it what an iterator points
  -- to. No other handler removes an entry.
  abbrev without : ℕ → Looper → Looper
  without hdl (at_entry k kept) = at_entry k (if k == hdl then false else kept)
  without hdl idle = idle
  without hdl found = found
  without hdl (ready p) = ready p

  abbrev pub after : {y z : System C} → Threads.Step out y z → Looper → Looper
  after (opens hdl client_id e) l = l
  after (closes hdl e) l = without hdl l
  after (receives hdl msg e) l = l
  after (takes a s w e f) l = l
  after (handles a s w e f) l = l
  after (ends a w f) l = l
  after (loops s c e f) l = l

  -- What does not depend on whether an entry is still in the map.
  pub after-holds :
      (P : Looper → Type 0)
      → ((k : ℕ) (kept kept' : Bool) → P (at_entry k kept) → P (at_entry k kept'))
      → {y z : System C} (st : Threads.Step out y z) (l : Looper) → P l
      → P (after st l)
  after-holds P h (opens hdl client_id e) l p = p
  after-holds P h (closes hdl e) idle p = p
  after-holds P h (closes hdl e) found p = p
  after-holds P h (closes hdl e) (at_entry k kept) p = h k kept _ p
  after-holds P h (closes hdl e) (ready q) p = p
  after-holds P h (receives hdl msg e) l p = p
  after-holds P h (takes a s w e f) l p = p
  after-holds P h (handles a s w e f) l p = p
  after-holds P h (ends a w f) l p = p
  after-holds P h (loops s c e f) l p = p

pub data Step {C Image : Type 0} (out : Outside C Image) (y z : Config C) : Type 0 where
  others :
      (w : System C) (st : Threads.Step out y.system w)
      → IsOther out st
      → z ≡ record { system = w; looper = after out st y.looper }
      → Step out y z
  stages :
      (s : _) (c : C) (l : Looper)
      → stage out y.looper y.system.server y.system.camera ≡ moves s c l
      → z ≡ record { system = record y.system { server = s; camera = c }; looper = l }
      → Step out y z

pub data Reach {C Image : Type 0} (out : Outside C Image) (y : Config C) : Config C → Type 0 where
  here : Reach out y y
  next : {z w : Config C} → Reach out y z → Step out z w → Reach out y w
