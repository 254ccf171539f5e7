-- ===== src/SaveImage/Threads.antt =====
-- SaveImage.cpp: the two threads from `pthread_create` to `pthread_join`, step by step: the loop of
-- `GrabImageThread`, and `HandleKeyPress` in the thread of `main`.
pub mod Copies
pub mod Deadlock
pub mod Mutex
pub mod Steady
pub mod Calls
pub mod Contents
pub mod Rest
pub mod Progress
pub mod Return
pub mod Typing
pub mod Rounds
pub mod Whole
mod Tests
use aggregation.Base.{
  ℕ, ◌≡◌, ◌≢◌, Bool, true, false, Option, none, some, List, [], ◌∷◌, ◌==◌, if◌then◌else◌,
}
use aggregation.Sdk.{
  Sdk, Handle, Frame, Call, Trace, get_one_frame, mutex_lock, mutex_unlock, mv_ok,
}
use aggregation.Station.{Station, M, ok}
use aggregation.Camera.Image.{copy_info, copy_data}
use aggregation.SaveImage.Files.{Tm, save_raw_image, save_jpeg_image, save_bmp_image}
use aggregation.SaveImage.Keys.{locked}

-- Where the grab thread stands: at the test of `g_bExit`, before GetOneFrame, before `lock` with a
-- frame, before the first copy, between the two, before `unlock`, or past its loop.
pub data Grab : Type 0 where
  checks polls unlocks gone : Grab
  wants copies halfway : Frame → Grab

pub data Kind : Type 0 where
  raw jpg bmp : Kind

-- Where the thread of `main` stands, with the characters that are still to come: in the first loop of
-- `HandleKeyPress`, before the next `getchar` of the second, before the `lock` of a save, between its
-- `lock` and its end, before `pthread_join`, or past it.
pub data Main : Type 0 where
  skips reads : List ℕ → Main
  asks saves : Kind → List ℕ → Main
  joins joined : Main

-- Who holds the mutex.
pub data Owner : Type 0 where
  grabber saver : Owner

pub record System : Type 0 where
  pub station : Station
  pub mutex : Option Owner
  pub grab : Grab
  pub main : Main

-- The state at `pthread_create`.
abbrev pub start : Station → List ℕ → System
start s keys = record { station = s; mutex = none; grab = checks; main = skips keys }

abbrev pub log : Call → Station → Station
log c s = record s { trace = c ∷ s.trace }

-- `while ((c = getchar ()) != '\n' && c != EOF);`
unfoldable pub skip_key : List ℕ → Main
skip_key [] = reads []
skip_key (c ∷ keys) = if c == b'\n' then reads keys else skips keys

-- A key of the second loop; at a newline `g_bExit` is set, and the function returns.
unfoldable pub read_key : ℕ → List ℕ → Main
read_key c keys =
    if c == b'\n'
    then joins
    else if c == b'1'
    then asks raw keys
    else if c == b'2'
    then asks jpg keys
    else if c == b'3'
    then asks bmp keys
    else reads keys

unfoldable pub set_exit : ℕ → Station → Station
set_exit c s = if c == b'\n' then record s { exit = true } else s

-- The mutex after a save: the save has released it, or not.
abbrev pub after_save : Station → Option Owner
after_save t = if locked t.trace then some saver else none

module _ (sdk : Sdk) (localtime : Trace → Tm) (h : Handle) where
  unfoldable pub save : Kind → M (Unit {0})
  unfolding save_raw_image save_jpeg_image save_bmp_image
  save raw = save_raw_image sdk localtime
  save jpg = save_jpeg_image sdk localtime h
  save bmp = save_bmp_image sdk localtime h

  -- One step of one thread. What a save does from its `lock` to its end is one step, `writes`; the
  -- other thread may move before it. What a save still does after its `unlock` is `fclose` and `delete`
  -- of what is its own, here before the other thread's next step. At the end of the input `getchar` gives EOF for ever.
  pub data Step (y z : System) : Type 0 where
    leaves : y.grab ≡ checks → y.station.exit ≡ true → z ≡ record y { grab = gone } → Step y z
    stays : y.grab ≡ checks → y.station.exit ≡ false → z ≡ record y { grab = polls } → Step y z
    takes :
        y.grab ≡ polls
        → sdk.code y.station.trace (get_one_frame h) ≡ mv_ok
        → z ≡ record y {
          station = log (get_one_frame h) y.station;
          grab = wants (sdk.frame y.station.trace);
        }
        → Step y z
    misses :
        y.grab ≡ polls
        → sdk.code y.station.trace (get_one_frame h) ≢ mv_ok
        → z ≡ record y { station = log (get_one_frame h) y.station; grab = checks }
        → Step y z
    locks :
        (f : Frame)
        → y.grab ≡ wants f
        → y.mutex ≡ none
        → z ≡ record y { station = log mutex_lock y.station; mutex = some grabber; grab = copies f }
        → Step y z
    copies_info :
        (f : Frame)
        → y.grab ≡ copies f
        → z ≡ record y { station = copy_info f.info y.station; grab = halfway f }
        → Step y z
    copies_data :
        (f : Frame)
        → y.grab ≡ halfway f
        → z ≡ record y { station = copy_data f y.station; grab = unlocks }
        → Step y z
    frees :
        y.grab ≡ unlocks
        → z ≡ record y { station = log mutex_unlock y.station; mutex = none; grab = checks }
        → Step y z
    skip : (keys : List ℕ) → y.main ≡ skips keys → z ≡ record y { main = skip_key keys } → Step y z
    read :
        (c : ℕ) (keys : List ℕ)
        → y.main ≡ reads (c ∷ keys)
        → z ≡ record y { station = set_exit c y.station; main = read_key c keys }
        → Step y z
    spins : y.main ≡ reads [] → z ≡ y → Step y z
    enters :
        (k : Kind) (keys : List ℕ)
        → y.main ≡ asks k keys
        → y.mutex ≡ none
        → z ≡ record y { mutex = some saver; main = saves k keys }
        → Step y z
    writes :
        (k : Kind) (keys : List ℕ) (t : Station)
        → y.main ≡ saves k keys
        → save k y.station ≡ ok tt t
        → z ≡ record y { station = t; mutex = after_save t; main = reads keys }
        → Step y z
    meets : y.main ≡ joins → y.grab ≡ gone → z ≡ record y { main = joined } → Step y z

  pub data Reach (y : System) : System → Type 0 where
    here : Reach y y
    next : {z w : System} → Reach y z → Step z w → Reach y w
