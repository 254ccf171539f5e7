-- ===== src/SaveImage/Keys.antt =====
-- SaveImage.cpp: `HandleKeyPress` and `PressEnterToExit`, with the rounds of the grab thread that
-- come between two keys.
use aggregation.Base.{
  ℕ, Bool, ◌&&◌, true, false, Option, none, some, List, [], ◌∷◌, ◌==◌, if◌then◌else◌,
}
use aggregation.Base.Decimal.{Bytes}
use aggregation.Sdk.{Sdk, Handle, Trace, mutex_lock, mutex_unlock}
use aggregation.Station.{M, pure, ◌>>=◌, ◌>>◌, modify}
use aggregation.SaveImage.{grab_round}
use aggregation.SaveImage.Files.{Tm, save_raw_image, save_jpeg_image, save_bmp_image}

-- Whether the mutex is held, by the calls so far.
abbrev pub locked : Trace → Bool
locked [] = false
locked (mutex_lock ∷ t) = true
locked (mutex_unlock ∷ t) = false
locked (c ∷ t) = locked t

-- What comes next: a character for `getchar`, or a round of the grab thread.
pub data Event : Type 0 where
  key : ℕ → Event
  grabbed : Event

-- The characters among the events.
abbrev pub chars : List Event → List ℕ
chars [] = []
chars (key c ∷ es) = c ∷ chars es
chars (grabbed ∷ es) = chars es

-- `g_bExit = true;`, if the loop has ended.
unfoldable pub raise_exit : Option (List Event) → M Bool
raise_exit none = pure false
raise_exit (some es) = modify (λ s. record s { exit = true }) >> pure true

module _ (sdk : Sdk) (localtime : Trace → Tm) (h : Handle) where
  -- One round of the grab thread. Under a held mutex it changes nothing: with a frame it waits for
  -- the mutex, without one it was in vain.
  unfoldable pub round : M (Unit {0})
  unfolding grab_round
  round s = if locked s.trace then pure tt s else grab_round sdk h s

  -- `while ((c = getchar ()) != '\n' && c != EOF);`
  unfoldable pub skip : List Event → M (List Event)
  unfolding round
  skip [] = pure []
  skip (grabbed ∷ es) = round >> skip es
  skip (key c ∷ es) = if c == b'\n' then pure es else skip es

  unfoldable pub handle_key : ℕ → M (Unit {0})
  unfolding save_raw_image save_jpeg_image save_bmp_image
  handle_key c =
      if c == b'1'
      then save_raw_image sdk localtime
      else if c == b'2'
      then save_jpeg_image sdk localtime h
      else if c == b'3'
      then save_bmp_image sdk localtime h
      else pure tt

  -- A save waits for the mutex.
  abbrev needs_lock : ℕ → Bool
  needs_lock c = if c == b'1' then true else if c == b'2' then true else c == b'3'

  -- The loop up to the newline: `none` when it never ends. At the end of the input `getchar` gives EOF
  -- for ever, which is no newline, and a save under a held mutex waits for ever.
  unfoldable pub press : List Event → M (Option (List Event))
  unfolding handle_key round
  press [] s = pure none s
  press (grabbed ∷ es) s = (round >> press es) s
  press (key c ∷ es) s =
      let rest = press es in
      if c == b'\n'
      then pure (some es) s
      else (if needs_lock c && locked s.trace then pure none s else (handle_key c >> rest) s)

  -- Whether it returns.
  unfoldable pub handle_key_press : List Event → M Bool
  unfolding skip press raise_exit
  handle_key_press es = skip es >>= λ rest. press rest >>= raise_exit

-- The same two loops after the grab thread is gone: the first up to a newline or the end, the second
-- up to a newline, and for ever without one.
abbrev pub skip_line : Bytes → Bytes
skip_line [] = []
skip_line (c ∷ cs) = if c == b'\n' then cs else skip_line cs

abbrev pub wait_enter : Bytes → Bool
wait_enter [] = false
wait_enter (c ∷ cs) = if c == b'\n' then true else wait_enter cs

-- What is left of the input after `HandleKeyPress`, which reads two lines where it returns, and then
-- sets `g_bExit`. Without it nothing has been read.
abbrev pub unread : Bool → Bytes → Bytes
unread exit cs = if exit then skip_line (skip_line cs) else cs

-- Whether it returns.
unfoldable pub press_enter_to_exit : Bytes → M Bool
press_enter_to_exit input =
    if wait_enter (skip_line input)
    then (modify (λ s. record s { exit = true }) >> pure true)
    else pure false
