-- ===== src/SaveImage/Ending.antt =====
-- SaveImage.cpp, `main`: its end, and what it leaves.
pub mod Keys
pub mod Sizes
pub mod Saves
use aggregation.Base.{
  ℕ, ◌≡◌, ◌≢◌, refl, Bool, true, false, Option, none, some, List, [], ◌∷◌, arith, if◌then◌else◌,
}
use aggregation.Base.Decimal.{Bytes}
use aggregation.Sdk.{Sdk, Handle, Trace}
use aggregation.Station.{Station, M, Ends, Ends-and_then}
use aggregation.SaveImage.{deinit_resources}
use aggregation.SaveImage.Files.{Tm}
use aggregation.SaveImage.Keys.{
  Event, key, grabbed, chars, unread, raise_exit, press_enter_to_exit, wait_enter, skip_line,
}
use aggregation.SaveImage.Program.{shut_down, attempt, release_handle, clean_up, main}

-- Up to the newline there is no key that saves.
pub data Quits : List Event → Type 0 where
  enter : {es : List Event} → Quits (key b'\n' ∷ es)
  frame : {es : List Event} → Quits es → Quits (grabbed ∷ es)
  other :
      {c : ℕ} {es : List Event}
      → c ≢ b'\n'
      → c ≢ b'1'
      → c ≢ b'2'
      → c ≢ b'3'
      → Quits es
      → Quits (key c ∷ es)

-- A first line, and then one without a key that saves.
pub data TwoLines : List Event → Type 0 where
  first : {es : List Event} → Quits es → TwoLines (key b'\n' ∷ es)
  drop_frame : {es : List Event} → TwoLines es → TwoLines (grabbed ∷ es)
  drop_key : {c : ℕ} {es : List Event} → c ≢ b'\n' → TwoLines es → TwoLines (key c ∷ es)

-- A function that always returns, with `true`.
abbrev pub Returns : M Bool → Type 0
Returns m = (s : Station) → Ends (λ r t. r ≡ true) (m s)

line_before : (cs : Bytes) → wait_enter (skip_line cs) ≡ true → wait_enter cs ≡ true
line_before [] e = e
line_before (c ∷ cs) e = ground (arith, line_before cs)

module _ (sdk : Sdk) (localtime : Trace → Tm) where
  pub raise_exit-Ends :
      (r : Option (List Event)) (s : Station) → r ≢ none → Ends (λ b t. b ≡ true) (raise_exit r s)
  unfolding raise_exit
  raise_exit-Ends none s h = absurd (h refl)
  raise_exit-Ends (some es) s h = refl

  -- A first step that always returns.
  abbrev Replies : M ℕ → Type 0
  Replies m = (s : Station) → Ends (λ r t. Unit {0}) (m s)

  pub shut_down-Returns : (h : Handle) → Returns (shut_down sdk h)
  unfolding shut_down
  shut_down-Returns h s = ground arith

  -- It returns, and the handle and both buffers are gone.
  abbrev pub Released : Bool → Station → Type 0
  Released r t = (r ≡ true) × (t.handle ≡ none) × (t.data_buf ≡ none) × (t.image_info ≡ none)

  pub clean_up-Ends :
      (input : Bytes) (s : Station)
      → wait_enter (skip_line input) ≡ true
      → Ends Released (clean_up sdk input s)
  unfolding clean_up release_handle deinit_resources press_enter_to_exit
  clean_up-Ends input s line = ground (arith, line)

  -- Four lines leave one for `PressEnterToExit` and the line before, whether `HandleKeyPress` has
  -- read two of them or none.
  unread_lines :
      (exit : Bool) (cs : Bytes)
      → wait_enter (skip_line (skip_line (skip_line cs))) ≡ true
      → wait_enter (skip_line (unread exit cs)) ≡ true
  unread_lines true cs e = e
  unread_lines false cs e = line_before (skip_line cs) (line_before (skip_line (skip_line cs)) e)

  -- `main` from where its `do … while (0)` is left.
  pub leaving-Ends :
      (index : ℕ) (events : List Event) (s : Station)
      → wait_enter (skip_line (skip_line (skip_line (chars events)))) ≡ true
      → Ends (λ r t. r ≡ true) (attempt sdk localtime index events s)
      → Ends Released (main sdk localtime index events s)
  unfolding main
  leaving-Ends index events s lines a =
      Ends-and_then (λ r t. r ≡ true) Released (attempt sdk localtime index events s) _ a
        λ b t e.
          rw (e, if◌then◌else◌)
            (clean_up-Ends (unread t.exit (chars events)) t
              (unread_lines t.exit (chars events) lines))
