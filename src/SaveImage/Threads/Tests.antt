-- ===== src/SaveImage/Threads/Tests.antt =====
-- Examples of what is proved of the two threads of SaveImage.cpp.
mod Runs
use aggregation.Base.{ℕ, ◌≡◌, ◌≢◌, refl, true, false, some, List, [], ◌∷◌, ◌++◌, arith, replicate}
use aggregation.Sdk.{fopen, fwrite, fclose, mutex_lock, mutex_unlock, get_one_frame}
use aggregation.Station.{Station, ok, fresh}
use aggregation.Camera.{zero_info}
use aggregation.Camera.Image.{copy_info, copy_data, read_frame}
use aggregation.Camera.Lifecycle.{IsReady}
use aggregation.Sample.{reader, eight, info_of, frame_abc}
use aggregation.SaveImage.Files.{stamp, jpg_ext, save_raw_image, save_jpeg_image}
use aggregation.SaveImage.Keys.{locked}
use aggregation.SaveImage.Keys
use aggregation.SaveImage.{grab_round}
use aggregation.Camera.Image.{copy_frame}
use aggregation.SaveImage.Files.{raw_ext, raw_file}
use aggregation.SaveImage.Keys.{
  Event, key, grabbed, press, round, handle_key, handle_key_press, raise_exit,
}
use aggregation.SaveImage.Program.{main}
use aggregation.SaveImage.Keys.{chars}
use aggregation.SaveImage.Threads.Rounds.{between}
use aggregation.SaveImage.Threads.Rounds.Returning.{handle_key_press-Reach}
use aggregation.SaveImage.Tests.{noon, jpeg_info, with_jpeg, with_jpeg-Holds}
use aggregation.SaveImage.Threads.{
  checks, wants, saves, joins, joined, raw, jpg, saver, System, start, skip_key, read_key, set_exit,
  save, stays, takes, locks, copies_info, copies_data, frees, skip, read, enters, writes, Reach,
  here, next,
}
use aggregation.SaveImage.Threads.Mutex.{inside, Held}
use aggregation.SaveImage.Threads.Copies.{Fits, Intact}
use aggregation.SaveImage.Threads.Steady.{NoJpeg}
use aggregation.SaveImage.Threads.Progress.{Joins, start-Joins}
use aggregation.SaveImage.Threads.Calls.{alternates, trace-alternates}
use aggregation.SaveImage.Threads.Deadlock.{save-Deadlock}

-- After `InitResource`, with room for 8 bytes.
abbrev pub ready : Station
ready = record fresh {
  handle = some 1;
  max_image_size = 8;
  image_info = some zero_info;
  data_buf = some (replicate 8 0);
}

pub ready-IsReady : IsReady ready
ready-IsReady = record { buffer = refl; info = refl }

pub reader-Fits : Fits reader 8
reader-Fits u = (refl, omega arith)

pub reader-NoJpeg : NoJpeg reader
reader-NoJpeg u e = ground (arith, e)

-- A line, key 1, and a line.
abbrev pub keys : List ℕ
keys = b'\n' ∷ b'1' ∷ b'\n' ∷ []

abbrev pub Goes : System → System → Type 0
Goes = Reach reader noon (some 1)

-- The first frame is in the buffers, and key 1 was pressed.
abbrev pub saving : System
saving = record {
  station = record ready {
    image_info = some (info_of 3);
    data_buf = some (1 ∷ 2 ∷ 3 ∷ 0 ∷ 0 ∷ 0 ∷ 0 ∷ 0 ∷ []);
    trace = mutex_unlock ∷ mutex_lock ∷ get_one_frame (some 1) ∷ [];
  };
  mutex = some saver;
  grab = checks;
  main = saves raw (b'\n' ∷ []);
}

-- A round of the grab thread with a frame, then the first two keys, up to the save.
pub to_save : Goes (start ready keys) saving
unfolding copy_info copy_data skip_key read_key set_exit
to_save =
    next
      (next
        (next
          (next
            (next
              (next
                (next (next (next here (stays refl refl refl)) (takes refl refl refl))
                  (locks frame_abc refl refl refl))
                (copies_info frame_abc refl refl))
              (copies_data frame_abc refl refl))
            (frees refl refl))
          (skip keys refl refl))
        (read b'1' (b'\n' ∷ []) refl refl))
      (enters raw (b'\n' ∷ []) refl refl refl)

start-Joins_example : Joins reader noon (some 1) saving
start-Joins_example =
    start-Joins reader noon (some 1) ready keys ready-IsReady reader-Fits reader-NoJpeg refl to_save

-- Key 2 with a JPEG frame in the buffers, and the grab thread before `lock`.
abbrev jammed : System
jammed = record {
  station = with_jpeg;
  mutex = some saver;
  grab = wants frame_abc;
  main = saves jpg (b'\n' ∷ []);
}

jammed-Held : Held jammed
jammed-Held = record { grabs = λ e. cc; grabbed = λ e. cc; saving = λ e. refl }

-- The save ends, Enter sets `g_bExit`, and `main` is before `pthread_join`.
abbrev stuck : System
stuck = record {
  station = record with_jpeg {
    exit = true;
    trace =
        fclose ∷ fwrite eight ∷ fopen (stamp (noon (mutex_lock ∷ [])) ++ jpg_ext) ∷ mutex_lock ∷ [];
  };
  mutex = some saver;
  grab = wants frame_abc;
  main = joins;
}

to_stuck : Goes jammed stuck
unfolding save save_jpeg_image read_frame set_exit read_key
to_stuck = next (next here (writes jpg (b'\n' ∷ []) _ refl refl refl)) (read b'\n' [] refl refl)

save-Deadlock_example :
    (stuck.mutex ≡ some saver)
    × (stuck.station.data_buf ≡ some eight)
    × (stuck.station.image_info ≡ some jpeg_info)
    × (stuck.grab ≡ wants frame_abc)
    × (stuck.main ≢ joined)
save-Deadlock_example =
    save-Deadlock reader noon (some 1) eight jpeg_info refl (λ t n. refl) (b'\n' ∷ []) frame_abc
      jammed jammed-Held refl refl with_jpeg-Holds to_stuck

-- A line, a frame, key 1, and a line.
abbrev events : List Event
events = key b'\n' ∷ grabbed ∷ key b'1' ∷ key b'\n' ∷ []

abbrev saved : Station
saved = record ready {
  exit = true;
  image_info = some (info_of 3);
  data_buf = some (1 ∷ 2 ∷ 3 ∷ 0 ∷ 0 ∷ 0 ∷ 0 ∷ 0 ∷ []);
  trace =
      fclose
      ∷ mutex_unlock
      ∷ fwrite (1 ∷ 2 ∷ 3 ∷ [])
      ∷ fopen (stamp (noon []) ++ raw_ext)
      ∷ mutex_lock
      ∷ mutex_unlock
      ∷ mutex_lock
      ∷ get_one_frame (some 1)
      ∷ [];
}

events-saved : handle_key_press reader noon (some 1) events ready ≡ ok true saved
unfolding handle_key_press Keys.skip press round grab_round copy_frame copy_info copy_data
    handle_key save_raw_image raw_file read_frame raise_exit
events-saved = refl

handle_key_press-Reach_example :
    Reach reader noon (some 1) (start ready (chars events)) (between saved joins)
handle_key_press-Reach_example =
    handle_key_press-Reach reader noon (some 1) events ready saved refl refl events-saved

-- The same, and two lines more.
abbrev four_lines : List Event
four_lines = key b'\n' ∷ grabbed ∷ key b'1' ∷ key b'\n' ∷ key b'\n' ∷ key b'\n' ∷ []

trace-alternates_example : alternates saving.station.trace ≡ true
trace-alternates_example = trace-alternates reader noon (some 1) ready keys refl refl to_save

-- Four lines, and no save.
abbrev quitting : List Event
quitting = key b'\n' ∷ grabbed ∷ key b'\n' ∷ key b'\n' ∷ key b'\n' ∷ []
