-- ===== src/SaveImage/Threads/Tests/Runs.antt =====
-- Examples of what is proved of the two threads of SaveImage.cpp: their files, and their end.
use aggregation.Base.{◌+◌, ◌*◌, ◌≤◌, ◌≡◌, ◌⊎◌, refl, true, none, some, [], ◌∷◌, ◌++◌, All, length}
use aggregation.Sdk.{fopen, fwrite, fclose, mutex_lock, mutex_unlock}
use aggregation.Station.{Station, ok}
use aggregation.Camera.Image.{read_frame}
use aggregation.Sample.{reader}
use aggregation.SaveImage.Files.{stamp, raw_ext, raw_file, save_raw_image}
use aggregation.SaveImage.Tests.{noon}
use aggregation.SaveImage.Threads.{
  System, checks, gone, reads, joins, joined, start, save, raw, set_exit, read_key, Step, writes,
  read, leaves, meets, next, here,
}
use aggregation.SaveImage.Threads.Mutex.{inside}
use aggregation.SaveImage.Threads.Contents.{bodies, reads_locked, Content, bodies-Content}
use aggregation.SaveImage.Threads.Return.{steps, steps-over_bound}
use aggregation.SaveImage.Threads.Steady.{is_over}
use aggregation.SaveImage.Threads.Typing.{main_steps, is_main, main_steps_bound}
use aggregation.SaveImage.Threads.Tests.{
  ready, ready-IsReady, reader-Fits, reader-NoJpeg, keys, Goes, saving, to_save,
}

-- The file is written.
abbrev written : Station
written = record saving.station {
  trace =
      fclose
      ∷ mutex_unlock
      ∷ fwrite (1 ∷ 2 ∷ 3 ∷ [])
      ∷ fopen (stamp (noon []) ++ raw_ext)
      ∷ mutex_lock
      ∷ saving.station.trace;
}

abbrev done : System
done = record { station = written; mutex = none; grab = checks; main = reads (b'\n' ∷ []) }

save-written : save reader noon (some 1) raw saving.station ≡ ok tt written
unfolding save save_raw_image raw_file read_frame
save-written = refl

to_done : Goes (start ready keys) done
to_done = next to_save (writes raw (b'\n' ∷ []) written refl save-written refl)

bodies-Content_example :
    (reads_locked written.trace ≡ true) × All (Content reader) (bodies written.trace)
bodies-Content_example =
    bodies-Content reader noon (some 1) ready keys ready-IsReady reader-Fits refl refl to_done

main_steps_bound_example :
    (main_steps reader noon (some 1) to_done ≤ 3 * length keys + 2)
    × ((is_over done.main ≡ true)
        ⊎ ((inside done.grab ≡ true)
            ⊎ ((w : System) × (st : Step reader noon (some 1) done w) × (is_main reader noon
                    (some 1)
                    st
                  ≡ true))))
main_steps_bound_example =
    main_steps_bound reader noon (some 1) ready keys ready-IsReady reader-Fits reader-NoJpeg refl
      to_done

-- Enter ends the key loop.
abbrev back : System
back = record {
  station = record written { exit = true };
  mutex = none;
  grab = checks;
  main = joins;
}

to_back : Goes (start ready keys) back
unfolding read_key set_exit
to_back = next to_done (read b'\n' [] refl refl)

abbrev over : System
over = record back { grab = gone; main = joined }

to_over : Goes back over
to_over = next (next here (leaves refl refl refl)) (meets refl refl refl)

steps-over_bound_example :
    (steps reader noon (some 1) to_over ≤ 7)
    × ((over.main ≡ joined) ⊎ ((w : System) × Step reader noon (some 1) over w))
steps-over_bound_example =
    steps-over_bound reader noon (some 1) ready keys ready-IsReady reader-Fits reader-NoJpeg refl
      to_back refl to_over
