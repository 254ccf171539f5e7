-- ===== src/Pointers.antt =====
-- Camera.cpp and Camera2.cpp: a `Camera` that is a local object of `main`. Its two pointers have no
-- initialiser, so they have a value only from the assignment in `InitResource` on; what reads one
-- before that is undefined. The assignment of each is that of the result of its `malloc`.
use aggregation.Base.{◌≡◌, Bool, true, false, [], ◌∷◌, if◌then◌else◌, arith}
use aggregation.Sdk.{
  Frame, Trace, malloc_data, malloc_info, mutex_destroy, mutex_lock, mutex_unlock,
}
use aggregation.Station.{Station, M, ok, fault, unset_value, ◌>>◌, modify, does}
use aggregation.Camera
use aggregation.Camera.{free_data_buf, free_image_info}
use aggregation.Camera.Image
use aggregation.Camera.Image.{copy_info, copy_data}

abbrev pub data_assigned : Trace → Bool
data_assigned [] = false
data_assigned (malloc_data n ∷ t) = true
data_assigned (c ∷ t) = data_assigned t

abbrev pub info_assigned : Trace → Bool
info_assigned [] = false
info_assigned (malloc_info ∷ t) = true
info_assigned (c ∷ t) = info_assigned t

-- A read of a pointer.
abbrev pub assigned : (Trace → Bool) → M (Unit {0})
assigned f s = if f s.trace then ok tt s else fault unset_value

unfoldable pub free_buffers : M (Unit {0})
unfolding free_data_buf free_image_info
free_buffers = do
  assigned data_assigned
  modify free_data_buf
  assigned info_assigned
  modify free_image_info
  does mutex_destroy

unfoldable pub copy_frame : Frame → M (Unit {0})
unfolding copy_info copy_data
copy_frame f = do
  does mutex_lock
  assigned info_assigned
  modify (copy_info f.info)
  assigned data_assigned
  modify (copy_data f)
  does mutex_unlock

abbrev pub IsAssigned : Station → Type 0
IsAssigned s = (data_assigned s.trace ≡ true) × (info_assigned s.trace ≡ true)

pub free_buffers-assigned : (s : Station) → IsAssigned s → free_buffers s ≡ Camera.free_buffers s
unfolding free_buffers Camera.free_buffers
free_buffers-assigned s a = ground (arith, a.0, a.1)

pub copy_frame-assigned :
    (f : Frame) (s : Station) → IsAssigned s → copy_frame f s ≡ Image.copy_frame f s
unfolding copy_frame Image.copy_frame
copy_frame-assigned f s a = ground (arith, a.0, a.1)
