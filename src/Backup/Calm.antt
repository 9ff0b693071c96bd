-- ===== src/Backup/Calm.antt =====
-- The file operations where nothing fails.
use base_guard.Base.{◌≡◌, refl, ap, ◌∙◌, String, true, Option, none, some, ok, str_eq, eq_iff}
use base_guard.Disk.{Disk, Bytes, put_file}
use base_guard.Exec.{World}
use base_guard.Exec.Inversion.{Calm, attempt-Calm}
use base_guard.Backup.Destination.{
  touch, found, read_file, create_file, create_new, write_file, remove_file, remove_found, set_file,
}

pub read_file-Calm :
    (root path : String) (w : World)
    → Calm w
    → read_file root path w ≡ (found (w.disk.file root path), w)
unfolding read_file
read_file-Calm root path w h = attempt-Calm _ w h

pub touch-Calm : (w : World) → Calm w → touch w ≡ (ok tt, w)
unfolding touch
touch-Calm w h = attempt-Calm _ w h

pub write_file-Calm :
    (root path : String) (b : Bytes) (w : World)
    → Calm w
    → write_file root path b w ≡ (ok tt, set_file root path (some b) w)
unfolding write_file
write_file-Calm root path b w h = attempt-Calm _ w h

pub create_file-Calm :
    (root path : String) (b : Bytes) (w : World)
    → Calm w
    → w.disk.file root path ≡ none
    → create_file root path b w ≡ (ok tt, set_file root path (some b) w)
unfolding create_file
create_file-Calm root path b w h absent =
    attempt-Calm _ w h ∙ ap (λ o. create_new root path b o w) absent

pub remove_file-Calm :
    (root path : String) (b : Bytes) (w : World)
    → Calm w
    → w.disk.file root path ≡ some b
    → remove_file root path w ≡ (ok tt, set_file root path none w)
unfolding remove_file
remove_file-Calm root path b w h there =
    attempt-Calm _ w h ∙ ap (λ o. remove_found root path o w) there

pub file-put_self :
    (root path : String) (o : Option Bytes) (k : Disk) → (put_file root path o k).file root path ≡ o
unfolding put_file
file-put_self root path o k =
    let r : str_eq root root ≡ true = (eq_iff root root).1 refl in
    let p : str_eq path path ≡ true = (eq_iff path path).1 refl in rw (r, p) refl
