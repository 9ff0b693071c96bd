-- ===== src/Backup/Keeps.antt =====
-- The file operations leave the tables alone.
use base_guard.Base.{String, List, Option, none, some, Result, ok, err, Error}
use base_guard.Disk.{Bytes}
use base_guard.Model.{Database}
use base_guard.Store.Tables.{Tables}
use base_guard.Exec.{World, Io}
use base_guard.Exec.Keeps.{Keeps, Keeps-attempt, keeps_rules}
use base_guard.Backup.Destination.{
  touch, read_file, create_new, create_file, write_file, remove_found, remove_file, move,
  rename_file, open_root, open_destination,
}
use base_guard.Backup.Write.{
  Executor, after_failure, or_remove, sync_directory, fill_backup, write_backup,
}

module _ {P : Tables → Type 0} where
  pub Keeps-touch : Keeps P touch
  unfolding touch
  Keeps-touch = Keeps-attempt _ (λ w h. h)

  pub Keeps-read_file : (root path : String) → Keeps P (read_file root path)
  unfolding read_file
  Keeps-read_file root path = Keeps-attempt _ (λ w h. h)

  pub Keeps-write_file : (root path : String) (b : Bytes) → Keeps P (write_file root path b)
  unfolding write_file
  Keeps-write_file root path b = Keeps-attempt _ (λ w h. h)

  pub Keeps-open_root : (p : String) → Keeps P (open_root p)
  unfolding open_root
  Keeps-open_root p = Keeps-attempt _ (λ w h. h)

module _ (P : Tables → Type 0) (root path : String) where
  create_new-keep :
      (b : Bytes) (o : Option Bytes) (w : World)
      → P w.tables
      → P (create_new root path b o w).1.tables
  create_new-keep b none w h = h
  create_new-keep b (some c) w h = h

  remove_found-keep :
      (o : Option Bytes) (w : World) → P w.tables → P (remove_found root path o w).1.tables
  remove_found-keep none w h = h
  remove_found-keep (some c) w h = h

  move-keep :
      (to : String) (o : Option Bytes) (w : World) → P w.tables → P (move root path to o w).1.tables
  move-keep to none w h = h
  move-keep to (some c) w h = h

module _ {P : Tables → Type 0} where
  pub Keeps-create_file : (root path : String) (b : Bytes) → Keeps P (create_file root path b)
  unfolding create_file
  Keeps-create_file root path b =
      Keeps-attempt _ (λ w h. create_new-keep P root path b (w.disk.file root path) w h)

  pub Keeps-remove_file : (root path : String) → Keeps P (remove_file root path)
  unfolding remove_file
  Keeps-remove_file root path =
      Keeps-attempt _ (λ w h. remove_found-keep P root path (w.disk.file root path) w h)

  pub Keeps-rename_file : (root from to : String) → Keeps P (rename_file root from to)
  unfolding rename_file
  Keeps-rename_file root from to =
      Keeps-attempt _ (λ w h. move-keep P root from to (w.disk.file root from) w h)

ruleset file_rules = (
  keeps_rules, Keeps-touch, Keeps-read_file, Keeps-write_file, Keeps-open_root, Keeps-create_file,
  Keeps-remove_file, Keeps-rename_file,
)

module _ (P : Tables → Type 0) where
  after_failure-keep :
      {A : Type 0} (root part : String) (r : Result A) (w : World)
      → P w.tables
      → P (after_failure root part r w).1.tables
  after_failure-keep root part (ok a) w h = h
  after_failure-keep root part (err e) w h = (Keeps-remove_file {P = P} root part).at w h

module _ {P : Tables → Type 0} where
  pub Keeps-or_remove :
      {A : Type 0} (root part : String) (m : Io A) → Keeps P m → Keeps P (or_remove root part m)
  unfolding or_remove
  Keeps-or_remove root part m k = record {
    at = λ w h. let (r, w') = m w in after_failure-keep P root part r w' (k.at w h);
  }

  pub Keeps-open_destination :
      (destinations : List (String × String)) (name : String)
      → Keeps P (open_destination destinations name)
  unfolding open_destination
  Keeps-open_destination destinations name = search file_rules depth 8

  Keeps-sync_directory : Keeps P sync_directory
  unfolding sync_directory
  Keeps-sync_directory = search file_rules depth 8

  Keeps-fill_backup :
      (digest : Bytes → String) (root path : String) (dumped : Bytes × Option Error)
      → Keeps P (fill_backup digest root path dumped)
  unfolding fill_backup
  Keeps-fill_backup digest root path (bytes, end) =
      search (file_rules, Keeps-sync_directory) depth 12

  pub Keeps-write_backup :
      (digest : Bytes → String) (root path : String) (d : Database) (ex : Executor)
      → Keeps P (write_backup digest root path d ex)
  unfolding write_backup
  Keeps-write_backup digest root path d ex =
      search (file_rules, Keeps-or_remove, Keeps-fill_backup) depth 8
