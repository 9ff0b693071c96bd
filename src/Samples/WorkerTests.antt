-- ===== src/Samples/WorkerTests.antt =====
-- The worker's theorems, and runs of it, on the sample world.
use mathlib.Core.List.{flatten}
use base_guard.Worker.Recovery.{interrupted_at, recover-none_running}
use base_guard.Backup.Marker.{open_destination-marked}
use base_guard.Worker.Settled.{execute-IsSettled}
use base_guard.Base.{
  ◌==◌, ◌&&◌, some, true, any, map, false, ℕ, suc, ◌+◌, ◌≤◌, ◌≡◌, ◌⊎◌, refl, String, Bool, true,
  List, [], ◌∷◌, Option, none, some, Result, ok, length, take, ◌<◌,
}
use base_guard.Disk.{Bytes, put_file, utf8, bytes_eq}
use base_guard.Security.{decrypt, unboxed}
use base_guard.Store.Methods.{
  claim_run, database, databases, load_row, load_config, with_row, scan_run,
}
use base_guard.Backup.Destination.{
  marker, touch, read_file, create_file, write_file, rename_file, open_destination, open_root,
  lookup,
}
use base_guard.Samples.Toy.{toy, text_of}
use base_guard.Model.{Run, running, default_database}
use base_guard.Store.Tables.{
  is_active, is_running, queued_run, active_for, rows_matching, apply, conflicts,
}
use base_guard.Store.Invariant.{IsSound}
use base_guard.Exec.{
  World, pure, raise, lift, gets, ◌>>=◌, attempt, query, exec, run, transaction, try_io, time_now,
}
use base_guard.Backup.Write.{write_backup, or_remove, fill_backup, sync_directory}
use base_guard.Backup.Buffer.{limit, write, write_all, write_all-eq-take}
use base_guard.Backup.Stored.{IsStored, write_backup-IsStored}
use base_guard.Worker.Methods.{
  recover, drop_partial, drop_partials, plan, tick, execute, attempt_backup, backup, finish_backup,
  retain, expire_runs,
}
use base_guard.Base.{Error, err}
use base_guard.Exec.Inversion.{Calm}
use base_guard.Worker.Planning.{Moved, Planned, plan-atomic}
use base_guard.Server.History.{
  Call, saved, enqueued, toggled, deleted, recovered, scheduled, ticked, after, after-one_active,
}
use base_guard.Base.{first}
use base_guard.Store.Tables.{is_success}
use base_guard.Store.Methods.{run_by_id}
use base_guard.Worker.Intact.{Files}
use base_guard.Server.Intact.{after-Files}
use base_guard.Server.Download.{download-whole}
use base_guard.Server.Panel.{content, download}
use base_guard.Server.History.{after_call}
use base_guard.Samples.Worlds.{
  worker, executor, shop, stored_shop, world, idle_world, tables-IsSound, idle_tables-IsSound,
}

abbrev calls : List Call
calls =
    scheduled 120 "schedule"
    ∷ ticked
    ∷ saved shop
    ∷ enqueued 1
    ∷ toggled 1
    ∷ deleted 1
    ∷ recovered
    ∷ []

after-one_active_example :
    IsSound (after worker calls world).tables
    × ((d : ℕ) → rows_matching (active_for d) (after worker calls world).tables.runs ≤ 1)
after-one_active_example = after-one_active worker calls world tables-IsSound

abbrev next : ℕ → ℕ
next now = now + 3600

abbrev planned : Result (Unit {0}) × World
planned = plan worker 120 "schedule" stored_shop next idle_world

plan-atomic_example :
    ((e : Error) × (planned.0 ≡ err e)
      × (Calm idle_world → ⊥)
      × (planned.1.tables ≡ idle_world.tables))
    ⊎ (((planned.0 ≡ ok tt)
          × Moved stored_shop idle_world.tables
          × (planned.1.tables ≡ idle_world.tables))
        ⊎ ((planned.0 ≡ ok tt) × Planned stored_shop (next 120) idle_world.tables planned.1.tables))
plan-atomic_example =
    plan-atomic worker 120 "schedule" stored_shop next idle_world idle_tables-IsSound

planned_test : length planned.1.tables.runs ≡ 1
unfolding plan pure raise lift gets ◌>>=◌ attempt query exec run transaction try_io time_now apply
    conflicts
planned_test = refl

abbrev written : Result (ℕ × String) × World
written = write_backup worker.digest "/mnt/nas" "shop.dump" shop executor world

written_test : written ≡ (ok (3, "digest"), written.1)
unfolding write_backup or_remove fill_backup sync_directory touch read_file create_file write_file
    rename_file put_file pure raise lift gets ◌>>=◌ attempt query exec run transaction try_io
    time_now
written_test = refl

ticked_test : (tick worker world).0 ≡ ok tt
unfolding tick execute attempt_backup backup finish_backup retain expire_runs claim_run database
    databases load_row load_config with_row decrypt unboxed scan_run open_destination open_root
    lookup utf8 bytes_eq write_backup or_remove fill_backup sync_directory touch read_file
    create_file write_file rename_file put_file toy text_of default_database apply conflicts pure
    raise lift gets ◌>>=◌ attempt query exec run transaction try_io time_now base_guard.Base.collect
    base_guard.Worker.Methods.backup_path base_guard.FilePath.join base_guard.Base.itoa
    base_guard.Worker.Stamp.stamp base_guard.Base.pad4
ticked_test = refl

write_backup-IsStored_example :
    ((executor.dump shop).1 ≡ none)
    × (0 < length (executor.dump shop).0)
    × (3 ≡ length (executor.dump shop).0)
    × ("digest" ≡ worker.digest (executor.dump shop).0)
    × (written.1.tables ≡ world.tables)
    × IsStored "/mnt/nas" "shop.dump" (executor.dump shop).0 world.disk written.1.disk
write_backup-IsStored_example =
    write_backup-IsStored worker.digest "/mnt/nas" "shop.dump" shop executor world written.1 3
      "digest" written_test

write_all-eq-take_example :
    (write_all [] ((1 ∷ 2 ∷ []) ∷ (3 ∷ []) ∷ [])
      ≡ take limit (flatten ((1 ∷ 2 ∷ []) ∷ (3 ∷ []) ∷ [])))
    × ((b p : Bytes) → (write b p).1 ≡ length p)
write_all-eq-take_example = write_all-eq-take ((1 ∷ 2 ∷ []) ∷ (3 ∷ []) ∷ [])

-- The sample world after a crash in the middle of its run.
abbrev crashed : World
crashed = record world {
  tables = record world.tables {
    runs = record (queued_run 1 stored_shop "manual" 50) { status = running } ∷ [];
  };
}

abbrev recovered_world : World
recovered_world = (recover worker crashed).1

recovered_test : recover worker crashed ≡ (ok tt, recovered_world)
unfolding recover drop_partials drop_partial scan_run base_guard.Base.collect pure raise lift gets
    ◌>>=◌ attempt query exec run try_io time_now apply conflicts
recovered_test = refl

recover-none_running_example :
    (any (λ r. is_running r.status) recovered_world.tables.runs ≡ false)
    × ((now : ℕ) × (recovered_world.tables
          ≡ record crashed.tables { runs = map (interrupted_at now) crashed.tables.runs }))
recover-none_running_example = recover-none_running worker crashed recovered_world recovered_test

abbrev opened_world : World
opened_world = (open_destination worker.destinations "nas" world).1

opened_test : open_destination worker.destinations "nas" world ≡ (ok "/mnt/nas", opened_world)
unfolding open_destination open_root read_file lookup utf8 bytes_eq pure raise lift gets ◌>>=◌
    attempt try_io
opened_test = refl

open_destination-marked_example :
    (lookup "nas" worker.destinations ≡ some "/mnt/nas")
    × (world.disk.is_root "/mnt/nas" ≡ true)
    × (world.disk.file "/mnt/nas" marker ≡ some (utf8 "nas"))
    × (opened_world.tables ≡ world.tables)
    × (opened_world.disk ≡ world.disk)
open_destination-marked_example =
    open_destination-marked worker.destinations "nas" "/mnt/nas" world opened_world opened_test

abbrev first_run : Run
first_run = queued_run 1 stored_shop "manual" 50

calm_test : (attempt_backup worker first_run world).1.faults ≡ []
unfolding tick execute attempt_backup backup finish_backup retain expire_runs claim_run database
    databases load_row load_config with_row decrypt unboxed scan_run open_destination open_root
    lookup utf8 bytes_eq write_backup or_remove fill_backup sync_directory touch read_file
    create_file write_file rename_file put_file toy text_of default_database apply conflicts pure
    raise lift gets ◌>>=◌ attempt query exec run transaction try_io time_now base_guard.Base.collect
    base_guard.Worker.Methods.backup_path base_guard.FilePath.join base_guard.Base.itoa
    base_guard.Worker.Stamp.stamp base_guard.Base.pad4
calm_test = refl

execute-IsSettled_example :
    any
      (λ q. q.id == first_run.id && is_active q.status)
      (execute worker first_run world).1.tables.runs
    ≡ false
execute-IsSettled_example = execute-IsSettled worker first_run world calm_test

after-Files_example :
    Files worker (after worker calls world).tables.runs (after worker calls world).disk
after-Files_example = after-Files worker calls world tables-IsSound ((λ e. cc e), tt)

abbrev ticked_world : World
ticked_world = after worker (ticked ∷ []) world

served_file :
    download worker 1 ticked_world
    ≡ (ok (content (1 ∷ 2 ∷ 3 ∷ []) "digest"), (download worker 1 ticked_world).1)
unfolding after after_call download run_by_id tick execute attempt_backup backup finish_backup
    retain expire_runs claim_run database databases load_row load_config with_row decrypt unboxed
    scan_run open_destination open_root lookup utf8 bytes_eq write_backup or_remove fill_backup
    sync_directory touch read_file create_file write_file rename_file put_file toy text_of
    default_database apply conflicts pure raise lift gets ◌>>=◌ attempt query exec run transaction
    try_io time_now base_guard.Base.collect base_guard.Worker.Methods.backup_path
    base_guard.FilePath.join base_guard.Base.itoa base_guard.Worker.Stamp.stamp base_guard.Base.pad4
served_file = refl

download-whole_example :
    (q : Run) × (first (λ x. x.id == 1) ticked_world.tables.runs ≡ some q)
    × (is_success q.status ≡ true)
    × ("digest" ≡ worker.digest (1 ∷ 2 ∷ 3 ∷ []))
    × (q.size ≡ length {A = ℕ} (1 ∷ 2 ∷ 3 ∷ []))
download-whole_example =
    download-whole worker (ticked ∷ []) world (download worker 1 ticked_world).1 1 (1 ∷ 2 ∷ 3 ∷ [])
      "digest" tables-IsSound ((λ e. cc e), tt) served_file
