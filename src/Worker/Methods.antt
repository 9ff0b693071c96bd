-- ===== src/Worker/Methods.antt =====
-- The methods of `Worker`. The records of a section hold what a worker is built with and the
-- parameters that stand for libraries.
use base_guard.Base.{
  ℕ, String, Bool, not, ◌&&◌, List, [], ◌∷◌, reverse, Option, none, some, drop, select, ltb, ◌==◌,
  str_eq, not_exist, message, Result, ok, err, ◌⊕◌, itoa, collect, if◌then◌else◌,
}
use base_guard.FilePath.{join}
use base_guard.Disk.{Bytes}
use base_guard.Model.{Database, Run, ConnectionInfo, json, Cron, schedule, magnitude}
use base_guard.Security.{Cipher}
use base_guard.Store.Tables.{
  advance, enqueue_due, interrupt_running, set_client_info, set_path, succeed, fail, note_error,
  expire, is_running, is_success, rows_matching,
}
use base_guard.Store.Methods.{databases, database, claim_run, scan_run}
use base_guard.Exec.{Io, pure, lift, query, exec, run, transaction, try_io, time_now, ◌>>=◌, ◌>>◌}
use base_guard.Backup.Destination.{open_destination, remove_file, touch}
use base_guard.Backup.Write.{Executor, write_backup, partial_of}
use base_guard.Worker.Stamp.{stamp}

pub record Worker : Type 0 where
  pub key : Bytes
  pub destinations : List (String × String)
  pub executor : Executor
  pub cipher : Cipher
  pub cron : Cron
  pub digest : Bytes → String

-- A call whose error is dropped.
unfoldable pub ignore : {A : Type 0} → Io A → Io (Unit {0})
ignore m = try_io m >>= λ _. pure tt

module _ (w : Worker) where
  -- One round of the loop of `Recover`.
  unfoldable pub drop_partial : Run → Io (Unit {0})
  drop_partial r =
      if str_eq r.path ""
      then pure tt
      else ignore (
          open_destination w.destinations r.destination >>= λ root.
          ignore (remove_file root (partial_of r.path)))

  unfoldable pub drop_partials : List Run → Io (Unit {0})
  drop_partials [] = pure tt
  drop_partials (r ∷ rs) = drop_partial r >> drop_partials rs

  unfoldable pub recover : Io (Unit {0})
  recover = do
    rows ← query (λ t. select (λ r. is_running r.status) t.runs)
    rs ← lift (collect scan_run rows)
    drop_partials rs
    now ← time_now
    run (interrupt_running now)

  abbrev pub due : ℕ → Database → Bool
  due now d = d.enabled && not (ltb now d.next_run)

  -- The transaction of `Schedule`: the planned time moves on, and only then a run is queued.
  unfoldable pub plan : ℕ → String → Database → (ℕ → ℕ) → Io (Unit {0})
  plan now trigger d next = transaction do
    n ← exec (advance d.id (next now) d.next_run) (λ t.
        rows_matching (λ r. r.id == d.id && r.enabled && r.next_run == d.next_run) t.databases)
    if ltb 0 n then run (enqueue_due d trigger now) else pure tt

  unfoldable pub schedule_one : ℕ → String → Database → Io (Unit {0})
  schedule_one now trigger d =
      if due now d then lift (schedule w.cron d) >>= plan now trigger d else pure tt

  unfoldable pub schedule_list : ℕ → String → List Database → Io (Unit {0})
  schedule_list now trigger [] = pure tt
  schedule_list now trigger (d ∷ ds) = schedule_one now trigger d >> schedule_list now trigger ds

  -- `Schedule`
  unfoldable pub schedule_all : ℕ → String → Io (Unit {0})
  schedule_all now trigger = do ds ← databases w.cipher w.key; schedule_list now trigger ds

  -- `err != nil && !errors.Is(err, os.ErrNotExist)`
  abbrev pub tolerate : Result (Unit {0}) → Result (Unit {0})
  tolerate (ok a) = ok a
  tolerate (err not_exist) = ok tt
  tolerate (err e) = err e

  unfoldable pub expire_run : Run → Io (Unit {0})
  expire_run r = do
    root ← open_destination w.destinations r.destination
    gone ← try_io (remove_file root r.path)
    lift (tolerate gone)
    run (expire r.id)

  unfoldable pub expire_runs : List Run → Io (Unit {0})
  expire_runs [] = pure tt
  expire_runs (r ∷ rs) = expire_run r >> expire_runs rs

  -- `Retain`; SQLite reads a negative OFFSET as 0.
  unfoldable pub retain : Database → Io (Unit {0})
  retain d = do
    rows ← query (λ t.
        drop (magnitude d.retain)
          (reverse (select (λ r. r.database_id == d.id && is_success r.status) t.runs)))
    rs ← lift (collect scan_run rows)
    expire_runs rs

  abbrev pub extension : Database → String
  extension d = if str_eq d.engine "postgres" then ".dump" else ".sql.gz"

  unfoldable pub backup_path : Database → Run → String
  backup_path d r =
      join (join d.subdir ("db-" ⊕ itoa d.id)) (stamp r.created ⊕ "-" ⊕ itoa r.id ⊕ extension d)

  abbrev pub noted : Run → Result (Unit {0}) → Io (Unit {0})
  noted r (ok _) = pure tt
  noted r (err e) =
      ignore (run (note_error r.id ("Backup concluído; retenção pendente: " ⊕ message e)))

  -- The end of `backupWithExecutor`, once the file is in place.
  unfoldable pub finish_backup : Database → Run → ℕ × String → Io (Unit {0})
  finish_backup d r (size, sum) = do
    now ← time_now
    run (succeed r.id size sum now)
    kept ← try_io (retain d)
    noted r kept

  -- `backupWithExecutor`
  unfoldable pub backup : Database → Run → Io (Unit {0})
  backup d r = do
    root ← open_destination w.destinations d.destination
    touch
    run (set_path r.id d.destination (backup_path d r))
    written ← write_backup w.digest root (backup_path d r) d w.executor
    finish_backup d r written

  -- `Prepare`, whose details are stored, or `Check`.
  abbrev pub prepare_with :
      Option (Database → Result ConnectionInfo) → Database → Run → Io (Unit {0})
  prepare_with none d r = lift (w.executor.check d) >>= λ _. pure tt
  prepare_with (some prepare) d r = do
    info ← lift (prepare d)
    run (set_client_info r.id (json info))

  unfoldable pub attempt_backup : Run → Io (Unit {0})
  attempt_backup r = do
    d ← database w.cipher w.key r.database_id
    prepare_with w.executor.prepare d r
    backup d r

  abbrev pub recorded : Run → Result (Unit {0}) → Io (Unit {0})
  recorded r (ok _) = pure tt
  recorded r (err e) = time_now >>= λ now. ignore (run (fail r.id now (message e)))

  -- `execute`
  unfoldable pub execute : Run → Io (Unit {0})
  execute r = try_io (attempt_backup r) >>= recorded r

  -- One tick of the loop in `Start`: nothing queued, or an error, ends it.
  unfoldable pub tick : Io (Unit {0})
  tick = claim_run >>= execute
