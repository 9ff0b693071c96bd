-- ===== src/Server/Intact.antt =====
-- Every order of the calls of the worker, the scheduler and the pages, and the files of the successful runs.
use base_guard.Base.{sym, subst, List, [], ◌∷◌, Result, ok, err}
use base_guard.Disk.{Disk}
use base_guard.Store.Tables.{Tables}
use base_guard.Store.Invariant.{IsSound}
use base_guard.Exec.{World, Io}
use base_guard.Exec.Leads.{Outcome}
use base_guard.Exec.Keeps.{Keeps}
use base_guard.Exec.Ends.{Dry}
use base_guard.Worker.Methods.{Worker, recover, schedule_all, tick}
use base_guard.Server.Panel.{save_form, enqueue_id, toggle, delete}
use base_guard.Worker.Law.{Law-schedule_all}
use base_guard.Worker.Intact.{Files}
use base_guard.Worker.Intact.Statements.{Files-law}
use base_guard.Worker.Intact.Rounds.{tick-Files, recover-Files}
use base_guard.Server.Law.{Law-save_form, Law-enqueue_id, Law-toggle, Law-delete}
use base_guard.Server.Dry.{Dry-save_form, Dry-enqueue_id, Dry-toggle, Dry-delete, Dry-schedule_all}
use base_guard.Server.History.{
  Call, saved, enqueued, toggled, deleted, recovered, scheduled, ticked, after_call, after,
  after_call-IsSound,
}

module _ (w : Worker) where
  abbrev IsIntact : World → Type 0
  IsIntact v = Files w v.tables.runs v.disk

  -- A call that leaves the disk alone.
  Dry-Files :
      {A : Type 0} (m : Io A)
      → Dry m
      → ((k : Disk) → Keeps (λ t. Files w t.runs k) m)
      → (v : World) → IsIntact v
      → IsIntact (m v).1
  Dry-Files m d k v h =
      subst (λ (x : Disk). Files w (m v).1.tables.runs x) (sym (d.at v)) ((k v.disk).at v h)

  either-Files :
      {A : Type 0} (r : Result A) (t : Tables) (k : Disk)
      → Outcome (λ _ u. Files w u.runs k) (λ u. Files w u.runs k) r t
      → Files w t.runs k
  either-Files (ok a) t k h = h
  either-Files (err e) t k h = h

  after_call-Files :
      (c : Call) (v : World) → IsSound v.tables → IsIntact v → IsIntact (after_call w c v)
  unfolding after_call
  after_call-Files (saved form) v s h =
      Dry-Files (save_form w form) (Dry-save_form w form)
        (λ k. Law-save_form w (Files-law w k) form) v h
  after_call-Files (enqueued id) v s h =
      Dry-Files (enqueue_id w id) (Dry-enqueue_id w id) (λ k. Law-enqueue_id w (Files-law w k) id) v
        h
  after_call-Files (toggled id) v s h =
      Dry-Files (toggle w id) (Dry-toggle w id) (λ k. Law-toggle w (Files-law w k) id) v h
  after_call-Files (deleted id) v s h =
      Dry-Files (delete w id) (Dry-delete w id) (λ k. Law-delete w (Files-law w k) id) v h
  after_call-Files recovered v s h =
      either-Files (recover w v).0 (recover w v).1.tables (recover w v).1.disk
        ((recover-Files w).at v h)
  after_call-Files (scheduled now trigger) v s h =
      Dry-Files (schedule_all w now trigger) (Dry-schedule_all w now trigger)
        (λ k. Law-schedule_all w (Files-law w k) now trigger) v h
  after_call-Files ticked v s h =
      either-Files (tick w v).0 (tick w v).1.tables (tick w v).1.disk ((tick-Files w).at v (s, h))

  -- The files are intact when the path of every successful run carries its id, and the file there, in the
  -- destination that the run names, has the size and the digest of the run, or there is none. From sound tables
  -- with intact files, after any list of calls of the handlers `save_form`, `enqueue_id`, `toggle` and `delete`,
  -- and of `recover`, `schedule_all` and `tick`, whichever of their statements and file operations fail: the
  -- files are intact.
  pub after-Files :
      (cs : List Call) (v : World)
      → IsSound v.tables
      → Files w v.tables.runs v.disk
      → Files w (after w cs v).tables.runs (after w cs v).disk
  unfolding after
  after-Files [] v s h = h
  after-Files (c ∷ cs) v s h =
      after-Files cs (after_call w c v) (after_call-IsSound w c v s) (after_call-Files c v s h)
