-- ===== src/Worker/Intact/Retention.antt =====
-- The retention and the files of the successful runs, with the steps that leave them alone.
use base_guard.Base.{refl, String, List, [], ◌∷◌, Option, none, some, Result, ok, err, collect}
use base_guard.Disk.{Disk, Bytes, put_file}
use base_guard.Model.{Database, Run}
use base_guard.Store.Tables.{Tables, note_error, expire}
use base_guard.Store.Methods.{scan_run}
use base_guard.Store.Law.{Law-run}
use base_guard.Exec.{World, Io, lift, query, run, try_io}
use base_guard.Exec.Keeps.{Keeps, Keeps-run, Keeps-lift, Keeps-query}
use base_guard.Exec.Leads.{Outcome, Leads-keep}
use base_guard.Exec.Ends.{
  Dry, Dry-run, Dry-lift, Dry-query, Ends, Ends-pure, Ends-Dry, Ends-bind, Ends-attempt,
  Ends-either,
}
use base_guard.Backup.Destination.{remove_found, remove_file, open_destination}
use base_guard.Backup.Keeps.{Keeps-open_destination}
use base_guard.Backup.Elsewhere.{Dry-open_destination}
use base_guard.Worker.Methods.{Worker, ignore, tolerate, expire_run, expire_runs, retain, noted}
use base_guard.Worker.Retention.{surplus}
use base_guard.Worker.Intact.{Files, Files-removed}
use base_guard.Worker.Intact.Statements.{Files-law, expire-Files}

module _ {A : Type 0} {P E : Tables → Disk → Type 0} where
  -- A step that leaves the disk alone and keeps the predicate.
  pub Ends-kept :
      (m : Io A)
      → Dry m
      → ((k : Disk) → Keeps (λ t. P t k) m)
      → ((t : Tables) (k : Disk) → P t k → E t k)
      → Ends P (λ _. P) E m
  Ends-kept m d kept e = Ends-Dry m d (λ k. Leads-keep m (kept k) (λ t h. e t k h) (λ _ t h. h))

pub Ends-remove :
    {P : Tables → Disk → Type 0} (root path : String)
    → ((t : Tables) (k : Disk) → P t k → P t (put_file root path none k))
    → Ends P (λ _. P) P (remove_file root path)
unfolding remove_file
Ends-remove {P} root path closed =
    Ends-attempt _ (λ t k h. h) (λ w h. go (w.disk.file root path) w h)
  where
    go :
        (o : Option Bytes) (w : World)
        → P w.tables w.disk
        → Outcome
            (λ _ t. P t (remove_found root path o w).1.disk)
            (λ t. P t (remove_found root path o w).1.disk)
            (remove_found root path o w).0
            (remove_found root path o w).1.tables
    go none w h = h
    go (some b) w h = closed w.tables w.disk h

pub Ends-ignore :
    {A : Type 0} {P Q E : Tables → Disk → Type 0} (m : Io A)
    → Ends P (λ _. Q) Q m
    → Ends P (λ _. Q) E (ignore m)
unfolding ignore
Ends-ignore m k = Ends-bind (try_io m) _ (Ends-either m k) (λ _. Ends-pure tt (λ t d h. h))

module _ (w : Worker) where
  abbrev pub Filed : Tables → Disk → Type 0
  Filed t k = Files w t.runs k

  expire_run-Files : (r : Run) → Ends Filed (λ _. Filed) Filed (expire_run w r)
  unfolding expire_run
  expire_run-Files r =
      Ends-bind (open_destination w.destinations r.destination) _
        (Ends-kept _ (Dry-open_destination w.destinations r.destination)
          (λ k. Keeps-open_destination w.destinations r.destination) (λ t k h. h))
        λ root.
          Ends-bind (try_io (remove_file root r.path)) _
            (Ends-either _
              (Ends-remove root r.path (λ t k h. Files-removed w root r.path k t.runs h)))
            λ gone.
              Ends-bind (lift (tolerate w gone)) _
                (Ends-kept _ (Dry-lift (tolerate w gone)) (λ k. Keeps-lift (tolerate w gone))
                  (λ t k h. h))
                λ _.
                  Ends-kept (run (expire r.id)) (Dry-run (expire r.id))
                    (λ k. Keeps-run (expire r.id) (λ t _ h. expire-Files w k r.id t h)) (λ t k h. h)

  expire_runs-Files : (rs : List Run) → Ends Filed (λ _. Filed) Filed (expire_runs w rs)
  unfolding expire_runs
  expire_runs-Files [] = Ends-pure tt (λ t k h. h)
  expire_runs-Files (r ∷ rs) =
      Ends-bind (expire_run w r) _ (expire_run-Files r) (λ _. expire_runs-Files rs)

  pub retain-Files : (d : Database) → Ends Filed (λ _. Filed) Filed (retain w d)
  unfolding retain
  retain-Files d =
      Ends-bind (query (surplus d)) _
        (Ends-kept _ (Dry-query (surplus d)) (λ k. Keeps-query (surplus d)) (λ t k h. h))
        λ rows.
          Ends-bind (lift (collect scan_run rows)) _
            (Ends-kept _ (Dry-lift (collect scan_run rows))
              (λ k. Keeps-lift (collect scan_run rows)) (λ t k h. h))
            expire_runs-Files

  pub noted-Files :
      {E : Tables → Disk → Type 0} (r : Run) (o : Result (Unit {0}))
      → Ends Filed (λ _. Filed) E (noted w r o)
  noted-Files r (ok a) = Ends-pure tt (λ t k h. h)
  noted-Files r (err e) = Ends-ignore (run (note_error r.id _)) (
      Ends-kept _ (Dry-run (note_error r.id _))
        (λ k. Law-run (Files-law w k) (note_error r.id _) refl) (λ t k h. h))
