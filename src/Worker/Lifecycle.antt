-- ===== src/Worker/Lifecycle.antt =====
-- The loop of `Start` and the lives of the runs: a run that ends is the running one that was
-- claimed.
use base_guard.Base.{
  ℕ, ◌≡◌, refl, ap, ◌∙◌, String, List, [], Option, none, some, ◌==◌, Result, ok, err, message,
}
use base_guard.Backup.Destination.{open_destination, touch}
use base_guard.Backup.Write.{write_backup}
use base_guard.Model.{Database, Run, ConnectionInfo, Json}
use base_guard.Store.Tables.{
  Tables, apply, is_running, set_client_info, set_path, succeed, fail, on_run,
}
use base_guard.Store.Methods.{databases, database, claim_run}
use base_guard.Store.Invariant.{IsSound}
use base_guard.Store.Lifecycle.{Each, Each-update}
use base_guard.Store.Lifecycle.Rows.{Lives}
use base_guard.Store.Lifecycle.Statements.{Lives-law, set_path-Lives, succeed-Lives, fail-Lives}
use base_guard.Exec.{Io, run, try_io, time_now}
use base_guard.Exec.Keeps.{Keeps, Keeps-run, Keeps-time_now, keeps_rules}
use base_guard.Exec.Leads.{
  Outcome, Leads, Leads-pure, Leads-keep, Leads-bind, Leads-try, Leads-run, Leads-either,
}
use base_guard.Backup.Keeps.{Keeps-touch, Keeps-open_destination, Keeps-write_backup}
use base_guard.Worker.Methods.{
  Worker, backup_path, retain, finish_backup, backup, prepare_with, attempt_backup, recorded,
  execute, tick,
}
use base_guard.Worker.Claiming.{Held, claim_run-Held}
use base_guard.Worker.Expiry.{ignore-lead, retain-Lives, noted-Lives}

module _ (w : Worker) (old : List Run) where
  finish_backup-Lives :
      (d : Database) (r : Run) (written : ℕ × String)
      → Leads (Held old r) (λ _. Lives old) (Held old r) (finish_backup w d r written)
  unfolding finish_backup
  finish_backup-Lives d r (size, sum) =
      Leads-bind time_now _ (Leads-keep time_now Keeps-time_now (λ t h. h) (λ _ t h. h)) λ now.
        Leads-bind {Q = λ _. Lives old} (run (succeed r.id size sum now)) _
          (Leads-run (succeed r.id size sum now) (λ t h. h)
            λ t h. succeed-Lives old r.id t h.0 size sum now h.1)
          λ _.
            Leads-bind (try_io (retain w d)) _ (Leads-try (retain w d) (retain-Lives w old d))
              (noted-Lives w old r)

  -- What the steps before the run ends do.
  Held-on_run :
      (r : Run) (id : ℕ) (f : Run → Run) (t : Tables)
      → ((q : Run) → (f q).id ≡ q.id)
      → ((q : Run) → (f q).status ≡ q.status)
      → Held old r t
      → Each is_running r.id (on_run id f t).runs
  Held-on_run r id f t same calm h =
      Each-update is_running r.id (λ q. q.id == id) f t.runs same
        (λ q e. ap is_running (calm q) ∙ e) h.1

  Held-set_client_info :
      (r : Run) (id : ℕ) (info : Json ConnectionInfo)
      → Keeps (Held old r) (run (set_client_info id info))
  unfolding apply
  Held-set_client_info r id info = Keeps-run (set_client_info id info) λ t _ h. (
    (Lives-law old).at (set_client_info id info) t refl h.0,
    Held-on_run r id _ t (λ q. refl) (λ q. refl) h,
  )

  Held-set_path :
      (r : Run) (id : ℕ) (destination path : String)
      → Keeps (Held old r) (run (set_path id destination path))
  unfolding apply
  Held-set_path r id destination path = Keeps-run (set_path id destination path) λ t _ h.
      (set_path-Lives old id destination path t h.0, Held-on_run r id _ t (λ q. refl) (λ q. refl) h)

  backup-Lives :
      (d : Database) (r : Run) → Leads (Held old r) (λ _. Lives old) (Held old r) (backup w d r)
  unfolding backup
  backup-Lives d r =
      Leads-bind (open_destination w.destinations d.destination) _
        (held (Keeps-open_destination w.destinations d.destination))
        λ root. Leads-bind touch _ (held Keeps-touch) λ _.
          Leads-bind (run (set_path r.id d.destination (backup_path w d r))) _
            (held (Held-set_path r r.id d.destination (backup_path w d r)))
            λ _.
              Leads-bind (write_backup w.digest root (backup_path w d r) d w.executor) _
                (held (Keeps-write_backup w.digest root (backup_path w d r) d w.executor))
                (finish_backup-Lives d r)
    where
      held :
          {A : Type 0} {m : Io A}
          → Keeps (Held old r) m
          → Leads (Held old r) (λ _. Held old r) (Held old r) m
      held {A} {m} k = Leads-keep m k (λ t h. h) (λ _ t h. h)

  Held-prepare_with :
      (o : Option (Database → Result ConnectionInfo)) (d : Database) (r : Run)
      → Keeps (Held old r) (prepare_with w o d r)
  Held-prepare_with none d r = search keeps_rules
  Held-prepare_with (some prepare) d r = search (keeps_rules, Held-set_client_info)

  attempt_backup-Lives :
      (r : Run) → Leads (Held old r) (λ _. Lives old) (Held old r) (attempt_backup w r)
  unfolding attempt_backup database databases
  attempt_backup-Lives r =
      Leads-bind (database w.cipher w.key r.database_id) _
        (Leads-keep _ (search keeps_rules) (λ t h. h) (λ _ t h. h))
        λ d.
          Leads-bind (prepare_with w w.executor.prepare d r) _
            (Leads-keep _ (Held-prepare_with w.executor.prepare d r) (λ t h. h) (λ _ t h. h))
            λ _. backup-Lives d r

  recorded-Lives :
      (r : Run) (o : Result (Unit {0}))
      → Leads
          (Outcome (λ _. Lives old) (Held old r) o)
          (λ _. Lives old)
          (Lives old)
          (recorded w r o)
  recorded-Lives r (ok a) = Leads-pure tt (λ t h. h)
  recorded-Lives r (err e) =
      Leads-bind time_now _ (Leads-keep time_now Keeps-time_now (λ t h. h.0) (λ _ t h. h)) λ now.
        ignore-lead (run (fail r.id now (message e))) (
          Leads-run (fail r.id now (message e)) (λ t h. h.0)
            λ t h. fail-Lives old r.id t h.0 now (message e) h.1)

  pub execute-Lives : (r : Run) → Leads (Held old r) (λ _. Lives old) (Lives old) (execute w r)
  unfolding execute
  execute-Lives r =
      Leads-bind (try_io (attempt_backup w r)) _
        (Leads-try (attempt_backup w r) (attempt_backup-Lives r)) (recorded-Lives r)

  -- One tick of the loop moves every run along the diagram, whatever fails on the way.
  tick-Lives : Leads (Lives old) (λ _. Lives old) (Lives old) (tick w)
  unfolding tick
  tick-Lives = Leads-bind claim_run _ (claim_run-Held old) execute-Lives

  pub Lives-tick : Keeps (Lives old) (tick w)
  Lives-tick = Leads-either (tick w) tick-Lives

-- The tables stay sound.
pub Sound-tick : (w : Worker) → Keeps IsSound (tick w)
Sound-tick w = record { at = λ v h. ((Lives-tick w []).at v (h, tt)).0 }
