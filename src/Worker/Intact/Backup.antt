-- ===== src/Worker/Intact/Backup.antt =====
-- A backup and the files of the successful runs.
use base_guard.Base.{
  ℕ, ◌≡◌, refl, sym, subst, ◌∙◌, String, true, false, List, [], ◌∷◌, Option, none, some,
  update_where, ◌==◌, Bool-cases, inl, inr, Result, ok, err, message,
}
use base_guard.Disk.{Disk}
use base_guard.Model.{Json, Database, Run, ConnectionInfo}
use base_guard.Store.Tables.{Tables, apply, set_client_info, set_path, fail}
use base_guard.Store.Methods.{databases, database}
use base_guard.Store.Lifecycle.{Each-update}
use base_guard.Exec.{run, try_io, time_now}
use base_guard.Exec.Steps.{result_of}
use base_guard.Exec.Keeps.{Keeps, Keeps-run, Keeps-time_now, keeps_rules}
use base_guard.Exec.Leads.{Leads-run}
use base_guard.Exec.Ends.{
  Dry, Dry-run, Dry-time_now, dry_rules, Ends, Ends-pure, Ends-Dry, Ends-bind, Ends-either,
  Ends-fail, Ends-given,
}
use base_guard.Backup.Destination.{lookup, touch, open_destination}
use base_guard.Backup.Keeps.{Keeps-touch, Keeps-open_destination}
use base_guard.Backup.Marker.{open_destination-marked}
use base_guard.Backup.Elsewhere.{Elsewhere, Dry-touch, Dry-open_destination, Ends-write_backup}
use base_guard.Backup.Write.{write_backup}
use base_guard.Worker.Methods.{
  Worker, backup, backup_path, prepare_with, attempt_backup, recorded, execute,
}
use base_guard.Worker.Paths.{backup_path-number}
use base_guard.Worker.Intact.{is_pending, Files-Elsewhere}
use base_guard.Worker.Intact.Statements.{Files-law, fail-Files, set_path-Files}
use base_guard.Worker.Intact.Retention.{Ends-kept, Ends-ignore, Filed}
use base_guard.Worker.Intact.Finish.{
  Working, Placed, Ready, Written, path-number, finish_backup-Files,
}

module _ (w : Worker) where
  Placed-update :
      (r : Run) (path destination : String) (rs : List Run)
      → Placed w r path destination (
          update_where
            (λ q. q.id == r.id)
            (λ q. record q { destination = destination; path = path })
            rs)
  Placed-update r path destination [] = tt
  Placed-update r path destination (q ∷ rs) = elim (Bool-cases (q.id == r.id)) [
    | inl t ↦ rw t ((λ _. (refl, refl)), Placed-update r path destination rs)
    | inr t ↦ rw t (
      (λ e. absurd (let bad : true ≡ false = sym e ∙ t in cc bad)),
      Placed-update r path destination rs,
    )
  ]

  Working-set_path :
      (d : Database) (r : Run)
      → Ends
          (Working w r)
          (λ _. Ready w d r)
          (Working w r)
          (run (set_path r.id d.destination (backup_path w d r)))
  unfolding apply
  Working-set_path d r =
      let s = set_path r.id d.destination (backup_path w d r) in
      Ends-Dry (run s) (Dry-run s) λ k.
        Leads-run s (λ t h. h)
          λ t h. (
            (
              set_path-Files w k r.id d.destination (backup_path w d r) t h.1 h.0,
              Each-update is_pending r.id (λ q. q.id == r.id) _ t.runs (λ q. refl) (λ q e. e) h.1,
            ),
            Placed-update r (backup_path w d r) d.destination t.runs,
          )

  Ready-write_backup :
      (d : Database) (r : Run) (root : String)
      → Ends
          (Ready w d r)
          (Written w d r root)
          (Filed w)
          (write_backup w.digest root (backup_path w d r) d w.executor)
  Ready-write_backup d r root =
      Ends-fail _
        (Ends-write_backup w.digest root (backup_path w d r) d w.executor closed
          λ t k k' size sum h i n s.
            (closed t k k' h i.others, ((w.executor.dump d).0, i.kept, n, s)))
        (λ t k h. h.0.0)
    where
      closed :
          (t : Tables) (k k' : Disk)
          → Ready w d r t k
          → Elsewhere root (backup_path w d r) k k'
          → Ready w d r t k'
      closed t k k' h e = (
        (
          Files-Elsewhere w root (backup_path w d r) r.id k k' t.runs (path-number w d r)
              (backup_path-number w d r ".partial" refl) e h.0.1 h.0.0,
          h.0.1,
        ),
        h.1,
      )

  Working-open :
      (d : Database) (r : Run)
      → Ends
          (Working w r)
          (λ root t k. Working w r t k × (lookup d.destination w.destinations ≡ some root))
          (Filed w)
          (open_destination w.destinations d.destination)
  Working-open d r = record {
    at = λ v h. elim (result_of (open_destination w.destinations d.destination) v) [
      | inl (root, e) ↦
          let v' = (open_destination w.destinations d.destination v).1 in
          let (l, _, _, t, k) = open_destination-marked w.destinations d.destination root v v' e in
          let same : Working w r v'.tables v'.disk =
            subst (λ (x : Tables). Working w r x v'.disk) (sym t)
              (subst (λ (x : Disk). Working w r v.tables x) (sym k) h) in
          let both : Working w r v'.tables v'.disk
              × (lookup d.destination w.destinations ≡ some root) =
            (same, l) in
          rw e both
      | inr (x, e) ↦
          let v' = (open_destination w.destinations d.destination v).1 in
          let t : v'.tables ≡ v.tables =
            (Keeps-open_destination {P = λ u. u ≡ v.tables} w.destinations d.destination).at v
              refl in
          let k : v'.disk ≡ v.disk = (Dry-open_destination w.destinations d.destination).at v in
          let same : Filed w v'.tables v'.disk =
            subst (λ (x : Tables). Filed w x v'.disk) (sym t)
              (subst (λ (x : Disk). Filed w v.tables x) (sym k) h.0) in
          rw e same
    ];
  }

  backup-Files :
      (d : Database) (r : Run) → Ends (Working w r) (λ _. Filed w) (Filed w) (backup w d r)
  unfolding backup
  backup-Files d r =
      Ends-bind (open_destination w.destinations d.destination) _ (Working-open d r) λ root.
        Ends-given _ λ l.
          Ends-bind touch _ (Ends-kept touch Dry-touch (λ k. Keeps-touch) (λ t k h. h.0)) λ _.
            Ends-bind (run (set_path r.id d.destination (backup_path w d r))) _
              (Ends-fail _ (Working-set_path d r) (λ t k h. h.0))
              λ _.
                Ends-bind (write_backup w.digest root (backup_path w d r) d w.executor) _
                  (Ready-write_backup d r root)
                  (λ written. finish_backup-Files w d r root written l)

  Working-set_client_info :
      (r : Run) (id : ℕ) (info : Json ConnectionInfo) (k : Disk)
      → Keeps (λ t. Working w r t k) (run (set_client_info id info))
  unfolding apply
  Working-set_client_info r id info k = Keeps-run (set_client_info id info) λ t _ h. (
    (Files-law w k).at (set_client_info id info) t refl h.0,
    Each-update is_pending r.id (λ q. q.id == id) _ t.runs (λ q. refl) (λ q e. e) h.1,
  )

  Dry-prepare_with :
      (o : Option (Database → Result ConnectionInfo)) (d : Database) (r : Run)
      → Dry (prepare_with w o d r)
  Dry-prepare_with none d r = search dry_rules
  Dry-prepare_with (some prepare) d r = search dry_rules

  Working-prepare_with :
      (o : Option (Database → Result ConnectionInfo)) (d : Database) (r : Run) (k : Disk)
      → Keeps (λ t. Working w r t k) (prepare_with w o d r)
  Working-prepare_with none d r k = search keeps_rules
  Working-prepare_with (some prepare) d r k = search (keeps_rules, Working-set_client_info)

  attempt_backup-Files :
      (r : Run) → Ends (Working w r) (λ _. Filed w) (Filed w) (attempt_backup w r)
  unfolding attempt_backup database databases
  attempt_backup-Files r =
      Ends-bind (database w.cipher w.key r.database_id) _
        (Ends-kept _ (search dry_rules) (λ k. search keeps_rules) (λ t k h. h.0))
        λ d.
          Ends-bind (prepare_with w w.executor.prepare d r) _
            (Ends-kept _ (Dry-prepare_with w.executor.prepare d r)
              (Working-prepare_with w.executor.prepare d r) (λ t k h. h.0))
            λ _. backup-Files d r

  recorded-Files :
      (r : Run) (o : Result (Unit {0})) → Ends (Filed w) (λ _. Filed w) (Filed w) (recorded w r o)
  recorded-Files r (ok a) = Ends-pure tt (λ t k h. h)
  recorded-Files r (err e) =
      Ends-bind time_now _ (Ends-kept _ Dry-time_now (λ k. Keeps-time_now) (λ t k h. h)) λ now.
        Ends-ignore (run (fail r.id now (message e))) (
          Ends-kept _ (Dry-run (fail r.id now (message e)))
            (λ k.
              Keeps-run (fail r.id now (message e))
                (λ t _ h. fail-Files w k r.id now (message e) t h))
            (λ t k h. h))

  pub execute-Files : (r : Run) → Ends (Working w r) (λ _. Filed w) (Filed w) (execute w r)
  unfolding execute
  execute-Files r =
      Ends-bind (try_io (attempt_backup w r)) _
        (Ends-either (attempt_backup w r) (attempt_backup-Files r)) (recorded-Files r)
