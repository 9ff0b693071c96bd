-- ===== src/Worker/Settled.antt =====
-- What `execute` leaves of the run that it was given.
use base_guard.Base.{
  ℕ, ◌≡◌, refl, ap, ◌∙◌, String, Bool, true, false, ◌&&◌, ◌==◌, List, [], ◌∷◌, any, update_where,
  Result-cases, inl, inr, Result, ok, err, Error, message, arith, subst,
}
use base_guard.Model.{Run, Database, success, failed, expired}
use base_guard.Store.Tables.{
  Tables, apply, conflicts, is_active, expire, note_error, succeed, fail, set_path,
}
use base_guard.Store.Methods.{database}
use base_guard.Exec.{World, pure, run, exec, try_io, time_now, ◌>>=◌}
use base_guard.Exec.Keeps.{Keeps, Keeps-run, Keeps-bind, Keeps-pure, keeps_rules}
use base_guard.Exec.Inversion.{exec-eq-ok, >>=-elim, Calm, exec-Calm}
use base_guard.Backup.Destination.{open_destination, touch}
use base_guard.Backup.Write.{write_backup}
use base_guard.Backup.Keeps.{Keeps-remove_file, Keeps-open_destination}
use base_guard.Worker.Methods.{
  Worker, ignore, expire_run, expire_runs, retain, noted, finish_backup, backup, backup_path,
  prepare_with, attempt_backup, recorded, execute,
}
use base_guard.Worker.Recovery.{Keeps-ignore}

and_false : (b : Bool) → (b && false) ≡ false
and_false b = ground arith

module _ (id : ℕ) where
  abbrev pub unsettled : Run → Bool
  unsettled q = q.id == id && is_active q.status

  -- No run of this id is queued or running.
  abbrev pub IsSettled : Tables → Type 0
  IsSettled t = any unsettled t.runs ≡ false

  any-update :
      (g : Run → Bool) (f : Run → Run) (rs : List Run)
      → ((q : Run) → unsettled (f q) ≡ true → unsettled q ≡ true)
      → any unsettled rs ≡ false
      → any unsettled (update_where g f rs) ≡ false
  any-update g f [] k h = refl
  any-update g f (q ∷ rs) k h = ground (arith, k q, any-update g f rs k)

  -- A change that ends every run of this id settles it.
  any-ended :
      (f : Run → Run) (rs : List Run)
      → ((q : Run) → unsettled (f q) ≡ false)
      → any unsettled (update_where (λ q. q.id == id) f rs) ≡ false
  any-ended f [] k = refl
  any-ended f (q ∷ rs) k = ground (arith, k q, any-ended f rs k)

  expired_unsettled : (q : Run) → unsettled (record q { status = expired }) ≡ true → ⊥
  expired_unsettled q u = let e : (q.id == id && false) ≡ true = u in ground arith

  Settled-expire : (other : ℕ) → Keeps IsSettled (run (expire other))
  unfolding apply
  Settled-expire other = Keeps-run (expire other) (λ t _ h.
      any-update (λ q. q.id == other) (λ q. record q { status = expired }) t.runs
        (λ q u. absurd (expired_unsettled q u)) h)

  Settled-note_error : (other : ℕ) (why : String) → Keeps IsSettled (run (note_error other why))
  unfolding apply
  Settled-note_error other why =
      Keeps-run (note_error other why) (λ t _ h.
        any-update (λ q. q.id == other) (λ q. record q { error = why }) t.runs (λ q u. u) h)

  Settled-expire_run : (w : Worker) (r : Run) → Keeps IsSettled (expire_run w r)
  unfolding expire_run
  Settled-expire_run w r =
      search (keeps_rules, Settled-expire, Keeps-remove_file, Keeps-open_destination) depth 8

  Settled-expire_runs : (w : Worker) (rs : List Run) → Keeps IsSettled (expire_runs w rs)
  unfolding expire_runs
  Settled-expire_runs w [] = Keeps-pure tt
  Settled-expire_runs w (r ∷ rs) =
      Keeps-bind _ _ (Settled-expire_run w r) (λ _. Settled-expire_runs w rs)

  Settled-retain : (w : Worker) (d : Database) → Keeps IsSettled (retain w d)
  unfolding retain
  Settled-retain w d = search (keeps_rules, Settled-expire_runs) depth 8

  Settled-noted : (w : Worker) (r : Run) (o : Result (Unit {0})) → Keeps IsSettled (noted w r o)
  Settled-noted w r (ok a) = Keeps-pure tt
  Settled-noted w r (err e) = search (keeps_rules, Keeps-ignore, Settled-note_error) depth 8

module _ (w : Worker) (r : Run) where
  finish_backup-IsSettled :
      (d : Database) (size : ℕ) (sum : String) (v v' : World) {u : Unit {0}}
      → finish_backup w d r (size, sum) v ≡ (ok u, v')
      → IsSettled r.id v'.tables
  unfolding finish_backup run apply
  finish_backup-IsSettled d size sum v v' h = >>=-elim time_now _ v h λ now v1 e1 k1.
      >>=-elim (run (succeed r.id size sum now)) _ v1 k1 λ u2 v2 e2 k2.
        let (_, t2, _) = exec-eq-ok (succeed r.id size sum now) _ v1 e2 in
        let done : IsSettled r.id v2.tables =
          ap (λ t. any (unsettled r.id) t.runs) t2
          ∙ any-ended r.id
              (λ q. record q { status = success; size = size; sha256 = sum; finished = now })
              v1.tables.runs (λ q. and_false (q.id == r.id)) in
        subst (λ (x : Result (Unit {0}) × World). IsSettled r.id x.1.tables) k2
          ((rest d).at v2 done)
    where
      rest : (d : Database) → Keeps (IsSettled r.id) (try_io (retain w d) >>= noted w r)
      rest d = search (keeps_rules, Settled-retain, Settled-noted) depth 8

  attempt_backup-IsSettled :
      (v v' : World) {u : Unit {0}} → attempt_backup w r v ≡ (ok u, v') → IsSettled r.id v'.tables
  unfolding attempt_backup backup
  attempt_backup-IsSettled v v' h =
      >>=-elim (database w.cipher w.key r.database_id) _ v h λ d v1 e1 k1.
        >>=-elim (prepare_with w w.executor.prepare d r) _ v1 k1 λ u2 v2 e2 k2.
          >>=-elim (open_destination w.destinations d.destination) _ v2 k2 λ root v3 e3 k3.
            >>=-elim touch _ v3 k3 λ u4 v4 e4 k4.
              >>=-elim (run (set_path r.id d.destination (backup_path w d r))) _ v4 k4
                λ u5 v5 e5 k5.
                  >>=-elim (write_backup w.digest root (backup_path w d r) d w.executor) _ v5 k5
                    λ written v6 e6 k6. finish_backup-IsSettled d written.0 written.1 v6 v' k6

  time_now-Calm :
      (v : World) → Calm v → (n : ℕ) × (time_now v ≡ (ok n, (time_now v).1)) × Calm (time_now v).1
  unfolding time_now
  time_now-Calm v h = go v.clock refl
    where
      go :
          (c : List ℕ)
          → v.clock ≡ c
          → (n : ℕ) × (time_now v ≡ (ok n, (time_now v).1)) × Calm (time_now v).1
      go [] e = rw (e, time_now) (0, refl, h)
      go (n ∷ c) e = rw (e, time_now) (n, refl, h)

  recorded-IsSettled :
      (e : Error) (v : World) → Calm v → IsSettled r.id (recorded w r (err e) v).1.tables
  unfolding ignore run try_io ◌>>=◌ conflicts apply pure
  recorded-IsSettled e v h =
      let (now, t, c) = time_now-Calm v h in
      let v1 = (time_now v).1 in
      let why = message e in
      let done : exec (fail r.id now why) (λ _. tt {0}) v1
          ≡ (ok tt, record v1 { tables = apply (fail r.id now why) v1.tables }) =
        exec-Calm (fail r.id now why) (λ _. tt {0}) v1 c refl in
      rw (t, done)
        (any-ended r.id (λ q. record q { status = failed; finished = now; error = why })
          v1.tables.runs (λ q. and_false (q.id == r.id)))

  -- After `execute` the run that it was given is neither queued nor running, whether its backup
  -- succeeded or failed and whatever failed on the way, where no fault is left for the statement that
  -- records a failure.
  pub execute-IsSettled :
      (v : World)
      → (attempt_backup w r v).1.faults ≡ []
      → any (λ q. q.id == r.id && is_active q.status) (execute w r v).1.tables.runs ≡ false
  unfolding execute try_io ◌>>=◌
  execute-IsSettled v calm = elim (Result-cases (attempt_backup w r v).0) [
    | inl (u, e) ↦
        let settled : IsSettled r.id (attempt_backup w r v).1.tables =
          attempt_backup-IsSettled v (attempt_backup w r v).1
            (ap (λ q. (q, (attempt_backup w r v).1)) e) in
        rw e settled
    | inr (f, e) ↦ rw e (recorded-IsSettled f (attempt_backup w r v).1 calm)
  ]
