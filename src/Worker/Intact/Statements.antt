-- ===== src/Worker/Intact/Statements.antt =====
-- What the statements do to the files of the successful runs, while the disk stays.
use base_guard.Base.{
  ℕ, ◌≡◌, refl, sym, ap, ◌∙◌, String, true, not, ◌&&◌, List, [], ◌∷◌, Option, none, some,
  update_where, ◌==◌, Bool-cases, inl, inr,
}
use base_guard.Disk.{Disk}
use base_guard.Model.{Run, Status, success, queued, running, failed, interrupted, expired}
use base_guard.Store.Tables.{
  Tables, Statement, create_tables, add_client_info, set_user_version, apply, is_running,
  interruption, is_success, is_busy, is_listed, start, insert_database, update_database,
  set_schedule, advance, delete_database, enqueue_listed, enqueue_due, claim, interrupt_running,
  set_client_info, set_path, succeed, fail, note_error, expire, insert_setting, update_setting,
  insert_session, delete_session, delete_expired, delete_sessions,
}
use base_guard.Store.Law.{is_free, Law}
use base_guard.Store.Lifecycle.{Each}
use base_guard.Worker.Methods.{Worker}
use base_guard.Worker.Intact.{
  IsFiled-info, IsFiled-note, Files, Files-update, Files-ended, Files-append, is_pending,
}

module _ (w : Worker) (k : Disk) where
  start-Files :
      (now : ℕ) (o : Option Run) (t : Tables) → Files w t.runs k → Files w (start now o t).runs k
  start-Files now none t h = h
  start-Files now (some r) t h =
      Files-ended w k (λ q. q.id == r.id) (λ q. record q { status = running; started = now }) t.runs
        (λ q. refl) h

  apply-Files :
      (s : Statement) (t : Tables)
      → is_free s ≡ true
      → Files w t.runs k
      → Files w (apply s t).runs k
  unfolding apply
  apply-Files (insert_database config enabled next) t f h = h
  apply-Files (update_database id config enabled next) t f h = h
  apply-Files (set_schedule id enabled next) t f h = h
  apply-Files (advance id next seen) t f h = h
  apply-Files (delete_database id) t f h = elim (Bool-cases (is_busy id t)) [
    | inl e ↦ rw e h
    | inr e ↦ rw e h
  ]
  apply-Files (enqueue_listed d trigger now) t f h =
      elim (Bool-cases (is_listed d.id t && not (is_busy d.id t))) [
        | inl e ↦ rw e (Files-append w k t.runs _ h (λ s. cc s))
        | inr e ↦ rw e h
      ]
  apply-Files (enqueue_due d trigger now) t f h = elim (Bool-cases (is_busy d.id t)) [
    | inl e ↦ rw e h
    | inr e ↦ rw e (Files-append w k t.runs _ h (λ s. cc s))
  ]
  apply-Files (claim now) t f h = start-Files now _ t h
  apply-Files (interrupt_running now) t f h =
      Files-ended w k (λ q. is_running q.status)
        (λ q. record q { status = interrupted; finished = now; error = interruption }) t.runs
        (λ q. refl) h
  apply-Files (set_client_info id info) t f h =
      Files-update w k (λ q. q.id == id) (λ q. record q { client_info = info }) t.runs
        (λ q e g. IsFiled-info w k q info g) h
  apply-Files (set_path id destination path) t f h = cc f
  apply-Files (succeed id size sum now) t f h = cc f
  apply-Files (fail id now why) t f h = cc f
  apply-Files (note_error id why) t f h =
      Files-update w k (λ q. q.id == id) (λ q. record q { error = why }) t.runs
        (λ q e g. IsFiled-note w k q why g) h
  apply-Files (expire id) t f h = cc f
  apply-Files (insert_setting key value) t f h = h
  apply-Files (update_setting key value) t f h = h
  apply-Files (insert_session s) t f h = h
  apply-Files (delete_session token) t f h = h
  apply-Files (delete_expired now) t f h = h
  apply-Files delete_sessions t f h = h
  apply-Files create_tables t f h = h
  apply-Files add_client_info t f h = h
  apply-Files (set_user_version n) t f h = h

  pub Files-law : Law (λ t. Files w t.runs k)
  Files-law = record { at = apply-Files }

  pub fail-Files :
      (id now : ℕ) (why : String) (t : Tables)
      → Files w t.runs k
      → Files w (apply (fail id now why) t).runs k
  unfolding apply
  fail-Files id now why t h =
      Files-ended w k (λ q. q.id == id)
        (λ q. record q { status = failed; finished = now; error = why }) t.runs (λ q. refl) h

  pub expire-Files : (id : ℕ) (t : Tables) → Files w t.runs k → Files w (apply (expire id) t).runs k
  unfolding apply
  expire-Files id t h =
      Files-ended w k (λ q. q.id == id) (λ q. record q { status = expired }) t.runs (λ q. refl) h

  pending-Files :
      (id : ℕ) (f : Run → Run) (rs : List Run)
      → ((q : Run) → (f q).status ≡ q.status)
      → Each is_pending id rs
      → Files w rs k
      → Files w (update_where (λ q. q.id == id) f rs) k
  pending-Files id f [] same p h = tt
  pending-Files id f (q ∷ rs) same (p, ps) (h, hs) = elim (Bool-cases (q.id == id)) [
    | inl t ↦ rw t (
      (λ s. absurd (clash q.status (p t) (ap is_success (sym (same q)) ∙ s))),
      pending-Files id f rs same ps hs,
    )
    | inr t ↦ rw t (h, pending-Files id f rs same ps hs)
  ]
    where
      clash : (x : Status) → is_pending x ≡ true → is_success x ≡ true → ⊥
      clash success a b = cc a
      clash queued a b = cc b
      clash running a b = cc b
      clash failed a b = cc b
      clash interrupted a b = cc b
      clash expired a b = cc b

  pub set_path-Files :
      (id : ℕ) (destination path : String) (t : Tables)
      → Each is_pending id t.runs
      → Files w t.runs k
      → Files w (apply (set_path id destination path) t).runs k
  unfolding apply
  set_path-Files id destination path t p h =
      pending-Files id (λ q. record q { destination = destination; path = path }) t.runs (λ q. refl)
        p h
