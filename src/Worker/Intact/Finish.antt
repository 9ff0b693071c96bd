-- ===== src/Worker/Intact/Finish.antt =====
-- The end of a backup and the files of the successful runs.
use base_guard.Base.{
  ℕ, ◌≡◌, refl, sym, ap, subst, ◌∙◌, String, true, List, [], ◌∷◌, some, length, update_where, ◌==◌,
  All, Bool-cases, inl, inr, arith,
}
use text.Mathlib.TextLemmas.{append-nil}
use base_guard.Disk.{Disk, Bytes}
use base_guard.Model.{Database, Run, success}
use base_guard.Store.Tables.{Tables, apply, succeed}
use base_guard.Store.Lifecycle.{Each}
use base_guard.Exec.{run, try_io, time_now}
use base_guard.Exec.Keeps.{Keeps-time_now}
use base_guard.Exec.Leads.{Leads-run}
use base_guard.Exec.Ends.{Dry-run, Dry-time_now, Ends, Ends-Dry, Ends-bind, Ends-either}
use base_guard.Backup.Destination.{lookup}
use base_guard.Worker.Methods.{Worker, retain, finish_backup, backup_path}
use base_guard.Worker.Paths.{number_of, backup_path-number}
use base_guard.Worker.Intact.{Fits, Files, is_pending}
use base_guard.Worker.Intact.Retention.{Ends-kept, Filed, retain-Files, noted-Files}

module _ (w : Worker) where
  -- The run has not succeeded.
  abbrev pub Working : Run → Tables → Disk → Type 0
  Working r t k = Files w t.runs k × Each is_pending r.id t.runs

  -- Its row has the place of its backup.
  abbrev pub Placed : Run → String → String → List Run → Type 0
  Placed r path destination rs =
      All (λ q. (q.id == r.id) ≡ true → (q.path ≡ path) × (q.destination ≡ destination)) rs

  abbrev pub Ready : Database → Run → Tables → Disk → Type 0
  Ready d r t k = Working r t k × Placed r (backup_path w d r) d.destination t.runs

  abbrev pub Written : Database → Run → String → ℕ × String → Tables → Disk → Type 0
  Written d r root written t k =
      Ready d r t k
      × ((b : Bytes) × (k.file root (backup_path w d r) ≡ some b)
          × (written.0 ≡ length b)
          × (written.1 ≡ w.digest b))

  pub path-number : (d : Database) (r : Run) → number_of (backup_path w d r) ≡ r.id
  path-number d r =
      ap number_of (sym (append-nil (backup_path w d r))) ∙ backup_path-number w d r "" refl

  -- The end of a run whose file is there.
  succeeded-Files :
      (d : Database) (r : Run) (root : String) (b : Bytes) (k : Disk) (size : ℕ) (sum : String)
      (now : ℕ) (rs : List Run)
      → lookup d.destination w.destinations ≡ some root
      → k.file root (backup_path w d r) ≡ some b
      → size ≡ length b
      → sum ≡ w.digest b
      → Placed r (backup_path w d r) d.destination rs
      → Files w rs k
      → Files w
          (update_where
            (λ q. q.id == r.id)
            (λ q. record q { status = success; size = size; sha256 = sum; finished = now })
            rs)
          k
  succeeded-Files d r root b k size sum now [] l f n s p h = tt
  succeeded-Files d r root b k size sum now (q ∷ rs) l f n s (p, ps) (h, hs) =
      elim (Bool-cases (q.id == r.id)) [
        | inl t ↦
            let (at, of) = p t in
            rw t (
              λ _. (
                ap number_of at ∙ path-number d r ∙ (let e : r.id ≡ q.id = ground arith in e),
                λ other m.
                    fits other (same_root (sym m ∙ ap (λ x. lookup x w.destinations) of ∙ l)) at,
              ),
              succeeded-Files d r root b k size sum now rs l f n s ps hs,
            )
        | inr t ↦ rw t (h, succeeded-Files d r root b k size sum now rs l f n s ps hs)
      ]
    where
      same_root : {x y : String} → some x ≡ some y → x ≡ y
      same_root e = cc e

      done : Run
      done = record q { status = success; size = size; sha256 = sum; finished = now }

      fits :
          (other : String)
          → other ≡ root
          → q.path ≡ backup_path w d r
          → Fits w (k.file other q.path) done
      fits other e at =
          subst (λ o. Fits w o done) (sym (ap (λ x. k.file x q.path) e ∙ ap (k.file root) at ∙ f))
            (sym n, sym s)

  pub finish_backup-Files :
      (d : Database) (r : Run) (root : String) (written : ℕ × String)
      → lookup d.destination w.destinations ≡ some root
      → Ends (Written d r root written) (λ _. Filed w) (Filed w) (finish_backup w d r written)
  unfolding finish_backup apply
  finish_backup-Files d r root (size, sum) l =
      Ends-bind time_now _ (Ends-kept _ Dry-time_now (λ k. Keeps-time_now) (λ t k h. h.0.0.0))
        λ now.
          Ends-bind {Q = λ _. Filed w} (run (succeed r.id size sum now)) _
            (Ends-Dry _ (Dry-run (succeed r.id size sum now)) λ k.
              Leads-run (succeed r.id size sum now) (λ t h. h.0.0.0)
                λ t h.
                  succeeded-Files d r root h.1.0 k size sum now t.runs l h.1.1 h.1.2 h.1.3 h.0.1
                    h.0.0.0)
            λ _.
              Ends-bind (try_io (retain w d)) _ (Ends-either _ (retain-Files w d)) (noted-Files w r)
