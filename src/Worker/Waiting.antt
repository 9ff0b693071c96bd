-- ===== src/Worker/Waiting.antt =====
-- The runs that wait, and what a backup does to their number.
use base_guard.Base.{
  ℕ, ◌≤◌, ◌≡◌, String, Bool, true, List, [], ◌∷◌, Option, none, some, update_where, ◌==◌, Result,
  ok, err, arith,
}
use base_guard.Model.{Database, Run, ConnectionInfo, Json, success, failed, expired}
use base_guard.Store.Tables.{
  Tables, apply, is_queued, on_run, rows_matching, set_client_info, set_path, succeed, fail,
  note_error, expire,
}
use base_guard.Store.Methods.{databases, database}
use base_guard.Exec.{run}
use base_guard.Exec.Keeps.{Keeps, Keeps-bind, Keeps-run, keeps_rules}
use base_guard.Backup.Keeps.{
  Keeps-touch, Keeps-remove_file, Keeps-open_destination, Keeps-write_backup,
}
use base_guard.Worker.Methods.{
  Worker, expire_run, expire_runs, retain, noted, finish_backup, backup, prepare_with,
  attempt_backup, recorded, execute,
}
use base_guard.Worker.Recovery.{Keeps-ignore}

abbrev pub queued_count : Tables → ℕ
queued_count t = rows_matching (λ r. is_queued r.status) t.runs

-- At most `m` runs wait.
abbrev pub Few : ℕ → Tables → Type 0
Few m t = queued_count t ≤ m

-- An update that queues nothing.
pub few-update :
    (p : Run → Bool) (f : Run → Run)
    → ((r : Run) → is_queued (f r).status ≡ true → is_queued r.status ≡ true)
    → (rs : List Run)
    → rows_matching (λ r. is_queued r.status) (update_where p f rs)
      ≤ rows_matching (λ r. is_queued r.status) rs
few-update p f calm [] = omega arith
few-update p f calm (r ∷ rs) = ground (arith, calm r, few-update p f calm rs)

on_run-le :
    (id : ℕ) (f : Run → Run) (t : Tables)
    → ((r : Run) → is_queued (f r).status ≡ true → is_queued r.status ≡ true)
    → queued_count (on_run id f t) ≤ queued_count t
on_run-le id f t calm = few-update (λ r. r.id == id) f calm t.runs

less : {a b m : ℕ} → a ≤ b → b ≤ m → a ≤ m
less p q = omega (arith, p, q)

module _ {m : ℕ} where
  Few-set_client_info :
      (id : ℕ) (info : Json ConnectionInfo) → Keeps (Few m) (run (set_client_info id info))
  unfolding apply
  Few-set_client_info id info =
      Keeps-run (set_client_info id info)
        (λ t _ h. less (on_run-le id (λ r. record r { client_info = info }) t (λ r q. q)) h)

  Few-set_path :
      (id : ℕ) (destination path : String) → Keeps (Few m) (run (set_path id destination path))
  unfolding apply
  Few-set_path id destination path = Keeps-run (set_path id destination path) (λ t _ h.
      less (on_run-le id (λ r. record r { destination = destination; path = path }) t (λ r q. q)) h)

  Few-succeed :
      (id size : ℕ) (sum : String) (now : ℕ) → Keeps (Few m) (run (succeed id size sum now))
  unfolding apply
  Few-succeed id size sum now = Keeps-run (succeed id size sum now) (λ t _ h.
      less
        (on_run-le id
          (λ r. record r { status = success; size = size; sha256 = sum; finished = now }) t
          (λ r q. cc q))
        h)

  Few-fail : (id now : ℕ) (why : String) → Keeps (Few m) (run (fail id now why))
  unfolding apply
  Few-fail id now why = Keeps-run (fail id now why) (λ t _ h.
      less
        (on_run-le id (λ r. record r { status = failed; finished = now; error = why }) t
          (λ r q. cc q))
        h)

  Few-note_error : (id : ℕ) (why : String) → Keeps (Few m) (run (note_error id why))
  unfolding apply
  Few-note_error id why =
      Keeps-run (note_error id why)
        (λ t _ h. less (on_run-le id (λ r. record r { error = why }) t (λ r q. q)) h)

  Few-expire : (id : ℕ) → Keeps (Few m) (run (expire id))
  unfolding apply
  Few-expire id =
      Keeps-run (expire id)
        (λ t _ h. less (on_run-le id (λ r. record r { status = expired }) t (λ r q. cc q)) h)

ruleset few_rules = (
  keeps_rules, Few-set_client_info, Few-set_path, Few-succeed, Few-fail, Few-note_error, Few-expire,
  Keeps-ignore, Keeps-touch, Keeps-remove_file, Keeps-open_destination, Keeps-write_backup,
)

module _ (w : Worker) {m : ℕ} where
  Few-expire_run : (r : Run) → Keeps (Few m) (expire_run w r)
  unfolding expire_run
  Few-expire_run r = search few_rules depth 8

  Few-expire_runs : (rs : List Run) → Keeps (Few m) (expire_runs w rs)
  unfolding expire_runs
  Few-expire_runs [] = search few_rules
  Few-expire_runs (r ∷ rs) = Keeps-bind _ _ (Few-expire_run r) (λ _. Few-expire_runs rs)

  Few-retain : (d : Database) → Keeps (Few m) (retain w d)
  unfolding retain
  Few-retain d = search (few_rules, Few-expire_runs) depth 8

  Few-noted : (r : Run) (o : Result (Unit {0})) → Keeps (Few m) (noted w r o)
  Few-noted r (ok a) = search few_rules
  Few-noted r (err e) = search few_rules

  Few-finish_backup :
      (d : Database) (r : Run) (written : ℕ × String) → Keeps (Few m) (finish_backup w d r written)
  unfolding finish_backup
  Few-finish_backup d r (size, sum) = search (few_rules, Few-retain, Few-noted) depth 8

  Few-backup : (d : Database) (r : Run) → Keeps (Few m) (backup w d r)
  unfolding backup
  Few-backup d r = search (few_rules, Few-finish_backup) depth 8

  Few-prepare_with :
      (o : Option (Database → Result ConnectionInfo)) (d : Database) (r : Run)
      → Keeps (Few m) (prepare_with w o d r)
  Few-prepare_with none d r = search few_rules
  Few-prepare_with (some prepare) d r = search few_rules

  Few-attempt_backup : (r : Run) → Keeps (Few m) (attempt_backup w r)
  unfolding attempt_backup database databases
  Few-attempt_backup r = search (few_rules, Few-prepare_with, Few-backup) depth 10

  Few-recorded : (r : Run) (o : Result (Unit {0})) → Keeps (Few m) (recorded w r o)
  Few-recorded r (ok a) = search few_rules
  Few-recorded r (err e) = search few_rules depth 8

  pub Few-execute : (r : Run) → Keeps (Few m) (execute w r)
  unfolding execute
  Few-execute r = search (few_rules, Few-attempt_backup, Few-recorded) depth 8
