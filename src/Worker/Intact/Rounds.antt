-- ===== src/Worker/Intact/Rounds.antt =====
-- The rounds of the worker, its recovery and its scheduler, and the files of the successful runs.
use base_guard.Base.{
  ℕ, ◌≡◌, refl, true, List, [], ◌∷◌, Result, ok, err, collect, select, str_eq, Bool-cases, inl, inr,
}
use base_guard.Disk.{Disk}
use base_guard.Model.{Run, Status, success}
use base_guard.Store.Tables.{Tables, is_running, interrupt_running}
use base_guard.Store.Methods.{claim_run, scan_run}
use base_guard.Store.Invariant.{IsSound}
use base_guard.Store.Law.{Law-run, Law-claim_run}
use base_guard.Store.Lifecycle.{Each}
use base_guard.Exec.{query, lift, time_now}
use base_guard.Exec.Keeps.{Keeps-lift, Keeps-query, Keeps-time_now}
use base_guard.Exec.Leads.{Outcome}
use base_guard.Exec.Ends.{
  Dry, Dry-run, Dry-lift, Dry-query, Dry-time_now, dry_rules, Ends, Ends-pure, Ends-Dry, Ends-bind,
}
use base_guard.Backup.Destination.{open_destination}
use base_guard.Backup.Write.{partial_of}
use base_guard.Backup.Keeps.{Keeps-open_destination}
use base_guard.Backup.Elsewhere.{Dry-open_destination}
use base_guard.Worker.Methods.{Worker, drop_partial, drop_partials, recover, tick}
use base_guard.Worker.Claiming.{claim_run-Held, Held}
use base_guard.Worker.Intact.{Files, is_pending, Files-removed}
use base_guard.Worker.Intact.Statements.{Files-law}
use base_guard.Worker.Intact.Retention.{Filed, Ends-kept, Ends-remove, Ends-ignore}
use base_guard.Worker.Intact.Finish.{Working}
use base_guard.Worker.Intact.Backup.{execute-Files}

is_running-is_pending : (s : Status) → is_running s ≡ true → is_pending s ≡ true
is_running-is_pending success h = cc h
is_running-is_pending _ h = refl

running-pending : (id : ℕ) (rs : List Run) → Each is_running id rs → Each is_pending id rs
running-pending id [] h = tt
running-pending id (q ∷ rs) (h, hs) =
    ((λ e. is_running-is_pending q.status (h e)), running-pending id rs hs)

Dry-claim_run : Dry claim_run
unfolding claim_run
Dry-claim_run = search dry_rules depth 8

module _ (w : Worker) where
  claimed-Working :
      (k : Disk) (x : Result Run) (t : Tables)
      → Outcome (Held []) (λ u. IsSound u × Unit) x t
      → Files w t.runs k
      → Outcome (λ r u. Working w r u k) (λ u. Files w u.runs k) x t
  claimed-Working k (ok r) t h f = (f, running-pending r.id t.runs h.1)
  claimed-Working k (err e) t h f = f

  pub tick-Files : Ends (λ t k. IsSound t × Files w t.runs k) (λ _. Filed w) (Filed w) (tick w)
  unfolding tick
  tick-Files =
      Ends-bind {Q = λ r t k. Working w r t k} claim_run _
        (Ends-Dry claim_run Dry-claim_run λ k. record {
          at = λ v h.
              claimed-Working k (claim_run v).0 (claim_run v).1.tables
                ((claim_run-Held []).at v (h.0, tt)) ((Law-claim_run (Files-law w k)).at v h.1);
        })
        (execute-Files w)

  drop_partial-Files : (r : Run) → Ends (Filed w) (λ _. Filed w) (Filed w) (drop_partial w r)
  unfolding drop_partial
  drop_partial-Files r = elim (Bool-cases (str_eq r.path "")) [
    | inl e ↦ rw e (Ends-pure tt (λ t k h. h))
    | inr e ↦ rw e (
        Ends-ignore _ (
          Ends-bind (open_destination w.destinations r.destination) _
            (Ends-kept _ (Dry-open_destination w.destinations r.destination)
              (λ k. Keeps-open_destination w.destinations r.destination) (λ t k h. h))
            λ root. Ends-ignore _ (
              Ends-remove root (partial_of r.path)
                (λ t k h. Files-removed w root (partial_of r.path) k t.runs h))))
  ]

  drop_partials-Files :
      (rs : List Run) → Ends (Filed w) (λ _. Filed w) (Filed w) (drop_partials w rs)
  unfolding drop_partials
  drop_partials-Files [] = Ends-pure tt (λ t k h. h)
  drop_partials-Files (r ∷ rs) =
      Ends-bind (drop_partial w r) _ (drop_partial-Files r) (λ _. drop_partials-Files rs)

  pub recover-Files : Ends (Filed w) (λ _. Filed w) (Filed w) (recover w)
  unfolding recover
  recover-Files =
      Ends-bind (query (λ t. select (λ r. is_running r.status) t.runs)) _
        (Ends-kept _ (Dry-query _) (λ k. Keeps-query _) (λ t k h. h))
        λ rows.
          Ends-bind (lift (collect scan_run rows)) _
            (Ends-kept _ (Dry-lift _) (λ k. Keeps-lift _) (λ t k h. h))
            λ rs. Ends-bind (drop_partials w rs) _ (drop_partials-Files rs) λ _.
              Ends-bind time_now _ (Ends-kept _ Dry-time_now (λ k. Keeps-time_now) (λ t k h. h))
                λ now.
                  Ends-kept _ (Dry-run (interrupt_running now))
                    (λ k. Law-run (Files-law w k) (interrupt_running now) refl) (λ t k h. h)
