-- ===== src/Worker/Law.antt =====
-- The methods of the worker that name no run, and predicates that the statements keep.
use base_guard.Base.{ℕ, String, List, [], ◌∷◌}
use base_guard.Model.{Database, Run}
use base_guard.Store.Tables.{Tables}
use base_guard.Store.Law.{Law, law_rules, Law-databases}
use base_guard.Exec.Keeps.{Keeps, Keeps-bind}
use base_guard.Backup.Keeps.{Keeps-remove_file, Keeps-open_destination}
use base_guard.Worker.Recovery.{Keeps-ignore}
use base_guard.Worker.Methods.{
  Worker, drop_partial, drop_partials, recover, plan, schedule_one, schedule_list, schedule_all,
}

ruleset worker_rules =
    (law_rules, Keeps-ignore, Law-databases, Keeps-remove_file, Keeps-open_destination)

module _ (w : Worker) {P : Tables → Type 0} (k : Law P) where
  Law-drop_partial : (r : Run) → Keeps P (drop_partial w r)
  unfolding drop_partial
  Law-drop_partial r = search worker_rules depth 8

  Law-drop_partials : (rs : List Run) → Keeps P (drop_partials w rs)
  unfolding drop_partials
  Law-drop_partials [] = search worker_rules
  Law-drop_partials (r ∷ rs) = Keeps-bind _ _ (Law-drop_partial r) (λ _. Law-drop_partials rs)

  pub Law-recover : Keeps P (recover w)
  unfolding recover
  Law-recover = search (worker_rules, Law-drop_partials) depth 8

  Law-plan :
      (now : ℕ) (trigger : String) (d : Database) (next : ℕ → ℕ)
      → Keeps P (plan w now trigger d next)
  unfolding plan
  Law-plan now trigger d next = search worker_rules depth 8

  Law-schedule_one :
      (now : ℕ) (trigger : String) (d : Database) → Keeps P (schedule_one w now trigger d)
  unfolding schedule_one
  Law-schedule_one now trigger d = search (worker_rules, Law-plan) depth 8

  Law-schedule_list :
      (now : ℕ) (trigger : String) (ds : List Database) → Keeps P (schedule_list w now trigger ds)
  unfolding schedule_list
  Law-schedule_list now trigger [] = search worker_rules
  Law-schedule_list now trigger (d ∷ ds) =
      Keeps-bind _ _ (Law-schedule_one now trigger d) (λ _. Law-schedule_list now trigger ds)

  pub Law-schedule_all : (now : ℕ) (trigger : String) → Keeps P (schedule_all w now trigger)
  unfolding schedule_all
  Law-schedule_all now trigger = search (worker_rules, Law-schedule_list) depth 8
