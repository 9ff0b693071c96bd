-- ===== src/Server/Law.antt =====
-- The handlers of the panel, and predicates that the statements keep.
use base_guard.Base.{ℕ, Bool, Result, ok, err}
use base_guard.Model.{Database}
use base_guard.Store.Tables.{Tables}
use base_guard.Store.Law.{Law, law_rules, Law-save, Law-database, Law-enqueue}
use base_guard.Exec.Keeps.{Keeps}
use base_guard.Worker.Methods.{Worker}
use base_guard.Server.Panel.{
  completed, planned_next, submitted, save_submitted, save_form, enqueue_found, enqueue_id,
  set_enabled, enable_from, toggle_found, toggle, delete,
}

ruleset panel_rules = (law_rules, Law-save, Law-database, Law-enqueue)

module _ (w : Worker) {P : Tables → Type 0} (k : Law P) where
  Law-completed : (d : Database) → Keeps P (completed w d)
  unfolding completed
  Law-completed d = search panel_rules depth 8

  Law-planned_next : (d : Database) → Keeps P (planned_next w d)
  unfolding planned_next
  Law-planned_next d = search panel_rules depth 8

  pub Law-submitted : (d : Database) → Keeps P (submitted w d)
  unfolding submitted
  Law-submitted d = search (panel_rules, Law-completed, Law-planned_next) depth 8

  Law-save_submitted : (r : Result Database) → Keeps P (save_submitted w r)
  Law-save_submitted (err e) = search panel_rules
  Law-save_submitted (ok d) = search panel_rules depth 8

  pub Law-save_form : (d : Database) → Keeps P (save_form w d)
  unfolding save_form
  Law-save_form d = search (panel_rules, Law-submitted, Law-save_submitted) depth 8

  Law-enqueue_found : (r : Result Database) → Keeps P (enqueue_found w r)
  Law-enqueue_found (err e) = search panel_rules
  Law-enqueue_found (ok d) = search panel_rules depth 8

  pub Law-enqueue_id : (id : ℕ) → Keeps P (enqueue_id w id)
  unfolding enqueue_id
  Law-enqueue_id id = search (panel_rules, Law-enqueue_found) depth 8

  Law-set_enabled : (id : ℕ) (enabled : Bool) (next : ℕ) → Keeps P (set_enabled w id enabled next)
  unfolding set_enabled
  Law-set_enabled id enabled next = search panel_rules depth 8

  Law-enable_from : (id : ℕ) (r : Result (ℕ → ℕ)) → Keeps P (enable_from w id r)
  Law-enable_from id (err e) = search panel_rules
  Law-enable_from id (ok next) = search (panel_rules, Law-set_enabled) depth 8

  Law-toggle_found : (r : Result Database) → Keeps P (toggle_found w r)
  Law-toggle_found (err e) = search panel_rules
  Law-toggle_found (ok d) = search (panel_rules, Law-set_enabled, Law-enable_from) depth 8

  pub Law-toggle : (id : ℕ) → Keeps P (toggle w id)
  unfolding toggle
  Law-toggle id = search (panel_rules, Law-toggle_found) depth 8

  pub Law-delete : (id : ℕ) → Keeps P (delete w id)
  unfolding delete
  Law-delete id = search panel_rules depth 8
