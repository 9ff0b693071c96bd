-- ===== src/Server/Dry.antt =====
-- The handlers of the panel and the scheduler leave the files alone.
use base_guard.Base.{ℕ, String, Bool, List, [], ◌∷◌, Result, ok, err}
use base_guard.Disk.{Bytes}
use base_guard.Model.{Database}
use base_guard.Security.{Cipher, encrypt}
use base_guard.Store.Methods.{keep_next_run, write_database, save, databases, database, enqueue}
use base_guard.Exec.Ends.{Dry, Dry-bind, dry_rules}
use base_guard.Worker.Methods.{Worker, plan, schedule_one, schedule_list, schedule_all}
use base_guard.Server.Panel.{
  completed, planned_next, submitted, save_submitted, save_form, enqueue_found, enqueue_id,
  set_enabled, enable_from, toggle_found, toggle, delete,
}

Dry-encrypt : (c : Cipher) (key : Bytes) (s : String) → Dry (encrypt c key s)
unfolding encrypt
Dry-encrypt c key s = search dry_rules

Dry-keep_next_run : (d : Database) → Dry (keep_next_run d)
unfolding keep_next_run
Dry-keep_next_run d = search dry_rules

Dry-write_database : (d : Database) (sealed : String) → Dry (write_database d sealed)
unfolding write_database
Dry-write_database d sealed = search dry_rules

pub Dry-save : (c : Cipher) (key : Bytes) (d : Database) → Dry (save c key d)
unfolding save
Dry-save c key d = search (dry_rules, Dry-encrypt, Dry-keep_next_run, Dry-write_database)

pub Dry-databases : (c : Cipher) (key : Bytes) → Dry (databases c key)
unfolding databases
Dry-databases c key = search dry_rules

pub Dry-database : (c : Cipher) (key : Bytes) (id : ℕ) → Dry (database c key id)
unfolding database
Dry-database c key id = search (dry_rules, Dry-databases)

pub Dry-enqueue : (d : Database) (trigger : String) (now : ℕ) → Dry (enqueue d trigger now)
unfolding enqueue
Dry-enqueue d trigger now = search dry_rules

ruleset panel_rules = (dry_rules, Dry-save, Dry-database, Dry-databases, Dry-enqueue)

module _ (w : Worker) where
  Dry-plan :
      (now : ℕ) (trigger : String) (d : Database) (next : ℕ → ℕ) → Dry (plan w now trigger d next)
  unfolding plan
  Dry-plan now trigger d next = search dry_rules depth 8

  Dry-schedule_one :
      (now : ℕ) (trigger : String) (d : Database) → Dry (schedule_one w now trigger d)
  unfolding schedule_one
  Dry-schedule_one now trigger d = search (dry_rules, Dry-plan) depth 8

  Dry-schedule_list :
      (now : ℕ) (trigger : String) (ds : List Database) → Dry (schedule_list w now trigger ds)
  unfolding schedule_list
  Dry-schedule_list now trigger [] = search dry_rules
  Dry-schedule_list now trigger (d ∷ ds) =
      Dry-bind _ _ (Dry-schedule_one now trigger d) (λ _. Dry-schedule_list now trigger ds)

  pub Dry-schedule_all : (now : ℕ) (trigger : String) → Dry (schedule_all w now trigger)
  unfolding schedule_all
  Dry-schedule_all now trigger = search (panel_rules, Dry-schedule_list) depth 8

  Dry-completed : (d : Database) → Dry (completed w d)
  unfolding completed
  Dry-completed d = search panel_rules depth 8

  Dry-planned_next : (d : Database) → Dry (planned_next w d)
  unfolding planned_next
  Dry-planned_next d = search panel_rules depth 8

  pub Dry-submitted : (d : Database) → Dry (submitted w d)
  unfolding submitted
  Dry-submitted d = search (panel_rules, Dry-completed, Dry-planned_next) depth 8

  Dry-save_submitted : (r : Result Database) → Dry (save_submitted w r)
  Dry-save_submitted (err e) = search panel_rules
  Dry-save_submitted (ok d) = search panel_rules depth 8

  pub Dry-save_form : (d : Database) → Dry (save_form w d)
  unfolding save_form
  Dry-save_form d = search (panel_rules, Dry-submitted, Dry-save_submitted) depth 8

  Dry-enqueue_found : (r : Result Database) → Dry (enqueue_found w r)
  Dry-enqueue_found (err e) = search panel_rules
  Dry-enqueue_found (ok d) = search panel_rules depth 8

  pub Dry-enqueue_id : (id : ℕ) → Dry (enqueue_id w id)
  unfolding enqueue_id
  Dry-enqueue_id id = search (panel_rules, Dry-enqueue_found) depth 8

  Dry-set_enabled : (id : ℕ) (enabled : Bool) (next : ℕ) → Dry (set_enabled w id enabled next)
  unfolding set_enabled
  Dry-set_enabled id enabled next = search panel_rules depth 8

  Dry-enable_from : (id : ℕ) (r : Result (ℕ → ℕ)) → Dry (enable_from w id r)
  Dry-enable_from id (err e) = search panel_rules
  Dry-enable_from id (ok next) = search (panel_rules, Dry-set_enabled) depth 8

  Dry-toggle_found : (r : Result Database) → Dry (toggle_found w r)
  Dry-toggle_found (err e) = search panel_rules
  Dry-toggle_found (ok d) = search (panel_rules, Dry-set_enabled, Dry-enable_from) depth 8

  pub Dry-toggle : (id : ℕ) → Dry (toggle w id)
  unfolding toggle
  Dry-toggle id = search (panel_rules, Dry-toggle_found) depth 8

  pub Dry-delete : (id : ℕ) → Dry (delete w id)
  unfolding delete
  Dry-delete id = search panel_rules depth 8
