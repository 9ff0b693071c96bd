-- ===== src/Store/Law.antt =====
-- Predicates of the tables that the statements keep, apart from those that take a run to be in a
-- state that the program remembers; and the store's methods, which keep them all.
use base_guard.Base.{ℕ, String, Bool, true, false, ◌≡◌, refl}
use base_guard.Disk.{Bytes}
use base_guard.Model.{Database}
use base_guard.Security.{Cipher, encrypt}
use base_guard.Store.Tables.{Tables, Statement, set_path, succeed, fail, expire, apply}
use base_guard.Store.Methods.{
  keep_next_run, write_database, save, databases, database, enqueue, claim_run,
}
use base_guard.Exec.{exec, run}
use base_guard.Exec.Keeps.{Keeps, Keeps-exec, Keeps-run, keeps_rules}

-- The statements that place, end or expire the run of an id take it to be running, or successful; what the
-- other ones do does not depend on a status that the program remembers.
abbrev pub is_free : Statement → Bool
is_free (succeed id size sum now) = false
is_free (fail id now why) = false
is_free (expire id) = false
is_free (set_path id destination path) = false
is_free _ = true

pub record Law (P : Tables → Type 0) : Type 0 where
  pub at : (s : Statement) (t : Tables) → is_free s ≡ true → P t → P (apply s t)

module _ {P : Tables → Type 0} where
  pub Law-run : Law P → (s : Statement) → is_free s ≡ true → Keeps P (run s)
  Law-run k s f = Keeps-run s (λ t _. k.at s t f)

  pub Law-exec :
      Law P → {A : Type 0} (s : Statement) (f : Tables → A) → is_free s ≡ true → Keeps P (exec s f)
  Law-exec k s f free = Keeps-exec s f (λ t _. k.at s t free)

pub ruleset law_rules = (keeps_rules, Law-run, Law-exec, refl)

module _ {P : Tables → Type 0} (k : Law P) where
  Law-encrypt : (c : Cipher) (key : Bytes) (s : String) → Keeps P (encrypt c key s)
  unfolding encrypt
  Law-encrypt c key s = search law_rules

  Law-keep_next_run : (d : Database) → Keeps P (keep_next_run d)
  unfolding keep_next_run
  Law-keep_next_run d = search law_rules

  Law-write_database : (d : Database) (sealed : String) → Keeps P (write_database d sealed)
  unfolding write_database
  Law-write_database d sealed = search law_rules

  pub Law-save : (c : Cipher) (key : Bytes) (d : Database) → Keeps P (save c key d)
  unfolding save
  Law-save c key d = search (law_rules, Law-encrypt, Law-keep_next_run, Law-write_database)

  pub Law-databases : (c : Cipher) (key : Bytes) → Keeps P (databases c key)
  unfolding databases
  Law-databases c key = search law_rules

  pub Law-database : (c : Cipher) (key : Bytes) (id : ℕ) → Keeps P (database c key id)
  unfolding database
  Law-database c key id = search (law_rules, Law-databases)

  pub Law-enqueue : (d : Database) (trigger : String) (now : ℕ) → Keeps P (enqueue d trigger now)
  unfolding enqueue
  Law-enqueue d trigger now = search law_rules

  pub Law-claim_run : Keeps P claim_run
  unfolding claim_run
  Law-claim_run = search law_rules
