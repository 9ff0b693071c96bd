-- ===== src/Store/Invariant/Statements.antt =====
-- Every statement keeps the tables sound, whatever its arguments.
use base_guard.Base.{
  ℕ, String, ◌≤◌, ◌<◌, ◌≡◌, refl, Bool, true, false, List, [], ◌∷◌, Option, none, some, first, All,
  inl, inr, Bool-cases, arith, ◌==◌, update_where,
}
use base_guard.Model.{Database, Run, running, interrupted}
use base_guard.Store.Tables.{
  Tables, Statement, DatabaseRow, create_tables, add_client_info, set_user_version, apply,
  is_active, is_queued, is_busy, is_listed, on_run, start, insert_database, update_database,
  set_schedule, advance, delete_database, enqueue_listed, enqueue_due, claim, interrupt_running,
  set_client_info, set_path, succeed, fail, note_error, expire, insert_setting, update_setting,
  insert_session, delete_session, delete_expired, delete_sessions, append_run, interruption,
}
use base_guard.Store.Invariant.Ids.{Rising, Rising-append, Rising-select, Rising-update}
use base_guard.Store.Invariant.OneActive.{Exclusive, Exclusive-append, Exclusive-update, Calm}

abbrev pub run_id : Run → ℕ
run_id r = r.id

abbrev pub database_row_id : DatabaseRow → ℕ
database_row_id r = r.id

-- Ids rise and were given out, and no database has two runs that are queued or running.
pub record IsSound (t : Tables) : Type 0 where
  pub run_ids : Rising run_id 0 t.run_seq t.runs
  pub database_ids : Rising database_row_id 0 t.database_seq t.databases
  pub one_active : Exclusive t.runs

Calm-always :
    (p : Run → Bool) (f : Run → Run) (same : (r : Run) → (f r).database_id ≡ r.database_id)
    → ((r : Run) → is_active (f r).status ≡ true → is_active r.status ≡ true)
    → (rs : List Run) → All (Calm p f same) rs
Calm-always p f same c [] = tt
Calm-always p f same c (r ∷ rs) = (λ _. c r, Calm-always p f same c rs)

-- The runs table after an UPDATE that keeps ids and databases and starts nothing.
runs-IsSound :
    (p : Run → Bool) (f : Run → Run) (t : Tables)
    → ((r : Run) → (f r).id ≡ r.id)
    → (same : (r : Run) → (f r).database_id ≡ r.database_id) → All (Calm p f same) t.runs
    → IsSound t
    → IsSound (record t { runs = update_where p f t.runs })
runs-IsSound p f t ids same c h = record {
  run_ids = Rising-update run_id p f ids 0 t.run_seq t.runs h.run_ids;
  database_ids = h.database_ids;
  one_active = Exclusive-update p f same t.runs c h.one_active;
}

on_run-IsSound :
    (id : ℕ) (f : Run → Run) (t : Tables)
    → ((r : Run) → (f r).id ≡ r.id)
    → ((r : Run) → (f r).database_id ≡ r.database_id)
    → ((r : Run) → is_active (f r).status ≡ true → is_active r.status ≡ true)
    → IsSound t
    → IsSound (on_run id f t)
on_run-IsSound id f t ids same c h =
    runs-IsSound (λ r. r.id == id) f t ids same (Calm-always _ f same c t.runs) h

databases-IsSound :
    (p : DatabaseRow → Bool) (f : DatabaseRow → DatabaseRow) (t : Tables)
    → ((r : DatabaseRow) → (f r).id ≡ r.id)
    → IsSound t
    → IsSound (record t { databases = update_where p f t.databases })
databases-IsSound p f t ids h = record {
  run_ids = h.run_ids;
  database_ids = Rising-update database_row_id p f ids 0 t.database_seq t.databases h.database_ids;
  one_active = h.one_active;
}

-- The claimed row: the first queued one, and no other row has its id.
pub first-above :
    (lo hi : ℕ) (rs : List Run) (r : Run)
    → Rising run_id lo hi rs
    → first (λ q. is_queued q.status) rs ≡ some r
    → lo < r.id
first-above lo hi [] r h e = cc
first-above lo hi (q ∷ rs) r h e = elim (Bool-cases (is_queued q.status)) [
  | inl t ↦ let e' : some q ≡ some r = rw t at e in ground arith
  | inr t ↦ omega (arith, first-above q.id hi rs r h.1 (rw t at e))
]

abbrev starts : ℕ → Run → Run
starts now q = record q { status = running; started = now }

Calm-above :
    (now id lo hi : ℕ) (rs : List Run)
    → id ≤ lo
    → Rising run_id lo hi rs
    → All (Calm (λ q. q.id == id) (starts now) (λ q. refl)) rs
Calm-above now id lo hi [] l h = tt
Calm-above now id lo hi (q ∷ rs) l h =
    (λ same _. ground arith, Calm-above now id q.id hi rs (omega arith) h.1)

Calm-claim :
    (now lo hi : ℕ) (rs : List Run) (r : Run)
    → Rising run_id lo hi rs
    → first (λ q. is_queued q.status) rs ≡ some r
    → All (Calm (λ q. q.id == r.id) (starts now) (λ q. refl)) rs
Calm-claim now lo hi [] r h e = tt
Calm-claim now lo hi (q ∷ rs) r h e = elim (Bool-cases (is_queued q.status)) [
  | inl t ↦
      let e' : some q ≡ some r = rw t at e in
      (λ _ _. ground arith, Calm-above now r.id q.id hi rs (ground arith) h.1)
  | inr t ↦
      let e' : first (λ x. is_queued x.status) rs ≡ some r = rw t at e in
      (
        λ same _. ground (arith, first-above q.id hi rs r h.1 e'),
        Calm-claim now q.id hi rs r h.1 e',
      )
]

start-IsSound :
    (now : ℕ) (o : Option Run) (t : Tables)
    → first (λ q. is_queued q.status) t.runs ≡ o
    → IsSound t
    → IsSound (start now o t)
start-IsSound now none t e h = h
start-IsSound now (some r) t e h =
    runs-IsSound (λ q. q.id == r.id) (starts now) t (λ q. refl) (λ q. refl)
      (Calm-claim now 0 t.run_seq t.runs r h.run_ids e) h

append_run-IsSound :
    (d : Database) (trigger : String) (now : ℕ) (t : Tables)
    → is_busy d.id t ≡ false
    → IsSound t
    → IsSound (append_run d trigger now t)
append_run-IsSound d trigger now t free h = record {
  run_ids = Rising-append run_id 0 t.run_seq t.runs _ refl h.run_ids;
  database_ids = h.database_ids;
  one_active = Exclusive-append t.runs _ free h.one_active;
}

abbrev interrupts : ℕ → Run → Run
interrupts now r = record r { status = interrupted; finished = now; error = interruption }

-- Every statement of the program, run on sound tables, leaves sound tables: so the unique index on
-- active runs never has anything to reject, in any interleaving of statements.
pub apply-IsSound : (s : Statement) (t : Tables) → IsSound t → IsSound (apply s t)
unfolding apply
apply-IsSound (insert_database config enabled next) t h = record {
  run_ids = h.run_ids;
  database_ids = Rising-append database_row_id 0 t.database_seq t.databases _ refl h.database_ids;
  one_active = h.one_active;
}
apply-IsSound (update_database id config enabled next) t h = databases-IsSound _ _ t (λ r. refl) h
apply-IsSound (set_schedule id enabled next) t h = databases-IsSound _ _ t (λ r. refl) h
apply-IsSound (advance id next seen) t h = databases-IsSound _ _ t (λ r. refl) h
apply-IsSound (delete_database id) t h = elim (Bool-cases (is_busy id t)) [
  | inl e ↦ rw e h
  | inr e ↦ rw e (record {
    run_ids = h.run_ids;
    database_ids = Rising-select database_row_id _ 0 t.database_seq t.databases h.database_ids;
    one_active = h.one_active;
  })
]
apply-IsSound (enqueue_listed d trigger now) t h = elim (Bool-cases (is_busy d.id t)) [
  | inl e ↦ elim (Bool-cases (is_listed d.id t)) [ inl l ↦ rw (l, e) h | inr l ↦ rw l h ]
  | inr e ↦ elim (Bool-cases (is_listed d.id t)) [
    | inl l ↦ rw (l, e) (append_run-IsSound d trigger now t e h)
    | inr l ↦ rw l h
  ]
]
apply-IsSound (enqueue_due d trigger now) t h = elim (Bool-cases (is_busy d.id t)) [
  | inl e ↦ rw e h
  | inr e ↦ rw e (append_run-IsSound d trigger now t e h)
]
apply-IsSound (claim now) t h = start-IsSound now _ t refl h
apply-IsSound (interrupt_running now) t h =
    runs-IsSound _ (interrupts now) t (λ r. refl) (λ r. refl)
      (Calm-always _ (interrupts now) (λ r. refl) (λ r a. cc) t.runs) h
apply-IsSound (set_client_info id info) t h =
    on_run-IsSound id _ t (λ r. refl) (λ r. refl) (λ r a. a) h
apply-IsSound (set_path id destination path) t h =
    on_run-IsSound id _ t (λ r. refl) (λ r. refl) (λ r a. a) h
apply-IsSound (succeed id size sum now) t h =
    on_run-IsSound id _ t (λ r. refl) (λ r. refl) (λ r a. cc) h
apply-IsSound (fail id now why) t h = on_run-IsSound id _ t (λ r. refl) (λ r. refl) (λ r a. cc) h
apply-IsSound (note_error id why) t h = on_run-IsSound id _ t (λ r. refl) (λ r. refl) (λ r a. a) h
apply-IsSound (expire id) t h = on_run-IsSound id _ t (λ r. refl) (λ r. refl) (λ r a. cc) h
apply-IsSound (insert_setting key value) t h = record {
  run_ids = h.run_ids;
  database_ids = h.database_ids;
  one_active = h.one_active;
}
apply-IsSound (update_setting key value) t h = record {
  run_ids = h.run_ids;
  database_ids = h.database_ids;
  one_active = h.one_active;
}
apply-IsSound (insert_session s) t h = record {
  run_ids = h.run_ids;
  database_ids = h.database_ids;
  one_active = h.one_active;
}
apply-IsSound (delete_session token) t h = record {
  run_ids = h.run_ids;
  database_ids = h.database_ids;
  one_active = h.one_active;
}
apply-IsSound (delete_expired now) t h = record {
  run_ids = h.run_ids;
  database_ids = h.database_ids;
  one_active = h.one_active;
}
apply-IsSound delete_sessions t h = record {
  run_ids = h.run_ids;
  database_ids = h.database_ids;
  one_active = h.one_active;
}
apply-IsSound create_tables t h = h
apply-IsSound add_client_info t h = record {
  run_ids = h.run_ids;
  database_ids = h.database_ids;
  one_active = h.one_active;
}
apply-IsSound (set_user_version n) t h = record {
  run_ids = h.run_ids;
  database_ids = h.database_ids;
  one_active = h.one_active;
}
