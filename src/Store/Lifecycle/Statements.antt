-- ===== src/Store/Lifecycle/Statements.antt =====
-- What the statements do to the lives of the runs.
use base_guard.Base.{
  ℕ, ◌≡◌, refl, String, Bool, true, not, ◌&&◌, List, [], ◌∷◌, Option, none, some, first,
  update_where, ◌==◌, All, Bool-cases, inl, inr,
}
use base_guard.Model.{Run, Status, running}
use base_guard.Store.Tables.{
  Tables, Statement, create_tables, add_client_info, set_user_version, apply, is_queued, is_running,
  is_busy, is_listed, start, insert_database, update_database, set_schedule, advance,
  delete_database, enqueue_listed, enqueue_due, claim, interrupt_running, set_client_info, set_path,
  succeed, fail, note_error, expire, insert_setting, update_setting, insert_session, delete_session,
  delete_expired, delete_sessions,
}
use base_guard.Store.Invariant.{IsSound, apply-IsSound}
use base_guard.Store.Law.{is_free, Law}
use base_guard.Store.Lifecycle.{
  here, Became, Evolves, Evolves-append, Evolves-update, Each, Each-Became,
}
use base_guard.Store.Lifecycle.Rows.{
  became, is_queued-begin, is_running-finish, is_running-break_off, is_running-crash, is_spent,
  is_spent-age, Lives, claimed-Each, begun-Each,
}

-- A change that leaves the status and what the run is of.
module _ (old : List Run) (p : Run → Bool) (f : Run → Run) where
  always-Became :
      ((r : Run) → p r ≡ true → Became r (f r))
      → (rs : List Run) → All (λ r. p r ≡ true → Became r (f r)) rs
  always-Became k [] = tt
  always-Became k (r ∷ rs) = (k r, always-Became k rs)

  Evolves-always :
      (rs : List Run)
      → ((r : Run) → p r ≡ true → Became r (f r))
      → Evolves old rs
      → Evolves old (update_where p f rs)
  Evolves-always rs k h = Evolves-update p f old rs (always-Became k rs) h

start-Evolves :
    (old : List Run) (now : ℕ) (o : Option Run) (t : Tables)
    → first (λ q. is_queued q.status) t.runs ≡ o
    → Lives old t
    → Evolves old (start now o t).runs
start-Evolves old now none t e h = h.1
start-Evolves old now (some r) t e h =
    let f : Run → Run = λ q. record q { status = running; started = now } in
    Evolves-update (λ q. q.id == r.id) f old t.runs
      (Each-Became is_queued r.id f t.runs
        (λ q k. became q (f q) refl refl refl refl refl (is_queued-begin q.status k))
        (claimed-Each 0 t.run_seq t.runs r h.0.run_ids e))
      h.1

-- A statement that presumes no status moves every run along the diagram.
apply-Evolves :
    (old : List Run) (s : Statement) (t : Tables)
    → is_free s ≡ true
    → Lives old t
    → Evolves old (apply s t).runs
unfolding apply
apply-Evolves old (insert_database config enabled next) t f h = h.1
apply-Evolves old (update_database id config enabled next) t f h = h.1
apply-Evolves old (set_schedule id enabled next) t f h = h.1
apply-Evolves old (advance id next seen) t f h = h.1
apply-Evolves old (delete_database id) t f h = elim (Bool-cases (is_busy id t)) [
  | inl e ↦ rw e h.1
  | inr e ↦ rw e h.1
]
apply-Evolves old (enqueue_listed d trigger now) t f h =
    elim (Bool-cases (is_listed d.id t && not (is_busy d.id t))) [
      | inl e ↦ rw e (Evolves-append old t.runs _ h.1)
      | inr e ↦ rw e h.1
    ]
apply-Evolves old (enqueue_due d trigger now) t f h = elim (Bool-cases (is_busy d.id t)) [
  | inl e ↦ rw e h.1
  | inr e ↦ rw e (Evolves-append old t.runs _ h.1)
]
apply-Evolves old (claim now) t f h = start-Evolves old now _ t refl h
apply-Evolves old (interrupt_running now) t f h =
    Evolves-always old (λ r. is_running r.status) _ t.runs
      (λ r e. became r _ refl refl refl refl refl (is_running-crash r.status e)) h.1
apply-Evolves old (set_client_info id info) t f h =
    Evolves-always old (λ r. r.id == id) _ t.runs (λ r e. became r _ refl refl refl refl refl here)
      h.1
apply-Evolves old (set_path id destination path) t f h = cc f
apply-Evolves old (succeed id size sum now) t f h = cc f
apply-Evolves old (fail id now why) t f h = cc f
apply-Evolves old (note_error id why) t f h =
    Evolves-always old (λ r. r.id == id) _ t.runs (λ r e. became r _ refl refl refl refl refl here)
      h.1
apply-Evolves old (expire id) t f h = cc f
apply-Evolves old (insert_setting key value) t f h = h.1
apply-Evolves old (update_setting key value) t f h = h.1
apply-Evolves old (insert_session s) t f h = h.1
apply-Evolves old (delete_session token) t f h = h.1
apply-Evolves old (delete_expired now) t f h = h.1
apply-Evolves old delete_sessions t f h = h.1
apply-Evolves old create_tables t f h = h.1
apply-Evolves old add_client_info t f h = h.1
apply-Evolves old (set_user_version n) t f h = h.1

pub Lives-law : (old : List Run) → Law (Lives old)
Lives-law old = record { at = λ s t f h. (apply-IsSound s t h.0, apply-Evolves old s t f h) }

pub IsSound-law : Law IsSound
IsSound-law = record { at = λ s t _. apply-IsSound s t }

-- The place of a run says nothing of its status.
pub set_path-Lives :
    (old : List Run) (id : ℕ) (destination path : String) (t : Tables)
    → Lives old t
    → Lives old (apply (set_path id destination path) t)
unfolding apply
set_path-Lives old id destination path t h = (
  apply-IsSound (set_path id destination path) t h.0,
  Evolves-always old (λ r. r.id == id) _ t.runs (λ r e. became r _ refl refl refl refl refl here)
      h.1,
)

-- The statements that presume one.
module _ (old : List Run) (id : ℕ) (t : Tables) (h : Lives old t) where
  on_run-Evolves :
      (ok : Status → Bool) (f : Run → Run)
      → ((q : Run) → ok q.status ≡ true → Became q (f q))
      → Each ok id t.runs
      → Evolves old (update_where (λ q. q.id == id) f t.runs)
  on_run-Evolves ok f k e =
      Evolves-update (λ q. q.id == id) f old t.runs (Each-Became ok id f t.runs k e) h.1

  pub succeed-Lives :
      (size : ℕ) (sum : String) (now : ℕ)
      → Each is_running id t.runs
      → Lives old (apply (succeed id size sum now) t)
  unfolding apply
  succeed-Lives size sum now e = (
    apply-IsSound (succeed id size sum now) t h.0,
    on_run-Evolves is_running _
        (λ q k. became q _ refl refl refl refl refl (is_running-finish q.status k)) e,
  )

  pub fail-Lives :
      (now : ℕ) (why : String) → Each is_running id t.runs → Lives old (apply (fail id now why) t)
  unfolding apply
  fail-Lives now why e = (
    apply-IsSound (fail id now why) t h.0,
    on_run-Evolves is_running _
        (λ q k. became q _ refl refl refl refl refl (is_running-break_off q.status k)) e,
  )

  pub expire-Lives : Each is_spent id t.runs → Lives old (apply (expire id) t)
  unfolding apply
  expire-Lives e = (
    apply-IsSound (expire id) t h.0,
    on_run-Evolves is_spent _ (λ q k. became q _ refl refl refl refl refl (is_spent-age q.status k))
        e,
  )

-- The claimed run is running after the claim.
pub claim-Each :
    (now : ℕ) (t : Tables) (r : Run)
    → first (λ q. is_queued q.status) t.runs ≡ some r
    → Each is_running r.id (apply (claim now) t).runs
unfolding apply
claim-Each now t r e = rw e (begun-Each now r.id t.runs)
