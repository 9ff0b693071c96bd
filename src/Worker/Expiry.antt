-- ===== src/Worker/Expiry.antt =====
-- `retain` and the lives of the runs: a run that expires is a successful one.
use mathlib.Core.List.{reverse-cons}
use base_guard.Base.{
  zero, suc, arith, ℕ, ◌≡◌, refl, sym, subst, true, List, [], ◌∷◌, ◌++◌, reverse, drop, select,
  ◌==◌, All, Result, ok, err, collect,
}
use base_guard.Backup.Destination.{open_destination, remove_file}
use base_guard.Model.{Status, success, expired, Database, Run, magnitude}
use base_guard.Store.Tables.{Tables, apply, is_success, note_error, expire}
use base_guard.Store.Methods.{scan_run}
use base_guard.Store.Law.{Law-run}
use base_guard.Store.Lifecycle.{Each, Each-update}
use base_guard.Store.Lifecycle.Rows.{Lives, is_spent, selected-Each}
use base_guard.Store.Lifecycle.Statements.{Lives-law, expire-Lives}
use base_guard.Exec.{Io, pure, lift, query, run, try_io}
use base_guard.Exec.Keeps.{Keeps-try}
use base_guard.Exec.Leads.{
  Outcome, Leads, Leads-pure, Leads-query, Leads-lift, Leads-keep, Leads-bind, Leads-try, Leads-run,
}
use base_guard.Backup.Keeps.{Keeps-remove_file, Keeps-open_destination}
use base_guard.Worker.Methods.{Worker, ignore, tolerate, expire_run, expire_runs, retain, noted}
use base_guard.Worker.Retention.{success_of, surplus, collect-scan_run}
use base_guard.Worker.Claiming.{Spent}

-- Lists of rows that an expiry reads.
module _ {A : Type 0} (Q : A → Type 0) where
  All-append : (xs : List A) (x : A) → All Q xs → Q x → All Q (xs ++ x ∷ [])
  All-append [] x h q = (q, tt)
  All-append (y ∷ xs) x (h, hs) q = (h, All-append xs x hs q)

  All-reverse : (xs : List A) → All Q xs → All Q (reverse xs)
  All-reverse [] h = tt
  All-reverse (x ∷ xs) (h, hs) =
      subst (All Q) (sym (reverse-cons x xs)) (All-append (reverse xs) x (All-reverse xs hs) h)

  All-drop : (n : ℕ) (xs : List A) → All Q xs → All Q (drop n xs)
  All-drop zero xs h = h
  All-drop (suc n) [] h = tt
  All-drop (suc n) (x ∷ xs) (h, hs) = All-drop n xs hs

All-mono :
    {A : Type 0} (Q R : A → Type 0) → ((x : A) → Q x → R x) → (xs : List A) → All Q xs → All R xs
All-mono Q R k [] h = tt
All-mono Q R k (x ∷ xs) (h, hs) = (k x h, All-mono Q R k xs hs)

success_of-is_spent : (d : Database) (q : Run) → success_of d q ≡ true → is_spent q.status ≡ true
success_of-is_spent d q h = spent q.status (ground arith)
  where
    spent : (s : Status) → is_success s ≡ true → is_spent s ≡ true
    spent success e = refl
    spent expired e = refl
    spent _ e = cc e

is_spent-expired : (q : Run) → is_spent (record q { status = expired }).status ≡ true
is_spent-expired q = refl

-- An action whose outcome is dropped leaves what it leaves either way.
pub ignore-lead :
    {A : Type 0} {P Q E : Tables → Type 0} (m : Io A)
    → Leads P (λ _. Q) Q m
    → Leads P (λ _. Q) E (ignore m)
unfolding ignore
ignore-lead {A} {P} {Q} {E} m k = Leads-bind (try_io m) _ (Leads-try {E' = E} m k) dropped
  where
    dropped : (r : Result A) → Leads (Outcome (λ _. Q) Q r) (λ _. Q) E (pure (tt {0}))
    dropped (ok a) = Leads-pure tt (λ t h. h)
    dropped (err e) = Leads-pure tt (λ t h. h)

module _ (w : Worker) (old : List Run) where
  expire_run-Spent :
      (r : Run) (rows : List Run)
      → Leads (Spent old (r ∷ rows)) (λ _. Spent old rows) (Lives old) (expire_run w r)
  unfolding expire_run apply
  expire_run-Spent r rows =
      Leads-bind (open_destination w.destinations r.destination) _
        (Leads-keep _ (Keeps-open_destination w.destinations r.destination) (λ t h. h.0)
          (λ _ t h. h))
        λ root.
          Leads-bind (try_io (remove_file root r.path)) _
            (Leads-keep _ (Keeps-try _ (Keeps-remove_file root r.path)) (λ t h. h.0) (λ _ t h. h))
            λ gone.
              Leads-bind (lift (tolerate w gone)) _
                (Leads-lift {Q = λ _. Spent old (r ∷ rows)} _ (λ t h. h.0) (λ _ t _ h. h))
                λ _.
                  Leads-run (expire r.id) (λ t h. h.0)
                    λ t h. (expire-Lives old r.id t h.0 h.1.0, aged t rows h.1.1)
    where
      aged :
          (t : Tables) (qs : List Run)
          → All (λ q. Each is_spent q.id t.runs) qs
          → All (λ q. Each is_spent q.id (apply (expire r.id) t).runs) qs
      aged t qs h =
          All-mono (λ q. Each is_spent q.id t.runs) _
            (λ q e.
              Each-update is_spent q.id (λ x. x.id == r.id) (λ x. record x { status = expired })
                t.runs (λ x. refl) (λ x _. refl) e)
            qs h

  expire_runs-Lives :
      (rows : List Run) → Leads (Spent old rows) (λ _. Lives old) (Lives old) (expire_runs w rows)
  unfolding expire_runs
  expire_runs-Lives [] = Leads-pure tt (λ t h. h.0)
  expire_runs-Lives (r ∷ rows) =
      Leads-bind (expire_run w r) _ (expire_run-Spent r rows) (λ _. expire_runs-Lives rows)

  surplus-Spent : (d : Database) (t : Tables) → Lives old t → Spent old (surplus d t) t
  surplus-Spent d t h = (
    h,
    All-drop _ (magnitude d.retain) (reverse (select (success_of d) t.runs)) (
        All-reverse _ (select (success_of d) t.runs) (
          All-mono _ _ (λ q e. e.1) (select (success_of d) t.runs)
            (selected-Each (success_of d) (success_of-is_spent d) 0 t.run_seq t.runs h.0.run_ids))),
  )

  pub retain-Lives : (d : Database) → Leads (Lives old) (λ _. Lives old) (Lives old) (retain w d)
  unfolding retain
  retain-Lives d =
      Leads-bind (query (surplus d)) _
        (Leads-query {Q = λ rows. Spent old rows} (surplus d) (λ t h. h) (surplus-Spent d))
        λ rows.
          Leads-bind {Q = λ rs. Spent old rs} (lift (collect scan_run rows)) _
            (Leads-lift _ (λ t h. h.0)
              λ rs t e h.
                subst (λ (x : List Run). Spent old x t) (sym (collect-scan_run rows rs e)) h)
            expire_runs-Lives

  pub noted-Lives :
      {E : Tables → Type 0} (r : Run) (o : Result (Unit {0}))
      → Leads (Outcome (λ _. Lives old) (Lives old) o) (λ _. Lives old) E (noted w r o)
  noted-Lives r (ok a) = Leads-pure tt (λ t h. h)
  noted-Lives r (err e) =
      ignore-lead (run (note_error r.id _))
        (Leads-keep _ (Law-run (Lives-law old) (note_error r.id _) refl) (λ t h. h) (λ _ t h. h))
