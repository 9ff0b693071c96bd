-- ===== src/Server/Submitted.antt =====
-- What `submitted` hands to `save`.
use base_guard.Base.{
  ℕ, ◌≡◌, ◌≢◌, ◌⊎◌, refl, subst, String, Bool, not, str_eq, eq_iff, List, [], ◌∷◌, Option, none,
  some, Result, err, sym, ap, ◌∙◌, true, false, ◌&&◌, ◌==◌, ok, Bool-cases, inl, inr, if◌then◌else◌,
  arith,
}
use base_guard.Model.{Database, schedule, validate}
use base_guard.Model.Plans.{Plans, schedule_iff}
use base_guard.Store.Tables.{Tables}
use base_guard.Store.Saving.{SameSchedule, same_schedule_iff}
use base_guard.Model.Validation.{IsValid, validate_iff}
use base_guard.Store.Methods.{database, databases, same_schedule}
use base_guard.Exec.{World, Io, pure, lift, query, time_now, continue, after_fault, ◌>>=◌}
use base_guard.Exec.Inversion.{pure-eq-ok, lift-eq-ok, >>=-elim}
use base_guard.Worker.Methods.{Worker}
use base_guard.Server.Panel.{
  completed, planned_next, unplanned, from_old, changed_schedule, submitted,
}

module _ {A : Type 0} where
  -- An action that leaves the clock alone.
  abbrev Timeless : Io A → Type 0
  Timeless m = (v : World) → (m v).1.clock ≡ v.clock

  query-clock : (f : Tables → A) → Timeless (query f)
  unfolding query
  query-clock f v = go v.faults
    where
      go :
          (fs : List (Option String))
          → (after_fault fs (λ u. (ok (f u.tables), u)) v).1.clock ≡ v.clock
      go [] = refl
      go (none ∷ rest) = refl
      go (some why ∷ rest) = refl

  lift-clock : (r : Result A) → Timeless (lift r)
  unfolding lift
  lift-clock r v = refl

bind-clock :
    {A B : Type 0} (m : Io A) (f : A → Io B)
    → Timeless m
    → ((a : A) → Timeless (f a))
    → Timeless (m >>= f)
unfolding ◌>>=◌
bind-clock {A} {B} m f k l v = go (m v).0 (m v).1 (k v)
  where
    go : (r : Result A) (u : World) → u.clock ≡ v.clock → (continue r f u).1.clock ≡ v.clock
    go (ok a) u e = l a u ∙ e
    go (err x) u e = e

time_now-clock : (u v : World) → u.clock ≡ v.clock → (time_now u).0 ≡ (time_now v).0
unfolding time_now
time_now-clock u v e = go v.clock refl
  where
    go : (c : List ℕ) → v.clock ≡ c → (time_now u).0 ≡ (time_now v).0
    go [] k = rw (e, k) refl
    go (t ∷ rest) k = rw (e, k) refl

-- What the form's record takes from the stored one: the password if the form gives none, and the
-- planned time if the form leaves the switch and the schedule alone.
abbrev pub From : Database → Database → Database → Type 0
From old form d =
    (((form.password ≡ "") × (d.password ≡ old.password))
      ⊎ ((form.password ≢ "") × (d.password ≡ form.password)))
    × ((SameSchedule old.enabled old form × (d.next_run ≡ old.next_run))
        ⊎ ((SameSchedule old.enabled old form → ⊥) × (d.next_run ≡ 0)))
    × (d ≡ record form { password = d.password; next_run = d.next_run })

changed-eq-not :
    (old form : Database) → changed_schedule old form ≡ not (same_schedule old.enabled old form)
changed-eq-not old form = ground arith

from_old-From : (old form : Database) → From old form (from_old old form)
from_old-From old form = (kept_password, planned, refl)
  where
    kept_password :
        ((form.password ≡ "")
          × ((if str_eq form.password "" then old.password else form.password) ≡ old.password))
        ⊎ ((form.password ≢ "")
            × ((if str_eq form.password "" then old.password else form.password) ≡ form.password))
    kept_password = elim (Bool-cases (str_eq form.password "")) [
      | inl t ↦ inl ((eq_iff form.password "").0 t, ground arith)
      | inr t ↦ inr (ground (arith, eq_iff form.password ""), ground arith)
    ]

    same_or_not : (b : Bool) → b ≡ true → b ≡ false → ⊥
    same_or_not b x y = cc (x, y)

    planned :
        (SameSchedule old.enabled old form
          × ((if changed_schedule old form then 0 else old.next_run) ≡ old.next_run))
        ⊎ ((SameSchedule old.enabled old form → ⊥)
            × ((if changed_schedule old form then 0 else old.next_run) ≡ 0))
    planned =
        let (to, from) = same_schedule_iff old.enabled old form in
        elim (Bool-cases (same_schedule old.enabled old form)) [
          | inl t ↦
              let c : changed_schedule old form ≡ false = changed-eq-not old form ∙ ap not t in
              inl (to t, ap (λ b. if b then 0 else old.next_run) c)
          | inr t ↦
              let c : changed_schedule old form ≡ true = changed-eq-not old form ∙ ap not t in
              inr (
                (λ h. same_or_not (same_schedule old.enabled old form) (from h) t),
                ap (λ b. if b then 0 else old.next_run) c,
              )
        ]

module _ (w : Worker) where
  -- The record before it is planned: the form's, or the form's completed from the stored record.
  abbrev pub Completed : World → Database → Database → Type 0
  Completed v form d =
      ((form.id ≡ 0) × (d ≡ form))
      ⊎ ((form.id ≢ 0)
          × (old : Database) × (v1 : World) × (database w.cipher w.key form.id v ≡ (ok old, v1))
          × From old form d)

  -- The planned time of a record that is handed on: none of one that is switched off, what it had if it
  -- had one, and else the schedule's next time after the time that is read.
  abbrev pub Next : World → Database → ℕ → Type 0
  Next v d n =
      ((d.enabled ≡ false) × (n ≡ 0))
      ⊎ (((d.enabled ≡ true) × (d.next_run ≢ 0) × (n ≡ d.next_run))
          ⊎ ((d.enabled ≡ true)
              × (d.next_run ≡ 0)
              × (next : ℕ → ℕ) × (now : ℕ) × Plans w.cron d next
              × ((time_now v).0 ≡ ok now)
              × (n ≡ next now)))

  completed-clock : (form : Database) → Timeless (completed w form)
  unfolding completed database databases pure
  completed-clock form v = elim (Bool-cases (form.id == 0)) [
    | inl e ↦ rw e refl
    | inr e ↦ rw e (
        bind-clock (database w.cipher w.key form.id) (λ old. pure (from_old old form))
          (bind-clock (databases w.cipher w.key) _
            (bind-clock (query _) _ (query-clock _) (λ rows. lift-clock _)) (λ ds. lift-clock _))
          (λ old u. refl) v)
  ]

  completed-Completed :
      (form d : Database) (v v' : World) → completed w form v ≡ (ok d, v') → Completed v form d
  unfolding completed
  completed-Completed form d v v' h = elim (Bool-cases (form.id == 0)) [
    | inl e ↦
        let k : pure form v ≡ (ok d, v') = rw (e, completed) at h in
        inl (ground arith, (pure-eq-ok form v k).0)
    | inr e ↦
        let k = rw (e, completed) at h in
        >>=-elim (database w.cipher w.key form.id) _ v k λ old v1 e1 k1. inr (
          ground arith,
          old,
          v1,
          e1,
          subst (From old form) (sym (pure-eq-ok (from_old old form) v1 k1).0)
              (from_old-From old form),
        )
  ]

  unplanned-on : (d : Database) → d.enabled ≡ true → unplanned w d ≡ d
  unplanned-on d on = ap (λ b. if b then d else record d { next_run = 0 }) on

  unplanned-off : (d : Database) → d.enabled ≡ false → unplanned w d ≡ record d { next_run = 0 }
  unplanned-off d off = ap (λ b. if b then d else record d { next_run = 0 }) off

  planned_next-Next :
      (d p : Database) (v v' : World)
      → planned_next w d v ≡ (ok p, v')
      → Next v d (unplanned w p).next_run
        × (unplanned w p ≡ record d { next_run = (unplanned w p).next_run })
  unfolding planned_next
  planned_next-Next d p v v' h = elim (Bool-cases (d.enabled && d.next_run == 0)) [
    | inl b ↦
        let k : (lift (schedule w.cron d) >>= λ next.
        time_now >>= λ now. pure (record d { next_run = next now }))
              v
            ≡ (ok p, v') =
          rw (b, planned_next) at h in
        let on : d.enabled ≡ true = ground arith in
        >>=-elim (lift (schedule w.cron d)) _ v k λ next v1 e1 k1.
          >>=-elim time_now _ v1 k1 λ now v2 e2 k2.
            let (s, same) = lift-eq-ok _ v e1 in
            let read : (time_now v).0 ≡ ok now =
              ap (λ x. (time_now x).0) (sym same) ∙ ap (λ x. x.0) e2 in
            let (e, _) = pure-eq-ok (record d { next_run = next now }) v2 k2 in
            let u = unplanned-on p (ap (λ x. x.enabled) e ∙ on) ∙ e in
            (
              inr (
                  inr (
                    on,
                    ground arith,
                    next,
                    now,
                    (schedule_iff w.cron d next).0 s,
                    read,
                    ap (λ x. x.next_run) u,
                  )),
              u ∙ ap (λ n. record d { next_run = n }) (sym (ap (λ x. x.next_run) u)),
            )
    | inr b ↦
        let k : pure d v ≡ (ok p, v') = rw (b, planned_next) at h in
        let (e, _) = pure-eq-ok d v k in
        elim (Bool-cases d.enabled) [
          | inl on ↦
              let u = unplanned-on p (ap (λ x. x.enabled) e ∙ on) ∙ e in
              (
                inr (inl (on, ground arith, ap (λ x. x.next_run) u)),
                u ∙ ap (λ n. record d { next_run = n }) (sym (ap (λ x. x.next_run) u)),
              )
          | inr off ↦
              let u =
                unplanned-off p (ap (λ x. x.enabled) e ∙ off)
                ∙ ap (λ (x : Database). record x { next_run = 0 }) e in
              (
                inl (off, ap (λ x. x.next_run) u),
                u ∙ ap (λ n. record d { next_run = n }) (sym (ap (λ x. x.next_run) u)),
              )
        ]
  ]

  at_clock :
      (u v : World) (d : Database) (n : ℕ)
      → (time_now u).0 ≡ (time_now v).0
      → Next u d n
      → Next v d n
  at_clock u v d n e (inl h) = inl h
  at_clock u v d n e (inr (inl h)) = inr (inl h)
  at_clock u v d n e (inr (inr (a, b, next, now, s, r, k))) =
      inr (inr (a, b, next, now, s, sym e ∙ r, k))

  -- A form that `submitted` accepts: the record is the form's, and if the form names a stored one, it keeps the
  -- stored password where the form leaves it empty, and the stored planned time where the form changes neither
  -- the switch nor the schedule, and none where it does; it is valid; and it is handed on with its planned time
  -- alone changed: to none if it is switched off, and if it is switched on without one, to the next
  -- time of its schedule after the time that is read.
  pub submitted-Next :
      (form d : Database) (v v' : World)
      → submitted w form v ≡ (ok d, v')
      → (c : Database) × Completed v form c
        × IsValid w.cron w.destinations c
        × Next v c d.next_run
        × (d ≡ record c { next_run = d.next_run })
  unfolding submitted
  submitted-Next form d v v' h = >>=-elim (completed w form) _ v h λ c v1 e1 k1.
      >>=-elim (lift (validate w.cron w.destinations c)) _ v1 k1 λ u v2 e2 k2.
        >>=-elim (planned_next w c) _ v2 k2 λ p v3 e3 k3.
          let (e, _) = pure-eq-ok (unplanned w p) v3 k3 in
          let (n, same) = planned_next-Next c p v2 v3 e3 in
          let clock : v2.clock ≡ v.clock =
            ap (λ x. x.clock) (lift-eq-ok _ v1 e2).1
            ∙ sym (ap (λ x. x.1.clock) e1)
            ∙ completed-clock form v in
          let read = time_now-clock v2 v clock in
          let valid = (validate_iff w.cron w.destinations c).0 ((lift-eq-ok _ v1 e2).0) in
          rw e (
            c,
            completed-Completed form c v v1 e1,
            valid,
            at_clock v2 v c (unplanned w p).next_run read n,
            same,
          )
