-- ===== src/Command/Ready.antt =====
-- What the later steps of a start keep once the earlier ones established it.
use base_guard.Base.{
  ℕ, ◌≡◌, refl, ap, sym, ◌∙◌, String, Bool, true, false, ◌||◌, List, [], ◌∷◌, ◌++◌, Option, none,
  some, any, first, str_eq, ok, Bool-cases, inl, inr, arith,
}
use base_guard.Model.{Database, Run}
use base_guard.Store.Tables.{Tables, apply, advance, enqueue_due, is_busy, is_running, append_run}
use base_guard.Store.Methods.{databases, setting, or_no_rows}
use base_guard.Exec.{World, lift, query}
use base_guard.Exec.Keeps.{
  Keeps, Keeps-bind, Keeps-pure, Keeps-if, Keeps-transaction, Keeps-run, Keeps-exec, keeps_rules,
}
use base_guard.Exec.Inversion.{>>=-elim, pure-eq-ok, lift-eq-ok, query-eq-ok}
use base_guard.Worker.Methods.{Worker, plan, schedule_one, schedule_list, schedule_all}

abbrev pub has_password : Tables → Bool
has_password t = any (λ e. str_eq e.0 "admin_hash") t.settings

abbrev pub has_running : Tables → Bool
has_running t = any (λ r. is_running r.status) t.runs

pub any-append :
    {A : Type 0} (p : A → Bool) (xs : List A) (x : A) → any p (xs ++ x ∷ []) ≡ (any p xs || p x)
any-append p [] x = ground arith
any-append p (y ∷ xs) x = ground (arith, any-append p xs x)

-- The schema is current, the administrator has a password, and no run is running.
abbrev pub IsReady : Tables → Type 0
IsReady t =
    (t.user_version ≡ 2)
    × (t.has_client_info ≡ true)
    × (has_password t ≡ true)
    × (has_running t ≡ false)

append_run-IsReady :
    (d : Database) (trigger : String) (now : ℕ) (t : Tables)
    → IsReady t
    → IsReady (append_run d trigger now t)
append_run-IsReady d trigger now t (v, c, p, r) =
    (v, c, p, any-append (λ (q : Run). is_running q.status) t.runs _ ∙ ap (λ b. b || false) r)

enqueue_due-IsReady :
    (d : Database) (trigger : String) (now : ℕ) (t : Tables)
    → IsReady t
    → IsReady (apply (enqueue_due d trigger now) t)
unfolding apply
enqueue_due-IsReady d trigger now t h = elim (Bool-cases (is_busy d.id t)) [
  | inl e ↦ rw e h
  | inr e ↦ rw e (append_run-IsReady d trigger now t h)
]

module _ (w : Worker) where
  Ready-plan :
      (now : ℕ) (trigger : String) (d : Database) (next : ℕ → ℕ)
      → Keeps IsReady (plan w now trigger d next)
  unfolding plan apply
  Ready-plan now trigger d next =
      let queue =
        Keeps-run {P = IsReady} (enqueue_due d trigger now)
          (λ t _ h. enqueue_due-IsReady d trigger now t h) in
      Keeps-transaction _ (
        Keeps-bind _ _ (Keeps-exec (advance d.id (next now) d.next_run) _ (λ t _ h. h))
          (λ n. Keeps-if _ _ _ queue (Keeps-pure tt)))

  Ready-schedule_one :
      (now : ℕ) (trigger : String) (d : Database) → Keeps IsReady (schedule_one w now trigger d)
  unfolding schedule_one
  Ready-schedule_one now trigger d = search (keeps_rules, Ready-plan) depth 8

  Ready-schedule_list :
      (now : ℕ) (trigger : String) (ds : List Database)
      → Keeps IsReady (schedule_list w now trigger ds)
  unfolding schedule_list
  Ready-schedule_list now trigger [] = Keeps-pure tt
  Ready-schedule_list now trigger (d ∷ ds) =
      Keeps-bind _ _ (Ready-schedule_one now trigger d) (λ _. Ready-schedule_list now trigger ds)

  pub Ready-schedule_all : (now : ℕ) (trigger : String) → Keeps IsReady (schedule_all w now trigger)
  unfolding schedule_all databases
  Ready-schedule_all now trigger = search (keeps_rules, Ready-schedule_list) depth 8

found_password :
    (xs : List (String × String)) (h : String × String)
    → first (λ e. str_eq e.0 "admin_hash") xs ≡ some h
    → any (λ e. str_eq e.0 "admin_hash") xs ≡ true
found_password [] h e = cc
found_password (x ∷ xs) h e = elim (Bool-cases (str_eq x.0 "admin_hash")) [
  | inl t ↦ rw t refl
  | inr t ↦ rw t (found_password xs h (rw t at e))
]

or_no_rows-eq-ok : {A : Type 0} (o : Option A) {a : A} → or_no_rows o ≡ ok a → o ≡ some a
or_no_rows-eq-ok none h = cc
or_no_rows-eq-ok (some b) h = cc h

pub setting-eq-ok :
    (v v' : World) (h : String)
    → setting "admin_hash" v ≡ (ok h, v')
    → (has_password v.tables ≡ true) × (v'.tables ≡ v.tables)
unfolding setting
setting-eq-ok v v' h e =
    >>=-elim (query (λ t. first (λ e. str_eq e.0 "admin_hash") t.settings)) _ v e λ found w1 e1 k1.
      >>=-elim (lift (or_no_rows found)) _ w1 k1 λ row w2 e2 k2.
        let (is, t1, _) =
          query-eq-ok
            (λ (t : Tables). first (λ (e : String × String). str_eq e.0 "admin_hash") t.settings) v
            e1 in
        let (got, x2) = lift-eq-ok _ w1 e2 in
        let (_, x3) = pure-eq-ok _ w2 k2 in
        (
          found_password v.tables.settings row (sym is ∙ or_no_rows-eq-ok found got),
          ap (λ x. x.tables) (x3 ∙ x2) ∙ t1,
        )
