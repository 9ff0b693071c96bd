-- ===== src/Worker/Recovery.antt =====
-- What `Recover` leaves after a crash.
use base_guard.Base.{
  ℕ, ◌≡◌, refl, sym, ap, ◌∙◌, false, List, [], ◌∷◌, map, select, any, update_where, ok, collect,
  if◌then◌else◌, arith,
}
use base_guard.Model.{Run, interrupted}
use base_guard.Store.Tables.{Tables, apply, interrupt_running, interruption, is_running}
use base_guard.Store.Methods.{scan_run}
use base_guard.Exec.{World, Io, lift, query, run, time_now}
use base_guard.Exec.Keeps.{Keeps, Keeps-try, Keeps-pure, Keeps-bind, keeps_rules}
use base_guard.Exec.Inversion.{lift-eq-ok, query-eq-ok, exec-eq-ok, time_now-eq-ok, >>=-elim}
use base_guard.Backup.Keeps.{Keeps-remove_file, Keeps-open_destination}
use base_guard.Worker.Methods.{Worker, ignore, drop_partial, drop_partials, recover}

-- A run after the recovery at `now`.
abbrev pub interrupted_at : ℕ → Run → Run
interrupted_at now r =
    if is_running r.status
    then record r { status = interrupted; finished = now; error = interruption }
    else r

none_running :
    (now : ℕ) (rs : List Run)
    → any
        (λ r. is_running r.status)
        (update_where
          (λ r. is_running r.status)
          (λ r. record r { status = interrupted; finished = now; error = interruption })
          rs)
      ≡ false
none_running now [] = refl
none_running now (r ∷ rs) = ground (arith, none_running now rs)

update_where-map :
    (now : ℕ) (rs : List Run)
    → update_where
        (λ r. is_running r.status)
        (λ r. record r { status = interrupted; finished = now; error = interruption })
        rs
      ≡ map (interrupted_at now) rs
update_where-map now [] = refl
update_where-map now (r ∷ rs) = ap (◌∷◌ (interrupted_at now r)) (update_where-map now rs)

module _ (P : Tables → Type 0) where
  pub Keeps-ignore : {A : Type 0} (m : Io A) → Keeps P m → Keeps P (ignore m)
  unfolding ignore
  Keeps-ignore m k = Keeps-bind _ _ (Keeps-try m k) (λ _. Keeps-pure tt)

  Keeps-drop_partial : (w : Worker) (r : Run) → Keeps P (drop_partial w r)
  unfolding drop_partial
  Keeps-drop_partial w r =
      search (keeps_rules, Keeps-ignore, Keeps-remove_file, Keeps-open_destination) depth 8

  Keeps-drop_partials : (w : Worker) (rs : List Run) → Keeps P (drop_partials w rs)
  unfolding drop_partials
  Keeps-drop_partials w [] = Keeps-pure tt
  Keeps-drop_partials w (r ∷ rs) =
      Keeps-bind _ _ (Keeps-drop_partial w r) (λ _. Keeps-drop_partials w rs)

-- A recovery that succeeds, whatever the destinations answer: no run is running any more, and the
-- tables are as before except that each run that was running is interrupted, with its end and the
-- reason, at one time.
pub recover-none_running :
    (w : Worker) (v v' : World)
    → recover w v ≡ (ok tt, v')
    → (any (λ r. is_running r.status) v'.tables.runs ≡ false)
      × ((now : ℕ) × (v'.tables
            ≡ record v.tables { runs = map (interrupted_at now) v.tables.runs }))
unfolding recover run apply
recover-none_running w v v' h =
    >>=-elim (query (λ t. select (λ r. is_running r.status) t.runs)) _ v h λ rows v1 e1 k1.
      >>=-elim (lift (collect scan_run rows)) _ v1 k1 λ rs v2 e2 k2.
        >>=-elim (drop_partials w rs) _ v2 k2 λ u v3 e3 k3.
          >>=-elim time_now _ v3 k3 λ now v4 e4 k4.
            let (_, t1, _) = query-eq-ok _ v e1 in
            let (_, x2) = lift-eq-ok _ v1 e2 in
            let t3 : v3.tables ≡ v2.tables =
              ap (λ x. x.1.tables) (sym e3)
              ∙ (Keeps-drop_partials (λ t. t ≡ v2.tables) w rs).at v2 refl in
            let (_, t5, _) = exec-eq-ok (interrupt_running now) _ v4 k4 in
            let before : v4.tables ≡ v.tables =
              time_now-eq-ok v3 e4 ∙ t3 ∙ ap (λ x. x.tables) x2 ∙ t1 in
            let after : v'.tables ≡ apply (interrupt_running now) v.tables =
              t5 ∙ ap (apply (interrupt_running now)) before in
            (
              ap (λ t. any (λ r. is_running r.status) t.runs) after
                  ∙ none_running now v.tables.runs,
              (
                now,
                after
                    ∙ ap (λ rs. record v.tables { runs = rs }) (update_where-map now v.tables.runs),
              ),
            )
