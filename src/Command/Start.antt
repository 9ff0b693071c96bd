-- ===== src/Command/Start.antt =====
-- What a start that succeeds has established.
use base_guard.Base.{
  ℕ, ◌≡◌, ◌⊎◌, ◌↔◌, refl, ap, sym, subst, ◌∙◌, String, Bool, true, false, not, List, [], ◌∷◌, any,
  All, is_blank, length, Result, ok, refuse_if, inl, inr, arith,
}
use base_guard.FilePath.{is_abs}
use base_guard.Store.Tables.{Tables}
use base_guard.Store.Invariant.{IsSound}
use base_guard.Store.Lifecycle.Statements.{IsSound-law}
use base_guard.Store.Open.{open_store}
use base_guard.Store.Migration.{HasSchema, current, open_store-eq-ok}
use base_guard.Exec.Steps.{kept}
use base_guard.Security.Key.{key_size}
use base_guard.Model.Validation.{any-false_iff}
use base_guard.Backup.Keeps.{Keeps-touch}
use base_guard.Backup.Destination.{touch}
use base_guard.Exec.{World, lift, time_now}
use base_guard.Exec.Inversion.{>>=-elim, pure-eq-ok, lift-eq-ok, time_now-eq-ok}
use base_guard.Worker.Methods.{Worker, recover, schedule_all}
use base_guard.Worker.Recovery.{recover-none_running}
use base_guard.Server.Sessions.{bootstrap}
use base_guard.Command.Program.{
  Setup, Command, serving, no_destination, bad_destination, read_destinations, given_password,
  launch,
}
use base_guard.Command.Ready.{IsReady, has_password, Ready-schedule_all}
use base_guard.Command.Steps.{
  IsCurrent, Current-bootstrap, bootstrap-eq-ok, Law-launch, Keeps-read_destinations,
  Keeps-given_password, open_store-length,
}

List-cases : {A : Type 0} (xs : List A) → (xs ≡ []) ⊎ ((x : A) × (rest : List A) × (xs ≡ x ∷ rest))
List-cases [] = inl refl
List-cases (x ∷ rest) = inr (x, rest, refl)

worker_of : {w x : Worker} {a b : String} → serving w a ≡ serving x b → w ≡ x
worker_of h = cc h

not-true : (b : Bool) → not b ≡ false → b ≡ true
not-true b h = ground arith

-- A destination that the configuration may name.
abbrev pub Proper : String × String → Type 0
Proper (name, path) = (is_blank name ≡ false) × (is_abs path ≡ true)

bad_destination-false_iff : (d : String × String) → (bad_destination d ≡ false) ↔ Proper d
bad_destination-false_iff (name, path) = (λ e. ground arith, λ h. ground arith)

accepted : (b : Bool) (why : String) → refuse_if b why ≡ ok tt → b ≡ false
accepted true why h = cc
accepted false why h = refl

module _ (s : Setup) where
  read_destinations-eq-ok :
      (v v' : World) (ds : List (String × String))
      → read_destinations s v ≡ (ok ds, v')
      → (no_destination ds ≡ false) × All Proper ds
  unfolding read_destinations
  read_destinations-eq-ok v v' ds h = >>=-elim (lift _) _ v h λ got w1 e1 k1.
      >>=-elim (lift (refuse_if (no_destination got) _)) _ w1 k1 λ u2 w2 e2 k2.
        >>=-elim (lift (refuse_if (any bad_destination got) _)) _ w2 k2 λ u3 w3 e3 k3.
          let is = (pure-eq-ok got w3 k3).0 in
          let some_there = accepted (no_destination got) _ ((lift-eq-ok _ w1 e2).0) in
          let none_bad = accepted (any bad_destination got) _ ((lift-eq-ok _ w2 e3).0) in
          (
            ap no_destination is ∙ some_there,
            subst (All Proper) (sym is)
                ((any-false_iff bad_destination Proper bad_destination-false_iff got).0 none_bad),
          )

  recovery-IsReady :
      (w : Worker) (password made : String) (now : ℕ) (v v1 v2 v3 v4 : World)
      → IsCurrent v.tables
      → bootstrap s.passwords password v ≡ (ok made, v1)
      → recover w v1 ≡ (ok tt, v2)
      → time_now v2 ≡ (ok now, v3)
      → schedule_all w now "recovery" v3 ≡ (ok tt, v4)
      → IsReady v4.tables
  recovery-IsReady w password made now v v1 v2 v3 v4 cur e1 e2 e3 e4 =
      let cur1 : IsCurrent v1.tables =
        subst (λ (x : Result String × World). IsCurrent x.1.tables) e1
          ((Current-bootstrap s.passwords password).at v cur) in
      let known : has_password v1.tables ≡ true =
        bootstrap-eq-ok s.passwords password v v1 made e1 in
      let (none, (time, same)) = recover-none_running w v1 v2 e2 in
      let recovered : IsReady v2.tables = (
        ap (λ (t : Tables). t.user_version) same ∙ cur1.0,
        ap (λ (t : Tables). t.has_client_info) same ∙ cur1.1,
        ap has_password same ∙ known,
        none,
      ) in
      let ready : IsReady v3.tables = subst IsReady (sym (time_now-eq-ok v2 e3)) recovered in
      subst (λ (x : Result (Unit {0}) × World). IsReady x.1.tables) e4
        ((Ready-schedule_all w now "recovery").at v3 ready)

  -- What holds when the worker and the server are started.
  abbrev pub IsServing : Worker → Tables → Type 0
  IsServing w t =
      IsSound t
      × IsReady t
      × (length w.key ≡ key_size)
      × (no_destination w.destinations ≡ false)
      × All Proper w.destinations

  -- A start that succeeds on sound tables whose schema has the new column exactly from version 2 on, whatever
  -- fails on the way: the lock was taken; the tables are sound, of schema version 2, with the administrator's
  -- password and with no run that is running; the key has its size; and there is a destination, each with a
  -- name that is not blank and an absolute path.
  pub launch-IsServing :
      (v v' : World) (w : Worker) (new : String)
      → IsSound v.tables
      → HasSchema v.tables
      → launch s v ≡ (ok (serving w new), v')
      → (s.try_lock ≡ ok true) × IsServing w v'.tables
  unfolding launch
  launch-IsServing v v' w new sound schema h = >>=-elim touch _ v h λ u1 w1 e1 k1.
      >>=-elim (lift s.try_lock) _ w1 k1 λ locked w2 e2 k2.
        >>=-elim (lift (refuse_if (not locked) _)) _ w2 k2 λ u3 w3 e3 k3.
          >>=-elim (read_destinations s) _ w3 k3 λ ds w4 e4 k4.
            >>=-elim (open_store _ _) _ w4 k4 λ key w5 e5 k5.
              let worker = record s.worker { key = key; destinations = ds } in
              >>=-elim (lift s.templates) _ w5 k5 λ u6 w6 e6 k6.
                >>=-elim (given_password s) _ w6 k6 λ password w7 e7 k7.
                  >>=-elim (bootstrap s.passwords password) _ w7 k7 λ made w8 e8 k8.
                    >>=-elim (recover worker) _ w8 k8 λ u9 w9 e9 k9.
                      >>=-elim time_now _ w9 k9 λ now w10 e10 k10.
                        >>=-elim (schedule_all worker now "recovery") _ w10 k10 λ u11 w11 e11 k11.
                          let (lock, x2) = lift-eq-ok s.try_lock w1 e2 in
                          let (free, x3) = lift-eq-ok _ w2 e3 in
                          let (_, x6) = lift-eq-ok s.templates w5 e6 in
                          let t1 : w1.tables ≡ v.tables = kept touch v w1 Keeps-touch e1 in
                          let t3 : w3.tables ≡ v.tables =
                            ap (λ (x : World). x.tables) (x3 ∙ x2) ∙ t1 in
                          let t4 : w4.tables ≡ v.tables =
                            kept (read_destinations s) w3 w4 (Keeps-read_destinations s) e4 ∙ t3 in
                          let (_, t5) =
                            open_store-eq-ok _ _ w4 w5 key (subst HasSchema (sym t4) schema) e5 in
                          let t7 : w7.tables ≡ current w4.tables =
                            kept (given_password s) w6 w7 (Keeps-given_password s) e7
                            ∙ ap (λ (x : World). x.tables) x6
                            ∙ t5 in
                          let ready =
                            recovery-IsReady worker password made now w7 w8 w9 w10 w11
                              (subst IsCurrent (sym t7) (refl, refl)) e8 e9 e10 e11 in
                          let handed : serving w new ≡ serving worker made =
                            (pure-eq-ok (serving worker made) w11 k11).0 in
                          let last : v' ≡ w11 = (pure-eq-ok (serving worker made) w11 k11).1 in
                          let is : w ≡ worker = worker_of handed in
                          let sound' : IsSound v'.tables =
                            subst (λ (x : Result Command × World). IsSound x.1.tables) h
                              ((Law-launch s IsSound-law).at v sound) in
                          let (there, proper) = read_destinations-eq-ok w3 w4 ds e4 in
                          let taken : locked ≡ true =
                            not-true locked (accepted (not locked) _ free) in
                          (
                            lock ∙ ap (λ (b : Bool). ok b) taken,
                            subst (λ x. IsServing x v'.tables) (sym is)
                                (
                                  sound',
                                  subst (λ (x : World). IsReady x.tables) (sym last) ready,
                                  open_store-length _ _ w4 w5 key e5,
                                  there,
                                  proper,
                                ),
                          )
