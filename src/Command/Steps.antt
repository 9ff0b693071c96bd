-- ===== src/Command/Steps.antt =====
-- The steps of a start, one by one.
use base_guard.Base.{
  ◌≡◌, ◌==◌, ltb, refl, ap, sym, ◌∙◌, String, Bool, true, ◌||◌, str_eq, length, Error, Result, ok,
  err, refuse_if, if◌then◌else◌, Bool-cases, inl, inr, arith,
}
use base_guard.Disk.{Bytes}
use base_guard.Store.Tables.{Tables, apply, insert_setting, create_tables}
use base_guard.Store.Methods.{setting}
use base_guard.Store.Law.{Law, law_rules}
use base_guard.Store.Open.{migrate, open_store}
use base_guard.Store.Migration.{Keeps-load_key}
use base_guard.Security.Key.{key_size, load_key, key_from, sized}
use base_guard.Security.KeyFile.{bad_key_file}
use base_guard.Backup.Keeps.{Keeps-touch, Keeps-read_file}
use base_guard.Backup.Destination.{touch, read_file}
use base_guard.Exec.{World, lift, run, query, try_io}
use base_guard.Exec.Keeps.{Keeps, Keeps-run, keeps_rules}
use base_guard.Exec.Inversion.{>>=-elim, pure-eq-ok, lift-eq-ok, exec-eq-ok, try_io-eq-ok}
use base_guard.Worker.Methods.{ignore}
use base_guard.Worker.Recovery.{Keeps-ignore}
use base_guard.Worker.Law.{Law-recover, Law-schedule_all}
use base_guard.Server.Sessions.{Passwords, bootstrap, bootstrap_with, generated}
use base_guard.Command.Program.{Setup, read_destinations, given_password, launch}
use base_guard.Command.Ready.{has_password, any-append, setting-eq-ok}

-- The schema part of `IsReady`.
abbrev pub IsCurrent : Tables → Type 0
IsCurrent t = (t.user_version ≡ 2) × (t.has_client_info ≡ true)

Current-insert : (h : String) → Keeps IsCurrent (run (insert_setting "admin_hash" h))
unfolding apply
Current-insert h = Keeps-run _ (λ t _ c. c)

or_true : (b : Bool) → (b || true) ≡ true
or_true b = ground arith

module _ (p : Passwords) where
  Current-generated : (given : String) → Keeps IsCurrent (generated p given)
  Current-generated given = search keeps_rules depth 6

  Current-bootstrap_with :
      (given : String) (r : Result String) → Keeps IsCurrent (bootstrap_with p given r)
  Current-bootstrap_with given (ok h) = search keeps_rules
  Current-bootstrap_with given (err Error.no_rows) =
      search (keeps_rules, Current-generated, Current-insert) depth 8
  Current-bootstrap_with given (err Error.not_exist) = search keeps_rules
  Current-bootstrap_with given (err (Error.failure e)) = search keeps_rules

  pub Current-bootstrap : (given : String) → Keeps IsCurrent (bootstrap p given)
  unfolding bootstrap setting
  Current-bootstrap given = search (keeps_rules, Current-bootstrap_with) depth 6

  bootstrap_with-eq-ok :
      (given : String) (r : Result String) (v v' : World) (g : String)
      → ((h : String) → r ≡ ok h → has_password v.tables ≡ true)
      → bootstrap_with p given r v ≡ (ok g, v')
      → has_password v'.tables ≡ true
  unfolding run apply
  bootstrap_with-eq-ok given (ok h) v v' g known e =
      ap (λ (x : World). has_password x.tables) ((pure-eq-ok "" v e).1) ∙ known h refl
  bootstrap_with-eq-ok given (err Error.no_rows) v v' g known e =
      >>=-elim (generated p given) _ v e λ new w1 e1 k1.
        let chosen = if str_eq given "" then new else given in
        >>=-elim (lift _) _ w1 k1 λ u2 w2 e2 k2.
          >>=-elim (lift (p.hash chosen)) _ w2 k2 λ h w3 e3 k3.
            >>=-elim (run (insert_setting "admin_hash" h)) _ w3 k3 λ u4 w4 e4 k4.
              let (_, t4, _) = exec-eq-ok (insert_setting "admin_hash" h) _ w3 e4 in
              ap (λ (x : World). has_password x.tables) ((pure-eq-ok _ w4 k4).1)
              ∙ ap has_password t4
              ∙ any-append (λ (x : String × String). str_eq x.0 "admin_hash") w3.tables.settings
                  ("admin_hash", h)
              ∙ or_true (has_password w3.tables)
  bootstrap_with-eq-ok given (err Error.not_exist) v v' g known e =
      let bad : err Error.not_exist ≡ ok g = (lift-eq-ok (err Error.not_exist) v e).0 in cc bad
  bootstrap_with-eq-ok given (err (Error.failure s)) v v' g known e =
      let bad : err (Error.failure s) ≡ ok g = (lift-eq-ok (err (Error.failure s)) v e).0 in cc bad

  pub bootstrap-eq-ok :
      (given : String) (v v' : World) (g : String)
      → bootstrap p given v ≡ (ok g, v')
      → has_password v'.tables ≡ true
  unfolding bootstrap
  bootstrap-eq-ok given v v' g e = >>=-elim (try_io (setting "admin_hash")) _ v e λ r w1 e1 k1.
      let read = try_io-eq-ok (setting "admin_hash") v w1 e1 in
      bootstrap_with-eq-ok given r w1 v' g
        (λ h is.
          let (there, same) =
            setting-eq-ok v w1 h (read ∙ ap (λ (x : Result String). (x, w1)) is) in
          ap has_password same ∙ there)
        k1

module _ (s : Setup) where
  pub Keeps-read_destinations : {P : Tables → Type 0} → Keeps P (read_destinations s)
  unfolding read_destinations
  Keeps-read_destinations = search keeps_rules depth 6

  pub Keeps-given_password : {P : Tables → Type 0} → Keeps P (given_password s)
  unfolding given_password
  Keeps-given_password = search (keeps_rules, Keeps-read_file) depth 6

module _ (s : Setup) {P : Tables → Type 0} (k : Law P) where
  Law-open_store : (path keypath : String) → Keeps P (open_store path keypath)
  unfolding open_store migrate
  Law-open_store path keypath =
      search (law_rules, Keeps-load_key, Keeps-touch, Keeps-ignore) depth 12

  Law-bootstrap_with :
      (given : String) (r : Result String) → Keeps P (bootstrap_with s.passwords given r)
  Law-bootstrap_with given (ok h) = search law_rules
  Law-bootstrap_with given (err Error.no_rows) = search law_rules depth 8
  Law-bootstrap_with given (err Error.not_exist) = search law_rules
  Law-bootstrap_with given (err (Error.failure e)) = search law_rules

  Law-bootstrap : (given : String) → Keeps P (bootstrap s.passwords given)
  unfolding bootstrap setting
  Law-bootstrap given = search (law_rules, Law-bootstrap_with) depth 6

  pub Law-launch : Keeps P (launch s)
  unfolding launch
  Law-launch =
      search
        (
          law_rules, Keeps-touch, Keeps-read_destinations, Keeps-given_password, Law-open_store,
          Law-bootstrap, Law-recover, Law-schedule_all,
        )
        depth 24

key_of : {b key : Bytes} → ok b ≡ ok key → b ≡ key
key_of h = cc h

size_of : (b : Bytes) → (length b == key_size) ≡ true → length b ≡ key_size
size_of b h = ground arith

load_key-length :
    (path dbpath : String) (v v' : World) (key : Bytes)
    → load_key path dbpath v ≡ (ok key, v')
    → length key ≡ key_size
unfolding load_key
load_key-length path dbpath v v' key h =
    >>=-elim (try_io (read_file "" path)) _ v h λ found w1 e1 k1.
      >>=-elim (key_from path dbpath found) _ w1 k1 λ b w2 e2 k2.
        let q : sized b ≡ ok key = (lift-eq-ok (sized b) w2 k2).0 in
        elim (Bool-cases (length b == key_size)) [
          | inl t ↦ let is : ok b ≡ ok key = rw t at q in ap length (sym (key_of is)) ∙ size_of b t
          | inr t ↦ let bad : err bad_key_file ≡ ok key = rw t at q in cc bad
        ]

pub open_store-length :
    (path keypath : String) (v v' : World) (key : Bytes)
    → open_store path keypath v ≡ (ok key, v')
    → length key ≡ key_size
unfolding open_store
open_store-length path keypath v v' key h = >>=-elim (load_key keypath path) _ v h λ got w1 e1 k1.
    >>=-elim touch _ w1 k1 λ u1 w2 e2 k2. >>=-elim touch _ w2 k2 λ u2 w3 e3 k3.
      >>=-elim (query (λ t. t.user_version)) _ w3 k3 λ n w4 e4 k4.
        >>=-elim (lift (refuse_if (ltb 2 n) _)) _ w4 k4 λ u4 w5 e5 k5.
          >>=-elim (run create_tables) _ w5 k5 λ u5 w6 e6 k6.
            >>=-elim (migrate n) _ w6 k6 λ u6 w7 e7 k7.
              >>=-elim (ignore touch) _ w7 k7 λ u7 w8 e8 k8.
                ap length ((pure-eq-ok got w8 k8).0) ∙ load_key-length keypath path v w1 got e1
