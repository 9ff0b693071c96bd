-- ===== src/Server/Serving.antt =====
-- Every request, and predicates that the statements keep.
use base_guard.Base.{
  ℕ, String, Bool, true, false, Option, none, some, Result, ok, err, Bool-cases, inl, inr,
}
use base_guard.Model.{Database}
use base_guard.Store.Methods.{setting}
use base_guard.Store.Tables.{Tables}
use base_guard.Store.Invariant.{IsSound}
use base_guard.Store.Law.{Law, law_rules}
use base_guard.Store.Lifecycle.Statements.{IsSound-law}
use base_guard.Exec.{World}
use base_guard.Exec.Keeps.{Keeps}
use base_guard.Worker.Recovery.{Keeps-ignore}
use base_guard.Server.Attempts.{Attempts, attempted}
use base_guard.Server.Sessions.{Passwords, new_session, logout}
use base_guard.Server.Law.{Law-submitted, Law-save_form, Law-enqueue_id, Law-toggle, Law-delete}
use base_guard.Server.Pages.{test, logout_page, store_password, password_checked, password}
use base_guard.Server.Login.{LoginForm, token_fits, with_hash, sign_in, after_throttle, login}
use base_guard.Server.Handler.{
  Route, static, health, login_form, log_in, start_page, status_page, new_database, edit_database,
  save_database, test_database, backup_database, toggle_database, delete_database, settings_page,
  new_password, log_out, unmatched, HttpRequest, login_request, Panel, foreign, signed, guarded,
  served, dispatched, handle,
}
use base_guard.Server.Guard.{Keeps-guarded, Keeps-public}
use base_guard.Server.Shown.{Keeps-dashboard, Keeps-form, Keeps-download}

module _ (p : Passwords) {P : Tables → Type 0} (k : Law P) where
  Law-logout_page : (c : Option String) → Keeps P (logout_page p c)
  unfolding logout_page logout
  Law-logout_page none = search law_rules
  Law-logout_page (some token) = search law_rules depth 6

  Law-store_password : (r : Result String) → Keeps P (store_password p r)
  Law-store_password (ok hash) = search law_rules depth 8
  Law-store_password (err e) = search law_rules

  Law-password_checked :
      (current next : String) (r : Result String) → Keeps P (password_checked p current next r)
  Law-password_checked current next (ok h) = search (law_rules, Law-store_password) depth 8
  Law-password_checked current next (err e) = search law_rules

  Law-password : (current next : String) → Keeps P (password p current next)
  unfolding password setting
  Law-password current next = search (law_rules, Law-password_checked) depth 8

  Law-new_session : (now : ℕ) → Keeps P (new_session p now)
  unfolding new_session
  Law-new_session now = search (law_rules, Keeps-ignore) depth 10

  Law-with_hash : (f : LoginForm) (r : Result String) → Keeps P (with_hash p f r)
  Law-with_hash f (ok h) = search (law_rules, Law-new_session) depth 8
  Law-with_hash f (err e) = search law_rules

  Law-sign_in : (f : LoginForm) → Keeps P (sign_in p f)
  unfolding sign_in setting
  Law-sign_in f = search (law_rules, Law-with_hash) depth 8

  after_throttle-law :
      (f : LoginForm) (t : Attempts × Bool) (v : World)
      → P v.tables
      → P (after_throttle p f t v).1.tables
  after_throttle-law f (m, true) v h = h
  after_throttle-law f (m, false) v h = (Law-sign_in f).at v h

  login-law : (f : LoginForm) (m : Attempts) (v : World) → P v.tables → P (login p f m v).1.tables
  unfolding login sign_in
  login-law f m v h = elim (Bool-cases f.parses) [
    | inr t ↦ rw t h
    | inl t ↦ elim (Bool-cases (token_fits f.cookie f.csrf)) [
      | inr u ↦ rw (t, u) h
      | inl u ↦ rw (t, u) (after_throttle-law f (attempted f.arrival f.ip m) v h)
    ]
  ]

module _ (s : Panel) (r : HttpRequest) {P : Tables → Type 0} (k : Law P) where
  Law-test : (csrf : String) (entered : Database) → Keeps P (test s.worker csrf entered)
  unfolding test
  Law-test csrf entered = search (law_rules, Law-submitted) depth 8

  Law-signed : (csrf : String) (route : Route) → Keeps P (signed s r csrf route)
  unfolding signed
  Law-signed csrf start_page = Keeps-dashboard s.worker csrf false r.flash
  Law-signed csrf status_page = Keeps-dashboard s.worker csrf true r.flash
  Law-signed csrf new_database = Keeps-form s.worker csrf none
  Law-signed csrf (edit_database id) = Keeps-form s.worker csrf (some id)
  Law-signed csrf save_database = search (law_rules, Law-save_form) depth 6
  Law-signed csrf test_database = Law-test csrf r.entered
  Law-signed csrf (backup_database id) = search (law_rules, Law-enqueue_id) depth 6
  Law-signed csrf (toggle_database id) = search (law_rules, Law-toggle) depth 6
  Law-signed csrf (delete_database id) = search (law_rules, Law-delete) depth 6
  Law-signed csrf (Route.download_run id) = search (law_rules, Keeps-download) depth 6
  Law-signed csrf settings_page = search law_rules
  Law-signed csrf new_password = Law-password s.passwords k r.current r.next
  Law-signed csrf log_out = Law-logout_page s.passwords k r.cookie
  Law-signed csrf (static path) = search law_rules
  Law-signed csrf health = search law_rules
  Law-signed csrf login_form = search law_rules
  Law-signed csrf log_in = search law_rules
  Law-signed csrf (unmatched post other) = search law_rules

  pub handle-law : (m : Attempts) (v : World) → P v.tables → P (handle s r m v).1.tables
  unfolding handle served
  handle-law m v h = elim (Bool-cases (foreign s r)) [ inl t ↦ rw t h | inr t ↦ rw t (go r.route) ]
    where
      behind : P (guarded s r v).1.tables
      behind = (Keeps-guarded s {P = P} r λ csrf. Law-signed csrf r.route).at v h

      go : (route : Route) → P (dispatched s r route m v).1.tables
      go (static path) = (Keeps-public s {P = P} r (static path) tt).at v h
      go health = (Keeps-public s {P = P} r health tt).at v h
      go login_form = (Keeps-public s {P = P} r login_form tt).at v h
      go (unmatched post other) = (Keeps-public s {P = P} r (unmatched post other) tt).at v h
      go log_in = login-law s.passwords k (login_request r) m v h
      go start_page = behind
      go status_page = behind
      go new_database = behind
      go (edit_database id) = behind
      go save_database = behind
      go test_database = behind
      go (backup_database id) = behind
      go (toggle_database id) = behind
      go (delete_database id) = behind
      go (Route.download_run id) = behind
      go settings_page = behind
      go new_password = behind
      go log_out = behind

-- Every request, whatever it asks for and whatever fails on the way, leaves sound tables sound: in
-- particular no database gets a second run that is queued or running.
pub handle-IsSound :
    (s : Panel) (r : HttpRequest) (m : Attempts) (v : World)
    → IsSound v.tables
    → IsSound (handle s r m v).1.tables
handle-IsSound s r = handle-law s r IsSound-law
