-- ===== src/Server/Guard.antt =====
-- What a request may change, and who may ask for it.
use base_guard.Base.{ℕ, ◌≡◌, ◌≢◌, ◌⊎◌, String, true, false, some}
use base_guard.Store.Tables.{Tables, Session}
use base_guard.Exec.{World}
use base_guard.Exec.Keeps.{Keeps, Keeps-bind, keeps_rules}
use base_guard.Backup.Keeps.{Keeps-touch}
use base_guard.Server.Attempts.{Attempts, attempted}
use base_guard.Server.Sessions.{Verdict, login_first, bad_form, bad_csrf, admitted}
use base_guard.Server.Access.{IsOpen}
use base_guard.Server.Login.{show_login, token_fits}
use base_guard.Server.Handler.{
  Route, static, health, login_form, log_in, start_page, status_page, new_database, edit_database,
  save_database, test_database, backup_database, toggle_database, delete_database, settings_page,
  new_password, log_out, unmatched, HttpRequest, posts, auth_request, Panel, foreign, signed, admit,
  guarded, served,
}
use base_guard.Server.Shown.{Keeps-auth}

module _ (s : Panel) where
  -- A session whose cookie and token the request has.
  abbrev pub HasSession : HttpRequest → World → Type 0
  HasSession r v =
      (token : String) × (now : ℕ) × (x : Session) × (r.cookie ≡ some token)
      × IsOpen s.passwords v.tables token now x
      × (r.csrf ≡ x.csrf)
      × (x.csrf ≢ "")

  -- A login form with its token, which the throttle lets through.
  abbrev pub IsLogin : HttpRequest → Attempts → Type 0
  IsLogin r m =
      (r.route ≡ log_in)
      × (r.parses ≡ true)
      × (token_fits r.login_cookie r.csrf ≡ true)
      × ((attempted r.arrival r.ip m).1 ≡ false)

  abbrev pub MayChange : HttpRequest → Attempts → World → Type 0
  MayChange r m v = (posts r.route ≡ true) × (foreign s r ≡ false) × (IsLogin r m ⊎ HasSession r v)

  pub Keeps-guarded :
      {P : Tables → Type 0} (r : HttpRequest)
      → ((csrf : String) → Keeps P (signed s r csrf r.route))
      → Keeps P (guarded s r)
  unfolding guarded
  Keeps-guarded {P} r k = Keeps-bind _ _ (Keeps-auth s.passwords (auth_request r)) admit-keep
    where
      admit-keep : (a : Verdict) → Keeps P (admit s r a)
      admit-keep login_first = search keeps_rules
      admit-keep bad_form = search keeps_rules
      admit-keep bad_csrf = search keeps_rules
      admit-keep (admitted csrf) = k csrf

  -- The routes that need no session.
  abbrev pub IsPublic : Route → Type 0
  IsPublic (static path) = Unit
  IsPublic health = Unit
  IsPublic login_form = Unit
  IsPublic (unmatched post other) = Unit
  IsPublic _ = ⊥

  pub Keeps-public :
      {P : Tables → Type 0} (r : HttpRequest) (route : Route)
      → IsPublic route
      → Keeps P (served s r route)
  unfolding served show_login
  Keeps-public r (static path) h = search keeps_rules
  Keeps-public r health h = search (keeps_rules, Keeps-touch) depth 6
  Keeps-public r login_form h = search keeps_rules
  Keeps-public r (unmatched post other) h = search keeps_rules
  Keeps-public r log_in h = absurd h
  Keeps-public r start_page h = absurd h
  Keeps-public r status_page h = absurd h
  Keeps-public r new_database h = absurd h
  Keeps-public r (edit_database id) h = absurd h
  Keeps-public r save_database h = absurd h
  Keeps-public r test_database h = absurd h
  Keeps-public r (backup_database id) h = absurd h
  Keeps-public r (toggle_database id) h = absurd h
  Keeps-public r (delete_database id) h = absurd h
  Keeps-public r (Route.download_run id) h = absurd h
  Keeps-public r settings_page h = absurd h
  Keeps-public r new_password h = absurd h
  Keeps-public r log_out h = absurd h
