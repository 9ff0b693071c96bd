-- ===== src/Server/Handler.antt =====
-- `Handler`: the routes, the check of the origin, and `auth` before every page but the login.
use base_guard.Base.{
  ℕ, String, Bool, true, false, not, ◌&&◌, List, [], ◌∷◌, Option, none, some, any, str_eq, Result,
  ok, err, if◌then◌else◌,
}
use base_guard.Model.{Database}
use base_guard.Exec.{World, Io, pure, try_io, ◌>>=◌}
use base_guard.Backup.Destination.{touch}
use base_guard.Worker.Methods.{Worker}
use base_guard.Server.Attempts.{Attempts}
use base_guard.Server.Panel.{
  Answer, not_found, refused, save_form, enqueue_id, toggle, delete, download,
}
use base_guard.Server.Sessions.{
  Passwords, Request, Verdict, login_first, bad_form, bad_csrf, admitted, auth,
}
use base_guard.Server.Pages.{
  Reply, answered, to_login, static_file, healthy, dashboard, form, test, settings, logout_page,
  password,
}
use base_guard.Server.Login.{LoginForm, reply_of, show_login, login}

-- The pattern of `http.ServeMux` that a request matches, with the id of its path, if it matches one.
pub data Route : Type 0 where
  static : String → Route
  health : Route
  login_form : Route
  log_in : Route
  start_page : Route
  status_page : Route
  new_database : Route
  edit_database : ℕ → Route
  save_database : Route
  test_database : Route
  backup_database : ℕ → Route
  toggle_database : ℕ → Route
  delete_database : ℕ → Route
  download_run : ℕ → Route
  settings_page : Route
  new_password : Route
  log_out : Route
  -- no pattern; whether the method is POST, and whether a pattern of another method matches
  unmatched : Bool → Bool → Route

-- A request. `entered` has the values of a submitted record, and `current` and `next` those of the form of the
-- password.
pub record HttpRequest : Type 0 where
  pub route : Route
  pub origin : String
  pub host : String
  pub cookie : Option String
  pub from_htmx : Bool
  pub flash : String
  pub parses : Bool
  pub csrf : String
  pub entered : Database
  pub current : String
  pub next : String
  pub login_cookie : Option String
  pub username : String
  pub password : String
  pub ip : String
  pub arrival : ℕ

-- `r.Method == "POST"`
abbrev pub posts : Route → Bool
posts log_in = true
posts save_database = true
posts test_database = true
posts (backup_database id) = true
posts (toggle_database id) = true
posts (delete_database id) = true
posts new_password = true
posts log_out = true
posts (unmatched post other) = post
posts _ = false

abbrev pub public_files : List String
public_files =
    "/static/style.css" ∷ "/static/app.js" ∷ "/static/htmx.min.js" ∷ "/static/icon.svg"
    ∷ "/static/HTMX-LICENSE.txt" ∷ []

abbrev pub auth_request : HttpRequest → Request
auth_request r = record {
  cookie = r.cookie;
  is_post = posts r.route;
  parses = r.parses;
  csrf = r.csrf;
}

abbrev pub login_request : HttpRequest → LoginForm
login_request r = record {
  parses = r.parses;
  cookie = r.login_cookie;
  csrf = r.csrf;
  username = r.username;
  password = r.password;
  ip = r.ip;
  arrival = r.arrival;
}

abbrev pub health_page : Result (Unit {0}) → Reply
health_page (ok a) = healthy
health_page (err e) = answered (refused 503 "unhealthy")

-- What the panel is built with; `origin_host` is the host that `url.Parse` reads of an origin.
pub record Panel : Type 0 where
  pub worker : Worker
  pub passwords : Passwords
  pub origin_host : String → Option String

module _ (s : Panel) where
  abbrev pub other_host : String → Option String → Bool
  other_host host none = true
  other_host host (some h) = not (str_eq h host)

  -- A POST whose origin is not the host it is for.
  abbrev pub foreign : HttpRequest → Bool
  foreign r =
      posts r.route && not (str_eq r.origin "") && other_host r.host (s.origin_host r.origin)

  abbrev pub answer : Io Answer → Io Reply
  answer m = m >>= λ a. pure (answered a)

  -- The handlers behind `auth`, given the session's token.
  unfoldable pub signed : HttpRequest → String → Route → Io Reply
  signed r csrf start_page = dashboard s.worker csrf false r.flash
  signed r csrf status_page = dashboard s.worker csrf true r.flash
  signed r csrf new_database = form s.worker csrf none
  signed r csrf (edit_database id) = form s.worker csrf (some id)
  signed r csrf save_database = answer (save_form s.worker r.entered)
  signed r csrf test_database = test s.worker csrf r.entered
  signed r csrf (backup_database id) = answer (enqueue_id s.worker id)
  signed r csrf (toggle_database id) = answer (toggle s.worker id)
  signed r csrf (delete_database id) = answer (delete s.worker id)
  signed r csrf (download_run id) = answer (download s.worker id)
  signed r csrf settings_page = pure (settings s.worker csrf)
  signed r csrf new_password = password s.passwords r.current r.next
  signed r csrf log_out = logout_page s.passwords r.cookie
  signed r csrf _ = pure (answered not_found)

  abbrev pub admit : HttpRequest → Verdict → Io Reply
  admit r login_first = pure (to_login r.from_htmx)
  admit r bad_form = pure (answered (refused 400 "Formulário inválido"))
  admit r bad_csrf =
      pure (answered (refused 403 "Sessão do formulário inválida; recarregue a página"))
  admit r (admitted csrf) = signed r csrf r.route

  -- A handler wrapped in `auth`.
  unfoldable pub guarded : HttpRequest → Io Reply
  guarded r = auth s.passwords (auth_request r) >>= admit r

  -- The reply of a route other than `log_in`, which leaves the attempts alone.
  unfoldable pub served : HttpRequest → Route → Io Reply
  served r (static path) =
      pure (if any (str_eq path) public_files then static_file path else answered not_found)
  served r health = try_io touch >>= λ a. pure (health_page a)
  served r login_form = show_login s.passwords
  served r (unmatched post other) =
      pure (answered (if other then refused 405 "Method Not Allowed" else not_found))
  served r _ = guarded r

  abbrev pub dispatched : HttpRequest → Route → Attempts → World → (Reply × Attempts) × World
  dispatched r log_in m v = login s.passwords (login_request r) m v
  dispatched r route m v = let (a, v') = served r route v in ((reply_of a, m), v')

  -- `Handler`
  unfoldable pub handle : HttpRequest → Attempts → World → (Reply × Attempts) × World
  handle r m v =
      if foreign r
      then ((answered (refused 403 "Origem inválida"), m), v)
      else dispatched r r.route m v
