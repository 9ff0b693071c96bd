-- ===== src/Server/Pages.antt =====
-- The pages, and the handlers that only show one.
use base_guard.Base.{
  ℕ, String, Bool, true, false, List, [], Option, none, some, select, length, message, Result, ok,
  err, if◌then◌else◌,
}
use base_guard.Model.{Database, Run, Status, default_database, failed, interrupted}
use base_guard.Store.Tables.{is_success}
use base_guard.Store.Methods.{databases, database, runs, setting}
use base_guard.Exec.{Io, pure, lift, run, try_io, transaction, ◌>>=◌, ◌>>◌}
use base_guard.Store.Tables.{update_setting, delete_sessions}
use base_guard.Worker.Methods.{Worker}
use base_guard.Server.Panel.{Answer, not_found, failed_page, refused, submitted}
use base_guard.Server.Sessions.{Passwords, bad_length, logout}

-- What the templates read; `editing` is `none` for a page that leaves it at its zero value.
pub record Dashboard : Type 0 where
  pub databases : List Database
  pub runs : List Run
  pub destinations : List (String × String)
  pub csrf : String
  pub flash : String
  pub error : String
  pub editing : Option Database
  pub total : ℕ
  pub active : ℕ
  pub success : ℕ
  pub failed : ℕ

abbrev pub no_dashboard : Dashboard
no_dashboard = record {
  databases = [];
  runs = [];
  destinations = [];
  csrf = "";
  flash = "";
  error = "";
  editing = none;
  total = 0;
  active = 0;
  success = 0;
  failed = 0;
}

-- What a request gets. The cookies that a reply sets are part of its constructor.
pub data Reply : Type 0 where
  answered : Answer → Reply
  -- `render`: the template, the status and what it shows
  page : String → ℕ → Dashboard → Reply
  -- the login page, with its token in a cookie
  login_page : String → Reply
  -- to the login page, by a header for htmx or by a redirect
  to_login : Bool → Reply
  -- to the panel, with the session's cookie
  signed_in : String → Reply
  -- to the login page, the session's cookie gone
  signed_out : Reply
  static_file : String → Reply
  healthy : Reply
  -- the connection ends without a reply: `randomToken` panicked
  aborted : Reply

abbrev pub has_failed : Status → Bool
has_failed failed = true
has_failed interrupted = true
has_failed _ = false

abbrev pub to_page : {A : Type 0} → (A → Reply) → Result A → Reply
to_page show (ok a) = show a
to_page show (err e) = answered failed_page

module _ (w : Worker) (csrf : String) where
  -- The counts of `dashboard`.
  abbrev pub overview : String → List Database → List Run → Dashboard
  overview flash ds rs = record no_dashboard {
    databases = ds;
    runs = rs;
    csrf = csrf;
    flash = flash;
    total = length ds;
    active = length (select (λ d. d.enabled) ds);
    success = length (select (λ r. is_success r.status) rs);
    failed = length (select (λ r. has_failed r.status) rs);
  }

  abbrev pub template_of : Bool → String
  template_of status = if status then "overview" else "dashboard"

  -- The queries of `dashboard`, the first error ending them.
  unfoldable pub overview_now : String → Io Dashboard
  overview_now flash = do ds ← databases w.cipher w.key; rs ← runs; pure (overview flash ds rs)

  -- `dashboard`; the first argument is whether the path is "/status".
  unfoldable pub dashboard : Bool → String → Io Reply
  dashboard status flash =
      try_io (overview_now flash) >>= λ r. pure (to_page (page (template_of status) 200) r)

  abbrev pub form_of : Database → Reply
  form_of d = page "form" 200 (record no_dashboard {
    csrf = csrf;
    editing = some (record d { password = "" });
    destinations = w.destinations;
  })

  abbrev pub form_or_not_found : Result Database → Reply
  form_or_not_found (ok d) = form_of d
  form_or_not_found (err e) = answered not_found

  -- `form`, for a new record or for the one of a path with an id.
  unfoldable pub form : Option ℕ → Io Reply
  form none = pure (form_of default_database)
  form (some id) = try_io (database w.cipher w.key id) >>= λ r. pure (form_or_not_found r)

  abbrev pub message_of : Result String → Reply
  message_of (ok text) = page "message" 200 (record no_dashboard { flash = text })
  message_of (err e) = page "message" 200 (record no_dashboard { error = message e })

  -- `test`: the submitted record is checked, and not saved.
  unfoldable pub test : Database → Io Reply
  test entered =
      try_io (submitted w entered >>= λ d. lift (w.executor.check d)) >>= λ r. pure (message_of r)

  abbrev pub settings : Reply
  settings =
      page "settings" 200 (record no_dashboard { csrf = csrf; destinations = w.destinations })

module _ (p : Passwords) where
  abbrev pub signed_out_page : Result (Unit {0}) → Reply
  signed_out_page r = to_page (λ _. signed_out) r

  -- `logout`
  unfoldable pub logout_page : Option String → Io Reply
  logout_page none = pure aborted
  logout_page (some token) = try_io (logout p token) >>= λ r. pure (signed_out_page r)

  abbrev pub store_password : Result String → Io Reply
  store_password (err e) = pure (answered failed_page)
  store_password (ok hash) =
      try_io (transaction (run (update_setting "admin_hash" hash) >> run delete_sessions)) >>= λ r.
      pure (signed_out_page r)

  abbrev pub password_checked : String → String → Result String → Io Reply
  password_checked current next (err e) = pure (answered failed_page)
  password_checked current next (ok h) =
      if p.matches h current
      then (if bad_length p next
          then pure (answered (refused 422 "Use de 12 a 72 bytes na nova senha"))
          else store_password (p.hash next))
      else pure (answered (refused 422 "Senha atual incorreta"))

  -- `password`
  unfoldable pub password : String → String → Io Reply
  password current next = try_io (setting "admin_hash") >>= password_checked current next
