-- ===== src/Server/Login.antt =====
-- `loginPage` and `login`. The mutex makes the part of `login` on the attempts one step.
use base_guard.Base.{
  ℕ, ◌/◌, ◌&&◌, not, String, Bool, true, false, Option, none, some, select, str_eq, Result, ok, err,
  if◌then◌else◌,
}
use base_guard.Store.Methods.{setting}
use base_guard.Exec.{World, Io, pure, try_io, rand_read, ◌>>=◌}
use base_guard.Server.Attempts.{Attempts, attempted, of_ip}
use base_guard.Server.Panel.{failed_page, refused}
use base_guard.Server.Sessions.{Passwords, equal, new_session}
use base_guard.Server.Pages.{
  Reply, answered, page, login_page, signed_in, aborted, no_dashboard, to_page,
}

-- A posted login form, with the address that it comes from and when it arrives, in nanoseconds.
pub record LoginForm : Type 0 where
  pub parses : Bool
  pub cookie : Option String
  pub csrf : String
  pub username : String
  pub password : String
  pub ip : String
  pub arrival : ℕ

abbrev pub reply_of : Result Reply → Reply
reply_of (ok r) = r
reply_of (err e) = aborted

-- `!equal(c.Value, r.FormValue("csrf"))`, also without a cookie
abbrev pub token_fits : Option String → String → Bool
token_fits none csrf = false
token_fits (some value) csrf = equal value csrf

abbrev pub value_or_empty : Option String → String
value_or_empty none = ""
value_or_empty (some value) = value

abbrev pub seconds : ℕ → ℕ
seconds t = t / 1_000_000_000

module _ (p : Passwords) where
  -- `loginPage`
  unfoldable pub show_login : Io Reply
  show_login = rand_read 32 >>= λ b. pure (login_page (p.token b))

  abbrev pub wrong_password : LoginForm → Reply
  wrong_password f = page "login" 401 (record no_dashboard {
    csrf = value_or_empty f.cookie;
    error = "Usuário ou senha incorretos.";
  })

  abbrev pub credentials_match : String → LoginForm → Bool
  credentials_match h f = p.matches h f.password && str_eq f.username "admin"

  -- Once the stored hash was read. A panic of `randomToken` shows as the page of a failure here.
  abbrev pub with_hash : LoginForm → Result String → Io Reply
  with_hash f (err e) = pure (answered failed_page)
  with_hash f (ok h) =
      if credentials_match h f
      then (try_io (new_session p (seconds f.arrival)) >>= λ r. pure (to_page signed_in r))
      else pure (wrong_password f)

  -- `login` after the throttle.
  unfoldable pub sign_in : LoginForm → Io Reply
  sign_in f = try_io (setting "admin_hash") >>= with_hash f

  -- `delete(s.attempts, ip)` after a login that opened a session
  abbrev pub forgiven : Reply → String → Attempts → Attempts
  forgiven (signed_in token) ip m = select (λ e. not (of_ip ip e)) m
  forgiven _ ip m = m

  abbrev pub after_throttle : LoginForm → Attempts × Bool → World → (Reply × Attempts) × World
  after_throttle f (m, true) v =
      ((answered (refused 429 "Muitas tentativas. Aguarde 15 minutos."), m), v)
  after_throttle f (m, false) v =
      let (r, v') = sign_in f v in ((reply_of r, forgiven (reply_of r) f.ip m), v')

  -- `login`
  unfoldable pub login : LoginForm → Attempts → World → (Reply × Attempts) × World
  login f m v =
      let through = after_throttle f (attempted f.arrival f.ip m) v in
      if f.parses
      then (if token_fits f.cookie f.csrf
          then through
          else ((answered (refused 403 "Recarregue a página de login"), m), v))
      else ((answered (refused 400 "Formulário inválido"), m), v)
