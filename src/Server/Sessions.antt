-- ===== src/Server/Sessions.antt =====
-- Sessions and the administrator's password. A token is what `randomToken` gives, and bcrypt and the
-- token's SHA-256 are parameters.
use base_guard.Base.{
  ℕ, ◌+◌, String, Bool, not, ◌&&◌, ◌||◌, Option, none, some, first, ltb, str_eq, no_rows, failure,
  Result, ok, err, if◌then◌else◌,
}
use Prim.Native.String.{len}
use base_guard.Disk.{Bytes}
use base_guard.Store.Tables.{
  Session, insert_setting, insert_session, delete_session, delete_expired,
}
use base_guard.Store.Methods.{or_no_rows, setting}
use base_guard.Exec.{Io, pure, lift, query, run, try_io, time_now, rand_read, ◌>>=◌, ◌>>◌}
use base_guard.Worker.Methods.{ignore}

-- `hash password` is a bcrypt hash of the text, `matches hash text` is whether
-- `CompareHashAndPassword` accepts; `token_hash` is `tokenHash`; `token` is the end of
-- `randomToken`, whose panic without random bytes is an error here.
pub record Passwords : Type 0 where
  pub hash : String → Result String
  pub matches : String → String → Bool
  pub token_hash : String → String
  pub token : Bytes → String

-- `equal`
abbrev pub equal : String → String → Bool
equal a b = not (str_eq a "") && str_eq a b

-- What `auth` reads of a request; `cookie` is the session cookie, `csrf` the form's field.
pub record Request : Type 0 where
  pub cookie : Option String
  pub is_post : Bool
  pub parses : Bool
  pub csrf : String

pub data Verdict : Type 0 where
  -- to the login page
  login_first : Verdict
  bad_form : Verdict
  bad_csrf : Verdict
  -- `next.ServeHTTP`, with the session's token
  admitted : String → Verdict

module _ (p : Passwords) where
  abbrev pub open_session : String → ℕ → Session → Bool
  open_session token now s = str_eq s.token (p.token_hash token) && ltb now s.expires

  abbrev pub session_of : Option String → Io Session
  session_of none = lift (err (failure "http: named cookie not present"))
  session_of (some token) = do
    now ← time_now
    found ← query (λ t. first (open_session token now) t.sessions)
    lift (or_no_rows found)

  abbrev pub checked : Request → Result Session → Verdict
  checked r (err e) = login_first
  checked r (ok s) =
      if r.is_post
      then (if r.parses
          then (if equal s.csrf r.csrf then admitted s.csrf else bad_csrf)
          else bad_form)
      else admitted s.csrf

  -- `auth`
  unfoldable pub auth : Request → Io Verdict
  auth r = try_io (session_of r.cookie) >>= λ s. pure (checked r s)

  abbrev pub twelve_hours : ℕ
  twelve_hours = 43200

  -- The end of `login`, once the password matched: the answer is the session cookie.
  unfoldable pub new_session : ℕ → Io String
  new_session now = do
    new ← rand_read 32
    ignore (run (delete_expired now))
    csrf ← rand_read 32
    run (
        insert_session (record {
          token = p.token_hash (p.token new);
          csrf = p.token csrf;
          expires = now + twelve_hours;
        }))
    pure (p.token new)

  -- `logout`
  unfoldable pub logout : String → Io (Unit {0})
  logout token = run (delete_session (p.token_hash token))

  abbrev pub bad_length : String → Bool
  bad_length s = ltb (len s) 12 || ltb 72 (len s)

  abbrev pub generated : String → Io String
  generated given = if str_eq given "" then (rand_read 32 >>= λ b. pure (p.token b)) else pure ""

  abbrev pub bootstrap_with : String → Result String → Io String
  bootstrap_with given (ok h) = pure ""
  bootstrap_with given (err no_rows) = do
    new ← generated given
    let chosen = if str_eq given "" then new else given
    lift (
        if bad_length chosen
        then err (failure "senha inicial deve ter de 12 a 72 bytes")
        else ok tt)
    h ← lift (p.hash chosen)
    run (insert_setting "admin_hash" h)
    pure new
  bootstrap_with given (err e) = lift (err e)

  -- `Bootstrap`
  unfoldable pub bootstrap : String → Io String
  bootstrap given = try_io (setting "admin_hash") >>= bootstrap_with given
