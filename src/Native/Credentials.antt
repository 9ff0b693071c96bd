-- ===== src/Native/Credentials.antt =====
-- `credentials`: the file with the password, the environment and the options of a client tool.
use base_guard.Base.{
  suc, String, Bool, List, [], ◌∷◌, ◌++◌, str_eq, ℤ, pos, negsuc, itoa, ◌⊕◌, if◌then◌else◌,
}
use base_guard.Model.{Database}
use base_guard.Native.Escape.{escape}

-- `strconv.Itoa` and `%d`
abbrev pub int_text : ℤ → String
int_text (pos n) = itoa n
int_text (negsuc n) = "-" ⊕ itoa (suc n)

abbrev pub pg_escape : String → String
pg_escape s = escape b':' s

abbrev pub quote_escape : String → String
quote_escape s = escape b'"' s

unfoldable pub passfile : Database → String
passfile d =
    pg_escape d.host
    ⊕ ":"
    ⊕ int_text d.port
    ⊕ ":"
    ⊕ pg_escape d.dbname
    ⊕ ":"
    ⊕ pg_escape d.username
    ⊕ ":"
    ⊕ pg_escape d.password
    ⊕ "\n"

unfoldable pub option_file : Database → String
option_file d = "[client]\npassword=\"" ⊕ quote_escape d.password ⊕ "\"\n"

abbrev pub is_postgres : Database → Bool
is_postgres d = str_eq d.engine "postgres"

-- What is written to the file.
abbrev pub content : Database → String
content d = if is_postgres d then passfile d else option_file d

abbrev pub system_ca : String
system_ca = "/etc/ssl/certs/ca-certificates.crt"

-- An option with the certificate authority: the record's, or the system's for "verify-full".
abbrev pub with_ca : String → Database → List String
with_ca flag d =
    if str_eq d.ca_file ""
    then (if str_eq d.tls_mode "verify-full" then (flag ⊕ system_ca) ∷ [] else [])
    else (flag ⊕ d.ca_file) ∷ []

-- The environment of a tool beyond the program's own.
unfoldable pub environment : String → Database → List String
environment file d =
    if is_postgres d
    then ("PGPASSFILE=" ⊕ file)
      ∷ ("PGSSLMODE=" ⊕ d.tls_mode)
      ∷ "PGCONNECT_TIMEOUT=15"
      ∷ with_ca "PGSSLROOTCERT=" d
    else []

abbrev pub mysql_mode : String → String
mysql_mode mode =
    if str_eq mode "disable"
    then "DISABLED"
    else if str_eq mode "require"
    then "REQUIRED"
    else if str_eq mode "verify-full"
    then "VERIFY_IDENTITY"
    else ""

abbrev pub mariadb_tls : String → List String
mariadb_tls mode =
    if str_eq mode "disable"
    then "--skip-ssl" ∷ []
    else if str_eq mode "require"
    then "--ssl" ∷ "--disable-ssl-verify-server-cert" ∷ []
    else if str_eq mode "verify-full"
    then "--ssl" ∷ "--ssl-verify-server-cert" ∷ []
    else []

abbrev pub mysql_tls : String → List String
mysql_tls mode =
    ("--ssl-mode=" ⊕ mysql_mode mode)
    ∷ (if str_eq mode "disable" then "--get-server-public-key" ∷ [] else [])

unfoldable pub options : String → Database → List String
options file d =
    if is_postgres d
    then ("--host=" ⊕ d.host)
      ∷ ("--port=" ⊕ int_text d.port)
      ∷ ("--username=" ⊕ d.username)
      ∷ "--no-password"
      ∷ []
    else ("--defaults-file=" ⊕ file)
      ∷ "--protocol=TCP"
      ∷ ("--host=" ⊕ d.host)
      ∷ ("--port=" ⊕ int_text d.port)
      ∷ ("--user=" ⊕ d.username)
      ∷ ((if str_eq d.engine "mariadb" then mariadb_tls d.tls_mode else mysql_tls d.tls_mode)
          ++ with_ca "--ssl-ca=" d)
