-- ===== src/Native/Prepare.antt =====
-- `NativeExecutor.Prepare`: the server is asked for its version, its series gives the profile, and the
-- tools of the profile must have the version that it wants.
use Prim.Native.Char.{Char, code}
use base_guard.Base.{
  ℕ, suc, ◌+◌, ◌/◌, ◌%◌, String, Bool, true, false, not, ◌&&◌, ◌||◌, List, [], ◌∷◌, ◌++◌, Option,
  none, some, ltb, ◌==◌, str_eq, ◌⊕◌, itoa, Error, failure, Result, ok, err, refuse_if,
  if◌then◌else◌, is_space,
}
use base_guard.Base
use base_guard.Disk.{Bytes, utf8}
use base_guard.Model.{Database, ConnectionInfo}
use base_guard.Clients.Versions.{server_series, numeric_version}
use base_guard.Clients.Matrix.{ClientProfile, profile_for, atoi}
use base_guard.Exec.{Io, pure, lift, ◌>>=◌, ◌>>◌}
use base_guard.Native.Credentials.{is_postgres, environment, options}
use base_guard.Native.Versions.{trim_space, client_version}
use base_guard.Native.Process.{Tools, with_credentials, command, binary}

abbrev pub put_front : Char → List String → List String
put_front c [] = String.◌∷◌ c "" ∷ []
put_front c (l ∷ ls) = String.◌∷◌ c l ∷ ls

-- `strings.Split(s, "\n")`
unfoldable pub split_lines : String → List String
split_lines String.[] = "" ∷ []
split_lines (String.◌∷◌ c s) =
    let ls = split_lines s in if code c == b'\n' then "" ∷ ls else put_front c ls

-- `len(strings.Fields(s))`; the first argument tells that a field is being read.
unfoldable pub field_count : Bool → String → ℕ
field_count inside String.[] = 0
field_count inside (String.◌∷◌ c s) =
    let gap = field_count false s in
    let more = field_count true s in
    if is_space (code c) then gap else if inside then more else suc more

abbrev pub hex_digit : ℕ → String
hex_digit n =
    if ltb n 10
    then itoa n
    else if n == 10
    then "a"
    else if n == 11
    then "b"
    else if n == 12
    then "c"
    else if n == 13
    then "d"
    else if n == 14
    then "e"
    else "f"

-- `hex.EncodeToString`
unfoldable pub hex : Bytes → String
hex [] = ""
hex (b ∷ bs) = hex_digit (b / 16) ⊕ hex_digit (b % 16) ⊕ hex bs

abbrev pub probe_series : String → String
probe_series engine =
    if str_eq engine "postgres"
    then "18"
    else if str_eq engine "mysql"
    then "8.0"
    else if str_eq engine "mariadb"
    then "12.3"
    else ""

unfoldable pub probe_query : Database → String
probe_query d =
    "SELECT VERSION(); SELECT @@version_comment; SELECT COUNT(*) FROM information_schema.tables WHERE table_schema=CONVERT(0x"
    ⊕ hex (utf8 d.dbname)
    ⊕ " USING utf8mb4) AND TABLE_TYPE='BASE TABLE' AND (ENGINE IS NULL OR ENGINE <> 'InnoDB'); SHOW SESSION STATUS LIKE 'Ssl_cipher';"

unfoldable pub probe_args : Database → List String
probe_args d =
    if is_postgres d
    then "-X"
      ∷ "-A"
      ∷ "-t"
      ∷ "-v"
      ∷ "ON_ERROR_STOP=1"
      ∷ ("--dbname=" ⊕ d.dbname)
      ∷ "--command=SHOW server_version_num; SHOW server_version;"
      ∷ []
    else "--connect-timeout=15"
      ∷ "--batch"
      ∷ "--skip-column-names"
      ∷ ("--database=" ⊕ d.dbname)
      ∷ ("--execute=" ⊕ probe_query d)
      ∷ []

-- The series and the version that are recorded.
abbrev pub postgres_number : String → Option ℕ → Result (String × String)
postgres_number raw none = err (failure "PostgreSQL anterior a 12 ou versão inválida")
postgres_number raw (some n) =
    if ltb n 100000
    then err (failure "PostgreSQL anterior a 12 ou versão inválida")
    else ok (itoa (n / 10000), trim_space raw)

unfoldable pub identify_postgres : List String → Result (String × String)
identify_postgres (number ∷ raw ∷ []) = postgres_number raw (atoi (trim_space number))
identify_postgres _ = err (failure "resposta inválida ao identificar PostgreSQL")

abbrev pub no_tls : Database → String → Bool
no_tls d cipher = not (str_eq d.tls_mode "disable") && not (field_count false cipher == 2)

unfoldable pub identify_mysql : Database → List String → Result (String × String)
identify_mysql d (version ∷ comment ∷ others ∷ cipher ∷ []) =
    Base.◌>>=◌ (server_series d.engine (trim_space version) comment) λ series.
      Base.◌>>◌
        (refuse_if (not (str_eq (trim_space others) "0"))
          "banco contém tabelas fora do InnoDB; backup consistente recusado")
        (Base.◌>>◌
          (refuse_if (no_tls d cipher)
            "servidor não estabeleceu TLS; conexão sem criptografia recusada")
          (ok (series, trim_space version)))
identify_mysql d _ = err (failure "resposta inválida ao identificar servidor e mecanismos")

abbrev pub identify : Database → List String → Result (String × String)
identify d ls = if is_postgres d then identify_postgres ls else identify_mysql d ls

abbrev pub series_part : Database → Option (String × String) → String
series_part d none = ""
series_part d (some (major, minor)) = if is_postgres d then major else major ⊕ "." ⊕ minor

module _ (t : Tools) (d : Database) where
  -- One round of the loop over the tools: the version of a tool that has the wanted one.
  unfoldable pub tool_version : ClientProfile → List String → String → Io String
  tool_version p env name = do
    out ← command t d (binary t p name) ("--version" ∷ []) env
    v ← lift (client_version out)
    lift (
        if str_eq (series_part d (numeric_version v)) p.client_series
        then ok v
        else err (
            failure
              ("cliente " ⊕ name ⊕ " possui versão " ⊕ v ⊕ "; perfil exige " ⊕ p.client_series)))

  -- The loop, and the version of the tool that dumps.
  unfoldable pub check_tools : ClientProfile → List String → Io String
  check_tools p env = do
    tool_version p env p.sql
    v ← tool_version p env p.dump
    tool_version p env p.restore
    pure v

  abbrev pub info_of : ClientProfile → String → String → ConnectionInfo
  info_of p raw client = record {
    engine = d.engine;
    server_version = raw;
    client_version = client;
    profile = p.engine ⊕ "-" ⊕ p.series;
    legacy = p.legacy;
  }

  unfoldable pub prepare_on : ClientProfile → String → Io (ConnectionInfo × ClientProfile)
  prepare_on probe file = do
    out ←
        command t d (binary t probe probe.sql) (options file d ++ probe_args d) (environment file d)
    (series, raw) ← lift (identify d (split_lines (trim_space out)))
    p ← lift (profile_for d.engine series)
    client ← check_tools p (environment file d)
    pure (info_of p raw client, p)

  -- `Prepare`
  unfoldable pub prepare : Io (ConnectionInfo × ClientProfile)
  prepare = do
    probe ← lift (profile_for d.engine (probe_series d.engine))
    with_credentials t d (prepare_on probe)

  abbrev pub dump_args : List String
  dump_args =
      "--single-transaction"
      ∷ "--quick"
      ∷ "--routines"
      ∷ "--events"
      ∷ "--triggers"
      ∷ "--hex-blob"
      ∷ "--no-tablespaces"
      ∷ (if str_eq d.engine "mysql"
          then "--set-gtid-purged=OFF" ∷ "--column-statistics=0" ∷ []
          else [])

  abbrev pub dump_line : String → List String
  dump_line file =
      if is_postgres d
      then options file d ++ ("--format=custom" ∷ "--compress=1" ∷ ("--dbname=" ⊕ d.dbname) ∷ [])
      else options file d ++ (dump_args ++ (d.dbname ∷ []))
