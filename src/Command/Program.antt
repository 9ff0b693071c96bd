-- ===== src/Command/Program.antt =====
-- `run`: the health check, the mark of a destination, or the start of the panel and the worker. Files
-- outside the destinations are below the root "", by their whole path.
use Prim.Native.Char.{code}
use base_guard.Base.{
  ℕ, String, Bool, true, false, not, ◌&&◌, ◌||◌, List, [], ◌∷◌, any, ◌==◌, str_eq, is_blank, ◌⊕◌,
  itoa, message, failure, Result, ok, err, refuse_if, if◌then◌else◌,
}
use base_guard.Base
use base_guard.FilePath.{join, is_abs}
use base_guard.Disk.{Bytes}
use base_guard.Exec.{Io, pure, lift, time_now, ◌>>=◌, ◌>>◌}
use base_guard.Backup.Destination.{touch, read_file, init_destination}
use base_guard.Store.Open.{open_store}
use base_guard.Worker.Methods.{Worker, recover, schedule_all}
use base_guard.Server.Sessions.{Passwords, bootstrap}

-- What the program is started with. `args` are the arguments after the program's name; the rest stands for
-- libraries: `net.SplitHostPort`, the status of a GET, `flock`, the decoder of JSON, the text of bytes and the
-- parser of the templates. `worker` has the executor, the cipher, the zones and the digest.
pub record Setup : Type 0 where
  pub args : List String
  pub getenv : String → String
  pub split_port : String → Result String
  pub status : String → Result ℕ
  pub try_lock : Result Bool
  pub decode : String → Result (List (String × String))
  pub text : Bytes → String
  pub templates : Result (Unit {0})
  pub passwords : Passwords
  pub worker : Worker

-- How `run` goes on: the worker and the server are started, with the initial password, if one was made.
pub data Command : Type 0 where
  healthy : Command
  destination_marked : Command
  serving : Worker → String → Command

-- `strings.TrimRight(s, "\r\n")`
unfoldable pub trim_newlines : String → String
trim_newlines String.[] = ""
trim_newlines (String.◌∷◌ c s) =
    let rest = trim_newlines s in
    if str_eq rest "" && (code c == b'\r' || code c == b'\n') then "" else String.◌∷◌ c rest

abbrev pub no_destination : List (String × String) → Bool
no_destination [] = true
no_destination (d ∷ ds) = false

abbrev pub bad_destination : String × String → Bool
bad_destination (name, path) = is_blank name || not (is_abs path)

abbrev pub undecoded : Result (List (String × String)) → Result (List (String × String))
undecoded (ok ds) = ok ds
undecoded (err e) = err (
    failure (
      "BASEGUARD_DESTINATIONS: JSON inválido ("
      ⊕ message e
      ⊕ "). Para o destino padrão Principal em /backups, remova essa variável das configurações do container e aplique a alteração"))

module _ (s : Setup) where
  -- `env`
  abbrev pub env : String → String → String
  env key fallback = if str_eq (s.getenv key) "" then fallback else s.getenv key

  unfoldable pub healthcheck : Result Command
  healthcheck =
      let port = s.split_port (env "BASEGUARD_LISTEN" ":8080") in
      Base.◌>>=◌ port λ p.
        Base.◌>>=◌ (s.status ("http://127.0.0.1:" ⊕ p ⊕ "/healthz"))
          λ n. if n == 200 then ok healthy else err (failure ("healthcheck: " ⊕ itoa n))

  unfoldable pub mark : List String → Io Command
  mark (path ∷ name ∷ []) = init_destination path name >> pure destination_marked
  mark _ = lift (err (failure "uso: baseguard init-destination /caminho Nome"))

  -- The destinations of the configuration.
  unfoldable pub read_destinations : Io (List (String × String))
  read_destinations = do
    ds ← lift (undecoded (s.decode (env "BASEGUARD_DESTINATIONS" "{\"Principal\":\"/backups\"}")))
    lift (refuse_if (no_destination ds) "configure pelo menos um destino")
    lift (refuse_if (any bad_destination ds) "destino deve ter nome e caminho absoluto")
    pure ds

  -- The password of the administrator that the environment gives, itself or as a file.
  unfoldable pub given_password : Io String
  given_password =
      let path = s.getenv "BASEGUARD_ADMIN_PASSWORD_FILE" in
      if str_eq path ""
      then pure (s.getenv "BASEGUARD_ADMIN_PASSWORD")
      else (read_file "" path >>= λ b. pure (trim_newlines (s.text b)))

  abbrev pub data_dir : String
  data_dir = env "BASEGUARD_DATA_DIR" "/data"

  -- `run` up to the start of the worker and the server.
  unfoldable pub launch : Io Command
  launch = do
    touch
    locked ← lift s.try_lock
    lift (refuse_if (not locked) "já existe uma instância utilizando este diretório de dados")
    ds ← read_destinations
    key ← open_store (join data_dir "baseguard.db") (env "BASEGUARD_KEY_FILE" "/secrets/master.key")
    let w = record s.worker { key = key; destinations = ds }
    lift s.templates
    password ← given_password
    generated ← bootstrap s.passwords password
    recover w
    now ← time_now
    schedule_all w now "recovery"
    pure (serving w generated)

  -- `run`
  unfoldable pub dispatch : List String → Io Command
  dispatch [] = launch
  dispatch (command ∷ rest) =
      if str_eq command "healthcheck"
      then lift healthcheck
      else if str_eq command "init-destination"
      then mark rest
      else lift (err (failure ("comando desconhecido: " ⊕ command)))
