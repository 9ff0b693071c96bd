-- ===== src/Samples/NativeTests.antt =====
-- The theorems on the key file and the native executor, on a server that answers and tools that run.
use base_guard.Base.{
  ◌≡◌, ◌⊎◌, is_space, is_blank, contains_any, contains, refl, String, false, List, [], ◌∷◌, none,
  some, ok,
}
use base_guard.Model.{Database, ConnectionInfo, default_database, validate, refuse_first, schedule}
use base_guard.Model.TimeOfDay.{parse_time}
use base_guard.Backup.Destination.{read_file, touch, create_file, write_file}
use base_guard.Model.Validation.{validate_iff}
use base_guard.Exec.{World, pure, lift, try_io, attempt, rand_read, ◌>>=◌}
use base_guard.Clients.Matrix.{ClientProfile}
use base_guard.Security.Key.{load_key, create_key, store_key}
use base_guard.Security.KeyFile.{IsRead, IsRefused, IsMade, load_key_lem}
use base_guard.Native.Credentials.{int_text, passfile}
use base_guard.Native.Passfile.{read_passfile, read_passfile-passfile}
use base_guard.Native.Process.{Tools}
use base_guard.Native.Prepare.{prepare, identify_mysql, field_count}
use base_guard.Native.Cleanup.{prepare-leaves_nothing}
use base_guard.Clients.Versions.{
  server_series, names_maria, trim_left, numeric_version, digits, strip,
}
use base_guard.Native.Versions.{trim_space, trim_right, client_version}
use base_guard.Samples.Worlds.{shop, key, hourly, worker, world}

abbrev key_path : String
key_path = "/secrets/master.key"

abbrev db_path : String
db_path = "/data/baseguard.db"

load_key_lem_example :
    IsRead key_path db_path world
    ⊎ (IsRefused key_path db_path world ⊎ IsMade key_path db_path world)
load_key_lem_example = load_key_lem key_path db_path world refl

abbrev keyed : World
keyed = (load_key key_path db_path world).1

made : load_key key_path db_path world ≡ (ok key, keyed)
unfolding load_key create_key store_key lift pure try_io ◌>>=◌ rand_read attempt read_file touch
    create_file write_file
made = refl

-- A colon and a backslash in the password.
abbrev tricky : Database
tricky = record shop { password = "a:b\\c" }

tricky-valid : validate hourly worker.destinations tricky ≡ ok tt
unfolding validate default_database refuse_first is_blank contains_any contains schedule parse_time
tricky-valid = refl

read_passfile-passfile_example :
    read_passfile (passfile tricky)
    ≡ some (
        tricky.host ∷ int_text tricky.port ∷ tricky.dbname ∷ tricky.username ∷ tricky.password ∷ [])
read_passfile-passfile_example =
    read_passfile-passfile hourly worker.destinations tricky
      ((validate_iff hourly worker.destinations tricky).0 tricky-valid)

-- A server of PostgreSQL 16, and its tools.
abbrev answered : List String → String
answered (a ∷ []) = "psql (PostgreSQL) 16.4\n"
answered _ = "160004\n16.4 (Debian)\n"

abbrev installed : Tools
installed = record {
  answer = λ w name args env. record { out = answered args; stderr = ""; ended = none };
  stream = λ w name args env. record { out = 1 ∷ 2 ∷ []; stderr = ""; ended = none };
  temp_name = λ w. "/tmp/baseguard-auth-1";
  clients_dir = "/opt/baseguard/clients";
  compress = λ b. b;
}

abbrev info : ConnectionInfo
info = record {
  engine = "postgres";
  server_version = "16.4 (Debian)";
  client_version = "16.4";
  profile = "postgres-16";
  legacy = false;
}

abbrev sixteen_tools : ClientProfile
sixteen_tools = record {
  engine = "postgres";
  series = "16";
  client_series = "16";
  sql = "psql";
  dump = "pg_dump";
  restore = "pg_restore";
  legacy = false;
}

prepare-leaves_nothing_example :
    (prepare installed shop world).1.disk.file "" "/tmp/baseguard-auth-1"
    ≡ world.disk.file "" "/tmp/baseguard-auth-1"
prepare-leaves_nothing_example =
    prepare-leaves_nothing installed shop world "" "/tmp/baseguard-auth-1" refl refl

abbrev maria : Database
maria = record shop { engine = "mariadb" }

abbrev reported : String
reported = "11.4.2-MariaDB"

abbrev maria_lines : List String
maria_lines = reported ∷ "mariadb.org binary" ∷ "0" ∷ "Ssl_cipher\tTLS_AES" ∷ []

accepted : identify_mysql maria maria_lines ≡ ok ("11.4", "11.4.2-MariaDB")
unfolding identify_mysql server_series names_maria trim_space trim_right trim_left is_space
    numeric_version digits strip default_database field_count
accepted = refl
