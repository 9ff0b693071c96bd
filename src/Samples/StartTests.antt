-- ===== src/Samples/StartTests.antt =====
-- The theorems on opening the store and starting the program, on a first start and on an old schema.
use base_guard.Base.{
  ◌≡◌, refl, String, true, false, [], ◌∷◌, some, none, str_eq, ◌&&◌, if◌then◌else◌, ok, arith,
  is_blank, collect, is_space,
}
use base_guard.Store.Tables.{conflicts, apply}
use base_guard.Store.Open.{open_store, migrate}
use base_guard.Store.Migration.{Migrated, current, open_store-Migrated, open_store-opens}
use base_guard.Exec.{
  World, ◌>>=◌, try_io, query, run, transaction, attempt, exec, lift, pure, time_now, raise,
}
use base_guard.Worker.Methods.{
  ignore, drop_partial, drop_partials, plan, recover, schedule_all, schedule_list, schedule_one,
}
use base_guard.Command.Program.{Setup, launch, serving, read_destinations, given_password}
use base_guard.Command.Start.{IsServing, launch-IsServing}
use base_guard.Backup.Destination.{
  touch, read_file, remove_file, open_destination, open_root, lookup,
}
use base_guard.FilePath.{is_abs, clean, join}
use base_guard.Security.Key.{load_key}
use base_guard.Security.{decrypt, unboxed}
use base_guard.Server.Sessions.{bootstrap}
use base_guard.Store.Methods.{databases, load_config, load_row, scan_run, setting, with_row}
use base_guard.Model.{schedule, default_database}
use base_guard.Model.TimeOfDay.{parse_time}
use base_guard.Samples.Toy.{toy}
use base_guard.Samples.Worlds.{key, worker, passwords, tables, tables-IsSound, world}

abbrev key_path : String
key_path = "/secrets/master.key"

abbrev db_path : String
db_path = "/data/baseguard.db"

-- The schema before version 2, with the key in its place.
abbrev pub old_world : World
old_world = record world {
  tables = record tables { user_version = 1; has_client_info = false };
  disk = record {
    is_root = world.disk.is_root;
    file = λ root path.
        if str_eq root "" && str_eq path key_path then some key else world.disk.file root path;
  };
}

-- The same, where the second statement of the migration is going to fail.
abbrev faulty_world : World
faulty_world = record old_world {
  faults = none ∷ none ∷ none ∷ none ∷ none ∷ none ∷ none ∷ some "disk I/O error" ∷ [];
}

open_store-Migrated_example :
    Migrated faulty_world.tables (open_store db_path key_path faulty_world).1.tables
open_store-Migrated_example = open_store-Migrated db_path key_path faulty_world

open_store-opens_example :
    open_store db_path key_path old_world
    ≡ (ok key, record old_world { tables = current old_world.tables })
open_store-opens_example =
    open_store-opens db_path key_path old_world key refl refl refl refl (omega arith)

abbrev pub setup : Setup
setup = record {
  args = [];
  getenv = λ name. if str_eq name "BASEGUARD_ADMIN_PASSWORD" then "correct horse" else "";
  split_port = λ s. ok "8080";
  status = λ url. ok 200;
  try_lock = ok true;
  decode = λ s. ok (("nas", "/mnt/nas") ∷ []);
  text = λ b. "";
  templates = ok tt;
  passwords = passwords;
  worker = worker;
}

pub started : launch setup old_world ≡ (ok (serving worker ""), (launch setup old_world).1)
unfolding launch ◌>>=◌ touch read_destinations is_blank is_abs open_store load_key try_io read_file
    query run conflicts migrate transaction apply ignore given_password remove_file open_destination
    open_root lookup collect is_space attempt exec lift pure time_now clean join decrypt unboxed
    bootstrap databases load_config load_row scan_run setting with_row drop_partial drop_partials
    plan recover schedule_all schedule_list schedule_one schedule default_database toy parse_time
    raise
started = refl

launch-IsServing_example :
    (setup.try_lock ≡ ok true) × IsServing setup worker (launch setup old_world).1.tables
launch-IsServing_example =
    launch-IsServing setup old_world (launch setup old_world).1 worker ""
      (record {
        run_ids = tables-IsSound.run_ids;
        database_ids = tables-IsSound.database_ids;
        one_active = tables-IsSound.one_active;
      })
      refl started
