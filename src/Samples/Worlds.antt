-- ===== src/Samples/Worlds.antt =====
-- One database that is stored and due, one run in the queue, and a destination with its marker.
use base_guard.Base.{
  ℕ, zero, suc, ◌+◌, true, [], ◌∷◌, none, some, ok, str_eq, ◌⊕◌, ◌&&◌, if◌then◌else◌, refl, arith,
}
use base_guard.Disk.{Bytes, Disk, utf8}
use base_guard.Model.{Database, default_database, Cron, json}
use base_guard.Store.Tables.{Tables, DatabaseRow, queued_run}
use base_guard.Store.Invariant.{IsSound}
use base_guard.Backup.Destination.{marker}
use base_guard.Backup.Write.{Executor}
use base_guard.Exec.{World}
use base_guard.Worker.Methods.{Worker}
use base_guard.Server.Sessions.{Passwords}
use base_guard.Samples.Toy.{toy, tallies}

abbrev pub zeros : ℕ → Bytes
zeros zero = []
zeros (suc n) = 0 ∷ zeros n

abbrev pub key : Bytes
key = zeros 32

-- Every zone is known, and every schedule fires an hour later.
abbrev pub hourly : Cron
hourly = record {
  known_zone = λ zone. true;
  every_hours = λ hours now. now + 3600;
  parse_standard = λ spec. ok (λ now. now + 3600);
}

abbrev pub executor : Executor
executor = record { prepare = none; check = λ d. ok "dump 1.0"; dump = λ d. (1 ∷ 2 ∷ 3 ∷ [], none) }

abbrev pub worker : Worker
worker = record {
  key = key;
  destinations = ("nas", "/mnt/nas") ∷ [];
  executor = executor;
  cipher = toy;
  cron = hourly;
  digest = λ b. "digest";
}

abbrev pub passwords : Passwords
passwords = record {
  hash = λ s. ok ("h:" ⊕ s);
  matches = λ h s. str_eq h ("h:" ⊕ s);
  token_hash = λ s. "t:" ⊕ s;
  token = λ b. "token";
}

abbrev pub shop : Database
shop = record default_database {
  name = "Shop";
  host = "db";
  dbname = "shop";
  username = "reader";
  password = "";
  destination = "nas";
}

-- `shop` as its row gives it: enabled, and due at 100.
abbrev pub stored_shop : Database
stored_shop = record shop { id = 1; enabled = true; next_run = 100 }

-- The box of the empty password: twelve zeros.
abbrev pub sealed_shop : Database
sealed_shop = record shop { password = tallies (zeros 12) }

abbrev pub shop_row : DatabaseRow
shop_row = record { id = 1; config = json sealed_shop; enabled = true; next_run = 100 }

abbrev pub tables : Tables
tables = record {
  databases = shop_row ∷ [];
  runs = queued_run 1 stored_shop "manual" 50 ∷ [];
  settings = [];
  sessions = [];
  database_seq = 1;
  run_seq = 1;
  user_version = 2;
  has_client_info = true;
}

-- The same without a run.
abbrev pub idle_tables : Tables
idle_tables = record tables { runs = [] }

abbrev pub disk : Disk
disk = record {
  is_root = λ path. str_eq path "/mnt/nas";
  file =
      λ root path. if str_eq root "/mnt/nas" && str_eq path marker then some (utf8 "nas") else none;
}

abbrev pub world : World
world = record { tables = tables; disk = disk; faults = []; clock = 200 ∷ 300 ∷ []; random = [] }

abbrev pub idle_world : World
idle_world = record world { tables = idle_tables }

pub tables-IsSound : IsSound tables
tables-IsSound = record {
  run_ids = (omega arith, omega arith);
  database_ids = (omega arith, omega arith);
  one_active = (λ a. refl, tt);
}

pub idle_tables-IsSound : IsSound idle_tables
idle_tables-IsSound = record {
  run_ids = omega arith;
  database_ids = (omega arith, omega arith);
  one_active = tt;
}
