-- ===== src/Store/Tables.antt =====
-- The SQLite tables of internal/app/store.go, rows in the order of their ids, and the statements
-- that the program runs on them, each with the text that it has in the source.
use base_guard.Base.{
  ℕ, suc, String, Bool, true, false, not, ◌&&◌, List, [], ◌∷◌, ◌++◌, Option, none, some, any, first,
  select, update_where, length, ltb, ◌==◌, str_eq, if◌then◌else◌,
}
use base_guard.Model.{
  Database, Run, Status, ConnectionInfo, Json, json, queued, running, success, failed, interrupted,
  expired,
}

pub record DatabaseRow : Type 0 where
  pub id : ℕ
  pub config : Json Database
  pub enabled : Bool
  pub next_run : ℕ

pub record Session : Type 0 where
  pub token : String
  pub csrf : String
  pub expires : ℕ

-- `database_seq` and `run_seq` are the largest ids given out (AUTOINCREMENT), `user_version` is the
-- version of the schema, and `has_client_info` is whether `runs` has the column of version 2: without it
-- every run reads as if the column held its default.
pub record Tables : Type 0 where
  pub databases : List DatabaseRow
  pub runs : List Run
  pub settings : List (String × String)
  pub sessions : List Session
  pub database_seq : ℕ
  pub run_seq : ℕ
  pub user_version : ℕ
  pub has_client_info : Bool

abbrev pub is_active : Status → Bool
is_active queued = true
is_active running = true
is_active _ = false

abbrev pub is_queued : Status → Bool
is_queued queued = true
is_queued _ = false

abbrev pub is_running : Status → Bool
is_running running = true
is_running _ = false

abbrev pub is_success : Status → Bool
is_success success = true
is_success _ = false

-- `database_id=? AND status IN ('queued','running')`
abbrev pub active_for : ℕ → Run → Bool
active_for id r = r.database_id == id && is_active r.status

pub data Statement : Type 0 where
  insert_database : Json Database → Bool → ℕ → Statement
  update_database : ℕ → Json Database → Bool → ℕ → Statement
  set_schedule : ℕ → Bool → ℕ → Statement
  advance : ℕ → ℕ → ℕ → Statement
  delete_database : ℕ → Statement
  enqueue_listed : Database → String → ℕ → Statement
  enqueue_due : Database → String → ℕ → Statement
  claim : ℕ → Statement
  interrupt_running : ℕ → Statement
  set_client_info : ℕ → Json ConnectionInfo → Statement
  set_path : ℕ → String → String → Statement
  succeed : ℕ → ℕ → String → ℕ → Statement
  fail : ℕ → ℕ → String → Statement
  note_error : ℕ → String → Statement
  expire : ℕ → Statement
  insert_setting : String → String → Statement
  update_setting : String → String → Statement
  insert_session : Session → Statement
  delete_session : String → Statement
  delete_expired : ℕ → Statement
  delete_sessions : Statement
  create_tables : Statement
  add_client_info : Statement
  set_user_version : ℕ → Statement

-- The zero value that `{}` decodes to.
abbrev pub no_info : ConnectionInfo
no_info = record {
  engine = "";
  server_version = "";
  client_version = "";
  profile = "";
  legacy = false;
}

-- A row of `INSERT INTO runs(database_id,database_name,status,trigger,created)`, the other columns
-- at their defaults.
abbrev pub queued_run : ℕ → Database → String → ℕ → Run
queued_run id d trigger now = record {
  client_info = json no_info;
  id = id;
  database_id = d.id;
  database_name = d.name;
  status = queued;
  trigger = trigger;
  destination = "";
  path = "";
  error = "";
  sha256 = "";
  created = now;
  started = 0;
  finished = 0;
  size = 0;
}

abbrev pub interruption : String
interruption = "Aplicação reiniciada durante o backup; arquivo não confirmado."

abbrev pub append_run : Database → String → ℕ → Tables → Tables
append_run d trigger now t = record t {
  runs = t.runs ++ queued_run (suc t.run_seq) d trigger now ∷ [];
  run_seq = suc t.run_seq;
}

abbrev pub on_run : ℕ → (Run → Run) → Tables → Tables
on_run id f t = record t { runs = update_where (λ r. r.id == id) f t.runs }

abbrev pub is_listed : ℕ → Tables → Bool
is_listed id t = any (λ r. r.id == id) t.databases

abbrev pub is_busy : ℕ → Tables → Bool
is_busy id t = any (active_for id) t.runs

abbrev pub start : ℕ → Option Run → Tables → Tables
start now none t = t
start now (some r) t = on_run r.id (λ q. record q { status = running; started = now }) t

-- The tables after a statement that does not fail.
unfoldable pub apply : Statement → Tables → Tables
apply (insert_database config enabled next) t = record t {
  databases =
      t.databases
      ++ record { id = suc t.database_seq; config = config; enabled = enabled; next_run = next }
        ∷ [];
  database_seq = suc t.database_seq;
}
apply (update_database id config enabled next) t = record t {
  databases =
      update_where (λ r. r.id == id)
        (λ r. record r { config = config; enabled = enabled; next_run = next }) t.databases;
}
apply (set_schedule id enabled next) t = record t {
  databases =
      update_where (λ r. r.id == id) (λ r. record r { enabled = enabled; next_run = next })
        t.databases;
}
apply (advance id next seen) t = record t {
  databases =
      update_where (λ r. r.id == id && r.enabled && r.next_run == seen)
        (λ r. record r { next_run = next }) t.databases;
}
apply (delete_database id) t =
    if is_busy id t then t else record t { databases = select (λ r. not (r.id == id)) t.databases }
apply (enqueue_listed d trigger now) t =
    if is_listed d.id t && not (is_busy d.id t) then append_run d trigger now t else t
apply (enqueue_due d trigger now) t = if is_busy d.id t then t else append_run d trigger now t
apply (claim now) t = start now (first (λ r. is_queued r.status) t.runs) t
apply (interrupt_running now) t = record t {
  runs =
      update_where (λ r. is_running r.status)
        (λ r. record r { status = interrupted; finished = now; error = interruption }) t.runs;
}
apply (set_client_info id info) t = on_run id (λ r. record r { client_info = info }) t
apply (set_path id destination path) t =
    on_run id (λ r. record r { destination = destination; path = path }) t
apply (succeed id size sum now) t =
    on_run id (λ r. record r { status = success; size = size; sha256 = sum; finished = now }) t
apply (fail id now why) t =
    on_run id (λ r. record r { status = failed; finished = now; error = why }) t
apply (note_error id why) t = on_run id (λ r. record r { error = why }) t
apply (expire id) t = on_run id (λ r. record r { status = expired }) t
apply (insert_setting key value) t = record t { settings = t.settings ++ (key, value) ∷ [] }
apply (update_setting key value) t = record t {
  settings = update_where (λ e. str_eq e.0 key) (λ e. (key, value)) t.settings;
}
apply (insert_session s) t = record t { sessions = t.sessions ++ s ∷ [] }
apply (delete_session token) t = record t {
  sessions = select (λ s. not (str_eq s.token token)) t.sessions;
}
apply (delete_expired now) t = record t {
  sessions = select (λ s. not (ltb s.expires now)) t.sessions;
}
apply delete_sessions t = record t { sessions = [] }
apply create_tables t = t
apply add_client_info t = record t { has_client_info = true }
apply (set_user_version n) t = record t { user_version = n }

-- A duplicate PRIMARY KEY of `settings` or `sessions`, or a column that is there. The unique index on active runs is not looked
-- at here: that its rows are unique is part of Store.Invariant.
unfoldable pub conflicts : Statement → Tables → Bool
conflicts (insert_setting key value) t = any (λ e. str_eq e.0 key) t.settings
conflicts (insert_session s) t = any (λ r. str_eq r.token s.token) t.sessions
conflicts add_client_info t = t.has_client_info
conflicts _ t = false

-- How many rows a WHERE clause selects.
abbrev pub rows_matching {ℓ} : {A : Type ℓ} → (A → Bool) → List A → ℕ
rows_matching p rows = length (select p rows)
