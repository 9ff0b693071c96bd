-- ===== src/Model/Defs.antt =====
-- The records of internal/app/model.go and of the connection details in clients.go.
use base_guard.Base.{ℕ, String, Bool, false, ℤ, pos}

-- `ConnectionInfo` of internal/app/clients.go
pub record ConnectionInfo : Type 0 where
  pub engine : String
  pub server_version : String
  pub client_version : String
  pub profile : String
  pub legacy : Bool

-- Row ids are SQLite's, which are never negative; `next_run` is a Unix time, 0 when not planned.
pub record Database : Type 0 where
  pub id : ℕ
  pub name : String
  pub engine : String
  pub host : String
  pub dbname : String
  pub username : String
  pub password : String
  pub tls_mode : String
  pub ca_file : String
  pub port : ℤ
  pub destination : String
  pub subdir : String
  pub schedule_kind : String
  pub at : String
  pub timezone : String
  pub interval : ℤ
  pub weekday : ℤ
  pub retain : ℤ
  pub timeout : ℤ
  pub enabled : Bool
  pub next_run : ℕ

unfoldable pub default_database : Database
default_database = record {
  id = 0;
  name = "";
  engine = "postgres";
  host = "";
  dbname = "";
  username = "";
  password = "";
  tls_mode = "require";
  ca_file = "";
  port = pos 5432;
  destination = "";
  subdir = "";
  schedule_kind = "daily";
  at = "02:00";
  timezone = "America/Sao_Paulo";
  interval = pos 24;
  weekday = pos 0;
  retain = pos 7;
  timeout = pos 120;
  enabled = false;
  next_run = 0;
}

-- The values of the TEXT column `status`: those that the program's statements write.
pub data Status : Type 0 where
  queued running success failed interrupted expired : Status

pub Status-discrete : Discrete Status
Status-discrete = hlevel

-- The text of a JSON column: the value that it encodes, or text that `json.Unmarshal` refuses.
-- `json.Marshal` writes every field of these records, so decoding gives the value back.
pub data Json (A : Type 0) : Type 0 where
  json : A → Json A
  malformed : String → Json A

pub record Run : Type 0 where
  pub client_info : Json ConnectionInfo
  pub id : ℕ
  pub database_id : ℕ
  pub database_name : String
  pub status : Status
  pub trigger : String
  pub destination : String
  pub path : String
  pub error : String
  pub sha256 : String
  pub created : ℕ
  pub started : ℕ
  pub finished : ℕ
  pub size : ℕ
