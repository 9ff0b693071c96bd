-- ===== src/Server/Shown.antt =====
-- The pages that only read the tables.
use base_guard.Base.{ℕ, String, Bool, Option, none, some, Result, ok, err}
use base_guard.Model.{Run}
use base_guard.Store.Tables.{Tables}
use base_guard.Store.Methods.{databases, database, runs, run_by_id}
use base_guard.Exec.Keeps.{Keeps, keeps_rules}
use base_guard.Backup.Keeps.{Keeps-read_file, Keeps-open_destination}
use base_guard.Worker.Methods.{Worker}
use base_guard.Server.Panel.{download, download_run, download_from}
use base_guard.Server.Sessions.{Passwords, Request, session_of, auth}
use base_guard.Server.Pages.{dashboard, overview_now, form}

module _ {P : Tables → Type 0} where
  Keeps-session_of : (p : Passwords) (c : Option String) → Keeps P (session_of p c)
  Keeps-session_of p none = search keeps_rules
  Keeps-session_of p (some token) = search keeps_rules depth 8

  pub Keeps-auth : (p : Passwords) (r : Request) → Keeps P (auth p r)
  unfolding auth
  Keeps-auth p r = search (keeps_rules, Keeps-session_of) depth 8

  pub Keeps-dashboard :
      (w : Worker) (csrf : String) (status : Bool) (flash : String)
      → Keeps P (dashboard w csrf status flash)
  unfolding dashboard overview_now databases runs
  Keeps-dashboard w csrf status flash = search keeps_rules depth 10

  pub Keeps-form : (w : Worker) (csrf : String) (id : Option ℕ) → Keeps P (form w csrf id)
  unfolding form database databases
  Keeps-form w csrf none = search keeps_rules
  Keeps-form w csrf (some id) = search keeps_rules depth 10

  Keeps-download_from :
      (w : Worker) (r : Run) (root : Result String) → Keeps P (download_from w r root)
  Keeps-download_from w r (ok root) = search (keeps_rules, Keeps-read_file) depth 6
  Keeps-download_from w r (err e) = search keeps_rules

  Keeps-download_run : (w : Worker) (r : Result Run) → Keeps P (download_run w r)
  Keeps-download_run w (ok r) =
      search (keeps_rules, Keeps-open_destination, Keeps-download_from) depth 8
  Keeps-download_run w (err e) = search keeps_rules

  pub Keeps-download : (w : Worker) (id : ℕ) → Keeps P (download w id)
  unfolding download run_by_id
  Keeps-download w id = search (keeps_rules, Keeps-download_run) depth 8
