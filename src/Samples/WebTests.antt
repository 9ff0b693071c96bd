-- ===== src/Samples/WebTests.antt =====
-- The theorems on requests, on the retention and on the loop of the worker, on a panel with one session.
use base_guard.Model.TimeOfDay.{parse_time}
use base_guard.Samples.Toy.{toy, text_of}
use base_guard.Security.{decrypt}
use base_guard.Disk.{bytes_eq, utf8}
use base_guard.Backup.Destination.{open_destination, open_root, read_file, remove_file, lookup}
use base_guard.Store.Methods.{setting, scan_run, load_row, databases, runs}
use base_guard.Base.{
  ℕ, ◌≡◌, ◌≤◌, ◌+◌, refl, pos, String, true, false, [], ◌∷◌, some, none, map, any, ok, arith,
  collect,
}
use base_guard.Model.{Database, Run, success, magnitude, schedule, default_database}
use base_guard.Store.Tables.{queued_run, rows_matching, apply, conflicts}
use base_guard.Store.Invariant.{IsSound}
use base_guard.Exec.{World, try_io, ◌>>=◌, run, rand_read, query}
use base_guard.Worker.Methods.{retain, ignore, expire_runs, expire_run}
use base_guard.Worker.Waiting.{queued_count}
use base_guard.Worker.Drain.{ticks, ticks-empties}
use base_guard.Worker.Retention.{success_of, surplus, expired_in, retain-le}
use base_guard.Server.Attempts.{of_ip, attempted}
use base_guard.Server.Sessions.{Request, admitted, auth, new_session}
use base_guard.Server.Opened.{new_session-auth}
use base_guard.Server.Pages.{Dashboard, signed_in, overview_now, overview}
use base_guard.Server.Login.{LoginForm, token_fits, login, sign_in}
use base_guard.Server.SignIn.{SignsIn, login-SignsIn}
use base_guard.Server.Handler.{Panel, HttpRequest, delete_database, handle}
use base_guard.Server.Serving.{handle-IsSound}
use base_guard.Samples.Worlds.{
  worker, passwords, shop, stored_shop, idle_tables, idle_tables-IsSound, idle_world, hourly, world,
  tables,
}

abbrev panel : Panel
panel = record { worker = worker; passwords = passwords; origin_host = λ s. some s }

-- A session that is open until 1000, and the password of the administrator.
abbrev session_world : World
session_world = record idle_world {
  tables = record idle_tables {
    settings = ("admin_hash", "h:correct horse") ∷ [];
    sessions = record { token = "t:cookie"; csrf = "secret"; expires = 1000 } ∷ [];
  };
}

abbrev deletion : HttpRequest
deletion = record {
  route = delete_database 1;
  origin = "panel";
  host = "panel";
  cookie = some "cookie";
  from_htmx = false;
  flash = "";
  parses = true;
  csrf = "secret";
  entered = shop;
  current = "";
  next = "";
  login_cookie = none;
  username = "";
  password = "";
  ip = "10.0.0.1";
  arrival = 0;
}

handle-IsSound_example : IsSound (handle panel deletion [] session_world).1.tables
handle-IsSound_example = handle-IsSound panel deletion [] session_world (record {
  run_ids = idle_tables-IsSound.run_ids;
  database_ids = idle_tables-IsSound.database_ids;
  one_active = idle_tables-IsSound.one_active;
})

abbrev opened_world : World
opened_world = (new_session passwords 200 idle_world).1

opened : new_session passwords 200 idle_world ≡ (ok "token", opened_world)
unfolding new_session try_io ◌>>=◌ ignore apply run conflicts rand_read
opened = refl

abbrev visit : Request
visit = record { cookie = some "token"; is_post = false; parses = true; csrf = "" }

abbrev later_world : World
later_world = record opened_world { clock = 300 ∷ []; faults = [] }

new_session-auth_example :
    (csrf : String) × (auth passwords visit later_world
      ≡ (ok (admitted csrf), record later_world { clock = [] }))
new_session-auth_example =
    new_session-auth passwords 200 idle_world opened_world "token" later_world 300 [] visit opened
      refl refl refl (omega arith) refl refl

abbrev right_form : LoginForm
right_form = record {
  parses = true;
  cookie = some "once";
  csrf = "once";
  username = "admin";
  password = "correct horse";
  ip = "10.0.0.1";
  arrival = 200_000_000_000;
}

abbrev logged_in : World
logged_in = (login passwords right_form [] session_world).1

logs_in : login passwords right_form [] session_world ≡ ((signed_in "token", []), logged_in)
unfolding login try_io new_session sign_in query ◌>>=◌ ignore attempted apply run conflicts
    rand_read setting
logs_in = refl

login-SignsIn_example :
    (right_form.parses ≡ true)
    × (token_fits right_form.cookie right_form.csrf ≡ true)
    × ((attempted right_form.arrival right_form.ip []).1 ≡ false)
    × SignsIn passwords right_form session_world "token" logged_in
    × (any (of_ip right_form.ip) [] ≡ false)
login-SignsIn_example =
    login-SignsIn passwords right_form [] [] session_world logged_in "token" logs_in

-- Two successful runs, of which one is kept.
abbrev frugal : Database
frugal = record stored_shop { retain = pos 1 }

abbrev done : ℕ → Run
done id = record (queued_run id stored_shop "manual" 50) {
  status = success;
  destination = "nas";
  path = "db-1/a.dump";
}

abbrev full_world : World
full_world = record idle_world {
  tables = record idle_tables { runs = done 1 ∷ done 2 ∷ []; run_seq = 2 };
}

abbrev retained : World
retained = (retain worker frugal full_world).1

retains : retain worker frugal full_world ≡ (ok tt, retained)
unfolding retain try_io open_destination open_root read_file bytes_eq collect remove_file
    expire_runs utf8 query ◌>>=◌ scan_run lookup run conflicts expire_run
retains = refl

retain-le_example :
    (retained.tables ≡ record full_world.tables {
      runs = map (expired_in (surplus frugal full_world.tables)) full_world.tables.runs;
    })
    × (rows_matching (success_of frugal) retained.tables.runs ≤ magnitude frugal.retain)
retain-le_example = retain-le worker frugal full_world retained retains

abbrev shown : Dashboard
shown = overview worker "secret" "" (stored_shop ∷ []) []

shows :
    overview_now worker "secret" "" idle_world
    ≡ (ok shown, (overview_now worker "secret" "" idle_world).1)
unfolding overview_now load_row query decrypt ◌>>=◌ databases toy runs collect text_of
shows = refl

-- A weekly schedule on a Saturday.
abbrev weekly_shop : Database
weekly_shop = record shop { schedule_kind = "weekly"; weekday = pos 6 }

accepted : schedule hourly weekly_shop ≡ ok (λ now. now + 3600)
unfolding schedule parse_time default_database
accepted = refl

ticks-empties_example : queued_count (ticks worker (world ∷ []) tables) ≡ 0
ticks-empties_example = ticks-empties worker (world ∷ []) tables (refl, tt) (omega arith)
