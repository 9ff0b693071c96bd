-- ===== src/Samples/ServerTests.antt =====
-- The panel's theorems on small requests.
use base_guard.Base.{
  ◌⊎◌, false, ℕ, ◌+◌, ◌≤◌, ◌<◌, ◌≡◌, ◌⊎◌, refl, String, Bool, true, false, List, [], ◌∷◌, Option,
  none, some, any, update_where, str_eq, Result, ok, err, ◌⊕◌, All, arith,
}
use base_guard.Model.{Database, default_database, validate, schedule, refuse_first}
use base_guard.Model.Validation.{IsValid}
use base_guard.Store.Tables.{Session, apply, conflicts}
use base_guard.Store.Methods.{setting}
use base_guard.Exec.{
  World, pure, raise, lift, gets, ◌>>=◌, attempt, query, exec, run, transaction, try_io, time_now,
}
use base_guard.Server.Attempts.{Attempts, window, of_ip, tries}
use base_guard.Server.Throttle.{tries-le_ten}
use base_guard.Server.Panel.{submitted, completed, planned_next}
use base_guard.Server.Submitted.{Completed, Next, submitted-Next}
use base_guard.Server.Sessions.{Request, auth}
use base_guard.Server.Pages.{Reply, signed_out, password}
use base_guard.Server.Password.{Outcomes, password-closes}
use base_guard.Store.Methods.{database, databases, load_row, load_config, with_row}
use base_guard.Samples.Toy.{toy}
use base_guard.Samples.Worlds.{passwords, worker, stored_shop, world, idle_world, tables}

abbrev requests : List (ℕ × String)
requests = (5, "10.0.0.1") ∷ (6, "10.0.0.2") ∷ (7, "10.0.0.1") ∷ []

tries-le_ten_example : tries "10.0.0.1" requests [] ≤ 10
tries-le_ten_example =
    tries-le_ten "10.0.0.1" 0 requests [] refl
      ((omega arith, omega arith), ((omega arith, omega arith), ((omega arith, omega arith), tt)))

tries_test : tries "10.0.0.1" requests [] ≡ 2
unfolding tries base_guard.Server.Attempts.attempted
tries_test = refl

abbrev session_csrf : String
session_csrf = "form"

abbrev open_session : Session
open_session = record { token = "t:cookie"; csrf = "form"; expires = 1000 }

abbrev signed_in : World
signed_in = record world {
  tables = record tables {
    sessions = open_session ∷ [];
    settings = ("admin_hash", "h:old password") ∷ [];
  };
}

abbrev request : Request
request = record { cookie = some "cookie"; is_post = true; parses = true; csrf = "form" }

abbrev after_auth : World
after_auth = (auth passwords request signed_in).1

abbrev changed : Result Reply × World
changed = password passwords "old password" "new password" signed_in

changed_test : changed ≡ (ok signed_out, changed.1)
unfolding password setting pure raise lift gets ◌>>=◌ attempt query exec run transaction try_io
    apply conflicts
changed_test = refl

password-closes_example :
    Outcomes passwords "old password" "new password" changed.0 signed_in changed.1
password-closes_example = password-closes passwords "old password" "new password" signed_in

-- The stored database, with another time of day and no password in the form.
abbrev form : Database
form = record stored_shop { at = "03:00"; password = ""; next_run = 0 }

abbrev accepted : Result Database × World
accepted = submitted worker form idle_world

abbrev planned_form : Database
planned_form = record form { next_run = 3800 }

accepted_test : accepted ≡ (ok planned_form, accepted.1)
unfolding submitted completed database databases load_row load_config with_row query attempt
    base_guard.Security.decrypt base_guard.Security.unboxed base_guard.Base.eq_ℤ toy
    base_guard.Samples.Toy.text_of base_guard.Base.collect planned_next validate refuse_first
    schedule default_database pure raise lift gets ◌>>=◌ time_now base_guard.Base.is_blank
    base_guard.Base.contains_any base_guard.Base.contains base_guard.Model.TimeOfDay.parse_time
accepted_test = refl

submitted-Next_example :
    (c : Database) × Completed worker idle_world form c
    × IsValid worker.cron worker.destinations c
    × Next worker idle_world c planned_form.next_run
    × (planned_form ≡ record c { next_run = planned_form.next_run })
submitted-Next_example = submitted-Next worker form planned_form idle_world accepted.1 accepted_test
