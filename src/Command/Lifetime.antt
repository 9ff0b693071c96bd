-- ===== src/Command/Lifetime.antt =====
-- The lives of the runs across starts, services and ends of the program.
use base_guard.Base.{◌≡◌, sym, subst, String, List, Option, Result, ok, err, Error}
use base_guard.Model.{Run}
use base_guard.Store.Invariant.{IsSound}
use base_guard.Store.Lifecycle.{Evolves, Evolves-refl}
use base_guard.Store.Lifecycle.Rows.{Lives}
use base_guard.Store.Lifecycle.Statements.{Lives-law}
use base_guard.Exec.{World}
use base_guard.Worker.Methods.{Worker}
use base_guard.Worker.Law.{Law-schedule_all}
use base_guard.Worker.Lifecycle.{Lives-tick}
use base_guard.Server.Handler.{Panel}
use base_guard.Server.Serving.{handle-law}
use base_guard.Command.Program.{Setup, Command, serving, launch}
use base_guard.Command.Steps.{Law-launch}
use base_guard.Command.Service.{
  Service, fresh, with_tools, after_tick, after_minute, after_request, Step, second, minute,
  request, outside, interrupt, stop, listen_error, shut, leave, join, Steps, done, then_step,
}

-- The panel of a start: `NewServer` gets the worker that `run` made.
abbrev pub panel_of : Setup → Worker → (String → Option String) → Panel
panel_of s w origin_host = record { worker = w; passwords = s.passwords; origin_host = origin_host }

-- The worlds that the program leads to: starts that fail, and starts whose service runs for any steps,
-- one after the other; between them only the tables stay as they are.
pub data Lifetime (u : World) : World → Type 0 where
  unborn : Lifetime u u
  between : {v : World} (v' : World) → v'.tables ≡ v.tables → Lifetime u v → Lifetime u v'
  refused :
      {v v' : World} (s : Setup) (e : Error)
      → launch s v ≡ (err e, v')
      → Lifetime u v
      → Lifetime u v'
  served :
      {v v' : World} {y : Service} (s : Setup) (w : Worker) (password : String)
      (origin_host : String → Option String)
      → launch s v ≡ (ok (serving w password), v')
      → Steps (panel_of s w origin_host) (fresh v') y
      → Lifetime u v
      → Lifetime u y.world

module _ (old : List Run) where
  abbrev IsLater : World → Type 0
  IsLater v = Lives old v.tables

  Step-IsLater : (s : Panel) {x y : Service} → Step s x y → IsLater x.world → IsLater y.world
  unfolding after_tick after_minute after_request
  Step-IsLater s (second {x} ex h) l = (Lives-tick (with_tools s ex).worker old).at x.world l
  Step-IsLater s (minute {x} now h) l =
      (Law-schedule_all s.worker (Lives-law old) now "scheduled").at x.world l
  Step-IsLater s (request {x} ex r h) l =
      handle-law (with_tools s ex) r (Lives-law old) x.attempts x.world l
  Step-IsLater s (outside v h) l = subst (Lives old) (sym h) l
  Step-IsLater s (interrupt h) l = l
  Step-IsLater s (stop p c) l = l
  Step-IsLater s (listen_error e p) l = l
  Step-IsLater s (shut e p) l = l
  Step-IsLater s (leave c w) l = l
  Step-IsLater s (join e p w) l = l

  Steps-IsLater : (s : Panel) {x y : Service} → Steps s x y → IsLater x.world → IsLater y.world
  Steps-IsLater s done l = l
  Steps-IsLater s (then_step r st) l = Step-IsLater s st (Steps-IsLater s r l)

  launch-IsLater :
      (s : Setup) (v v' : World) (r : Result Command)
      → launch s v ≡ (r, v')
      → IsLater v
      → IsLater v'
  launch-IsLater s v v' r e l =
      subst (λ (x : Result Command × World). IsLater x.1) e ((Law-launch s (Lives-law old)).at v l)

  Lifetime-IsLater : {u v : World} → Lifetime u v → IsLater u → IsLater v
  Lifetime-IsLater unborn l = l
  Lifetime-IsLater (between v' e t) l = subst (Lives old) (sym e) (Lifetime-IsLater t l)
  Lifetime-IsLater (refused {v} {v'} s e h t) l = launch-IsLater s v v' _ h (Lifetime-IsLater t l)
  Lifetime-IsLater (served {v} {v'} s w password origin_host h r t) l =
      Steps-IsLater (panel_of s w origin_host) r (launch-IsLater s v v' _ h (Lifetime-IsLater t l))

-- Over any number of starts and services of the program from sound tables, with whatever they are
-- configured with, and with whatever fails, in any order of rounds of the worker, calls of the scheduler
-- and requests: the tables are sound; no run is lost, and each keeps its id, its database, its trigger
-- and the time of its creation; its status moves only from queued to running, from running to success,
-- failed or interrupted, and from success to expired.
pub Lifetime-Evolves :
    (u v : World)
    → IsSound u.tables
    → Lifetime u v
    → IsSound v.tables × Evolves u.tables.runs v.tables.runs
Lifetime-Evolves u v sound t = Lifetime-IsLater u.tables.runs t (sound, Evolves-refl u.tables.runs)
