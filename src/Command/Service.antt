-- ===== src/Command/Service.antt =====
-- The program once it has started: the loop and the scheduler of the worker, the requests, and the
-- end of `run`. A step is one round of the loop, one call of the scheduler, one request, or one of the
-- events that `run` waits for; whatever else happens outside leaves the tables.
use base_guard.Base.{ℕ, ◌≡◌, Bool, true, false, [], Option, none, some, Error, Result, ok, err}
use base_guard.Exec.{World}
use base_guard.Backup.Write.{Executor}
use base_guard.Worker.Methods.{schedule_all, tick}
use base_guard.Server.Attempts.{Attempts}
use base_guard.Server.Handler.{HttpRequest, Panel, handle}

-- What `ListenAndServe` returned.
pub data ListenError : Type 0 where
  server_closed : ListenError
  listen_failure : Error → ListenError

-- Where `run` is: in its `select`, in `Shutdown`, at `<-done`, or returned.
pub data Phase : Type 0 where
  selecting : Phase
  shutting : Option ListenError → Phase
  joining : Option ListenError → Phase
  returned : Result (Unit {0}) → Phase

-- `cancelled` is whether `ctx` is done, `worker_done` whether the goroutine of the worker closed `done`.
pub record Service : Type 0 where
  pub world : World
  pub attempts : Attempts
  pub cancelled : Bool
  pub worker_done : Bool
  pub phase : Phase

abbrev pub is_selecting : Phase → Bool
is_selecting selecting = true
is_selecting _ = false

abbrev pub is_returned : Phase → Bool
is_returned (returned r) = true
is_returned _ = false

-- `err != nil && !errors.Is(err, http.ErrServerClosed)`
abbrev pub exit_of : Option ListenError → Result (Unit {0})
exit_of none = ok tt
exit_of (some server_closed) = ok tt
exit_of (some (listen_failure e)) = err e

-- Another outcome of the tools: what a dump or a check answers differs from call to call.
abbrev pub with_tools : Panel → Executor → Panel
with_tools s ex = record s { worker = record s.worker { executor = ex } }

-- The state that the server and the worker start in.
abbrev pub fresh : World → Service
fresh v = record {
  world = v;
  attempts = [];
  cancelled = false;
  worker_done = false;
  phase = selecting;
}

-- A round of the loop in `Start`.
unfoldable pub after_tick : Panel → Executor → Service → Service
after_tick s ex x = record x { world = (tick (with_tools s ex).worker x.world).1 }

-- The function of `AddFunc`, whose error is only logged.
unfoldable pub after_minute : Panel → ℕ → Service → Service
after_minute s now x = record x { world = (schedule_all s.worker now "scheduled" x.world).1 }

unfoldable pub after_request : Panel → Executor → HttpRequest → Service → Service
after_request s ex r x =
    let ((reply, m), v) = handle (with_tools s ex) r x.attempts x.world in
    record x { world = v; attempts = m }

pub data Step (s : Panel) : Service → Service → Type 0 where
  second : {x : Service} (ex : Executor) → x.worker_done ≡ false → Step s x (after_tick s ex x)
  minute : {x : Service} (now : ℕ) → x.worker_done ≡ false → Step s x (after_minute s now x)
  request :
      {x : Service} (ex : Executor) (r : HttpRequest)
      → is_returned x.phase ≡ false
      → Step s x (after_request s ex r x)
  outside :
      {x : Service} (v : World) → v.tables ≡ x.world.tables → Step s x (record x { world = v })
  interrupt : {x : Service} → is_returned x.phase ≡ false → Step s x (record x { cancelled = true })
  stop :
      {x : Service}
      → x.phase ≡ selecting
      → x.cancelled ≡ true
      → Step s x (record x { phase = shutting none })
  listen_error :
      {x : Service} (e : ListenError)
      → x.phase ≡ selecting
      → Step s x (record x { cancelled = true; phase = shutting (some e) })
  shut :
      {x : Service} (e : Option ListenError)
      → x.phase ≡ shutting e
      → Step s x (record x { phase = joining e })
  leave :
      {x : Service}
      → x.cancelled ≡ true
      → x.worker_done ≡ false
      → Step s x (record x { worker_done = true })
  join :
      {x : Service} (e : Option ListenError)
      → x.phase ≡ joining e
      → x.worker_done ≡ true
      → Step s x (record x { phase = returned (exit_of e) })

pub data Steps (s : Panel) (x : Service) : Service → Type 0 where
  done : Steps s x x
  then_step : {y z : Service} → Steps s x y → Step s y z → Steps s x z
