-- ===== src/Samples/LifeTests.antt =====
-- The theorems on the service and on the lives of the runs, on a start with one run in the queue.
use base_guard.Base.{◌≤◌, ◌⊎◌, ◌≡◌, refl, true, [], ◌∷◌, none, some, ok, arith}
use base_guard.Model.{Run, failed}
use base_guard.Store.Tables.{queued_run}
use base_guard.Store.Invariant.{IsSound}
use base_guard.Store.Lifecycle.{Evolves}
use base_guard.Exec.{World}
use base_guard.Model.{schedule, default_database}
use base_guard.Model.TimeOfDay.{parse_time}
use base_guard.Base.{is_blank, is_space}
use base_guard.Server.Handler.{Panel}
use base_guard.Command.Program.{launch}
use base_guard.Command.Service.{
  Service, Step, server_closed, listen_error, shutting, returned, fresh, after_tick, after_minute,
  second, minute, interrupt, stop, shut, leave, join, Steps, done, then_step,
}
use base_guard.Command.Shutdown.{exit_from, IsOwn, AllOwn, count, service-returns}
use base_guard.Command.Lifetime.{unborn, served, panel_of, Lifetime-Evolves}
use base_guard.Base.{◌⊕◌, ◌++◌, ◌≢◌, itoa, contains_any, contains}
use base_guard.FilePath.{is_local, clean_parts}
use base_guard.Model.{Database, validate, refuse_first}
use base_guard.Worker.Methods.{backup_path, extension}
use base_guard.Worker.Stamp.{stamp}
use base_guard.Worker.Paths.{backup_path-below, backup_path-distinct}
use base_guard.Samples.Worlds.{shop, hourly}
use base_guard.Samples.Worlds.{worker, executor, tables-IsSound, stored_shop}
use base_guard.Samples.StartTests.{setup, old_world, started}

abbrev panel : Panel
panel = panel_of setup worker (λ s. some s)

abbrev opened : World
opened = (launch setup old_world).1

-- A round of the worker and a call of the scheduler.
abbrev busy : Service
busy = after_minute panel 400 (after_tick panel executor (fresh opened))

busy_steps : Steps panel (fresh opened) busy
unfolding after_tick
busy_steps = then_step (then_step done (second executor refl)) (minute 400 refl)

abbrev told : Service
told = record busy { cancelled = true }

abbrev closed : Service
closed = record busy { cancelled = true; worker_done = true; phase = returned (ok tt) }

closed_steps : Steps panel (fresh opened) closed
unfolding after_tick after_minute
closed_steps =
    then_step
      (then_step
        (then_step (then_step (then_step busy_steps (interrupt refl)) (stop refl refl))
          (shut none refl))
        (leave refl refl))
      (join none refl refl)

-- The listener fails while the loop runs, and the worker ends first.
abbrev failing : Service
failing = record busy { cancelled = true; phase = shutting (some server_closed) }

failing_steps : Steps panel (fresh opened) failing
unfolding after_minute after_tick
failing_steps = then_step busy_steps (listen_error server_closed refl)

abbrev left : Service
left = record failing { worker_done = true }

unfoldable worker_leaves : Steps panel failing left
unfolding after_minute after_tick
worker_leaves = then_step done (leave {x = failing} refl refl)

all_own : AllOwn worker_leaves
unfolding worker_leaves
all_own = (tt, tt)

service-returns_example :
    (count worker_leaves ≤ 4)
    × (left.world ≡ failing.world)
    × ((left.phase ≡ returned (exit_from failing.phase))
        ⊎ ((y : Service) × (st : Step panel left y) × IsOwn st))
service-returns_example =
    service-returns panel opened failing left failing_steps refl worker_leaves all_own

Lifetime-Evolves_example :
    IsSound closed.world.tables × Evolves old_world.tables.runs closed.world.tables.runs
Lifetime-Evolves_example =
    Lifetime-Evolves old_world closed.world
      (record {
        run_ids = tables-IsSound.run_ids;
        database_ids = tables-IsSound.database_ids;
        one_active = tables-IsSound.one_active;
      })
      (served setup worker "" (λ s. some s) started closed_steps unborn)

-- A run that has failed.
abbrev failed_run : Run
failed_run = record (queued_run 1 stored_shop "manual" 50) { status = failed; error = "dump" }

-- A record with a subfolder.
abbrev nested : Database
nested = record shop { subdir = "nightly/./shop" }

nested-valid : validate hourly worker.destinations nested ≡ ok tt
unfolding validate default_database refuse_first is_blank contains_any contains schedule parse_time
    is_space is_local
nested-valid = refl

backup_path-below_example :
    (is_local (backup_path worker (record nested { id = 7 }) failed_run) ≡ true)
    × (clean_parts (backup_path worker (record nested { id = 7 }) failed_run)
        ≡ clean_parts "nightly/./shop"
          ++ ("db-" ⊕ itoa 7) ∷ (stamp 50 ⊕ "-" ⊕ itoa 1 ⊕ extension worker nested) ∷ [])
backup_path-below_example =
    backup_path-below worker hourly worker.destinations nested 7 failed_run nested-valid

backup_path-distinct_example :
    backup_path worker nested failed_run ≢ backup_path worker shop (record failed_run { id = 11 })
backup_path-distinct_example =
    backup_path-distinct worker nested shop failed_run (record failed_run { id = 11 })
      (λ e. omega (arith, e))
