-- ===== src/Server/History.antt =====
-- Every order in which the scheduler, the worker and the pages can call the methods: a history is the
-- list of the calls, each with its arguments, and each may fail.
use base_guard.Base.{ℕ, ◌≤◌, ◌≡◌, String, false, List, [], ◌∷◌, any, arith, Bool-cases, inl, inr}
use base_guard.Model.{Database, Run}
use base_guard.Store.Tables.{active_for, rows_matching}
use base_guard.Store.Invariant.{IsSound, Exclusive}
use base_guard.Server.Panel.{save_form, enqueue_id, toggle, delete}
use base_guard.Server.Law.{Law-save_form, Law-enqueue_id, Law-toggle, Law-delete}
use base_guard.Exec.{World}
use base_guard.Worker.Methods.{Worker, recover, schedule_all, tick}
use base_guard.Worker.Law.{Law-recover, Law-schedule_all}
use base_guard.Worker.Lifecycle.{Sound-tick}
use base_guard.Store.Lifecycle.Statements.{IsSound-law}

-- The calls that write to the tables of databases and runs.
pub data Call : Type 0 where
  saved : Database → Call
  enqueued : ℕ → Call
  toggled : ℕ → Call
  deleted : ℕ → Call
  recovered : Call
  scheduled : ℕ → String → Call
  ticked : Call

module _ (w : Worker) where
  -- The world after a call, whether it succeeded or not.
  unfoldable pub after_call : Call → World → World
  after_call (saved form) v = (save_form w form v).1
  after_call (enqueued id) v = (enqueue_id w id v).1
  after_call (toggled id) v = (toggle w id v).1
  after_call (deleted id) v = (delete w id v).1
  after_call recovered v = (recover w v).1
  after_call (scheduled now trigger) v = (schedule_all w now trigger v).1
  after_call ticked v = (tick w v).1

  unfoldable pub after : List Call → World → World
  after [] v = v
  after (c ∷ cs) v = after cs (after_call c v)

  pub after_call-IsSound :
      (c : Call) (v : World) → IsSound v.tables → IsSound (after_call c v).tables
  unfolding after_call
  after_call-IsSound (saved form) = (Law-save_form w IsSound-law form).at
  after_call-IsSound (enqueued id) = (Law-enqueue_id w IsSound-law id).at
  after_call-IsSound (toggled id) = (Law-toggle w IsSound-law id).at
  after_call-IsSound (deleted id) = (Law-delete w IsSound-law id).at
  after_call-IsSound recovered = (Law-recover w IsSound-law).at
  after_call-IsSound (scheduled now trigger) = (Law-schedule_all w IsSound-law now trigger).at
  after_call-IsSound ticked = (Sound-tick w).at

  after-IsSound : (cs : List Call) (v : World) → IsSound v.tables → IsSound (after cs v).tables
  unfolding after
  after-IsSound [] v h = h
  after-IsSound (c ∷ cs) v h = after-IsSound cs (after_call c v) (after_call-IsSound c v h)

none_active :
    (d : ℕ) (rs : List Run) → any (active_for d) rs ≡ false → rows_matching (active_for d) rs ≡ 0
none_active d [] h = omega arith
none_active d (r ∷ rs) h = ground (arith, none_active d rs)

one_active : (d : ℕ) (rs : List Run) → Exclusive rs → rows_matching (active_for d) rs ≤ 1
one_active d [] x = omega arith
one_active d (r ∷ rs) (x, xs) = elim (Bool-cases (active_for d r)) [
  | inl a ↦
      let none_else : any (active_for d) rs ≡ false = ground (arith, x) in
      let n = none_active d rs none_else in rw a (omega arith)
  | inr a ↦ rw a (one_active d rs xs)
]

-- From sound tables, after any list of calls of the handlers `save_form`, `enqueue_id`, `toggle` and
-- `delete`, and of `recover`, `schedule_all` and `tick`, whichever of their statements and file operations fail: the tables are sound, and no
-- database has more than one run that is queued or running.
pub after-one_active :
    (w : Worker) (cs : List Call) (v : World)
    → IsSound v.tables
    → IsSound (after w cs v).tables
      × ((d : ℕ) → rows_matching (active_for d) (after w cs v).tables.runs ≤ 1)
after-one_active w cs v h = let s = after-IsSound w cs v h in (s, λ d. one_active d _ s.one_active)
