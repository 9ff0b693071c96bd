-- ===== src/Command/Shutdown.antt =====
-- How the service ends.
use base_guard.Base.{
  ℕ, ◌+◌, ◌≤◌, ◌≡◌, ◌⊎◌, ◌∙◌, refl, sym, ap, inl, inr, Bool, true, false, ◌||◌, not, Option, none,
  some, Result, ok, err, arith,
}
use base_guard.Exec.{World}
use base_guard.Server.Handler.{Panel}
use base_guard.Command.Service.{
  ListenError, server_closed, listen_failure, Phase, selecting, shutting, joining, returned,
  Service, is_selecting, exit_of, fresh, after_tick, after_minute, after_request, Step, second,
  minute, request, outside, interrupt, stop, listen_error, shut, leave, join, Steps, done,
  then_step,
}

-- Where `run` has left its `select`, its context is done.
abbrev IsStopping : Service → Type 0
IsStopping x = (is_selecting x.phase ≡ true) ⊎ (x.cancelled ≡ true)

-- What `run` returns once its context is done.
abbrev pub exit_from : Phase → Result (Unit {0})
exit_from selecting = ok tt
exit_from (shutting none) = ok tt
exit_from (shutting (some server_closed)) = ok tt
exit_from (shutting (some (listen_failure e))) = err e
exit_from (joining none) = ok tt
exit_from (joining (some server_closed)) = ok tt
exit_from (joining (some (listen_failure e))) = err e
exit_from (returned r) = r

exit_of-joining : (l : Option ListenError) → exit_of l ≡ exit_from (joining l)
exit_of-joining none = refl
exit_of-joining (some server_closed) = refl
exit_of-joining (some (listen_failure e)) = refl

shutting-joining : (l : Option ListenError) → exit_from (joining l) ≡ exit_from (shutting l)
shutting-joining none = refl
shutting-joining (some server_closed) = refl
shutting-joining (some (listen_failure e)) = refl

-- How many steps are left of `run` and of the goroutine of the worker.
abbrev rank : Phase → ℕ
rank selecting = 3
rank (shutting e) = 2
rank (joining e) = 1
rank (returned r) = 0

abbrev worker_rank : Bool → ℕ
worker_rank true = 0
worker_rank false = 1

abbrev left_over : Service → ℕ
left_over x = rank x.phase + worker_rank x.worker_done

rank-le : (p : Phase) → rank p ≤ 3
rank-le selecting = omega arith
rank-le (shutting e) = omega arith
rank-le (joining e) = omega arith
rank-le (returned r) = omega arith

worker_rank-le : (b : Bool) → worker_rank b ≤ 1
worker_rank-le true = omega arith
worker_rank-le false = omega arith

module _ {s : Panel} where
  -- A step that `run` or the goroutine of the worker takes by itself once the context is done: no signal, no
  -- request, no error of the listener, no round and no call of the scheduler.
  abbrev pub IsOwn : {x y : Service} → Step s x y → Type 0
  IsOwn (stop p c) = Unit
  IsOwn (shut e p) = Unit
  IsOwn (leave c w) = Unit
  IsOwn (join e p w) = Unit
  IsOwn _ = ⊥

  abbrev pub AllOwn : {x y : Service} → Steps s x y → Type 0
  AllOwn done = Unit
  AllOwn (then_step r st) = AllOwn r × IsOwn st

  abbrev pub count : {x y : Service} → Steps s x y → ℕ
  count done = 0
  count (then_step r st) = count r + 1

module _ (s : Panel) where
  Step-IsStopping : {x y : Service} → Step s x y → IsStopping x → IsStopping y
  unfolding after_tick after_minute after_request
  Step-IsStopping (second ex h) i = i
  Step-IsStopping (minute now h) i = i
  Step-IsStopping (request ex r h) i = i
  Step-IsStopping (outside v h) i = i
  Step-IsStopping (interrupt h) i = inr refl
  Step-IsStopping (stop p c) i = inr c
  Step-IsStopping (listen_error e p) i = inr refl
  Step-IsStopping (shut e p) (inl t) =
      absurd (let k : is_selecting (shutting e) ≡ true = ap is_selecting (sym p) ∙ t in cc k)
  Step-IsStopping (shut e p) (inr c) = inr c
  Step-IsStopping (leave c w) i = inr c
  Step-IsStopping (join e p w) (inl t) =
      absurd (let k : is_selecting (joining e) ≡ true = ap is_selecting (sym p) ∙ t in cc k)
  Step-IsStopping (join e p w) (inr c) = inr c

  Steps-IsStopping : {x y : Service} → IsStopping x → Steps s x y → IsStopping y
  Steps-IsStopping i done = i
  Steps-IsStopping i (then_step r st) = Step-IsStopping st (Steps-IsStopping i r)

  -- What an own step leaves, and that it is one of those that were left.
  Own-step :
      {x y : Service} (st : Step s x y)
      → IsOwn st
      → (left_over y + 1 ≤ left_over x)
        × (y.world ≡ x.world)
        × (y.cancelled ≡ x.cancelled)
        × (exit_from y.phase ≡ exit_from x.phase)
  Own-step (second ex h) o = absurd o
  Own-step (minute now h) o = absurd o
  Own-step (request ex r h) o = absurd o
  Own-step (outside v h) o = absurd o
  Own-step (interrupt h) o = absurd o
  Own-step (listen_error e p) o = absurd o
  Own-step (stop p c) o = rw p (omega arith, refl, refl, refl)
  Own-step (shut e p) o = rw p (omega arith, refl, refl, shutting-joining e)
  Own-step (leave c w) o = rw w (omega arith, refl, refl, refl)
  Own-step (join e p w) o = rw p (omega arith, refl, refl, exit_of-joining e)

  Own-steps :
      {x y : Service} (r : Steps s x y)
      → AllOwn r
      → (left_over y + count r ≤ left_over x)
        × (y.world ≡ x.world)
        × (y.cancelled ≡ x.cancelled)
        × (exit_from y.phase ≡ exit_from x.phase)
  Own-steps done o = (omega arith, refl, refl, refl)
  Own-steps (then_step r st) (o, own) =
      let (n, w, c, e) = Own-steps r o in
      let (m, w', c', e') = Own-step st own in (omega (arith, n, m), w' ∙ w, c' ∙ c, e' ∙ e)

  -- Nothing waits for ever: a service whose context is done has returned, or can take an own step.
  goes_on :
      (x : Service)
      → x.cancelled ≡ true
      → (x.phase ≡ returned (exit_from x.phase)) ⊎ ((y : Service) × (st : Step s x y) × IsOwn st)
  goes_on x c = at x.phase refl
    where
      worker_or_join :
          (e : Option ListenError) (b : Bool)
          → x.phase ≡ joining e
          → x.worker_done ≡ b
          → (y : Service) × (st : Step s x y) × IsOwn st
      worker_or_join e true p w = (_, join e p w, tt)
      worker_or_join e false p w = (_, leave c w, tt)

      at :
          (p : Phase)
          → x.phase ≡ p
          → (x.phase ≡ returned (exit_from x.phase))
            ⊎ ((y : Service) × (st : Step s x y) × IsOwn st)
      at selecting p = inr (_, stop p c, tt)
      at (shutting e) p = inr (_, shut e p, tt)
      at (joining e) p = inr (worker_or_join e x.worker_done p refl)
      at (returned r) p = inl (p ∙ ap returned (ap exit_from (sym p)))

  -- A service after any steps, once a signal came or `run` has left its `select`: own steps of `run` and of the
  -- worker, in any order, are at most four and leave the tables and the disk; and after any of them `run`
  -- has returned, without an error, or with the listener's if that is another one than `ErrServerClosed`, or
  -- one more own step can be taken.
  pub service-returns :
      (v : World) (y u : Service)
      → Steps s (fresh v) y
      → (y.cancelled || not (is_selecting y.phase)) ≡ true
      → (r : Steps s y u) → AllOwn r
      → (count r ≤ 4)
        × (u.world ≡ y.world)
        × ((u.phase ≡ returned (exit_from y.phase))
            ⊎ ((z : Service) × (st : Step s u z) × IsOwn st))
  service-returns v y u before ends r own =
      let (n, w, c, e) = Own-steps r own in
      let told : y.cancelled ≡ true = cancelled (Steps-IsStopping (inl refl) before) in
      (
        omega (arith, n, rank-le y.phase, worker_rank-le y.worker_done),
        w,
        end (goes_on u (c ∙ told)) e,
      )
    where
      cancelled : IsStopping y → y.cancelled ≡ true
      cancelled (inl t) = ground arith
      cancelled (inr c) = c

      end :
          (u.phase ≡ returned (exit_from u.phase)) ⊎ ((z : Service) × (st : Step s u z) × IsOwn st)
          → exit_from u.phase ≡ exit_from y.phase
          → (u.phase ≡ returned (exit_from y.phase))
            ⊎ ((z : Service) × (st : Step s u z) × IsOwn st)
      end (inl p) e = inl (p ∙ ap returned e)
      end (inr o) e = inr o
