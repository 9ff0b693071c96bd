-- ===== src/Exec/Keeps.antt =====
-- Predicates on the tables that an action keeps, whether it succeeds or fails and whatever fails
-- underneath it: one rule for each way to build an action.
use base_guard.Base.{
  ℕ, String, Bool, true, false, List, [], ◌∷◌, Option, none, some, Error, Result, ok, err, ◌≡◌,
  refl, if◌then◌else◌,
}
use base_guard.Disk.{Bytes}
use base_guard.Store.Tables.{Tables, Statement, apply, conflicts}
use base_guard.Exec.{
  World, Io, pure, raise, lift, gets, continue, ◌>>=◌, after_fault, attempt, query, exec, run,
  settle, executed, transaction, try_io, time_now, rand_read, next_random,
}

pub record Keeps {ℓ} {A : Type ℓ} (P : Tables → Type 0) (m : Io A) : Type ℓ where
  pub at : (w : World) → P w.tables → P (m w).1.tables

module _ {ℓ} {A : Type ℓ} (P : Tables → Type 0) where
  after_fault-keep :
      (fs : List (Option String)) (act : World → Result A × World)
      → ((w : World) → P w.tables → P (act w).1.tables)
      → (w : World) → P w.tables
      → P (after_fault fs act w).1.tables
  after_fault-keep [] act k w h = k w h
  after_fault-keep (none ∷ rest) act k w h = k (record w { faults = rest }) h
  after_fault-keep (some why ∷ rest) act k w h = h

  executed-keep :
      (s : Statement) (f : Tables → A)
      → ((t : Tables) → conflicts s t ≡ false → P t → P (apply s t))
      → (w : World) (b : Bool) → conflicts s w.tables ≡ b
      → P w.tables
      → P (executed s f b w).1.tables
  executed-keep s f k w true e h = h
  executed-keep s f k w false e h = k w.tables e h

  settle-keep :
      (before : Tables) (r : Result A) (fs : List (Option String)) (w : World)
      → w.faults ≡ fs
      → P before
      → P w.tables
      → P (settle before r w).1.tables
  settle-keep before (err e) fs w q hb h = hb
  settle-keep before (ok a) [] w q hb h = rw q h
  settle-keep before (ok a) (none ∷ rest) w q hb h = rw q h
  settle-keep before (ok a) (some why ∷ rest) w q hb h = rw q hb

module _ {ℓ} {A : Type ℓ} {P : Tables → Type 0} where
  pub Keeps-pure : (a : A) → Keeps P (pure a)
  unfolding pure
  Keeps-pure a = record { at = λ w h. h }

  pub Keeps-raise : (e : Error) → Keeps P (raise {A = A} e)
  unfolding raise
  Keeps-raise e = record { at = λ w h. h }

  pub Keeps-lift : (r : Result A) → Keeps P (lift r)
  unfolding lift
  Keeps-lift r = record { at = λ w h. h }

  pub Keeps-gets : (f : World → A) → Keeps P (gets f)
  unfolding gets
  Keeps-gets f = record { at = λ w h. h }

  pub Keeps-if : (b : Bool) (m n : Io A) → Keeps P m → Keeps P n → Keeps P (if b then m else n)
  Keeps-if true m n km kn = km
  Keeps-if false m n km kn = kn

  pub Keeps-attempt :
      (act : World → Result A × World)
      → ((w : World) → P w.tables → P (act w).1.tables)
      → Keeps P (attempt act)
  unfolding attempt
  Keeps-attempt act k = record { at = λ w. after_fault-keep P w.faults act k w }

  pub Keeps-query : (f : Tables → A) → Keeps P (query f)
  unfolding query
  Keeps-query f = Keeps-attempt _ (λ w h. h)

  -- A statement keeps what its effect on the tables keeps.
  pub Keeps-exec :
      (s : Statement) (f : Tables → A)
      → ((t : Tables) → conflicts s t ≡ false → P t → P (apply s t))
      → Keeps P (exec s f)
  unfolding exec
  Keeps-exec s f k = Keeps-attempt _ (λ w h. executed-keep P s f k w (conflicts s w.tables) refl h)

  pub Keeps-try : (m : Io A) → Keeps P m → Keeps P (try_io m)
  unfolding try_io
  Keeps-try m k = record { at = λ w h. k.at w h }

  -- A transaction keeps what its body keeps: a rollback restores tables that had it.
  pub Keeps-transaction : (m : Io A) → Keeps P m → Keeps P (transaction m)
  unfolding transaction
  Keeps-transaction m k =
      Keeps-attempt _
        λ w h. let (r, w') = m w in settle-keep P w.tables r w'.faults w' refl h (k.at w h)

module _ {ℓ} {A B : Type ℓ} {P : Tables → Type 0} where
  continue-keep :
      (r : Result A) (f : A → Io B)
      → ((a : A) → Keeps P (f a))
      → (w : World) → P w.tables
      → P (continue r f w).1.tables
  continue-keep (ok a) f k w h = (k a).at w h
  continue-keep (err e) f k w h = h

  pub Keeps-bind :
      (m : Io A) (f : A → Io B) → Keeps P m → ((a : A) → Keeps P (f a)) → Keeps P (m >>= f)
  unfolding ◌>>=◌
  Keeps-bind m f km kf = record {
    at = λ w h. let (r, w') = m w in continue-keep r f kf w' (km.at w h);
  }

module _ (P : Tables → Type 0) where
  next_random-keep :
      (n : ℕ) (bs : List Bytes) (w : World) → P w.tables → P (next_random n bs w).1.tables
  unfolding next_random
  next_random-keep n [] w h = h
  next_random-keep n (b ∷ rest) w h = h

module _ {P : Tables → Type 0} where
  pub Keeps-run :
      (s : Statement)
      → ((t : Tables) → conflicts s t ≡ false → P t → P (apply s t))
      → Keeps P (run s)
  unfolding run
  Keeps-run s k = Keeps-exec s _ k

  pub Keeps-time_now : Keeps P time_now
  unfolding time_now
  Keeps-time_now = record { at = λ w h. now-keep w w.clock refl h }
    where
      now-keep : (w : World) (c : List ℕ) → w.clock ≡ c → P w.tables → P (time_now w).1.tables
      now-keep w [] e h = rw (e, time_now) h
      now-keep w (t ∷ rest) e h = rw (e, time_now) h

  pub Keeps-rand_read : (n : ℕ) → Keeps P (rand_read n)
  unfolding rand_read
  Keeps-rand_read n = Keeps-attempt _ (λ w h. next_random-keep P n w.random w h)

pub ruleset keeps_rules = (
  Keeps-pure, Keeps-raise, Keeps-lift, Keeps-gets, Keeps-if, Keeps-query, Keeps-try, Keeps-bind,
  Keeps-transaction, Keeps-time_now, Keeps-rand_read,
)
