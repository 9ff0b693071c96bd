-- ===== src/Exec.antt =====
-- What the program acts on, and actions that may fail. Every statement and every file operation
-- first reads the next entry of `faults`: a message there makes it fail and change nothing, which
-- stands for whatever SQLite, the disk or a lost connection may answer. `clock` holds the answers
-- of the calls of `time.Now` to come, and `random` what the calls of `rand.Read` will read.
pub mod Keeps
pub mod Inversion
pub mod Steps
pub mod Leads
pub mod Ends
use base_guard.Base.{
  ℕ, zero, suc, String, Bool, true, false, List, [], ◌∷◌, Option, none, some, Error, failure,
  Result, ok, err, if◌then◌else◌,
}
use base_guard.Disk.{Disk, Bytes}
use base_guard.Store.Tables.{Tables, Statement, apply, conflicts}

pub record World : Type 0 where
  pub tables : Tables
  pub disk : Disk
  pub faults : List (Option String)
  pub clock : List ℕ
  pub random : List Bytes

abbrev pub Io {ℓ} : Type ℓ → Type ℓ
Io A = World → Result A × World

module _ {ℓ} {A : Type ℓ} where
  unfoldable pub pure : A → Io A
  pure a w = (ok a, w)

  unfoldable pub raise : Error → Io A
  raise e w = (err e, w)

  unfoldable pub lift : Result A → Io A
  lift r w = (r, w)

  -- A read of the state that cannot fail.
  unfoldable pub gets : (World → A) → Io A
  gets f w = (ok (f w), w)

module _ {ℓ} {A B : Type ℓ} where
  abbrev pub continue : Result A → (A → Io B) → Io B
  continue (ok a) f w = f a w
  continue (err e) f w = (err e, w)

  infixl 5 ◌>>=◌ ◌>>◌
  -- opening this opens `pure`, `raise`, `lift` and `gets` too
  unfoldable pub ◌>>=◌ : Io A → (A → Io B) → Io B
  unfolding pure raise lift gets
  ◌>>=◌ m f w = let (r, w') = m w in continue r f w'

  abbrev pub ◌>>◌ : Io A → Io B → Io B
  m >> n = m >>= λ _. n

-- An operation of the disk or of SQLite that the environment may make fail.
module _ {ℓ} {A : Type ℓ} where
  abbrev pub after_fault : List (Option String) → (World → Result A × World) → Io A
  after_fault [] act w = act w
  after_fault (none ∷ rest) act w = act (record w { faults = rest })
  after_fault (some why ∷ rest) act w = (err (failure why), record w { faults = rest })

  unfoldable pub attempt : (World → Result A × World) → Io A
  attempt act w = after_fault w.faults act w

module _ {ℓ} {A : Type ℓ} where
  -- `SELECT`: reads the tables.
  unfoldable pub query : (Tables → A) → Io A
  unfolding attempt
  query f = attempt (λ w. (ok (f w.tables), w))

  abbrev pub executed : Statement → (Tables → A) → Bool → World → Result A × World
  executed s answer true w = (err (failure "UNIQUE constraint failed"), w)
  executed s answer false w = (ok (answer w.tables), record w { tables = apply s w.tables })

  -- A writing statement; `answer` is what it returns, read from the tables before it (the rows that
  -- it affects, or its RETURNING row).
  unfoldable pub exec : Statement → (Tables → A) → Io A
  unfolding attempt
  exec s answer = attempt (λ w. executed s answer (conflicts s w.tables) w)

-- Only the effect of the statement is wanted.
unfoldable pub run : Statement → Io (Unit {0})
unfolding exec
run s = exec s (λ _. tt)

module _ {ℓ} {A : Type ℓ} where
  -- `tx.Commit` or the rollback, for the tables that the transaction began with.
  abbrev pub settle : Tables → Result A → Io A
  settle before (err e) w = (err e, record w { tables = before })
  settle before (ok a) w = elim w.faults [
    | [] ↦ (ok a, w)
    | none ∷ rest ↦ (ok a, record w { faults = rest })
    | some why ∷ rest ↦ (err (failure why), record w { tables = before; faults = rest })
  ]

  -- `Begin`, the statements, `Commit`; on any error the tables go back to what they were.
  unfoldable pub transaction : Io A → Io A
  unfolding attempt
  transaction body = attempt λ w. let (r, w') = body w in settle w.tables r w'

  -- The value of an action, or the error as a value.
  unfoldable pub try_io : Io A → Io (Result A)
  try_io m w = let (r, w') = m w in (ok r, w')

-- `time.Now().Unix()`
unfoldable pub time_now : Io ℕ
time_now w = elim w.clock [ [] ↦ (ok 0, w) | t ∷ rest ↦ (ok t, record w { clock = rest }) ]

-- The first `n` bytes of a buffer, with zeros where it ends early.
pub fit : ℕ → Bytes → Bytes
fit zero b = []
fit (suc n) [] = 0 ∷ fit n []
fit (suc n) (x ∷ b) = x ∷ fit n b

next_random : ℕ → List Bytes → World → Result Bytes × World
unfolding fit
next_random n [] w = (ok (fit n []), w)
next_random n (b ∷ rest) w = (ok (fit n b), record w { random = rest })

-- `rand.Read` into a buffer of `n` bytes
unfoldable pub rand_read : ℕ → Io Bytes
unfolding attempt next_random
rand_read n = attempt (λ w. next_random n w.random w)
