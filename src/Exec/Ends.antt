-- ===== src/Exec/Ends.antt =====
-- The rules of Exec.Leads for predicates of the tables and of the disk, and the actions that leave the
-- disk alone.
use base_guard.Base.{
  ℕ, String, Bool, true, false, List, [], ◌∷◌, Option, none, some, Result, ok, err, ◌≡◌, refl, sym,
  subst, ◌∙◌, if◌then◌else◌,
}
use base_guard.Disk.{Disk, Bytes}
use base_guard.Store.Tables.{Tables, Statement, conflicts}
use base_guard.Exec.{
  World, Io, pure, lift, continue, ◌>>=◌, after_fault, attempt, query, exec, executed, run, settle,
  transaction, try_io, time_now, rand_read, next_random,
}
use base_guard.Exec.Leads.{Outcome, Leads}

-- The action does not touch the disk.
pub record Dry {ℓ} {A : Type ℓ} (m : Io A) : Type ℓ where
  pub at : (w : World) → (m w).1.disk ≡ w.disk

after_fault-dry {ℓ} :
    {A : Type ℓ} (fs : List (Option String)) (act : World → Result A × World)
    → ((w : World) → (act w).1.disk ≡ w.disk)
    → (w : World) → (after_fault fs act w).1.disk ≡ w.disk
after_fault-dry [] act k w = k w
after_fault-dry (none ∷ rest) act k w = k (record w { faults = rest })
after_fault-dry (some why ∷ rest) act k w = refl

executed-dry {ℓ} :
    {A : Type ℓ} (s : Statement) (f : Tables → A) (b : Bool) (w : World)
    → (executed s f b w).1.disk ≡ w.disk
executed-dry s f true w = refl
executed-dry s f false w = refl

continue-Dry {ℓ} :
    {A B : Type ℓ} (r : Result A) (f : A → Io B)
    → ((a : A) → Dry (f a))
    → (w : World) → (continue r f w).1.disk ≡ w.disk
continue-Dry (ok a) f k w = (k a).at w
continue-Dry (err e) f k w = refl

module _ {ℓ} {A : Type ℓ} where
  pub Dry-pure : (a : A) → Dry (pure a)
  unfolding pure
  Dry-pure a = record { at = λ w. refl }

  pub Dry-lift : (r : Result A) → Dry (lift r)
  unfolding lift
  Dry-lift r = record { at = λ w. refl }

  pub Dry-attempt :
      (act : World → Result A × World) → ((w : World) → (act w).1.disk ≡ w.disk) → Dry (attempt act)
  unfolding attempt
  Dry-attempt act k = record { at = λ w. after_fault-dry w.faults act k w }

  pub Dry-query : (f : Tables → A) → Dry (query f)
  unfolding query
  Dry-query f = Dry-attempt _ (λ w. refl)

  pub Dry-exec : (s : Statement) (f : Tables → A) → Dry (exec s f)
  unfolding exec
  Dry-exec s f = Dry-attempt _ (λ w. executed-dry s f (conflicts s w.tables) w)

  pub Dry-try : (m : Io A) → Dry m → Dry (try_io m)
  unfolding try_io
  Dry-try m k = record { at = λ w. k.at w }

settle-dry {ℓ} :
    {A : Type ℓ} (before : Tables) (r : Result A) (fs : List (Option String)) (w : World)
    → w.faults ≡ fs
    → (settle before r w).1.disk ≡ w.disk
settle-dry before (err e) fs w q = refl
settle-dry before (ok a) [] w q = rw q refl
settle-dry before (ok a) (none ∷ rest) w q = rw q refl
settle-dry before (ok a) (some why ∷ rest) w q = rw q refl

pub Dry-transaction {ℓ} : {A : Type ℓ} (m : Io A) → Dry m → Dry (transaction m)
unfolding transaction
Dry-transaction m k =
    Dry-attempt _ (λ w. settle-dry w.tables (m w).0 (m w).1.faults (m w).1 refl ∙ k.at w)

pub Dry-if {ℓ} : {A : Type ℓ} (b : Bool) (m n : Io A) → Dry m → Dry n → Dry (if b then m else n)
Dry-if true m n km kn = km
Dry-if false m n km kn = kn

module _ {ℓ} {A B : Type ℓ} where
  pub Dry-bind : (m : Io A) (f : A → Io B) → Dry m → ((a : A) → Dry (f a)) → Dry (m >>= f)
  unfolding ◌>>=◌
  Dry-bind m f k kf = record { at = λ w. continue-Dry (m w).0 f kf (m w).1 ∙ k.at w }

pub Dry-run : (s : Statement) → Dry (run s)
unfolding run
Dry-run s = Dry-exec s _

pub Dry-time_now : Dry time_now
unfolding time_now
Dry-time_now = record { at = λ w. now-dry w w.clock refl }
  where
    now-dry : (w : World) (c : List ℕ) → w.clock ≡ c → (time_now w).1.disk ≡ w.disk
    now-dry w [] e = rw (e, time_now) refl
    now-dry w (t ∷ rest) e = rw (e, time_now) refl

next_random-dry : (n : ℕ) (bs : List Bytes) (w : World) → (next_random n bs w).1.disk ≡ w.disk
unfolding next_random
next_random-dry n [] w = refl
next_random-dry n (b ∷ rest) w = refl

pub Dry-rand_read : (n : ℕ) → Dry (rand_read n)
unfolding rand_read
Dry-rand_read n = Dry-attempt _ (λ w. next_random-dry n w.random w)

pub ruleset dry_rules = (
  Dry-pure, Dry-lift, Dry-query, Dry-exec, Dry-try, Dry-bind, Dry-run, Dry-time_now,
  Dry-transaction, Dry-if, Dry-rand_read,
)

-- What an action establishes, and what it leaves when it fails, of the tables and the disk.
pub record Ends {A : Type 0} (P : Tables → Disk → Type 0) (Q : A → Tables → Disk → Type 0)
    (E : Tables → Disk → Type 0) (m : Io A) : Type 0 where
  pub at :
      (w : World)
      → P w.tables w.disk
      → Outcome (λ a t. Q a t (m w).1.disk) (λ t. E t (m w).1.disk) (m w).0 (m w).1.tables

module _ {A : Type 0} {P : Tables → Disk → Type 0} {Q : A → Tables → Disk → Type 0}
    {E : Tables → Disk → Type 0} where
  pub Ends-pure : (a : A) → ((t : Tables) (k : Disk) → P t k → Q a t k) → Ends P Q E (pure a)
  unfolding pure
  Ends-pure a k = record { at = λ w h. k w.tables w.disk h }

  -- An action that leaves the disk alone: its rules for the tables, at every disk.
  pub Ends-Dry :
      (m : Io A)
      → Dry m
      → ((k : Disk) → Leads (λ t. P t k) (λ a t. Q a t k) (λ t. E t k) m)
      → Ends P Q E m
  Ends-Dry m d k = record {
    at = λ w h.
        subst (λ (x : Disk). Outcome (λ a t. Q a t x) (λ t. E t x) (m w).0 (m w).1.tables)
          (sym (d.at w)) ((k w.disk).at w h);
  }

continue-end :
    {A B : Type 0} (Q : A → Tables → Disk → Type 0) (R : B → Tables → Disk → Type 0)
    (E : Tables → Disk → Type 0) (r : Result A) (f : A → Io B)
    → ((a : A) → Ends (Q a) R E (f a))
    → (w : World) → Outcome (λ a t. Q a t w.disk) (λ t. E t w.disk) r w.tables
    → Outcome
        (λ b t. R b t (continue r f w).1.disk)
        (λ t. E t (continue r f w).1.disk)
        (continue r f w).0
        (continue r f w).1.tables
continue-end Q R E (ok a) f k w h = (k a).at w h
continue-end Q R E (err e) f k w h = h

module _ {A B : Type 0} {P : Tables → Disk → Type 0} {Q : A → Tables → Disk → Type 0}
    {R : B → Tables → Disk → Type 0} {E : Tables → Disk → Type 0} where
  pub Ends-bind :
      (m : Io A) (f : A → Io B)
      → Ends P Q E m
      → ((a : A) → Ends (Q a) R E (f a))
      → Ends P R E (m >>= f)
  unfolding ◌>>=◌
  Ends-bind m f km kf = record { at = λ w h. continue-end Q R E (m w).0 f kf (m w).1 (km.at w h) }

pub Ends-try :
    {A : Type 0} {P E E' : Tables → Disk → Type 0} {Q : A → Tables → Disk → Type 0} (m : Io A)
    → Ends P Q E m
    → Ends P (λ r t k. Outcome (λ a u. Q a u k) (λ u. E u k) r t) E' (try_io m)
unfolding try_io
Ends-try m k = record { at = λ w h. k.at w h }

after_fault-end :
    {A : Type 0} (P : Tables → Disk → Type 0) (Q : A → Tables → Disk → Type 0)
    (E : Tables → Disk → Type 0) (fs : List (Option String)) (act : World → Result A × World)
    → ((t : Tables) (k : Disk) → P t k → E t k)
    → ((w : World)
        → P w.tables w.disk
        → Outcome
            (λ a t. Q a t (act w).1.disk)
            (λ t. E t (act w).1.disk)
            (act w).0
            (act w).1.tables)
    → (w : World) → P w.tables w.disk
    → Outcome
        (λ a t. Q a t (after_fault fs act w).1.disk)
        (λ t. E t (after_fault fs act w).1.disk)
        (after_fault fs act w).0
        (after_fault fs act w).1.tables
after_fault-end P Q E [] act e k w h = k w h
after_fault-end P Q E (none ∷ rest) act e k w h = k (record w { faults = rest }) h
after_fault-end P Q E (some why ∷ rest) act e k w h = e w.tables w.disk h

pub Ends-attempt :
    {A : Type 0} {P E : Tables → Disk → Type 0} {Q : A → Tables → Disk → Type 0}
    (act : World → Result A × World)
    → ((t : Tables) (k : Disk) → P t k → E t k)
    → ((w : World)
        → P w.tables w.disk
        → Outcome
            (λ a t. Q a t (act w).1.disk)
            (λ t. E t (act w).1.disk)
            (act w).0
            (act w).1.tables)
    → Ends P Q E (attempt act)
unfolding attempt
Ends-attempt {A} {P} {E} {Q} act e k = record { at = λ w. after_fault-end P Q E w.faults act e k w }

-- What holds either way holds after the error became a value.
pub Ends-either :
    {A : Type 0} {P Q E : Tables → Disk → Type 0} (m : Io A)
    → Ends P (λ _. Q) Q m
    → Ends P (λ _. Q) E (try_io m)
unfolding try_io
Ends-either {A} {P} {Q} m k = record {
  at = λ w h. go (m w).0 (m w).1.tables (m w).1.disk (k.at w h);
}
  where
    go : (r : Result A) (t : Tables) (d : Disk) → Outcome (λ _ u. Q u d) (λ u. Q u d) r t → Q t d
    go (ok a) t d h = h
    go (err e) t d h = h

pub Ends-fail :
    {A : Type 0} {P E E' : Tables → Disk → Type 0} {Q : A → Tables → Disk → Type 0} (m : Io A)
    → Ends P Q E m
    → ((t : Tables) (k : Disk) → E t k → E' t k)
    → Ends P Q E' m
Ends-fail {A} {P} {E} {E'} {Q} m k f = record {
  at = λ w h. go (m w).0 (m w).1.tables (m w).1.disk (k.at w h);
}
  where
    go :
        (r : Result A) (t : Tables) (d : Disk)
        → Outcome (λ a u. Q a u d) (λ u. E u d) r t
        → Outcome (λ a u. Q a u d) (λ u. E' u d) r t
    go (ok a) t d h = h
    go (err e) t d h = f t d h

-- A fact that is known beforehand.
pub Ends-given :
    {A L : Type 0} {P E : Tables → Disk → Type 0} {Q : A → Tables → Disk → Type 0} (m : Io A)
    → (L → Ends P Q E m)
    → Ends (λ t k. P t k × L) Q E m
Ends-given m f = record { at = λ w h. (f h.1).at w h.0 }
