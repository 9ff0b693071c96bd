-- ===== src/Exec/Inversion.antt =====
-- What a successful action went through, and how actions run when nothing fails.
use base_guard.Base.{
  ℕ, zero, suc, String, Bool, true, false, List, [], ◌∷◌, Option, none, some, Error, Result, ok,
  err, ◌≡◌, refl, ap, length, sym, ◌∙◌,
}
use base_guard.Disk.{Bytes}
use base_guard.Store.Tables.{Tables, Statement, apply, conflicts}
use base_guard.Exec.{
  World, Io, pure, lift, ◌>>=◌, continue, after_fault, attempt, query, exec, executed, settle,
  transaction, try_io, time_now, rand_read, fit, next_random,
}

module _ {ℓ} {A B : Type ℓ} where
  continue-eq-ok :
      (r : Result A) (f : A → Io B) (w : World) {b : B} {w' : World}
      → continue r f w ≡ (ok b, w')
      → (a : A) × (r ≡ ok a) × (f a w ≡ (ok b, w'))
  continue-eq-ok (ok a) f w h = (a, refl, h)
  continue-eq-ok (err e) f w h = cc

  -- Both parts of a successful bind succeeded.
  pub >>=-eq-ok :
      (m : Io A) (f : A → Io B) (w : World) {b : B} {w'' : World}
      → (m >>= f) w ≡ (ok b, w'')
      → (a : A) × (w' : World) × (m w ≡ (ok a, w')) × (f a w' ≡ (ok b, w''))
  unfolding ◌>>=◌
  >>=-eq-ok m f w h =
      let (a, e, k) = continue-eq-ok (m w).0 f (m w).1 h in
      (a, (m w).1, ap (λ r. (r, (m w).1)) e, k)

  -- The same, to go on with: long chains stay small this way.
  pub >>=-elim {κ} :
      {Q : Type κ} (m : Io A) (f : A → Io B) (w : World) {b : B} {w'' : World}
      → (m >>= f) w ≡ (ok b, w'')
      → ((a : A) (w' : World) → m w ≡ (ok a, w') → f a w' ≡ (ok b, w'') → Q)
      → Q
  >>=-elim m f w h go = let (a, w', e, k) = >>=-eq-ok m f w h in go a w' e k

  -- The rest runs from where a successful action ended.
  pub >>=_of_ok :
      (m : Io A) (f : A → Io B) (w : World) {a : A} {w' : World}
      → m w ≡ (ok a, w')
      → (m >>= f) w ≡ f a w'
  unfolding ◌>>=◌
  >>=_of_ok m f w h = ap (λ r. continue r.0 f r.1) h

  pub >>=_of_err :
      (m : Io A) (f : A → Io B) (w : World) {e : Error} {w' : World}
      → m w ≡ (err e, w')
      → (m >>= f) w ≡ (err e, w')
  unfolding ◌>>=◌
  >>=_of_err m f w h = ap (λ r. continue r.0 f r.1) h

module _ {ℓ} {A : Type ℓ} where
  pub pure-eq-ok :
      (a : A) (w : World) {b : A} {w' : World} → pure a w ≡ (ok b, w') → (b ≡ a) × (w' ≡ w)
  unfolding pure
  pure-eq-ok a w h = (cc h, cc h)

  pub lift-eq-ok :
      (r : Result A) (w : World) {a : A} {w' : World}
      → lift r w ≡ (ok a, w')
      → (r ≡ ok a) × (w' ≡ w)
  unfolding lift
  lift-eq-ok r w h = (cc h, cc h)

-- Nothing is going to fail.
abbrev pub Calm : World → Type 0
Calm w = w.faults ≡ []

module _ {ℓ} {A : Type ℓ} where
  pub attempt-Calm : (act : World → Result A × World) (w : World) → Calm w → attempt act w ≡ act w
  unfolding attempt
  attempt-Calm act w h = ap (λ fs. after_fault fs act w) h

  pub query-Calm : (f : Tables → A) (w : World) → Calm w → query f w ≡ (ok (f w.tables), w)
  unfolding query
  query-Calm f w h = attempt-Calm _ w h

  pub exec-Calm :
      (s : Statement) (f : Tables → A) (w : World)
      → Calm w
      → conflicts s w.tables ≡ false
      → exec s f w ≡ (ok (f w.tables), record w { tables = apply s w.tables })
  unfolding exec
  exec-Calm s f w h c = attempt-Calm _ w h ∙ ap (λ b. executed s f b w) c

module _ {ℓ} {A : Type ℓ} where
  after_fault-eq-ok :
      (fs : List (Option String)) (act : World → Result A × World) (w : World) {a : A} {w' : World}
      → after_fault fs act w ≡ (ok a, w')
      → (v : World) × (v.tables ≡ w.tables) × (v.disk ≡ w.disk) × (act v ≡ (ok a, w'))
  after_fault-eq-ok [] act w h = (w, refl, refl, h)
  after_fault-eq-ok (none ∷ rest) act w h = (record w { faults = rest }, refl, refl, h)
  after_fault-eq-ok (some why ∷ rest) act w h = cc

  -- An operation that succeeded ran on the same tables and the same disk.
  pub attempt-eq-ok :
      (act : World → Result A × World) (w : World) {a : A} {w' : World}
      → attempt act w ≡ (ok a, w')
      → (v : World) × (v.tables ≡ w.tables) × (v.disk ≡ w.disk) × (act v ≡ (ok a, w'))
  unfolding attempt
  attempt-eq-ok act w h = after_fault-eq-ok w.faults act w h

  pub query-eq-ok :
      (f : Tables → A) (w : World) {a : A} {w' : World}
      → query f w ≡ (ok a, w')
      → (a ≡ f w.tables) × (w'.tables ≡ w.tables) × (w'.disk ≡ w.disk)
  unfolding query
  query-eq-ok f w h = let (v, t, d, e) = attempt-eq-ok _ w h in (cc (ap f t, e), cc e, cc e)

  executed-eq-ok :
      (s : Statement) (f : Tables → A) (b : Bool) (w : World) {a : A} {w' : World}
      → executed s f b w ≡ (ok a, w')
      → (a ≡ f w.tables) × (w'.tables ≡ apply s w.tables) × (w'.disk ≡ w.disk)
  executed-eq-ok s f true w h = cc
  executed-eq-ok s f false w h = (cc h, cc h, cc h)

  pub exec-eq-ok :
      (s : Statement) (f : Tables → A) (w : World) {a : A} {w' : World}
      → exec s f w ≡ (ok a, w')
      → (a ≡ f w.tables) × (w'.tables ≡ apply s w.tables) × (w'.disk ≡ w.disk)
  unfolding exec
  exec-eq-ok s f w h =
      let (v, t, d, e) = attempt-eq-ok _ w h in
      let (x, y, z) = executed-eq-ok s f (conflicts s v.tables) v e in
      (x ∙ ap f t, y ∙ ap (apply s) t, z ∙ d)

  settle-eq-ok :
      (before : Tables) (r : Result A) (fs : List (Option String)) (w : World) {a : A} {w' : World}
      → w.faults ≡ fs
      → settle before r w ≡ (ok a, w')
      → (r ≡ ok a) × (w'.tables ≡ w.tables) × (w'.disk ≡ w.disk)
  settle-eq-ok before (err e) fs w q h = cc
  settle-eq-ok before (ok a) [] w q h = let k = rw q at h in (cc k, cc, cc)
  settle-eq-ok before (ok a) (none ∷ rest) w q h = let k = rw q at h in (cc k, cc, cc)
  settle-eq-ok before (ok a) (some why ∷ rest) w q h = let k = rw q at h in cc k

  -- A transaction that succeeded did what its statements did.
  pub transaction-eq-ok :
      (m : Io A) (w : World) {a : A} {w' : World}
      → transaction m w ≡ (ok a, w')
      → (u v : World) × (u.tables ≡ w.tables)
        × (u.disk ≡ w.disk)
        × (m u ≡ (ok a, v))
        × (w'.tables ≡ v.tables)
        × (w'.disk ≡ v.disk)
  unfolding transaction
  transaction-eq-ok m w h =
      let (u, t, d, e) = attempt-eq-ok _ w h in
      let (x, y, z) = settle-eq-ok u.tables (m u).0 (m u).1.faults (m u).1 refl e in
      (u, (m u).1, t, d, ap (λ r. (r, (m u).1)) x, y, z)

  after_fault-err :
      (fs : List (Option String)) (act : World → Result A × World)
      → ((v : World) (e : Error) (v' : World) → act v ≡ (err e, v') → v'.tables ≡ v.tables)
      → (w : World) {e : Error} {w' : World} → after_fault fs act w ≡ (err e, w')
      → w'.tables ≡ w.tables
  after_fault-err [] act k w {e} {w'} h = k w e w' h
  after_fault-err (none ∷ rest) act k w {e} {w'} h = k (record w { faults = rest }) e w' h
  after_fault-err (some why ∷ rest) act k w h = ap (λ x. x.1.tables) (sym h)

  settle-err :
      (before : Tables) (r : Result A) (fs : List (Option String)) (w : World) {e : Error}
      {w' : World}
      → w.faults ≡ fs
      → settle before r w ≡ (err e, w')
      → w'.tables ≡ before
  settle-err before (err e) fs w q h = ap (λ x. x.1.tables) (sym h)
  settle-err before (ok a) [] w q h = let k = rw q at h in cc k
  settle-err before (ok a) (none ∷ rest) w q h = let k = rw q at h in cc k
  settle-err before (ok a) (some why ∷ rest) w q h =
      let k = rw q at h in ap (λ x. x.1.tables) (sym k)

  -- A transaction that fails changes no table, wherever it failed.
  pub transaction-err :
      (m : Io A) (w : World) {e : Error} {w' : World}
      → transaction m w ≡ (err e, w')
      → w'.tables ≡ w.tables
  unfolding transaction attempt
  transaction-err m w h =
      after_fault-err w.faults _
        (λ v _ _ k. settle-err v.tables (m v).0 (m v).1.faults (m v).1 refl k) w h

-- A transaction where nothing fails does what its statements do.
pub transaction-Calm {ℓ} :
    {A : Type ℓ} (m : Io A) (w w' : World) {a : A}
    → Calm w
    → m w ≡ (ok a, w')
    → Calm w'
    → transaction m w ≡ (ok a, w')
unfolding transaction
transaction-Calm m w w' {a} calm h calm' =
    attempt-Calm _ w calm ∙ ap (λ r. settle w.tables r.0 r.1) h ∙ settled w'.faults calm'
  where
    settled : (fs : List (Option String)) → w'.faults ≡ [] → settle w.tables (ok a) w' ≡ (ok a, w')
    settled fs e = rw e refl

length-fit : (n : ℕ) (b : Bytes) → length (fit n b) ≡ n
unfolding fit
length-fit zero b = refl
length-fit (suc n) [] = ap suc (length-fit n [])
length-fit (suc n) (x ∷ b) = ap suc (length-fit n b)

module _ (n : ℕ) where
  next_random-length :
      (bs : List Bytes) (w : World) {b : Bytes} {w' : World}
      → next_random n bs w ≡ (ok b, w')
      → length b ≡ n
  unfolding next_random
  next_random-length [] w h = cc (length-fit n [])
  next_random-length (x ∷ bs) w h = cc (length-fit n x)

  after_fault-length :
      (fs : List (Option String)) (w : World) {b : Bytes} {w' : World}
      → after_fault fs (λ v. next_random n v.random v) w ≡ (ok b, w')
      → length b ≡ n
  after_fault-length [] w h = next_random-length w.random w h
  after_fault-length (none ∷ rest) w h = next_random-length w.random _ h
  after_fault-length (some why ∷ rest) w h = cc

  -- `rand.Read` fills the buffer.
  pub rand_read-length :
      (w : World) {b : Bytes} {w' : World} → rand_read n w ≡ (ok b, w') → length b ≡ n
  unfolding rand_read
  rand_read-length w h = after_fault-length w.faults w h

pub try_io-eq-ok :
    {A : Type 0} (m : Io A) (w w' : World) {r : Result A} → try_io m w ≡ (ok r, w') → m w ≡ (r, w')
unfolding try_io
try_io-eq-ok m w w' h = cc h

pub time_now-eq-ok :
    (w : World) {t : ℕ} {w' : World} → time_now w ≡ (ok t, w') → w'.tables ≡ w.tables
unfolding time_now
time_now-eq-ok w {t} {w'} h = go w.clock refl
  where
    go : (c : List ℕ) → w.clock ≡ c → w'.tables ≡ w.tables
    go [] e = sym (ap (λ x. x.1.tables) (rw e at h))
    go (n ∷ c) e = sym (ap (λ x. x.1.tables) (rw e at h))

pub rand_read-Calm :
    (n : ℕ) (v : World)
    → Calm v
    → (b : Bytes) × (v' : World) × (rand_read n v ≡ (ok b, v')) × Calm v' × (v'.disk ≡ v.disk)
unfolding rand_read next_random
rand_read-Calm n v calm = read v.random refl
  where
    read :
        (bs : List Bytes)
        → v.random ≡ bs
        → (b : Bytes) × (v' : World) × (rand_read n v ≡ (ok b, v')) × Calm v' × (v'.disk ≡ v.disk)
    read [] e = (fit n [], v, attempt-Calm _ v calm ∙ ap (λ bs. next_random n bs v) e, calm, refl)
    read (b ∷ rest) e = (
      fit n b,
      record v { random = rest },
      attempt-Calm _ v calm ∙ ap (λ bs. next_random n bs v) e,
      calm,
      refl,
    )
