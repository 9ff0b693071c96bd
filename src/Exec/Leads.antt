-- ===== src/Exec/Leads.antt =====
-- What an action establishes when it succeeds and what it leaves when it fails, from a predicate
-- of the tables that it starts with: one rule for each way to build an action.
use base_guard.Base.{
  String, Bool, true, false, List, [], ◌∷◌, Option, none, some, Result, ok, err, Result-cases, inl,
  inr, ◌≡◌, refl, subst, sym,
}
use base_guard.Store.Tables.{Tables, Statement, apply, conflicts}
use base_guard.Exec.{
  World, Io, pure, lift, continue, ◌>>=◌, query, run, transaction, try_io, after_fault, attempt,
  exec, executed,
}
use base_guard.Exec.Keeps.{Keeps}
use base_guard.Exec.Steps.{result_of}
use base_guard.Exec.Inversion.{transaction-eq-ok, transaction-err}

abbrev pub Outcome :
    {A : Type 0} → (A → Tables → Type 0) → (Tables → Type 0) → Result A → Tables → Type 0
Outcome Q E (ok a) t = Q a t
Outcome Q E (err e) t = E t

pub record Leads {A : Type 0} (P : Tables → Type 0) (Q : A → Tables → Type 0) (E : Tables → Type 0)
    (m : Io A) : Type 0 where
  pub at : (w : World) → P w.tables → Outcome Q E (m w).0 (m w).1.tables

module _ {A : Type 0} (P : Tables → Type 0) (Q : A → Tables → Type 0) (E : Tables → Type 0) where
  after_fault-lead :
      (fs : List (Option String)) (act : World → Result A × World)
      → ((t : Tables) → P t → E t)
      → ((w : World) → P w.tables → Outcome Q E (act w).0 (act w).1.tables)
      → (w : World) → P w.tables
      → Outcome Q E (after_fault fs act w).0 (after_fault fs act w).1.tables
  after_fault-lead [] act e k w h = k w h
  after_fault-lead (none ∷ rest) act e k w h = k (record w { faults = rest }) h
  after_fault-lead (some why ∷ rest) act e k w h = e w.tables h

  executed-lead :
      (s : Statement) (f : Tables → A)
      → ((t : Tables) → P t → E t)
      → ((t : Tables) → P t → Q (f t) (apply s t))
      → (w : World) (b : Bool) → P w.tables
      → Outcome Q E (executed s f b w).0 (executed s f b w).1.tables
  executed-lead s f e k w true h = e w.tables h
  executed-lead s f e k w false h = k w.tables h

module _ {A : Type 0} {P : Tables → Type 0} {Q : A → Tables → Type 0} {E : Tables → Type 0} where
  pub Leads-pure : (a : A) → ((t : Tables) → P t → Q a t) → Leads P Q E (pure a)
  unfolding pure
  Leads-pure a k = record { at = λ w h. k w.tables h }

  pub Leads-attempt :
      (act : World → Result A × World)
      → ((t : Tables) → P t → E t)
      → ((w : World) → P w.tables → Outcome Q E (act w).0 (act w).1.tables)
      → Leads P Q E (attempt act)
  unfolding attempt
  Leads-attempt act e k = record { at = λ w. after_fault-lead P Q E w.faults act e k w }

  pub Leads-query :
      (f : Tables → A)
      → ((t : Tables) → P t → E t)
      → ((t : Tables) → P t → Q (f t) t)
      → Leads P Q E (query f)
  unfolding query
  Leads-query f e k = Leads-attempt _ e (λ w h. k w.tables h)

  pub Leads-exec :
      (s : Statement) (f : Tables → A)
      → ((t : Tables) → P t → E t)
      → ((t : Tables) → P t → Q (f t) (apply s t))
      → Leads P Q E (exec s f)
  unfolding exec
  Leads-exec s f e k =
      Leads-attempt _ e (λ w h. executed-lead P Q E s f e k w (conflicts s w.tables) h)

  pub Leads-lift :
      (r : Result A)
      → ((t : Tables) → P t → E t)
      → ((a : A) (t : Tables) → r ≡ ok a → P t → Q a t)
      → Leads P Q E (lift r)
  unfolding lift
  Leads-lift (ok a) e k = record { at = λ w h. k a w.tables refl h }
  Leads-lift (err x) e k = record { at = λ w h. e w.tables h }

  -- An action that keeps a predicate.
  pub Leads-keep :
      (m : Io A)
      → Keeps P m
      → ((t : Tables) → P t → E t)
      → ((a : A) (t : Tables) → P t → Q a t)
      → Leads P Q E m
  Leads-keep m kept e k = record {
    at = λ w h. elim (Result-cases (m w).0) [
      | inl (a, x) ↦ rw x (k a (m w).1.tables (kept.at w h))
      | inr (x, y) ↦ rw y (e (m w).1.tables (kept.at w h))
    ];
  }

  pub Leads-weaken :
      {P' : Tables → Type 0} (m : Io A)
      → ((t : Tables) → P' t → P t)
      → Leads P Q E m
      → Leads P' Q E m
  Leads-weaken m p k = record { at = λ w h. k.at w (p w.tables h) }

  -- A transaction that fails has changed nothing.
  pub Leads-transaction :
      {E' : Tables → Type 0} (m : Io A)
      → ((t : Tables) → P t → E t)
      → Leads P Q E' m
      → Leads P Q E (transaction m)
  Leads-transaction m e k = record {
    at = λ w h. elim (result_of (transaction m) w) [
      | inl (a, x) ↦
          let (u, v, t, _, y, z, _) = transaction-eq-ok m w x in
          let done = k.at u (subst P (sym t) h) in
          let q : Q a v.tables = rw y at done in
          let r : Q a (transaction m w).1.tables = subst (Q a) (sym z) q in rw x r
      | inr (f, x) ↦
          let r : E (transaction m w).1.tables =
            subst E (sym (transaction-err m w x)) (e w.tables h) in
          rw x r
    ];
  }

module _ {A B : Type 0} (Q : A → Tables → Type 0) (R : B → Tables → Type 0)
    (E : Tables → Type 0) where
  continue-lead :
      (r : Result A) (f : A → Io B)
      → ((a : A) → Leads (Q a) R E (f a))
      → (w : World) → Outcome Q E r w.tables
      → Outcome R E (continue r f w).0 (continue r f w).1.tables
  continue-lead (ok a) f k w h = (k a).at w h
  continue-lead (err e) f k w h = h

module _ {A B : Type 0} {P : Tables → Type 0} {Q : A → Tables → Type 0} {R : B → Tables → Type 0}
    {E : Tables → Type 0} where
  pub Leads-bind :
      (m : Io A) (f : A → Io B)
      → Leads P Q E m
      → ((a : A) → Leads (Q a) R E (f a))
      → Leads P R E (m >>= f)
  unfolding ◌>>=◌
  Leads-bind m f km kf = record { at = λ w h. continue-lead Q R E (m w).0 f kf (m w).1 (km.at w h) }

-- An action whose error is a value does not fail.
pub Leads-try :
    {A : Type 0} {P E E' : Tables → Type 0} {Q : A → Tables → Type 0} (m : Io A)
    → Leads P Q E m
    → Leads P (λ r t. Outcome Q E r t) E' (try_io m)
unfolding try_io
Leads-try m k = record { at = λ w h. k.at w h }

pub Leads-run :
    {P E : Tables → Type 0} {Q : Unit {0} → Tables → Type 0} (s : Statement)
    → ((t : Tables) → P t → E t)
    → ((t : Tables) → P t → Q tt (apply s t))
    → Leads P Q E (run s)
unfolding run
Leads-run s e k = Leads-exec s _ e k

-- An action that leaves the predicate either way keeps it.
pub Leads-either : {A : Type 0} {P : Tables → Type 0} (m : Io A) → Leads P (λ _. P) P m → Keeps P m
Leads-either {A} {P} m k = record { at = λ w h. go (m w).0 (m w).1.tables (k.at w h) }
  where
    go : (r : Result A) (t : Tables) → Outcome (λ _. P) P r t → P t
    go (ok a) t h = h
    go (err e) t h = h
