-- ===== src/Exec/Steps.antt =====
-- Actions in a row, and predicates of the tables between them.
use base_guard.Base.{
  ◌≡◌, ◌⊎◌, refl, sym, ap, subst, ◌∙◌, Error, Result, ok, err, Result-cases, inl, inr,
}
use base_guard.Store.Tables.{Tables}
use base_guard.Exec.{World, Io, ◌>>=◌}
use base_guard.Exec.Keeps.{Keeps}

pub result_of :
    {A : Type 0} (m : Io A) (w : World)
    → ((a : A) × (m w ≡ (ok a, (m w).1))) ⊎ ((e : Error) × (m w ≡ (err e, (m w).1)))
result_of {A} m w = elim (Result-cases (m w).0) [
  | inl (a, e) ↦ inl (a, ap (λ (r : Result A). (r, (m w).1)) e)
  | inr (x, e) ↦ inr (x, ap (λ (r : Result A). (r, (m w).1)) e)
]

module _ {A B : Type 0} (Q : Tables → Type 0) (m : Io A) (f : A → Io B) where
  -- A predicate of the tables after the first part, which the second part keeps.
  pub then-keep :
      (w : World) → ((a : A) → Keeps Q (f a)) → Q (m w).1.tables → Q ((m >>= f) w).1.tables
  unfolding ◌>>=◌
  then-keep w k h = elim (Result-cases (m w).0) [
    | inl (a, e) ↦ rw e ((k a).at (m w).1 h)
    | inr (x, e) ↦ rw e h
  ]

  -- The first part leaves the tables, and what follows it establishes the predicate.
  pub after_same :
      (t : Tables) (w : World)
      → Keeps (λ u. u ≡ t) m
      → w.tables ≡ t
      → Q t
      → ((a : A) (w' : World) → m w ≡ (ok a, w') → w'.tables ≡ t → Q (f a w').1.tables)
      → Q ((m >>= f) w).1.tables
  unfolding ◌>>=◌
  after_same t w k same q go = elim (Result-cases (m w).0) [
    | inl (a, e) ↦ rw e (go a (m w).1 (ap (λ (r : Result A). (r, (m w).1)) e) (k.at w same))
    | inr (x, e) ↦ rw e (subst Q (sym (k.at w same)) q)
  ]

pub kept :
    {A : Type 0} (m : Io A) (w w' : World) {a : A}
    → Keeps (λ t. t ≡ w.tables) m
    → m w ≡ (ok a, w')
    → w'.tables ≡ w.tables
kept m w w' k e = ap (λ x. x.1.tables) (sym e) ∙ k.at w refl
