-- ===== src/Store/Lifecycle.antt =====
-- The life of a run: the moves of its status, and tables that only move runs along them.
pub mod Rows
pub mod Statements
use base_guard.Base.{
  ℕ, ◌≡◌, refl, sym, ◌∙◌, String, Bool, true, List, [], ◌∷◌, ◌++◌, update_where, ◌==◌, All,
  Bool-cases, inl, inr,
}
use base_guard.Model.{Run, Status, queued, running, success, failed, interrupted, expired}

infix 40 ◌⟶◌ ◌⟶*◌
pub data ◌⟶◌ : Status → Status → Type 0 where
  begin : queued ⟶ running
  finish : running ⟶ success
  break_off : running ⟶ failed
  crash : running ⟶ interrupted
  age : success ⟶ expired

pub data ◌⟶*◌ (s : Status) : Status → Type 0 where
  here : s ⟶* s
  further : {t u : Status} → s ⟶* t → t ⟶ u → s ⟶* u

⟶*-trans : {s t u : Status} → s ⟶* t → t ⟶* u → s ⟶* u
⟶*-trans p here = p
⟶*-trans p (further q m) = further (⟶*-trans p q) m

-- The same run, possibly later: what it is of does not change, its status moves along the diagram.
pub record Became (x y : Run) : Type 0 where
  pub same_id : y.id ≡ x.id
  pub same_database : y.database_id ≡ x.database_id
  pub same_name : y.database_name ≡ x.database_name
  pub same_trigger : y.trigger ≡ x.trigger
  pub same_created : y.created ≡ x.created
  pub moves : x.status ⟶* y.status

pub Became-refl : (x : Run) → Became x x
Became-refl x = record {
  same_id = refl;
  same_database = refl;
  same_name = refl;
  same_trigger = refl;
  same_created = refl;
  moves = here;
}

Became-trans : (x y z : Run) → Became x y → Became y z → Became x z
Became-trans x y z p q = record {
  same_id = q.same_id ∙ p.same_id;
  same_database = q.same_database ∙ p.same_database;
  same_name = q.same_name ∙ p.same_name;
  same_trigger = q.same_trigger ∙ p.same_trigger;
  same_created = q.same_created ∙ p.same_created;
  moves = ⟶*-trans p.moves q.moves;
}

-- Every run of the first list stands at its place in the second one, possibly later in its life;
-- the second one may have further runs after them.
abbrev pub Evolves : List Run → List Run → Type 0
Evolves [] ys = Unit
Evolves (x ∷ xs) [] = ⊥
Evolves (x ∷ xs) (y ∷ ys) = Became x y × Evolves xs ys

pub Evolves-refl : (xs : List Run) → Evolves xs xs
Evolves-refl [] = tt
Evolves-refl (x ∷ xs) = (Became-refl x, Evolves-refl xs)

pub Evolves-trans : (xs ys zs : List Run) → Evolves xs ys → Evolves ys zs → Evolves xs zs
Evolves-trans [] ys zs p q = tt
Evolves-trans (x ∷ xs) [] zs p q = absurd p
Evolves-trans (x ∷ xs) (y ∷ ys) [] p q = absurd q
Evolves-trans (x ∷ xs) (y ∷ ys) (z ∷ zs) (p, ps) (q, qs) =
    (Became-trans x y z p q, Evolves-trans xs ys zs ps qs)

pub Evolves-append : (xs ys : List Run) (y : Run) → Evolves xs ys → Evolves xs (ys ++ y ∷ [])
Evolves-append [] ys y p = tt
Evolves-append (x ∷ xs) [] y p = absurd p
Evolves-append (x ∷ xs) (z ∷ ys) y (p, ps) = (p, Evolves-append xs ys y ps)

pub Evolves-update :
    (p : Run → Bool) (f : Run → Run) (xs ys : List Run)
    → All (λ y. p y ≡ true → Became y (f y)) ys
    → Evolves xs ys
    → Evolves xs (update_where p f ys)
Evolves-update p f [] ys k h = tt
Evolves-update p f (x ∷ xs) [] k h = absurd h
Evolves-update p f (x ∷ xs) (y ∷ ys) (k, ks) (h, hs) = elim (Bool-cases (p y)) [
  | inl t ↦ rw t (Became-trans x y (f y) h (k t), Evolves-update p f xs ys ks hs)
  | inr t ↦ rw t (h, Evolves-update p f xs ys ks hs)
]

-- Every run with this id has such a status.
abbrev pub Each : (Status → Bool) → ℕ → List Run → Type 0
Each ok id rs = All (λ q. (q.id == id) ≡ true → ok q.status ≡ true) rs

module _ (ok : Status → Bool) (id : ℕ) where
  pub Each-Became :
      (f : Run → Run) (rs : List Run)
      → ((q : Run) → ok q.status ≡ true → Became q (f q))
      → Each ok id rs
      → All (λ q. (q.id == id) ≡ true → Became q (f q)) rs
  Each-Became f [] k h = tt
  Each-Became f (q ∷ rs) k (h, hs) = (λ t. k q (h t), Each-Became f rs k hs)

  pub Each-update :
      (p : Run → Bool) (f : Run → Run) (rs : List Run)
      → ((q : Run) → (f q).id ≡ q.id)
      → ((q : Run) → ok q.status ≡ true → ok (f q).status ≡ true)
      → Each ok id rs
      → Each ok id (update_where p f rs)
  Each-update p f [] same k h = tt
  Each-update p f (q ∷ rs) same k (h, hs) = elim (Bool-cases (p q)) [
    | inl t ↦ rw t (λ e. k q (h (rw (same q) at e)), Each-update p f rs same k hs)
    | inr t ↦ rw t (h, Each-update p f rs same k hs)
  ]
