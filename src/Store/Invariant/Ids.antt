-- ===== src/Store/Invariant/Ids.antt =====
-- Ids that rise along a table and stay within the largest id given out.
use base_guard.Base.{
  ℕ, suc, ◌≤◌, ◌<◌, ◌≡◌, Bool, List, [], ◌∷◌, ◌++◌, update_where, select, inl, inr, Bool-cases,
  arith,
}

module _ {ℓ} {A : Type ℓ} (id : A → ℕ) where
  abbrev pub Rising : ℕ → ℕ → List A → Type 0
  Rising lo hi [] = lo ≤ hi
  Rising lo hi (x ∷ xs) = (lo < id x) × Rising (id x) hi xs

  pub Rising-lower : (lo lo' hi : ℕ) (xs : List A) → lo' ≤ lo → Rising lo hi xs → Rising lo' hi xs
  Rising-lower lo lo' hi [] h r = omega arith
  Rising-lower lo lo' hi (x ∷ xs) h r = (omega arith, r.1)

  pub Rising-le : (lo hi : ℕ) (xs : List A) → Rising lo hi xs → lo ≤ hi
  Rising-le lo hi [] r = r
  Rising-le lo hi (x ∷ xs) r = omega (arith, Rising-le (id x) hi xs r.1)

  pub Rising-append :
      (lo hi : ℕ) (xs : List A) (x : A)
      → id x ≡ suc hi
      → Rising lo hi xs
      → Rising lo (suc hi) (xs ++ x ∷ [])
  Rising-append lo hi [] x e r = (omega arith, omega arith)
  Rising-append lo hi (y ∷ xs) x e r = (r.0, Rising-append (id y) hi xs x e r.1)

  pub Rising-select :
      (p : A → Bool) (lo hi : ℕ) (xs : List A) → Rising lo hi xs → Rising lo hi (select p xs)
  Rising-select p lo hi [] r = r
  Rising-select p lo hi (x ∷ xs) r = elim (Bool-cases (p x)) [
    | inl e ↦ rw e (r.0, Rising-select p (id x) hi xs r.1)
    | inr e ↦ rw e (Rising-select p lo hi xs (Rising-lower (id x) lo hi xs (omega arith) r.1))
  ]

  pub Rising-update :
      (p : A → Bool) (f : A → A)
      → ((x : A) → id (f x) ≡ id x)
      → (lo hi : ℕ) (xs : List A) → Rising lo hi xs
      → Rising lo hi (update_where p f xs)
  Rising-update p f e lo hi [] r = r
  Rising-update p f e lo hi (x ∷ xs) r = elim (Bool-cases (p x)) [
    | inl t ↦ rw (t, e x) (r.0, Rising-update p f e (id x) hi xs r.1)
    | inr t ↦ rw t (r.0, Rising-update p f e (id x) hi xs r.1)
  ]
