-- ===== src/Store/Invariant/OneActive.antt =====
-- At most one run of a database is queued or running.
use base_guard.Base.{
  ℕ, ◌≡◌, refl, Bool, true, false, ◌||◌, List, [], ◌∷◌, ◌++◌, update_where, any, All, inl, inr,
  Bool-cases, arith,
}
use base_guard.Model.{Run}
use base_guard.Store.Tables.{is_active, active_for}

abbrev pub Exclusive : List Run → Type 0
Exclusive [] = Unit
Exclusive (r ∷ rs) =
    (is_active r.status ≡ true → any (active_for r.database_id) rs ≡ false) × Exclusive rs

any-append :
    (d : ℕ) (rs : List Run) (r : Run)
    → any (active_for d) (rs ++ r ∷ []) ≡ (any (active_for d) rs || active_for d r)
any-append d [] r = ground arith
any-append d (q ∷ rs) r = ground (arith, any-append d rs r)

pub Exclusive-append :
    (rs : List Run) (r : Run)
    → any (active_for r.database_id) rs ≡ false
    → Exclusive rs
    → Exclusive (rs ++ r ∷ [])
Exclusive-append [] r n x = (λ a. refl, tt)
Exclusive-append (q ∷ rs) r n (x, xs) = (
  λ a. ground (arith, any-append q.database_id rs r, x a),
  Exclusive-append rs r (ground arith) xs,
)

-- A change of rows that moves no run to another database and starts none that had ended.
module _ (p : Run → Bool) (f : Run → Run)
    (same : (r : Run) → (f r).database_id ≡ r.database_id) where
  abbrev pub Calm : Run → Type 0
  Calm r = p r ≡ true → is_active (f r).status ≡ true → is_active r.status ≡ true

  any-update :
      (d : ℕ) (rs : List Run)
      → All Calm rs
      → any (active_for d) rs ≡ false
      → any (active_for d) (update_where p f rs) ≡ false
  any-update d [] c n = refl
  any-update d (r ∷ rs) (c, cs) n = ground (arith, same r, c, any-update d rs cs)

  pub Exclusive-update :
      (rs : List Run) → All Calm rs → Exclusive rs → Exclusive (update_where p f rs)
  Exclusive-update [] c x = tt
  Exclusive-update (r ∷ rs) (c, cs) (x, xs) = elim (Bool-cases (p r)) [
    | inl t ↦
        rw t
          (λ a. rw (same r) (any-update r.database_id rs cs (x (c t a))), Exclusive-update rs cs xs)
    | inr t ↦ rw t (λ a. any-update r.database_id rs cs (x a), Exclusive-update rs cs xs)
  ]
