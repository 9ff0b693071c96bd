-- ===== src/Base/Rows.antt =====
-- Rows found by a key, and what updates do to them.
use Prim.Native.Nat.{ℕ}
use mathlib.Core.Path.{◌≡◌, refl}
use mathlib.Core.Logic.{◌≢◌, inl, inr}
use mathlib.Core.Bool.{Bool, true, false}
use mathlib.Core.List.{List, [], ◌∷◌, ◌++◌}
use mathlib.Core.Option.{Option, some}
use native.Mathlib.Omega.{arith}
use base_guard.Base.Tests.{◌==◌, if◌then◌else◌, Bool-cases}
use base_guard.Base.Lists.{first, update_where}

module _ {A : Type 0} (key : A → ℕ) where
  -- The first row of a key.
  abbrev pub find_row : ℕ → List A → Option A
  find_row k rows = first (λ r. key r == k) rows

  pub find_row-key : (k : ℕ) (rows : List A) (r : A) → find_row k rows ≡ some r → key r ≡ k
  find_row-key k [] r h = cc
  find_row-key k (q ∷ rows) r h = elim (Bool-cases (key q == k)) [
    | inl e ↦ let here : some q ≡ some r = rw e at h in ground arith
    | inr e ↦ find_row-key k rows r (rw e at h)
  ]

  -- The row after an UPDATE that keeps keys.
  pub find_row-update_where :
      (k : ℕ) (p : A → Bool) (f : A → A) (rows : List A)
      → ((r : A) → key (f r) ≡ key r)
      → (r : A) → find_row k rows ≡ some r
      → find_row k (update_where p f rows) ≡ some (if p r then f r else r)
  find_row-update_where k p f [] same r h = cc
  find_row-update_where k p f (q ∷ rows) same r h = elim (Bool-cases (p q)) [
    | inl t ↦ elim (Bool-cases (key q == k)) [
      | inl e ↦
          let here : some q ≡ some r = rw e at h in
          let kept : (key (f q) == k) ≡ true = rw (same q) e in
          let mine : p r ≡ true = cc (here, t) in rw (t, kept, mine) (cc here)
      | inr e ↦
          let kept : (key (f q) == k) ≡ false = rw (same q) e in
          rw (t, kept) (find_row-update_where k p f rows same r (rw e at h))
    ]
    | inr t ↦ elim (Bool-cases (key q == k)) [
      | inl e ↦
          let here : some q ≡ some r = rw e at h in
          let mine : p r ≡ false = cc (here, t) in rw (t, e, mine) here
      | inr e ↦ rw (t, e) (find_row-update_where k p f rows same r (rw e at h))
    ]
  ]

  -- An UPDATE of another key leaves the row alone.
  pub find_row-update_ne :
      (id k : ℕ) (f : A → A) (rows : List A)
      → ((r : A) → key (f r) ≡ key r)
      → k ≢ id
      → find_row k (update_where (λ r. key r == id) f rows) ≡ find_row k rows
  find_row-update_ne id k f [] same n = refl
  find_row-update_ne id k f (q ∷ rows) same n =
      ground (arith, same q, find_row-update_ne id k f rows same n)

  -- A row that is found stays found behind appended ones.
  pub find_row-append :
      (k : ℕ) (rows new : List A) (r : A)
      → find_row k rows ≡ some r
      → find_row k (rows ++ new) ≡ some r
  find_row-append k [] new r h = cc
  find_row-append k (q ∷ rows) new r h = elim (Bool-cases (key q == k)) [
    | inl e ↦ rw e (rw e at h)
    | inr e ↦ rw e (find_row-append k rows new r (rw e at h))
  ]
