-- ===== src/Server/Throttle.antt =====
-- How often an address gets to try a password under the throttle of `login`.
use base_guard.Base.{
  ℕ, suc, ◌+◌, ◌-◌, ◌≤◌, ◌⊎◌, ◌≡◌, refl, sym, subst, ap, ◌∙◌, String, Bool, true, false, ◌||◌, List,
  [], ◌∷◌, ◌++◌, none, any, first, update_where, ltb, str_eq, eq_iff, All, Bool-cases, inl, inr,
  arith,
}
use base_guard.Server.Attempts.{
  Attempt, Attempts, window, of_ip, purge, attempt_or_zero, put, counted, attempted, tries,
}

module _ (ip : String) (t0 : ℕ) where
  -- The address has made at least `c` attempts since `t0`, and none that the map knows before.
  abbrev Made : ℕ → Attempts → Type 0
  Made c m = All (λ e. of_ip ip e ≡ true → (t0 ≤ e.1.since) × (c ≤ e.1.count)) m

  Made-purge :
      (c now : ℕ) (m : Attempts)
      → now ≤ t0 + window
      → Made c m
      → Made c (purge now m) × (any (of_ip ip) (purge now m) ≡ any (of_ip ip) m)
  Made-purge c now [] h q = (tt, refl)
  Made-purge c now (e ∷ m) h (x, q) =
      let (k, r) = Made-purge c now m h q in
      elim (Bool-cases (ltb window (now - e.1.since))) [
        | inl old ↦ let other : of_ip ip e ≡ false = ground (arith, x) in rw (old, other) (k, r)
        | inr new ↦ rw new ((x, k), ap (λ b. of_ip ip e || b) r)
      ]

  Made-first :
      (c : ℕ) (m : Attempts)
      → Made c m
      → any (of_ip ip) m ≡ true
      → (t0 ≤ (attempt_or_zero (first (of_ip ip) m)).since)
        × (c ≤ (attempt_or_zero (first (of_ip ip) m)).count)
  Made-first c [] q h = cc
  Made-first c (e ∷ m) (x, q) h = ground (arith, x, Made-first c m q)

  -- Another address changes nothing of this one's entries.
  Made-other :
      (c : ℕ) (from : String) (a : Attempt) (m : Attempts)
      → str_eq from ip ≡ false
      → Made c m
      → Made c (update_where (of_ip from) (λ e. (e.0, a)) m)
  Made-other c from a [] n q = tt
  Made-other c from a (e ∷ m) n (x, q) = elim (Bool-cases (of_ip from e)) [
    | inl t ↦
        let other : of_ip ip e ≡ false = ap (λ k. str_eq k ip) ((eq_iff e.0 from).0 t) ∙ n in
        rw (t, other) (λ f. cc, Made-other c from a m n q)
    | inr t ↦ rw t (x, Made-other c from a m n q)
  ]

  Made-own :
      (c : ℕ) (a : Attempt) (m : Attempts)
      → t0 ≤ a.since
      → c ≤ a.count
      → Made c (update_where (of_ip ip) (λ e. (e.0, a)) m)
  Made-own c a [] s n = tt
  Made-own c a (e ∷ m) s n = elim (Bool-cases (of_ip ip e)) [
    | inl t ↦ rw t (λ f. (s, n), Made-own c a m s n)
    | inr t ↦ rw t (λ f. cc, Made-own c a m s n)
  ]

  Made-add :
      (c : ℕ) (e : String × Attempt) (m : Attempts)
      → (of_ip ip e ≡ true → (t0 ≤ e.1.since) × (c ≤ e.1.count))
      → Made c m
      → Made c (m ++ e ∷ [])
  Made-add c e [] x q = (x, tt)
  Made-add c e (f ∷ m) x (y, q) = (y, Made-add c e m x q)

  Made-weaken : (c d : ℕ) (m : Attempts) → any (of_ip ip) m ≡ false → Made c m → Made d m
  Made-weaken c d [] n q = tt
  Made-weaken c d (e ∷ m) n (x, q) =
      (λ t. absurd (let f : true ≡ false = ground arith in cc), Made-weaken c d m (ground arith) q)

any-add :
    (p : String × Attempt → Bool) (e : String × Attempt) (m : Attempts)
    → any p (m ++ e ∷ []) ≡ (any p m || p e)
any-add p e [] = ground arith
any-add p e (f ∷ m) = ground (arith, any-add p e m)

any-update_where :
    (ip from : String) (a : Attempt) (m : Attempts)
    → any (of_ip ip) (update_where (of_ip from) (λ e. (e.0, a)) m) ≡ any (of_ip ip) m
any-update_where ip from a [] = refl
any-update_where ip from a (e ∷ m) = elim (Bool-cases (of_ip from e)) [
  | inl t ↦ rw t (ap (λ b. of_ip ip e || b) (any-update_where ip from a m))
  | inr t ↦ rw t (ap (λ b. of_ip ip e || b) (any-update_where ip from a m))
]

first-none : (p : String × Attempt → Bool) (m : Attempts) → any p m ≡ false → first p m ≡ none
first-none p [] h = refl
first-none p (e ∷ m) h = ground (arith, first-none p m)

Made-unknown : (ip : String) (t0 : ℕ) (m : Attempts) → any (of_ip ip) m ≡ false → Made ip t0 0 m
Made-unknown ip t0 [] n = tt
Made-unknown ip t0 (e ∷ m) n =
    (λ t. absurd (let f : true ≡ false = ground arith in cc), Made-unknown ip t0 m (ground arith))

-- The address has made `c` attempts, if any, since `t0`.
module _ (ip : String) (t0 : ℕ) where
  abbrev State : ℕ → Attempts → Type 0
  State c m = Made ip t0 c m × ((c ≡ 0) ⊎ (any (of_ip ip) m ≡ true))

  State-put_own :
      (c d : ℕ) (a : Attempt) (m : Attempts)
      → t0 ≤ a.since
      → c ≤ a.count
      → Made ip t0 d m
      → State c (put ip a m)
  State-put_own c d a m s n q = elim (Bool-cases (any (of_ip ip) m)) [
    | inl t ↦ rw t (Made-own ip t0 c a m s n, inr (any-update_where ip ip a m ∙ t))
    | inr t ↦
        let mine : of_ip ip (ip, a) ≡ true = (eq_iff ip ip).1 refl in
        rw t (
          Made-add ip t0 c (ip, a) m (λ f. (s, n)) (Made-weaken ip t0 d c m t q),
          inr (any-add (of_ip ip) (ip, a) m ∙ ground (arith, mine)),
        )
  ]

  State-put_other :
      (c : ℕ) (from : String) (a : Attempt) (m : Attempts)
      → str_eq from ip ≡ false
      → State c m
      → State c (put from a m)
  State-put_other c from a m n (q, z) = elim (Bool-cases (any (of_ip from) m)) [
    | inl t ↦
        rw t (Made-other ip t0 c from a m n q, ground (arith, any-update_where ip from a m, z))
    | inr t ↦ rw t (
      Made-add ip t0 c (from, a) m (λ f. cc) q,
      ground (arith, any-add (of_ip ip) (from, a) m, z),
    )
  ]

  State-purge : (c now : ℕ) (m : Attempts) → now ≤ t0 + window → State c m → State c (purge now m)
  State-purge c now m h (q, z) =
      let (k, r) = Made-purge ip t0 c now m h q in (k, ground (arith, r, z))

  counted-State :
      (c now : ℕ) (m : Attempts)
      → t0 ≤ now
      → State c m
      → let a = counted now (attempt_or_zero (first (of_ip ip) m)) in
        (t0 ≤ a.since) × (suc c ≤ a.count)
  counted-State c now m s (q, inr t) =
      let (u, v) = Made-first ip t0 c m q t in (ground (arith, u, s), omega (arith, v))
  counted-State c now m s (q, inl z) = elim (Bool-cases (any (of_ip ip) m)) [
    | inl t ↦ let (u, v) = Made-first ip t0 c m q t in (ground (arith, u, s), omega (arith, v))
    | inr t ↦ rw (first-none (of_ip ip) m t) (s, ground arith)
  ]

  tries-own :
      (rs : List (ℕ × String)) (c now : ℕ) (m : Attempts)
      → t0 ≤ now
      → now ≤ t0 + window
      → State c m
      → ((m' : Attempts) → State (suc c) m' → tries ip rs m' ≤ 10 - suc c)
      → tries ip ((now, ip) ∷ rs) m ≤ 10 - c
  unfolding tries attempted
  tries-own rs c now m lo hi v rest =
      let kept = State-purge c now m hi v in
      let a = counted now (attempt_or_zero (first (of_ip ip) (purge now m))) in
      let (s, n) = counted-State c now (purge now m) lo kept in
      let le = rest (put ip a (purge now m)) (State-put_own (suc c) c a (purge now m) s n kept.0) in
      let mine : str_eq ip ip ≡ true = (eq_iff ip ip).1 refl in rw mine (ground (arith, le, n))

  tries_le :
      (rs : List (ℕ × String)) (c : ℕ) (m : Attempts)
      → State c m
      → All (λ r. (t0 ≤ r.0) × (r.0 ≤ t0 + window)) rs
      → tries ip rs m ≤ 10 - c
  unfolding tries attempted
  tries_le [] c m v h = omega arith
  tries_le ((now, from) ∷ rs) c m v ((lo, hi), h) = elim (Bool-cases (str_eq from ip)) [
    | inl t ↦
        subst (λ f. tries ip ((now, f) ∷ rs) m ≤ 10 - c) (sym ((eq_iff from ip).0 t))
          (tries-own rs c now m lo hi v (λ m' w. tries_le rs (suc c) m' w h))
    | inr t ↦
        let kept = State-purge c now m hi v in
        rw t (tries_le rs c _ (State-put_other c from _ _ t kept) h)
  ]

-- Among any requests to log in that arrive within one window of fifteen minutes, none of which
-- succeeds, an address that the map does not know at the start gets to try at most ten passwords,
-- whatever the other addresses do.
pub tries-le_ten :
    (ip : String) (t0 : ℕ) (rs : List (ℕ × String)) (m : Attempts)
    → any (of_ip ip) m ≡ false
    → All (λ r. (t0 ≤ r.0) × (r.0 ≤ t0 + window)) rs
    → tries ip rs m ≤ 10
tries-le_ten ip t0 rs m unknown h =
    omega (arith, tries_le ip t0 rs 0 m (Made-unknown ip t0 m unknown, inl refl) h)
