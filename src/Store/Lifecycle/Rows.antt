-- ===== src/Store/Lifecycle/Rows.antt =====
-- Rows whose status a statement moves, and the rows that a statement finds.
use base_guard.Base.{
  ℕ, ◌≡◌, ◌<◌, ◌≤◌, refl, Bool, true, false, List, [], ◌∷◌, select, some, first, update_where, ◌==◌,
  All, Bool-cases, inl, inr, arith,
}
use base_guard.Model.{Run, Status, queued, running, success, failed, interrupted, expired}
use base_guard.Store.Tables.{Tables, is_queued, is_running}
use base_guard.Store.Invariant.{IsSound, run_id, first-above, Rising}
use base_guard.Store.Lifecycle.{
  begin, finish, break_off, crash, age, ◌⟶*◌, here, further, Became, Evolves, Each,
}

-- A change of the status alone and of columns that a run gets later.
pub became :
    (x y : Run)
    → y.id ≡ x.id
    → y.database_id ≡ x.database_id
    → y.database_name ≡ x.database_name
    → y.trigger ≡ x.trigger
    → y.created ≡ x.created
    → x.status ⟶* y.status
    → Became x y
became x y a b c d e m = record {
  same_id = a;
  same_database = b;
  same_name = c;
  same_trigger = d;
  same_created = e;
  moves = m;
}

pub is_queued-begin : (s : Status) → is_queued s ≡ true → s ⟶* running
is_queued-begin queued h = further here begin
is_queued-begin _ h = cc h

pub is_running-finish : (s : Status) → is_running s ≡ true → s ⟶* success
is_running-finish running h = further here finish
is_running-finish _ h = cc h

pub is_running-break_off : (s : Status) → is_running s ≡ true → s ⟶* failed
is_running-break_off running h = further here break_off
is_running-break_off _ h = cc h

pub is_running-crash : (s : Status) → is_running s ≡ true → s ⟶* interrupted
is_running-crash running h = further here crash
is_running-crash _ h = cc h

-- A status that a run may leave by its expiry, or has left that way.
abbrev pub is_spent : Status → Bool
is_spent success = true
is_spent expired = true
is_spent _ = false

pub is_spent-age : (s : Status) → is_spent s ≡ true → s ⟶* expired
is_spent-age success h = further here age
is_spent-age expired h = here
is_spent-age _ h = cc h

abbrev pub Lives : List Run → Tables → Type 0
Lives old t = IsSound t × Evolves old t.runs

-- The claimed row is queued, and no other row has its id.
Each-above :
    (ok : Status → Bool) (id lo hi : ℕ) (rs : List Run)
    → id ≤ lo
    → Rising run_id lo hi rs
    → Each ok id rs
Each-above ok id lo hi [] l h = tt
Each-above ok id lo hi (q ∷ rs) l h =
    (λ e. ground arith, Each-above ok id q.id hi rs (omega (arith, h.0)) h.1)

pub claimed-Each :
    (lo hi : ℕ) (rs : List Run) (r : Run)
    → Rising run_id lo hi rs
    → first (λ q. is_queued q.status) rs ≡ some r
    → Each is_queued r.id rs
claimed-Each lo hi [] r h e = tt
claimed-Each lo hi (q ∷ rs) r h e = elim (Bool-cases (is_queued q.status)) [
  | inl t ↦
      let e' : some q ≡ some r = rw t at e in
      (λ _. t, Each-above is_queued r.id q.id hi rs (ground arith) h.1)
  | inr t ↦
      let e' : first (λ x. is_queued x.status) rs ≡ some r = rw t at e in
      (λ same. ground (arith, first-above q.id hi rs r h.1 e'), claimed-Each q.id hi rs r h.1 e')
]

-- After the claim the run of this id is running.
pub begun-Each :
    (now id : ℕ) (rs : List Run)
    → Each is_running id
        (update_where (λ q. q.id == id) (λ q. record q { status = running; started = now }) rs)
begun-Each now id [] = tt
begun-Each now id (q ∷ rs) = elim (Bool-cases (q.id == id)) [
  | inl t ↦ rw t (λ _. refl, begun-Each now id rs)
  | inr t ↦ rw t (λ e. absurd (let bad : true ≡ false = cc (t, e) in cc bad), begun-Each now id rs)
]

-- A successful run that a query answered is the only one of its id.
pub selected-Each :
    (p : Run → Bool)
    → ((q : Run) → p q ≡ true → is_spent q.status ≡ true)
    → (lo hi : ℕ) (rs : List Run) → Rising run_id lo hi rs
    → All (λ q. (lo < q.id) × Each is_spent q.id rs) (select p rs)
selected-Each p k lo hi [] h = tt
selected-Each p k lo hi (x ∷ rs) h = elim (Bool-cases (p x)) [
  | inl t ↦ rw t (
    (h.0, ((λ _. k x t), Each-above is_spent x.id x.id hi rs (omega arith) h.1)),
    wider (select p rs) (selected-Each p k x.id hi rs h.1),
  )
  | inr t ↦ rw t (wider (select p rs) (selected-Each p k x.id hi rs h.1))
]
  where
    wider :
        (qs : List Run)
        → All (λ q. (x.id < q.id) × Each is_spent q.id rs) qs
        → All (λ q. (lo < q.id) × Each is_spent q.id (x ∷ rs)) qs
    wider [] a = tt
    wider (q ∷ qs) ((a, b), c) = ((omega (arith, a, h.0), (λ e. ground arith, b)), wider qs c)
