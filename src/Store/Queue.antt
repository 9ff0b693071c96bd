-- ===== src/Store/Queue.antt =====
-- The queue of runs: which run a method finds, adds or starts.
use base_guard.Base.{
  ℕ, ◌≤◌, String, Bool, true, false, List, [], ◌∷◌, ◌++◌, Option, none, some, first,
  find_row-update_where, find_row-update_ne, any, All, ◌==◌, ok, ◌≡◌, ◌≢◌, ◌⊎◌, refl, sym, ap, ◌∙◌,
  inl, inr, Bool-cases, if◌then◌else◌, arith,
}
use base_guard.Model.{Database, Run, running, queued}
use base_guard.Store.Tables.{
  Tables, apply, active_for, is_queued, is_busy, is_listed, append_run, enqueue_listed, claim,
  start,
}
use base_guard.Store.Invariant.{IsSound, Rising, first-above, run_id}
use base_guard.Store.Methods.{enqueue, claim_run, claimed, or_no_rows, scan_run}
use base_guard.Exec.{World, lift, exec, time_now}
use base_guard.Exec.Keeps.{Keeps-time_now}
use base_guard.Exec.Inversion.{>>=-eq-ok, exec-eq-ok, lift-eq-ok}

abbrev pub run_of : ℕ → Tables → Option Run
run_of id t = first (λ r. r.id == id) t.runs

pub any-append_new :
    (d : ℕ) (rs : List Run) (r : Run)
    → active_for d r ≡ true
    → any (active_for d) (rs ++ r ∷ []) ≡ true
any-append_new d [] r h = ground arith
any-append_new d (q ∷ rs) r h = ground (arith, any-append_new d rs r)

-- `Enqueue` succeeds with `true` exactly when the database is stored and has no run that is queued
-- or running; then its run is added under a new id, and the database has one. Otherwise, with
-- `false`, the tables stay as they were.
pub enqueue_lem :
    (d : Database) (trigger : String) (now : ℕ) (w w' : World) (added : Bool)
    → enqueue d trigger now w ≡ (ok added, w')
    → ((added ≡ true)
        × (is_listed d.id w.tables ≡ true)
        × (is_busy d.id w.tables ≡ false)
        × (w'.tables ≡ append_run d trigger now w.tables)
        × (is_busy d.id w'.tables ≡ true))
      ⊎ ((added ≡ false)
          × ((is_listed d.id w.tables ≡ false) ⊎ (is_busy d.id w.tables ≡ true))
          × (w'.tables ≡ w.tables))
unfolding enqueue apply
enqueue_lem d trigger now w w' added h =
    let (e, t, _) = exec-eq-ok (enqueue_listed d trigger now) _ w h in
    elim (Bool-cases (is_listed d.id w.tables)) [
      | inl l ↦ elim (Bool-cases (is_busy d.id w.tables)) [
        | inl b ↦
            let same : w'.tables ≡ w.tables = rw (l, b) at t in inr (rw (l, b) at e, inr b, same)
        | inr b ↦
            let grown : w'.tables ≡ append_run d trigger now w.tables = rw (l, b) at t in
            inl (
              rw (l, b) at e,
              l,
              b,
              grown,
              rw grown (any-append_new d.id w.tables.runs _ (ground arith)),
            )
      ]
      | inr l ↦ let same : w'.tables ≡ w.tables = rw l at t in inr (rw l at e, inl l, same)
    ]

-- The first queued run is the oldest one.
first-oldest :
    (lo hi : ℕ) (rs : List Run) (r : Run)
    → Rising run_id lo hi rs
    → first (λ q. is_queued q.status) rs ≡ some r
    → All (λ q. is_queued q.status ≡ true → r.id ≤ q.id) rs
first-oldest lo hi [] r v h = tt
first-oldest lo hi (q ∷ rs) r v h = elim (Bool-cases (is_queued q.status)) [
  | inl e ↦
      let here : some q ≡ some r = rw e at h in
      (λ _. ground arith, later q.id hi rs v.1 (ground arith))
  | inr e ↦ (λ k. cc (e, k), first-oldest q.id hi rs r v.1 (rw e at h))
]
  where
    later :
        (a b : ℕ) (l : List Run)
        → Rising run_id a b l
        → r.id ≤ a
        → All (λ q. is_queued q.status ≡ true → r.id ≤ q.id) l
    later a b [] u k = tt
    later a b (x ∷ l) u k = (λ _. omega arith, later x.id b l u.1 (omega arith))

first-found :
    (lo hi : ℕ) (rs : List Run) (r : Run)
    → Rising run_id lo hi rs
    → first (λ q. is_queued q.status) rs ≡ some r
    → first (λ q. q.id == r.id) rs ≡ some r
first-found lo hi [] r v h = cc
first-found lo hi (q ∷ rs) r v h = elim (Bool-cases (is_queued q.status)) [
  | inl e ↦ let here : some q ≡ some r = rw e at h in ground arith
  | inr e ↦
      let h' : first (λ x. is_queued x.status) rs ≡ some r = rw e at h in
      ground (arith, first-above q.id hi rs r v.1 h', first-found q.id hi rs r v.1 h')
]

abbrev pub Oldest : ℕ → Tables → Type 0
Oldest id t = All (λ q. is_queued q.status ≡ true → id ≤ q.id) t.runs

claimed-eq-some :
    (now : ℕ) (o : Option Run) (r : Run)
    → claimed now o ≡ some r
    → (q : Run) × (o ≡ some q) × (r ≡ record q { status = running; started = now })
claimed-eq-some now none r h = cc
claimed-eq-some now (some q) r h = (q, refl, cc h)

or_no_rows-some : {A : Type 0} (o : Option A) {a : A} → or_no_rows o ≡ ok a → o ≡ some a
or_no_rows-some none h = cc
or_no_rows-some (some b) h = cc h

pub scan_run-same : (q r : Run) → scan_run q ≡ ok r → r ≡ q
unfolding scan_run
scan_run-same q r h = ground arith

first-queued :
    (rs : List Run) (r : Run) → first (λ q. is_queued q.status) rs ≡ some r → r.status ≡ queued
first-queued [] r h = cc
first-queued (q ∷ rs) r h = ground (arith, first-queued rs r)

-- What the claim that finds `q` does to the tables.
abbrev Taken : Tables → Tables → Run → Type 0
Taken t u r =
    ((q : Run) × (now : ℕ) × (run_of r.id t ≡ some q)
      × (q.status ≡ queued)
      × (r ≡ record q { status = running; started = now }))
    × Oldest r.id t
    × (run_of r.id u ≡ some r)
    × ((i : ℕ) → i ≢ r.id → run_of i u ≡ run_of i t)

taken :
    (t u : Tables) (r q : Run) (now : ℕ)
    → IsSound t
    → first (λ x. is_queued x.status) t.runs ≡ some q
    → r ≡ record q { status = running; started = now }
    → u ≡ apply (claim now) t
    → Taken t u r
unfolding apply
taken t u r q now v f e g =
    let there : u ≡ start now (some q) t = g ∙ ap (λ o. start now o t) f in
    let found = first-found 0 t.run_seq t.runs q v.run_ids f in
    let hit : (q.id == q.id) ≡ true = ground arith in
    let starts : Run → Run = λ x. record x { status = running; started = now } in
    rw (e, there)
      (
        (q, now, found, first-queued t.runs q f, refl),
        first-oldest 0 t.run_seq t.runs q v.run_ids f,
        find_row-update_where run_id q.id (λ x. x.id == q.id) starts t.runs (λ x. refl) q found
            ∙ ap (λ b. some (if b then starts q else q)) hit,
        λ i n. find_row-update_ne run_id q.id i starts t.runs (λ x. refl) n,
      )

-- A claim that succeeds takes the oldest queued run of sound tables: it was queued, none queued has
-- a smaller id, it is stored as running as returned, and every other run stays as it was.
pub claim_run-Oldest :
    (w w' : World) (r : Run)
    → IsSound w.tables
    → claim_run w ≡ (ok r, w')
    → ((q : Run) × (now : ℕ) × (run_of r.id w.tables ≡ some q)
        × (q.status ≡ queued)
        × (r ≡ record q { status = running; started = now }))
      × Oldest r.id w.tables
      × (run_of r.id w'.tables ≡ some r)
      × ((i : ℕ) → i ≢ r.id → run_of i w'.tables ≡ run_of i w.tables)
unfolding claim_run apply
claim_run-Oldest w w' r v h =
    let (now, w1, e1, k1) = >>=-eq-ok time_now _ w h in
    let same : w1.tables ≡ w.tables =
      ap (λ x. x.1.tables) (sym e1) ∙ (Keeps-time_now {P = λ t. t ≡ w.tables}).at w refl in
    let (found, w2, e2, k2) = >>=-eq-ok (exec (claim now) _) _ w1 k1 in
    let (f, t, _) = exec-eq-ok (claim now) _ w1 e2 in
    let (row, w3, e3, k3) = >>=-eq-ok (lift (or_no_rows found)) _ w2 k2 in
    let (o, x3) = lift-eq-ok (or_no_rows found) w2 e3 in
    let (s, x4) = lift-eq-ok (scan_run row) w3 k3 in
    let got : r ≡ row = scan_run-same row r s in
    let (q, fq, c) =
      claimed-eq-some now (first (λ x. is_queued x.status) w1.tables.runs) row
        (sym f ∙ or_no_rows-some found o) in
    taken w.tables w'.tables r q now v
      (ap (λ (u : Tables). first (λ x. is_queued x.status) u.runs) (sym same) ∙ fq) (got ∙ c)
      (ap (λ x. x.tables) (x4 ∙ x3) ∙ t ∙ ap (apply (claim now)) same)
