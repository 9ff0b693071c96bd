-- ===== src/Worker/Planning.antt =====
-- The transaction of `Schedule`: the row that is due, its next planned time, and the run in the queue.
use base_guard.Base.{
  ℕ, ◌<◌, String, Bool, true, false, ◌&&◌, List, [], ◌∷◌, some, find_row, find_row-key,
  find_row-update_where, update_where, ltb, ◌==◌, ok, ◌≡◌, ◌≢◌, ◌⊎◌, refl, subst, Option, none,
  Error, Result, err, ap, ◌∙◌, inl, inr, Bool-cases, Result-cases, if◌then◌else◌, arith,
}
use base_guard.Model.{Database}
use base_guard.Store.Tables.{
  DatabaseRow, Tables, apply, conflicts, advance, enqueue_due, is_busy, rows_matching,
}
use base_guard.Store.Invariant.{IsSound, Rising, database_row_id}
use base_guard.Store.Queue.{any-append_new}
use base_guard.Store.Saving.{row_of}
use base_guard.Exec.{World, Io, pure, exec, run, ◌>>=◌}
use base_guard.Exec.Inversion.{
  >>=-elim, exec-eq-ok, pure-eq-ok, transaction-eq-ok, transaction-err, Calm, exec-Calm,
  transaction-Calm, >>=_of_ok,
}
use base_guard.Worker.Methods.{Worker, plan}

-- The row as the scheduler read it: enabled, with the planned time that was due.
abbrev pub unchanged : Database → DatabaseRow → Bool
unchanged d r = r.id == d.id && r.enabled && r.next_run == d.next_run

selected-found :
    (d : Database) (lo hi : ℕ) (rows : List DatabaseRow)
    → Rising database_row_id lo hi rows
    → 0 < rows_matching (unchanged d) rows
    → (r : DatabaseRow) × (find_row database_row_id d.id rows ≡ some r) × (unchanged d r ≡ true)
selected-found d lo hi [] v h = absurd (omega arith)
selected-found d lo hi (q ∷ rows) v h = elim (Bool-cases (unchanged d q)) [
  | inl t ↦ (q, ground arith, t)
  | inr t ↦
      let (r, f, u) = selected-found d q.id hi rows v.1 (rw t at h) in
      (
        r,
        ground (
          arith,
          found-above d.id q.id hi rows r v.1 f,
          find_row-key database_row_id d.id rows r f,
        ),
        u,
      )
]
  where
    found-above :
        (k a b : ℕ) (l : List DatabaseRow) (r : DatabaseRow)
        → Rising database_row_id a b l
        → find_row database_row_id k l ≡ some r
        → a < r.id
    found-above k a b [] r u f = cc
    found-above k a b (x ∷ l) r u f = elim (Bool-cases (x.id == k)) [
      | inl e ↦ let here : some x ≡ some r = rw e at f in ground arith
      | inr e ↦ omega (arith, found-above k x.id b l r u.1 (rw e at f))
    ]

is_busy-enqueue_due :
    (d : Database) (trigger : String) (now : ℕ) (t : Tables)
    → is_busy d.id (apply (enqueue_due d trigger now) t) ≡ true
unfolding apply
is_busy-enqueue_due d trigger now t = elim (Bool-cases (is_busy d.id t)) [
  | inl e ↦ rw e e
  | inr e ↦ rw e (any-append_new d.id t.runs _ (ground arith))
]

databases-enqueue_due :
    (d : Database) (trigger : String) (now : ℕ) (t : Tables)
    → (apply (enqueue_due d trigger now) t).databases ≡ t.databases
unfolding apply
databases-enqueue_due d trigger now t = ground arith

advance-found :
    (d : Database) (next : ℕ) (t : Tables)
    → IsSound t
    → 0 < rows_matching (unchanged d) t.databases
    → (r : DatabaseRow) × (row_of d.id t ≡ some r)
      × (unchanged d r ≡ true)
      × (row_of d.id (apply (advance d.id next d.next_run) t) ≡ some (record r { next_run = next }))
unfolding apply
advance-found d next t v h =
    let (r, f, u) = selected-found d 0 t.database_seq t.databases v.database_ids h in
    let moved : DatabaseRow → DatabaseRow = λ x. record x { next_run = next } in
    (
      r,
      f,
      u,
      find_row-update_where database_row_id d.id (unchanged d) moved t.databases (λ x. refl) r f
          ∙ ap (λ b. some (if b then moved r else r)) u,
    )

advance-missed :
    (d : Database) (next : ℕ) (rows : List DatabaseRow)
    → ltb 0 (rows_matching (unchanged d) rows) ≡ false
    → update_where (unchanged d) (λ x. record x { next_run = next }) rows ≡ rows
advance-missed d next [] h = refl
advance-missed d next (q ∷ rows) h = ground (arith, advance-missed d next rows)

advance-nothing :
    (d : Database) (next : ℕ) (t : Tables)
    → ltb 0 (rows_matching (unchanged d) t.databases) ≡ false
    → apply (advance d.id next d.next_run) t ≡ t
unfolding apply
advance-nothing d next t h =
    ap (λ rows. record t { databases = rows }) (advance-missed d next t.databases h)

-- The row of the database no longer is as the scheduler read it: gone, switched off or with another
-- planned time.
abbrev pub Moved : Database → Tables → Type 0
Moved d t =
    (row_of d.id t ≡ none)
    ⊎ ((r : DatabaseRow) × (row_of d.id t ≡ some r)
        × ((r.enabled ≡ false) ⊎ (r.next_run ≢ d.next_run)))

-- The database was still due, and now its next time is planned and it has a run in the queue.
abbrev pub Planned : Database → ℕ → Tables → Tables → Type 0
Planned d next t u =
    (r : DatabaseRow) × (row_of d.id t ≡ some r)
    × (r.enabled ≡ true)
    × (r.next_run ≡ d.next_run)
    × (row_of d.id u ≡ some (record r { next_run = next }))
    × (is_busy d.id u ≡ true)

missed-Moved :
    (d : Database) (rows : List DatabaseRow) (r : DatabaseRow)
    → ltb 0 (rows_matching (unchanged d) rows) ≡ false
    → find_row database_row_id d.id rows ≡ some r
    → (r.enabled ≡ false) ⊎ (r.next_run ≢ d.next_run)
missed-Moved d [] r h f = cc f
missed-Moved d (q ∷ rows) r h f = elim (Bool-cases (q.id == d.id)) [
  | inl t ↦
      let same : some q ≡ some r = rw t at f in
      let k : q ≡ r = cc same in
      subst (λ (x : DatabaseRow). (x.enabled ≡ false) ⊎ (x.next_run ≢ d.next_run)) k (off t)
  | inr t ↦ missed-Moved d rows r (ground arith) (rw t at f)
]
  where
    off : (q.id == d.id) ≡ true → (q.enabled ≡ false) ⊎ (q.next_run ≢ d.next_run)
    off t = elim (Bool-cases q.enabled) [ inl e ↦ inr (λ n. ground arith) | inr e ↦ inl e ]

missed_row :
    (d : Database) (t : Tables)
    → ltb 0 (rows_matching (unchanged d) t.databases) ≡ false
    → Moved d t
missed_row d t h = go (row_of d.id t) refl
  where
    go : (o : Option DatabaseRow) → row_of d.id t ≡ o → Moved d t
    go none f = inl f
    go (some r) f = inr (r, f, missed-Moved d t.databases r h f)

ok-err : {A : Type 0} {r : Result A} {a : A} {e : Error} → r ≡ ok a → r ≡ err e → ⊥
ok-err x y = cc (x, y)

module _ (w : Worker) (now : ℕ) (trigger : String) (d : Database) (next : ℕ → ℕ) where
  abbrev counted : Tables → ℕ
  counted t = rows_matching (unchanged d) t.databases

  queue_or_not : ℕ → Io (Unit {0})
  queue_or_not n = if ltb 0 n then run (enqueue_due d trigger now) else pure tt

  plan_done :
      (v v' : World)
      → IsSound v.tables
      → plan w now trigger d next v ≡ (ok tt, v')
      → (Moved d v.tables × (v'.tables ≡ v.tables)) ⊎ Planned d (next now) v.tables v'.tables
  unfolding plan run
  plan_done v v' s h =
      let (x, y, tx, _, m, ty, _) = transaction-eq-ok _ v h in
      >>=-elim (exec (advance d.id (next now) d.next_run) counted) _ x m λ n x1 e1 k1.
        let (c, t1, _) = exec-eq-ok (advance d.id (next now) d.next_run) counted x e1 in
        let count : n ≡ counted v.tables = c ∙ ap counted tx in
        let t2 : x1.tables ≡ apply (advance d.id (next now) d.next_run) v.tables =
          t1 ∙ ap (apply (advance d.id (next now) d.next_run)) tx in
        elim (Bool-cases (ltb 0 (counted v.tables))) [
          | inl b ↦
              let k2 : exec (enqueue_due d trigger now) (λ _. tt) x1 ≡ (ok tt, y) =
                rw (count, b) at k1 in
              let (_, t3, _) = exec-eq-ok (enqueue_due d trigger now) _ x1 k2 in
              let t4 = ty ∙ t3 in
              let (r, f, u, g) = advance-found d (next now) v.tables s (ground arith) in
              inr (
                r,
                f,
                ground arith,
                ground arith,
                ap (find_row database_row_id d.id) (
                      ap (λ t. t.databases) t4
                      ∙ databases-enqueue_due d trigger now x1.tables
                      ∙ ap (λ t. t.databases) t2)
                    ∙ g,
                ap (is_busy d.id) t4 ∙ is_busy-enqueue_due d trigger now x1.tables,
              )
          | inr b ↦
              let k2 : pure tt x1 ≡ (ok tt, y) = rw (count, b) at k1 in
              let (_, z) = pure-eq-ok tt x1 k2 in
              inl (
                missed_row d v.tables b,
                ty ∙ ap (λ q. q.tables) z ∙ t2 ∙ advance-nothing d (next now) v.tables b,
              )
        ]

  -- Where nothing fails, the transaction commits.
  plan-Calm : (v : World) → Calm v → (plan w now trigger d next v).0 ≡ ok tt
  unfolding plan run conflicts queue_or_not pure
  plan-Calm v calm =
      let s = advance d.id (next now) d.next_run in
      let v1 = record v { tables = apply s v.tables } in
      let first_step =
        >>=_of_ok (exec s counted) queue_or_not v (exec-Calm s counted v calm refl) in
      elim (Bool-cases (ltb 0 (counted v.tables))) [
        | inl b ↦
            let v2 = record v1 { tables = apply (enqueue_due d trigger now) v1.tables } in
            let rest : queue_or_not (counted v.tables) v1 ≡ (ok tt, v2) =
              rw b (exec-Calm (enqueue_due d trigger now) (λ _. tt) v1 calm refl) in
            ap (λ x. x.0)
              (transaction-Calm (exec s counted >>= queue_or_not) v v2 calm (first_step ∙ rest)
                calm)
        | inr b ↦
            let rest : queue_or_not (counted v.tables) v1 ≡ (ok tt, v1) = rw b refl in
            ap (λ x. x.0)
              (transaction-Calm (exec s counted >>= queue_or_not) v v1 calm (first_step ∙ rest)
                calm)
      ]

  -- For sound tables, whatever faults strike the transaction that plans a due database: it fails, which it does
  -- only where faults are to strike, and the tables are as before; or it succeeds, the row had been removed, switched off or planned anew since it
  -- was read, and the tables are as before; or it succeeds, the row was enabled with the planned time that was
  -- read, that time moved to the one after now and, with it, the database has a run queued or running.
  pub plan-atomic :
      (v : World)
      → IsSound v.tables
      → let (r, v') = plan w now trigger d next v in
        ((e : Error) × (r ≡ err e) × (Calm v → ⊥) × (v'.tables ≡ v.tables))
        ⊎ (((r ≡ ok tt) × Moved d v.tables × (v'.tables ≡ v.tables))
            ⊎ ((r ≡ ok tt) × Planned d (next now) v.tables v'.tables))
  unfolding plan
  plan-atomic v s = cases (Result-cases planned.0)
    where
      planned : Result (Unit {0}) × World
      planned = plan w now trigger d next v

      cases :
          ((a : Unit {0}) × (planned.0 ≡ ok a)) ⊎ ((e : Error) × (planned.0 ≡ err e))
          → ((e : Error) × (planned.0 ≡ err e) × (Calm v → ⊥) × (planned.1.tables ≡ v.tables))
            ⊎ (((planned.0 ≡ ok tt) × Moved d v.tables × (planned.1.tables ≡ v.tables))
                ⊎ ((planned.0 ≡ ok tt) × Planned d (next now) v.tables planned.1.tables))
      cases (inl (_, e)) = elim (plan_done v planned.1 s (ap (λ q. (q, planned.1)) e)) [
        | inl (moved, same) ↦ inr (inl (e, moved, same))
        | inr p ↦ inr (inr (e, p))
      ]
      cases (inr (f, e)) = inl (
        f,
        e,
        (λ calm. ok-err (plan-Calm v calm) e),
        transaction-err _ v (ap (λ q. (q, planned.1)) e),
      )
