-- ===== src/Worker/Drain.antt =====
-- The loop of `Start`, tick by tick, and its queue.
use base_guard.Base.{
  ℕ, suc, ◌≤◌, ◌<◌, ◌≡◌, refl, sym, ap, subst, ◌∙◌, true, List, [], ◌∷◌, none, some, All, first,
  update_where, length, ◌==◌, Result, ok, Bool-cases, Option-cases, inl, inr, arith,
}
use base_guard.Model.{Run, running}
use base_guard.Store.Tables.{Tables, apply, conflicts, is_queued, rows_matching, claim}
use base_guard.Store.Methods.{claim_run, claimed, or_no_rows, scan_run}
use base_guard.Exec.{World, lift, time_now, ◌>>=◌}
use base_guard.Exec.Keeps.{Keeps, keeps_rules}
use base_guard.Exec.Inversion.{Calm, exec-Calm, >>=_of_ok}
use base_guard.Worker.Methods.{Worker, execute, tick}
use base_guard.Exec.Steps.{then-keep}
use base_guard.Worker.Waiting.{queued_count, Few, few-update, Few-execute}

none_queued :
    (rs : List Run)
    → first (λ r. is_queued r.status) rs ≡ none
    → rows_matching (λ r. is_queued r.status) rs ≡ 0
none_queued [] h = refl
none_queued (r ∷ rs) h = elim (Bool-cases (is_queued r.status)) [
  | inl t ↦ let bad : some r ≡ none = rw t at h in cc bad
  | inr t ↦ rw t (none_queued rs (rw t at h))
]

abbrev started : ℕ → Run → Run
started now q = record q { status = running; started = now }

started-less :
    (now : ℕ) (rs : List Run) (r : Run)
    → first (λ q. is_queued q.status) rs ≡ some r
    → rows_matching (λ q. is_queued q.status) (update_where (λ q. q.id == r.id) (started now) rs)
      < rows_matching (λ q. is_queued q.status) rs
started-less now [] r h = cc h
started-less now (q ∷ rs) r h = elim (Bool-cases (is_queued q.status)) [
  | inl t ↦
      let same : some q ≡ some r = rw t at h in
      let is : q ≡ r = cc same in
      let hit : (q.id == r.id) ≡ true =
        ap (λ (x : Run). q.id == x.id) (sym is)
        ∙ (let e : (q.id == q.id) ≡ true = ground arith in e) in
      let rest = few-update (λ x. x.id == r.id) (started now) (λ x y. cc y) rs in
      rw (t, hit) (omega (arith, rest))
  | inr t ↦
      let rest = started-less now rs r (rw t at h) in
      elim (Bool-cases (q.id == r.id)) [ inl e ↦ rw (t, e) rest | inr e ↦ rw (t, e, t) rest ]
]

claim-le :
    (now n : ℕ) (t : Tables) → queued_count t ≤ suc n → queued_count (apply (claim now) t) ≤ n
unfolding apply
claim-le now n t h = elim (Option-cases (first (λ r. is_queued r.status) t.runs)) [
  | inl e ↦ let zero_left = none_queued t.runs e in rw e (omega (arith, zero_left))
  | inr (r, e) ↦ let fewer = started-less now t.runs r e in rw e (omega (arith, fewer, h))
]

now_of :
    (v : World)
    → (now : ℕ) × (v' : World) × (time_now v ≡ (ok now, v'))
      × (v'.tables ≡ v.tables)
      × (v'.faults ≡ v.faults)
unfolding time_now
now_of v = go v.clock refl
  where
    go :
        (c : List ℕ)
        → v.clock ≡ c
        → (now : ℕ) × (v' : World) × (time_now v ≡ (ok now, v'))
          × (v'.tables ≡ v.tables)
          × (v'.faults ≡ v.faults)
    go [] e = (0, v, rw e refl, refl, refl)
    go (t ∷ rest) e = (t, record v { clock = rest }, rw e refl, refl, refl)

claim_run-le :
    (n : ℕ) (v : World)
    → Calm v
    → queued_count v.tables ≤ suc n
    → queued_count (claim_run v).1.tables ≤ n
unfolding claim_run conflicts
claim_run-le n v calm h =
    let (now, v1, e, same, quiet) = now_of v in
    let taken = claimed now (first (λ r. is_queued r.status) v1.tables.runs) in
    let few : queued_count (apply (claim now) v1.tables) ≤ n =
      claim-le now n v1.tables (subst (λ (t : Tables). queued_count t ≤ suc n) (sym same) h) in
    let ran =
      exec-Calm (claim now) (λ t. claimed now (first (λ r. is_queued r.status) t.runs)) v1
        (quiet ∙ calm) refl in
    let tail : Keeps (Few n) (lift (or_no_rows taken) >>= λ row. lift (scan_run row)) =
      search keeps_rules in
    subst (λ (x : Result Run × World). Few n x.1.tables)
      (sym (>>=_of_ok time_now _ v e ∙ >>=_of_ok _ _ v1 ran))
      (tail.at (record v1 { tables = apply (claim now) v1.tables }) few)

module _ (w : Worker) where
  tick-le :
      (n : ℕ) (v : World)
      → Calm v
      → queued_count v.tables ≤ suc n
      → queued_count (tick w v).1.tables ≤ n
  unfolding tick
  tick-le n v calm h =
      then-keep (Few n) claim_run (execute w) v (Few-execute w) (claim_run-le n v calm h)

  -- The loop of `Start`: one tick after the other on the tables that the last one left, each with the disk,
  -- the clock and the failures of the world that is given for it.
  unfoldable pub ticks : List World → Tables → Tables
  ticks [] t = t
  ticks (v ∷ vs) t = ticks vs (tick w (record v { tables = t })).1.tables

  -- The loop empties the queue: after as many ticks as there are queued runs, where no statement and no
  -- operation on files fails, none is queued, whatever the executor answers and however the backups end.
  pub ticks-empties :
      (vs : List World) (t : Tables)
      → All (λ v. v.faults ≡ []) vs
      → queued_count t ≤ length vs
      → queued_count (ticks vs t) ≡ 0
  unfolding ticks
  ticks-empties [] t calm h = omega (arith, h)
  ticks-empties (v ∷ vs) t (calm, rest) h =
      ticks-empties vs (tick w (record v { tables = t })).1.tables rest
        (tick-le (length vs) (record v { tables = t }) calm h)
