-- ===== src/Worker/Retention.antt =====
-- What `Retain` leaves: the newest successful runs of a database.
use mathlib.Core.List.{reverse-cons}
use base_guard.Base.{
  ℕ, zero, suc, ◌≤◌, ◌≡◌, refl, sym, ap, subst, ◌∙◌, Bool, true, false, not, ◌&&◌, List, [], ◌∷◌,
  ◌++◌, map, reverse, cons_result, any, select, drop, update_where, ◌==◌, Result, ok, err, collect,
  Bool-cases, inl, inr, if◌then◌else◌, arith,
}
use base_guard.Model.{Database, Run, expired, magnitude}
use base_guard.Store.Tables.{Tables, apply, expire, is_success, rows_matching}
use base_guard.Store.Methods.{scan_run}
use base_guard.Store.Queue.{scan_run-same}
use base_guard.Exec.Steps.{kept}
use base_guard.Exec.{World, lift, query, run, try_io}
use base_guard.Exec.Keeps.{keeps_rules}
use base_guard.Exec.Inversion.{>>=-elim, pure-eq-ok, lift-eq-ok, query-eq-ok, exec-eq-ok}
use base_guard.Backup.Keeps.{Keeps-remove_file, Keeps-open_destination}
use base_guard.Backup.Destination.{open_destination, remove_file}
use base_guard.Worker.Methods.{Worker, tolerate, expire_run, expire_runs, retain}

-- A successful run of the database.
abbrev pub success_of : Database → Run → Bool
success_of d r = r.database_id == d.id && is_success r.status

-- The successful runs of the database beyond the newest that are kept, from the newest to the oldest.
abbrev pub surplus : Database → Tables → List Run
surplus d t = drop (magnitude d.retain) (reverse (select (success_of d) t.runs))

abbrev pub named : List Run → Run → Bool
named rows r = any (λ q. q.id == r.id) rows

-- A run after `rows` expired.
abbrev pub expired_in : List Run → Run → Run
expired_in rows r = if named rows r then record r { status = expired } else r

pub cons_result-eq-ok :
    {A : Type 0} (a : Result A) (b : Result (List A)) (rs : List A)
    → cons_result a b ≡ ok rs
    → (x : A) × (xs : List A) × (a ≡ ok x) × (b ≡ ok xs) × (rs ≡ x ∷ xs)
cons_result-eq-ok (err e) b rs h = cc
cons_result-eq-ok (ok a) (err e) rs h = cc
cons_result-eq-ok (ok a) (ok b) rs h = (a, b, refl, refl, cc h)

pub collect-scan_run : (rows rs : List Run) → collect scan_run rows ≡ ok rs → rs ≡ rows
unfolding collect
collect-scan_run [] rs h = cc h
collect-scan_run (r ∷ rows) rs h =
    let (x, xs, e, f, is) = cons_result-eq-ok (scan_run r) (collect scan_run rows) rs h in
    is ∙ ap (λ y. y ∷ xs) (scan_run-same r x e) ∙ ap (◌∷◌ r) (collect-scan_run rows xs f)

expire_all : List Run → List Run → List Run
expire_all [] rs = rs
expire_all (r ∷ rows) rs =
    expire_all rows (update_where (λ q. q.id == r.id) (λ q. record q { status = expired }) rs)

update-head :
    (r : Run) (rows : List Run) (q : Run)
    → expired_in rows (if q.id == r.id then record q { status = expired } else q)
      ≡ expired_in (r ∷ rows) q
update-head r rows q = elim (Bool-cases (q.id == r.id)) [
  | inl t ↦
      let other : (r.id == q.id) ≡ true = ground arith in
      elim (Bool-cases (named rows q)) [
        | inl n ↦ rw (t, other, n) refl
        | inr n ↦ rw (t, other, n) refl
      ]
  | inr t ↦ let other : (r.id == q.id) ≡ false = ground arith in rw (t, other) refl
]

update-map :
    (r : Run) (rows rs : List Run)
    → map
        (expired_in rows)
        (update_where (λ q. q.id == r.id) (λ q. record q { status = expired }) rs)
      ≡ map (expired_in (r ∷ rows)) rs
update-map r rows [] = refl
update-map r rows (q ∷ rs) =
    ap
      (λ x.
        x
        ∷ map (expired_in rows)
            (update_where (λ y. y.id == r.id) (λ y. record y { status = expired }) rs))
      (update-head r rows q)
    ∙ ap (◌∷◌ (expired_in (r ∷ rows) q)) (update-map r rows rs)

expire_all-map : (rows rs : List Run) → expire_all rows rs ≡ map (expired_in rows) rs
unfolding expire_all
expire_all-map [] [] = refl
expire_all-map [] (r ∷ rs) = ap (◌∷◌ r) (expire_all-map [] rs)
expire_all-map (r ∷ rows) rs = expire_all-map rows _ ∙ update-map r rows rs

-- Counting.
module _ {A : Type 0} (q : A → Bool) where
  count-append : (xs : List A) (x : A) → rows_matching q (xs ++ x ∷ []) ≡ rows_matching q (x ∷ xs)
  count-append [] x = refl
  count-append (y ∷ xs) x = ground (arith, count-append xs x)

  pub count-reverse : (xs : List A) → rows_matching q (reverse xs) ≡ rows_matching q xs
  count-reverse [] = refl
  count-reverse (x ∷ xs) =
      ap (rows_matching q) (reverse-cons x xs)
      ∙ count-append (reverse xs) x
      ∙ elim (Bool-cases (q x)) [
        | inl t ↦ rw t (ap suc (count-reverse xs))
        | inr t ↦ rw t (count-reverse xs)
      ]

  count-drop : (n : ℕ) (xs : List A) → rows_matching q (drop n xs) ≡ 0 → rows_matching q xs ≤ n
  count-drop zero xs h = omega (arith, h)
  count-drop (suc n) [] h = omega arith
  count-drop (suc n) (x ∷ xs) h = ground (arith, count-drop n xs h)

-- The successful runs that do not expire are the only ones left.
left-le :
    (d : Database) (rows rs : List Run)
    → rows_matching (success_of d) (map (expired_in rows) rs)
      ≤ rows_matching (λ r. not (named rows r)) (select (success_of d) rs)
left-le d rows [] = omega arith
left-le d rows (r ∷ rs) = elim (Bool-cases (named rows r)) [
  | inl n ↦
      let gone : success_of d (record r { status = expired }) ≡ false = ground arith in
      elim (Bool-cases (success_of d r)) [
        | inl t ↦ rw (n, gone, t, n) (left-le d rows rs)
        | inr t ↦ rw (n, gone, t) (left-le d rows rs)
      ]
  | inr n ↦ elim (Bool-cases (success_of d r)) [
    | inl t ↦ rw (n, t, n) (let h = left-le d rows rs in omega (arith, h))
    | inr t ↦ rw (n, t) (left-le d rows rs)
  ]
]

none_left :
    (rows xs : List Run)
    → ((r : Run) → named xs r ≡ true → named rows r ≡ true)
    → rows_matching (λ r. not (named rows r)) xs ≡ 0
none_left rows [] h = refl
none_left rows (x ∷ xs) h =
    let here : named rows x ≡ true = h x (ground arith) in
    rw here (none_left rows xs λ r n. h r (ground arith))

module _ (w : Worker) where
  expire_run-eq-ok :
      (r : Run) (v v' : World)
      → expire_run w r v ≡ (ok tt, v')
      → v'.tables ≡ apply (expire r.id) v.tables
  unfolding expire_run run
  expire_run-eq-ok r v v' h =
      >>=-elim (open_destination w.destinations r.destination) _ v h λ root w1 e1 k1.
        >>=-elim (try_io (remove_file root r.path)) _ w1 k1 λ gone w2 e2 k2.
          >>=-elim (lift (tolerate w gone)) _ w2 k2 λ u w3 e3 k3.
            let (_, t, _) = exec-eq-ok (expire r.id) _ w3 k3 in
            let t3 : w3.tables ≡ v.tables =
              ap (λ (x : World). x.tables) ((lift-eq-ok (tolerate w gone) w2 e3).1)
              ∙ kept (try_io (remove_file root r.path)) w1 w2
                  (search (keeps_rules, Keeps-remove_file)) e2
              ∙ kept (open_destination w.destinations r.destination) v w1
                  (Keeps-open_destination w.destinations r.destination) e1 in
            t ∙ ap (apply (expire r.id)) t3

  expire_runs-eq-ok :
      (rows : List Run) (v v' : World)
      → expire_runs w rows v ≡ (ok tt, v')
      → v'.tables ≡ record v.tables { runs = expire_all rows v.tables.runs }
  unfolding expire_runs expire_all apply
  expire_runs-eq-ok [] v v' h = ap (λ (x : World). x.tables) ((pure-eq-ok (tt {0}) v h).1)
  expire_runs-eq-ok (r ∷ rows) v v' h = >>=-elim (expire_run w r) _ v h λ u w1 e1 k1.
      expire_runs-eq-ok rows w1 v' k1
      ∙ ap (λ (t : Tables). record t { runs = expire_all rows t.runs }) (expire_run-eq-ok r v w1 e1)

  -- A retention that succeeds, whatever fails underneath it: the successful runs of the database beyond the
  -- newest `retain` have expired, every other run and every other table is as before, and at most `retain`
  -- runs of the database are still successful.
  pub retain-le :
      (d : Database) (v v' : World)
      → retain w d v ≡ (ok tt, v')
      → (v'.tables ≡ record v.tables { runs = map (expired_in (surplus d v.tables)) v.tables.runs })
        × (rows_matching (success_of d) v'.tables.runs ≤ magnitude d.retain)
  unfolding retain
  retain-le d v v' h = >>=-elim (query (surplus d)) _ v h λ rows w1 e1 k1.
      >>=-elim (lift (collect scan_run rows)) _ w1 k1 λ rs w2 e2 k2.
        let (is, t1, _) = query-eq-ok (surplus d) v e1 in
        let (all, x2) = lift-eq-ok (collect scan_run rows) w1 e2 in
        let same : rs ≡ surplus d v.tables = collect-scan_run rows rs all ∙ is in
        let t2 : w2.tables ≡ v.tables = ap (λ (x : World). x.tables) x2 ∙ t1 in
        let after : v'.tables
            ≡ record v.tables { runs = map (expired_in (surplus d v.tables)) v.tables.runs } =
          expire_runs-eq-ok rs w2 v' k2
          ∙ ap (λ (t : Tables). record t { runs = expire_all rs t.runs }) t2
          ∙ ap (λ xs. record v.tables { runs = xs })
              (expire_all-map rs v.tables.runs
                ∙ ap (λ xs. map (expired_in xs) v.tables.runs) same) in
        let rows' = surplus d v.tables in
        let few : rows_matching (λ r. not (named rows' r)) (select (success_of d) v.tables.runs)
            ≤ magnitude d.retain =
          subst (λ n. n ≤ magnitude d.retain)
            (count-reverse (λ r. not (named rows' r)) (select (success_of d) v.tables.runs))
            (count-drop (λ r. not (named rows' r)) (magnitude d.retain)
              (reverse (select (success_of d) v.tables.runs)) (none_left rows' rows' λ r n. n)) in
        (
          after,
          subst (λ (t : Tables). rows_matching (success_of d) t.runs ≤ magnitude d.retain)
              (sym after) (omega (arith, left-le d rows' v.tables.runs, few)),
        )
