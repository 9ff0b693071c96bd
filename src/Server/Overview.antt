-- ===== src/Server/Overview.antt =====
-- The counts of the panel.
use base_guard.Base.{
  ℕ, zero, suc, ◌+◌, ◌≤◌, ◌≡◌, refl, sym, ap, subst, ◌∙◌, String, true, false, ◌&&◌, List, [], ◌∷◌,
  reverse, take, length, Result, ok, err, collect, Bool-cases, inl, inr, arith,
}
use base_guard.Disk.{Bytes}
use base_guard.Model.{
  Database, Run, Status, queued, running, success, failed, interrupted, expired, Json, json,
  malformed,
}
use base_guard.Security.{Cipher, decrypt}
use base_guard.Store.Tables.{Tables, DatabaseRow, is_success, rows_matching}
use base_guard.Store.Methods.{load_row, load_config, with_row, databases, runs}
use base_guard.Exec.{World, query}
use base_guard.Exec.Inversion.{>>=-elim, pure-eq-ok, lift-eq-ok, query-eq-ok}
use base_guard.Worker.Methods.{Worker}
use base_guard.Worker.Retention.{collect-scan_run, cons_result-eq-ok, count-reverse}
use base_guard.Server.Pages.{Dashboard, has_failed, overview, overview_now}

apart : (s : Status) → (is_success s && has_failed s) ≡ false
apart queued = refl
apart running = refl
apart success = refl
apart failed = refl
apart interrupted = refl
apart expired = refl

counts-le :
    (rs : List Run)
    → rows_matching (λ r. is_success r.status) rs + rows_matching (λ r. has_failed r.status) rs
      ≤ length rs
counts-le [] = omega arith
counts-le (r ∷ rs) = ground (arith, apart r.status, counts-le rs)

length-take : (n : ℕ) (xs : List Run) → length (take n xs) ≤ n
length-take zero xs = omega arith
length-take (suc n) [] = omega arith
length-take (suc n) (x ∷ xs) = omega (arith, length-take n xs)

count-all : {A : Type 0} (xs : List A) → rows_matching (λ _. true) xs ≡ length xs
count-all [] = refl
count-all (x ∷ xs) = omega (arith, count-all xs)

length-reverse : {A : Type 0} (xs : List A) → length (reverse xs) ≡ length xs
length-reverse xs = sym (count-all (reverse xs)) ∙ count-reverse (λ _. true) xs ∙ count-all xs

module _ (c : Cipher) (key : Bytes) where
  with_row-enabled :
      (row : DatabaseRow) (d d' : Database) (r : Result String)
      → with_row c key row d r ≡ ok d'
      → d'.enabled ≡ row.enabled
  unfolding with_row
  with_row-enabled row d d' (ok p) h =
      let is : record d {
        id = row.id;
        next_run = row.next_run;
        enabled = row.enabled;
        password = p;
      }
          ≡ d' =
        cc h in
      ap (λ (x : Database). x.enabled) (sym is)
  with_row-enabled row d d' (err e) h = cc h

  load_config-enabled :
      (row : DatabaseRow) (j : Json Database) (d : Database)
      → load_config c key row j ≡ ok d
      → d.enabled ≡ row.enabled
  unfolding load_config
  load_config-enabled row (json d) d' h = with_row-enabled row d d' (decrypt c key d.password) h
  load_config-enabled row (malformed s) d' h = cc h

  collect-counts :
      (rows : List DatabaseRow) (ds : List Database)
      → collect (load_row c key) rows ≡ ok ds
      → (length ds ≡ length rows)
        × (rows_matching (λ d. d.enabled) ds ≡ rows_matching (λ r. r.enabled) rows)
  unfolding collect load_row
  collect-counts [] ds h =
      let is : [] ≡ ds = cc h in (ap length (sym is), ap (rows_matching (λ d. d.enabled)) (sym is))
  collect-counts (row ∷ rows) ds h =
      let (x, xs, e, f, is) =
        cons_result-eq-ok (load_row c key row) (collect (load_row c key) rows) ds h in
      let (n, k) = collect-counts rows xs f in
      let same : x.enabled ≡ row.enabled = load_config-enabled row row.config x e in
      (
        ap length is ∙ ap suc n,
        ap (rows_matching (λ d. d.enabled)) is ∙ elim (Bool-cases row.enabled) [
          | inl t ↦ rw (same ∙ t, t) (ap suc k)
          | inr t ↦ rw (same ∙ t, t) k
        ],
      )

-- Where the panel is shown, it counts the databases that are stored and those of them that are enabled, and
-- the runs that it counts as successful and as failed are among those it lists, at most 200.
pub overview_now-counts :
    (w : Worker) (csrf flash : String) (v v' : World) (d : Dashboard)
    → overview_now w csrf flash v ≡ (ok d, v')
    → (d.total ≡ length v.tables.databases)
      × (d.active ≡ rows_matching (λ r. r.enabled) v.tables.databases)
      × (d.success + d.failed ≤ length d.runs)
      × (length d.runs ≤ 200)
unfolding overview_now databases runs
overview_now-counts w csrf flash v v' d h = >>=-elim (databases w.cipher w.key) _ v h λ ds w1 e1 k1.
    >>=-elim (query (λ t. reverse t.databases)) _ v e1 λ rows x1 f1 g1.
      >>=-elim runs _ w1 k1 λ rs w2 e2 k2.
        >>=-elim (query (λ t. take 200 (reverse t.runs))) _ w1 e2 λ recent y1 f2 g2.
          let (all, _, _) = query-eq-ok (λ (t : Tables). reverse t.databases) v f1 in
          let (n, k) = collect-counts w.cipher w.key rows ds ((lift-eq-ok _ x1 g1).0) in
          let (some, _, _) = query-eq-ok (λ (t : Tables). take 200 (reverse t.runs)) w1 f2 in
          let listed : rs ≡ recent = collect-scan_run recent rs ((lift-eq-ok _ y1 g2).0) in
          let is : d ≡ overview w csrf flash ds rs = (pure-eq-ok _ w2 k2).0 in
          let few : length rs ≤ 200 =
            subst (λ xs. length xs ≤ 200) (sym (listed ∙ some))
              (length-take 200 (reverse w1.tables.runs)) in
          subst
            (λ (x : Dashboard).
              (x.total ≡ length v.tables.databases)
              × (x.active ≡ rows_matching (λ r. r.enabled) v.tables.databases)
              × (x.success + x.failed ≤ length x.runs)
              × (length x.runs ≤ 200))
            (sym is)
            (
              n ∙ ap length all ∙ length-reverse v.tables.databases,
              k
                  ∙ ap (rows_matching (λ (r : DatabaseRow). r.enabled)) all
                  ∙ count-reverse (λ (r : DatabaseRow). r.enabled) v.tables.databases,
              counts-le rs,
              few,
            )
