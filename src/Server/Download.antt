-- ===== src/Server/Download.antt =====
-- What `download` serves.
use base_guard.Base.{
  ℕ, ◌≡◌, refl, sym, ap, ◌∙◌, subst, String, true, List, [], ◌∷◌, Option, none, some, first, length,
  ◌==◌, Result, ok, err, Bool-cases, inl, inr,
}
use base_guard.Disk.{Disk, Bytes}
use base_guard.Model.{Run}
use base_guard.Store.Tables.{Tables, is_success}
use base_guard.Store.Methods.{run_by_id, or_no_rows, scan_run}
use base_guard.Store.Queue.{scan_run-same}
use base_guard.Backup.Destination.{lookup, read_file, open_destination}
use base_guard.Backup.Files.{Same, read_file-eq-ok}
use base_guard.Backup.Marker.{open_destination-marked}
use base_guard.Store.Invariant.{IsSound}
use base_guard.Exec.{World, pure, query, lift, try_io, ◌>>=◌}
use base_guard.Exec.Inversion.{>>=-elim, query-eq-ok, lift-eq-ok, pure-eq-ok, try_io-eq-ok}
use base_guard.Exec.Keeps.{Keeps, keeps_rules}
use base_guard.Exec.Ends.{Dry, dry_rules}
use base_guard.Backup.Elsewhere.{Dry-open_destination}
use base_guard.Worker.Methods.{Worker}
use base_guard.Server.Panel.{
  content, not_found, refused, download_file, download_from, download_run, download,
}
use base_guard.Worker.Intact.{IsFiled, Files, Fits}
use base_guard.Server.History.{Call, after}
use base_guard.Server.Intact.{after-Files}

Dry-run_by_id : (id : ℕ) → Dry (run_by_id id)
unfolding run_by_id
Dry-run_by_id id = search dry_rules

Keeps-run_by_id : (P : Tables → Type 0) (id : ℕ) → Keeps P (run_by_id id)
unfolding run_by_id
Keeps-run_by_id P id = search keeps_rules

-- What the panel serves of a world whose files are intact.
module _ (w : Worker) where
  first-IsFiled :
      (k : Disk) (id : ℕ) (rs : List Run) (q : Run)
      → first (λ r. r.id == id) rs ≡ some q
      → Files w rs k
      → IsFiled w k q
  first-IsFiled k id [] q e h = cc e
  first-IsFiled k id (r ∷ rs) q e (h, hs) = elim (Bool-cases (r.id == id)) [
    | inl t ↦ let same : some r ≡ some q = rw t at e in subst (IsFiled w k) (some_of same) h
    | inr t ↦ first-IsFiled k id rs q (rw t at e) hs
  ]
    where
      some_of : {x y : Run} → some x ≡ some y → x ≡ y
      some_of k = cc k

  or_no_rows-eq-ok : (o : Option Run) (r : Run) → or_no_rows o ≡ ok r → o ≡ some r
  or_no_rows-eq-ok none r h = cc h
  or_no_rows-eq-ok (some q) r h = cc h

  run_by_id-eq-ok :
      (id : ℕ) (v v' : World) (q : Run)
      → run_by_id id v ≡ (ok q, v')
      → (first (λ r. r.id == id) v.tables.runs ≡ some q) × Same v' v
  unfolding run_by_id
  run_by_id-eq-ok id v v' q h =
      >>=-elim (query (λ t. first (λ r. r.id == id) t.runs)) _ v h λ o v1 e1 k1.
        >>=-elim (lift (or_no_rows o)) _ v1 k1 λ row v2 e2 k2.
          let (is, t, d) = query-eq-ok _ v e1 in
          let (found, x2) = lift-eq-ok (or_no_rows o) v1 e2 in
          let (scan, x3) = lift-eq-ok (scan_run row) v2 k2 in
          (
            sym is ∙ or_no_rows-eq-ok o row found ∙ ap some (sym (scan_run-same row q scan)),
            (
              ap (λ (x : World). x.tables) x3 ∙ ap (λ (x : World). x.tables) x2 ∙ t,
              ap (λ (x : World). x.disk) x3 ∙ ap (λ (x : World). x.disk) x2 ∙ d,
            ),
          )

  download_from-whole :
      (q : Run) (r : Result String) (v v' : World) (b : Bytes) (sum : String)
      → ((root : String) → r ≡ ok root → lookup q.destination w.destinations ≡ some root)
      → IsFiled w v.disk q
      → is_success q.status ≡ true
      → download_from w q r v ≡ (ok (content b sum), v')
      → (w.digest b ≡ sum) × (length b ≡ q.size)
  download_from-whole q (err e) v v' b sum l h s k =
      let (is, _) = pure-eq-ok (refused 503 "Destino indisponível") v k in cc is
  download_from-whole q (ok root) v v' b sum l h s k =
      >>=-elim (try_io (read_file root q.path)) _ v k λ r v1 e1 k1.
        let (is, _) = pure-eq-ok (download_file w q r) v1 k1 in
        let (got, named) = served r is in
        let (there, _) =
          read_file-eq-ok root q.path v v1 (
            try_io-eq-ok (read_file root q.path) v v1 e1
            ∙ ap (λ (x : Result Bytes). (x, v1)) got) in
        let fits : Fits w (some b) q = subst (λ o. Fits w o q) there ((h s).1 root (l root refl)) in
        (fits.1 ∙ sym named, fits.0)
    where
      served :
          (r : Result Bytes) → content b sum ≡ download_file w q r → (r ≡ ok b) × (sum ≡ q.sha256)
      served (err e) x = cc x
      served (ok c) x = (cc x, cc x)

  download_run-whole :
      (id : ℕ) (r : Result Run) (v v' : World) (b : Bytes) (sum : String)
      → ((q : Run) → r ≡ ok q → first (λ x. x.id == id) v.tables.runs ≡ some q)
      → Files w v.tables.runs v.disk
      → download_run w r v ≡ (ok (content b sum), v')
      → (q : Run) × (first (λ x. x.id == id) v.tables.runs ≡ some q)
        × (is_success q.status ≡ true)
        × (sum ≡ w.digest b)
        × (q.size ≡ length b)
  download_run-whole id (err e) v v' b sum found h k =
      let (is, _) = pure-eq-ok not_found v k in cc is
  download_run-whole id (ok q) v v' b sum found h k = elim (Bool-cases (is_success q.status)) [
    | inr f ↦
        let k' : pure not_found v ≡ (ok (content b sum), v') = rw f at k in
        let (is, _) = pure-eq-ok not_found v k' in cc is
    | inl s ↦
        let k' : (try_io (open_destination w.destinations q.destination) >>= download_from w q) v
            ≡ (ok (content b sum), v') =
          rw s at k in
        >>=-elim (try_io (open_destination w.destinations q.destination)) _ v k' λ r v1 e1 k1.
          let opens = try_io-eq-ok (open_destination w.destinations q.destination) v v1 e1 in
          let same : v1.disk ≡ v.disk =
            ap (λ x. x.1.disk) (sym opens)
            ∙ (Dry-open_destination w.destinations q.destination).at v in
          let filed =
            subst (λ (x : Disk). IsFiled w x q) (sym same)
              (first-IsFiled v.disk id v.tables.runs q (found q refl) h) in
          let (sums, sizes) =
            download_from-whole q r v1 v' b sum
              (λ root e.
                (open_destination-marked w.destinations q.destination root v v1
                  (opens ∙ ap (λ (x : Result String). (x, v1)) e)).0)
              filed s k1 in
          (q, found q refl, s, sym sums, sym sizes)
  ]

  -- A download that serves a file, under any faults, after any list of calls as in `after-Files` from sound tables
  -- with intact files, as there: the file is of a run of that id that is successful, the checksum that is sent with
  -- it is its digest, and it has the size that was recorded when the backup ended.
  pub download-whole :
      (cs : List Call) (u v' : World) (id : ℕ) (b : Bytes) (sum : String)
      → IsSound u.tables
      → Files w u.tables.runs u.disk
      → download w id (after w cs u) ≡ (ok (content b sum), v')
      → (q : Run) × (first (λ x. x.id == id) (after w cs u).tables.runs ≡ some q)
        × (is_success q.status ≡ true)
        × (sum ≡ w.digest b)
        × (q.size ≡ length b)
  unfolding download
  download-whole cs u v' id b sum sound h k =
      let v = after w cs u in
      >>=-elim (try_io (run_by_id id)) _ v k λ r v1 e1 k1.
        let reads = try_io-eq-ok (run_by_id id) v v1 e1 in
        let t : v1.tables ≡ v.tables =
          ap (λ x. x.1.tables) (sym reads) ∙ (Keeps-run_by_id (λ t. t ≡ v.tables) id).at v refl in
        let d : v1.disk ≡ v.disk = ap (λ x. x.1.disk) (sym reads) ∙ (Dry-run_by_id id).at v in
        let files : Files w v1.tables.runs v1.disk =
          subst (λ (x : Tables). Files w x.runs v1.disk) (sym t)
            (subst (λ (x : Disk). Files w v.tables.runs x) (sym d) (after-Files w cs u sound h)) in
        let (q, found, s, sums, sizes) =
          download_run-whole id r v1 v' b sum
            (λ q e.
              ap (λ (x : Tables). first (λ y. y.id == id) x.runs) t
              ∙ (run_by_id-eq-ok id v v1 q (reads ∙ ap (λ (x : Result Run). (x, v1)) e)).0)
            files k1 in
        (q, sym (ap (λ (x : Tables). first (λ y. y.id == id) x.runs) t) ∙ found, s, sums, sizes)
