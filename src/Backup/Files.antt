-- ===== src/Backup/Files.antt =====
-- What the file operations did when they succeeded, and the places of a disk.
use text.Mathlib.TextPositions.{eq_refl}
use base_guard.Base.{
  String, List, [], ◌∷◌, Option, none, some, not_exist, ok, err, eq_iff, ◌≡◌, ◌≢◌, ◌⊎◌, refl, sym,
  ap, ◌∙◌, arith,
}
use base_guard.Disk.{Disk, Bytes, put_file}
use base_guard.Exec.{World, attempt, after_fault}
use base_guard.Exec.Inversion.{attempt-eq-ok}
use base_guard.Backup.Destination.{
  touch, set_file, found, read_file, create_new, create_file, write_file, move, rename_file,
}

-- The same tables and the same disk.
abbrev pub Same : World → World → Type 0
Same w' w = (w'.tables ≡ w.tables) × (w'.disk ≡ w.disk)

-- The same tables, and a disk on which one file was put or taken away.
abbrev pub Puts : String → String → Option Bytes → World → World → Type 0
Puts root path content w' w = (w'.tables ≡ w.tables) × (w'.disk ≡ put_file root path content w.disk)

pub touch-eq-ok : (w w' : World) {u : Unit {0}} → touch w ≡ (ok u, w') → Same w' w
unfolding touch
touch-eq-ok w w' h = let (v, t, d, e) = attempt-eq-ok _ w h in (cc (t, e), cc (d, e))

module _ (root path : String) where
  found-eq-ok : (o : Option Bytes) {b : Bytes} → found o ≡ ok b → o ≡ some b
  found-eq-ok none h = cc
  found-eq-ok (some c) h = cc h

  pub read_file-eq-ok :
      (w w' : World) {b : Bytes}
      → read_file root path w ≡ (ok b, w')
      → (w.disk.file root path ≡ some b) × Same w' w
  unfolding read_file
  read_file-eq-ok w w' h =
      let (v, t, d, e) = attempt-eq-ok _ w h in
      (
        ap (λ (x : Disk). x.file root path) (sym d)
            ∙ found-eq-ok (v.disk.file root path) (ap (λ x. x.0) e),
        (ap (λ x. x.1.tables) (sym e) ∙ t, ap (λ x. x.1.disk) (sym e) ∙ d),
      )

  found-absent : (o : Option Bytes) → found o ≡ err not_exist → o ≡ none
  found-absent none h = refl
  found-absent (some c) h = cc

  after_fault-absent :
      (fs : List (Option String)) (w : World)
      → (after_fault fs (λ v. (found (v.disk.file root path), v)) w).0 ≡ err not_exist
      → w.disk.file root path ≡ none
  after_fault-absent [] w h = found-absent (w.disk.file root path) h
  after_fault-absent (none ∷ rest) w h = found-absent (w.disk.file root path) h
  after_fault-absent (some why ∷ rest) w h = cc

  -- Only a missing file is reported as missing.
  pub read_file-absent :
      (w : World) → (read_file root path w).0 ≡ err not_exist → w.disk.file root path ≡ none
  unfolding read_file attempt
  read_file-absent w h = after_fault-absent w.faults w h

  after_fault-Same :
      (fs : List (Option String)) (w : World)
      → Same (after_fault fs (λ v. (found (v.disk.file root path), v)) w).1 w
  after_fault-Same [] w = (refl, refl)
  after_fault-Same (none ∷ rest) w = (refl, refl)
  after_fault-Same (some why ∷ rest) w = (refl, refl)

  -- Reading changes nothing, also where it fails.
  pub read_file-Same : (w : World) → Same (read_file root path w).1 w
  unfolding read_file attempt
  read_file-Same w = after_fault-Same w.faults w

  create_new-eq-ok :
      (content : Bytes) (o : Option Bytes) (v : World) {u : Unit {0}} {w' : World}
      → create_new root path content o v ≡ (ok u, w')
      → (o ≡ none) × (w' ≡ set_file root path (some content) v)
  create_new-eq-ok content none v h = (refl, cc h)
  create_new-eq-ok content (some b) v h = cc

  pub create_file-eq-ok :
      (content : Bytes) (w w' : World) {u : Unit {0}}
      → create_file root path content w ≡ (ok u, w')
      → (w.disk.file root path ≡ none) × Puts root path (some content) w' w
  unfolding create_file
  create_file-eq-ok content w w' h =
      let (v, t, d, e) = attempt-eq-ok _ w h in
      let (n, s) = create_new-eq-ok content (v.disk.file root path) v e in
      (
        ap (λ (x : Disk). x.file root path) (sym d) ∙ n,
        (ap (λ x. x.tables) s ∙ t, ap (λ x. x.disk) s ∙ ap (put_file root path (some content)) d),
      )

  pub write_file-eq-ok :
      (content : Bytes) (w w' : World) {u : Unit {0}}
      → write_file root path content w ≡ (ok u, w')
      → Puts root path (some content) w' w
  unfolding write_file
  write_file-eq-ok content w w' h =
      let (v, t, d, e) = attempt-eq-ok _ w h in
      (
        ap (λ x. x.1.tables) (sym e) ∙ t,
        ap (λ x. x.1.disk) (sym e) ∙ ap (put_file root path (some content)) d,
      )

  move-eq-ok :
      (to : String) (o : Option Bytes) (v : World) {u : Unit {0}} {w' : World}
      → move root path to o v ≡ (ok u, w')
      → (b : Bytes) × (o ≡ some b) × (w' ≡ set_file root to (some b) (set_file root path none v))
  move-eq-ok to none v h = cc
  move-eq-ok to (some b) v h = (b, refl, cc h)

  pub rename_file-eq-ok :
      (to : String) (w w' : World) {u : Unit {0}}
      → rename_file root path to w ≡ (ok u, w')
      → (b : Bytes) × (w.disk.file root path ≡ some b)
        × (w'.tables ≡ w.tables)
        × (w'.disk ≡ put_file root to (some b) (put_file root path none w.disk))
  unfolding rename_file
  rename_file-eq-ok to w w' h =
      let (v, t, d, e) = attempt-eq-ok _ w h in
      let (b, f, s) = move-eq-ok to (v.disk.file root path) v e in
      (
        b,
        ap (λ (x : Disk). x.file root path) (sym d) ∙ f,
        ap (λ x. x.tables) s ∙ t,
        ap (λ x. x.disk) s ∙ ap (λ x. put_file root to (some b) (put_file root path none x)) d,
      )

  -- A file that was put is found, and the other places keep theirs.
  pub file-put_file :
      (content : Option Bytes) (d : Disk) → (put_file root path content d).file root path ≡ content
  unfolding put_file
  file-put_file content d = rw (eq_refl root, eq_refl path)

  pub file-put_file_ne :
      (content : Option Bytes) (d : Disk) (r p : String)
      → (r ≢ root) ⊎ (p ≢ path)
      → (put_file root path content d).file r p ≡ d.file r p
  unfolding put_file
  file-put_file_ne content d r p n = ground (arith, eq_iff r root, eq_iff p path, n)
