-- ===== src/Backup/Stored.antt =====
-- What a backup that succeeded left on the disk.
use Prim.Native.String.{len}
use text.Mathlib.TextPositions.{len-append}
use base_guard.Base.{
  ℕ, ◌<◌, String, [], ◌∷◌, Option, none, some, length, Error, not_exist, no_rows, Result, ok, err,
  ◌≡◌, ◌≢◌, ◌⊎◌, refl, sym, ap, subst, ◌∙◌, inl, inr, arith, failure,
}
use base_guard.Disk.{Disk, Bytes, put_file}
use base_guard.Model.{Database}
use base_guard.Exec.{World, Io, lift, try_io}
use base_guard.Exec.Inversion.{pure-eq-ok, lift-eq-ok, >>=-elim, try_io-eq-ok}
use base_guard.Backup.Destination.{touch, read_file, create_file, write_file, rename_file}
use base_guard.Backup.Write.{
  Executor, partial_of, is_absent, ended, not_empty, after_failure, or_remove, sync_directory,
  fill_backup, write_backup,
}
use base_guard.Backup.Files.{
  Same, Puts, touch-eq-ok, read_file-eq-ok, read_file-absent, read_file-Same, create_file-eq-ok,
  write_file-eq-ok, rename_file-eq-ok, file-put_file, file-put_file_ne,
}

Same-trans : (u v w : World) → Same u v → Same v w → Same u w
Same-trans u v w (a, b) (c, d) = (a ∙ c, b ∙ d)

sync_directory-eq-ok : (w w' : World) {u : Unit {0}} → sync_directory w ≡ (ok u, w') → Same w' w
unfolding sync_directory
sync_directory-eq-ok w w' h = >>=-elim touch _ w h λ u1 w1 e1 k1.
    >>=-elim (try_io touch) _ w1 k1 λ r2 w2 e2 k2. >>=-elim (try_io touch) _ w2 k2 λ r3 w3 e3 k3.
      >>=-elim (lift r2) _ w3 k3 λ u4 w4 e4 k4.
        let (s2, x4) = lift-eq-ok r2 w3 e4 in
        let (s3, x5) = lift-eq-ok r3 w4 k4 in
        let t1 = touch-eq-ok w w1 e1 in
        let t2 = touch-eq-ok w1 w2 (try_io-eq-ok touch w1 w2 e2 ∙ ap (λ r. (r, w2)) s2) in
        let t3 = touch-eq-ok w2 w3 (try_io-eq-ok touch w2 w3 e3 ∙ ap (λ r. (r, w3)) s3) in
        let back : w' ≡ w3 = x5 ∙ x4 in
        (ap (λ x. x.tables) back ∙ t3.0 ∙ t2.0 ∙ t1.0, ap (λ x. x.disk) back ∙ t3.1 ∙ t2.1 ∙ t1.1)

-- The partial file is another file.
partial_of-ne : (path : String) → partial_of path ≢ path
partial_of-ne path e = omega (arith, ap len e, len-append path ".partial")

ended-eq-ok : (end : Option Error) → ended end ≡ ok tt → end ≡ none
ended-eq-ok none h = refl
ended-eq-ok (some e) h = cc

not_empty-eq-ok : (b : Bytes) → not_empty b ≡ ok tt → 0 < length b
not_empty-eq-ok [] h = cc
not_empty-eq-ok (x ∷ b) h = omega arith

module _ (digest : Bytes → String) (root path : String) where
  -- The disk at the end: the partial file is gone and the file holds what it held.
  abbrev Renamed : Bytes → World → World → Type 0
  Renamed b w' w =
      (w'.tables ≡ w.tables)
      × (w'.disk
          ≡ put_file root path (some b) (
              put_file root (partial_of path) none
                (put_file root (partial_of path) (some b) w.disk)))

  abbrev Filled : Bytes → Option Error → ℕ → String → World → World → Type 0
  Filled bytes end size sum w' w =
      (end ≡ none)
      × (0 < length bytes)
      × (size ≡ length bytes)
      × (sum ≡ digest bytes)
      × Renamed bytes w' w

  -- The facts about the steps, put together.
  chained :
      (bytes : Bytes) (end : Option Error) (w w1 w2 w3 w4 w6 w7 w8 w' : World) (written : Bytes)
      {size : ℕ} {sum : String}
      → Puts root (partial_of path) (some bytes) w1 w
      → (ended end ≡ ok tt) × (w2 ≡ w1)
      → (w2.disk.file root (partial_of path) ≡ some written) × Same w3 w2
      → (not_empty written ≡ ok tt) × (w4 ≡ w3)
      → Same w6 w4
      → (b : Bytes) × (w6.disk.file root (partial_of path) ≡ some b)
        × (w7.tables ≡ w6.tables)
        × (w7.disk ≡ put_file root path (some b) (put_file root (partial_of path) none w6.disk))
      → Same w8 w7
      → (◌≡◌ {A = ℕ × String} (size, sum) (length written, digest bytes)) × (w' ≡ w8)
      → Filled bytes end size sum w' w
  chained bytes end w w1 w2 w3 w4 w6 w7 w8 w' written (t1, d1) (e2, x2) (f3, (t3, d3)) (e4, x4)
        (t6, d6) (b, f7, t7, d7) (t8, d8) (e8, x8) =
      let part = partial_of path in
      let disk2 : w2.disk ≡ put_file root part (some bytes) w.disk = ap (λ x. x.disk) x2 ∙ d1 in
      let disk6 : w6.disk ≡ put_file root part (some bytes) w.disk =
        d6 ∙ ap (λ x. x.disk) x4 ∙ d3 ∙ disk2 in
      let at2 : some written ≡ some bytes =
        sym f3
        ∙ ap (λ (x : Disk). x.file root part) disk2
        ∙ file-put_file root part (some bytes) w.disk in
      let at6 : some b ≡ some bytes =
        sym f7
        ∙ ap (λ (x : Disk). x.file root part) disk6
        ∙ file-put_file root part (some bytes) w.disk in
      let got : written ≡ bytes = cc at2 in
      let moved : b ≡ bytes = cc at6 in
      (
        ended-eq-ok end e2,
        subst (λ x. 0 < length x) got (not_empty-eq-ok written e4),
        ap (λ x. x.0) e8 ∙ ap length got,
        ap (λ x. x.1) e8,
        (
          ap (λ x. x.tables) x8
              ∙ t8
              ∙ t7
              ∙ t6
              ∙ ap (λ x. x.tables) x4
              ∙ t3
              ∙ ap (λ x. x.tables) x2
              ∙ t1,
          ap (λ x. x.disk) x8
              ∙ d8
              ∙ d7
              ∙ ap (λ c. put_file root path (some c) (put_file root part none w6.disk)) moved
              ∙ ap (λ x. put_file root path (some bytes) (put_file root part none x)) disk6,
        ),
      )

  fill_backup-Renamed :
      (bytes : Bytes) (end : Option Error) (w w' : World) (size : ℕ) (sum : String)
      → fill_backup digest root path (bytes, end) w ≡ (ok (size, sum), w')
      → Filled bytes end size sum w' w
  unfolding fill_backup
  fill_backup-Renamed bytes end w w' size sum h =
      let part = partial_of path in
      >>=-elim (write_file root part bytes) _ w h λ u1 w1 e1 k1.
        >>=-elim (lift (ended end)) _ w1 k1 λ u2 w2 e2 k2.
          >>=-elim (read_file root part) _ w2 k2 λ written w3 e3 k3.
            >>=-elim (lift (not_empty written)) _ w3 k3 λ u4 w4 e4 k4.
              >>=-elim touch _ w4 k4 λ u5 w5 e5 k5. >>=-elim touch _ w5 k5 λ u6 w6 e6 k6.
                >>=-elim (rename_file root part path) _ w6 k6 λ u7 w7 e7 k7.
                  >>=-elim sync_directory _ w7 k7 λ u8 w8 e8 k8.
                    let p1 = write_file-eq-ok root part bytes w w1 e1 in
                    let p2 = lift-eq-ok (ended end) w1 e2 in
                    let p3 = read_file-eq-ok root part w2 w3 e3 in
                    let p4 = lift-eq-ok (not_empty written) w3 e4 in
                    let p7 = rename_file-eq-ok root part path w6 w7 e7 in
                    let p8 = pure-eq-ok _ w8 k8 in
                    chained bytes end w w1 w2 w3 w4 w6 w7 w8 w' written p1 p2 p3 p4
                      (Same-trans w6 w5 w4 (touch-eq-ok w5 w6 e6) (touch-eq-ok w4 w5 e5)) p7
                      (sync_directory-eq-ok w7 w8 e8) p8

is_absent-eq-ok : (r : Result Bytes) → is_absent r ≡ ok tt → r ≡ err not_exist
is_absent-eq-ok (err not_exist) h = refl
is_absent-eq-ok (err no_rows) h = cc
is_absent-eq-ok (err (failure s)) h = cc
is_absent-eq-ok (ok b) h = cc

after_failure-eq-ok :
    {A : Type 0} (root part : String) (r : Result A) (w : World) {a : A} {w' : World}
    → after_failure root part r w ≡ (ok a, w')
    → ◌≡◌ {A = Result A × World} (r, w) (ok a, w')
after_failure-eq-ok root part (ok b) w h = h
after_failure-eq-ok root part (err e) w h = cc

or_remove-eq-ok :
    {A : Type 0} (root part : String) (m : Io A) (w : World) {a : A} {w' : World}
    → or_remove root part m w ≡ (ok a, w')
    → m w ≡ (ok a, w')
unfolding or_remove
or_remove-eq-ok root part m w h = after_failure-eq-ok root part (m w).0 (m w).1 h

-- The disk after a backup: the file holds the dump, the partial file is gone, and every other file
-- is what it was.
pub record IsStored (root path : String) (bytes : Bytes) (before after : Disk) : Type 0 where
  pub fresh : before.file root path ≡ none
  pub kept : after.file root path ≡ some bytes
  pub clean : after.file root (partial_of path) ≡ none
  pub others :
      (r p : String)
      → (r ≢ root) ⊎ ((p ≢ path) × (p ≢ partial_of path))
      → after.file r p ≡ before.file r p

module _ (root path : String) (bytes : Bytes) (before : Disk) where
  after_rename : Disk
  after_rename = put_file root path (some bytes) (
      put_file root (partial_of path) none (
        put_file root (partial_of path) (some bytes)
          (put_file root (partial_of path) (some []) before)))

  after_rename-IsStored :
      before.file root path ≡ none → IsStored root path bytes before after_rename
  unfolding after_rename
  after_rename-IsStored f =
      let part = partial_of path in
      record {
        fresh = f;
        kept = file-put_file root path (some bytes) _;
        clean =
            file-put_file_ne root path (some bytes) _ root part (inr (partial_of-ne path))
            ∙ file-put_file root part none _;
        others = λ r p n.
            file-put_file_ne root path _ _ r p (off_path r p n)
            ∙ file-put_file_ne root part _ _ r p (off_part r p n)
            ∙ file-put_file_ne root part _ _ r p (off_part r p n)
            ∙ file-put_file_ne root part _ _ r p (off_part r p n);
      }
    where
      off_path :
          (r p : String)
          → (r ≢ root) ⊎ ((p ≢ path) × (p ≢ partial_of path))
          → (r ≢ root) ⊎ (p ≢ path)
      off_path r p (inl n) = inl n
      off_path r p (inr n) = inr n.0

      off_part :
          (r p : String)
          → (r ≢ root) ⊎ ((p ≢ path) × (p ≢ partial_of path))
          → (r ≢ root) ⊎ (p ≢ partial_of path)
      off_part r p (inl n) = inl n
      off_part r p (inr n) = inr n.1

module _ (digest : Bytes → String) (root path : String) (d : Database) (ex : Executor) where
  -- A backup that is reported as done, under any faults: the dump ended without an error and wrote
  -- something, its length and digest are what is reported, the tables are as they were, and the disk
  -- holds the whole dump under a name that was free, with no partial file.
  pub write_backup-IsStored :
      (w w' : World) (size : ℕ) (sum : String)
      → write_backup digest root path d ex w ≡ (ok (size, sum), w')
      → ((ex.dump d).1 ≡ none)
        × (0 < length (ex.dump d).0)
        × (size ≡ length (ex.dump d).0)
        × (sum ≡ digest (ex.dump d).0)
        × (w'.tables ≡ w.tables)
        × IsStored root path (ex.dump d).0 w.disk w'.disk
  unfolding write_backup after_rename
  write_backup-IsStored w w' size sum h =
      let part = partial_of path in
      let (bytes, end) = ex.dump d in
      >>=-elim (try_io (read_file root path)) _ w h λ there w1 e1 k1.
        >>=-elim (lift (is_absent there)) _ w1 k1 λ u2 w2 e2 k2.
          >>=-elim (create_file root part []) _ w2 k2 λ u3 w3 e3 k3.
            let (s2, x2) = lift-eq-ok (is_absent there) w1 e2 in
            let read = try_io-eq-ok (read_file root path) w w1 e1 in
            let absent =
              read_file-absent root path w (ap (λ r. r.0) read ∙ is_absent-eq-ok there s2) in
            let same =
              subst (λ (r : Result Bytes × World). Same r.1 w) read (read_file-Same root path w) in
            let (_, (t3, d3)) = create_file-eq-ok root part [] w2 w3 e3 in
            let filled =
              fill_backup-Renamed digest root path bytes end w3 w' size sum
                (or_remove-eq-ok root part _ w3 k3) in
            let before : w3.disk ≡ put_file root part (some []) w.disk =
              d3 ∙ ap (put_file root part (some [])) (ap (λ x. x.disk) x2 ∙ same.1) in
            let after : w'.disk ≡ after_rename root path bytes w.disk =
              filled.4.1
              ∙ ap
                  (λ x.
                    put_file root path (some bytes)
                      (put_file root part none (put_file root part (some bytes) x)))
                  before in
            (
              filled.0,
              filled.1,
              filled.2,
              filled.3,
              filled.4.0 ∙ t3 ∙ ap (λ x. x.tables) x2 ∙ same.0,
              subst (IsStored root path bytes w.disk) (sym after)
                  (after_rename-IsStored root path bytes w.disk absent),
            )
