-- ===== src/Backup/Elsewhere.antt =====
-- Which files the steps of a backup touch, whether they succeed or not.
use base_guard.Base.{
  ℕ, String, List, [], ◌∷◌, Option, none, some, length, sym, subst, Error, Result, ok, err, ◌≡◌,
  ◌≢◌, ◌⊎◌, refl, ap, ◌∙◌, inl, inr,
}
use base_guard.Disk.{Disk, Bytes}
use base_guard.Model.{Database}
use base_guard.Exec.{World, Io, ◌>>=◌, attempt, after_fault, continue}
use base_guard.Store.Tables.{Tables}
use base_guard.Exec.Steps.{result_of}
use base_guard.Backup.Keeps.{Keeps-write_backup}
use base_guard.Backup.Stored.{IsStored, write_backup-IsStored}
use base_guard.Exec.Ends.{Ends, Dry, Dry-attempt, Dry-lift, Dry-pure, Dry-try, dry_rules}
use base_guard.Backup.Destination.{
  touch, read_file, create_new, create_file, write_file, remove_found, remove_file, move,
  rename_file, open_root, open_destination,
}
use base_guard.Backup.Files.{file-put_file_ne}
use base_guard.Backup.Write.{
  Executor, partial_of, is_absent, ended, not_empty, after_failure, or_remove, sync_directory,
  fill_backup, write_backup,
}

pub Dry-touch : Dry touch
unfolding touch
Dry-touch = Dry-attempt _ (λ w. refl)

pub Dry-read_file : (root path : String) → Dry (read_file root path)
unfolding read_file
Dry-read_file root path = Dry-attempt _ (λ w. refl)

Dry-open_root : (p : String) → Dry (open_root p)
unfolding open_root
Dry-open_root p = Dry-attempt _ (λ w. refl)

pub Dry-open_destination :
    (destinations : List (String × String)) (name : String)
    → Dry (open_destination destinations name)
unfolding open_destination
Dry-open_destination destinations name = search (dry_rules, Dry-open_root, Dry-read_file) depth 8

Dry-sync_directory : Dry sync_directory
unfolding sync_directory
Dry-sync_directory = search (dry_rules, Dry-touch) depth 8

module _ (root path : String) where
  -- The disk is the same but for a file and its partial file.
  abbrev pub Elsewhere : Disk → Disk → Type 0
  Elsewhere k k' =
      (r p : String) → (r ≢ root) ⊎ ((p ≢ path) × (p ≢ partial_of path)) → k'.file r p ≡ k.file r p

  record Touches {A : Type 0} (m : Io A) : Type 0 where
    pub at : (w : World) → Elsewhere w.disk (m w).1.disk

  Touches-Dry : {A : Type 0} (m : Io A) → Dry m → Touches m
  Touches-Dry m d = record { at = λ w r p n. ap (λ (k : Disk). k.file r p) (d.at w) }

  continue-touch :
      {A B : Type 0} (x : Result A) (f : A → Io B)
      → ((a : A) → Touches (f a))
      → (w : World) → Elsewhere w.disk (continue x f w).1.disk
  continue-touch (ok a) f k w r p n = (k a).at w r p n
  continue-touch (err e) f k w r p n = refl

  Touches-bind :
      {A B : Type 0} (m : Io A) (f : A → Io B)
      → Touches m
      → ((a : A) → Touches (f a))
      → Touches (m >>= f)
  unfolding ◌>>=◌
  Touches-bind m f k kf = record {
    at = λ w r p n. continue-touch (m w).0 f kf (m w).1 r p n ∙ k.at w r p n;
  }

  after_fault-touch :
      {A : Type 0} (fs : List (Option String)) (act : World → Result A × World)
      → ((w : World) → Elsewhere w.disk (act w).1.disk)
      → (w : World) → Elsewhere w.disk (after_fault fs act w).1.disk
  after_fault-touch [] act k w r p n = k w r p n
  after_fault-touch (none ∷ rest) act k w r p n = k (record w { faults = rest }) r p n
  after_fault-touch (some why ∷ rest) act k w r p n = refl

  Touches-attempt :
      {A : Type 0} (act : World → Result A × World)
      → ((w : World) → Elsewhere w.disk (act w).1.disk)
      → Touches (attempt act)
  unfolding attempt
  Touches-attempt act k = record { at = λ w. after_fault-touch w.faults act k w }

  off_path :
      (r p : String) → (r ≢ root) ⊎ ((p ≢ path) × (p ≢ partial_of path)) → (r ≢ root) ⊎ (p ≢ path)
  off_path r p (inl n) = inl n
  off_path r p (inr n) = inr n.0

  off_part :
      (r p : String)
      → (r ≢ root) ⊎ ((p ≢ path) × (p ≢ partial_of path))
      → (r ≢ root) ⊎ (p ≢ partial_of path)
  off_part r p (inl n) = inl n
  off_part r p (inr n) = inr n.1

  create-touch :
      (b : Bytes) (o : Option Bytes) (w : World)
      → Elsewhere w.disk (create_new root (partial_of path) b o w).1.disk
  create-touch b none w r p n = file-put_file_ne root (partial_of path) _ _ r p (off_part r p n)
  create-touch b (some c) w r p n = refl

  remove-touch :
      (o : Option Bytes) (w : World)
      → Elsewhere w.disk (remove_found root (partial_of path) o w).1.disk
  remove-touch none w r p n = refl
  remove-touch (some c) w r p n = file-put_file_ne root (partial_of path) _ _ r p (off_part r p n)

  move-touch :
      (o : Option Bytes) (w : World)
      → Elsewhere w.disk (move root (partial_of path) path o w).1.disk
  move-touch none w r p n = refl
  move-touch (some c) w r p n =
      file-put_file_ne root path _ _ r p (off_path r p n)
      ∙ file-put_file_ne root (partial_of path) _ _ r p (off_part r p n)

  Touches-create : (b : Bytes) → Touches (create_file root (partial_of path) b)
  unfolding create_file
  Touches-create b = Touches-attempt _ (λ w. create-touch b (w.disk.file root (partial_of path)) w)

  Touches-write : (b : Bytes) → Touches (write_file root (partial_of path) b)
  unfolding write_file
  Touches-write b =
      Touches-attempt _
        (λ w r p n. file-put_file_ne root (partial_of path) _ _ r p (off_part r p n))

  Touches-remove : Touches (remove_file root (partial_of path))
  unfolding remove_file
  Touches-remove = Touches-attempt _ (λ w. remove-touch (w.disk.file root (partial_of path)) w)

  Touches-rename : Touches (rename_file root (partial_of path) path)
  unfolding rename_file
  Touches-rename = Touches-attempt _ (λ w. move-touch (w.disk.file root (partial_of path)) w)

  after_failure-touch :
      {A : Type 0} (x : Result A) (w : World)
      → Elsewhere w.disk (after_failure root (partial_of path) x w).1.disk
  after_failure-touch (ok a) w r p n = refl
  after_failure-touch (err e) w r p n = Touches-remove.at w r p n

  Touches-or_remove :
      {A : Type 0} (m : Io A) → Touches m → Touches (or_remove root (partial_of path) m)
  unfolding or_remove
  Touches-or_remove m k = record {
    at = λ w r p n. after_failure-touch (m w).0 (m w).1 r p n ∙ k.at w r p n;
  }

module _ (digest : Bytes → String) (root path : String) where
  Touches-fill_backup :
      (dumped : Bytes × Option Error) → Touches root path (fill_backup digest root path dumped)
  unfolding fill_backup
  Touches-fill_backup (bytes, end) =
      Touches-bind root path (write_file root (partial_of path) bytes) _
        (Touches-write root path bytes)
        λ _. Touches-bind root path _ _ (Touches-Dry root path _ (Dry-lift (ended end))) λ _.
          Touches-bind root path _ _
            (Touches-Dry root path _ (Dry-read_file root (partial_of path)))
            λ written.
              Touches-bind root path _ _ (Touches-Dry root path _ (Dry-lift (not_empty written)))
                λ _. Touches-bind root path _ _ (Touches-Dry root path _ Dry-touch) λ _.
                  Touches-bind root path _ _ (Touches-Dry root path _ Dry-touch) λ _.
                    Touches-bind root path _ _ (Touches-rename root path) λ _.
                      Touches-bind root path _ _ (Touches-Dry root path _ Dry-sync_directory)
                        λ _. Touches-Dry root path _ (Dry-pure (length written, digest bytes))

  module _ (d : Database) (ex : Executor) where
    Touches-write_backup : Touches root path (write_backup digest root path d ex)
    unfolding write_backup
    Touches-write_backup =
        Touches-bind root path _ _ (Touches-Dry root path _ (Dry-try _ (Dry-read_file root path)))
          λ there.
            Touches-bind root path _ _ (Touches-Dry root path _ (Dry-lift (is_absent there))) λ _.
              Touches-bind root path _ _ (Touches-create root path [])
                λ _. Touches-or_remove root path _ (Touches-fill_backup (ex.dump d))

    -- What a backup leaves, for a predicate that other files do not matter to.
    pub Ends-write_backup :
        {P : Tables → Disk → Type 0} {Q : ℕ × String → Tables → Disk → Type 0}
        → ((t : Tables) (k k' : Disk) → P t k → Elsewhere root path k k' → P t k')
        → ((t : Tables) (k k' : Disk) (size : ℕ) (sum : String)
            → P t k
            → IsStored root path (ex.dump d).0 k k'
            → size ≡ length (ex.dump d).0
            → sum ≡ digest (ex.dump d).0
            → Q (size, sum) t k')
        → Ends P Q P (write_backup digest root path d ex)
    Ends-write_backup {P} {Q} closed stored = record {
      at = λ w h. elim (result_of (write_backup digest root path d ex) w) [
        | inl ((size, sum), e) ↦
            let v = (write_backup digest root path d ex w).1 in
            let (_, _, n, s, t, k) = write_backup-IsStored digest root path d ex w v size sum e in
            let q : Q (size, sum) v.tables v.disk =
              subst (λ (x : Tables). Q (size, sum) x v.disk) (sym t)
                (stored w.tables w.disk v.disk size sum h k n s) in
            rw e q
        | inr (x, e) ↦
            let v = (write_backup digest root path d ex w).1 in
            let same : v.tables ≡ w.tables =
              (Keeps-write_backup {P = λ t. t ≡ w.tables} digest root path d ex).at w refl in
            let p : P v.tables v.disk =
              subst (λ (y : Tables). P y v.disk) (sym same)
                (closed w.tables w.disk v.disk h (Touches-write_backup.at w)) in
            rw e p
      ];
    }
