-- ===== src/Worker/Intact.antt =====
-- The files of the successful runs: while a run is successful its file is the dump, or is gone.
pub mod Statements
pub mod Retention
pub mod Finish
pub mod Backup
pub mod Rounds
use base_guard.Base.{
  ℕ, ◌≡◌, ◌≢◌, ◌⊎◌, refl, sym, ap, subst, ◌∙◌, String, Bool, true, false, not, List, [], ◌∷◌, ◌++◌,
  Option, none, some, length, update_where, str_eq, ◌&&◌, ◌==◌, All, Bool-cases, inl, inr, arith,
}
use base_guard.Disk.{Disk, Bytes, put_file}
use base_guard.Model.{
  Json, ConnectionInfo, Run, Status, success, queued, running, failed, interrupted, expired,
}
use base_guard.Store.Tables.{Tables, is_success, is_running}
use base_guard.Store.Lifecycle.{Each}
use base_guard.Backup.Destination.{lookup}
use base_guard.Backup.Files.{file-put_file, file-put_file_ne}
use base_guard.Backup.Write.{partial_of}
use base_guard.Backup.Elsewhere.{Elsewhere}
use base_guard.Worker.Paths.{number_of}
use base_guard.Worker.Methods.{Worker}

abbrev pub is_pending : Status → Bool
is_pending success = false
is_pending _ = true

module _ (w : Worker) where
  -- No file, or one of the size and the digest of the run.
  abbrev pub Fits : Option Bytes → Run → Type 0
  Fits none q = Unit
  Fits (some b) q = (length b ≡ q.size) × (w.digest b ≡ q.sha256)

  -- A successful run: its path carries its id, and what is there, in the destination that it names, is its
  -- dump.
  abbrev pub IsFiled : Disk → Run → Type 0
  IsFiled k q =
      is_success q.status ≡ true
      → (number_of q.path ≡ q.id)
        × ((root : String)
            → lookup q.destination w.destinations ≡ some root
            → Fits (k.file root q.path) q)

  Fits-same :
      (o : Option Bytes) (q q' : Run)
      → q'.size ≡ q.size
      → q'.sha256 ≡ q.sha256
      → Fits o q
      → Fits o q'
  Fits-same none q q' e f h = tt
  Fits-same (some b) q q' e f h = (h.0 ∙ sym e, h.1 ∙ sym f)

  -- Columns that do not matter to the file.
  pub IsFiled-info :
      (k : Disk) (q : Run) (info : Json ConnectionInfo)
      → IsFiled k q
      → IsFiled k (record q { client_info = info })
  IsFiled-info k q info h s =
      let (n, fits) = h s in
      (
        n,
        λ root l.
            Fits-same (k.file root q.path) q (record q { client_info = info }) refl refl
              (fits root l),
      )

  pub IsFiled-note :
      (k : Disk) (q : Run) (why : String) → IsFiled k q → IsFiled k (record q { error = why })
  IsFiled-note k q why h s =
      let (n, fits) = h s in
      (
        n,
        λ root l.
            Fits-same (k.file root q.path) q (record q { error = why }) refl refl (fits root l),
      )

  abbrev pub Files : List Run → Disk → Type 0
  Files rs k = All (IsFiled k) rs

  pub Files-update :
      (k : Disk) (p : Run → Bool) (f : Run → Run) (rs : List Run)
      → ((q : Run) → p q ≡ true → IsFiled k q → IsFiled k (f q))
      → Files rs k
      → Files (update_where p f rs) k
  Files-update k p f [] keep h = tt
  Files-update k p f (q ∷ rs) keep (h, hs) = elim (Bool-cases (p q)) [
    | inl t ↦ rw t (keep q t h, Files-update k p f rs keep hs)
    | inr t ↦ rw t (h, Files-update k p f rs keep hs)
  ]

  -- A change after which the rows are not successful.
  pub Files-ended :
      (k : Disk) (p : Run → Bool) (f : Run → Run) (rs : List Run)
      → ((q : Run) → is_success (f q).status ≡ false)
      → Files rs k
      → Files (update_where p f rs) k
  Files-ended k p f rs e h = Files-update k p f rs (λ q _ _ s. absurd (clash (e q) s)) h
    where
      clash : {b : Bool} → b ≡ false → b ≡ true → ⊥
      clash x y = cc (x, y)

  pub Files-append :
      (k : Disk) (rs : List Run) (r : Run) → Files rs k → IsFiled k r → Files (rs ++ r ∷ []) k
  Files-append k [] r h n = (n, tt)
  Files-append k (q ∷ rs) r (h, hs) n = (h, Files-append k rs r hs n)

  -- Where every file of a successful run is as before, or gone.
  abbrev pub Agrees : Disk → Disk → String → String → Type 0
  Agrees k k' root path = (k'.file root path ≡ none) ⊎ (k'.file root path ≡ k.file root path)

  Fits-Agrees :
      (k k' : Disk) (root : String) (q : Run)
      → Agrees k k' root q.path
      → Fits (k.file root q.path) q
      → Fits (k'.file root q.path) q
  Fits-Agrees k k' root q (inl e) h = subst (λ o. Fits o q) (sym e) tt
  Fits-Agrees k k' root q (inr e) h = subst (λ o. Fits o q) (sym e) h

  pub Files-disk :
      (k k' : Disk) (rs : List Run)
      → All
          (λ q.
            is_success q.status ≡ true
            → number_of q.path ≡ q.id
            → (root : String) → Agrees k k' root q.path)
          rs
      → Files rs k
      → Files rs k'
  Files-disk k k' [] a h = tt
  Files-disk k k' (q ∷ rs) (a, rest) (h, hs) = (
    λ s. let (n, fits) = h s in (n, λ root l. Fits-Agrees k k' root q (a s n root) (fits root l)),
    Files-disk k k' rs rest hs,
  )

  -- Taking a file away breaks nothing.
  removed-Agrees :
      (root path : String) (k : Disk) (r p : String) → Agrees k (put_file root path none k) r p
  unfolding put_file
  removed-Agrees root path k r p = elim (Bool-cases (str_eq r root && str_eq p path)) [
    | inl t ↦ inl (rw t refl)
    | inr t ↦ inr (rw t refl)
  ]

  always : (Q : Run → Type 0) → ((q : Run) → Q q) → (rs : List Run) → All Q rs
  always Q a [] = tt
  always Q a (q ∷ rs) = (a q, always Q a rs)

  pub Files-removed :
      (root path : String) (k : Disk) (rs : List Run)
      → Files rs k
      → Files rs (put_file root path none k)
  Files-removed root path k rs h =
      Files-disk k (put_file root path none k) rs
        (always _ (λ q s n r. removed-Agrees root path k r q.path) rs) h

  -- A backup of a run that has not succeeded leaves the files of the others.
  pub Files-Elsewhere :
      (root path : String) (id : ℕ) (k k' : Disk) (rs : List Run)
      → number_of path ≡ id
      → number_of (partial_of path) ≡ id
      → Elsewhere root path k k'
      → Each is_pending id rs
      → Files rs k
      → Files rs k'
  Files-Elsewhere root path id k k' rs n m e pending h = Files-disk k k' rs (agree rs pending) h
    where
      other :
          (q : Run)
          → ((q.id == id) ≡ true → is_pending q.status ≡ true)
          → is_success q.status ≡ true
          → q.id ≢ id
      other q p s same = clash q.status s (p (ground (arith, same)))
        where
          clash : (x : Status) → is_success x ≡ true → is_pending x ≡ true → ⊥
          clash success a b = cc b
          clash queued a b = cc a
          clash running a b = cc a
          clash failed a b = cc a
          clash interrupted a b = cc a
          clash expired a b = cc a

      agree :
          (xs : List Run)
          → Each is_pending id xs
          → All
              (λ q.
                is_success q.status ≡ true
                → number_of q.path ≡ q.id
                → (r : String) → Agrees k k' r q.path)
              xs
      agree [] p = tt
      agree (q ∷ xs) (p, ps) = (
        λ s num r. inr (
            e r q.path (
              inr (
                (λ same. other q p s (sym num ∙ ap number_of same ∙ n)),
                (λ same. other q p s (sym num ∙ ap number_of same ∙ m)),
              ))),
        agree xs ps,
      )
