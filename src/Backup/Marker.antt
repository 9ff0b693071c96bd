-- ===== src/Backup/Marker.antt =====
-- Which directory `openDestination` hands out.
use base_guard.Base.{
  ◌≡◌, refl, sym, ap, ◌∙◌, String, Bool, true, false, List, [], ◌∷◌, Option, none, some, failure,
  Result, ok, err, Bool-cases, inl, inr, if◌then◌else◌, arith, not_exist,
}
use base_guard.Disk.{Disk, Bytes, utf8, bytes_eq}
use base_guard.Exec.{World, lift, try_io}
use base_guard.Exec.Inversion.{pure-eq-ok, lift-eq-ok, >>=-elim, try_io-eq-ok, attempt-eq-ok}
use base_guard.Backup.Destination.{
  lookup, known, opened, marked, marker, open_root, read_file, open_destination,
}
use base_guard.Backup.Files.{Same, read_file-eq-ok}

bytes_eq_sound : (a b : Bytes) → bytes_eq a b ≡ true → a ≡ b
unfolding bytes_eq
bytes_eq_sound [] [] h = refl
bytes_eq_sound [] (y ∷ b) h = cc
bytes_eq_sound (x ∷ a) [] h = cc
bytes_eq_sound (x ∷ a) (y ∷ b) h =
    let e : x ≡ y = ground arith in
    ap (λ n. n ∷ a) e ∙ ap (◌∷◌ y) (bytes_eq_sound a b (ground arith))

known-eq-ok : (name : String) (o : Option String) {p : String} → known name o ≡ ok p → o ≡ some p
known-eq-ok name none h = cc
known-eq-ok name (some q) h = cc h

opened-eq-ok : (r : Result (Unit {0})) {u : Unit {0}} → opened r ≡ ok u → r ≡ ok tt
opened-eq-ok (ok a) h = refl
opened-eq-ok (err e) h = cc

marked-eq-ok :
    (name : String) (r : Result Bytes) {u : Unit {0}} → marked name r ≡ ok u → r ≡ ok (utf8 name)
marked-eq-ok name (err e) h = cc
marked-eq-ok name (ok b) h = elim (Bool-cases (bytes_eq b (utf8 name))) [
  | inl t ↦ ap ok (bytes_eq_sound b (utf8 name) t)
  | inr t ↦
      let e : err (failure "destino indisponível ou sem marcador de montagem válido") ≡ ok tt =
        rw t at h in
      cc e
]

root_there :
    (b : Bool) {u : Unit {0}} → (if b then ok (tt {0}) else err not_exist) ≡ ok u → b ≡ true
root_there true h = refl
root_there false h = cc

open_root-eq-ok :
    (p : String) (w w' : World) {u : Unit {0}}
    → open_root p w ≡ (ok u, w')
    → (w.disk.is_root p ≡ true) × Same w' w
unfolding open_root
open_root-eq-ok p w w' h =
    let (x, t, d, e) = attempt-eq-ok _ w h in
    let there = root_there (x.disk.is_root p) (ap (λ r. r.0) e) in
    (
      ap (λ (k : Disk). k.is_root p) (sym d) ∙ there,
      (ap (λ r. r.1.tables) (sym e) ∙ t, ap (λ r. r.1.disk) (sym e) ∙ d),
    )

-- A destination that opens, under any faults: its name is configured with this path, the directory is
-- there, the marker file in it holds the name of the destination, and opening it changed nothing.
pub open_destination-marked :
    (destinations : List (String × String)) (name root : String) (w w' : World)
    → open_destination destinations name w ≡ (ok root, w')
    → (lookup name destinations ≡ some root)
      × (w.disk.is_root root ≡ true)
      × (w.disk.file root marker ≡ some (utf8 name))
      × (w'.tables ≡ w.tables)
      × (w'.disk ≡ w.disk)
unfolding open_destination
open_destination-marked destinations name root w w' h =
    >>=-elim (lift (known name (lookup name destinations))) _ w h λ path w1 e1 k1.
      >>=-elim (try_io (open_root path)) _ w1 k1 λ r2 w2 e2 k2.
        >>=-elim (lift (opened r2)) _ w2 k2 λ u3 w3 e3 k3.
          >>=-elim (try_io (read_file path marker)) _ w3 k3 λ r4 w4 e4 k4.
            >>=-elim (lift (marked name r4)) _ w4 k4 λ u5 w5 e5 k5.
              let (q1, x1) = lift-eq-ok _ w e1 in
              let (q3, x3) = lift-eq-ok _ w2 e3 in
              let (q5, x5) = lift-eq-ok _ w4 e5 in
              let (q6, x6) = pure-eq-ok path w5 k5 in
              let (is, s2) =
                open_root-eq-ok path w1 w2
                  (try_io-eq-ok _ w1 w2 e2 ∙ ap (λ r. (r, w2)) (opened-eq-ok r2 q3)) in
              let read =
                read_file-eq-ok path marker w3 w4
                  (try_io-eq-ok _ w3 w4 e4 ∙ ap (λ r. (r, w4)) (marked-eq-ok name r4 q5)) in
              let (held, s4) = read in
              let same : path ≡ root = sym q6 in
              let t3 : Same w3 w = go w w1 w2 w3 x1 s2 x3 in
              let marked_file : w.disk.file path marker ≡ some (utf8 name) =
                ap (λ (k : Disk). k.file path marker) (sym t3.1) ∙ held in
              let there : w.disk.is_root path ≡ true =
                ap (λ x. x.disk.is_root path) (sym x1) ∙ is in
              let end : w' ≡ w4 = x6 ∙ x5 in
              (
                known-eq-ok name (lookup name destinations) q1 ∙ ap some same,
                ap w.disk.is_root (sym same) ∙ there,
                ap (λ p. w.disk.file p marker) (sym same) ∙ marked_file,
                ap (λ x. x.tables) end ∙ s4.0 ∙ t3.0,
                ap (λ x. x.disk) end ∙ s4.1 ∙ t3.1,
              )
  where
    go : (a b c d : World) → b ≡ a → Same c b → d ≡ c → Same d a
    go a b c d e (t, k) f = (
      ap (λ x. x.tables) f ∙ t ∙ ap (λ x. x.tables) e,
      ap (λ x. x.disk) f ∙ k ∙ ap (λ x. x.disk) e,
    )
