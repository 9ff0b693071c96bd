-- ===== src/Security/KeyFile.antt =====
-- What `loadKey` does with the key file.
use base_guard.Base.{
  ◌≡◌, ◌≢◌, ◌<◌, ◌⊎◌, refl, sym, ap, ◌∙◌, String, Bool, true, false, [], Option, none, some, ◌==◌,
  ltb, length, Error, failure, ok, err, if◌then◌else◌, Bool-cases, Option-cases, inl, inr, arith,
}
use base_guard.Disk.{Disk, Bytes, put_file}
use base_guard.Exec.{World, pure, lift, try_io, ◌>>=◌}
use base_guard.Exec.Inversion.{Calm, rand_read-Calm, rand_read-length}
use base_guard.Backup.Destination.{set_file, found}
use base_guard.Backup.Calm.{
  touch-Calm, read_file-Calm, write_file-Calm, create_file-Calm, file-put_self,
}
use base_guard.Security.Key.{key_size, has_content, store_key, create_key, sized, load_key}

-- The world once `b` is stored.
abbrev Stored : String → Bytes → World → World
Stored path b v = set_file "" path (some b) (set_file "" path (some []) v)

store_key-Calm :
    (path : String) (b : Bytes) (v : World)
    → Calm v
    → v.disk.file "" path ≡ none
    → store_key path b v ≡ (ok tt, Stored path b v)
unfolding store_key lift try_io ◌>>=◌
store_key-Calm path b v calm absent =
    rw
      (
        create_file-Calm "" path [] v calm absent,
        write_file-Calm "" path b (set_file "" path (some []) v) calm,
        touch-Calm (Stored path b v) calm,
      )
      refl

content_of :
    (o : Option Bytes) → has_content (found o) ≡ true → (b : Bytes) × (o ≡ some b) × (0 < length b)
content_of none h = cc
content_of (some b) h = (b, refl, ground arith)

ok-injective : {b key : Bytes} → ok b ≡ ok key → b ≡ key
ok-injective h = cc h

pub fitting : (b : Bytes) → length b ≡ key_size → (length b == key_size) ≡ true
fitting b h = ground arith

abbrev pub bad_key_file : Error
bad_key_file = failure "chave mestra inválida"

module _ (path dbpath : String) where
  -- The key file is there.
  pub load_key-found :
      (v : World) (b : Bytes)
      → Calm v
      → v.disk.file "" path ≡ some b
      → load_key path dbpath v ≡ (sized b, v)
  unfolding load_key lift pure try_io ◌>>=◌
  load_key-found v b calm there = rw (read_file-Calm "" path v calm, there) refl

  -- It is not, and a database with content is.
  load_key-refused :
      (v : World) (b : Bytes)
      → Calm v
      → v.disk.file "" path ≡ none
      → v.disk.file "" dbpath ≡ some b
      → 0 < length b
      → load_key path dbpath v ≡ (
        err (failure "chave ausente: restaure a chave original antes de abrir o banco existente"),
        v,
      )
  unfolding load_key create_key lift pure try_io ◌>>=◌
  load_key-refused v b calm absent there long =
      let t : ltb 0 (length b) ≡ true = ground arith in
      rw (read_file-Calm "" path v calm, absent, read_file-Calm "" dbpath v calm, there, t) refl

  -- Neither is.
  load_key-made :
      (v : World)
      → Calm v
      → v.disk.file "" path ≡ none
      → has_content (found (v.disk.file "" dbpath)) ≡ false
      → (b : Bytes) × (v' : World) × (length b ≡ key_size)
        × Calm v'
        × (v'.disk ≡ put_file "" path (some b) (put_file "" path (some []) v.disk))
        × (load_key path dbpath v ≡ (ok b, v'))
  unfolding load_key create_key lift pure try_io ◌>>=◌
  load_key-made v calm absent nothing =
      let (b, v1, r, c, d) = rand_read-Calm key_size v calm in
      let size = rand_read-length key_size v r in
      let there = ap (λ (k : Disk). k.file "" path) d ∙ absent in
      let fits : (length b == key_size) ≡ true = ground arith in
      (
        b,
        Stored path b v1,
        size,
        c,
        ap (λ k. put_file "" path (some b) (put_file "" path (some []) k)) d,
        rw
            (
              read_file-Calm "" path v calm,
              absent,
              read_file-Calm "" dbpath v calm,
              nothing,
              touch-Calm v calm,
              r,
              store_key-Calm path b v1 c there,
              fits,
            )
            refl,
      )

  -- An existing key file of the right size is read, and nothing changes.
  abbrev pub IsRead : World → Type 0
  IsRead v =
      (b : Bytes) × (v.disk.file "" path ≡ some b)
      × (length b ≡ key_size)
      × (load_key path dbpath v ≡ (ok b, v))

  -- A key file of another size, or a database with content and no key file: an error, and nothing changes.
  abbrev pub IsRefused : World → Type 0
  IsRefused v =
      (e : Error) × (load_key path dbpath v ≡ (err e, v))
      × (((b : Bytes) × (v.disk.file "" path ≡ some b) × (length b ≢ key_size))
          ⊎ ((v.disk.file "" path ≡ none)
              × (b : Bytes) × (v.disk.file "" dbpath ≡ some b)
              × (0 < length b)))

  -- Neither file is there, or the database is empty: a key of the right size is made, and the disk changes at
  -- the key file only.
  abbrev pub IsMade : World → Type 0
  IsMade v =
      (v.disk.file "" path ≡ none)
      × (has_content (found (v.disk.file "" dbpath)) ≡ false)
      × (b : Bytes) × (v' : World) × (length b ≡ key_size)
      × (v'.faults ≡ [])
      × (v'.disk ≡ put_file "" path (some b) (put_file "" path (some []) v.disk))
      × (load_key path dbpath v ≡ (ok b, v'))

  -- Where no operation fails: an existing key file of the right size is read and nothing changes; one of
  -- another size is refused; without a key file, a database with content is refused and nothing changes;
  -- and with neither, a key of the right size is made, and the disk changes at the key file only.
  pub load_key_lem : (v : World) → v.faults ≡ [] → IsRead v ⊎ (IsRefused v ⊎ IsMade v)
  load_key_lem v calm = elim (Option-cases (v.disk.file "" path)) [
    | inr (b, there) ↦ elim (Bool-cases (length b == key_size)) [
      | inl t ↦ inl (
        b,
        there,
        ground arith,
        load_key-found v b calm there
            ∙ ap (λ (k : Bool). (if k then ok b else err bad_key_file, v)) t,
      )
      | inr t ↦ inr (
          inl (
            bad_key_file,
            load_key-found v b calm there
                ∙ ap (λ (k : Bool). (if k then ok b else err bad_key_file, v)) t,
            inl (b, there, ground arith),
          ))
    ]
    | inl absent ↦ elim (Bool-cases (has_content (found (v.disk.file "" dbpath)))) [
      | inl t ↦
          let (b, there, long) = content_of (v.disk.file "" dbpath) t in
          inr (inl (_, load_key-refused v b calm absent there long, inr (absent, b, there, long)))
      | inr t ↦
          let (b, v1, size, c, d, e) = load_key-made v calm absent t in
          inr (inr (absent, t, b, v1, size, c, d, e))
    ]
  ]

  -- A key that was loaded is loaded again: the second call gives the same key and changes nothing.
  pub load_key-again :
      (v v' : World) (key : Bytes)
      → v.faults ≡ []
      → load_key path dbpath v ≡ (ok key, v')
      → (length key ≡ key_size) × (load_key path dbpath v' ≡ (ok key, v'))
  load_key-again v v' key calm h = elim (load_key_lem v calm) [
    | inl (b, there, size, e) ↦
        let both : (ok b, v) ≡ (ok key, v') = sym e ∙ h in
        let same : ok b ≡ ok key = ap (λ r. r.0) both in
        let world : v ≡ v' = ap (λ r. r.1) both in
        let key_is : b ≡ key = ok-injective same in
        (ap length (sym key_is) ∙ size, ap (load_key path dbpath) (sym world) ∙ h)
    | inr (inl (e, f, why)) ↦ let no_key : err e ≡ ok key = ap (λ r. r.0) (sym f ∙ h) in cc no_key
    | inr (inr (absent, nothing, b, v1, size, c, d, e)) ↦
        let both : (ok b, v1) ≡ (ok key, v') = sym e ∙ h in
        let same : ok b ≡ ok key = ap (λ r. r.0) both in
        let world : v1 ≡ v' = ap (λ r. r.1) both in
        let key_is : b ≡ key = ok-injective same in
        let there =
          ap (λ (k : Disk). k.file "" path) d
          ∙ file-put_self "" path (some b) (put_file "" path (some []) v.disk) in
        let fits : (length b == key_size) ≡ true = fitting b size in
        let again : load_key path dbpath v1 ≡ (ok b, v1) =
          load_key-found v1 b c there
          ∙ ap (λ (k : Bool). (if k then ok b else err bad_key_file, v1)) fits in
        (ap length (sym key_is) ∙ size, ap (load_key path dbpath) (sym world) ∙ again ∙ both)
  ]
