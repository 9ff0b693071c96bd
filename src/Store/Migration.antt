-- ===== src/Store/Migration.antt =====
-- What opening the store does to the tables.
use base_guard.Base.{
  ℕ, ◌≤◌, ◌<◌, ◌≡◌, ◌⊎◌, refl, sym, ap, subst, ◌∙◌, String, Bool, true, false, [], some, leb, ltb,
  length, Error, failure, Result, ok, err, refuse_if, if◌then◌else◌, Bool-cases, inl, inr, arith,
}
use base_guard.Disk.{Bytes}
use base_guard.Store.Tables.{
  Tables, apply, conflicts, create_tables, add_client_info, set_user_version,
}
use base_guard.Exec.{World, Io, pure, lift, query, exec, run, transaction, try_io, ◌>>=◌, ◌>>◌}
use base_guard.Exec.Keeps.{Keeps, Keeps-run, keeps_rules}
use base_guard.Exec.Inversion.{
  Calm, >>=-elim, >>=_of_ok, transaction-Calm, pure-eq-ok, lift-eq-ok, query-eq-ok, exec-eq-ok,
  transaction-eq-ok, transaction-err, query-Calm, exec-Calm,
}
use base_guard.Backup.Destination.{touch}
use base_guard.Backup.Calm.{touch-Calm}
use base_guard.Backup.Keeps.{Keeps-touch, Keeps-read_file, Keeps-create_file, Keeps-write_file}
use base_guard.Worker.Methods.{ignore}
use base_guard.Worker.Recovery.{Keeps-ignore}
use base_guard.Security.Key.{key_size, load_key, create_key, store_key, key_from}
use base_guard.Security.KeyFile.{load_key-found, fitting, bad_key_file}
use base_guard.Store.Open.{migrate, open_store}
use base_guard.Exec.Steps.{result_of, then-keep, after_same, kept}

-- A schema of version 2 has the column, an older one has not.
abbrev pub HasSchema : Tables → Type 0
HasSchema t = t.has_client_info ≡ leb 2 t.user_version

abbrev pub current : Tables → Tables
current t = record t { user_version = 2; has_client_info = true }

-- Nothing changed, or the whole migration did.
abbrev pub Migrated : Tables → Tables → Type 0
Migrated t u = (u ≡ t) ⊎ ((t.user_version < 2) × (u ≡ current t))

migration : Io (Unit {0})
migration = run add_client_info >> run (set_user_version 2)

module _ {P : Tables → Type 0} where
  pub Keeps-create_tables : Keeps P (run create_tables)
  unfolding apply
  Keeps-create_tables = Keeps-run create_tables (λ t _ h. h)

  Keeps-store_key : (path : String) (b : Bytes) → Keeps P (store_key path b)
  unfolding store_key
  Keeps-store_key path b =
      search (keeps_rules, Keeps-touch, Keeps-create_file, Keeps-write_file) depth 10

  Keeps-create_key : (path dbpath : String) → Keeps P (create_key path dbpath)
  unfolding create_key
  Keeps-create_key path dbpath =
      search (keeps_rules, Keeps-touch, Keeps-read_file, Keeps-store_key) depth 10

  Keeps-key_from : (path dbpath : String) (r : Result Bytes) → Keeps P (key_from path dbpath r)
  Keeps-key_from path dbpath (ok b) = search keeps_rules
  Keeps-key_from path dbpath (err Error.not_exist) = Keeps-create_key path dbpath
  Keeps-key_from path dbpath (err Error.no_rows) = search keeps_rules
  Keeps-key_from path dbpath (err (Error.failure s)) = search keeps_rules

  pub Keeps-load_key : (path dbpath : String) → Keeps P (load_key path dbpath)
  unfolding load_key
  Keeps-load_key path dbpath = search (keeps_rules, Keeps-read_file, Keeps-key_from) depth 8

-- The two statements of the migration, when both succeed.
migration-eq-ok :
    (w w' : World)
    → (run add_client_info >> run (set_user_version 2)) w ≡ (ok tt, w')
    → w'.tables ≡ current w.tables
unfolding run apply
migration-eq-ok w w' h = >>=-elim (run add_client_info) _ w h λ u w1 e1 k1.
    let (_, a, _) = exec-eq-ok add_client_info _ w e1 in
    let (_, b, _) = exec-eq-ok (set_user_version 2) _ w1 k1 in b ∙ ap (apply (set_user_version 2)) a

-- A schema of version 2 is current.
current-same :
    (t : Tables) → HasSchema t → t.user_version ≤ 2 → ltb t.user_version 2 ≡ false → t ≡ current t
current-same t schema low new =
    let two : t.user_version ≡ 2 = ground arith in
    let there : t.has_client_info ≡ true = schema ∙ ap (leb 2) two in
    ap (λ n. record t { user_version = n; has_client_info = t.has_client_info }) two
    ∙ ap (λ b. record t { user_version = 2; has_client_info = b }) there

-- The migration, where it succeeds.
migrate-eq-ok :
    (w w' : World)
    → HasSchema w.tables
    → w.tables.user_version ≤ 2
    → migrate w.tables.user_version w ≡ (ok tt, w')
    → w'.tables ≡ current w.tables
unfolding migrate
migrate-eq-ok w w' h le e = elim (Bool-cases (ltb w.tables.user_version 2)) [
  | inl t ↦
      let (u, v, a, _, b, c, _) = transaction-eq-ok _ w (rw t at e) in
      c ∙ migration-eq-ok u v b ∙ ap current a
  | inr t ↦
      let (_, x) = pure-eq-ok (tt {0}) w (rw t at e) in
      ap (λ x. x.tables) x ∙ current-same w.tables h le t
]

pub migrate-Migrated :
    (t : Tables) (w : World) → w.tables ≡ t → Migrated t (migrate t.user_version w).1.tables
unfolding migrate pure
migrate-Migrated t w same = elim (Bool-cases (ltb t.user_version 2)) [
  | inl old ↦
      let body = run add_client_info >> run (set_user_version 2) in
      rw old (elim (result_of (transaction body) w) [
        | inl (_, e) ↦
            let (u, v, a, _, b, c, _) = transaction-eq-ok body w e in
            inr (ground arith, c ∙ migration-eq-ok u v b ∙ ap current (a ∙ same))
        | inr (x, e) ↦ inl (transaction-err body w e ∙ same)
      ])
  | inr new ↦ rw new (inl same)
]

not_refused : (n : ℕ) (why : String) → refuse_if (ltb 2 n) why ≡ ok tt → n ≤ 2
not_refused n why h = elim (Bool-cases (ltb 2 n)) [
  | inl t ↦ let bad : err (failure why) ≡ ok (tt {0}) = rw t at h in cc bad
  | inr t ↦ ground arith
]

abbrev newer : String
newer = "banco criado por versão mais recente do BaseGuard"

allowed-Calm :
    (w : World)
    → w.tables.user_version ≤ 2
    → lift (refuse_if (ltb 2 w.tables.user_version) newer) w ≡ (ok tt, w)
unfolding lift
allowed-Calm w low = let e : ltb 2 w.tables.user_version ≡ false = ground arith in rw e refl

create_tables-Calm : (w : World) → Calm w → run create_tables w ≡ (ok tt, w)
unfolding run apply conflicts
create_tables-Calm w calm = exec-Calm create_tables _ w calm refl

last-Calm : (key : Bytes) (w : World) → Calm w → (ignore touch >> pure key) w ≡ (ok key, w)
unfolding ignore pure try_io ◌>>=◌
last-Calm key w calm = rw (touch-Calm w calm) refl

migration-Calm :
    (w : World)
    → Calm w
    → w.tables.has_client_info ≡ false
    → (run add_client_info >> run (set_user_version 2)) w
      ≡ (ok tt, record w { tables = current w.tables })
unfolding run apply conflicts
migration-Calm w calm absent =
    >>=_of_ok (exec add_client_info (λ _. tt)) _ w (exec-Calm add_client_info _ w calm absent)
    ∙ exec-Calm (set_user_version 2) _ (record w { tables = apply add_client_info w.tables }) calm
        refl

migrate-Calm :
    (w : World)
    → Calm w
    → HasSchema w.tables
    → w.tables.user_version ≤ 2
    → migrate w.tables.user_version w ≡ (ok tt, record w { tables = current w.tables })
unfolding migrate pure
migrate-Calm w calm schema low = elim (Bool-cases (ltb w.tables.user_version 2)) [
  | inl t ↦
      let before : leb 2 w.tables.user_version ≡ false = ground arith in
      rw t (transaction-Calm _ w _ calm (migration-Calm w calm (schema ∙ before)) calm)
  | inr t ↦
      rw t
        (ap (λ (x : Tables). (ok tt, record w { tables = x })) (current-same w.tables schema low t))
]

module _ (path keypath : String) where
  -- Opening the store, whatever fails underneath it: the tables are as before, or, for a schema older than
  -- version 2, the migration happened as a whole.
  pub open_store-Migrated : (w : World) → Migrated w.tables (open_store path keypath w).1.tables
  unfolding open_store
  open_store-Migrated w =
      let t = w.tables in
      let Q = Migrated t in
      after_same Q _ _ t w (Keeps-load_key keypath path) refl (inl refl) λ key w1 e1 h1.
        after_same Q _ _ t w1 Keeps-touch h1 (inl refl) λ u w2 e2 h2.
          after_same Q _ _ t w2 Keeps-touch h2 (inl refl) λ u' w3 e3 h3.
            after_same Q _ _ t w3 (search keeps_rules) h3 (inl refl) λ n w4 e4 h4.
              after_same Q _ _ t w4 (search keeps_rules) h4 (inl refl) λ u4 w5 e5 h5.
                after_same Q _ _ t w5 Keeps-create_tables h5 (inl refl) λ u5 w6 e6 h6.
                  let (is, _, _) = query-eq-ok (λ (x : Tables). x.user_version) w3 e4 in
                  let read : n ≡ t.user_version = is ∙ ap (λ (x : Tables). x.user_version) h3 in
                  then-keep Q (migrate n) _ w6
                    (λ u6. search (keeps_rules, Keeps-ignore, Keeps-touch) depth 6)
                    (subst (λ k. Q (migrate k w6).1.tables) (sym read) (migrate-Migrated t w6 h6))

  -- A start that succeeds, whatever fails and is repaired underneath it, from a schema that has the new column
  -- exactly from version 2 on: the schema was not newer than version 2, and is now of version 2 with the column,
  -- with every other table as before.
  pub open_store-eq-ok :
      (w w' : World) (key : Bytes)
      → HasSchema w.tables
      → open_store path keypath w ≡ (ok key, w')
      → (w.tables.user_version ≤ 2) × (w'.tables ≡ current w.tables)
  unfolding open_store
  open_store-eq-ok w w' key schema h = >>=-elim (load_key keypath path) _ w h λ got w1 e1 k1.
      >>=-elim touch _ w1 k1 λ u1 w2 e2 k2. >>=-elim touch _ w2 k2 λ u2 w3 e3 k3.
        >>=-elim (query (λ t. t.user_version)) _ w3 k3 λ n w4 e4 k4.
          >>=-elim (lift (refuse_if (ltb 2 n) _)) _ w4 k4 λ u4 w5 e5 k5.
            >>=-elim (run create_tables) _ w5 k5 λ u5 w6 e6 k6.
              >>=-elim (migrate n) _ w6 k6 λ u6 w7 e7 k7.
                let t1 : w1.tables ≡ w.tables =
                  kept (load_key keypath path) w w1 (Keeps-load_key keypath path) e1 in
                let t3 : w3.tables ≡ w.tables =
                  kept touch w2 w3 Keeps-touch e3 ∙ kept touch w1 w2 Keeps-touch e2 ∙ t1 in
                let (is, t4, _) = query-eq-ok (λ (x : Tables). x.user_version) w3 e4 in
                let (allowed, x5) = lift-eq-ok _ w4 e5 in
                let t6 : w6.tables ≡ w.tables =
                  kept (run create_tables) w5 w6 Keeps-create_tables e6
                  ∙ ap (λ x. x.tables) x5
                  ∙ t4
                  ∙ t3 in
                let read : n ≡ w6.tables.user_version =
                  is ∙ ap (λ (x : Tables). x.user_version) (t3 ∙ sym t6) in
                let low : n ≤ 2 = not_refused n _ allowed in
                let schema6 : HasSchema w6.tables = subst HasSchema (sym t6) schema in
                let t7 : w7.tables ≡ current w6.tables =
                  migrate-eq-ok w6 w7 schema6 (subst (λ k. k ≤ 2) read low)
                    (subst (λ k. migrate k w6 ≡ (ok u6, w7)) read e7) in
                let t8 : w'.tables ≡ w7.tables =
                  kept (ignore touch >> pure got) w7 w'
                    (search (keeps_rules, Keeps-ignore, Keeps-touch) depth 6) k7 in
                (
                  subst (λ (x : Tables). x.user_version ≤ 2) t6 (subst (λ k. k ≤ 2) read low),
                  t8 ∙ t7 ∙ ap current t6,
                )

  -- Where no operation fails, the key file holds a key of the right size, and the schema is not newer than
  -- version 2 and has the new column exactly from then on, the store opens with that key; the tables have the
  -- schema of version 2 and are otherwise as they were, and nothing else changes.
  pub open_store-opens :
      (w : World) (key : Bytes)
      → w.faults ≡ []
      → w.disk.file "" keypath ≡ some key
      → length key ≡ key_size
      → HasSchema w.tables
      → w.tables.user_version ≤ 2
      → open_store path keypath w ≡ (ok key, record w { tables = current w.tables })
  unfolding open_store
  open_store-opens w key calm there size schema low =
      let loaded : load_key keypath path w ≡ (ok key, w) =
        load_key-found keypath path w key calm there
        ∙ ap (λ (b : Bool). ((if b then ok key else err bad_key_file), w)) (fitting key size) in
      let allowed : lift (refuse_if (ltb 2 w.tables.user_version) newer) w ≡ (ok tt, w) =
        allowed-Calm w low in
      let w' = record w { tables = current w.tables } in
      >>=_of_ok _ _ w loaded
      ∙ >>=_of_ok _ _ w (touch-Calm w calm)
      ∙ >>=_of_ok _ _ w (touch-Calm w calm)
      ∙ >>=_of_ok _ _ w (query-Calm (λ t. t.user_version) w calm)
      ∙ >>=_of_ok _ _ w allowed
      ∙ >>=_of_ok _ _ w (create_tables-Calm w calm)
      ∙ >>=_of_ok _ _ w (migrate-Calm w calm schema low)
      ∙ last-Calm key w' calm
