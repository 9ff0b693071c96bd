-- ===== src/Clients/Offered.antt =====
-- `profileFor` and the matrix of the series.
use base_guard.Base.{
  ℕ, ◌≤◌, ◌≡◌, ◌⊎◌, ◌↔◌, refl, sym, ap, ◌∙◌, subst, String, Bool, true, false, ◌&&◌, Option, none,
  some, leb, ltb, str_eq, eq_iff, Error, ok, err, if◌then◌else◌, arith, Bool-cases, inl, inr,
}
use base_guard.Model.{one_of}
use base_guard.Clients.Numeral.{Numeral, atoi_iff}
use base_guard.Clients.Matrix.{
  ClientProfile, atoi, out_of_matrix, tools, postgres_profile, mysql_series, mariadb_series,
  profile_for,
}

-- The matrix: what is offered for PostgreSQL 12 to 18, MySQL 5.7, 8.0 and 8.4, and MariaDB 10.6, 10.11,
-- 11.4, 11.8 and 12.3.
abbrev pub Postgres : String → ClientProfile → Type 0
Postgres series p =
    (n : ℕ) × Numeral series n
    × (12 ≤ n)
    × (n ≤ 18)
    × (p.legacy ≡ ltb n 14)
    × (p.client_series ≡ series)
    × (p.sql ≡ "psql")
    × (p.dump ≡ "pg_dump")
    × (p.restore ≡ "pg_restore")

abbrev pub Mysql : String → ClientProfile → Type 0
Mysql series p =
    (((series ≡ "5.7") × (p.client_series ≡ "8.0") × (p.legacy ≡ true))
      ⊎ (((series ≡ "8.0") ⊎ (series ≡ "8.4")) × (p.client_series ≡ series) × (p.legacy ≡ false)))
    × (p.sql ≡ "mysql")
    × (p.dump ≡ "mysqldump")
    × (p.restore ≡ "mysql")

abbrev pub Mariadb : String → ClientProfile → Type 0
Mariadb series p =
    (((series ≡ "10.6") × (p.legacy ≡ true))
      ⊎ (((series ≡ "10.11") ⊎ ((series ≡ "11.4") ⊎ ((series ≡ "11.8") ⊎ (series ≡ "12.3"))))
          × (p.legacy ≡ false)))
    × (p.client_series ≡ series)
    × (p.sql ≡ "mariadb")
    × (p.dump ≡ "mariadb-dump")
    × (p.restore ≡ "mariadb")

abbrev pub Offered : String → String → ClientProfile → Type 0
Offered engine series p =
    (p.engine ≡ engine)
    × (p.series ≡ series)
    × (((engine ≡ "postgres") × Postgres series p)
        ⊎ (((engine ≡ "mysql") × Mysql series p) ⊎ ((engine ≡ "mariadb") × Mariadb series p)))

same_ok : {a p : ClientProfile} → ok a ≡ ok p → a ≡ p
same_ok h = cc h

-- A profile is the one of these fields.
profile-eq :
    (p : ClientProfile) (engine series client_series sql dump restore : String) (legacy : Bool)
    → p.engine ≡ engine
    → p.series ≡ series
    → p.client_series ≡ client_series
    → p.sql ≡ sql
    → p.dump ≡ dump
    → p.restore ≡ restore
    → p.legacy ≡ legacy
    → tools engine series client_series sql dump restore legacy ≡ p
profile-eq p engine series client_series sql dump restore legacy a b c d e f g =
    rw (sym a, sym b, sym c, sym d, sym e, sym f, sym g) refl

module _ (series : String) (p : ClientProfile) where
  postgres_profile-Offered :
      (o : Option ℕ)
      → atoi series ≡ o
      → postgres_profile series o ≡ ok p
      → Offered "postgres" series p
  postgres_profile-Offered none a h = cc h
  postgres_profile-Offered (some n) a h = elim (Bool-cases (leb 12 n && leb n 18)) [
    | inl t ↦
        let e = same_ok (rw t at h) in
        subst (Offered "postgres" series) e (
          refl,
          refl,
          inl (
            refl,
            (n, (atoi_iff series n).0 a, ground arith, ground arith, refl, refl, refl, refl, refl),
          ),
        )
    | inr t ↦ let bad : err (out_of_matrix "postgres" series) ≡ ok p = rw t at h in cc bad
  ]

  listed :
      (b : Bool) (q : ClientProfile) (e : Error)
      → (if b then ok q else err e) ≡ ok p
      → (q ≡ p) × (b ≡ true)
  listed true q e h = (same_ok h, refl)
  listed false q e h = cc h

  mysql-Offered : profile_for "mysql" series ≡ ok p → Offered "mysql" series p
  unfolding profile_for
  mysql-Offered h =
      let (e, b) = listed (one_of mysql_series series) _ _ h in
      subst (Offered "mysql" series) e (refl, refl, inr (inl (refl, (named b, refl, refl, refl))))
    where
      named :
          one_of mysql_series series ≡ true
          → ((series ≡ "5.7")
              × ((if str_eq series "5.7" then "8.0" else series) ≡ "8.0")
              × (str_eq series "5.7" ≡ true))
            ⊎ (((series ≡ "8.0") ⊎ (series ≡ "8.4"))
                × ((if str_eq series "5.7" then "8.0" else series) ≡ series)
                × (str_eq series "5.7" ≡ false))
      named b = elim (Bool-cases (str_eq series "5.7")) [
        | inl t ↦ inl ((eq_iff series "5.7").0 t, ground arith, t)
        | inr t ↦ inr (ground (arith, eq_iff series "8.0", eq_iff series "8.4"), ground arith, t)
      ]

  mariadb-Offered : profile_for "mariadb" series ≡ ok p → Offered "mariadb" series p
  unfolding profile_for
  mariadb-Offered h =
      let (e, b) = listed (one_of mariadb_series series) _ _ h in
      subst (Offered "mariadb" series) e
        (refl, refl, inr (inr (refl, (named b, refl, refl, refl, refl))))
    where
      named :
          one_of mariadb_series series ≡ true
          → ((series ≡ "10.6") × (str_eq series "10.6" ≡ true))
            ⊎ (((series ≡ "10.11") ⊎ ((series ≡ "11.4") ⊎ ((series ≡ "11.8") ⊎ (series ≡ "12.3"))))
                × (str_eq series "10.6" ≡ false))
      named b = elim (Bool-cases (str_eq series "10.6")) [
        | inl t ↦ inl ((eq_iff series "10.6").0 t, t)
        | inr t ↦ inr (
          ground (
            arith,
            eq_iff series "10.11",
            eq_iff series "11.4",
            eq_iff series "11.8",
            eq_iff series "12.3",
          ),
          t,
        )
      ]

  profile_for-Offered :
      (engine : String) → profile_for engine series ≡ ok p → Offered engine series p
  unfolding profile_for
  profile_for-Offered engine h = elim (Bool-cases (str_eq engine "postgres")) [
    | inl t ↦
        let e = (eq_iff engine "postgres").0 t in
        rw e (postgres_profile-Offered (atoi series) refl (rw e at h))
    | inr f ↦ elim (Bool-cases (str_eq engine "mysql")) [
      | inl t ↦ let e = (eq_iff engine "mysql").0 t in rw e (mysql-Offered (rw e at h))
      | inr g ↦ elim (Bool-cases (str_eq engine "mariadb")) [
        | inl t ↦ let e = (eq_iff engine "mariadb").0 t in rw e (mariadb-Offered (rw e at h))
        | inr k ↦ let bad : err (out_of_matrix engine series) ≡ ok p = rw (f, g, k) at h in cc bad
      ]
    ]
  ]

  -- The rows of the matrix.
  Postgres-profile_for :
      p.engine ≡ "postgres"
      → p.series ≡ series
      → Postgres series p
      → profile_for "postgres" series ≡ ok p
  unfolding profile_for
  Postgres-profile_for e s (n, a, lo, hi, l, c, x, y, z) =
      let in_range : (leb 12 n && leb n 18) ≡ true = ground arith in
      rw ((atoi_iff series n).1 a, in_range)
        (ap ok (
          profile-eq p "postgres" series series "psql" "pg_dump" "pg_restore" (ltb n 14) e s c x y z
            l))

  Mysql-profile_for :
      p.engine ≡ "mysql" → p.series ≡ series → Mysql series p → profile_for "mysql" series ≡ ok p
  unfolding profile_for
  Mysql-profile_for e s (inl (a, c, l), x, y, z) = rw a (
      ap ok (profile-eq p "mysql" "5.7" "8.0" "mysql" "mysqldump" "mysql" true e (s ∙ a) c x y z l))
  Mysql-profile_for e s (inr (inl a, c, l), x, y, z) = rw a (
      ap ok (
        profile-eq p "mysql" "8.0" "8.0" "mysql" "mysqldump" "mysql" false e (s ∙ a) (c ∙ a) x y z
          l))
  Mysql-profile_for e s (inr (inr a, c, l), x, y, z) = rw a (
      ap ok (
        profile-eq p "mysql" "8.4" "8.4" "mysql" "mysqldump" "mysql" false e (s ∙ a) (c ∙ a) x y z
          l))

  Mariadb-profile_for :
      p.engine ≡ "mariadb"
      → p.series ≡ series
      → Mariadb series p
      → profile_for "mariadb" series ≡ ok p
  unfolding profile_for
  Mariadb-profile_for e s (which, c, x, y, z) = row which
    where
      fields :
          (name : String) (old : Bool)
          → series ≡ name
          → p.legacy ≡ old
          → tools "mariadb" name name "mariadb" "mariadb-dump" "mariadb" old ≡ p
      fields name old a l =
          profile-eq p "mariadb" name name "mariadb" "mariadb-dump" "mariadb" old e (s ∙ a) (c ∙ a)
            x y z l

      row :
          ((series ≡ "10.6") × (p.legacy ≡ true))
            ⊎ (((series ≡ "10.11") ⊎ ((series ≡ "11.4") ⊎ ((series ≡ "11.8") ⊎ (series ≡ "12.3"))))
                × (p.legacy ≡ false))
          → profile_for "mariadb" series ≡ ok p
      row (inl (a, l)) = rw a (ap ok (fields "10.6" true a l))
      row (inr (inl a, l)) = rw a (ap ok (fields "10.11" false a l))
      row (inr (inr (inl a), l)) = rw a (ap ok (fields "11.4" false a l))
      row (inr (inr (inr (inl a)), l)) = rw a (ap ok (fields "11.8" false a l))
      row (inr (inr (inr (inr a)), l)) = rw a (ap ok (fields "12.3" false a l))

-- `profile_for` offers exactly the profiles of the matrix: PostgreSQL of a decimal
-- number from 12 to 18, MySQL 5.7,
-- 8.0 and 8.4, and MariaDB 10.6, 10.11, 11.4, 11.8 and 12.3, each with the names of its three tools, with the
-- series of its client, which is the server's but for MySQL 5.7, and with the mark of a legacy series for
-- PostgreSQL below 14, MySQL 5.7 and MariaDB 10.6.
pub profile_for_iff :
    (engine series : String) (p : ClientProfile)
    → (profile_for engine series ≡ ok p) ↔ Offered engine series p
profile_for_iff engine series p = (profile_for-Offered series p engine, back)
  where
    back : Offered engine series p → profile_for engine series ≡ ok p
    back (e, s, inl (k, o)) = rw k (Postgres-profile_for series p (e ∙ k) s o)
    back (e, s, inr (inl (k, o))) = rw k (Mysql-profile_for series p (e ∙ k) s o)
    back (e, s, inr (inr (k, o))) = rw k (Mariadb-profile_for series p (e ∙ k) s o)
