-- ===== src/Native/Told.antt =====
-- What a server reports, and what `Prepare` takes from it.
use base_guard.Base.{
  ℕ, ◌/◌, itoa, ◌≤◌, ◌≡◌, ◌≢◌, ◌⊎◌, refl, sym, ap, subst, ◌∙◌, String, Bool, true, false, not, ◌&&◌,
  List, [], ◌∷◌, ◌++◌, Option, none, some, ltb, ◌==◌, str_eq, eq_iff, ◌⊕◌, Error, failure, Result,
  ok, err, refuse_if, if◌then◌else◌, Bool-cases, Result-cases, inl, inr, arith,
}
use base_guard.Base
use base_guard.Model.{Database}
use base_guard.Clients.Versions.{server_series, names_maria, mismatched, mismatch}
use base_guard.Clients.Offered.{Offered}
use base_guard.Clients.Numeral.{Numeral, atoi_iff}
use base_guard.Clients.Matrix.{ClientProfile, atoi}
use base_guard.Native.Versions.{trim_space}
use base_guard.Native.Prepare.{
  field_count, identify, identify_mysql, no_tls, identify_postgres, postgres_number,
}

-- What a server reported, line by line, and what is recorded of it.
abbrev pub Told : Database → List String → String → String → Type 0
Told d lines series raw =
    ((d.engine ≡ "postgres")
      × (number : String) × (version : String) × (n : ℕ) × (lines ≡ number ∷ version ∷ [])
      × Numeral (trim_space number) n
      × (100000 ≤ n)
      × (series ≡ itoa (n / 10000))
      × (raw ≡ trim_space version))
    ⊎ ((d.engine ≢ "postgres")
        × (version : String) × (comment : String) × (others : String) × (cipher : String) × (lines
            ≡ version ∷ comment ∷ others ∷ cipher ∷ [])
        × ((d.engine ≢ "mysql") ⊎ (names_maria (trim_space version ⊕ " " ⊕ comment) ≡ false))
        × ((d.engine ≢ "mariadb") ⊎ (names_maria (trim_space version ⊕ " " ⊕ comment) ≡ true))
        × (server_series d.engine (trim_space version) comment ≡ ok series)
        × (raw ≡ trim_space version)
        × (trim_space others ≡ "0")
        × ((d.tls_mode ≡ "disable") ⊎ (field_count false cipher ≡ 2)))

server_series-agrees :
    (engine raw vendor : String) {series : String}
    → server_series engine raw vendor ≡ ok series
    → ((engine ≢ "mysql") ⊎ (names_maria (raw ⊕ " " ⊕ vendor) ≡ false))
      × ((engine ≢ "mariadb") ⊎ (names_maria (raw ⊕ " " ⊕ vendor) ≡ true))
unfolding server_series
server_series-agrees engine raw vendor {series} h =
    elim (Bool-cases (mismatched engine (names_maria (raw ⊕ " " ⊕ vendor)))) [
      | inl t ↦ let bad : err (mismatch engine) ≡ ok series = rw t at h in cc bad
      | inr t ↦ elim (Bool-cases (names_maria (raw ⊕ " " ⊕ vendor))) [
        | inl m ↦ (inl (λ e. ground (arith, (eq_iff engine "mysql").1 e)), inr m)
        | inr m ↦ (inr m, inl (λ e. ground (arith, (eq_iff engine "mariadb").1 e)))
      ]
    ]

postgres_number-Told :
    (raw : String) (o : Option ℕ) {series text : String}
    → postgres_number raw o ≡ ok (series, text)
    → (n : ℕ) × (o ≡ some n) × (100000 ≤ n) × (series ≡ itoa (n / 10000)) × (text ≡ trim_space raw)
postgres_number-Told raw none h = cc h
postgres_number-Told raw (some n) {series} {text} h = elim (Bool-cases (ltb n 100000)) [
  | inl t ↦
      let bad : err (failure "PostgreSQL anterior a 12 ou versão inválida") ≡ ok (series, text) =
        rw t at h in
      cc bad
  | inr t ↦
      let k : ok (itoa (n / 10000), trim_space raw) ≡ ok (series, text) = rw t at h in
      (n, refl, ground arith, cc k, cc k)
]

identify_postgres-Told :
    (lines : List String) {series raw : String}
    → identify_postgres lines ≡ ok (series, raw)
    → (number : String) × (version : String) × (n : ℕ) × (lines ≡ number ∷ version ∷ [])
      × (atoi (trim_space number) ≡ some n)
      × (100000 ≤ n)
      × (series ≡ itoa (n / 10000))
      × (raw ≡ trim_space version)
unfolding identify_postgres
identify_postgres-Told [] h = cc h
identify_postgres-Told (a ∷ []) h = cc h
identify_postgres-Told (number ∷ version ∷ []) h =
    let (n, a, l, s, r) = postgres_number-Told version (atoi (trim_space number)) h in
    (number, version, n, refl, a, l, s, r)
identify_postgres-Told (a ∷ b ∷ c ∷ ls) h = cc h

accepted_parts :
    (r : Result String) (b b' : Bool) (why why' text : String) {series raw : String}
    → (Base.◌>>=◌ {B = String × String} r
        λ s. Base.◌>>◌ (refuse_if b why) (Base.◌>>◌ (refuse_if b' why') (ok (s, text))))
      ≡ ok (series, raw)
    → (r ≡ ok series) × (b ≡ false) × (b' ≡ false) × (raw ≡ text)
accepted_parts (err e) b b' why why' text h = cc
accepted_parts (ok s) true b' why why' text h = cc
accepted_parts (ok s) false true why why' text h = cc
accepted_parts (ok s) false false why why' text {series} {raw} h =
    let e : ok (s, text) ≡ ok (series, raw) = h in (cc e, refl, refl, cc e)

-- A server of MySQL or MariaDB that is accepted named the chosen mechanism, has no table outside InnoDB,
-- and, unless the record switches TLS off, told a cipher of the connection; the series and the version
-- are those that it reported.
identify_mysql-accepts :
    (d : Database) (lines : List String) (series raw : String)
    → identify_mysql d lines ≡ ok (series, raw)
    → (version : String) × (comment : String) × (others : String) × (cipher : String) × (lines
        ≡ version ∷ comment ∷ others ∷ cipher ∷ [])
      × (server_series d.engine (trim_space version) comment ≡ ok series)
      × (raw ≡ trim_space version)
      × (trim_space others ≡ "0")
      × ((d.tls_mode ≡ "disable") ⊎ (field_count false cipher ≡ 2))
unfolding identify_mysql
identify_mysql-accepts d [] series raw h = cc
identify_mysql-accepts d (a ∷ []) series raw h = cc
identify_mysql-accepts d (a ∷ b ∷ []) series raw h = cc
identify_mysql-accepts d (a ∷ b ∷ c ∷ []) series raw h = cc
identify_mysql-accepts d (version ∷ comment ∷ others ∷ cipher ∷ []) series raw h =
    let (r, b, e, q) =
      accepted_parts (server_series d.engine (trim_space version) comment)
        (not (str_eq (trim_space others) "0")) (no_tls d cipher) _ _ (trim_space version) h in
    (
      version,
      comment,
      others,
      cipher,
      refl,
      r,
      q,
      ground (arith, eq_iff (trim_space others) "0"),
      elim (Bool-cases (str_eq d.tls_mode "disable")) [
        | inl t ↦ inl ((eq_iff d.tls_mode "disable").0 t)
        | inr t ↦ inr (ground arith)
      ],
    )
identify_mysql-accepts d (a ∷ b ∷ c ∷ e ∷ f ∷ ls) series raw h = cc

clash : (s : String) → str_eq s "" ≡ false → s ≡ "" → ⊥
clash s f e = let t : str_eq s "" ≡ true = (eq_iff s "").1 e in cc (t, f)

pub identify-Told :
    (d : Database) (lines : List String) {series raw : String}
    → identify d lines ≡ ok (series, raw)
    → Told d lines series raw
identify-Told d lines {series} {raw} h = elim (Bool-cases (str_eq d.engine "postgres")) [
  | inl t ↦
      let (number, version, n, l, a, from, s, r) = identify_postgres-Told lines (rw t at h) in
      let numeral = (atoi_iff (trim_space number) n).0 a in
      inl ((eq_iff d.engine "postgres").0 t, number, version, n, l, numeral, from, s, r)
  | inr t ↦
      let other : d.engine ≢ "postgres" = λ k. apart ((eq_iff d.engine "postgres").1 k) t in
      let (version, comment, others, cipher, l, s, r, o, c) =
        identify_mysql-accepts d lines series raw (rw t at h) in
      let (mysql, mariadb) = server_series-agrees d.engine (trim_space version) comment s in
      inr (other, version, comment, others, cipher, l, mysql, mariadb, s, r, o, c)
]
  where
    apart : {b : Bool} → b ≡ true → b ≡ false → ⊥
    apart x y = cc (x, y)

-- A profile of the matrix names a series of its client.
pub Offered-filled :
    (engine series : String) (p : ClientProfile) → Offered engine series p → p.client_series ≢ ""
unfolding atoi
Offered-filled engine series p (a, b, inl (e, (n, v, lo, hi, l, c, x, y, z))) k =
    let empty : series ≡ "" = sym c ∙ k in
    let read : atoi series ≡ some n = (atoi_iff series n).1 v in
    let bad : none ≡ some n = rw empty at read in cc bad
Offered-filled engine series p (a, b, inr (inl (e, (inl (s, c, l), x, y, z)))) k =
    clash "8.0" refl (sym c ∙ k)
Offered-filled engine series p (a, b, inr (inl (e, (inr (inl s, c, l), x, y, z)))) k =
    clash "8.0" refl (sym s ∙ sym c ∙ k)
Offered-filled engine series p (a, b, inr (inl (e, (inr (inr s, c, l), x, y, z)))) k =
    clash "8.4" refl (sym s ∙ sym c ∙ k)
Offered-filled engine series p (a, b, inr (inr (e, (inl (s, l), c, x, y, z)))) k =
    clash "10.6" refl (sym s ∙ sym c ∙ k)
Offered-filled engine series p (a, b, inr (inr (e, (inr (s, l), c, x, y, z)))) k = newer s
  where
    empty : series ≡ ""
    empty = sym c ∙ k

    newer : (series ≡ "10.11") ⊎ ((series ≡ "11.4") ⊎ ((series ≡ "11.8") ⊎ (series ≡ "12.3"))) → ⊥
    newer (inl s) = clash "10.11" refl (sym s ∙ empty)
    newer (inr (inl s)) = clash "11.4" refl (sym s ∙ empty)
    newer (inr (inr (inl s))) = clash "11.8" refl (sym s ∙ empty)
    newer (inr (inr (inr s))) = clash "12.3" refl (sym s ∙ empty)
