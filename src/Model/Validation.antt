-- ===== src/Model/Validation.antt =====
-- What `Validate` and `Schedule` accept, described without their tests.
use Prim.Native.String.{len}
use text.Mathlib.Text.{starts_with}
use base_guard.Base.{
  ℕ, ◌≤◌, ◌≡◌, ◌≢◌, ◌↔◌, ◌⊎◌, refl, inl, inr, String, Bool, true, false, List, [], ◌∷◌, any, All,
  Bool-cases, InRange, between_iff, Result, ok, err, str_eq, eq_iff, ◌==◌, codes, is_blank,
  contains_any, contains, arith, ◌>>=◌, ◌>>◌,
}
use base_guard.FilePath.{is_abs, is_local}
use base_guard.Model.Defs.{Database}
use base_guard.Model.Plans.{Plans, schedule_iff}
use base_guard.Model.Check.{
  Cron, schedule, control, bad_field, fields, is_key, tests, refuse_first, validate,
}

refuse_first_iff :
    (ts : List (Bool × String)) → (refuse_first ts ≡ ok tt) ↔ All (λ t. t.0 ≡ false) ts
unfolding refuse_first
refuse_first_iff [] = (λ e. tt, λ a. refl)
refuse_first_iff ((true, why) ∷ ts) = (λ e. cc, λ a. cc)
refuse_first_iff ((false, why) ∷ ts) =
    (λ e. (refl, (refuse_first_iff ts).0 e), λ a. (refuse_first_iff ts).1 a.1)

module _ {ℓ} {A : Type ℓ} (p : A → Bool) (Q : A → Type 0) where
  pub any-false_iff :
      ((x : A) → (p x ≡ false) ↔ Q x) → (xs : List A) → (any p xs ≡ false) ↔ All Q xs
  any-false_iff q [] = (λ e. tt, λ a. refl)
  any-false_iff q (x ∷ xs) = elim (Bool-cases (p x)) [
    | inl t ↦ rw t (λ e. cc, λ a. cc ((q x).1 a.0, t))
    | inr t ↦ rw t (λ e. ((q x).0 t, (any-false_iff q xs).0 e), λ a. (any-false_iff q xs).1 a.1)
  ]

-- No character of the text is one of `chars`.
abbrev pub Free : List ℕ → String → Type 0
Free chars s = All (λ c. All (λ d. c ≢ d) chars) (codes s)

==-false_iff : (c d : ℕ) → ((c == d) ≡ false) ↔ (c ≢ d)
==-false_iff c d = (λ e. ground arith, λ n. ground arith)

contains_any-false_iff :
    (chars : List ℕ) (s : String) → (contains_any chars s ≡ false) ↔ Free chars s
unfolding contains_any
contains_any-false_iff chars s =
    any-false_iff _ _ (λ c. any-false_iff _ _ (λ d. ==-false_iff c d) chars) (codes s)

abbrev pub IsField : String → Type 0
IsField s = (len s ≤ 1024) × Free (0 ∷ 13 ∷ 10 ∷ []) s

bad_field-false_iff : (s : String) → (bad_field s ≡ false) ↔ IsField s
bad_field-false_iff s =
    let (to, from) = contains_any-false_iff control s in
    (
      λ e. (ground arith, to (ground arith)),
      λ a. let f : contains_any control s ≡ false = from a.1 in ground arith,
    )

eq-false_iff : (s t : String) → (str_eq s t ≡ false) ↔ (s ≢ t)
eq-false_iff s t = (λ e. ground (arith, eq_iff s t), λ n. ground (arith, eq_iff s t))

-- A configured destination: the name is a key of the map.
abbrev pub IsKey : List (String × String) → String → Type 0
IsKey [] k = ⊥
IsKey ((j, v) ∷ m) k = (j ≡ k) ⊎ IsKey m k

is_key_iff : (m : List (String × String)) (k : String) → (is_key m k ≡ true) ↔ IsKey m k
is_key_iff [] k = (λ e. cc, λ a. absurd a)
is_key_iff ((j, v) ∷ m) k = (
  λ e. ground (arith, eq_iff j k, is_key_iff m k),
  λ a. ground (arith, eq_iff j k, is_key_iff m k),
)

-- What a record must be to be saved: `Validate` without its tests.
pub record IsValid (c : Cron) (m : List (String × String)) (d : Database) : Type 0 where
  pub name : is_blank d.name ≡ false
  pub host : is_blank d.host ≡ false
  pub dbname : d.dbname ≢ ""
  pub username : d.username ≢ ""
  pub texts :
      All IsField (d.name ∷ d.host ∷ d.dbname ∷ d.username ∷ d.password ∷ d.ca_file ∷ d.subdir ∷ [])
  pub no_flag : (starts_with d.host "-" ≡ false) × (starts_with d.dbname "-" ≡ false)
  pub plain_host : Free (b'/' ∷ b'\\' ∷ b'=' ∷ []) d.host
  pub no_string :
      (contains d.dbname "=" ≡ false)
      × (starts_with d.dbname "postgres://" ≡ false)
      × (starts_with d.dbname "postgresql://" ≡ false)
  pub engine : (d.engine ≡ "postgres") ⊎ ((d.engine ≡ "mysql") ⊎ (d.engine ≡ "mariadb"))
  pub port : InRange 1 65535 d.port
  pub tls : (d.tls_mode ≡ "disable") ⊎ ((d.tls_mode ≡ "require") ⊎ (d.tls_mode ≡ "verify-full"))
  pub ca : (d.ca_file ≡ "") ⊎ (is_abs d.ca_file ≡ true)
  pub destination : IsKey m d.destination
  pub subdir : (d.subdir ≡ "") ⊎ ((is_local d.subdir ≡ true) × Free (b'\\' ∷ b':' ∷ []) d.subdir)
  pub retain : InRange 1 1000 d.retain
  pub timeout : InRange 1 10080 d.timeout
  pub planned : (next : ℕ → ℕ) × Plans c d next

-- Two results in a row are good when both are.
both_iff :
    {A : Type 0} (r : Result (Unit {0})) (s : Result A)
    → ((r >> (s >>= λ _. ok (tt {0}))) ≡ ok (tt {0})) ↔ ((r ≡ ok tt) × (a : A) × (s ≡ ok a))
both_iff (ok u) (ok a) = (λ e. (refl, a, refl), λ h. refl)
both_iff (ok u) (err e) = (λ h. cc, λ h. cc h.2)
both_iff (err e) s = (λ h. cc, λ h. cc h.0)

abbrev Passes : List (String × String) → Database → Type 0
Passes m d = All (λ t. t.0 ≡ false) (tests m d)

module _ (c : Cron) (m : List (String × String)) (d : Database) where
  IsValid-Passes : IsValid c m d → Passes m d
  IsValid-Passes v = (
    ground (arith, v.name, v.host, eq_iff d.dbname "", eq_iff d.username "", v.dbname, v.username),
    (
      (any-false_iff bad_field IsField bad_field-false_iff (fields d)).1 v.texts,
      (
        ground (
          arith,
          v.no_flag,
          (contains_any-false_iff (b'/' ∷ b'\\' ∷ b'=' ∷ []) d.host).1 v.plain_host,
        ),
        (
          ground (arith, v.no_string),
          (
            ground (
              arith,
              eq_iff d.engine "postgres",
              eq_iff d.engine "mysql",
              eq_iff d.engine "mariadb",
              v.engine,
            ),
            (
              rw ((between_iff 1 65535 d.port).1 v.port) refl,
              (
                ground (
                  arith,
                  eq_iff d.tls_mode "disable",
                  eq_iff d.tls_mode "require",
                  eq_iff d.tls_mode "verify-full",
                  v.tls,
                ),
                (
                  ground (arith, eq_iff d.ca_file "", v.ca),
                  (
                    rw ((is_key_iff m d.destination).1 v.destination) refl,
                    (
                      ground (
                        arith,
                        eq_iff d.subdir "",
                        contains_any-false_iff (b'\\' ∷ b':' ∷ []) d.subdir,
                        v.subdir,
                      ),
                      (
                        rw
                            (
                              (between_iff 1 1000 d.retain).1 v.retain,
                              (between_iff 1 10080 d.timeout).1 v.timeout,
                            )
                            refl,
                        tt,
                      ),
                    ),
                  ),
                ),
              ),
            ),
          ),
        ),
      ),
    ),
  )

  Passes-IsValid : (next : ℕ → ℕ) → schedule c d ≡ ok next → Passes m d → IsValid c m d
  Passes-IsValid next e (p1, (p2, (p3, (p4, (p5, (p6, (p7, (p8, (p9, (p10, (p11, _))))))))))) =
      record {
        name = ground arith;
        host = ground arith;
        dbname = ground (arith, eq_iff d.dbname "");
        username = ground (arith, eq_iff d.username "");
        texts = (any-false_iff bad_field IsField bad_field-false_iff (fields d)).0 p2;
        no_flag = ground arith;
        plain_host = (contains_any-false_iff (b'/' ∷ b'\\' ∷ b'=' ∷ []) d.host).0 (ground arith);
        no_string = ground arith;
        engine =
            ground (
              arith,
              eq_iff d.engine "postgres",
              eq_iff d.engine "mysql",
              eq_iff d.engine "mariadb",
            );
        port = (between_iff 1 65535 d.port).0 (ground arith);
        tls = ground (
          arith,
          eq_iff d.tls_mode "disable",
          eq_iff d.tls_mode "require",
          eq_iff d.tls_mode "verify-full",
        );
        ca = ground (arith, eq_iff d.ca_file "");
        destination = (is_key_iff m d.destination).0 (ground arith);
        subdir =
            ground (arith, eq_iff d.subdir "", contains_any-false_iff (b'\\' ∷ b':' ∷ []) d.subdir);
        retain = (between_iff 1 1000 d.retain).0 (ground arith);
        timeout = (between_iff 1 10080 d.timeout).0 (ground arith);
        planned = (next, (schedule_iff c d next).0 e);
      }

  -- `Validate` accepts exactly the valid records, those of `IsValid`: the required texts are there, the seven
  -- texts have at most 1024 bytes and no NUL, carriage return or line feed, the host, the name of the database,
  -- the CA file and the subfolder have the shapes that are allowed, the mechanism and the TLS mode are known,
  -- the destination is configured, port, retention and timeout are in range, and the zone is known and the
  -- schedule is one of every 1 to 8760 hours, or one that cron reads from the hour and the minute of `at`,
  -- daily, or weekly on a day from 0 to 6.
  pub validate_iff : (validate c m d ≡ ok tt) ↔ IsValid c m d
  unfolding validate
  validate_iff =
      let (to, from) = both_iff (refuse_first (tests m d)) (schedule c d) in
      let (passes, passed) = refuse_first_iff (tests m d) in
      (
        λ e. let (p, next, s) = to e in Passes-IsValid next s (passes p),
        λ v.
            let (next, e) = v.planned in
            from (passed (IsValid-Passes v), next, (schedule_iff c d next).1 e),
      )
