-- ===== src/Model/Check.antt =====
-- `Database.Schedule` and `Database.Validate`. The time-zone database and the cron library
-- are parameters.
use Prim.Native.String.{len}
use text.Mathlib.Text.{starts_with}
use base_guard.Base.{
  ℕ, String, Bool, List, [], ◌∷◌, any, ◌||◌, ◌&&◌, not, ltb, str_eq, ℤ, pos, negsuc, between,
  Result, ok, err, failure, ◌>>=◌, ◌>>◌, refuse_if, Option, none, some, ◌⊕◌, itoa, is_blank,
  contains_any, contains, if◌then◌else◌,
}
use base_guard.FilePath.{is_abs, is_local}
use base_guard.Model.Defs.{Database}
use base_guard.Model.TimeOfDay.{parse_time}

-- What the code calls in `time.LoadLocation` and in robfig/cron: a schedule is the function that
-- gives the next activation after a time, in Unix seconds.
pub record Cron : Type 0 where
  pub known_zone : String → Bool
  pub every_hours : ℕ → ℕ → ℕ
  pub parse_standard : String → Result (ℕ → ℕ)

abbrev pub spec_text : String → ℕ → ℕ → String → String
spec_text zone minute hour day =
    "CRON_TZ=" ⊕ zone ⊕ " " ⊕ itoa minute ⊕ " " ⊕ itoa hour ⊕ " * * " ⊕ day

abbrev pub magnitude : ℤ → ℕ
magnitude (pos n) = n
magnitude (negsuc n) = 0

module _ (c : Cron) where
  -- `cron.Every`, for the hours that the range test lets through
  unfoldable pub every_of : Database → Result (ℕ → ℕ)
  every_of d =
      if between 1 8760 d.interval
      then ok (c.every_hours (magnitude d.interval))
      else err (failure "intervalo deve ser de 1 a 8760 horas")

  unfoldable pub at_time : Database → String → Option (ℕ × ℕ) → Result (ℕ → ℕ)
  at_time d day none = err (failure "horário inválido")
  at_time d day (some (hour, minute)) = c.parse_standard (spec_text d.timezone minute hour day)

  unfoldable pub weekly : Database → Option (ℕ × ℕ) → Result (ℕ → ℕ)
  unfolding at_time
  weekly d none = err (failure "horário inválido")
  weekly d (some t) =
      if between 0 6 d.weekday
      then at_time d (itoa (magnitude d.weekday)) (some t)
      else err (failure "dia da semana inválido")

  unfoldable pub schedule : Database → Result (ℕ → ℕ)
  unfolding every_of at_time weekly
  schedule d = do
    refuse_if (not (c.known_zone d.timezone)) "fuso horário inválido"
    if str_eq d.schedule_kind "interval"
        then every_of d
        else if str_eq d.schedule_kind "daily"
        then at_time d "*" (parse_time d.at)
        else if str_eq d.schedule_kind "weekly"
        then weekly d (parse_time d.at)
        else err (failure "frequência inválida")

abbrev pub one_of : List String → String → Bool
one_of options s = any (λ o. str_eq s o) options

-- NUL, carriage return and line feed
abbrev pub control : List ℕ
control = 0 ∷ 13 ∷ 10 ∷ []

abbrev pub bad_field : String → Bool
bad_field s = ltb 1024 (len s) || contains_any control s

abbrev pub fields : Database → List String
fields d = d.name ∷ d.host ∷ d.dbname ∷ d.username ∷ d.password ∷ d.ca_file ∷ d.subdir ∷ []

abbrev pub is_conn_string : String → Bool
is_conn_string s = contains s "=" || starts_with s "postgres://" || starts_with s "postgresql://"

abbrev pub is_key : List (String × String) → String → Bool
is_key m k = any (λ e. str_eq e.0 k) m

-- The eleven tests in the order of the source, each with its message.
abbrev pub tests : List (String × String) → Database → List (Bool × String)
tests destinations d =
    (
      is_blank d.name || is_blank d.host || str_eq d.dbname "" || str_eq d.username "",
      "preencha nome, host, banco e usuário",
    )
    ∷ (any bad_field (fields d), "campo inválido ou muito longo")
    ∷ (
      starts_with d.host "-"
          || starts_with d.dbname "-"
          || contains_any (b'/' ∷ b'\\' ∷ b'=' ∷ []) d.host,
      "informe um host TCP e um nome de banco válido",
    )
    ∷ (is_conn_string d.dbname, "informe apenas o nome do banco, sem string de conexão")
    ∷ (not (one_of ("postgres" ∷ "mysql" ∷ "mariadb" ∷ []) d.engine), "mecanismo inválido")
    ∷ (not (between 1 65535 d.port), "porta inválida")
    ∷ (not (one_of ("disable" ∷ "require" ∷ "verify-full" ∷ []) d.tls_mode), "modo TLS inválido")
    ∷ (
      not (str_eq d.ca_file "") && not (is_abs d.ca_file),
      "certificado CA deve usar caminho absoluto no container",
    )
    ∷ (not (is_key destinations d.destination), "destino não configurado")
    ∷ (
      not (str_eq d.subdir "")
          && (not (is_local d.subdir) || contains_any (b'\\' ∷ b':' ∷ []) d.subdir),
      "subpasta deve ser relativa ao destino",
    )
    ∷ (
      not (between 1 1000 d.retain) || not (between 1 10080 d.timeout),
      "retenção deve ser de 1 a 1000; timeout de 1 a 10080 minutos",
    )
    ∷ []

-- `if test { return fmt.Errorf(...) }`, one after the other.
unfoldable pub refuse_first : List (Bool × String) → Result (Unit {0})
refuse_first [] = ok tt
refuse_first ((bad, why) ∷ rest) = if bad then err (failure why) else refuse_first rest

unfoldable pub validate : Cron → List (String × String) → Database → Result (Unit {0})
validate c destinations d = do refuse_first (tests destinations d); _ ← schedule c d; ok tt
