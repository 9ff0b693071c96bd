-- ===== src/Server/Texts.antt =====
-- The functions that `NewServer` gives to the templates. The zones are a parameter.
use base_guard.Base.{
  ℕ, zero, suc, ◌<◌, length, ◌*◌, ◌-◌, ◌/◌, ◌%◌, ◌≡◌, refl, String, true, List, [], ◌∷◌, Option,
  none, some, ltb, ◌==◌, str_eq, ◌⊕◌, itoa, pad2, ℤ, pos, negsuc, between, ok, if◌then◌else◌,
  Bool-cases, inl, inr, arith,
}
use base_guard.Model.{
  Database, Run, Status, queued, running, success, failed, interrupted, expired, Cron, schedule,
}
use base_guard.Model.Plans.{schedule-day}
use base_guard.Native.Credentials.{int_text}

-- `time.LoadLocation`, and `Format("02/01 15:04")` in the zone.
abbrev pub Zones : Type 0
Zones = String → Option (ℕ → String)

abbrev pub in_zone : Option (ℕ → String) → ℕ → String
in_zone none t = "—"
in_zone (some show) t = show t

-- "nextDate"
unfoldable pub next_date : Zones → Database → String
next_date z d = if d.next_run == 0 then "—" else in_zone (z d.timezone) d.next_run

-- `displayTime`, where the zone of São Paulo is in the database that the program carries.
unfoldable pub display_time : Zones → ℕ → String
display_time z t = if t == 0 then "—" else in_zone (z "America/Sao_Paulo") t

-- `x / unit`, rounded to the nearest and to the even one of two that are as near.
unfoldable pub rounded : ℕ → ℕ → ℕ
rounded x unit =
    let q = x / unit in
    let r = x % unit in
    if ltb (2 * r) unit
    then q
    else if ltb unit (2 * r)
    then suc q
    else if q % 2 == 0
    then q
    else suc q

-- "%.1f" of `n / unit`, where `unit` is a power of two: exact for sizes that a float64 holds.
abbrev pub one_decimal : ℕ → ℕ → String
one_decimal n unit = itoa (rounded (10 * n) unit / 10) ⊕ "." ⊕ itoa (rounded (10 * n) unit % 10)

abbrev pub two_decimals : ℕ → ℕ → String
two_decimals n unit =
    itoa (rounded (100 * n) unit / 100) ⊕ "." ⊕ pad2 (rounded (100 * n) unit % 100)

-- "bytes"
unfoldable pub size_text : ℕ → String
size_text n =
    if ltb n 1024
    then itoa n ⊕ " B"
    else if ltb n 1_048_576
    then one_decimal n 1024 ⊕ " KB"
    else if ltb n 1_073_741_824
    then one_decimal n 1_048_576 ⊕ " MB"
    else two_decimals n 1_073_741_824 ⊕ " GB"

-- "status", for the values of the column
unfoldable pub status_text : Status → String
status_text queued = "Na fila"
status_text running = "Em andamento"
status_text success = "Concluído"
status_text failed = "Falhou"
status_text interrupted = "Interrompido"
status_text expired = "Expirado"

-- "trigger"
unfoldable pub trigger_text : String → String
trigger_text s =
    if str_eq s "manual"
    then "Manual"
    else if str_eq s "scheduled"
    then "Agendado"
    else if str_eq s "recovery"
    then "Recuperação"
    else s

-- `time.Duration.String` of whole seconds
unfoldable pub seconds_text : ℕ → String
seconds_text n =
    (if ltb n 3600 then "" else itoa (n / 3600) ⊕ "h")
    ⊕ (if ltb n 60 then "" else itoa (n / 60 % 60) ⊕ "m")
    ⊕ itoa (n % 60)
    ⊕ "s"

-- "duration"; a clock that was set back gives a negative one
unfoldable pub duration_text : ℕ → Run → String
duration_text now r =
    let end = if r.finished == 0 then now else r.finished in
    if r.started == 0
    then "—"
    else if ltb end r.started
    then "-" ⊕ seconds_text (r.started - end)
    else seconds_text (end - r.started)

abbrev pub days : List String
days = "Dom" ∷ "Seg" ∷ "Ter" ∷ "Qua" ∷ "Qui" ∷ "Sex" ∷ "Sáb" ∷ []

abbrev pub element : List String → ℕ → Option String
element [] n = none
element (x ∷ xs) zero = some x
element (x ∷ xs) (suc n) = element xs n

-- An index below zero panics too.
abbrev pub day_name : ℤ → Option String
day_name (pos n) = element days n
day_name (negsuc n) = none

abbrev pub weekly_text : String → Option String → Option String
weekly_text at none = none
weekly_text at (some day) = some (day ⊕ " às " ⊕ at)

-- "schedule"; `none` is the panic of an index out of range.
unfoldable pub schedule_text : Database → Option String
schedule_text d =
    if str_eq d.schedule_kind "interval"
    then some ("A cada " ⊕ int_text d.interval ⊕ " h")
    else if str_eq d.schedule_kind "weekly"
    then weekly_text d.at (day_name d.weekday)
    else some ("Diário às " ⊕ d.at)

size_tests :
    (size_text 1023 ≡ "1023 B") × (size_text 1536 ≡ "1.5 KB") × (size_text 5_242_880 ≡ "5.0 MB")
unfolding size_text rounded itoa
size_tests = (refl, refl, refl)

duration_test : seconds_text 3725 ≡ "1h2m5s"
unfolding seconds_text itoa
duration_test = refl

element-some : (xs : List String) (n : ℕ) → n < length xs → (x : String) × (element xs n ≡ some x)
element-some [] n h = absurd (omega (arith, h))
element-some (x ∷ xs) zero h = (x, refl)
element-some (x ∷ xs) (suc n) h = element-some xs n (omega (arith, h))

day_name-some : (i : ℤ) → between 0 6 i ≡ true → (day : String) × (day_name i ≡ some day)
day_name-some (pos n) h = element-some days n (ground arith)
day_name-some (negsuc n) h = cc h

-- A record whose schedule is accepted is shown without a panic: the text of its schedule exists.
pub schedule_text-some :
    (c : Cron) (d : Database) (next : ℕ → ℕ)
    → schedule c d ≡ ok next
    → (text : String) × (schedule_text d ≡ some text)
unfolding schedule_text
schedule_text-some c d next h = elim (Bool-cases (str_eq d.schedule_kind "interval")) [
  | inl i ↦ ("A cada " ⊕ int_text d.interval ⊕ " h", rw i refl)
  | inr i ↦ elim (Bool-cases (str_eq d.schedule_kind "weekly")) [
    | inl w ↦
        let (day, is) = day_name-some d.weekday (schedule-day c d next h w) in
        (day ⊕ " às " ⊕ d.at, rw (i, w, is) refl)
    | inr w ↦ ("Diário às " ⊕ d.at, rw (i, w) refl)
  ]
]
