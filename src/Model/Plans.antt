-- ===== src/Model/Plans.antt =====
-- What `Schedule` accepts and answers, described without its tests.
use base_guard.Base.{
  ℕ, ◌≤◌, ◌≡◌, ◌↔◌, ◌⊎◌, refl, sym, ap, ◌∙◌, inl, inr, String, true, Bool-cases, Option, none, some,
  ok, err, failure, str_eq, eq_iff, ◌⊕◌, itoa, pos, between, between_iff, codes, arith,
}
use base_guard.Model.Defs.{Database}
use base_guard.Model.TimeOfDay.{Spells, parse_time, parse_time_iff}
use base_guard.Model.Check.{Cron, every_of, at_time, weekly, schedule}

-- The text of a time of day, on the days that the last field names, is one that cron reads as `next`.
abbrev pub ReadsAs : Cron → Database → String → (ℕ → ℕ) → Type 0
ReadsAs c d day next =
    (hour : ℕ) × (minute : ℕ) × Spells (codes d.at) hour minute
    × (c.parse_standard
          ("CRON_TZ=" ⊕ d.timezone ⊕ " " ⊕ itoa minute ⊕ " " ⊕ itoa hour ⊕ " * * " ⊕ day)
        ≡ ok next)

-- The schedules: every 1 to 8760 hours, daily, or weekly on a day from 0 to 6.
abbrev pub Plans : Cron → Database → (ℕ → ℕ) → Type 0
Plans c d next =
    (c.known_zone d.timezone ≡ true)
    × (((d.schedule_kind ≡ "interval")
          × (n : ℕ) × (d.interval ≡ pos n)
          × (1 ≤ n)
          × (n ≤ 8760)
          × (next ≡ c.every_hours n))
        ⊎ (((d.schedule_kind ≡ "daily") × ReadsAs c d "*" next)
            ⊎ ((d.schedule_kind ≡ "weekly")
                × (n : ℕ) × (d.weekday ≡ pos n)
                × (n ≤ 6)
                × ReadsAs c d (itoa n) next)))

module _ (c : Cron) (d : Database) (next : ℕ → ℕ) where
  at_time-ReadsAs :
      (day : String) (o : Option (ℕ × ℕ))
      → parse_time d.at ≡ o
      → at_time c d day o ≡ ok next
      → ReadsAs c d day next
  unfolding at_time
  at_time-ReadsAs day none p h = cc h
  at_time-ReadsAs day (some (hour, minute)) p h =
      (hour, minute, (parse_time_iff d.at hour minute).0 p, h)

  ReadsAs-at_time :
      (day : String) → ReadsAs c d day next → at_time c d day (parse_time d.at) ≡ ok next
  unfolding at_time
  ReadsAs-at_time day (hour, minute, s, e) = rw ((parse_time_iff d.at hour minute).1 s) e

  weekly-ReadsAs :
      (o : Option (ℕ × ℕ))
      → parse_time d.at ≡ o
      → weekly c d o ≡ ok next
      → (n : ℕ) × (d.weekday ≡ pos n) × (n ≤ 6) × ReadsAs c d (itoa n) next
  unfolding weekly
  weekly-ReadsAs none p h = cc h
  weekly-ReadsAs (some t) p h = elim (Bool-cases (between 0 6 d.weekday)) [
    | inl b ↦
        let (n, e, lo, hi) = (between_iff 0 6 d.weekday).0 b in
        (n, e, hi, at_time-ReadsAs (itoa n) (some t) p (rw (b, e) at h))
    | inr b ↦ let bad : err (failure "dia da semana inválido") ≡ ok next = rw b at h in cc bad
  ]

  ReadsAs-weekly :
      (n : ℕ)
      → d.weekday ≡ pos n
      → n ≤ 6
      → ReadsAs c d (itoa n) next
      → weekly c d (parse_time d.at) ≡ ok next
  unfolding weekly at_time
  ReadsAs-weekly n e hi (hour, minute, s, k) =
      let b : between 0 6 d.weekday ≡ true =
        (between_iff 0 6 d.weekday).1 (n, e, omega arith, hi) in
      rw ((parse_time_iff d.at hour minute).1 s, b, e) k

  schedule-Plans : schedule c d ≡ ok next → Plans c d next
  unfolding schedule every_of
  schedule-Plans h = elim (Bool-cases (c.known_zone d.timezone)) [
    | inl z ↦ elim (Bool-cases (str_eq d.schedule_kind "interval")) [
      | inl i ↦ elim (Bool-cases (between 1 8760 d.interval)) [
        | inl b ↦
            let (n, e, lo, hi) = (between_iff 1 8760 d.interval).0 b in
            let k : ok (c.every_hours n) ≡ ok next = rw (z, i, b, e) at h in
            (z, inl ((eq_iff d.schedule_kind "interval").0 i, n, e, lo, hi, cc k))
        | inr b ↦
            let bad : err (failure "intervalo deve ser de 1 a 8760 horas") ≡ ok next =
              rw (z, i, b) at h in
            cc bad
      ]
      | inr i ↦ elim (Bool-cases (str_eq d.schedule_kind "daily")) [
        | inl a ↦
            let k : at_time c d "*" (parse_time d.at) ≡ ok next = rw (z, i, a) at h in
            (
              z,
              inr (
                  inl (
                    (eq_iff d.schedule_kind "daily").0 a,
                    at_time-ReadsAs "*" (parse_time d.at) refl k,
                  )),
            )
        | inr a ↦ elim (Bool-cases (str_eq d.schedule_kind "weekly")) [
          | inl w ↦
              let k : weekly c d (parse_time d.at) ≡ ok next = rw (z, i, a, w) at h in
              (
                z,
                inr (
                    inr (
                      let (n, e, hi, r) = weekly-ReadsAs (parse_time d.at) refl k in
                      ((eq_iff d.schedule_kind "weekly").0 w, n, e, hi, r))),
              )
          | inr w ↦
              let bad : err (failure "frequência inválida") ≡ ok next = rw (z, i, a, w) at h in
              cc bad
        ]
      ]
    ]
    | inr z ↦ let bad : err (failure "fuso horário inválido") ≡ ok next = rw z at h in cc bad
  ]

  Plans-schedule : Plans c d next → schedule c d ≡ ok next
  unfolding schedule every_of
  Plans-schedule (z, inl (k, n, e, lo, hi, s)) =
      let b : between 1 8760 d.interval ≡ true = (between_iff 1 8760 d.interval).1 (n, e, lo, hi) in
      rw (z, k, b, e) (ap ok (sym s))
  Plans-schedule (z, inr (inl (k, r))) = rw (z, k) (ReadsAs-at_time "*" r)
  Plans-schedule (z, inr (inr (k, n, e, hi, r))) = rw (z, k) (ReadsAs-weekly n e hi r)

  pub schedule_iff : (schedule c d ≡ ok next) ↔ Plans c d next
  schedule_iff = (schedule-Plans, Plans-schedule)

  -- The day of an accepted weekly schedule.
  pub schedule-day :
      schedule c d ≡ ok next → str_eq d.schedule_kind "weekly" ≡ true → between 0 6 d.weekday ≡ true
  schedule-day h w = day ((schedule_iff).0 h).1
    where
      weekly_kind : {kind : String} → d.schedule_kind ≡ kind → str_eq kind "weekly" ≡ true
      weekly_kind e = ap (λ k. str_eq k "weekly") (sym e) ∙ w

      day :
          ((d.schedule_kind ≡ "interval")
              × (n : ℕ) × (d.interval ≡ pos n)
              × (1 ≤ n)
              × (n ≤ 8760)
              × (next ≡ c.every_hours n))
            ⊎ (((d.schedule_kind ≡ "daily") × ReadsAs c d "*" next)
                ⊎ ((d.schedule_kind ≡ "weekly")
                    × (n : ℕ) × (d.weekday ≡ pos n)
                    × (n ≤ 6)
                    × ReadsAs c d (itoa n) next))
          → between 0 6 d.weekday ≡ true
      day (inl (k, n, e, lo, hi, s)) = let bad = weekly_kind k in cc bad
      day (inr (inl (k, r))) = let bad = weekly_kind k in cc bad
      day (inr (inr (k, n, e, hi, r))) = (between_iff 0 6 d.weekday).1 (n, e, omega arith, hi)
