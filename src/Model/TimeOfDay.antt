-- ===== src/Model/TimeOfDay.antt =====
-- `time.Parse("15:04", s)`: an hour of one or two digits, a colon, a minute of two digits.
use base_guard.Base.{
  ℕ, ◌+◌, ◌/◌, ◌%◌, ◌<◌, ◌++◌, arith, ◌↔◌, ◌⊎◌, inl, inr, true, ◌-◌, ◌*◌, ◌≡◌, refl, List, [], ◌∷◌,
  Option, none, some, String, Bool, ◌&&◌, ltb, leb, ◌==◌, if◌then◌else◌, codes,
}

abbrev is_digit : ℕ → Bool
is_digit c = leb 48 c && leb c 57

-- The minute, which ends the text; the ranges are tested as they are read.
minute_of : ℕ → List ℕ → Option (ℕ × ℕ)
minute_of h (a ∷ b ∷ []) =
    let m = (a - 48) * 10 + (b - 48) in
    if is_digit a && is_digit b && ltb m 60 && ltb h 24 then some (h, m) else none
minute_of h _ = none

after_hour : ℕ → List ℕ → Option (ℕ × ℕ)
after_hour h [] = none
after_hour h (c ∷ s) = if c == b':' then minute_of h s else none

hour_of : ℕ → List ℕ → Option (ℕ × ℕ)
hour_of a [] = none
hour_of a (b ∷ s) =
    if is_digit b then after_hour ((a - 48) * 10 + (b - 48)) s else after_hour (a - 48) (b ∷ s)

parse_codes : List ℕ → Option (ℕ × ℕ)
unfolding hour_of after_hour minute_of
parse_codes [] = none
parse_codes (a ∷ s) = if is_digit a then hour_of a s else none

-- The hour and the minute, or nothing where `time.Parse` fails.
unfoldable pub parse_time : String → Option (ℕ × ℕ)
unfolding parse_codes
parse_time s = parse_codes (codes s)

-- A two-digit number as `%02d` prints it.
abbrev pub two : ℕ → List ℕ
two n = (48 + n / 10) ∷ (48 + n % 10) ∷ []

-- The texts of a time of day: HH:MM, or H:MM before ten.
abbrev pub Spells : List ℕ → ℕ → ℕ → Type 0
Spells l h m =
    (h < 24) × (m < 60) × ((l ≡ two h ++ b':' ∷ two m) ⊎ ((h < 10) × (l ≡ (48 + h) ∷ b':' ∷ two m)))

minute_of-two :
    (k : ℕ) (s : List ℕ) (h m : ℕ)
    → minute_of k s ≡ some (h, m)
    → (k ≡ h) × (h < 24) × (m < 60) × (s ≡ two m)
unfolding minute_of
minute_of-two k (a ∷ b ∷ []) h m e = ground arith
minute_of-two k [] h m e = cc
minute_of-two k (a ∷ []) h m e = cc
minute_of-two k (a ∷ b ∷ c ∷ s) h m e = cc

after_hour-two :
    (k : ℕ) (s : List ℕ) (h m : ℕ)
    → after_hour k s ≡ some (h, m)
    → (k ≡ h) × (h < 24) × (m < 60) × (s ≡ b':' ∷ two m)
unfolding after_hour
after_hour-two k [] h m e = cc
after_hour-two k (c ∷ s) h m e = ground (arith, minute_of-two k s h m)

hour_of-Spells :
    (a : ℕ) (s : List ℕ) (h m : ℕ)
    → is_digit a ≡ true
    → hour_of a s ≡ some (h, m)
    → Spells (a ∷ s) h m
unfolding hour_of
hour_of-Spells a [] h m d e = cc
hour_of-Spells a (b ∷ s) h m d e =
    ground
      (arith, after_hour-two ((a - 48) * 10 + (b - 48)) s h m, after_hour-two (a - 48) (b ∷ s) h m)

parse_codes-Spells : (l : List ℕ) (h m : ℕ) → parse_codes l ≡ some (h, m) → Spells l h m
unfolding parse_codes
parse_codes-Spells [] h m e = cc
parse_codes-Spells (a ∷ l) h m e = ground (arith, hour_of-Spells a l h m)

Spells-parse_codes : (l : List ℕ) (h m : ℕ) → Spells l h m → parse_codes l ≡ some (h, m)
unfolding parse_codes
Spells-parse_codes l h m (p, q, inl e) = rw e (ground arith)
Spells-parse_codes l h m (p, q, inr (r, e)) = rw e (ground arith)

-- `parse_time` gives the time h:m exactly for the texts HH:MM of it, or H:MM for an hour before
-- ten, where h is below 24 and m below 60.
pub parse_time_iff : (s : String) (h m : ℕ) → (parse_time s ≡ some (h, m)) ↔ Spells (codes s) h m
unfolding parse_time
parse_time_iff s h m = (parse_codes-Spells (codes s) h m, Spells-parse_codes (codes s) h m)

parse_time_tests : (parse_time "7:05" ≡ some (7, 5)) × (parse_time "24:00" ≡ none)
unfolding parse_time
parse_time_tests = (refl, refl)
