-- ===== src/Clients/Numeral.antt =====
-- The texts that `strconv.Atoi` reads as a number without a minus sign.
use Prim.Native.Char.{code}
use base_guard.Base.{
  ℕ, ◌+◌, ◌*◌, ◌-◌, ◌≤◌, ◌≡◌, ◌≢◌, ◌⊎◌, ◌↔◌, ◌&&◌, refl, sym, subst, ap, ◌∙◌, inl, inr, String,
  true, false, not, List, [], ◌∷◌, none, some, All, codes, ◌==◌, str_eq, eq_iff, Bool-cases, arith,
}
use base_guard.Clients.Versions.{is_digit}
use base_guard.Clients.Matrix.{digits_from, atoi}

-- The value of decimal digits that are read on from `n`.
abbrev decimal : ℕ → List ℕ → ℕ
decimal n [] = n
decimal n (d ∷ ds) = decimal (n * 10 + (d - 48)) ds

abbrev AllDigits : List ℕ → Type 0
AllDigits ds = All (λ d. (48 ≤ d) × (d ≤ 57)) ds

-- One or more digits, perhaps after a plus sign, that stand for `n`.
abbrev pub Numeral : String → ℕ → Type 0
Numeral s n =
    (ds : List ℕ) × ((codes s ≡ ds) ⊎ (codes s ≡ b'+' ∷ ds))
    × (ds ≢ [])
    × AllDigits ds
    × (decimal 0 ds ≡ n)

digits_from-decimal :
    (k : ℕ) (s : String) (n : ℕ)
    → digits_from k s ≡ some n
    → AllDigits (codes s) × (decimal k (codes s) ≡ n)
unfolding digits_from
digits_from-decimal k String.[] n h = (tt, cc h)
digits_from-decimal k (String.◌∷◌ c s) n h = elim (Bool-cases (is_digit (code c))) [
  | inl t ↦
      let (a, e) = digits_from-decimal (k * 10 + (code c - 48)) s n (rw t at h) in
      (((ground arith, ground arith), a), e)
  | inr t ↦ let bad : none ≡ some n = rw t at h in cc bad
]

decimal-digits_from :
    (k : ℕ) (s : String) → AllDigits (codes s) → digits_from k s ≡ some (decimal k (codes s))
unfolding digits_from
decimal-digits_from k String.[] a = refl
decimal-digits_from k (String.◌∷◌ c s) ((lo, hi), a) =
    let t : is_digit (code c) ≡ true = ground arith in
    rw t (decimal-digits_from (k * 10 + (code c - 48)) s a)

cons-nil : {d : ℕ} {ds : List ℕ} → d ∷ ds ≡ [] → ⊥
cons-nil e = cc e

codes-filled : (s : String) → str_eq s "" ≡ false → codes s ≢ []
codes-filled String.[] f e = cc f
codes-filled (String.◌∷◌ c s) f e = cons-nil e

filled-codes : (s : String) → codes s ≢ [] → str_eq s "" ≡ false
filled-codes s n = elim (Bool-cases (str_eq s "")) [
  | inl t ↦ absurd (n (ap codes ((eq_iff s "").0 t)))
  | inr f ↦ f
]

atoi-Numeral : (s : String) (n : ℕ) → atoi s ≡ some n → Numeral s n
unfolding atoi
atoi-Numeral String.[] n h = cc h
atoi-Numeral (String.◌∷◌ c s) n h = elim (Bool-cases (is_digit (code c))) [
  | inl t ↦
      let (a, e) = digits_from-decimal 0 (String.◌∷◌ c s) n (rw t at h) in
      (codes (String.◌∷◌ c s), inl refl, (λ k. cons-nil k), a, e)
  | inr t ↦ elim (Bool-cases (code c == 43 && not (str_eq s ""))) [
    | inl p ↦
        let (a, e) = digits_from-decimal 0 s n (rw (t, p) at h) in
        let plus : code c ≡ b'+' = ground arith in
        (codes s, inr (ap (λ d. d ∷ codes s) plus), codes-filled s (ground arith), a, e)
    | inr p ↦ let bad : none ≡ some n = rw (t, p) at h in cc bad
  ]
]

Numeral-atoi : (s : String) (n : ℕ) → Numeral s n → atoi s ≡ some n
unfolding atoi
Numeral-atoi String.[] n (ds, inl e, filled, a, v) = absurd (filled (sym e))
Numeral-atoi String.[] n (ds, inr e, filled, a, v) = absurd (cons-nil (sym e))
Numeral-atoi (String.◌∷◌ c s) n (ds, inl e, filled, a, v) =
    let all : AllDigits (codes (String.◌∷◌ c s)) = subst AllDigits (sym e) a in
    let t : is_digit (code c) ≡ true = ground (arith, all.0) in
    let value : decimal 0 (codes (String.◌∷◌ c s)) ≡ n = ap (decimal 0) e ∙ v in
    rw t (decimal-digits_from 0 (String.◌∷◌ c s) all ∙ ap some value)
Numeral-atoi (String.◌∷◌ c s) n (ds, inr e, filled, a, v) =
    let plus : code c ≡ b'+' = cc e in
    let rest : codes s ≡ ds = cc e in
    let t : is_digit (code c) ≡ false = ground arith in
    let there : str_eq s "" ≡ false = filled-codes s (λ k. filled (sym rest ∙ k)) in
    let p : (code c == 43 && not (str_eq s "")) ≡ true = ground arith in
    let all : AllDigits (codes s) = subst AllDigits (sym rest) a in
    rw (t, p) (decimal-digits_from 0 s all ∙ ap some (ap (decimal 0) rest ∙ v))

pub atoi_iff : (s : String) (n : ℕ) → (atoi s ≡ some n) ↔ Numeral s n
atoi_iff s n = (atoi-Numeral s n, Numeral-atoi s n)
