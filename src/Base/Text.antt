-- ===== src/Base/Text.antt =====
-- What the program uses of Go's `strings` and `strconv`, over the native texts. A Go string that is
-- not valid UTF-8 has no counterpart.
use Prim.Native.Nat.{ℕ, zero, suc, ◌+◌, ◌-◌, ◌*◌, ◌/◌, ◌%◌, ◌≤◌, ◌<◌}
use Prim.Native.Char.{Char, code}
use Prim.Native.String.{String}
use Prim.Native.String
use Prim.Native.String.append.{nil, cons}
use mathlib.Core.Logic.{inl, inr}
use mathlib.Core.Path.{◌≡◌, refl, sym, ap, ◌∙◌, subst}
use text.Mathlib.TextLemmas.{append_assoc}
use mathlib.Core.Bool.{Bool, true, false, ◌&&◌, ◌||◌}
use mathlib.Core.List.{List, [], ◌∷◌}
use mathlib.Core.Option.{none, some}
use text.Mathlib.Text.{find?}
use native.Mathlib.Omega.{arith}
use base_guard.Base.Tests.{ltb, leb, ◌==◌, if◌then◌else◌, Bool-cases}
use base_guard.Base.Lists.{any}

-- The code points of a text.
abbrev pub codes : String → List ℕ
codes String.[] = []
codes (String.◌∷◌ c s) = code c ∷ codes s

-- `a + b`
infixr 66 ◌⊕◌
abbrev pub ◌⊕◌ : String → String → String
a ⊕ b = String.◌++◌ a b

-- `unicode.IsSpace`
unfoldable pub is_space : ℕ → Bool
is_space c =
    (leb 9 c && leb c 13)
    || c == 32
    || c == 0x85
    || c == 0xa0
    || c == 0x1680
    || (leb 0x2000 c && leb c 0x200a)
    || c == 0x2028
    || c == 0x2029
    || c == 0x202f
    || c == 0x205f
    || c == 0x3000

-- `strings.TrimSpace(s) == ""`
unfoldable pub is_blank : String → Bool
unfolding is_space
is_blank String.[] = true
is_blank (String.◌∷◌ c s) = is_space (code c) && is_blank s

-- `strings.ContainsAny(s, chars)`, by the code points of `chars`
unfoldable pub contains_any : List ℕ → String → Bool
contains_any chars s = any (λ c. any (λ d. c == d) chars) (codes s)

-- `strings.Contains(s, sub)`
unfoldable pub contains : String → String → Bool
contains s sub = elim (find? s sub) [ none ↦ false | some _ ↦ true ]

digit : ℕ → String
digit zero = "0"
digit (suc zero) = "1"
digit (suc (suc zero)) = "2"
digit (suc (suc (suc zero))) = "3"
digit (suc (suc (suc (suc zero)))) = "4"
digit (suc (suc (suc (suc (suc zero))))) = "5"
digit (suc (suc (suc (suc (suc (suc zero)))))) = "6"
digit (suc (suc (suc (suc (suc (suc (suc zero))))))) = "7"
digit (suc (suc (suc (suc (suc (suc (suc (suc zero)))))))) = "8"
digit _ = "9"

-- `strconv.Itoa` of a number that is not negative; the number itself is fuel enough.
itoa_from : ℕ → ℕ → String → String
itoa_from zero n acc = digit (n % 10) ⊕ acc
itoa_from (suc f) n acc =
    let more = itoa_from f (n / 10) (digit (n % 10) ⊕ acc) in
    if ltb n 10 then digit n ⊕ acc else more

unfoldable pub itoa : ℕ → String
unfolding itoa_from digit
itoa n = itoa_from n n ""

-- `%02d` and `%04d`, of a number that has no more digits
unfoldable pub pad2 : ℕ → String
unfolding digit
pad2 n = digit (n / 10) ⊕ digit (n % 10)

unfoldable pub pad4 : ℕ → String
unfolding pad2
pad4 n = pad2 (n / 100) ⊕ pad2 (n % 100)

-- A test that every character passes.
abbrev pub every : (ℕ → Bool) → String → Bool
every p String.[] = true
every p (String.◌∷◌ c s) = p (code c) && every p s

every-digit :
    (p : ℕ → Bool) (n : ℕ) (s : String)
    → ((k : ℕ) → (leb 48 k && leb k 57) ≡ true → p k ≡ true)
    → every p s ≡ true
    → every p (digit n ⊕ s) ≡ true
unfolding digit
every-digit p zero s h e = rw (cons "0" "" s, nil s, h 48 refl) e
every-digit p (suc zero) s h e = rw (cons "1" "" s, nil s, h 49 refl) e
every-digit p (suc (suc zero)) s h e = rw (cons "2" "" s, nil s, h 50 refl) e
every-digit p (suc (suc (suc zero))) s h e = rw (cons "3" "" s, nil s, h 51 refl) e
every-digit p (suc (suc (suc (suc zero)))) s h e = rw (cons "4" "" s, nil s, h 52 refl) e
every-digit p (suc (suc (suc (suc (suc zero))))) s h e = rw (cons "5" "" s, nil s, h 53 refl) e
every-digit p (suc (suc (suc (suc (suc (suc zero)))))) s h e =
    rw (cons "6" "" s, nil s, h 54 refl) e
every-digit p (suc (suc (suc (suc (suc (suc (suc zero))))))) s h e =
    rw (cons "7" "" s, nil s, h 55 refl) e
every-digit p (suc (suc (suc (suc (suc (suc (suc (suc zero)))))))) s h e =
    rw (cons "8" "" s, nil s, h 56 refl) e
every-digit p (suc (suc (suc (suc (suc (suc (suc (suc (suc n))))))))) s h e =
    rw (cons "9" "" s, nil s, h 57 refl) e

every-itoa_from :
    (p : ℕ → Bool) (f n : ℕ) (s : String)
    → ((k : ℕ) → (leb 48 k && leb k 57) ≡ true → p k ≡ true)
    → every p s ≡ true
    → every p (itoa_from f n s) ≡ true
unfolding itoa_from
every-itoa_from p zero n s h e = every-digit p (n % 10) s h e
every-itoa_from p (suc f) n s h e = elim (Bool-cases (ltb n 10)) [
  | inl t ↦ rw t (every-digit p n s h e)
  | inr t ↦
      rw t (every-itoa_from p f (n / 10) (digit (n % 10) ⊕ s) h (every-digit p (n % 10) s h e))
]

-- The text of a number has digits only.
pub every-itoa :
    (p : ℕ → Bool) (n : ℕ)
    → ((k : ℕ) → (leb 48 k && leb k 57) ≡ true → p k ≡ true)
    → every p (itoa n) ≡ true
unfolding itoa
every-itoa p n h = every-itoa_from p n n "" h refl

-- Fields of a fixed width have digits only.
pub every-pad2 :
    (p : ℕ → Bool) (n : ℕ) (s : String)
    → ((k : ℕ) → (leb 48 k && leb k 57) ≡ true → p k ≡ true)
    → every p s ≡ true
    → every p (pad2 n ⊕ s) ≡ true
unfolding pad2
every-pad2 p n s h e =
    subst (λ x. every p x ≡ true) (sym (append_assoc (digit (n / 10)) (digit (n % 10)) s))
      (every-digit p (n / 10) _ h (every-digit p (n % 10) s h e))

pub every-pad4 :
    (p : ℕ → Bool) (n : ℕ) (s : String)
    → ((k : ℕ) → (leb 48 k && leb k 57) ≡ true → p k ≡ true)
    → every p s ≡ true
    → every p (pad4 n ⊕ s) ≡ true
unfolding pad4
every-pad4 p n s h e =
    subst (λ x. every p x ≡ true) (sym (append_assoc (pad2 (n / 100)) (pad2 (n % 100)) s))
      (every-pad2 p (n / 100) _ h (every-pad2 p (n % 100) s h e))

-- The number that a text begins with; `acc` is what its digits so far stand for.
unfoldable pub number_from : ℕ → String → ℕ
number_from acc String.[] = acc
number_from acc (String.◌∷◌ c s) =
    let rest = number_from (acc * 10 + (code c - 48)) s in
    if leb 48 (code c) && leb (code c) 57 then rest else acc

-- `k` stands for a digit of its own value.
digit-code : (n : ℕ) → n < 10 → (c : Char) × (digit n ≡ String.◌∷◌ c "") × (code c ≡ 48 + n)
unfolding digit
digit-code zero h = ("0", refl, refl)
digit-code (suc zero) h = ("1", refl, refl)
digit-code (suc (suc zero)) h = ("2", refl, refl)
digit-code (suc (suc (suc zero))) h = ("3", refl, refl)
digit-code (suc (suc (suc (suc zero)))) h = ("4", refl, refl)
digit-code (suc (suc (suc (suc (suc zero))))) h = ("5", refl, refl)
digit-code (suc (suc (suc (suc (suc (suc zero)))))) h = ("6", refl, refl)
digit-code (suc (suc (suc (suc (suc (suc (suc zero))))))) h = ("7", refl, refl)
digit-code (suc (suc (suc (suc (suc (suc (suc (suc zero)))))))) h = ("8", refl, refl)
digit-code (suc (suc (suc (suc (suc (suc (suc (suc (suc zero))))))))) h = ("9", refl, refl)
digit-code (suc (suc (suc (suc (suc (suc (suc (suc (suc (suc n)))))))))) h =
    absurd (omega (arith, h))

number_from-digit :
    (acc n : ℕ) (s : String) → n < 10 → number_from acc (digit n ⊕ s) ≡ number_from (acc * 10 + n) s
unfolding number_from
number_from-digit acc n s h =
    let (c, e, k) = digit-code n h in
    let lo : leb 48 (code c) ≡ true = ground (arith, k) in
    let hi : leb (code c) 57 ≡ true = ground (arith, k, h) in
    let value : code c - 48 ≡ n = omega (arith, k) in
    ap (λ x. number_from acc (x ⊕ s)) e
    ∙ ap (number_from acc) (cons c "" s)
    ∙ rw (lo, hi, value, nil s) refl

number_from-itoa_from :
    (f n : ℕ) (s : String) → n ≤ f → number_from 0 (itoa_from f n s) ≡ number_from n s
unfolding itoa_from
number_from-itoa_from zero n s h =
    let e : 0 * 10 + n % 10 ≡ n = omega (arith, h) in
    number_from-digit 0 (n % 10) s (omega arith) ∙ ap (λ x. number_from x s) e
number_from-itoa_from (suc f) n s h = elim (Bool-cases (ltb n 10)) [
  | inl t ↦
      let e : 0 * 10 + n ≡ n = omega arith in
      rw t (number_from-digit 0 n s (ground arith) ∙ ap (λ x. number_from x s) e)
  | inr t ↦
      let less : n / 10 ≤ f = ground (arith, h, t) in
      let back : n / 10 * 10 + n % 10 ≡ n = omega arith in
      rw t (
        number_from-itoa_from f (n / 10) (digit (n % 10) ⊕ s) less
        ∙ number_from-digit (n / 10) (n % 10) s (omega arith)
        ∙ ap (λ x. number_from x s) back)
]

itoa_from-append : (f n : ℕ) (t s : String) → itoa_from f n t ⊕ s ≡ itoa_from f n (t ⊕ s)
unfolding itoa_from
itoa_from-append zero n t s = append_assoc (digit (n % 10)) t s
itoa_from-append (suc f) n t s = elim (Bool-cases (ltb n 10)) [
  | inl e ↦ rw e (append_assoc (digit n) t s)
  | inr e ↦ rw e (
      itoa_from-append f (n / 10) (digit (n % 10) ⊕ t) s
      ∙ ap (itoa_from f (n / 10)) (append_assoc (digit (n % 10)) t s))
]

-- `itoa` writes what `number_from` reads.
pub number_from-itoa : (n : ℕ) (s : String) → number_from 0 (itoa n ⊕ s) ≡ number_from n s
unfolding itoa
number_from-itoa n s =
    ap (number_from 0) (itoa_from-append n n "" s ∙ ap (itoa_from n n) (nil s))
    ∙ number_from-itoa_from n n s (omega arith)

itoa_test : itoa 1203 ≡ "1203"
unfolding itoa
itoa_test = refl
