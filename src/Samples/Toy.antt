-- ===== src/Samples/Toy.antt =====
-- A cipher that has the laws of the interface, and no strength: the box is the code points of the
-- text, and a number is written with one letter `a` per unit.
use Prim.Native.Nat.{Ordering, compare}
use Prim.Native.Char.{Char, code, char, nul, IsScalar}
use text.Mathlib.TextEquality.{IsScalar-prop}
use base_guard.Base.{
  ℕ, zero, suc, ◌+◌, String, true, false, [], ◌∷◌, Option, none, some, ok, ◌≡◌, refl, ap, ◌∙◌,
  codes, ◌==◌, arith,
}
use base_guard.Disk.{Bytes}
use base_guard.Security.{Cipher}

-- The character of a code point.
unfoldable scalar :
    (n : ℕ) (a b c : Ordering)
    → compare n 55296 ≡ a
    → compare 57343 n ≡ b
    → compare n 1114112 ≡ c
    → Char
scalar n Ordering.lt b c e f g = char n (rw e tt)
scalar n Ordering.eq Ordering.lt Ordering.lt e f g = char n (rw (e, f, g) tt)
scalar n Ordering.gt Ordering.lt Ordering.lt e f g = char n (rw (e, f, g) tt)
scalar n _ _ _ e f g = nul

unfoldable of_code : ℕ → Char
unfolding scalar
of_code n = scalar n _ _ _ refl refl refl

scalar-char :
    (n : ℕ) (p : IsScalar n) (a b c : Ordering) (e : compare n 55296 ≡ a) (f : compare 57343 n ≡ b)
    (g : compare n 1114112 ≡ c)
    → scalar n a b c e f g ≡ char n p
unfolding scalar
scalar-char n p Ordering.lt b c e f g = ap (char n) (IsScalar-prop n _ p)
scalar-char n p Ordering.eq Ordering.lt Ordering.lt e f g = ap (char n) (IsScalar-prop n _ p)
scalar-char n p Ordering.gt Ordering.lt Ordering.lt e f g = ap (char n) (IsScalar-prop n _ p)
scalar-char n p Ordering.eq Ordering.lt Ordering.eq e f g = absurd (rw (e, f, g) at p)
scalar-char n p Ordering.eq Ordering.lt Ordering.gt e f g = absurd (rw (e, f, g) at p)
scalar-char n p Ordering.eq Ordering.eq c e f g = absurd (rw (e, f) at p)
scalar-char n p Ordering.eq Ordering.gt c e f g = absurd (rw (e, f) at p)
scalar-char n p Ordering.gt Ordering.lt Ordering.eq e f g = absurd (rw (e, f, g) at p)
scalar-char n p Ordering.gt Ordering.lt Ordering.gt e f g = absurd (rw (e, f, g) at p)
scalar-char n p Ordering.gt Ordering.eq c e f g = absurd (rw (e, f) at p)
scalar-char n p Ordering.gt Ordering.gt c e f g = absurd (rw (e, f) at p)

unfoldable pub text_of : Bytes → String
unfolding of_code
text_of [] = ""
text_of (n ∷ b) = String.◌∷◌ (of_code n) (text_of b)

pub text_of-codes : (s : String) → text_of (codes s) ≡ s
unfolding text_of of_code
text_of-codes String.[] = refl
text_of-codes (String.◌∷◌ (char n p) s) =
    ap (λ c. String.◌∷◌ c (text_of (codes s))) (scalar-char n p _ _ _ refl refl refl)
    ∙ ap (String.◌∷◌ (char n p)) (text_of-codes s)

-- `n` letters `a`, then the rest
abbrev pub tally : ℕ → String → String
tally zero s = s
tally (suc n) s = String.◌∷◌ "a" (tally n s)

abbrev pub tallies : Bytes → String
tallies [] = ""
tallies (n ∷ b) = tally n (String.◌∷◌ "b" (tallies b))

abbrev pub put_first : ℕ → Option Bytes → Option Bytes
put_first n none = none
put_first n (some b) = some (n ∷ b)

abbrev pub count_from : ℕ → String → Option Bytes
count_from k String.[] = some []
count_from k (String.◌∷◌ c s) = elim (code c == 98) [
  | true ↦ put_first k (count_from 0 s)
  | false ↦ count_from (suc k) s
]

count_from-tally :
    (n k : ℕ) (s : String)
    → count_from k (tally n (String.◌∷◌ "b" s)) ≡ put_first (n + k) (count_from 0 s)
count_from-tally zero k s =
    ap (λ m. put_first m (count_from 0 s)) (let e : k ≡ 0 + k = omega arith in e)
count_from-tally (suc n) k s =
    count_from-tally n (suc k) s
    ∙ ap (λ m. put_first m (count_from 0 s)) (let e : n + suc k ≡ suc n + k = omega arith in e)

pub count_from-tallies : (b : Bytes) → count_from 0 (tallies b) ≡ some b
count_from-tallies [] = refl
count_from-tallies (n ∷ b) =
    count_from-tally n 0 (tallies b)
    ∙ ap (put_first (n + 0)) (count_from-tallies b)
    ∙ ap (λ m. some (m ∷ b)) (let e : n + 0 ≡ n = omega arith in e)

unfoldable pub toy : Cipher
toy = record {
  seal = λ key nonce s extra. codes s;
  unseal = λ key nonce box extra. ok (text_of box);
  encode = tallies;
  decode = count_from 0;
  unseal-seal = λ key nonce s extra. ap ok (text_of-codes s);
  decode-encode = count_from-tallies;
}
