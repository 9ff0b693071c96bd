-- ===== src/Native/Escape.antt =====
-- The two `strings.NewReplacer` of `credentials`, which put a backslash before a few characters, and a
-- reader of such texts.
use Prim.Native.Char.{Char, code}
use Prim.Native.String.append.{nil, cons}
use base_guard.Base.{
  ℕ, ◌≡◌, refl, String, Bool, true, false, ◌||◌, Option, none, some, All, codes, ◌==◌, ◌⊕◌,
  if◌then◌else◌, arith, Bool-cases, inl, inr,
}

abbrev pub backslash : ℕ
backslash = b'\\'

-- The replacer of the backslash and of `other`.
unfoldable pub escape : ℕ → String → String
escape other String.[] = ""
escape other (String.◌∷◌ c s) =
    let rest = escape other s in
    if code c == backslash || code c == other
    then String.◌∷◌ "\\" (String.◌∷◌ c rest)
    else String.◌∷◌ c rest

abbrev pub put_char : Char → Option (String × String) → Option (String × String)
put_char c none = none
put_char c (some (field, rest)) = some (String.◌∷◌ c field, rest)

-- A field that ends at the first `stop`, where a backslash takes the next character as it is: the
-- field and what follows the stop. The first argument tells that a backslash was just read.
unfoldable pub read_field : Bool → ℕ → String → Option (String × String)
read_field pending stop String.[] = none
read_field true stop (String.◌∷◌ c s) = put_char c (read_field false stop s)
read_field false stop (String.◌∷◌ c s) =
    let quoted = read_field true stop s in
    let plain = put_char c (read_field false stop s) in
    if code c == backslash then quoted else if code c == stop then some ("", s) else plain

read_field-plain :
    (stop : ℕ) (c : Char) (s : String)
    → (code c == backslash) ≡ false
    → (code c == stop) ≡ false
    → read_field false stop (String.◌∷◌ c s) ≡ put_char c (read_field false stop s)
unfolding read_field
read_field-plain stop c s f g = rw (f, g) refl

-- Every stop in the text is escaped.
abbrev pub Stops : ℕ → ℕ → String → Type 0
Stops other stop s = All (λ c. (c == stop) ≡ true → (c == other) ≡ true) (codes s)

-- The reader takes an escaped text up to a stop that is not the backslash, and gives the text back.
pub read_field-escape :
    (other stop : ℕ) (d : Char) (s rest : String)
    → (code d == stop) ≡ true
    → (code d == backslash) ≡ false
    → Stops other stop s
    → read_field false stop (escape other s ⊕ String.◌∷◌ d rest) ≡ some (s, rest)
unfolding read_field escape
read_field-escape other stop d String.[] rest e f h = rw (nil (String.◌∷◌ d rest), f, e) refl
read_field-escape other stop d (String.◌∷◌ c s) rest e f (p, h) =
    elim (Bool-cases (code c == backslash || code c == other)) [
      | inl t ↦
          rw
            (
              t,
              cons "\\" (String.◌∷◌ c (escape other s)) (String.◌∷◌ d rest),
              cons c (escape other s) (String.◌∷◌ d rest),
              read_field-escape other stop d s rest e f h,
            )
            refl
      | inr t ↦
          let slash : (code c == backslash) ≡ false = ground arith in
          let plain : (code c == stop) ≡ false = ground (arith, p) in
          rw
            (
              t,
              cons c (escape other s) (String.◌∷◌ d rest),
              slash,
              plain,
              read_field-escape other stop d s rest e f h,
            )
            refl
    ]
