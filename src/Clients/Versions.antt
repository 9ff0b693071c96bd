-- ===== src/Clients/Versions.antt =====
-- `serverSeries`: the series in the version that a server reports.
use Prim.Native.Char.{code}
use Prim.Native.String.append.{nil, cons}
use base_guard.Base.{
  codes, map, ◌+◌, List, [], ◌∷◌, ℕ, ◌≡◌, refl, ap, String, Bool, true, false, not, ◌&&◌, ◌||◌,
  Option, none, some, leb, ◌==◌, str_eq, ◌⊕◌, is_space, Error, failure, Result, ok, err,
  if◌then◌else◌, arith, Bool-cases, inl, inr,
}

abbrev pub is_digit : ℕ → Bool
is_digit c = leb 48 c && leb c 57

-- The digits that a text begins with, and the rest: `[0-9]+` or nothing.
unfoldable pub digits : String → String × String
digits String.[] = ("", "")
digits (String.◌∷◌ c s) =
    let (ds, rest) = digits s in
    if is_digit (code c) then (String.◌∷◌ c ds, rest) else ("", String.◌∷◌ c s)

abbrev pub after_dot : String → Option String
after_dot String.[] = none
after_dot (String.◌∷◌ c s) = if code c == 46 then some s else none

abbrev pub minor_of : String → Option String → Option (String × String)
minor_of major none = none
minor_of major (some s) =
    let (minor, _) = digits s in if str_eq minor "" then none else some (major, minor)

-- The first two groups of `numericVersion`.
unfoldable pub numeric_version : String → Option (String × String)
numeric_version s =
    let (major, rest) = digits s in
    if str_eq major "" then none else minor_of major (after_dot rest)

-- The left part of `strings.TrimSpace`; what is trimmed on the right does not matter to the pattern.
unfoldable pub trim_left : String → String
trim_left String.[] = ""
trim_left (String.◌∷◌ c s) =
    let rest = trim_left s in if is_space (code c) then rest else String.◌∷◌ c s

-- The rest of a text that begins with `p`.
unfoldable pub strip : String → String → Option String
strip String.[] s = some s
strip (String.◌∷◌ c p) String.[] = none
strip (String.◌∷◌ c p) (String.◌∷◌ d s) =
    let rest = strip p s in if code c == code d then rest else none

abbrev pub or_same : String → Option String → String
or_same s none = s
or_same s (some rest) = rest

-- `strings.TrimPrefix(s, p)`
abbrev pub trim_prefix : String → String → String
trim_prefix s p = or_same s (strip p s)

abbrev pub series_of : String → String → Option (String × String) → Result String
series_of engine raw none = err (failure ("versão de servidor não reconhecida: " ⊕ raw))
series_of engine raw (some (major, minor)) =
    if str_eq engine "postgres" then ok major else ok (major ⊕ "." ⊕ minor)

abbrev pub mismatch : String → Error
mismatch engine = failure (
    "mecanismo selecionado (" ⊕ engine
    ⊕ ") difere do servidor detectado; confira o campo Mecanismo")

-- `unicode.ToLower`, as far as it gives ASCII letters: those of A to Z, and the two letters outside
-- ASCII that have one.
abbrev pub lower_code : ℕ → ℕ
lower_code c =
    if leb 65 c && leb c 90
    then c + 32
    else if c == 0x130
    then 105
    else if c == 0x212a
    then 107
    else c

abbrev pub begins : List ℕ → List ℕ → Bool
begins [] s = true
begins (c ∷ p) [] = false
begins (c ∷ p) (d ∷ s) = c == d && begins p s

abbrev pub has_part : List ℕ → List ℕ → Bool
has_part p [] = begins p []
has_part p (c ∷ s) = begins p (c ∷ s) || has_part p s

-- `strings.Contains(strings.ToLower(s), "mariadb")`
unfoldable pub names_maria : String → Bool
names_maria s = has_part (codes "mariadb") (map lower_code (codes s))

abbrev pub mismatched : String → Bool → Bool
mismatched engine maria = (str_eq engine "mysql" && maria) || (str_eq engine "mariadb" && not maria)

-- `serverSeries`
unfoldable pub server_series : String → String → String → Result String
server_series engine raw vendor =
    let maria = names_maria (raw ⊕ " " ⊕ vendor) in
    let raw' = if maria then trim_prefix raw "5.5.5-" else raw in
    if mismatched engine maria
    then err (mismatch engine)
    else series_of engine raw' (numeric_version (trim_left raw'))

-- A text of one or more digits.
abbrev pub IsNumeral : String → Type 0
IsNumeral s = (digits s ≡ (s, "")) × (str_eq s "" ≡ false)

-- A text that begins with no digit.
abbrev pub IsTail : String → Type 0
IsTail s = digits s ≡ ("", s)

rest_of : String → String
rest_of String.[] = ""
rest_of (String.◌∷◌ c s) = s

digits-append : (a t : String) → digits a ≡ (a, "") → IsTail t → digits (a ⊕ t) ≡ (a, t)
unfolding digits rest_of
digits-append String.[] t h k = rw (nil t) k
digits-append (String.◌∷◌ c a) t h k = elim (Bool-cases (is_digit (code c))) [
  | inl d ↦
      let inner : digits a ≡ (a, "") =
        let e : (String.◌∷◌ c (digits a).0, (digits a).1) ≡ (String.◌∷◌ c a, "") = rw d at h in
        ap (λ q. (rest_of q.0, q.1)) e in
      rw (cons c a t, digits-append a t inner k, d) refl
  | inr d ↦ let e : ("", String.◌∷◌ c a) ≡ (String.◌∷◌ c a, "") = rw d at h in cc (ap (λ q. q.0) e)
]

digit-is_space : (n : ℕ) → is_digit n ≡ true → is_space n ≡ false
unfolding is_space
digit-is_space n h = ground arith

trim_left-numeral : (a t : String) → IsNumeral a → trim_left (a ⊕ t) ≡ a ⊕ t
unfolding trim_left digits
trim_left-numeral String.[] t (d, n) = cc
trim_left-numeral (String.◌∷◌ c a) t (d, n) = elim (Bool-cases (is_digit (code c))) [
  | inl f ↦ rw (cons c a t, digit-is_space (code c) f) refl
  | inr f ↦ let e : ("", String.◌∷◌ c a) ≡ (String.◌∷◌ c a, "") = rw f at d in cc (ap (λ q. q.0) e)
]

-- A version as the servers write it: the series, and more after it.
abbrev pub version_text : String → String → String → String
version_text major minor tail = major ⊕ ("." ⊕ (minor ⊕ tail))

numeric_version-version_text :
    (major minor tail : String)
    → IsNumeral major
    → IsNumeral minor
    → IsTail tail
    → numeric_version (trim_left (version_text major minor tail)) ≡ some (major, minor)
unfolding numeric_version digits
numeric_version-version_text major minor tail (d, n) (e, m) t =
    let rest = "." ⊕ (minor ⊕ tail) in
    let dotted : IsTail rest = rw (cons "." "" (minor ⊕ tail), nil (minor ⊕ tail)) refl in
    rw
      (
        trim_left-numeral major rest (d, n),
        digits-append major rest d dotted,
        n,
        cons "." "" (minor ⊕ tail),
        nil (minor ⊕ tail),
        digits-append minor tail e t,
        m,
      )
      refl

pub strip-append : (p s : String) → strip p (p ⊕ s) ≡ some s
unfolding strip
strip-append String.[] s = ap some (nil s)
strip-append (String.◌∷◌ c p) s =
    let same : (code c == code c) ≡ true = ground arith in rw (cons c p s, same) (strip-append p s)

module _ (vendor major minor tail : String) where
  -- A server that does not name MariaDB and reports two numbers with a dot between them, whatever
  -- follows: its series is the first number for PostgreSQL, and the two numbers for MySQL; as MariaDB it
  -- is refused.
  pub server_series-plain :
      IsNumeral major
      → IsNumeral minor
      → IsTail tail
      → names_maria (version_text major minor tail ⊕ " " ⊕ vendor) ≡ false
      → (server_series "postgres" (version_text major minor tail) vendor ≡ ok major)
        × (server_series "mysql" (version_text major minor tail) vendor ≡ ok (major ⊕ "." ⊕ minor))
        × (server_series "mariadb" (version_text major minor tail) vendor
            ≡ err (mismatch "mariadb"))
  unfolding server_series
  server_series-plain d e t m =
      let read = numeric_version-version_text major minor tail d e t in
      (rw (m, read) refl, rw (m, read) refl, rw m refl)

  -- A server that names MariaDB and reports the two numbers behind the prefix "5.5.5-" of its old
  -- protocol: its series is the two numbers; as MySQL it is refused.
  pub server_series-prefixed :
      IsNumeral major
      → IsNumeral minor
      → IsTail tail
      → names_maria (("5.5.5-" ⊕ version_text major minor tail) ⊕ " " ⊕ vendor) ≡ true
      → (server_series "mariadb" ("5.5.5-" ⊕ version_text major minor tail) vendor
          ≡ ok (major ⊕ "." ⊕ minor))
        × (server_series "mysql" ("5.5.5-" ⊕ version_text major minor tail) vendor
            ≡ err (mismatch "mysql"))
  unfolding server_series
  server_series-prefixed d e t m =
      let raw = version_text major minor tail in
      let read = numeric_version-version_text major minor tail d e t in
      (rw (m, strip-append "5.5.5-" raw, read) refl, rw m refl)
