-- ===== src/Native/Versions.antt =====
-- `clientVersion`: the version that a tool prints. `(?i)` and `strings.ToLower` are by code points.
use Prim.Native.Char.{code}
use base_guard.Base.{
  ◌≡◌, refl, ℕ, ◌+◌, String, Bool, false, ◌&&◌, ◌||◌, Option, none, some, leb, ◌==◌, str_eq, ◌⊕◌,
  failure, Result, ok, err, if◌then◌else◌, is_space,
}
use base_guard.Clients.Versions.{is_digit, digits, after_dot, trim_left, lower_code}

-- The right part of `strings.TrimSpace`.
unfoldable pub trim_right : String → String
trim_right String.[] = ""
trim_right (String.◌∷◌ c s) =
    let rest = trim_right s in if str_eq rest "" && is_space (code c) then "" else String.◌∷◌ c rest

-- `strings.TrimSpace`
unfoldable pub trim_space : String → String
trim_space s = trim_right (trim_left s)

-- The lower-case letter that a code point folds to, as far as it is one of ASCII.
abbrev pub fold_code : ℕ → ℕ
fold_code c =
    if leb 65 c && leb c 90
    then c + 32
    else if c == 0x17f
    then 115
    else if c == 0x212a
    then 107
    else c

-- The rest of a text that begins with `p`, in any case; `p` is in lower case.
unfoldable pub strip_fold : String → String → Option String
strip_fold String.[] s = some s
strip_fold (String.◌∷◌ c p) String.[] = none
strip_fold (String.◌∷◌ c p) (String.◌∷◌ d s) =
    let rest = strip_fold p s in if code c == fold_code (code d) then rest else none

-- `\s` of a regular expression
abbrev pub is_blank_code : ℕ → Bool
is_blank_code c = c == 9 || c == 10 || c == 12 || c == 13 || c == 32

unfoldable pub skip_blanks : String → String
skip_blanks String.[] = ""
skip_blanks (String.◌∷◌ c s) =
    let rest = skip_blanks s in if is_blank_code (code c) then rest else String.◌∷◌ c s

-- `\s+`
abbrev pub after_blanks : Option String → Option String
after_blanks none = none
after_blanks (some String.[]) = none
after_blanks (some (String.◌∷◌ c s)) = if is_blank_code (code c) then some (skip_blanks s) else none

abbrev pub third_part : String → Option String → String
third_part two none = two
third_part two (some s) =
    let (third, _) = digits s in if str_eq third "" then two else two ⊕ "." ⊕ third

abbrev pub second_part : String → Option String → Option String
second_part major none = none
second_part major (some s) =
    let (minor, rest) = digits s in
    if str_eq minor "" then none else some (third_part (major ⊕ "." ⊕ minor) (after_dot rest))

-- `[0-9]+\.[0-9]+(?:\.[0-9]+)?`
unfoldable pub version_at : String → Option String
version_at s =
    let (major, rest) = digits s in
    if str_eq major "" then none else second_part major (after_dot rest)

abbrev pub versioned : Option String → Option String
versioned none = none
versioned (some s) = version_at s

abbrev pub or_else : Option String → Option String → Option String
or_else none o = o
or_else (some s) o = some s

-- `\b` before a word that begins here, where a word character stands before this place
abbrev pub at_word : Bool → Option String → Option String
at_word after_word o = if after_word then none else o

-- The alternatives of `distributionVersion` at one place, in their order.
unfoldable pub announced : Bool → String → Option String
announced after_word s = or_else (versioned (after_blanks (strip_fold "distrib" s))) (
    or_else (versioned (after_blanks (strip_fold "(postgresql)" s))) (
      or_else (at_word after_word (versioned (after_blanks (strip_fold "ver" s))))
        (at_word after_word (versioned (after_blanks (strip_fold "from" s))))))

abbrev pub is_word : ℕ → Bool
is_word c = is_digit c || (leb 65 c && leb c 90) || (leb 97 c && leb c 122) || c == 95

-- The first place with a match.
unfoldable pub find_version : Bool → String → Option String
find_version after_word String.[] = none
find_version after_word (String.◌∷◌ c s) =
    or_else (announced after_word (String.◌∷◌ c s)) (find_version (is_word (code c)) s)

-- The rest of a text that `strings.ToLower` lets begin with `p`.
unfoldable pub strip_lower : String → String → Option String
strip_lower String.[] s = some s
strip_lower (String.◌∷◌ c p) String.[] = none
strip_lower (String.◌∷◌ c p) (String.◌∷◌ d s) =
    let rest = strip_lower p s in if code c == lower_code (code d) then rest else none

-- The text from the first "distrib " on, in lower case. The source cuts at the byte where that stands in the
-- lower-case text, which is this one unless a letter before it changes its length.
unfoldable pub from_distrib : String → Option String
from_distrib String.[] = none
from_distrib (String.◌∷◌ c s) =
    let later = from_distrib s in
    elim (strip_lower "distrib " (String.◌∷◌ c s)) [ none ↦ later | some _ ↦ some (String.◌∷◌ c s) ]

abbrev pub or_text : String → Option String → String
or_text s none = s
or_text s (some t) = t

abbrev pub recognised : String → Option String → Result String
recognised raw none = err (failure ("versão de cliente não reconhecida: " ⊕ trim_space raw))
recognised raw (some v) = ok v

unfoldable pub client_version : String → Result String
client_version raw =
    let cut = or_text raw (from_distrib raw) in recognised cut (find_version false cut)

client_version_tests :
    (client_version "pg_dump (PostgreSQL) 16.4 (Debian 16.4-1)" ≡ ok "16.4")
    × (client_version "mysqldump  Ver 10.13 Distrib 5.7.44, for Linux" ≡ ok "5.7.44")
    × (client_version "mariadb-dump from 11.4.2-MariaDB" ≡ ok "11.4.2")
unfolding client_version from_distrib strip_lower find_version announced version_at digits
    skip_blanks strip_fold
client_version_tests = (refl, refl, refl)
