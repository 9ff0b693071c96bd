-- ===== src/Native/Passfile.antt =====
-- What libpq reads back from the credentials file.
use Prim.Native.Char.{code}
use Prim.Native.String.append.{nil, cons}
use base_guard.Base.{
  ℕ, ◌≡◌, ◌≢◌, refl, sym, ap, ◌∙◌, String, true, false, not, ◌||◌, List, [], ◌∷◌, Option, none,
  some, All, codes, ◌==◌, ◌⊕◌, itoa, every, every-itoa, if◌then◌else◌, arith, str_eq,
}
use base_guard.Model.{Database, Cron, control}
use base_guard.Model.Validation.{IsValid, Free}
use base_guard.Native.Escape.{escape, backslash, read_field, Stops, read_field-escape}
use base_guard.Native.Credentials.{int_text, passfile}

abbrev pub put_field : String → Option (List String) → Option (List String)
put_field f none = none
put_field f (some fs) = some (f ∷ fs)

abbrev pub continue_fields :
    (String → Option (List String)) → Option (String × String) → Option (List String)
continue_fields more none = none
continue_fields more (some (f, rest)) = put_field f (more rest)

-- The fields of a text, each with the character that ends it.
unfoldable pub read_fields : List ℕ → String → Option (List String)
read_fields [] s = if str_eq s "" then some [] else none
read_fields (stop ∷ stops) s = continue_fields (read_fields stops) (read_field false stop s)

read_fields-step :
    (stop : ℕ) (stops : List ℕ) (s f rest : String) (fs : List String)
    → read_field false stop s ≡ some (f, rest)
    → read_fields stops rest ≡ some fs
    → read_fields (stop ∷ stops) s ≡ some (f ∷ fs)
unfolding read_fields
read_fields-step stop stops s f rest fs e k =
    ap (continue_fields (read_fields stops)) e ∙ ap (put_field f) k

Stops-self : (stop : ℕ) (s : String) → Stops stop stop s
Stops-self stop String.[] = tt
Stops-self stop (String.◌∷◌ c s) = (λ e. e, Stops-self stop s)

Stops-free : (other stop : ℕ) (s : String) → All (λ c. c ≢ stop) (codes s) → Stops other stop s
Stops-free other stop String.[] h = tt
Stops-free other stop (String.◌∷◌ c s) (n, h) =
    (λ e. absurd (n (ground arith)), Stops-free other stop s h)

-- A text that needs no escape.
abbrev Plain : String → Type 0
Plain s = every (λ c. not (c == backslash || c == b':')) s ≡ true

escape-Plain : (s : String) → Plain s → escape b':' s ≡ s
unfolding escape
escape-Plain String.[] h = refl
escape-Plain (String.◌∷◌ c s) h =
    let plain : (code c == backslash || code c == b':') ≡ false = ground arith in
    rw (plain, escape-Plain s (ground arith)) refl

itoa-Plain : (n : ℕ) → Plain (itoa n)
itoa-Plain n = every-itoa (λ c. not (c == backslash || c == b':')) n (λ k h. ground arith)

-- One field of the password file and its colon.
field-colon :
    (s rest : String) → read_field false b':' (escape b':' s ⊕ (":" ⊕ rest)) ≡ some (s, rest)
field-colon s rest =
    rw (cons ":" "" rest, nil rest)
      (read_field-escape b':' b':' ":" s rest refl refl (Stops-self b':' s))

read_field-Plain :
    (s rest : String) → Plain s → read_field false b':' (s ⊕ (":" ⊕ rest)) ≡ some (s, rest)
read_field-Plain s rest h =
    ap (λ p. read_field false b':' (p ⊕ (":" ⊕ rest))) (sym (escape-Plain s h)) ∙ field-colon s rest

read_fields_nil : read_fields [] "" ≡ some []
unfolding read_fields
read_fields_nil = refl

field-newline :
    (s : String)
    → All (λ c. c ≢ b'\n') (codes s)
    → read_field false b'\n' (escape b':' s ⊕ "\n") ≡ some (s, "")
field-newline s h = read_field-escape b':' b'\n' "\n" s "" refl refl (Stops-free b':' b'\n' s h)

abbrev pub colon : ℕ
colon = b':'

-- Five fields, of which a colon ends the first four and a newline the last.
pub read_passfile : String → Option (List String)
read_passfile s = read_fields (colon ∷ colon ∷ colon ∷ colon ∷ b'\n' ∷ []) s

read_passfile-fields :
    (host port dbname username password : String)
    → Plain port
    → All (λ c. c ≢ b'\n') (codes password)
    → read_passfile (
        escape b':' host
        ⊕ ":"
        ⊕ port
        ⊕ ":"
        ⊕ escape b':' dbname
        ⊕ ":"
        ⊕ escape b':' username
        ⊕ ":"
        ⊕ escape b':' password
        ⊕ "\n")
      ≡ some (host ∷ port ∷ dbname ∷ username ∷ password ∷ [])
unfolding read_passfile
read_passfile-fields host port dbname username password plain free =
    read_fields-step _ _ _ _ _ _ (field-colon host _) (
      read_fields-step _ _ _ _ _ _ (read_field-Plain port _ plain) (
        read_fields-step _ _ _ _ _ _ (field-colon dbname _) (
          read_fields-step _ _ _ _ _ _ (field-colon username _)
            (read_fields-step _ _ _ _ _ _ (field-newline password free) read_fields_nil))))

control-newline : (s : String) → Free control s → All (λ c. c ≢ b'\n') (codes s)
control-newline String.[] h = tt
control-newline (String.◌∷◌ c s) ((a, (b, (e, u))), h) = (e, control-newline s h)

-- For a valid record the password file of PostgreSQL, read field by field, holds its host, port,
-- database, user and password, whatever characters they are made of.
pub read_passfile-passfile :
    (c : Cron) (m : List (String × String)) (d : Database)
    → IsValid c m d
    → read_passfile (passfile d)
      ≡ some (d.host ∷ int_text d.port ∷ d.dbname ∷ d.username ∷ d.password ∷ [])
unfolding passfile
read_passfile-passfile c m d v =
    let (n, e, lo, hi) = v.port in
    let free = control-newline d.password v.texts.1.1.1.1.0.1 in
    read_passfile-fields d.host (int_text d.port) d.dbname d.username d.password
      (ap (λ p. every (λ c. not (c == backslash || c == b':')) (int_text p)) e ∙ itoa-Plain n) free
