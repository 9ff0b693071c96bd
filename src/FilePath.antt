-- ===== src/FilePath.antt =====
-- What the program uses of Go's `path/filepath`, on Unix.
pub mod Split
pub mod Clean
pub mod Below
pub mod Ends
use text.Mathlib.Text.{starts_with}
use base_guard.Base.{
  String, Bool, true, false, List, [], ◌∷◌, reverse, ◌||◌, not, code, str_eq, ◌==◌, ◌⊕◌,
  if◌then◌else◌, ◌≡◌, refl,
}

-- `strings.Split(path, "/")`; `cur` is the element that is being read.
pub split_from : String → String → List String
split_from cur String.[] = cur ∷ []
split_from cur (String.◌∷◌ c s) =
    let closed = cur ∷ split_from "" s in
    let longer = split_from (cur ⊕ String.◌∷◌ c "") s in if code c == b'/' then closed else longer

unfoldable pub split_slash : String → List String
unfolding split_from
split_slash path = split_from "" path

-- `..` after the elements read so far, the last one first.
pub back : Bool → List String → List String
back rooted [] = if rooted then [] else ".." ∷ []
back rooted (top ∷ rest) = if str_eq top ".." then ".." ∷ top ∷ rest else rest

unfoldable pub clean_step : Bool → List String → String → List String
unfolding back
clean_step rooted stack part =
    if str_eq part "" || str_eq part "."
    then stack
    else if str_eq part ".."
    then back rooted stack
    else part ∷ stack

unfoldable pub clean_from : Bool → List String → List String → List String
clean_from rooted stack [] = reverse stack
clean_from rooted stack (part ∷ parts) = clean_from rooted (clean_step rooted stack part) parts

unfoldable pub join_slash : List String → String
join_slash [] = ""
join_slash (part ∷ []) = part
join_slash (part ∷ next ∷ parts) = part ⊕ "/" ⊕ join_slash (next ∷ parts)

-- `filepath.IsAbs`
unfoldable pub is_abs : String → Bool
is_abs path = starts_with path "/"

-- The elements of `filepath.Clean(path)`.
unfoldable pub clean_parts : String → List String
unfolding split_slash is_abs clean_step clean_from
clean_parts path = clean_from (is_abs path) [] (split_slash path)

abbrev pub or_dot : String → String
or_dot s = if str_eq s "" then "." else s

-- `filepath.Clean`
unfoldable pub clean : String → String
unfolding clean_parts join_slash is_abs
clean path =
    let text = join_slash (clean_parts path) in if is_abs path then "/" ⊕ text else or_dot text

-- `filepath.Join` of two elements, which ignores empty ones.
unfoldable pub join : String → String → String
unfolding clean
join a b =
    if str_eq a ""
    then (if str_eq b "" then "" else clean b)
    else if str_eq b ""
    then clean a
    else clean (a ⊕ "/" ⊕ b)

abbrev pub head_is_up : List String → Bool
head_is_up [] = false
head_is_up (part ∷ parts) = str_eq part ".."

-- `filepath.IsLocal`: not empty, not absolute, and it does not climb out. (A path without the
-- elements "." and ".." has neither after `Clean`, so the source's shortcut is the same test.)
unfoldable pub is_local : String → Bool
unfolding clean_parts is_abs
is_local path = not (is_abs path || str_eq path "" || head_is_up (clean_parts path))

join_test : join "a/../b//c/." "db-7" ≡ "b/c/db-7"
unfolding join
join_test = refl

is_local_tests : (is_local "a/../../b" ≡ false) × (is_local "a/.." ≡ true) × (is_local "/a" ≡ false)
unfolding is_local
is_local_tests = (refl, refl, refl)
