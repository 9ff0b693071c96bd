-- ===== src/Disk.antt =====
-- The file system below the destinations: for each root directory its regular files, by path.
-- Directories are not kept; `MkdirAll` may fail and changes nothing here.
use Prim.Native.Char.{code}
use base_guard.Base.{
  ℕ, String, Bool, true, false, List, [], ◌∷◌, ◌++◌, Option, ltb, ◌+◌, ◌/◌, ◌%◌, ◌&&◌, ◌==◌, str_eq,
  if◌then◌else◌, ◌≡◌, refl,
}

abbrev pub Bytes : Type 0
Bytes = List ℕ

-- `is_root path`: the directory exists and `os.OpenRoot` opens it.
pub record Disk : Type 0 where
  pub is_root : String → Bool
  pub file : String → String → Option Bytes

-- One code point in UTF-8.
abbrev utf8_code : ℕ → Bytes
utf8_code c =
    if ltb c 0x80
    then c ∷ []
    else if ltb c 0x800
    then (0xc0 + c / 64) ∷ (0x80 + c % 64) ∷ []
    else if ltb c 0x1_0000
    then (0xe0 + c / 4096) ∷ (0x80 + c / 64 % 64) ∷ (0x80 + c % 64) ∷ []
    else (0xf0 + c / 262144) ∷ (0x80 + c / 4096 % 64) ∷ (0x80 + c / 64 % 64) ∷ (0x80 + c % 64) ∷ []

-- `[]byte(s)`
unfoldable pub utf8 : String → Bytes
utf8 String.[] = []
utf8 (String.◌∷◌ c s) = utf8_code (code c) ++ utf8 s

unfoldable pub bytes_eq : Bytes → Bytes → Bool
bytes_eq [] [] = true
bytes_eq (a ∷ x) (b ∷ y) = a == b && bytes_eq x y
bytes_eq _ _ = false

unfoldable pub put_file : String → String → Option Bytes → Disk → Disk
put_file root path content d = record d {
  file = λ r p. if str_eq r root && str_eq p path then content else d.file r p;
}

utf8_test : utf8 "é" ≡ 0xc3 ∷ 0xa9 ∷ []
unfolding utf8
utf8_test = refl
