-- ===== src/Backup/Destination.antt =====
-- The destinations and their files. A directory handle (`os.Root`) is its path; files are closed
-- without an effect of their own.
use Prim.Native.Char.{code}
use base_guard.Base.{
  String, ◌||◌, ◌==◌, List, [], ◌∷◌, Option, none, some, str_eq, Error, failure, not_exist, message,
  Result, ok, err, ◌⊕◌, if◌then◌else◌,
}
use base_guard.Disk.{Bytes, put_file, utf8, bytes_eq}
use base_guard.Exec.{World, Io, pure, lift, attempt, try_io, ◌>>=◌, ◌>>◌}

-- An operation that has no result and changes nothing that is kept (sync, close, mkdir).
unfoldable pub touch : Io (Unit {0})
unfolding attempt
touch = attempt (λ w. (ok tt, w))

abbrev pub set_file : String → String → Option Bytes → World → World
set_file root path content w = record w { disk = put_file root path content w.disk }

abbrev pub found : Option Bytes → Result Bytes
found none = err not_exist
found (some b) = ok b

-- `r.ReadFile`
unfoldable pub read_file : String → String → Io Bytes
unfolding attempt
read_file root path = attempt (λ w. (found (w.disk.file root path), w))

abbrev exists_already : Error
exists_already = failure "file exists"

abbrev pub create_new : String → String → Bytes → Option Bytes → World → Result (Unit {0}) × World
create_new root path content none w = (ok tt, set_file root path (some content) w)
create_new root path content (some b) w = (err exists_already, w)

-- `OpenFile` with `O_CREATE|O_EXCL`, then one write of `content`
unfoldable pub create_file : String → String → Bytes → Io (Unit {0})
unfolding attempt
create_file root path content =
    attempt (λ w. create_new root path content (w.disk.file root path) w)

-- What is written to the open file.
unfoldable pub write_file : String → String → Bytes → Io (Unit {0})
unfolding attempt
write_file root path content = attempt (λ w. (ok tt, set_file root path (some content) w))

abbrev pub remove_found : String → String → Option Bytes → World → Result (Unit {0}) × World
remove_found root path none w = (err not_exist, w)
remove_found root path (some b) w = (ok tt, set_file root path none w)

-- `r.Remove`
unfoldable pub remove_file : String → String → Io (Unit {0})
unfolding attempt
remove_file root path = attempt (λ w. remove_found root path (w.disk.file root path) w)

abbrev pub move : String → String → String → Option Bytes → World → Result (Unit {0}) × World
move root from to none w = (err not_exist, w)
move root from to (some b) w = (ok tt, set_file root to (some b) (set_file root from none w))

-- `r.Rename`
unfoldable pub rename_file : String → String → String → Io (Unit {0})
unfolding attempt
rename_file root from to = attempt (λ w. move root from to (w.disk.file root from) w)

abbrev pub marker : String
marker = ".baseguard-destination"

-- `InitDestination`: the marker is created, never overwritten.
unfoldable pub init_destination : String → String → Io (Unit {0})
init_destination path name = do
  touch
  create_file path marker []
  write_file path marker (utf8 name)

unfoldable pub lookup : String → List (String × String) → Option String
lookup k [] = none
lookup k ((j, v) ∷ m) = if str_eq j k then some v else lookup k m

-- `%q` of a text of printable characters: in quotes, with a backslash before a quote and a backslash
unfoldable pub quoted : String → String
quoted String.[] = ""
quoted (String.◌∷◌ c s) =
    let rest = quoted s in
    if code c == b'\\' || code c == b'"'
    then String.◌∷◌ "\\" (String.◌∷◌ c rest)
    else String.◌∷◌ c rest

abbrev pub known : String → Option String → Result String
known name none = err (failure ("destino \"" ⊕ quoted name ⊕ "\" não configurado"))
known name (some p) = ok p

-- `os.OpenRoot`
unfoldable pub open_root : String → Io (Unit {0})
unfolding attempt
open_root p = attempt (λ w. (if w.disk.is_root p then ok tt else err not_exist, w))

abbrev pub opened : Result (Unit {0}) → Result (Unit {0})
opened (ok a) = ok a
opened (err e) = err (failure ("destino indisponível: " ⊕ message e))

abbrev pub marked : String → Result Bytes → Result (Unit {0})
marked name (err e) = err (failure "destino indisponível ou sem marcador de montagem válido")
marked name (ok b) =
    if bytes_eq b (utf8 name)
    then ok tt
    else err (failure "destino indisponível ou sem marcador de montagem válido")

-- `openDestination`: the directory of a configured destination that holds its marker.
unfoldable pub open_destination : List (String × String) → String → Io String
open_destination destinations name = do
  path ← lift (known name (lookup name destinations))
  root ← try_io (open_root path)
  lift (opened root)
  mark ← try_io (read_file path marker)
  lift (marked name mark)
  pure path
