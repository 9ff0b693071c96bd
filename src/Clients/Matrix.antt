-- ===== src/Clients/Matrix.antt =====
-- `profileFor`: the matrix of the series that have client tools.
use Prim.Native.Char.{code}
use base_guard.Base.{
  ℕ, ◌+◌, ◌*◌, ◌-◌, String, Bool, not, ◌&&◌, List, [], ◌∷◌, Option, none, some, leb, ltb, ◌==◌,
  str_eq, ◌⊕◌, Error, failure, Result, ok, err, if◌then◌else◌,
}
use base_guard.Model.{one_of}
use base_guard.Clients.Versions.{is_digit}

pub record ClientProfile : Type 0 where
  pub engine : String
  pub series : String
  pub client_series : String
  pub sql : String
  pub dump : String
  pub restore : String
  pub legacy : Bool

-- The value of a text of digits, read on from `n`.
unfoldable pub digits_from : ℕ → String → Option ℕ
digits_from n String.[] = some n
digits_from n (String.◌∷◌ c s) =
    let rest = digits_from (n * 10 + (code c - 48)) s in if is_digit (code c) then rest else none

-- `strconv.Atoi`, where a negative number counts as an error; both are outside the matrix.
unfoldable pub atoi : String → Option ℕ
atoi String.[] = none
atoi (String.◌∷◌ c s) =
    if is_digit (code c)
    then digits_from 0 (String.◌∷◌ c s)
    else if code c == 43 && not (str_eq s "")
    then digits_from 0 s
    else none

abbrev pub out_of_matrix : String → String → Error
out_of_matrix engine series = failure (
    "série " ⊕ engine ⊕ " " ⊕ series
    ⊕ " fora da matriz: PostgreSQL 12–18; MySQL 5.7/8.0/8.4; MariaDB 10.6/10.11/11.4/11.8/12.3")

abbrev pub tools : String → String → String → String → String → String → Bool → ClientProfile
tools engine series client_series sql dump restore legacy = record {
  engine = engine;
  series = series;
  client_series = client_series;
  sql = sql;
  dump = dump;
  restore = restore;
  legacy = legacy;
}

abbrev pub postgres_profile : String → Option ℕ → Result ClientProfile
postgres_profile series none = err (out_of_matrix "postgres" series)
postgres_profile series (some n) =
    if leb 12 n && leb n 18
    then ok (tools "postgres" series series "psql" "pg_dump" "pg_restore" (ltb n 14))
    else err (out_of_matrix "postgres" series)

abbrev pub mysql_series : List String
mysql_series = "5.7" ∷ "8.0" ∷ "8.4" ∷ []

abbrev pub mariadb_series : List String
mariadb_series = "10.6" ∷ "10.11" ∷ "11.4" ∷ "11.8" ∷ "12.3" ∷ []

unfoldable pub profile_for : String → String → Result ClientProfile
profile_for engine series =
    if str_eq engine "postgres"
    then postgres_profile series (atoi series)
    else if str_eq engine "mysql"
    then (if one_of mysql_series series
        then ok (
            tools "mysql" series (if str_eq series "5.7" then "8.0" else series) "mysql" "mysqldump"
              "mysql" (str_eq series "5.7"))
        else err (out_of_matrix engine series))
    else if str_eq engine "mariadb"
    then (if one_of mariadb_series series
        then ok (
            tools "mariadb" series series "mariadb" "mariadb-dump" "mariadb" (str_eq series "10.6"))
        else err (out_of_matrix engine series))
    else err (out_of_matrix engine series)
