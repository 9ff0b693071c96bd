-- ===== src/Native/Cleanup.antt =====
-- What `Prepare` leaves on the disk.
use base_guard.Base.{
  ◌≡◌, refl, sym, ap, ◌∙◌, String, List, [], none, some, Result, ok, err, arith, str_eq, eq_iff,
  Result-cases, inl, inr, ◌&&◌, Bool-cases,
}
use base_guard.Disk.{put_file, utf8}
use base_guard.Model.{Database}
use base_guard.Clients.Matrix.{ClientProfile, profile_for}
use base_guard.Exec.{World, Io, pure, lift, gets, try_io, continue, ◌>>=◌}
use base_guard.Exec.Inversion.{Calm}
use base_guard.Backup.Destination.{set_file}
use base_guard.Backup.Write.{or_remove}
use base_guard.Backup.Calm.{
  touch-Calm, write_file-Calm, create_file-Calm, remove_file-Calm, file-put_self,
}
use base_guard.Worker.Methods.{ignore}
use base_guard.Native.Credentials.{content}
use base_guard.Native.Process.{Tools, credentials_file, fill_credentials, with_credentials, command}
use base_guard.Native.Prepare.{tool_version, check_tools, prepare_on, prepare, probe_series}

-- An action that only looks at the world.
pub record Looks {A : Type 0} (m : Io A) : Type 0 where
  pub at : (w : World) → (m w).1 ≡ w

Looks-pure : {A : Type 0} (a : A) → Looks (pure a)
unfolding pure
Looks-pure a = record { at = λ w. refl }

Looks-lift : {A : Type 0} (r : Result A) → Looks (lift r)
unfolding lift
Looks-lift r = record { at = λ w. refl }

Looks-gets : {A : Type 0} (f : World → A) → Looks (gets f)
unfolding gets
Looks-gets f = record { at = λ w. refl }

Looks-bind :
    {A B : Type 0} (m : Io A) (f : A → Io B) → Looks m → ((a : A) → Looks (f a)) → Looks (m >>= f)
unfolding ◌>>=◌
Looks-bind {A} {B} m f km kf = record { at = λ w. go (m w).0 (m w).1 ∙ km.at w }
  where
    go : (r : Result A) (w : World) → (continue r f w).1 ≡ w
    go (ok a) w = (kf a).at w
    go (err e) w = refl

ruleset looks_rules = (Looks-pure, Looks-lift, Looks-gets, Looks-bind)

module _ (t : Tools) (d : Database) where
  Looks-command : (name : String) (args env : List String) → Looks (command t d name args env)
  unfolding command
  Looks-command name args env = search looks_rules depth 6

  Looks-tool_version :
      (p : ClientProfile) (env : List String) (name : String) → Looks (tool_version t d p env name)
  unfolding tool_version
  Looks-tool_version p env name = search (looks_rules, Looks-command) depth 8

  Looks-check_tools : (p : ClientProfile) (env : List String) → Looks (check_tools t d p env)
  unfolding check_tools
  Looks-check_tools p env = search (looks_rules, Looks-tool_version) depth 8

  Looks-prepare_on : (probe : ClientProfile) (file : String) → Looks (prepare_on t d probe file)
  unfolding prepare_on
  Looks-prepare_on probe file = search (looks_rules, Looks-command, Looks-check_tools) depth 10

module _ (t : Tools) (d : Database) where
  -- The world once the file is written.
  abbrev Written : World → World
  Written v =
      set_file "" (t.temp_name v) (some (utf8 (content d)))
        (set_file "" (t.temp_name v) (some []) v)

  credentials_file-Calm :
      (v : World)
      → Calm v
      → v.disk.file "" (t.temp_name v) ≡ none
      → credentials_file t d v ≡ (ok (t.temp_name v), Written v)
  unfolding credentials_file fill_credentials or_remove gets pure lift try_io ◌>>=◌
  credentials_file-Calm v calm absent =
      let file = t.temp_name v in
      let v1 = set_file "" file (some []) v in
      rw
        (
          create_file-Calm "" file [] v calm absent,
          touch-Calm v1 calm,
          write_file-Calm "" file (utf8 (content d)) v1 calm,
          touch-Calm (Written v) calm,
        )
        refl

  with_credentials-Calm :
      {A : Type 0} (body : String → Io A) (v : World)
      → Looks (body (t.temp_name v))
      → Calm v
      → v.disk.file "" (t.temp_name v) ≡ none
      → (with_credentials t d body v).1 ≡ set_file "" (t.temp_name v) none (Written v)
  unfolding with_credentials ignore lift pure try_io ◌>>=◌
  with_credentials-Calm body v looks calm absent =
      let file = t.temp_name v in
      let there =
        file-put_self "" file (some (utf8 (content d))) (put_file "" file (some []) v.disk) in
      rw
        (
          credentials_file-Calm v calm absent,
          looks.at (Written v),
          remove_file-Calm "" file (utf8 (content d)) (Written v) calm there,
        )
        refl

  gone :
      (v : World) (root path : String)
      → v.disk.file "" (t.temp_name v) ≡ none
      → (set_file "" (t.temp_name v) none (Written v)).disk.file root path ≡ v.disk.file root path
  unfolding put_file
  gone v root path absent = elim (Bool-cases (str_eq root "" && str_eq path (t.temp_name v))) [
    | inl e ↦
        let r : root ≡ "" = (eq_iff root "").0 (ground arith) in
        let p : path ≡ t.temp_name v = (eq_iff path (t.temp_name v)).0 (ground arith) in
        rw e (sym (ap (λ q. v.disk.file q path) r ∙ ap (v.disk.file "") p ∙ absent))
    | inr e ↦ rw e refl
  ]

  -- Where no operation on files fails and the name of the credentials file was free, a preparation leaves
  -- every file as it was, whether it succeeds or not: no file with a password stays behind.
  pub prepare-leaves_nothing :
      (v : World) (root path : String)
      → v.faults ≡ []
      → v.disk.file "" (t.temp_name v) ≡ none
      → (prepare t d v).1.disk.file root path ≡ v.disk.file root path
  unfolding prepare lift ◌>>=◌
  prepare-leaves_nothing v root path calm absent =
      elim (Result-cases (profile_for d.engine (probe_series d.engine))) [
        | inl (probe, e) ↦
            rw
              (
                e,
                with_credentials-Calm (prepare_on t d probe) v
                    (Looks-prepare_on t d probe (t.temp_name v)) calm absent,
              )
              (gone v root path absent)
        | inr (f, e) ↦ rw e refl
      ]
