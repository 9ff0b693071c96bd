-- ===== src/Native/Prepared.antt =====
-- What `Prepare` has established when it succeeds.
use base_guard.Base.{◌≡◌, ◌≢◌, ◌⊎◌, String, List, [], ◌∷◌, ◌++◌, none, some, ◌⊕◌, ok}
use base_guard.Model.{Database, ConnectionInfo}
use base_guard.Clients.Versions.{numeric_version}
use base_guard.Clients.Matrix.{ClientProfile, profile_for}
use base_guard.Exec.{World}
use base_guard.Native.Credentials.{environment, options}
use base_guard.Native.Versions.{trim_space, client_version}
use base_guard.Native.Process.{Tools, binary}
use base_guard.Native.Prepare.{split_lines, probe_series, probe_args, info_of}
use base_guard.Native.Told.{Told}

module _ (t : Tools) (d : Database) where
  -- A program that ran to its end, in some world, and what it wrote.
  abbrev pub Ran : String → List String → List String → String → Type 0
  Ran name args env out =
      (w : World) × ((t.answer w name args env).ended ≡ none)
      × ((t.answer w name args env).out ≡ out)

  -- The tool of this name tells a version of the profile's series.
  abbrev pub HasTool : ClientProfile → List String → String → String → Type 0
  HasTool p env name v =
      (out : String) × Ran (binary t p name) ("--version" ∷ []) env out
      × (client_version out ≡ ok v)
      × (major : String) × (minor : String) × (numeric_version v ≡ some (major, minor))
      × (((d.engine ≡ "postgres") × (p.client_series ≡ major))
          ⊎ ((d.engine ≢ "postgres") × (p.client_series ≡ major ⊕ "." ⊕ minor)))

  -- The server answered on a file with the credentials, and was identified.
  abbrev pub Identified : String → String → String → Type 0
  Identified file series raw =
      (probe : ClientProfile) × (out : String) × (profile_for d.engine (probe_series d.engine)
        ≡ ok probe)
      × Ran (binary t probe probe.sql) (options file d ++ probe_args d) (environment file d) out
      × Told d (split_lines (trim_space out)) series raw

  -- What is handed on: the details of the identified server, with the profile of its series, whose three
  -- tools were asked for their versions.
  abbrev pub IsPrepared : String → ConnectionInfo → ClientProfile → Type 0
  IsPrepared file info p =
      (series : String) × (raw : String) × (client : String) × (one : String) × (other : String)
      × Identified file series raw
      × (profile_for d.engine series ≡ ok p)
      × HasTool p (environment file d) p.sql one
      × HasTool p (environment file d) p.dump client
      × HasTool p (environment file d) p.restore other
      × (info ≡ info_of t d p raw client)
