-- ===== src/Worker/Paths.antt =====
-- Where `backupWithExecutor` puts a backup.
use base_guard.Base.{
  ℕ, ◌/◌, ◌%◌, ◌≡◌, ◌≢◌, ◌∙◌, refl, ap, sym, subst, ◌⊎◌, String, Bool, true, false, not, ◌&&◌, ◌==◌,
  str_eq, eq_iff, leb, List, [], ◌∷◌, ◌++◌, ok, ◌⊕◌, itoa, every, every-itoa, every-pad2,
  every-pad4, pad2, code, number_from, number_from-itoa, inl, inr, Bool-cases, if◌then◌else◌, arith,
}
use Prim.Native.String.append.{nil, cons}
use mathlib.Core.List.{append_assoc}
use text.Mathlib.TextLemmas.{append_assoc as text_append_assoc}
use base_guard.FilePath.{join, split_slash, clean_parts, is_local}
use base_guard.FilePath.Split.{
  every-append, Slashless, Slashless-append, split_slash-one, split_slash-join,
}
use base_guard.FilePath.Clean.{IsPlain}
use base_guard.FilePath.Below.{IsBelow, join-below}
use base_guard.FilePath.Ends.{EndsIn, join-EndsIn}
use base_guard.Model.{Database, Run, Cron, validate}
use base_guard.Model.Validation.{validate_iff}
use base_guard.Worker.Stamp.{civil, stamp}
use base_guard.Worker.Methods.{Worker, extension, backup_path}

-- A test that digits and the letters of a stamp pass.
every-stamp :
    (p : ℕ → Bool) (t : ℕ)
    → ((k : ℕ) → (leb 48 k && leb k 57) ≡ true → p k ≡ true)
    → p b'T' ≡ true
    → p b'Z' ≡ true
    → every p (stamp t) ≡ true
unfolding stamp
every-stamp p t digits letter end =
    let (y, m, d) = civil (t / 86400) in
    let last : every p "Z" ≡ true = ground (arith, end) in
    let seconds = pad2 (t % 60) ⊕ "Z" in
    let minutes = pad2 (t / 60 % 60) ⊕ seconds in
    let time =
      every-pad2 p (t / 3600 % 24) minutes digits
        (every-pad2 p (t / 60 % 60) seconds digits (every-pad2 p (t % 60) "Z" digits last)) in
    every-pad4 p y _ digits (
      every-pad2 p m _ digits (
        every-pad2 p d _ digits
          (every-append p "T" (pad2 (t / 3600 % 24) ⊕ minutes) ∙ ground (arith, letter, time))))

slash_no_digit : (k : ℕ) → (leb 48 k && leb k 57) ≡ true → not (k == b'/') ≡ true
slash_no_digit k h = ground arith

itoa-Slashless : (n : ℕ) → Slashless (itoa n)
itoa-Slashless n = every-itoa _ n slash_no_digit

stamp-Slashless : (t : ℕ) → Slashless (stamp t)
stamp-Slashless t = every-stamp _ t slash_no_digit refl refl

and_false : (b : Bool) → (b && false) ≡ false
and_false b = ground arith

-- A text with a dash is no special element.
dash-IsPlain : (a b : String) → Slashless a → Slashless b → IsPlain (a ⊕ "-" ⊕ b)
dash-IsPlain a b ha hb = record {
  slashless = Slashless-append a ("-" ⊕ b) ha (Slashless-append "-" b refl hb);
  not_empty = other "" refl;
  not_dot = other "." refl;
  not_up = other ".." refl;
}
  where
    dots : ℕ → Bool
    dots k = k == b'.'

    dash : every dots (a ⊕ "-" ⊕ b) ≡ false
    dash =
        every-append dots a ("-" ⊕ b)
        ∙ ap (λ x. every dots a && x) (every-append dots "-" b)
        ∙ and_false (every dots a)

    other : (s : String) → every dots s ≡ true → str_eq (a ⊕ "-" ⊕ b) s ≡ false
    other s e = elim (Bool-cases (str_eq (a ⊕ "-" ⊕ b) s)) [
      | inl t ↦
          let same = (eq_iff (a ⊕ "-" ⊕ b) s).0 t in
          absurd (let bad : true ≡ false = sym e ∙ sym (ap (every dots) same) ∙ dash in cc bad)
      | inr t ↦ t
    ]

-- The literal `db-` as `db` and a dash.
db_dash : (s : String) → "db" ⊕ "-" ⊕ s ≡ "db-" ⊕ s
db_dash s = sym (text_append_assoc "db" "-" s)

subfolder : {s : String} {Q : Type 0} → (s ≡ "") ⊎ ((is_local s ≡ true) × Q) → IsBelow s
subfolder (inl e) = inl e
subfolder (inr (l, q)) = inr l

extension-Slashless : (w : Worker) (d : Database) → Slashless (extension w d)
extension-Slashless w d = elim (Bool-cases (str_eq d.engine "postgres")) [
  | inl e ↦ rw e refl
  | inr e ↦ rw e refl
]

-- For a record that `Validate` accepts, with whatever id and run: the backup goes below its
-- destination (`filepath.IsLocal` accepts the path), into the directory `db-<id>` of the subfolder, under
-- a name of the time and the id of the run.
pub backup_path-below :
    (w : Worker) (c : Cron) (m : List (String × String)) (d : Database) (id : ℕ) (r : Run)
    → validate c m d ≡ ok tt
    → (is_local (backup_path w (record d { id = id }) r) ≡ true)
      × (clean_parts (backup_path w (record d { id = id }) r)
          ≡ clean_parts d.subdir
            ++ ("db-" ⊕ itoa id) ∷ (stamp r.created ⊕ "-" ⊕ itoa r.id ⊕ extension w d) ∷ [])
unfolding backup_path
backup_path-below w c m d id r h =
    let below : IsBelow d.subdir = subfolder ((validate_iff c m d).0 h).subdir in
    let (e1, p1, l1) = join-below d.subdir ("db-" ⊕ itoa id) below directory in
    let (e2, p2, l2) = join-below (join d.subdir ("db-" ⊕ itoa id)) _ (inr l1) name in
    (
      l2,
      p2
          ∙ ap (λ x. x ++ (stamp r.created ⊕ "-" ⊕ itoa r.id ⊕ extension w d) ∷ []) p1
          ∙ append_assoc (clean_parts d.subdir) _ _,
    )
  where
    directory : IsPlain ("db-" ⊕ itoa id)
    directory =
        subst IsPlain (db_dash (itoa id)) (dash-IsPlain "db" (itoa id) refl (itoa-Slashless id))

    name : IsPlain (stamp r.created ⊕ "-" ⊕ itoa r.id ⊕ extension w d)
    name =
        dash-IsPlain (stamp r.created) (itoa r.id ⊕ extension w d) (stamp-Slashless r.created)
          (Slashless-append (itoa r.id) _ (itoa-Slashless r.id) (extension-Slashless w d))

-- What follows the first dash.
after_dash : String → String
after_dash String.[] = ""
after_dash (String.◌∷◌ c s) = let rest = after_dash s in if code c == b'-' then s else rest

after_dash_lem :
    (a b : String) → every (λ k. not (k == b'-')) a ≡ true → after_dash (a ⊕ "-" ⊕ b) ≡ b
unfolding after_dash
after_dash_lem String.[] b h = rw (nil ("-" ⊕ b), cons "-" "" b, nil b) refl
after_dash_lem (String.◌∷◌ c a) b h =
    let e : (code c == b'-') ≡ false = ground arith in
    rw (cons c a ("-" ⊕ b), e) (after_dash_lem a b (ground arith))

last_of : List String → String
last_of [] = ""
last_of (p ∷ []) = p
last_of (p ∷ q ∷ ps) = last_of (q ∷ ps)

last_of-append : (ps : List String) (q : String) → last_of (ps ++ q ∷ []) ≡ q
unfolding last_of
last_of-append [] q = refl
last_of-append (x ∷ []) q = refl
last_of-append (x ∷ y ∷ ps) q = last_of-append (y ∷ ps) q

-- The id of the run that a path is for.
pub number_of : String → ℕ
number_of path = number_from 0 (after_dash (last_of (split_slash path)))

number_of-EndsIn :
    (name path rest : String)
    → Slashless name
    → Slashless rest
    → EndsIn name path
    → number_of (path ⊕ rest) ≡ number_from 0 (after_dash (name ⊕ rest))
unfolding number_of
number_of-EndsIn name path rest h k (inl e) =
    ap (λ x. number_from 0 (after_dash (last_of (split_slash (x ⊕ rest))))) e
    ∙ ap (λ x. number_from 0 (after_dash (last_of x)))
        (split_slash-one (name ⊕ rest) (Slashless-append name rest h k))
    ∙ ap (λ x. number_from 0 (after_dash x)) (last_of-append [] (name ⊕ rest))
number_of-EndsIn name path rest h k (inr (f, e)) =
    ap (λ x. number_from 0 (after_dash (last_of (split_slash x))))
      (ap (λ x. x ⊕ rest) e
        ∙ text_append_assoc f ("/" ⊕ name) rest
        ∙ ap (λ x. f ⊕ x) (text_append_assoc "/" name rest))
    ∙ ap (λ x. number_from 0 (after_dash (last_of x)))
        (split_slash-join f (name ⊕ rest)
          ∙ ap (λ x. split_slash f ++ x)
              (split_slash-one (name ⊕ rest) (Slashless-append name rest h k)))
    ∙ ap (λ x. number_from 0 (after_dash x)) (last_of-append (split_slash f) (name ⊕ rest))

number_from-extension :
    (w : Worker) (d : Database) (n : ℕ) (rest : String) → number_from n (extension w d ⊕ rest) ≡ n
unfolding number_from
number_from-extension w d n rest = elim (Bool-cases (str_eq d.engine "postgres")) [
  | inl e ↦ rw e (ap (number_from n) (cons "." "dump" rest))
  | inr e ↦ rw e (ap (number_from n) (cons "." "sql.gz" rest))
]

module _ (w : Worker) (d : Database) (r : Run) where
  name : String
  name = stamp r.created ⊕ "-" ⊕ itoa r.id ⊕ extension w d

  backup_path-EndsIn : EndsIn name (backup_path w d r)
  unfolding backup_path name
  backup_path-EndsIn = join-EndsIn (join d.subdir ("db-" ⊕ itoa d.id)) name (
      dash-IsPlain (stamp r.created) (itoa r.id ⊕ extension w d) (stamp-Slashless r.created)
        (Slashless-append (itoa r.id) _ (itoa-Slashless r.id) (extension-Slashless w d)))

  -- The path, and the path of the partial file, tell the id.
  pub backup_path-number :
      (rest : String) → Slashless rest → number_of (backup_path w d r ⊕ rest) ≡ r.id
  unfolding name
  backup_path-number rest k =
      let tail = itoa r.id ⊕ extension w d in
      number_of-EndsIn name (backup_path w d r) rest
        (Slashless-append (stamp r.created) ("-" ⊕ tail) (stamp-Slashless r.created) (
          Slashless-append "-" tail refl
            (Slashless-append (itoa r.id) _ (itoa-Slashless r.id) (extension-Slashless w d))))
        k backup_path-EndsIn
      ∙ ap (λ x. number_from 0 (after_dash x))
          (text_append_assoc (stamp r.created) ("-" ⊕ tail) rest
            ∙ ap (λ x. stamp r.created ⊕ x) (text_append_assoc "-" tail rest))
      ∙ ap (number_from 0) (
          after_dash_lem (stamp r.created) (tail ⊕ rest)
            (every-stamp (λ k. not (k == b'-')) r.created (λ k e. ground arith) refl refl))
      ∙ ap (number_from 0) (text_append_assoc (itoa r.id) (extension w d) rest)
      ∙ number_from-itoa r.id (extension w d ⊕ rest)
      ∙ number_from-extension w d r.id rest

-- The backups of two runs with different ids go to different paths.
pub backup_path-distinct :
    (w : Worker) (d d' : Database) (r r' : Run)
    → r.id ≢ r'.id
    → backup_path w d r ≢ backup_path w d' r'
backup_path-distinct w d d' r r' n e = n (
    sym (backup_path-number w d r "" refl)
    ∙ ap (λ x. number_of (x ⊕ "")) e
    ∙ backup_path-number w d' r' "" refl)
