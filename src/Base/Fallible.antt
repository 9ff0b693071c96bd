-- ===== src/Base/Fallible.antt =====
-- Go's `(T, error)` results. `no_rows` is `sql.ErrNoRows`, `not_exist` an error that
-- `os.ErrNotExist` matches, and `failure` any other error, by its message.
use Prim.Native.String.{String}
use mathlib.Core.Path.{◌≡◌, refl}
use mathlib.Core.Bool.{Bool, true, false}
use mathlib.Core.List.{List, [], ◌∷◌}
use mathlib.Core.Logic.{◌⊎◌, inl, inr}

pub data Error : Type 0 where
  no_rows : Error
  not_exist : Error
  failure : String → Error

-- `err.Error()`
abbrev pub message : Error → String
message no_rows = "sql: no rows in result set"
message not_exist = "file does not exist"
message (failure s) = s

pub data Result {ℓ} (A : Type ℓ) : Type ℓ where
  ok : A → Result A
  err : Error → Result A

-- `if err != nil { return err }` after a call, and its form for a call without a result.
module _ {ℓ κ} {A : Type ℓ} {B : Type κ} where
  infixl 5 ◌>>=◌
  abbrev pub ◌>>=◌ : Result A → (A → Result B) → Result B
  err e >>= next = err e
  ok a >>= next = next a

module _ {κ} {B : Type κ} where
  infixl 5 ◌>>◌
  abbrev pub ◌>>◌ : Result (Unit {0}) → Result B → Result B
  call >> rest = call >>= λ _. rest

-- `if bad { return fmt.Errorf(message) }`
abbrev pub refuse_if : Bool → String → Result (Unit {0})
refuse_if true s = err (failure s)
refuse_if false s = ok tt

pub Result-cases {ℓ} :
    {A : Type ℓ} (r : Result A) → ((a : A) × (r ≡ ok a)) ⊎ ((e : Error) × (r ≡ err e))
Result-cases (ok a) = inl (a, refl)
Result-cases (err e) = inr (e, refl)

-- The loops that read rows: the first error ends them.
abbrev pub cons_result {ℓ} : {A : Type ℓ} → Result A → Result (List A) → Result (List A)
cons_result (err e) rest = err e
cons_result (ok a) (err e) = err e
cons_result (ok a) (ok as') = ok (a ∷ as')

unfoldable pub collect {ℓ κ} : {A : Type ℓ} {B : Type κ} → (A → Result B) → List A → Result (List B)
collect f [] = ok []
collect f (a ∷ rest) = cons_result (f a) (collect f rest)
