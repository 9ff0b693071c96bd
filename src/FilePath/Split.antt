-- ===== src/FilePath/Split.antt =====
-- The elements of a path: what `split_slash` gives of texts that are put together.
use Prim.Native.Char.{Char}
use Prim.Native.String.append.{nil, cons}
use text.Mathlib.TextLemmas.{append-nil, append_assoc}
use base_guard.Base.{
  ℕ, String, Bool, true, false, not, ◌&&◌, List, [], ◌∷◌, ◌++◌, code, every, ◌==◌, ◌⊕◌, Bool-cases,
  inl, inr, All, ◌≡◌, refl, sym, ap, ◌∙◌, arith,
}
use base_guard.FilePath.{split_from, split_slash, join_slash}

pub every-append : (p : ℕ → Bool) (a b : String) → every p (a ⊕ b) ≡ (every p a && every p b)
every-append p String.[] b = ap (every p) (nil b)
every-append p (String.◌∷◌ c a) b = ap (every p) (cons c a b) ∙ ground (arith, every-append p a b)

-- A text without a slash.
abbrev pub Slashless : String → Type 0
Slashless s = every (λ k. not (k == b'/')) s ≡ true

pub Slashless-append : (a b : String) → Slashless a → Slashless b → Slashless (a ⊕ b)
Slashless-append a b ha hb = ground (arith, every-append (λ k. not (k == b'/')) a b)

split_from-join :
    (cur a b : String) → split_from cur (a ⊕ ("/" ⊕ b)) ≡ split_from cur a ++ split_from "" b
unfolding split_from
split_from-join cur String.[] b = rw (nil ("/" ⊕ b), cons "/" "" b, nil b) refl
split_from-join cur (String.◌∷◌ c a) b = elim (Bool-cases (code c == b'/')) [
  | inl t ↦ rw (cons c a ("/" ⊕ b), t) (ap (◌∷◌ cur) (split_from-join "" a b))
  | inr t ↦ rw (cons c a ("/" ⊕ b), t) (split_from-join (cur ⊕ String.◌∷◌ c "") a b)
]

pub split_slash-join : (a b : String) → split_slash (a ⊕ "/" ⊕ b) ≡ split_slash a ++ split_slash b
unfolding split_slash
split_slash-join a b = split_from-join "" a b

split_from-Slashless : (cur s : String) → Slashless cur → All Slashless (split_from cur s)
unfolding split_from
split_from-Slashless cur String.[] h = (h, tt)
split_from-Slashless cur (String.◌∷◌ c s) h = elim (Bool-cases (code c == b'/')) [
  | inl t ↦ rw t (h, split_from-Slashless "" s refl)
  | inr t ↦ rw t (
      split_from-Slashless (cur ⊕ String.◌∷◌ c "") s
        (Slashless-append cur (String.◌∷◌ c "") h (ground arith)))
]

-- No element of a path has a slash.
pub split_slash-Slashless : (s : String) → All Slashless (split_slash s)
unfolding split_slash
split_slash-Slashless s = split_from-Slashless "" s refl

one_ahead : (c : Char) (s : String) → String.◌∷◌ c "" ⊕ s ≡ String.◌∷◌ c s
one_ahead c s = rw (cons c "" s, nil s) refl

split_from-one : (cur s : String) → Slashless s → split_from cur s ≡ (cur ⊕ s) ∷ []
unfolding split_from
split_from-one cur String.[] h = ap (λ (x : String). x ∷ []) (sym (append-nil cur))
split_from-one cur (String.◌∷◌ c s) h =
    let t : (code c == b'/') ≡ false = ground arith in
    rw t (
      split_from-one (cur ⊕ String.◌∷◌ c "") s (ground arith)
      ∙ ap (λ (x : String). x ∷ [])
          (append_assoc cur (String.◌∷◌ c "") s ∙ ap (λ (x : String). cur ⊕ x) (one_ahead c s)))

pub split_slash-one : (s : String) → Slashless s → split_slash s ≡ s ∷ []
unfolding split_slash
split_slash-one s h = split_from-one "" s h ∙ ap (λ x. x ∷ []) (nil s)

-- The elements of a path that was joined from some.
pub split_slash-join_slash :
    (p : String) (ps : List String)
    → All Slashless (p ∷ ps)
    → split_slash (join_slash (p ∷ ps)) ≡ p ∷ ps
unfolding join_slash
split_slash-join_slash p [] h = split_slash-one p h.0
split_slash-join_slash p (q ∷ ps) h =
    split_slash-join p (join_slash (q ∷ ps))
    ∙ ap (λ x. x ++ split_slash (join_slash (q ∷ ps))) (split_slash-one p h.0)
    ∙ ap (◌∷◌ p) (split_slash-join_slash q ps h.1)
