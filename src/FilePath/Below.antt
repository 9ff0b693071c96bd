-- ===== src/FilePath/Below.antt =====
-- `Join` and `IsLocal` on paths below a directory.
use text.Mathlib.TextLemmas.{cons≢nil}
use text.Mathlib.TextEquality.{starts_with_iff, Char-path}
use Prim.Native.Char.{Char}
use Prim.Native.String.append.{nil, cons}
use base_guard.Base.{
  ℕ, String, Bool, true, false, List, [], ◌∷◌, ◌++◌, reverse, code, ◌⊕◌, Bool-cases, inl, inr, All,
  ◌≡◌, ◌≢◌, ◌⊎◌, refl, sym, ap, subst, ◌∙◌, arith, str_eq, eq_iff, if◌then◌else◌,
}
use base_guard.FilePath.{
  split_slash, clean_step, clean_from, join_slash, is_abs, clean_parts, or_dot, clean, join,
  head_is_up, is_local,
}
use base_guard.FilePath.Split.{Slashless, split_slash-join, split_slash-one, split_slash-join_slash}
use base_guard.FilePath.Clean.{
  All-append, IsPlain, clean_from-pile, clean_from-plain, is_local-IsPlain, pile, pile-append,
}

-- Whether a path is absolute depends on its first character.
first_code : String → ℕ
first_code String.[] = 0
first_code (String.◌∷◌ c s) = code c

is_abs-slash : (s : String) → is_abs s ≡ true → first_code s ≡ b'/'
unfolding is_abs first_code
is_abs-slash s h =
    let (t, e) = (starts_with_iff s "/").0 h in
    ap first_code (sym e) ∙ ap first_code (cons "/" "" t)

slash-is_abs : (s : String) → first_code s ≡ b'/' → is_abs s ≡ true
unfolding is_abs first_code
slash-is_abs String.[] h = absurd (omega (arith, h))
slash-is_abs (String.◌∷◌ c s) h = (starts_with_iff (String.◌∷◌ c s) "/").1 (
  s,
  cons "/" "" s
      ∙ ap (λ (x : String). String.◌∷◌ "/" x) (nil s)
      ∙ ap (λ (k : Char). String.◌∷◌ k s) (sym (Char-path c "/" h)),
)

is_abs-same : (s t : String) → first_code s ≡ first_code t → is_abs s ≡ is_abs t
is_abs-same s t e = elim (Bool-cases (is_abs t)) [
  | inl h ↦ slash-is_abs s (e ∙ is_abs-slash t h) ∙ sym h
  | inr h ↦ elim (Bool-cases (is_abs s)) [
    | inl k ↦
        absurd
          (let bad : false ≡ true = sym h ∙ slash-is_abs t (sym e ∙ is_abs-slash s k) in cc bad)
    | inr k ↦ k ∙ sym h
  ]
]

is_abs-append : (a b : String) → a ≢ "" → is_abs (a ⊕ b) ≡ is_abs a
unfolding first_code
is_abs-append String.[] b n = absurd (n refl)
is_abs-append (String.◌∷◌ c a) b n =
    is_abs-same (String.◌∷◌ c a ⊕ b) (String.◌∷◌ c a) (ap first_code (cons c a b))

plain-is_abs : (p : String) → IsPlain p → is_abs p ≡ false
unfolding first_code
plain-is_abs String.[] h = is_abs-empty
  where
    is_abs-empty : is_abs "" ≡ false
    is_abs-empty = elim (Bool-cases (is_abs "")) [
      | inl k ↦ absurd (omega (arith, is_abs-slash "" k))
      | inr k ↦ k
    ]
plain-is_abs (String.◌∷◌ c s) h = elim (Bool-cases (is_abs (String.◌∷◌ c s))) [
  | inl k ↦
      let e : code c ≡ b'/' = is_abs-slash (String.◌∷◌ c s) k in
      let f = h.slashless in ground (arith, e, f)
  | inr k ↦ k
]

-- A plain element joined to a relative path is its last element.
pub clean_parts-join :
    (a b : String)
    → a ≢ ""
    → is_abs a ≡ false
    → IsPlain b
    → clean_parts (a ⊕ "/" ⊕ b) ≡ clean_parts a ++ b ∷ []
unfolding clean_parts
clean_parts-join a b n rel h =
    let parts : split_slash (a ⊕ "/" ⊕ b) ≡ split_slash a ++ b ∷ [] =
      split_slash-join a b ∙ ap (λ x. split_slash a ++ x) (split_slash-one b h.slashless) in
    let st = pile false [] (split_slash a) in
    ap (λ x. clean_from x [] (split_slash (a ⊕ "/" ⊕ b))) (is_abs-append a ("/" ⊕ b) n ∙ rel)
    ∙ ap (clean_from false []) parts
    ∙ clean_from-pile false [] (split_slash a ++ b ∷ [])
    ∙ ap reverse (pile-append false [] (split_slash a) (b ∷ []))
    ∙ sym (clean_from-pile false st (b ∷ []))
    ∙ clean_from-plain false st (b ∷ []) (h, tt)
    ∙ ap (λ x. x ++ b ∷ []) (sym (clean_from-pile false [] (split_slash a)))
    ∙ ap (λ x. clean_from x [] (split_slash a) ++ b ∷ []) (sym rel)

append-ne : (a b : String) → a ≢ "" → a ⊕ b ≢ ""
append-ne String.[] b n e = absurd (n refl)
append-ne (String.◌∷◌ c a) b n e = cons≢nil (sym (cons c a b) ∙ e)

-- Plain elements, joined.
join_slash-ne : (p : String) (ps : List String) → IsPlain p → join_slash (p ∷ ps) ≢ ""
unfolding join_slash
join_slash-ne p [] h e = cc (h.not_empty, (eq_iff p "").1 e)
join_slash-ne p (q ∷ ps) h e =
    append-ne p ("/" ⊕ join_slash (q ∷ ps)) (λ k. cc (h.not_empty, (eq_iff p "").1 k)) e

join_slash-is_abs :
    (p : String) (ps : List String) → IsPlain p → is_abs (join_slash (p ∷ ps)) ≡ false
unfolding join_slash
join_slash-is_abs p [] h = plain-is_abs p h
join_slash-is_abs p (q ∷ ps) h =
    is_abs-append p ("/" ⊕ join_slash (q ∷ ps)) (λ e. cc (h.not_empty, (eq_iff p "").1 e))
    ∙ plain-is_abs p h

All-Slashless : (ps : List String) → All IsPlain ps → All Slashless ps
All-Slashless [] h = tt
All-Slashless (p ∷ ps) (h, hs) = (h.slashless, All-Slashless ps hs)

-- The elements of a path that was joined from plain ones are these.
pub clean_parts-join_slash :
    (p : String) (ps : List String)
    → All IsPlain (p ∷ ps)
    → clean_parts (join_slash (p ∷ ps)) ≡ p ∷ ps
unfolding clean_parts
clean_parts-join_slash p ps h =
    ap (λ x. clean_from (is_abs (join_slash (p ∷ ps))) [] x)
      (split_slash-join_slash p ps (All-Slashless (p ∷ ps) h))
    ∙ clean_from-plain (is_abs (join_slash (p ∷ ps))) [] (p ∷ ps) h

join_slash-is_local :
    (p : String) (ps : List String) → All IsPlain (p ∷ ps) → is_local (join_slash (p ∷ ps)) ≡ true
unfolding is_local
join_slash-is_local p ps h =
    let a = join_slash-is_abs p ps h.0 in
    let n = join_slash-ne p ps h.0 in
    let u : head_is_up (clean_parts (join_slash (p ∷ ps))) ≡ false =
      ap head_is_up (clean_parts-join_slash p ps h) ∙ h.0.not_up in
    ground (arith, a, u, n, eq_iff (join_slash (p ∷ ps)) "")

local-ne : (a : String) → is_local a ≡ true → a ≢ ""
unfolding is_local
local-ne a l e = let k : str_eq a "" ≡ true = (eq_iff a "").1 e in ground (arith, l, k)

-- A directory below the root, or the root itself.
abbrev pub IsBelow : String → Type 0
IsBelow a = (a ≡ "") ⊎ (is_local a ≡ true)

with_last :
    (Q : List String → Type 0)
    → ((p : String) (ps : List String) → All IsPlain (p ∷ ps) → Q (p ∷ ps))
    → (xs : List String) (b : String) → All IsPlain (xs ++ b ∷ [])
    → Q (xs ++ b ∷ [])
with_last Q k [] b h = k b [] h
with_last Q k (x ∷ xs) b h = k x (xs ++ b ∷ []) h

pub clean_parts-empty : clean_parts "" ≡ []
unfolding clean_parts clean_from split_slash clean_step
clean_parts-empty = refl

below-IsPlain : (a : String) → IsBelow a → All IsPlain (clean_parts a)
below-IsPlain a (inl e) =
    subst (λ x. All IsPlain (clean_parts x)) (sym e)
      (subst (All IsPlain) (sym clean_parts-empty) tt)
below-IsPlain a (inr l) = (is_local-IsPlain a l).1

pub str_eq-false : (s : String) → s ≢ "" → str_eq s "" ≡ false
str_eq-false s n = ground (arith, n, eq_iff s "")

relative_text :
    (b : Bool) (t : String)
    → b ≡ false
    → str_eq t "" ≡ false
    → (if b then "/" ⊕ t else or_dot t) ≡ t
relative_text b t e f = rw (e, f) refl

clean-relative :
    (s : String)
    → is_abs s ≡ false
    → str_eq (join_slash (clean_parts s)) "" ≡ false
    → clean s ≡ join_slash (clean_parts s)
unfolding clean
clean-relative s rel ne = relative_text (is_abs s) (join_slash (clean_parts s)) rel ne

join-left : (b : String) → str_eq b "" ≡ false → join "" b ≡ clean b
unfolding join
join-left b e = rw e refl

pub join-both :
    (a b : String) → str_eq a "" ≡ false → str_eq b "" ≡ false → join a b ≡ clean (a ⊕ "/" ⊕ b)
unfolding join
join-both a b e f = rw (e, f) refl

clean-join_slash :
    (p : String) (ps : List String)
    → All IsPlain (p ∷ ps)
    → (s : String) → is_abs s ≡ false
    → clean_parts s ≡ p ∷ ps
    → clean s ≡ join_slash (p ∷ ps)
clean-join_slash p ps h s rel e =
    let ne = str_eq-false (join_slash (p ∷ ps)) (join_slash-ne p ps h.0) in
    clean-relative s rel (ap (λ x. str_eq (join_slash x) "") e ∙ ne) ∙ ap join_slash e

join-at :
    (a b : String)
    → IsBelow a
    → IsPlain b
    → (qs : List String) → (clean_parts a ++ b ∷ [] ≡ qs)
    → (p : String) (ps : List String) → qs ≡ p ∷ ps
    → All IsPlain (p ∷ ps)
    → join a b ≡ join_slash (p ∷ ps)
unfolding join_slash
join-at a b (inl e) h qs is p ps f plain =
    let one : b ∷ [] ≡ p ∷ ps =
      ap (λ x. x ++ b ∷ []) (sym clean_parts-empty ∙ ap clean_parts (sym e)) ∙ is ∙ f in
    ap (λ x. join x b) e
    ∙ join-left b h.not_empty
    ∙ clean-join_slash p ps plain b (plain-is_abs b h) (clean_parts-join_slash b [] (h, tt) ∙ one)
join-at a b (inr l) h qs is p ps f plain =
    let (rel, _) = is_local-IsPlain a l in
    let n : a ≢ "" = local-ne a l in
    join-both a b (str_eq-false a n) h.not_empty
    ∙ clean-join_slash p ps plain (a ⊕ "/" ⊕ b) (is_abs-append a ("/" ⊕ b) n ∙ rel)
        (clean_parts-join a b n rel h ∙ is ∙ f)

-- `Join` adds a plain element at the end.
pub join-below :
    (a b : String)
    → IsBelow a
    → IsPlain b
    → (join a b ≡ join_slash (clean_parts a ++ b ∷ []))
      × (clean_parts (join a b) ≡ clean_parts a ++ b ∷ [])
      × (is_local (join a b) ≡ true)
join-below a b l h =
    with_last
      (λ qs.
        clean_parts a ++ b ∷ [] ≡ qs
        → (join a b ≡ join_slash qs) × (clean_parts (join a b) ≡ qs) × (is_local (join a b) ≡ true))
      (λ p ps k is.
        let e = join-at a b l h (p ∷ ps) is p ps refl k in
        (
          e,
          ap clean_parts e ∙ clean_parts-join_slash p ps k,
          ap is_local e ∙ join_slash-is_local p ps k,
        ))
      (clean_parts a) b (All-append IsPlain (clean_parts a) b (below-IsPlain a l) h) refl
