-- ===== src/FilePath/Clean.antt =====
-- `Clean`: the elements that stay.
use mathlib.Core.List.{append-nil, append_assoc, reverse-cons}
use base_guard.Base.{
  String, Bool, true, false, ◌||◌, List, [], ◌∷◌, ◌++◌, reverse, Bool-cases, inl, inr, All, ◌≡◌,
  ◌⊎◌, refl, sym, ap, subst, ◌∙◌, arith, str_eq,
}
use base_guard.FilePath.{
  split_slash, back, clean_step, clean_from, is_abs, clean_parts, head_is_up, is_local,
}
use base_guard.FilePath.Split.{Slashless, split_slash-Slashless}

-- An element that stands for itself.
pub record IsPlain (p : String) : Type 0 where
  pub slashless : Slashless p
  pub not_empty : str_eq p "" ≡ false
  pub not_dot : str_eq p "." ≡ false
  pub not_up : str_eq p ".." ≡ false

-- The elements read so far, the last one first: plain ones over some `..`.
abbrev AllUp : List String → Type 0
AllUp st = All (λ p. str_eq p ".." ≡ true) st

abbrev Normal : List String → Type 0
Normal [] = Unit
Normal (p ∷ st) = (IsPlain p × Normal st) ⊎ ((str_eq p ".." ≡ true) × AllUp st)

AllUp-Normal : (st : List String) → AllUp st → Normal st
AllUp-Normal [] h = tt
AllUp-Normal (p ∷ st) (h, hs) = inr (h, hs)

-- The stack after some elements.
pub pile : Bool → List String → List String → List String
pile rooted st [] = st
pile rooted st (p ∷ ps) = pile rooted (clean_step rooted st p) ps

pub clean_from-pile :
    (rooted : Bool) (st ps : List String) → clean_from rooted st ps ≡ reverse (pile rooted st ps)
unfolding clean_from pile
clean_from-pile rooted st [] = refl
clean_from-pile rooted st (p ∷ ps) = clean_from-pile rooted (clean_step rooted st p) ps

pub pile-append :
    (rooted : Bool) (st ps qs : List String)
    → pile rooted st (ps ++ qs) ≡ pile rooted (pile rooted st ps) qs
unfolding pile
pile-append rooted st [] qs = refl
pile-append rooted st (p ∷ ps) qs = pile-append rooted (clean_step rooted st p) ps qs

clean_step-plain :
    (rooted : Bool) (st : List String) (p : String) → IsPlain p → clean_step rooted st p ≡ p ∷ st
unfolding clean_step
clean_step-plain rooted st p h = rw (h.not_empty, h.not_dot, h.not_up) refl

back-Normal : (st : List String) → Normal st → Normal (back false st)
unfolding back
back-Normal [] h = inr (refl, tt)
back-Normal (p ∷ st) (inl (h, hs)) = rw h.not_up hs
back-Normal (p ∷ st) (inr (h, hs)) = rw h (inr (refl, (h, hs)))

clean_step-Normal :
    (st : List String) (p : String) → Slashless p → Normal st → Normal (clean_step false st p)
unfolding clean_step
clean_step-Normal st p s h = elim (Bool-cases (str_eq p "" || str_eq p ".")) [
  | inl t ↦ rw t h
  | inr t ↦ elim (Bool-cases (str_eq p "..")) [
    | inl u ↦ rw (t, u) (back-Normal st h)
    | inr u ↦
        rw (t, u)
          (inl (
            record {
              slashless = s;
              not_empty = ground (arith, t);
              not_dot = ground (arith, t);
              not_up = u;
            },
            h,
          ))
  ]
]

pile-Normal : (st ps : List String) → All Slashless ps → Normal st → Normal (pile false st ps)
unfolding pile
pile-Normal st [] s h = h
pile-Normal st (p ∷ ps) (s, ss) h =
    pile-Normal (clean_step false st p) ps ss (clean_step-Normal st p s h)

-- A stack whose first element from the bottom is not `..` has none.
head_is_up-append :
    (ps : List String) (p q : String)
    → head_is_up ((ps ++ p ∷ []) ++ q ∷ []) ≡ head_is_up (ps ++ p ∷ [])
head_is_up-append [] p q = refl
head_is_up-append (x ∷ ps) p q = refl

Normal-IsPlain : (st : List String) → Normal st → head_is_up (reverse st) ≡ false → All IsPlain st
Normal-IsPlain [] h e = tt
Normal-IsPlain (p ∷ []) (inl (h, hs)) e = (h, tt)
Normal-IsPlain (p ∷ []) (inr (h, hs)) e = let k : str_eq p ".." ≡ false = e in cc (h, k)
Normal-IsPlain (p ∷ q ∷ st) n e = go n (λ m. Normal-IsPlain (q ∷ st) m under)
  where
    under : head_is_up (reverse (q ∷ st)) ≡ false
    under =
        ap head_is_up (reverse-cons q st)
        ∙ sym (head_is_up-append (reverse st) q p)
        ∙ sym (ap (λ x. head_is_up (x ++ p ∷ [])) (reverse-cons q st))
        ∙ sym (ap head_is_up (reverse-cons p (q ∷ st)))
        ∙ e

    go : Normal (p ∷ q ∷ st) → (Normal (q ∷ st) → All IsPlain (q ∷ st)) → All IsPlain (p ∷ q ∷ st)
    go (inl (h, hs)) rest = (h, rest hs)
    go (inr (h, hs)) rest =
        absurd
          (let bad : true ≡ false = sym hs.0 ∙ (rest (AllUp-Normal (q ∷ st) hs)).0.not_up in cc bad)

pub All-append :
    {A : Type 0} (Q : A → Type 0) (xs : List A) (x : A) → All Q xs → Q x → All Q (xs ++ x ∷ [])
All-append Q [] x h q = (q, tt)
All-append Q (y ∷ xs) x (h, hs) q = (h, All-append Q xs x hs q)

All-reverse : {A : Type 0} (Q : A → Type 0) (xs : List A) → All Q xs → All Q (reverse xs)
All-reverse Q [] h = tt
All-reverse Q (x ∷ xs) (h, hs) =
    subst (All Q) (sym (reverse-cons x xs)) (All-append Q (reverse xs) x (All-reverse Q xs hs) h)

-- Plain elements stay.
pub clean_from-plain :
    (rooted : Bool) (st ps : List String)
    → All IsPlain ps
    → clean_from rooted st ps ≡ reverse st ++ ps
unfolding clean_from
clean_from-plain rooted st [] h = sym (append-nil (reverse st))
clean_from-plain rooted st (p ∷ ps) (h, hs) =
    ap (λ x. clean_from rooted x ps) (clean_step-plain rooted st p h)
    ∙ clean_from-plain rooted (p ∷ st) ps hs
    ∙ ap (λ x. x ++ ps) (reverse-cons p st)
    ∙ append_assoc (reverse st) (p ∷ []) ps

-- The elements of a local path are plain.
pub is_local-IsPlain :
    (a : String) → is_local a ≡ true → (is_abs a ≡ false) × All IsPlain (clean_parts a)
unfolding is_local clean_parts
is_local-IsPlain a h =
    let rel : is_abs a ≡ false = ground arith in
    let e : clean_from (is_abs a) [] (split_slash a) ≡ reverse (pile false [] (split_slash a)) =
      ap (λ b. clean_from b [] (split_slash a)) rel ∙ clean_from-pile false [] (split_slash a) in
    let top : head_is_up (reverse (pile false [] (split_slash a))) ≡ false =
      ap head_is_up (sym e) ∙ ground arith in
    let st = pile false [] (split_slash a) in
    (
      rel,
      subst (All IsPlain) (sym e) (
          All-reverse IsPlain st
            (Normal-IsPlain st (pile-Normal [] (split_slash a) (split_slash-Slashless a) tt) top)),
    )
