-- ===== src/FilePath/Ends.antt =====
-- What a path that `Join` gives ends in.
use text.Mathlib.TextLemmas.{cons≢nil, append_assoc as text_assoc}
use Prim.Native.String.append.{nil, cons}
use base_guard.Base.{
  String, Bool, true, false, List, [], ◌∷◌, ◌++◌, reverse, ◌⊕◌, Bool-cases, inl, inr, ◌≡◌, ◌≢◌, ◌⊎◌,
  refl, sym, ap, subst, ◌∙◌, str_eq, eq_iff, if◌then◌else◌,
}
use base_guard.FilePath.{
  split_slash, clean_from, join_slash, is_abs, clean_parts, or_dot, clean, join,
}
use base_guard.FilePath.Split.{split_slash-join, split_slash-one}
use base_guard.FilePath.Clean.{IsPlain, clean_from-pile, clean_from-plain, pile, pile-append}
use base_guard.FilePath.Below.{clean_parts-empty, join-below, join-both, str_eq-false}

-- The path ends in this element.
abbrev pub EndsIn : String → String → Type 0
EndsIn b path = (path ≡ b) ⊎ ((front : String) × (path ≡ front ⊕ "/" ⊕ b))

join_slash-EndsIn : (ps : List String) (b : String) → EndsIn b (join_slash (ps ++ b ∷ []))
unfolding join_slash
join_slash-EndsIn [] b = inl refl
join_slash-EndsIn (p ∷ []) b = inr (p, refl)
join_slash-EndsIn (p ∷ q ∷ ps) b = elim (join_slash-EndsIn (q ∷ ps) b) [
  | inl e ↦ inr (p, ap (λ x. p ⊕ "/" ⊕ x) e)
  | inr (f, e) ↦ inr (
    p ⊕ "/" ⊕ f,
    ap (λ x. p ⊕ "/" ⊕ x) e
        ∙ sym (text_assoc p ("/" ⊕ f) ("/" ⊕ b) ∙ ap (λ x. p ⊕ x) (text_assoc "/" f ("/" ⊕ b))),
  )
]

-- A plain element that is pushed last, whatever was read before it.
clean_parts-last :
    (a b : String) → IsPlain b → (ps : List String) × (clean_parts (a ⊕ "/" ⊕ b) ≡ ps ++ b ∷ [])
unfolding clean_parts
clean_parts-last a b h =
    let rooted = is_abs (a ⊕ "/" ⊕ b) in
    let st = pile rooted [] (split_slash a) in
    (
      reverse st,
      ap (clean_from rooted [])
            (split_slash-join a b ∙ ap (λ x. split_slash a ++ x) (split_slash-one b h.slashless))
          ∙ clean_from-pile rooted [] (split_slash a ++ b ∷ [])
          ∙ ap reverse (pile-append rooted [] (split_slash a) (b ∷ []))
          ∙ sym (clean_from-pile rooted st (b ∷ []))
          ∙ clean_from-plain rooted st (b ∷ []) (h, tt),
    )

EndsIn-ne : (b path : String) → IsPlain b → EndsIn b path → path ≢ ""
EndsIn-ne b path h (inl e) k = cc (h.not_empty, (eq_iff b "").1 (sym e ∙ k))
EndsIn-ne b path h (inr (f, e)) k = slash-ne f b (sym e ∙ k)
  where
    slash-ne : (x y : String) → x ⊕ "/" ⊕ y ≢ ""
    slash-ne String.[] y k = cons≢nil (sym (cons "/" "" y) ∙ sym (nil ("/" ⊕ y)) ∙ k)
    slash-ne (String.◌∷◌ c x) y k = cons≢nil (sym (cons c x ("/" ⊕ y)) ∙ k)

rooted_text :
    (b : String) (rooted : Bool) (t : String)
    → IsPlain b
    → EndsIn b t
    → EndsIn b (if rooted then "/" ⊕ t else or_dot t)
rooted_text b true t h (inl e) = inr ("", ap (λ x. "/" ⊕ x) e ∙ sym (nil ("/" ⊕ b)))
rooted_text b true t h (inr (f, e)) =
    inr ("/" ⊕ f, ap (λ x. "/" ⊕ x) e ∙ sym (text_assoc "/" f ("/" ⊕ b)))
rooted_text b false t h e = let ne = str_eq-false t (EndsIn-ne b t h e) in rw ne e

-- `Join` ends in the plain element that it is given, whatever the rest is.
pub join-EndsIn : (a b : String) → IsPlain b → EndsIn b (join a b)
unfolding clean join_slash
join-EndsIn a b h = elim (Bool-cases (str_eq a "")) [
  | inl e ↦
      let e' = (eq_iff a "").0 e in
      inl (
        ap (λ x. join x b) e'
        ∙ (join-below "" b (inl refl) h).0
        ∙ ap (λ x. join_slash (x ++ b ∷ [])) clean_parts-empty
        ∙ one b)
  | inr e ↦
      let (ps, parts) = clean_parts-last a b h in
      subst (EndsIn b) (sym (join-both a b e h.not_empty)) (
        rooted_text b (is_abs (a ⊕ "/" ⊕ b)) (join_slash (clean_parts (a ⊕ "/" ⊕ b))) h
          (subst (λ x. EndsIn b (join_slash x)) (sym parts) (join_slash-EndsIn ps b)))
]
  where
    one : (x : String) → join_slash (x ∷ []) ≡ x
    one x = refl
