-- ===== src/Server/SignIn.antt =====
-- When `login` opens a session.
use base_guard.Base.{
  ◌≡◌, refl, sym, ap, ◌∙◌, String, Bool, true, false, not, [], ◌∷◌, any, select, eq_iff, Result, ok,
  err, Bool-cases, inl, inr, arith,
}
use base_guard.Store.Methods.{setting}
use base_guard.Exec.{World, pure, try_io, ◌>>=◌}
use base_guard.Exec.Inversion.{>>=-elim, pure-eq-ok, try_io-eq-ok}
use base_guard.Server.Attempts.{Attempts, attempted, of_ip}
use base_guard.Server.Panel.{failed_page}
use base_guard.Server.Sessions.{Passwords, new_session}
use base_guard.Server.Pages.{Reply, answered, signed_in, to_page}
use base_guard.Server.Login.{
  LoginForm, token_fits, seconds, wrong_password, credentials_match, with_hash, sign_in, reply_of,
  forgiven, after_throttle, login,
}

none_of_ip :
    (ip : String) (m : Attempts) → any (of_ip ip) (select (λ e. not (of_ip ip e)) m) ≡ false
none_of_ip ip [] = refl
none_of_ip ip (e ∷ m) = elim (Bool-cases (of_ip ip e)) [
  | inl t ↦ rw t (none_of_ip ip m)
  | inr t ↦ rw (t, t) (none_of_ip ip m)
]

module _ (p : Passwords) (f : LoginForm) where
  -- The administrator's name and password, and a session that was opened.
  abbrev pub SignsIn : World → String → World → Type 0
  SignsIn v token v' =
      (h : String) × (x : World) × (setting "admin_hash" v ≡ (ok h, x))
      × (p.matches h f.password ≡ true)
      × (f.username ≡ "admin")
      × (new_session p (seconds f.arrival) x ≡ (ok token, v'))

  token_of : {a b : String} → signed_in a ≡ signed_in b → a ≡ b
  token_of h = cc h

  opened :
      (x : World) (token : String) (v' : World)
      → (try_io (new_session p (seconds f.arrival)) >>= λ r. pure (to_page signed_in r)) x
        ≡ (ok (signed_in token), v')
      → new_session p (seconds f.arrival) x ≡ (ok token, v')
  opened x token v' h = >>=-elim (try_io (new_session p (seconds f.arrival))) _ x h λ r w e k.
      let (shown, last) = pure-eq-ok (to_page signed_in r) w k in
      try_io-eq-ok (new_session p (seconds f.arrival)) x w e
      ∙ ap (λ q. (q, w)) (got r shown)
      ∙ ap (λ (y : World). (ok token, y)) (sym last)
    where
      got : (r : Result String) → signed_in token ≡ to_page signed_in r → r ≡ ok token
      got (ok t) is = ap (λ q. ok q) (sym (token_of is))
      got (err b) is = cc is

  hashed :
      (r : Result String) (x : World) (token : String) (v' : World)
      → with_hash p f r x ≡ (ok (signed_in token), v')
      → (h : String) × (r ≡ ok h)
        × (p.matches h f.password ≡ true)
        × (f.username ≡ "admin")
        × (new_session p (seconds f.arrival) x ≡ (ok token, v'))
  hashed (err b) x token v' h =
      let bad : signed_in token ≡ answered failed_page =
        (pure-eq-ok (answered failed_page) x h).0 in
      cc bad
  hashed (ok g) x token v' h = elim (Bool-cases (credentials_match p g f)) [
    | inl t ↦ (
      g,
      refl,
      ground arith,
      ground (arith, eq_iff f.username "admin"),
      opened x token v' (rw t at h),
    )
    | inr t ↦
        let bad : signed_in token ≡ wrong_password p f =
          (pure-eq-ok (wrong_password p f) x (rw t at h)).0 in
        cc bad
  ]

  sign_in-SignsIn :
      (v : World) (token : String) (v' : World)
      → sign_in p f v ≡ (ok (signed_in token), v')
      → SignsIn v token v'
  unfolding sign_in
  sign_in-SignsIn v token v' h = >>=-elim (try_io (setting "admin_hash")) _ v h λ r w e k.
      let (g, is, fits, admin, new) = hashed r w token v' k in
      (g, w, try_io-eq-ok (setting "admin_hash") v w e ∙ ap (λ q. (q, w)) is, fits, admin, new)

  signed_reply :
      (r : Result Reply) (token : String) → reply_of r ≡ signed_in token → r ≡ ok (signed_in token)
  signed_reply (ok a) token h = ap (λ q. ok q) h
  signed_reply (err b) token h = cc h

  throttled :
      (t : Attempts × Bool) (m' : Attempts) (v v' : World) (token : String)
      → after_throttle p f t v ≡ ((signed_in token, m'), v')
      → (t.1 ≡ false) × SignsIn v token v' × (any (of_ip f.ip) m' ≡ false)
  throttled (m, true) m' v v' token h = let bad = ap (λ x. x.0.0) h in cc bad
  throttled (m, false) m' v v' token h =
      let is : (sign_in p f v).0 ≡ ok (signed_in token) =
        signed_reply (sign_in p f v).0 token (ap (λ x. x.0.0) h) in
      let ends : (sign_in p f v).1 ≡ v' = ap (λ x. x.1) h in
      let left : forgiven p (reply_of (sign_in p f v).0) f.ip m ≡ m' = ap (λ x. x.0.1) h in
      (
        refl,
        sign_in-SignsIn v token v' (
            ap (λ q. (q, (sign_in p f v).1)) is
            ∙ ap (λ (y : World). (ok (signed_in token), y)) ends),
        ap (any (of_ip f.ip)) (sym left ∙ ap (λ q. forgiven p (reply_of q) f.ip m) is)
            ∙ none_of_ip f.ip m,
      )

  -- A login that opens a session came with a form that parses and has its token, was not blocked by the
  -- throttle, and gave the name of the administrator and a password that the stored hash accepts; the
  -- session is new, and the attempts of its address are forgotten.
  pub login-SignsIn :
      (m m' : Attempts) (v v' : World) (token : String)
      → login p f m v ≡ ((signed_in token, m'), v')
      → (f.parses ≡ true)
        × (token_fits f.cookie f.csrf ≡ true)
        × ((attempted f.arrival f.ip m).1 ≡ false)
        × SignsIn v token v'
        × (any (of_ip f.ip) m' ≡ false)
  unfolding login sign_in
  login-SignsIn m m' v v' token h = elim (Bool-cases f.parses) [
    | inr t ↦ let bad = ap (λ x. x.0.0) (rw t at h) in cc bad
    | inl t ↦ elim (Bool-cases (token_fits f.cookie f.csrf)) [
      | inr u ↦ let bad = ap (λ x. x.0.0) (rw (t, u) at h) in cc bad
      | inl u ↦
          let (free, signs, gone) =
            throttled (attempted f.arrival f.ip m) m' v v' token (rw (t, u) at h) in
          (t, u, free, signs, gone)
    ]
  ]
