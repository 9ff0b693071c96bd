-- ===== src/Server/Access.antt =====
-- Who gets past `auth`.
use base_guard.Base.{
  ◌⊎◌, inl, inr, ℕ, ◌<◌, ◌≡◌, ◌≢◌, refl, sym, ap, ◌∙◌, String, Bool, true, false, List, [], ◌∷◌,
  Option, none, some, first, eq_iff, ok, Bool-cases, Result-cases, inl, inr, arith,
}
use base_guard.Store.Tables.{Session, Tables}
use base_guard.Store.Methods.{or_no_rows}
use base_guard.Exec.{World, query, try_io, time_now}
use base_guard.Exec.Inversion.{
  pure-eq-ok, lift-eq-ok, >>=-elim, query-eq-ok, try_io-eq-ok, time_now-eq-ok,
}
use base_guard.Server.Sessions.{
  Passwords, Request, admitted, login_first, bad_form, bad_csrf, equal, open_session, session_of,
  checked, auth,
}

first-holds :
    (q : Session → Bool) (rows : List Session) {s : Session} → first q rows ≡ some s → q s ≡ true
first-holds q [] h = cc
first-holds q (r ∷ rows) {s} h = elim (Bool-cases (q r)) [
  | inl t ↦ let same : some r ≡ some s = rw t at h in let e : r ≡ s = cc same in ap q (sym e) ∙ t
  | inr t ↦ first-holds q rows (rw t at h)
]

pub or_no_rows-some : {A : Type 0} (o : Option A) {a : A} → or_no_rows o ≡ ok a → o ≡ some a
or_no_rows-some none h = cc
or_no_rows-some (some b) h = cc h

equal-eq-true : (a b : String) → equal a b ≡ true → (b ≡ a) × (a ≢ "")
equal-eq-true a b h = (ground (arith, eq_iff a b), ground (arith, eq_iff a ""))

module _ (p : Passwords) where
  -- A session that the request may use: stored, found by the hash of the cookie, and not expired at
  -- the time that was read.
  abbrev pub IsOpen : Tables → String → ℕ → Session → Type 0
  IsOpen t token now s =
      (first (open_session p token now) t.sessions ≡ some s)
      × (s.token ≡ p.token_hash token)
      × (now < s.expires)

  session_of-IsOpen :
      (c : Option String) (v v' : World) (s : Session)
      → session_of p c v ≡ (ok s, v')
      → (token : String) × (now : ℕ) × (c ≡ some token) × IsOpen v.tables token now s
  session_of-IsOpen none v v' s h = let (q, _) = lift-eq-ok _ v h in cc q
  session_of-IsOpen (some token) v v' s h = >>=-elim time_now _ v h λ now v1 e1 k1.
      >>=-elim (query (λ t. first (open_session p token now) t.sessions)) _ v1 k1 λ found v2 e2 k2.
        let (f, t2, _) = query-eq-ok (λ t. first (open_session p token now) t.sessions) v1 e2 in
        let (o, _) = lift-eq-ok (or_no_rows found) v2 k2 in
        let here =
          f ∙ ap (λ t. first (open_session p token now) t.sessions) (time_now-eq-ok v e1) in
        let open' = sym here ∙ or_no_rows-some found o in
        let q = first-holds (open_session p token now) v.tables.sessions open' in
        (
          token,
          now,
          refl,
          (open', ground (arith, q, eq_iff s.token (p.token_hash token)), ground (arith, q)),
        )

  checked-admits :
      (r : Request) (s : Session) (csrf : String)
      → checked p r (ok s) ≡ admitted csrf
      → (s.csrf ≡ csrf)
        × ((r.is_post ≡ false) ⊎ ((r.csrf ≡ csrf) × (csrf ≢ "") × (r.parses ≡ true)))
  checked-admits r s csrf h = elim (Bool-cases r.is_post) [
    | inl t ↦ elim (Bool-cases r.parses) [
      | inl u ↦ elim (Bool-cases (equal s.csrf r.csrf)) [
        | inl e ↦
            let same : admitted s.csrf ≡ admitted csrf = rw (t, u, e) at h in
            let (f, n) = equal-eq-true s.csrf r.csrf e in
            let k : s.csrf ≡ csrf = cc same in (k, inr (f ∙ k, λ z. n (k ∙ z), u))
        | inr e ↦ let no_way : bad_csrf ≡ admitted csrf = rw (t, u, e) at h in cc no_way
      ]
      | inr u ↦ let no_way : bad_form ≡ admitted csrf = rw (t, u) at h in cc no_way
    ]
    | inr t ↦ let same : admitted s.csrf ≡ admitted csrf = rw t at h in (cc same, inl t)
  ]

  pub auth-admits :
      (r : Request) (v v' : World) (csrf : String)
      → auth p r v ≡ (ok (admitted csrf), v')
      → ((token : String) × (now : ℕ) × (s : Session) × (r.cookie ≡ some token)
          × IsOpen v.tables token now s
          × (s.csrf ≡ csrf))
        × ((r.is_post ≡ false) ⊎ ((r.csrf ≡ csrf) × (csrf ≢ "") × (r.parses ≡ true)))
  unfolding auth
  auth-admits r v v' csrf h = >>=-elim (try_io (session_of p r.cookie)) _ v h λ s v1 e1 k1.
      let (c, _) = pure-eq-ok _ v1 k1 in
      elim (Result-cases s) [
        | inl (x, e) ↦
            let (token, now, named, open') =
              session_of-IsOpen r.cookie v v1 x (try_io-eq-ok _ v v1 e1 ∙ ap (λ q. (q, v1)) e) in
            let (same, posted) = checked-admits r x csrf (sym (c ∙ ap (checked p r) e)) in
            ((token, now, x, named, open', same), posted)
        | inr (x, e) ↦
            let refused : admitted csrf ≡ login_first = c ∙ ap (checked p r) e in cc refused
      ]
