-- ===== src/Server/Opened.antt =====
-- A session that `login` opened, and the requests that use it.
use base_guard.Base.{
  ℕ, ◌<◌, ◌+◌, ◌≡◌, refl, sym, ap, ◌∙◌, String, Bool, true, false, List, [], ◌∷◌, ◌++◌, some, any,
  first, str_eq, eq_iff, ok, arith,
}
use base_guard.Store.Tables.{
  Tables, Session, Statement, apply, conflicts, insert_session, delete_expired,
}
use base_guard.Exec.{World, pure, lift, exec, executed, run, try_io, time_now, rand_read, ◌>>=◌}
use base_guard.Exec.Inversion.{>>=-elim, pure-eq-ok, exec-eq-ok, attempt-eq-ok, query-Calm}
use base_guard.Worker.Methods.{ignore}
use base_guard.Server.Sessions.{
  Passwords, Request, admitted, open_session, auth, twelve_hours, new_session,
}

-- A statement that succeeded met no conflict.
exec-fits :
    {A : Type 0} (s : Statement) (f : Tables → A) (w w' : World) {a : A}
    → exec s f w ≡ (ok a, w')
    → conflicts s w.tables ≡ false
unfolding exec
exec-fits {A} s f w w' {a} h =
    let (v, t, d, e) = attempt-eq-ok _ w h in
    ap (conflicts s) (sym t) ∙ go (conflicts s v.tables) v e
  where
    go : (b : Bool) (v : World) → executed s f b v ≡ (ok a, w') → b ≡ false
    go true v e = cc e
    go false v e = refl

first-last :
    {A : Type 0} (p : A → Bool) (xs : List A) (x : A)
    → any p xs ≡ false
    → p x ≡ true
    → first p (xs ++ x ∷ []) ≡ some x
first-last p [] x h e = rw e refl
first-last p (y ∷ xs) x h e =
    let no : p y ≡ false = ground arith in rw no (first-last p xs x (ground arith) e)

module _ (p : Passwords) where
  not_open :
      (token : String) (now : ℕ) (xs : List Session)
      → any (λ q. str_eq q.token (p.token_hash token)) xs ≡ false
      → any (open_session p token now) xs ≡ false
  not_open token now [] h = refl
  not_open token now (x ∷ xs) h = ground (arith, not_open token now xs)

  -- What the table of sessions is after a session was opened.
  new_session-last :
      (now : ℕ) (v v' : World) (token : String)
      → new_session p now v ≡ (ok token, v')
      → (csrf : String) × (before : List Session) × (any
            (λ q. str_eq q.token (p.token_hash token))
            before
          ≡ false)
        × (v'.tables.sessions
            ≡ before
              ++ record { token = p.token_hash token; csrf = csrf; expires = now + twelve_hours p }
                ∷ [])
  unfolding new_session run conflicts apply
  new_session-last now v v' token h = >>=-elim (rand_read 32) _ v h λ a w1 e1 k1.
      >>=-elim (ignore (run (delete_expired now))) _ w1 k1 λ u w2 e2 k2.
        >>=-elim (rand_read 32) _ w2 k2 λ b w3 e3 k3.
          let s = insert_session (record {
            token = p.token_hash (p.token a);
            csrf = p.token b;
            expires = now + twelve_hours p;
          }) in
          >>=-elim (run s) _ w3 k3 λ u' w4 e4 k4.
            let (is, last) = pure-eq-ok (p.token a) w4 k4 in
            let (_, t, _) = exec-eq-ok s _ w3 e4 in
            let there =
              ap (λ (x : World). x.tables.sessions) last ∙ ap (λ (x : Tables). x.sessions) t in
            (
              p.token b,
              w3.tables.sessions,
              ap (λ k. any (λ q. str_eq q.token (p.token_hash k)) w3.tables.sessions) is
                  ∙ exec-fits s _ w3 w4 e4,
              there
                  ∙ ap
                      (λ k.
                        w3.tables.sessions
                        ++ record {
                          token = p.token_hash k;
                          csrf = p.token b;
                          expires = now + twelve_hours p;
                        }
                          ∷ [])
                      (sym is),
            )

  -- A session that was opened at `now` admits, with its token, every request that has its cookie and posts
  -- nothing, on the same tables, less than twelve hours later and where no operation fails.
  pub new_session-auth :
      (now : ℕ) (v v' : World) (token : String) (w : World) (later : ℕ) (rest : List ℕ)
      (r : Request)
      → new_session p now v ≡ (ok token, v')
      → w.tables ≡ v'.tables
      → w.faults ≡ []
      → w.clock ≡ later ∷ rest
      → later < now + twelve_hours p
      → r.cookie ≡ some token
      → r.is_post ≡ false
      → (csrf : String) × (auth p r w ≡ (ok (admitted csrf), record w { clock = rest }))
  unfolding auth pure try_io ◌>>=◌ lift time_now
  new_session-auth now v v' token w later rest r h same calm clock soon cookie get =
      let (csrf, before, free, sessions) = new_session-last now v v' token h in
      let new : Session = record {
        token = p.token_hash token;
        csrf = csrf;
        expires = now + twelve_hours p;
      } in
      let open' : open_session p token later new ≡ true =
        ground (arith, eq_iff (p.token_hash token) (p.token_hash token)) in
      let found : first (open_session p token later) w.tables.sessions ≡ some new =
        ap (λ (t : Tables). first (open_session p token later) t.sessions) same
        ∙ ap (first (open_session p token later)) sessions
        ∙ first-last (open_session p token later) before new (not_open token later before free)
            open' in
      (
        csrf,
        rw
            (
              cookie,
              clock,
              query-Calm (λ (t : Tables). first (open_session p token later) t.sessions)
                  (record w { clock = rest }) calm,
              found,
              get,
            )
            refl,
      )
