-- ===== src/Server/Password.antt =====
-- `password` of the panel, and who is let in after it.
use Prim.Native.String.{len}
use base_guard.Base.{
  ◌≤◌, ◌≡◌, ◌⊎◌, inl, inr, refl, sym, ap, ◌∙◌, String, Bool, true, List, [], ◌∷◌, Option, some,
  first, str_eq, Result, ok, err, Bool-cases, Result-cases, arith, update_where,
}
use base_guard.Store.Tables.{Tables, apply, update_setting, delete_sessions}
use base_guard.Store.Methods.{or_no_rows, setting}
use base_guard.Exec.{World, pure, lift, query, run, transaction, try_io, ◌>>=◌, ◌>>◌}
use base_guard.Exec.Inversion.{
  pure-eq-ok, lift-eq-ok, >>=-elim, query-eq-ok, exec-eq-ok, transaction-eq-ok, transaction-err,
}
use base_guard.Exec.Keeps.{Keeps, keeps_rules}
use base_guard.Server.Sessions.{Passwords, Request, admitted, auth, bad_length}
use base_guard.Server.Panel.{failed_page}
use base_guard.Server.Pages.{
  Reply, answered, signed_out, signed_out_page, store_password, password_checked, password,
}
use base_guard.Server.Access.{auth-admits, or_no_rows-some}

-- The row of the administrator's hash.
abbrev pub hash_row : Tables → Option (String × String)
hash_row t = first (λ e. str_eq e.0 "admin_hash") t.settings

first-replaced :
    {A : Type 0} (p : A → Bool) (new : A) (rows : List A) {row : A}
    → p new ≡ true
    → first p rows ≡ some row
    → first p (update_where p (λ _. new) rows) ≡ some new
first-replaced p new [] hit f = cc f
first-replaced p new (r ∷ rows) hit f = elim (Bool-cases (p r)) [
  | inl t ↦ rw t (rw hit refl)
  | inr t ↦ rw (t, t) (first-replaced p new rows hit (rw t at f))
]

setting-row :
    (v v' : World) {value : String}
    → setting "admin_hash" v ≡ (ok value, v')
    → (row : String × String) × (hash_row v.tables ≡ some row) × (row.1 ≡ value)
unfolding setting
setting-row v v' h = >>=-elim (query hash_row) _ v h λ found v1 e1 k1.
    >>=-elim (lift (or_no_rows found)) _ v1 k1 λ row v2 e2 k2.
      let (f, _, _) = query-eq-ok hash_row v e1 in
      let (o, _) = lift-eq-ok (or_no_rows found) v1 e2 in
      (row, sym f ∙ or_no_rows-some found o, sym (pure-eq-ok row.1 v2 k2).0)

module _ (p : Passwords) (current next : String) where
  -- No cookie opens the panel.
  abbrev pub Closed : World → Type 0
  Closed v =
      ((r : Request) × (csrf : String) × (u : World) × (auth p r v ≡ (ok (admitted csrf), u))) → ⊥

  -- A change that was made, from one world to another.
  abbrev pub Changed : World → World → Type 0
  Changed v v' =
      (row : String × String) × (hash_row v.tables ≡ some row)
      × (p.matches row.1 current ≡ true)
      × (12 ≤ len next)
      × (len next ≤ 72)
      × (new : String) × (p.hash next ≡ ok new)
      × (hash_row v'.tables ≡ some ("admin_hash", new))
      × Closed v'

  abbrev pub Outcomes : Result Reply → World → World → Type 0
  Outcomes r v v' =
      ((v'.tables ≡ v.tables) × (r ≡ ok signed_out → ⊥)) ⊎ ((r ≡ ok signed_out) × Changed v v')

  no_sessions-Closed : (v : World) → v.tables.sessions ≡ [] → Closed v
  no_sessions-Closed v none_left (r, csrf, u, h) =
      let (open', _) = auth-admits p r v u csrf h in
      let (token, now, s, _, is_open, _) = open' in
      let found = rw none_left at is_open.0 in cc found

  module _ (v : World) (row : String × String) (is_row : hash_row v.tables ≡ some row) where
    stored-Outcomes :
        (new : String) (w : World)
        → w.tables ≡ v.tables
        → p.matches row.1 current ≡ true
        → 12 ≤ len next
        → len next ≤ 72
        → p.hash next ≡ ok new
        → let (r, v') = store_password p (ok new) w in Outcomes r v v'
    unfolding try_io ◌>>=◌ pure run apply
    stored-Outcomes new w same fits lo hi made =
        let change = run (update_setting "admin_hash" new) >> run delete_sessions in
        let x = transaction change w in
        elim (Result-cases x.0) [
          | inl (u, e) ↦
              let (a, b, ta, _, m, tb, _) = transaction-eq-ok change w (ap (λ q. (q, x.1)) e) in
              >>=-elim (run (update_setting "admin_hash" new)) _ a m λ u5 c e5 k5.
                let (_, t5, _) = exec-eq-ok (update_setting "admin_hash" new) _ a e5 in
                let (_, t6, _) = exec-eq-ok delete_sessions _ c k5 in
                let after : x.1.tables
                    ≡ apply delete_sessions (apply (update_setting "admin_hash" new) v.tables) =
                  tb
                  ∙ t6
                  ∙ ap (apply delete_sessions)
                      (t5 ∙ ap (apply (update_setting "admin_hash" new)) (ta ∙ same)) in
                inr (
                  ap (λ q. ok (signed_out_page p q)) e,
                  (
                    row,
                    is_row,
                    fits,
                    lo,
                    hi,
                    new,
                    made,
                    ap hash_row after
                        ∙ first-replaced (λ e. str_eq e.0 "admin_hash") ("admin_hash", new)
                            v.tables.settings refl is_row,
                    no_sessions-Closed x.1 (ap (λ t. t.sessions) after),
                  ),
                )
          | inr (f, e) ↦ inl (
            transaction-err change w (ap (λ q. (q, x.1)) e) ∙ same,
            λ k.
                let bad : ok (answered failed_page) ≡ ok signed_out =
                  sym (ap (λ q. ok (signed_out_page p q)) e) ∙ k in
                cc bad,
          )
        ]

    hashed-Outcomes :
        (o : Result String) (w : World)
        → w.tables ≡ v.tables
        → p.matches row.1 current ≡ true
        → 12 ≤ len next
        → len next ≤ 72
        → p.hash next ≡ o
        → let (r, v') = store_password p o w in Outcomes r v v'
    unfolding pure
    hashed-Outcomes (ok new) w same fits lo hi made = stored-Outcomes new w same fits lo hi made
    hashed-Outcomes (err f) w same fits lo hi made = inl (same, λ k. cc k)

    checked-Outcomes :
        (w : World)
        → w.tables ≡ v.tables
        → let (r, v') = password_checked p current next (ok row.1) w in Outcomes r v v'
    unfolding pure
    checked-Outcomes w same = elim (Bool-cases (p.matches row.1 current)) [
      | inl fits ↦ elim (Bool-cases (bad_length p next)) [
        | inl b ↦ rw (fits, b) (inl (same, λ k. cc k))
        | inr b ↦
            rw (fits, b)
              (hashed-Outcomes (p.hash next) w same fits (ground arith) (ground arith) refl)
      ]
      | inr fits ↦ rw fits (inl (same, λ k. cc k))
    ]

  -- A posted change of the password, whatever fails: the reply is not the one that signs out, and the tables are
  -- as before; or it is, the stored hash matched the current password, the new one has from 12 to 72 bytes,
  -- its hash is stored, and in the state that this leaves `auth` lets no request through, whatever its cookie.
  pub password-closes : (v : World) → let (r, v') = password p current next v in Outcomes r v v'
  unfolding password try_io ◌>>=◌ setting pure
  password-closes v =
      let found = setting "admin_hash" v in
      let kept : Keeps (λ t. t ≡ v.tables) (setting "admin_hash") = search keeps_rules in
      let same : found.1.tables ≡ v.tables = kept.at v refl in
      elim (Result-cases found.0) [
        | inl (h, e) ↦
            let (row, is_row, is_value) = setting-row v found.1 (ap (λ q. (q, found.1)) e) in
            rw (e, sym is_value) (checked-Outcomes v row is_row found.1 same)
        | inr (f, e) ↦ rw e (inl (same, λ k. cc k))
      ]
