-- ===== src/Store/Saving.antt =====
-- `Save` and the methods that read back what it wrote.
use base_guard.Base.{
  ℕ, suc, ◌<◌, String, true, List, [], ◌∷◌, ◌++◌, Option, none, some, first, find_row-key,
  find_row-update_where, ◌==◌, Result, ok, ◌≡◌, ◌≢◌, ◌⊎◌, ◌↔◌, Bool, false, eq_iff, eq_ℤ_iff, refl,
  sym, ap, ◌∙◌, inl, inr, Bool-cases, subst, if◌then◌else◌, arith,
}
use base_guard.Disk.{Bytes}
use base_guard.Model.{Database, Json, json, malformed}
use base_guard.Security.{Cipher, encrypt, decrypt}
use base_guard.Security.RoundTrip.{decrypt-encrypt}
use base_guard.Store.Tables.{DatabaseRow, Tables, apply, insert_database, update_database}
use base_guard.Store.Invariant.{IsSound, Rising, Rising-le, database_row_id}
use base_guard.Store.Methods.{
  unmarshal, or_no_rows, same_schedule, keep_next_run, insert_row, update_row, write_database, save,
  load_row,
}
use base_guard.Exec.{World, pure, lift, query, exec, run}
use base_guard.Exec.Inversion.{
  pure-eq-ok, lift-eq-ok, >>=-eq-ok, query-eq-ok, exec-eq-ok, transaction-eq-ok,
}
use base_guard.Exec.Keeps.{Keeps, keeps_rules}

abbrev pub row_of : ℕ → Tables → Option DatabaseRow
row_of id t = first (λ r. r.id == id) t.databases

-- An edit that leaves the schedule and the switch alone.
abbrev pub SameSchedule : Bool → Database → Database → Type 0
SameSchedule enabled old d =
    (enabled ≡ d.enabled)
    × (old.schedule_kind ≡ d.schedule_kind)
    × (old.at ≡ d.at)
    × (old.timezone ≡ d.timezone)
    × (old.interval ≡ d.interval)
    × (old.weekday ≡ d.weekday)

pub same_schedule_iff :
    (enabled : Bool) (old d : Database)
    → (same_schedule enabled old d ≡ true) ↔ SameSchedule enabled old d
same_schedule_iff enabled old d = (
  λ e. (
    ground arith,
    ground (arith, eq_iff old.schedule_kind d.schedule_kind),
    ground (arith, eq_iff old.at d.at),
    ground (arith, eq_iff old.timezone d.timezone),
    ground (arith, eq_ℤ_iff old.interval d.interval),
    ground (arith, eq_ℤ_iff old.weekday d.weekday),
  ),
  λ (a, k, t, z, i, w). ground (
    arith,
    a,
    (eq_iff old.schedule_kind d.schedule_kind).1 k,
    (eq_iff old.at d.at).1 t,
    (eq_iff old.timezone d.timezone).1 z,
    (eq_ℤ_iff old.interval d.interval).1 i,
    (eq_ℤ_iff old.weekday d.weekday).1 w,
  ),
)

-- What `keep_next_run` answers: the record with the id it had, and, of a record that is stored, the
-- planned time of the row when, and only when, the edit leaves the schedule alone.
abbrev pub Kept : Database → Tables → Database → Type 0
Kept d t d' =
    ((d.id ≡ 0) × (d' ≡ d))
    ⊎ ((d.id ≢ 0)
        × (row : DatabaseRow) × (old : Database) × (row_of d.id t ≡ some row)
        × (row.config ≡ json old)
        × ((SameSchedule row.enabled old d × (d' ≡ record d { next_run = row.next_run }))
            ⊎ ((SameSchedule row.enabled old d → ⊥) × (d' ≡ d))))

kept_or_not :
    (row : DatabaseRow) (old d d' : Database)
    → d' ≡ (if same_schedule row.enabled old d then record d { next_run = row.next_run } else d)
    → (SameSchedule row.enabled old d × (d' ≡ record d { next_run = row.next_run }))
      ⊎ ((SameSchedule row.enabled old d → ⊥) × (d' ≡ d))
kept_or_not row old d d' e =
    let (to, from) = same_schedule_iff row.enabled old d in
    elim (Bool-cases (same_schedule row.enabled old d)) [
      | inl t ↦ inl (to t, rw t at e)
      | inr t ↦
          let differ : SameSchedule row.enabled old d → ⊥ =
            λ h. absurd (true-false (sym (from h) ∙ t)) in
          inr (differ, rw t at e)
    ]
  where
    true-false : true ≡ false → ⊥
    true-false h = cc h

or_no_rows-eq-ok : {A : Type 0} (o : Option A) {a : A} → or_no_rows o ≡ ok a → o ≡ some a
or_no_rows-eq-ok none h = cc
or_no_rows-eq-ok (some b) h = cc h

unmarshal-eq-ok : {A : Type 0} (j : Json A) {a : A} → unmarshal j ≡ ok a → j ≡ json a
unmarshal-eq-ok (json b) h = cc h
unmarshal-eq-ok (malformed s) h = cc

keep_next_run-Kept :
    (d d' : Database) (w w' : World)
    → keep_next_run d w ≡ (ok d', w')
    → Kept d w.tables d' × (w'.tables ≡ w.tables)
unfolding keep_next_run
keep_next_run-Kept d d' w w' h = elim (Bool-cases (d.id == 0)) [
  | inl e ↦
      let k : pure d w ≡ (ok d', w') = rw (e, keep_next_run) at h in
      (let (x, y) = pure-eq-ok d w k in (inl (ground arith, x), ap (λ v. v.tables) y))
  | inr e ↦
      let k = rw (e, keep_next_run) at h in
      let (found, w1, q, k1) = >>=-eq-ok (query (row_of d.id)) _ w k in
      let (f1, t1, _) = query-eq-ok (row_of d.id) w q in
      let (row, w2, l, k2) = >>=-eq-ok (lift (or_no_rows found)) _ w1 k1 in
      let (r1, t2) = lift-eq-ok (or_no_rows found) w1 l in
      let (old, w3, u, k3) = >>=-eq-ok (lift (unmarshal row.config)) _ w2 k2 in
      let (o1, t3) = lift-eq-ok (unmarshal row.config) w2 u in
      let (d1, w4) = pure-eq-ok _ w3 k3 in
      (
        inr (
          ground arith,
          row,
          old,
          sym f1 ∙ or_no_rows-eq-ok found r1,
          unmarshal-eq-ok row.config o1,
          kept_or_not row old d d' d1,
        ),
        ap (λ v. v.tables) (w4 ∙ t3 ∙ t2) ∙ t1,
      )
]

first-append :
    (id lo hi : ℕ) (rs : List DatabaseRow) (r : DatabaseRow)
    → hi < id
    → Rising (λ x. x.id) lo hi rs
    → r.id ≡ id
    → first (λ x. x.id == id) (rs ++ r ∷ []) ≡ some r
first-append id lo hi [] r l h e = ground arith
first-append id lo hi (q ∷ rs) r l h e =
    ground (arith, first-append id q.id hi rs r, Rising-le (λ x. x.id) q.id hi rs h.1)

module _ (c : Cipher) (key : Bytes) where
  encrypt-tables :
      (s : String) (w w' : World) (r : Result String)
      → encrypt c key s w ≡ (r, w')
      → w'.tables ≡ w.tables
  unfolding encrypt
  encrypt-tables s w w' r h =
      let k : Keeps (λ t. t ≡ w.tables) (encrypt c key s) = search keeps_rules in
      ap (λ v. v.1.tables) (sym h) ∙ k.at w refl

  load_row-sealed :
      (d : Database) (id : ℕ) (sealed : String)
      → decrypt c key sealed ≡ ok d.password
      → load_row c key (record {
        id = id;
        config = json (record d { password = sealed });
        enabled = d.enabled;
        next_run = d.next_run;
      })
        ≡ ok (record d { id = id })
  unfolding load_row
  load_row-sealed d id sealed h = rw h

  insert_row-same :
      (d d' : Database) (config : Json Database) (w w' : World)
      → insert_row d config w ≡ (ok d', w')
      → d' ≡ record d { id = d'.id }
  unfolding insert_row
  insert_row-same d d' config w w' h =
      let (id, w1, q, k) = >>=-eq-ok (exec (insert_database config d.enabled d.next_run) _) _ w h in
      let (e, _) = pure-eq-ok _ w1 k in e ∙ ap (λ n. record d { id = n }) (sym (ap (λ x. x.id) e))

  update_row-same :
      (d d' : Database) (config : Json Database) (w w' : World)
      → update_row d config w ≡ (ok d', w')
      → d' ≡ record d { id = d'.id }
  unfolding update_row
  update_row-same d d' config w w' h =
      let (u, w1, q, k) =
        >>=-eq-ok (run (update_database d.id config d.enabled d.next_run)) _ w h in
      let (e, _) = pure-eq-ok _ w1 k in e ∙ ap (λ n. record d { id = n }) (sym (ap (λ x. x.id) e))

  -- The row that the record is written to, and what it reads back as.
  abbrev pub Stored : Database → Tables → Type 0
  Stored d t = (row : DatabaseRow) × (row_of d.id t ≡ some row) × (load_row c key row ≡ ok d)

  insert_row-Stored :
      (d d' : Database) (sealed : String) (w w' : World)
      → decrypt c key sealed ≡ ok d.password
      → IsSound w.tables
      → insert_row d (json (record d { password = sealed })) w ≡ (ok d', w')
      → Stored d' w'.tables
  unfolding insert_row apply
  insert_row-Stored d d' sealed w w' p v h =
      let config = json (record d { password = sealed }) in
      let s = insert_database config d.enabled d.next_run in
      let (id, w1, q, k) = >>=-eq-ok (exec s (λ t. suc t.database_seq)) _ w h in
      let (e1, t1, _) = exec-eq-ok s _ w q in
      let (e2, w2) = pure-eq-ok _ w1 k in
      let same : d' ≡ record d { id = suc w.tables.database_seq } =
        e2 ∙ ap (λ n. record d { id = n }) e1 in
      let there : w'.tables ≡ apply s w.tables = ap (λ x. x.tables) w2 ∙ t1 in
      rw (same, there)
        (
          record {
            id = suc w.tables.database_seq;
            config = config;
            enabled = d.enabled;
            next_run = d.next_run;
          },
          first-append _ 0 w.tables.database_seq w.tables.databases _ (omega arith) v.database_ids
              refl,
          load_row-sealed d _ sealed p,
        )

  update_row-Stored :
      (d d' : Database) (sealed : String) (w w' : World) (old : DatabaseRow)
      → decrypt c key sealed ≡ ok d.password
      → row_of d.id w.tables ≡ some old
      → update_row d (json (record d { password = sealed })) w ≡ (ok d', w')
      → Stored d' w'.tables
  unfolding update_row run apply
  update_row-Stored d d' sealed w w' old p f h =
      let config = json (record d { password = sealed }) in
      let s = update_database d.id config d.enabled d.next_run in
      let (u, w1, q, k) = >>=-eq-ok (exec s (λ _. tt)) _ w h in
      let (_, t1, _) = exec-eq-ok s _ w q in
      let (e2, w2) = pure-eq-ok _ w1 k in
      let there : w'.tables ≡ apply s w.tables = ap (λ x. x.tables) w2 ∙ t1 in
      let written : DatabaseRow → DatabaseRow =
        λ r. record r { config = config; enabled = d.enabled; next_run = d.next_run } in
      let its_id = find_row-key database_row_id d.id w.tables.databases old f in
      let hit : (old.id == d.id) ≡ true = ground arith in
      rw (e2, there)
        (
          written old,
          find_row-update_where database_row_id d.id (λ r. r.id == d.id) written w.tables.databases
                (λ x. refl) old f
              ∙ ap (λ b. some (if b then written old else old)) hit,
          load_row-sealed d old.id sealed p ∙ ap (λ n. ok (record d { id = n })) its_id,
        )

  -- The two branches of the write.
  write_database-Stored :
      (d d' : Database) (sealed : String) (w w' : World)
      → decrypt c key sealed ≡ ok d.password
      → IsSound w.tables
      → (d.id ≢ 0 → (old : DatabaseRow) × (row_of d.id w.tables ≡ some old))
      → write_database d sealed w ≡ (ok d', w')
      → Stored d' w'.tables × (d' ≡ record d { id = d'.id })
  unfolding write_database
  write_database-Stored d d' sealed w w' p v f h =
      let config = json (record d { password = sealed }) in
      elim (Bool-cases (d.id == 0)) [
        | inl e ↦
            let k : insert_row d config w ≡ (ok d', w') = rw (e, write_database) at h in
            (insert_row-Stored d d' sealed w w' p v k, insert_row-same d d' config w w' k)
        | inr e ↦
            let k : update_row d config w ≡ (ok d', w') = rw (e, write_database) at h in
            let (old, o) = f (ground arith) in
            (update_row-Stored d d' sealed w w' old p o k, update_row-same d d' config w w' k)
      ]

module _ (d : Database) (t : Tables) (d' : Database) where
  Kept-id : Kept d t d' → d'.id ≡ d.id
  Kept-id (inl (z, e)) = ap (λ x. x.id) e
  Kept-id (inr (n, row, old, f, j, inl (same, e))) = ap (λ x. x.id) e
  Kept-id (inr (n, row, old, f, j, inr (differ, e))) = ap (λ x. x.id) e

  Kept-listed : Kept d t d' → d'.id ≢ 0 → (old : DatabaseRow) × (row_of d'.id t ≡ some old)
  Kept-listed k n = listed k
    where
      listed : Kept d t d' → (old : DatabaseRow) × (row_of d'.id t ≡ some old)
      listed (inl (z, e)) = absurd (n (ap (λ x. x.id) e ∙ z))
      listed (inr (m, row, old, f, j, e)) = (row, ap (λ i. row_of i t) (Kept-id k) ∙ f)

module _ (c : Cipher) (key : Bytes) where
  -- A save that succeeds, whatever failed around it before: the record that it returns is what a
  -- reader decodes and decrypts from the row of its id; and it is the submitted record, under its
  -- id, with the planned run of the row as it stood in the transaction if the edit left the switch, the kind
  -- of schedule, the time of day, the zone, the interval and the weekday alone, and else with its own.
  pub save-Stored :
      (d d' : Database) (w w' : World)
      → IsSound w.tables
      → save c key d w ≡ (ok d', w')
      → Stored c key d' w'.tables
        × ((k : Database) × Kept d w.tables k × (d' ≡ record k { id = d'.id }))
  unfolding save
  save-Stored d d' w w' v h =
      let (u, x, tu, _, m, tx, _) = transaction-eq-ok _ w h in
      let (k, w1, e1, m1) = >>=-eq-ok (keep_next_run d) _ u m in
      let (kept, t1) = keep_next_run-Kept d k u w1 e1 in
      let (sealed, w2, e2, m2) = >>=-eq-ok (encrypt c key k.password) _ w1 m1 in
      let t2 : w2.tables ≡ w.tables =
        encrypt-tables c key k.password w1 w2 (ok sealed) e2 ∙ t1 ∙ tu in
      let kept' : Kept d w.tables k = subst (λ t. Kept d t k) tu kept in
      let (s, e) =
        write_database-Stored c key k d' sealed w2 x
          (decrypt-encrypt c key k.password w1 w2 sealed e2) (subst IsSound (sym t2) v)
          (λ n.
            subst (λ t. (old : DatabaseRow) × (row_of k.id t ≡ some old)) (sym t2)
              (Kept-listed d w.tables k kept' n))
          m2 in
      (subst (Stored c key d') (sym tx) s, (k, kept', e))
