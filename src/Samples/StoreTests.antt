-- ===== src/Samples/StoreTests.antt =====
-- The theorems on records, credentials and the store, on the sample world.
use base_guard.Base.{ℕ, ◌≡◌, ◌≢◌, ◌↔◌, refl, String, Bool, true, some, Result, ok, codes}
use base_guard.Model.{Database, Run, default_database, queued, running, validate}
use base_guard.Model.Validation.{IsValid, validate_iff}
use base_guard.Security.{encrypt, decrypt}
use base_guard.Security.RoundTrip.{decrypt-encrypt}
use base_guard.Store.Tables.{apply, conflicts, queued_run}
use base_guard.Store.Methods.{
  save, keep_next_run, write_database, update_row, enqueue, claim_run, scan_run,
}
use base_guard.Store.Saving.{Kept, Stored, save-Stored}
use base_guard.Store.Queue.{run_of, Oldest, claim_run-Oldest}
use base_guard.Exec.{
  World, pure, raise, lift, gets, ◌>>=◌, attempt, query, exec, run, transaction, time_now,
  rand_read,
}
use base_guard.Samples.Toy.{toy}
use base_guard.Samples.Worlds.{
  key, worker, hourly, shop, stored_shop, world, idle_world, tables-IsSound, idle_tables-IsSound,
}

validate_iff_example :
    (validate hourly worker.destinations shop ≡ ok tt) ↔ IsValid hourly worker.destinations shop
validate_iff_example = validate_iff hourly worker.destinations shop

abbrev box : Result String × World
box = encrypt toy key "pw" world

abbrev text_or : Result String → String
text_or (ok s) = s
text_or _ = ""

boxed : box ≡ (ok (text_or box.0), box.1)
unfolding encrypt pure raise lift gets ◌>>=◌ attempt rand_read toy
boxed = refl

decrypt-encrypt_example : decrypt toy key (text_or box.0) ≡ ok "pw"
decrypt-encrypt_example = decrypt-encrypt toy key "pw" world box.1 (text_or box.0) boxed

abbrev record_or : Result Database → Database
record_or (ok d) = d
record_or _ = shop

-- A form for the stored database, with another host and the planned time of an earlier page.
abbrev edited : Database
edited = record stored_shop { host = "db2"; next_run = 40 }

abbrev saved : Result Database × World
saved = save toy key edited idle_world

saved_ok : saved ≡ (ok (record_or saved.0), saved.1)
unfolding save keep_next_run write_database update_row encrypt pure raise lift gets ◌>>=◌ attempt
    rand_read query exec run transaction apply conflicts toy default_database base_guard.Base.eq_ℤ
saved_ok = refl

save-Stored_example :
    Stored toy key (record_or saved.0) saved.1.tables
    × ((k : Database) × Kept edited idle_world.tables k
        × (record_or saved.0 ≡ record k { id = (record_or saved.0).id }))
save-Stored_example =
    save-Stored toy key edited (record_or saved.0) idle_world saved.1 idle_tables-IsSound saved_ok

abbrev added : Result Bool × World
added = enqueue stored_shop "manual" 60 idle_world

added_ok : added ≡ (ok true, added.1)
unfolding enqueue exec attempt apply conflicts
added_ok = refl

abbrev claim_result : Result Run × World
claim_result = claim_run world

abbrev claimed_run : Run
claimed_run = record (queued_run 1 stored_shop "manual" 50) { status = running; started = 200 }

claimed_ok : claim_result ≡ (ok claimed_run, claim_result.1)
unfolding claim_run scan_run pure raise lift gets ◌>>=◌ attempt exec apply conflicts time_now
claimed_ok = refl

claim_run-Oldest_example :
    ((q : Run) × (now : ℕ) × (run_of claimed_run.id world.tables ≡ some q)
      × (q.status ≡ queued)
      × (claimed_run ≡ record q { status = running; started = now }))
    × Oldest claimed_run.id world.tables
    × (run_of claimed_run.id claim_result.1.tables ≡ some claimed_run)
    × ((i : ℕ) → i ≢ claimed_run.id → run_of i claim_result.1.tables ≡ run_of i world.tables)
claim_run-Oldest_example =
    claim_run-Oldest world claim_result.1 claimed_run tables-IsSound claimed_ok
