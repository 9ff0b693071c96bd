-- ===== src/Worker/Claiming.antt =====
-- `ClaimRun` and the lives of the runs: the run that it answers is the running one.
use base_guard.Base.{ℕ, ◌≡◌, refl, sym, subst, List, Option, none, some, first, All, ok}
use base_guard.Model.{Run}
use base_guard.Store.Tables.{Tables, apply, is_queued, is_running, claim}
use base_guard.Store.Methods.{claim_run, claimed, or_no_rows, scan_run}
use base_guard.Store.Queue.{scan_run-same}
use base_guard.Store.Lifecycle.{Each}
use base_guard.Store.Lifecycle.Rows.{Lives, is_spent}
use base_guard.Store.Lifecycle.Statements.{Lives-law, claim-Each}
use base_guard.Exec.{lift, exec, time_now}
use base_guard.Exec.Keeps.{Keeps-time_now}
use base_guard.Exec.Leads.{Leads, Leads-exec, Leads-lift, Leads-keep, Leads-bind}

module _ (old : List Run) where
  -- The run is the running one.
  abbrev pub Held : Run → Tables → Type 0
  Held r t = Lives old t × Each is_running r.id t.runs

  -- The rows succeeded, and have expired since at most.
  abbrev pub Spent : List Run → Tables → Type 0
  Spent rows t = Lives old t × All (λ q. Each is_spent q.id t.runs) rows

  claimed-running :
      (now : ℕ) (t : Tables) (o : Option Run) (r : Run)
      → first (λ q. is_queued q.status) t.runs ≡ o
      → claimed now o ≡ some r
      → Each is_running r.id (apply (claim now) t).runs
  claimed-running now t none r e h = cc h
  claimed-running now t (some q) r e h =
      subst (λ (x : Run). Each is_running x.id (apply (claim now) t).runs) (some_of h)
        (claim-Each now t q e)
    where
      some_of : {x y : Run} → some x ≡ some y → x ≡ y
      some_of k = cc k

  no_rows-some : (o : Option Run) (r : Run) → or_no_rows o ≡ ok r → o ≡ some r
  no_rows-some none r h = cc h
  no_rows-some (some q) r h = cc h

  pub claim_run-Held : Leads (Lives old) Held (Lives old) claim_run
  unfolding claim_run
  claim_run-Held =
      Leads-bind time_now _ (Leads-keep time_now Keeps-time_now (λ t h. h) (λ now t h. h)) λ now.
        Leads-bind
          {Q = λ found t. Lives old t × ((r : Run) → found ≡ some r → Each is_running r.id t.runs)}
          (exec (claim now) _) _
          (Leads-exec (claim now) _ (λ t h. h)
            λ t h.
              ((Lives-law old).at (claim now) t refl h, λ r e. claimed-running now t _ r refl e))
          λ found.
            Leads-bind {Q = Held} (lift (or_no_rows found)) _
              (Leads-lift (or_no_rows found) (λ t h. h.0)
                λ r t e h. (h.0, h.1 r (no_rows-some found r e)))
              λ row.
                Leads-lift (scan_run row) (λ t h. h.0)
                  λ r t e h. (
                    h.0,
                    subst (λ (x : Run). Each is_running x.id t.runs) (sym (scan_run-same row r e))
                        h.1,
                  )
