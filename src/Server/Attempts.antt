-- ===== src/Server/Attempts.antt =====
-- The throttle of `login`: how many attempts each address made, and since when. Times are in
-- nanoseconds; the map is a list of its entries.
use base_guard.Base.{
  ℕ, suc, ◌-◌, String, Bool, not, ◌||◌, List, [], ◌∷◌, ◌++◌, Option, none, some, any, first, select,
  update_where, length, ltb, ◌==◌, str_eq, if◌then◌else◌,
}

pub record Attempt : Type 0 where
  pub count : ℕ
  pub since : ℕ

-- `15*time.Minute`
abbrev pub window : ℕ
window = 900_000_000_000

abbrev pub Attempts : Type 0
Attempts = List (String × Attempt)

abbrev pub of_ip : String → String × Attempt → Bool
of_ip ip e = str_eq e.0 ip

-- The entries that are older than the window are deleted.
abbrev pub purge : ℕ → Attempts → Attempts
purge now m = select (λ e. not (ltb window (now - e.1.since))) m

abbrev pub attempt_or_zero : Option (String × Attempt) → Attempt
attempt_or_zero none = record { count = 0; since = 0 }
attempt_or_zero (some e) = e.1

abbrev pub put : String → Attempt → Attempts → Attempts
put ip a m =
    if any (of_ip ip) m then update_where (of_ip ip) (λ e. (e.0, a)) m else m ++ (ip, a) ∷ []

abbrev pub counted : ℕ → Attempt → Attempt
counted now a = record { count = suc a.count; since = if a.count == 0 then now else a.since }

-- The part of `login` under the lock: the map afterwards, and whether the attempt is blocked.
unfoldable pub attempted : ℕ → String → Attempts → Attempts × Bool
attempted now ip m =
    let kept = purge now m in
    let a = counted now (attempt_or_zero (first (of_ip ip) kept)) in
    let m' = put ip a kept in (m', ltb 10 a.count || ltb 1000 (length m'))

-- How many requests of an address, among requests that arrive in this order, get to try a password.
unfoldable pub tries : String → List (ℕ × String) → Attempts → ℕ
unfolding attempted
tries ip [] m = 0
tries ip ((now, from) ∷ rs) m =
    let (m', blocked) = attempted now from m in
    let rest = tries ip rs m' in
    if str_eq from ip then (if blocked then rest else suc rest) else rest
