-- ===== src/Worker/Stamp.antt =====
-- `time.Unix(t, 0).UTC().Format("20060102T150405Z")`, for times from 1970 to 9999.
use base_guard.Base.{
  ℕ, ◌+◌, ◌-◌, ◌*◌, ◌/◌, ◌%◌, ◌≡◌, refl, String, ltb, ◌⊕◌, pad2, pad4, if◌then◌else◌,
}

-- Year, month and day of a day counted from 1 January 1970, in years that begin in March.
unfoldable pub civil : ℕ → ℕ × ℕ × ℕ
civil days =
    let z : ℕ = days + 719468 in
    let era = z / 146097 in
    let doe = z % 146097 in
    let yoe = (doe + doe / 36524 - doe / 1460 - doe / 146096) / 365 in
    let doy = doe - (365 * yoe + yoe / 4 - yoe / 100) in
    let mp = (5 * doy + 2) / 153 in
    let day = doy + 1 - (153 * mp + 2) / 5 in
    let month = if ltb mp 10 then mp + 3 else mp - 9 in
    (yoe + era * 400 + (if ltb month 3 then 1 else 0), month, day)

unfoldable pub stamp : ℕ → String
unfolding civil
stamp t =
    let (y, m, d) = civil (t / 86400) in
    pad4 y ⊕ pad2 m ⊕ pad2 d ⊕ "T" ⊕ pad2 (t / 3600 % 24) ⊕ pad2 (t / 60 % 60) ⊕ pad2 (t % 60) ⊕ "Z"

stamp_test : stamp 1709210096 ≡ "20240229T123456Z"
unfolding stamp pad2 pad4
stamp_test = refl
