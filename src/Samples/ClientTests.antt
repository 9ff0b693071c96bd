-- ===== src/Samples/ClientTests.antt =====
-- The theorems on client tools and server versions, on versions that servers report.
use base_guard.Base.{◌≡◌, ◌↔◌, refl, true, false, ok, err, ◌⊕◌}
use base_guard.Clients.Versions.{
  digits, names_maria, version_text, server_series, mismatch, server_series-plain,
  server_series-prefixed,
}
use base_guard.Clients.Matrix.{ClientProfile, profile_for}
use base_guard.Clients.Offered.{Offered, profile_for_iff}

abbrev oldest_mysql : ClientProfile
oldest_mysql = record {
  engine = "mysql";
  series = "5.7";
  client_series = "8.0";
  sql = "mysql";
  dump = "mysqldump";
  restore = "mysql";
  legacy = true;
}

profile_for_iff_example :
    (profile_for "mysql" "5.7" ≡ ok oldest_mysql) ↔ Offered "mysql" "5.7" oldest_mysql
profile_for_iff_example = profile_for_iff "mysql" "5.7" oldest_mysql

plain : names_maria (version_text "16" "4" " (Debian)" ⊕ " " ⊕ "") ≡ false
unfolding names_maria
plain = refl

maria : names_maria (("5.5.5-" ⊕ version_text "16" "4" " (Debian)") ⊕ " " ⊕ "MariaDB Server") ≡ true
unfolding names_maria
maria = refl

sixteen : digits "16" ≡ ("16", "")
unfolding digits
sixteen = refl

four : digits "4" ≡ ("4", "")
unfolding digits
four = refl

debian : digits " (Debian)" ≡ ("", " (Debian)")
unfolding digits
debian = refl

server_series-plain_example :
    (server_series "postgres" (version_text "16" "4" " (Debian)") "" ≡ ok "16")
    × (server_series "mysql" (version_text "16" "4" " (Debian)") "" ≡ ok ("16" ⊕ "." ⊕ "4"))
    × (server_series "mariadb" (version_text "16" "4" " (Debian)") "" ≡ err (mismatch "mariadb"))
server_series-plain_example =
    server_series-plain "" "16" "4" " (Debian)" (sixteen, refl) (four, refl) debian plain

server_series-prefixed_example :
    (server_series "mariadb" ("5.5.5-" ⊕ version_text "16" "4" " (Debian)") "MariaDB Server"
      ≡ ok ("16" ⊕ "." ⊕ "4"))
    × (server_series "mysql" ("5.5.5-" ⊕ version_text "16" "4" " (Debian)") "MariaDB Server"
        ≡ err (mismatch "mysql"))
server_series-prefixed_example =
    server_series-prefixed "MariaDB Server" "16" "4" " (Debian)" (sixteen, refl) (four, refl) debian
      maria
