-- ===== src/Store/Ips.antt =====
-- internal/store/ip_allocation.go: the address that a user's sandbox gets.
pub mod Allocated
use picoaide.Prelude.{
  ℕ, ◌+◌, ◌*◌, ◌/◌, ◌%◌, String, Bool, true, false, not, Option, none, some, List, [], ◌∷◌, map,
  if◌then◌else◌, ltb, leb, str_eq, decimal, ◌+++◌, scan_text, scan_number,
}
use picoaide.Store.Db.{Db, LocalUser}
use picoaide.Store.Action.{
  ip_pool_exhausted, Result, ok, err, Store, Action, ◌>>=◌, ◌>>◌, pure, raise, query, exec, touch,
}
use picoaide.Store.Users.{find_user, is_named}

-- SELECT ip FROM local_users WHERE username = ?
abbrev pub ip_of : Option LocalUser → String
ip_of none = ""
ip_of (some u) = u.ip

-- SELECT ip FROM local_users WHERE ip != '' ORDER BY id DESC LIMIT 1
abbrev pub last_ip : List LocalUser → Option String
last_ip [] = none
last_ip (u ∷ us) = elim (last_ip us) [
  | some ip ↦ some ip
  | none ↦ if str_eq u.ip "" then none else some u.ip
]

abbrev second_number : ℕ → Option (ℕ × String) → Option ℕ
second_number a none = none
second_number a (some (b, rest)) = some (a * 256 + b)

abbrev after_dot : ℕ → Option String → Option ℕ
after_dot a none = none
after_dot a (some s) = second_number a (scan_number s)

abbrev first_number : Option (ℕ × String) → Option ℕ
first_number none = none
first_number (some (a, rest)) = after_dot a (scan_text "." rest)

abbrev after_prefix : Option String → Option ℕ
after_prefix none = none
after_prefix (some s) = first_number (scan_number s)

-- `fmt.Sscanf(ip, "100.64.%d.%d", &a, &b)` on the addresses that stand in the table, whose numbers
-- have no sign; `none` where not both numbers are there.
unfoldable pub scan_ip : String → Option ℕ
scan_ip ip = after_prefix (scan_text "100.64." ip)

abbrev pub or_one : Option ℕ → ℕ
or_one none = 1
or_one (some n) = n

abbrev pub scanned : Option String → Option ℕ
scanned none = none
scanned (some ip) = scan_ip ip

abbrev pub at_least_one : ℕ → ℕ
at_least_one n = if ltb n 1 then 1 else n

abbrev pub offset_of : Option String → ℕ
offset_of last = at_least_one (or_one (scanned last))

unfoldable pub address : ℕ → String
address n = "100.64." +++ decimal (n / 256) +++ "." +++ decimal (n % 256)

-- UPDATE local_users SET ip = ? WHERE username = ?
abbrev pub set_ip : String → String → Db → Db
set_ip username ip db = record db {
  users = map (λ u. if is_named username u then record u { ip = ip } else u) db.users;
}

abbrev pub allocate_from : String → ℕ → Action String
allocate_from username offset =
    if leb 65533 offset
    then raise ip_pool_exhausted
    else do exec (set_ip username (address (offset + 1))); pure (address (offset + 1))

abbrev pub allocate_unless : String → String → Action String
allocate_unless username ip =
    if str_eq ip ""
    then (do last ← query (λ db. last_ip db.users); allocate_from username (offset_of last))
    else pure ip

unfoldable pub allocate_ip : String → Action String
allocate_ip username = do
  touch
  ip ← query (λ db. ip_of (find_user username db.users))
  allocate_unless username ip

unfoldable pub release_ip : String → Action (Unit {0})
release_ip username = do touch; exec (set_ip username "")
