-- ===== src/Store/Ips/Allocated.antt =====
-- What `AllocateIP` and `ReleaseIP` of internal/store/ip_allocation.go do to the table.
use picoaide.Prelude.{ℕ, ◌≤◌, ◌≡◌, ◌⊎◌, String, false, str_eq}
use picoaide.Store.Db.{Db}
use picoaide.Store.Action.{Store, Action, ◌>>◌}
use picoaide.Store.Users.{find_user}
use picoaide.Store.Ips.{ip_of, address, set_ip}

-- The user keeps the address that it has, or gets the one after the last row's.
abbrev pub Allocated : String → Db → String → Db → Type 0
Allocated username db ip db' =
    ((ip_of (find_user username db.users) ≡ ip) × (str_eq ip "" ≡ false) × (db' ≡ db))
    ⊎ ((n : ℕ) × (2 ≤ n) × (n ≤ 65533) × (ip ≡ address n) × (db' ≡ set_ip username ip db))
