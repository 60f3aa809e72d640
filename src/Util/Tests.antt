-- ===== src/Util/Tests.antt =====
-- The properties of internal/util at concrete inputs.
use picoaide.Prelude.{ℕ, String, ◌≡◌, refl, some, split_dots}
use picoaide.Util.Tree.{leaf, node, Entries, empty, entry, deep_get, set_by_path}
use picoaide.Util.Tree.Paths.{Diverges, set_by_path-deep_get}

abbrev config : Entries ℕ
config =
    entry "web" (node (entry "port" (leaf 80) (entry "tls" (leaf 0) empty)))
      (entry "debug" (leaf 1) empty)

read_back : deep_get (set_by_path config "web.port" (leaf 443)) "web.tls" ≡ some (leaf 0)
unfolding deep_get set_by_path
read_back = refl

set_by_path-deep_get_example :
    (deep_get (set_by_path config "web.log.level" (leaf 3)) "web.log.level" ≡ some (leaf 3))
    × ((other : String)
        → Diverges (split_dots "web.log.level") (split_dots other)
        → deep_get (set_by_path config "web.log.level" (leaf 3)) other ≡ deep_get config other)
set_by_path-deep_get_example = set_by_path-deep_get config "web.log.level" (leaf 3) refl

abbrev overrides : Entries ℕ
overrides = entry "web" (node (entry "port" (leaf 443) empty)) empty
