-- ===== src/Store/Cookies.antt =====
-- internal/store/cookies.go: the cookies that a user's browser left, one text for each domain.
pub mod Stored
use picoaide.Prelude.{
  ℕ, ◌+◌, String, Bool, true, false, not, ◌&&◌, Option, none, some, List, [], ◌∷◌, ◌++◌, map, keep,
  if◌then◌else◌, ◌==◌, str_eq,
}
use picoaide.Store.Db.{Db, UserCookie}
use picoaide.Store.Action.{Action, ◌>>=◌, ◌>>◌, pure, exec, exec_counting, query, touch}

-- WHERE username = ? AND domain = ?
abbrev pub is_cookie : String → String → UserCookie → Bool
is_cookie username domain r = str_eq r.username username && str_eq r.domain domain

abbrev pub find_cookie : String → String → List UserCookie → Option UserCookie
find_cookie username domain [] = none
find_cookie username domain (r ∷ rs) =
    if is_cookie username domain r then some r else find_cookie username domain rs

-- The number of rows that an UPDATE of this cookie changes.
abbrev pub count_cookies : String → String → List UserCookie → ℕ
count_cookies username domain [] = 0
count_cookies username domain (r ∷ rs) =
    if is_cookie username domain r
    then count_cookies username domain rs + 1
    else count_cookies username domain rs

abbrev pub overwrite : String → String → String → UserCookie → UserCookie
overwrite username domain cookies r =
    if is_cookie username domain r then record r { cookies = cookies } else r

-- UPDATE user_cookies SET cookies = ? WHERE username = ? AND domain = ?
abbrev pub update_cookie : String → String → String → Db → Db
update_cookie username domain cookies db = record db {
  user_cookies = map (overwrite username domain cookies) db.user_cookies;
}

abbrev pub insert_cookie : String → String → String → Db → Db
insert_cookie username domain cookies db = record db {
  user_cookies =
      db.user_cookies ++ record { username = username; domain = domain; cookies = cookies } ∷ [];
}

abbrev pub insert_unless_updated : String → String → String → ℕ → Action (Unit {0})
insert_unless_updated username domain cookies affected =
    if affected == 0 then exec (insert_cookie username domain cookies) else pure tt

unfoldable pub set_cookie : String → String → String → Action (Unit {0})
set_cookie username domain cookies = do
  touch
  affected ←
      exec_counting (λ db. count_cookies username domain db.user_cookies)
        (update_cookie username domain cookies)
  insert_unless_updated username domain cookies affected

abbrev pub cookies_or_empty : Option UserCookie → String
cookies_or_empty none = ""
cookies_or_empty (some r) = r.cookies

unfoldable pub get_cookie : String → String → Action String
get_cookie username domain = do
  touch
  query (λ db. cookies_or_empty (find_cookie username domain db.user_cookies))

abbrev pub without_cookie : String → String → Db → Db
without_cookie username domain db = record db {
  user_cookies = keep (λ r. not (is_cookie username domain r)) db.user_cookies;
}

unfoldable pub delete_cookie : String → String → Action (Unit {0})
delete_cookie username domain = do touch; exec (without_cookie username domain)
