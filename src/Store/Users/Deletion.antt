-- ===== src/Store/Users/Deletion.antt =====
-- Deleting users.
use picoaide.Prelude.{
  String, ◌≡◌, refl, Bool, not, List, [], ◌∷◌, arith, if◌then◌else◌, keep, any, str_eq, length,
  ◌==◌,
}
use picoaide.Store.Db.{Db}
use picoaide.Store.Action.{
  no_such_user, ok, err, Store, ◌>>=◌, touch, exec, exec_counting, require, pure, transaction, calm,
}
use picoaide.Store.Users.{
  is_named, is_user_grant, delete_user, without_users, without_grants, without_mounts,
  without_channels, without_cookies, without_tokens, without_groups, without_skills,
}

-- `after` has none of the rows that the test picks, and all the others of `before`, in order.
abbrev pub Gone : {R : Type 0} → (R → Bool) → List R → List R → Type 0
Gone picks before after =
    (keep picks after ≡ []) × (keep (λ r. not (picks r)) after ≡ keep (λ r. not (picks r)) before)

-- Every trace of a user in the tables.
pub record UserGone (n : String) (before after : Db) : Type 0 where
  pub users : Gone (is_named n) before.users after.users
  pub skills : Gone (λ r. str_eq r.username n) before.user_skills after.user_skills
  pub user_groups : Gone (λ r. str_eq r.username n) before.user_groups after.user_groups
  pub tokens : Gone (λ r. str_eq r.username n) before.mcp_tokens after.mcp_tokens
  pub cookies : Gone (λ r. str_eq r.username n) before.user_cookies after.user_cookies
  pub channels : Gone (λ r. str_eq r.username n) before.user_channels after.user_channels
  pub mounts :
      Gone (λ r. str_eq r.username n) before.shared_folder_mounts after.shared_folder_mounts
  pub grants : Gone (is_user_grant n) before.mcp_server_grants after.mcp_server_grants
  pub groups : after.groups ≡ before.groups

purge : String → Db → Db
purge n db = without_users (is_named n) (
    without_grants n (
      without_mounts n (
        without_channels n
          (without_cookies n (without_tokens n (without_groups n (without_skills n db)))))))

length-keep_pos :
    {A : Type 0} (p : A → Bool) (xs : List A) → (length (keep p xs) == 0) ≡ not (any p xs)
length-keep_pos p [] = refl
length-keep_pos p (x ∷ xs) = ground (arith, length-keep_pos p xs)

-- When no statement fails, `DeleteUser` succeeds exactly for a user that exists.
pub delete_user-calm :
    (n : String) (db : Db)
    → (delete_user n (calm db)).0 ≡ (if any (is_named n) db.users then ok tt else err no_such_user)
unfolding delete_user transaction ◌>>=◌ touch exec exec_counting require pure
delete_user-calm n db = ground (arith, length-keep_pos (is_named n) db.users)
