-- ===== src/Store/Users/Reset.antt =====
-- `DeleteAllRegularUsers`, `EnsureExternalUser` and the local superadmins.
use picoaide.Prelude.{
  ℕ, String, ◌≡◌, Bool, false, not, ◌&&◌, List, [], ◌∷◌, map, keep, any, str_eq, length,
}
use picoaide.Store.Db.{Db, LocalUser}
use picoaide.Store.Action.{Store}
use picoaide.Store.Users.{is_named, is_super}

abbrev pub listed : List String → String → Bool
listed ns n = any (λ m. str_eq n m) ns

-- The tables lost the rows of the names that `p` picks, and nothing else.
pub record RowsWithout (p : String → Bool) (before after : Db) : Type 0 where
  pub user_groups : after.user_groups ≡ keep (λ r. not (p r.username)) before.user_groups
  pub skills : after.user_skills ≡ keep (λ r. not (p r.username)) before.user_skills
  pub channels : after.user_channels ≡ keep (λ r. not (p r.username)) before.user_channels
  pub cookies : after.user_cookies ≡ keep (λ r. not (p r.username)) before.user_cookies
  pub tokens : after.mcp_tokens ≡ keep (λ r. not (p r.username)) before.mcp_tokens
  pub mounts :
      after.shared_folder_mounts ≡ keep (λ r. not (p r.username)) before.shared_folder_mounts
  pub grants :
      after.mcp_server_grants
      ≡ keep (λ r. not (str_eq r.grant_type "user" && p r.grant_value)) before.mcp_server_grants
  pub groups : after.groups ≡ before.groups

abbrev pub names_of : List LocalUser → List String
names_of us = map (λ u. u.username) us

-- What `DeleteAllRegularUsers` reports and leaves, on success.
abbrev pub AllRegularGone : Db → List String × ℕ → Db → Type 0
AllRegularGone before (names, count) after =
    (names ≡ names_of (keep (λ u. not (is_super u)) before.users))
    × (count ≡ length names)
    × (keep (λ u. not (is_super u)) after.users ≡ [])
    × (keep is_super after.users ≡ keep is_super before.users)
    × RowsWithout (listed names) before after

-- The UNIQUE constraint on `username`.
abbrev pub UniqueNames : List LocalUser → Type 0
UniqueNames [] = Unit
UniqueNames (u ∷ us) = (any (is_named u.username) us ≡ false) × UniqueNames us
