-- ===== src/Config/Modes.antt =====
-- `UnifiedAuthEnabled` and `AuthMode` of internal/config/globalconfig.go.
use picoaide.Prelude.{not, str_eq, ◌≡◌, refl, inl, inr, Bool-cases}
use picoaide.Config.Types.{GlobalConfig, ldap_enabled, auth_mode, unified_auth_enabled}

-- Unified authentication is enabled exactly when the mode in force is not "local".
unified_auth_enabled_lem :
    {S : Type 0} (cfg : GlobalConfig S)
    → unified_auth_enabled cfg ≡ not (str_eq (auth_mode cfg) "local")
unfolding unified_auth_enabled auth_mode
unified_auth_enabled_lem cfg = elim (Bool-cases (str_eq cfg.web.auth_mode "")) [
  | inl unset ↦
      rw unset
        (elim (Bool-cases (ldap_enabled cfg)) [ inl on ↦ rw on refl | inr off ↦ rw off refl ])
  | inr given ↦ rw given (elim (Bool-cases (str_eq cfg.web.auth_mode "local")) [
    | inl on ↦ rw on refl
    | inr off ↦ rw off refl
  ])
]
