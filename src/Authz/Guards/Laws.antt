-- ===== src/Authz/Guards/Laws.antt =====
-- What passes the guards of the API key, the roles and the permissions.
use aerobi_api.Common.{
  ◌≡◌, ◌≢◌, ◌↔◌, ◌⊎◌, refl, sym, subst, true, List, [], Option, none, some, arith, ℕ, or_default,
}
use mathlib.Core.List.{Memᴰ}
use aerobi_api.Common.Text.{Text, trim, codes, same_text_iff, to_lower}
use aerobi_api.Common.Errors.{ok}
use aerobi_api.Authz.Guards.{
  ApiKeyConfig, api_key_can_activate, AuthenticatedUser, RequiredPermission,
  permissions_can_activate,
}
use aerobi_api.Authz.Permissions.{role_name, roles_for}
use aerobi_api.Authz.Permissions.Laws.{can_iff, role_name-injective}

-- The permission guard lets a request through exactly when its user is known and has a role that the
-- matrix lists at the subject and the action of the route.
permissions_can_activate_iff :
    (p : RequiredPermission) (user : Option AuthenticatedUser)
    → (permissions_can_activate (some p) user ≡ ok true)
      ↔ ((u : AuthenticatedUser) × (user ≡ some u) × Memᴰ u.role (roles_for p.subject p.action))
unfolding permissions_can_activate
permissions_can_activate_iff p none = (λ h. absurd (cc h), λ (u, e, m). absurd (cc e))
permissions_can_activate_iff p (some u) =
    let listed = can_iff (some (role_name u.role)) p.subject p.action in
    (
      λ h.
          let (r, e, m) = listed.0 (ground arith) in
          (
            u,
            refl,
            subst (λ q. Memᴰ q (roles_for p.subject p.action))
                (sym (role_name-injective u.role r (cc e))) m,
          ),
      λ (v, e, m).
          let same : v ≡ u = cc e in
          rw
            (listed.1
              (u.role, refl, subst (λ w. Memᴰ w.role (roles_for p.subject p.action)) same m))
            refl,
    )

module _ (lower : ℕ → Text) (utf8 : Text → List ℕ) where
  -- The variable `AEROBI_REQUIRE_AUTH` holds one of its three affirmative spellings.
  abbrev pub IsEnforced : ApiKeyConfig → Type 0
  IsEnforced c =
      let v = to_lower lower (trim (or_default c.aerobi_require_auth [])) in
      (v ≡ codes "true") ⊎ ((v ≡ codes "1") ⊎ (v ≡ codes "yes"))

  -- A request passes the API key guard exactly when it comes to a development server that is not
  -- told to require keys, or when a key is configured and the header, trimmed, has the bytes of the
  -- key.
  api_key_can_activate_iff :
      (c : ApiKeyConfig) (raw : Option Text)
      → (api_key_can_activate lower utf8 c raw ≡ ok true) ↔ (
          (¬ IsEnforced c × (or_default c.node_env (codes "development") ≡ codes "development"))
          ⊎ ((trim (or_default c.aerobi_api_key []) ≢ [])
              × (utf8 (trim (or_default raw [])) ≡ utf8 (trim (or_default c.aerobi_api_key [])))))
  unfolding api_key_can_activate
  api_key_can_activate_iff c raw =
      let v = to_lower lower (trim (or_default c.aerobi_require_auth [])) in
      let key = trim (or_default c.aerobi_api_key []) in
      ground (
        arith,
        same_text_iff v (codes "true"),
        same_text_iff v (codes "1"),
        same_text_iff v (codes "yes"),
        same_text_iff (or_default c.node_env (codes "development")) (codes "development"),
        same_text_iff key [],
        same_text_iff (utf8 (trim (or_default raw []))) (utf8 key),
      )
