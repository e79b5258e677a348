-- ===== src/Roles/Tests.antt =====
-- A user with two groups, on which the results about roles are run.
use repo_mcp.Prelude.{
  ◌≤◌, String, ◌≡◌, refl, inl, true, false, List, [], ◌∷◌, ℕ_eq, String_eq, any, keep, contains,
  meets,
}
use repo_mcp.Roles.{
  RoleAssignment, developer, devops, rank, resolve_role, matched_roles, read_source,
  capabilities_for, Capability_eq,
}
use repo_mcp.Roles.Precedence.{Grants, resolve_role-Grants, resolve_role-greatest}

abbrev assignments : List RoleAssignment
assignments =
    record { role = developer; ldap_groups = "cn=dev" ∷ [] }
    ∷ record { role = devops; ldap_groups = "cn=ops" ∷ [] }
    ∷ []

abbrev groups : List String
groups = "cn=dev" ∷ "cn=ops" ∷ []

developer-Grants : Grants assignments groups developer
developer-Grants = record {
  assignment = record { role = developer; ldap_groups = "cn=dev" ∷ [] };
  listed = inl refl;
  same = refl;
  group = "cn=dev";
  named = inl refl;
  held = inl refl;
}

resolve_role-greatest_example : rank (resolve_role assignments groups) ≤ rank developer
resolve_role-greatest_example = resolve_role-greatest assignments groups developer developer-Grants

resolve_role-Grants_example : Grants assignments groups (resolve_role assignments groups)
unfolding resolve_role matched_roles keep meets contains any
resolve_role-Grants_example = resolve_role-Grants assignments groups (λ e. cc)

-- A developer who joins the operators loses `read_source`.
devops_test :
    (resolve_role assignments groups ≡ devops)
    × (contains (capabilities_for devops) read_source ≡ false)
    × (contains (capabilities_for developer) read_source ≡ true)
unfolding resolve_role matched_roles keep meets contains any capabilities_for
devops_test = (refl, refl, refl)
