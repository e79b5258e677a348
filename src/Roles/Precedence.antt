-- ===== src/Roles/Precedence.antt =====
-- `resolve_role`: the most privileged role that the user's groups grant.
use repo_mcp.Prelude.{
  ◌≤◌, String, ◌≡◌, refl, sym, subst, ◌≢◌, inl, inr, true, List, [], ◌∷◌, arith, Bool-cases, ℕ_eq,
  String_eq, keep, In-map-elim, In-map-intro, In, In-keep, contains, meets, contains_iff, meets_iff,
}
use repo_mcp.Roles.{
  Role, admin, lead, viewer, rank, RoleAssignment, role_precedence, first_matched, matched_roles,
  resolve_role, Role_eq,
}

-- The groups grant the role: some assignment of it names one of them.
pub record Grants (assignments : List RoleAssignment) (groups : List String) (role : Role)
    : Type 0 where
  pub assignment : RoleAssignment
  pub listed : In assignment assignments
  pub same : assignment.role ≡ role
  pub group : String
  pub named : In group assignment.ldap_groups
  pub held : In group groups

first_matched-In :
    (roles matched : List Role)
    → first_matched roles matched ≢ viewer
    → In (first_matched roles matched) matched
unfolding first_matched
first_matched-In [] matched h = absurd (h refl)
first_matched-In (r ∷ rs) matched h = elim (Bool-cases (contains matched r)) [
  | inl e ↦ rw e ((contains_iff matched r).0 e)
  | inr e ↦ rw e (first_matched-In rs matched (rw e at h))
]

first_matched-le :
    (matched : List Role) (r : Role)
    → contains matched r ≡ true
    → rank (first_matched role_precedence matched) ≤ rank r
unfolding first_matched
first_matched-le matched admin h = ground arith
first_matched-le matched lead h = ground arith
first_matched-le matched r h = ground arith

module _ (assignments : List RoleAssignment) (groups : List String) where
  matched_roles_sound :
      (r : Role) → In r (matched_roles assignments groups) → Grants assignments groups r
  unfolding matched_roles
  matched_roles_sound r m =
      let (a, kept, e) =
        In-map-elim (λ (b : RoleAssignment). b.role) r
          (keep (λ (b : RoleAssignment). meets b.ldap_groups groups) assignments) m in
      let (listed, q) =
        (In-keep (λ (b : RoleAssignment). meets b.ldap_groups groups) a assignments).0 kept in
      let (g, named, held) = (meets_iff a.ldap_groups groups).0 q in
      record {
        assignment = a;
        listed = listed;
        same = sym e;
        group = g;
        named = named;
        held = held;
      }

  matched_roles-complete :
      (r : Role) → Grants assignments groups r → In r (matched_roles assignments groups)
  unfolding matched_roles
  matched_roles-complete r g =
      let holds = λ (b : RoleAssignment). meets b.ldap_groups groups in
      let met = (meets_iff g.assignment.ldap_groups groups).1 (g.group, g.named, g.held) in
      let kept = (In-keep holds g.assignment assignments).1 (g.listed, met) in
      subst (λ x. In x (matched_roles assignments groups)) g.same
        (In-map-intro (λ (b : RoleAssignment). b.role) g.assignment (keep holds assignments) kept)

  -- A resolved role other than viewer is granted by an assignment one of whose groups the user has.
  pub resolve_role-Grants :
      resolve_role assignments groups ≢ viewer
      → Grants assignments groups (resolve_role assignments groups)
  unfolding resolve_role
  resolve_role-Grants h =
      matched_roles_sound _ (first_matched-In role_precedence (matched_roles assignments groups) h)

  -- No role that the user's groups grant comes before the resolved one in the order of precedence.
  pub resolve_role-greatest :
      (r : Role) → Grants assignments groups r → rank (resolve_role assignments groups) ≤ rank r
  unfolding resolve_role
  resolve_role-greatest r g =
      first_matched-le (matched_roles assignments groups) r
        ((contains_iff (matched_roles assignments groups) r).1 (matched_roles-complete r g))
