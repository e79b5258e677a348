-- ===== src/Configuration/Documents/Valid.antt =====
-- The configuration that the gateway can load, and what the changes of
-- common/repo_mcp_common/admin.py keep of it.
use repo_mcp.Prelude.{
  ◌++◌, String, ◌≡◌, refl, sym, ap, ◌∙◌, subst, ◌≢◌, inl, inr, true, false, not, Option, none, some,
  List, [], ◌∷◌, eq_iff, Bool-cases, Option-cases, ◌==◌, ℕ_eq, String_eq, find, All, is_empty, In,
  find-none, contains, contains_iff, Pairwise,
}
use repo_mcp.Prelude.Result.{Result, ok, err, ◌>>◌, guard-ok}
use repo_mcp.Roles.{admin, lead, developer, qa, devops, viewer, Role, role_of}
use repo_mcp.Tenants.{all_profile, analysis, scout, Profile, profile_of}
use repo_mcp.Configuration.{TenantRow, Tables, put_row, map}
use repo_mcp.Configuration.Rows.{
  Distinct, All-put_row, Named, Pairwise-put_row, Named-put_row, fromkeys-Distinct, fromkeys-In,
  fromkeys_full,
}
use repo_mcp.Configuration.Admin.{
  AdminError, TenantInput, tenant_name, tenant_row, clash, upsert_tenant, valid_profiles,
  valid_roles, no_clash, bump_generation, record_entry, unknown_profile, no_groups, no_projects,
}

-- A squad that the gateway can load.
pub record Loadable (t : TenantRow) : Type 0 where
  pub profile : Profile
  pub profiled : profile_of t.tool_profile ≡ some profile
  pub grouped : is_empty t.ldap_groups ≡ false
  pub placed : is_empty t.projects ≡ false
  pub once : Distinct t.ldap_groups

abbrev pub Disjoint : TenantRow → TenantRow → Type 0
Disjoint t u = (g : String) → In g t.ldap_groups → ¬ In g u.ldap_groups

pub Disjoint-swap : (t u : TenantRow) → Disjoint t u → Disjoint u t
Disjoint-swap t u h g m n = h g n m

abbrev pub IsRole : String × String → Type 0
IsRole r = (role : Role) × (role_of r.0 ≡ some role)

-- Every squad can be loaded, no two have a name or a group in common, and every role is known.
pub record Valid (db : Tables) : Type 0 where
  pub loadable : All Loadable db.tenants
  pub named : Named tenant_name db.tenants
  pub apart : Pairwise Disjoint db.tenants
  pub roles : All IsRole db.roles

profile_of-known : (p : String) → In p valid_profiles → (q : Profile) × (profile_of p ≡ some q)
profile_of-known p (inl e) = (all_profile, rw e refl)
profile_of-known p (inr (inl e)) = (analysis, rw e refl)
profile_of-known p (inr (inr (inl e))) = (scout, rw e refl)
profile_of-known p (inr (inr (inr x))) = absurd x

pub role_of-known : (r : String) → In r valid_roles → (q : Role) × (role_of r ≡ some q)
unfolding role_of
role_of-known r (inl e) = (admin, rw e refl)
role_of-known r (inr (inl e)) = (lead, rw e refl)
role_of-known r (inr (inr (inl e))) = (developer, rw e refl)
role_of-known r (inr (inr (inr (inl e)))) = (qa, rw e refl)
role_of-known r (inr (inr (inr (inr (inl e))))) = (devops, rw e refl)
role_of-known r (inr (inr (inr (inr (inr (inl e)))))) = (viewer, rw e refl)
role_of-known r (inr (inr (inr (inr (inr (inr x)))))) = absurd x

clash-none :
    (name : String) (groups : List String) (ts : List TenantRow)
    → clash name groups ts ≡ none
    → (t : TenantRow) → In t ts
    → t.name ≢ name
    → (g : String) → In g t.ldap_groups
    → ¬ In g groups
unfolding clash
clash-none name groups [] h t m other g n k = m
clash-none name groups (u ∷ us) h t m other g n k = elim (Bool-cases (u.name == name)) [
  | inl same ↦ elim m [
    | inl e ↦ other (ap (λ (x : TenantRow). x.name) e ∙ (eq_iff u.name name).0 same)
    | inr later ↦ clash-none name groups us (rw same at h) t later other g n k
  ]
  | inr differs ↦ elim (Option-cases (find (contains groups) u.ldap_groups)) [
    | inr (c, found) ↦ cc (rw (differs, found) at h)
    | inl free ↦ elim m [
      | inl e ↦
          let here = subst (λ (x : TenantRow). In g x.ldap_groups) e n in
          cc (find-none (contains groups) u.ldap_groups g free here, (contains_iff groups g).1 k)
      | inr later ↦ clash-none name groups us (rw (differs, free) at h) t later other g n k
    ]
  ]
]

no_clash-ok :
    {B : Type 0} (o : Option String) (k : Result AdminError B) {r : B}
    → (no_clash o >> k) ≡ ok r
    → (o ≡ none) × (k ≡ ok r)
no_clash-ok none k h = (refl, h)
no_clash-ok (some g) k h = cc

full : {A : Type 0} (xs : List A) → not (is_empty xs) ≡ true → is_empty xs ≡ false
full [] h = cc
full (x ∷ xs) h = refl

tenant_row-Loadable :
    (input : TenantInput)
    → contains valid_profiles input.tool_profile ≡ true
    → not (is_empty input.ldap_groups) ≡ true
    → not (is_empty input.projects) ≡ true
    → Loadable (tenant_row input)
unfolding tenant_row
tenant_row-Loadable input known groups projects =
    let (p, e) = profile_of-known input.tool_profile ((contains_iff _ _).0 known) in
    record {
      profile = p;
      profiled = e;
      grouped = fromkeys_full input.ldap_groups (full input.ldap_groups groups);
      placed = fromkeys_full input.projects (full input.projects projects);
      once = fromkeys-Distinct input.ldap_groups;
    }

abbrev saved_tenants : Result AdminError Tables → List TenantRow
saved_tenants (ok db) = db.tenants
saved_tenants (err e) = []

abbrev saved_roles : Result AdminError Tables → List (String × String)
saved_roles (ok db) = db.roles
saved_roles (err e) = []

-- What `upsert_tenant` leaves when its four tests hold.
pub record Saved (input : TenantInput) (db db' : Tables) : Type 0 where
  pub known : contains valid_profiles input.tool_profile ≡ true
  pub some_groups : not (is_empty input.ldap_groups) ≡ true
  pub some_projects : not (is_empty input.projects) ≡ true
  pub free : clash input.name input.ldap_groups db.tenants ≡ none
  pub tenants : db'.tenants ≡ put_row tenant_name (tenant_row input) db.tenants
  pub others : db'.roles ≡ db.roles

upsert_tenant-Saved :
    (input : TenantInput) (actor : String) (db db' : Tables)
    → upsert_tenant input actor db ≡ ok db'
    → Saved input db db'
unfolding upsert_tenant bump_generation record_entry
upsert_tenant-Saved input actor db db' h =
    let (known, h1) =
      guard-ok (contains valid_profiles input.tool_profile) (unknown_profile input.tool_profile) _
        h in
    let (some_groups, h2) = guard-ok (not (is_empty input.ldap_groups)) no_groups _ h1 in
    let (some_projects, h3) = guard-ok (not (is_empty input.projects)) no_projects _ h2 in
    let (free, h4) = no_clash-ok (clash input.name input.ldap_groups db.tenants) _ h3 in
    record {
      known = known;
      some_groups = some_groups;
      some_projects = some_projects;
      free = free;
      tenants = sym (ap (λ (r : Result AdminError Tables). saved_tenants r) h4);
      others = sym (ap (λ (r : Result AdminError Tables). saved_roles r) h4);
    }

pub All-append :
    {A : Type 0} (P : A → Type 0) (xs ys : List A) → All P xs → All P ys → All P (xs ++ ys)
All-append P [] ys h k = k
All-append P (x ∷ xs) ys h k = (h.0, All-append P xs ys h.1 k)

pub All-pairs :
    (role : String)
    → (r : Role) × (role_of role ≡ some r)
    → (groups : List String) → All IsRole (map (λ g. (role, g)) groups)
All-pairs role r [] = tt
All-pairs role r (g ∷ gs) = (r, All-pairs role r gs)

-- Saving a squad keeps the configuration one that can be loaded.
pub upsert_tenant-Valid :
    (input : TenantInput) (actor : String) (db db' : Tables)
    → Valid db
    → upsert_tenant input actor db ≡ ok db'
    → Valid db'
unfolding tenant_row
upsert_tenant-Valid input actor db db' v h =
    let s = upsert_tenant-Saved input actor db db' h in
    let fresh : Loadable (tenant_row input) =
      tenant_row-Loadable input s.known s.some_groups s.some_projects in
    record {
      loadable =
          rw s.tenants
            (All-put_row tenant_name Loadable (tenant_row input) db.tenants fresh v.loadable);
      named = rw s.tenants (Named-put_row tenant_name (tenant_row input) db.tenants v.named);
      apart = rw s.tenants (
          Pairwise-put_row tenant_name Disjoint Disjoint-swap (tenant_row input) db.tenants
            (λ t m other g k n.
              clash-none input.name input.ldap_groups db.tenants s.free t m other g n
                (fromkeys-In input.ldap_groups g k))
            v.named v.apart);
      roles = rw s.others v.roles;
    }
