-- ===== src/Mcp/Session.antt =====
-- The session of a request: `Principal` of gateway/app/auth.py, `Session`, `select_tenant` and
-- `build_session` of gateway/app/mcp.py.
use repo_mcp.Prelude.{
  String, ◌≡◌, subst, ◌⊎◌, inl, inr, Bool, false, Option, none, some, List, [], ◌∷◌, map, arith,
  eq_iff, if◌then◌else◌, Option-cases, ◌==◌, ℕ_eq, String_eq, keep, find, In, In-keep, find-some,
  contains, meets, meets_iff, lookup,
}
use repo_mcp.Prelude.Result.{Result-cases, Result, ok, err, ◌>>=◌}
use repo_mcp.Roles.{Capability, Capability_eq, Role, capabilities_for, tool_capability}
use repo_mcp.Tenants.{Tenant, allowed_tools, TenantRegistry, for_groups, role_for}

pub record Principal : Type 0 where
  pub subject : String
  pub username : String
  pub groups : List String

pub record Session : Type 0 where
  pub principal : Principal
  pub tenant : Tenant
  pub role : Role

unfoldable pub capabilities : Session → List Capability
capabilities s = capabilities_for s.role

-- `TOOL_CAPABILITY.get(tool) in caps`
unfoldable pub within : Option Capability → List Capability → Bool
within none caps = false
within (some c) caps = contains caps c

unfoldable pub effective_tools : Session → List String
unfolding within
effective_tools s =
    let caps = capabilities s in
    keep (λ tool. within (lookup tool tool_capability) caps) (allowed_tools s.tenant)

pub data TenantSelectionError : Type 0 where
  no_squad : TenantSelectionError
  no_access : String → List String → TenantSelectionError
  several_squads : List String → TenantSelectionError

abbrev pub names : List Tenant → List String
names = map (λ (t : Tenant). t.name)

-- `if requested:` takes the empty header for none.
abbrev pub chosen : Option String → Option String
chosen none = none
chosen (some s) = if s == "" then none else some s

unfoldable pub select_among : List Tenant → Option String → Result TenantSelectionError Tenant
select_among [] requested = err no_squad
select_among (t ∷ ts) (some name) = elim (find (λ (u : Tenant). u.name == name) (t ∷ ts)) [
  | none ↦ err (no_access name (names (t ∷ ts)))
  | some u ↦ ok u
]
select_among (t ∷ []) none = ok t
select_among (t ∷ u ∷ ts) none = err (several_squads (names (t ∷ u ∷ ts)))

unfoldable pub select_tenant :
    TenantRegistry → Principal → Option String → Result TenantSelectionError Tenant
unfolding select_among
select_tenant registry principal requested =
    select_among (for_groups registry principal.groups) (chosen requested)

unfoldable pub build_session :
    TenantRegistry → Principal → Option String → Result TenantSelectionError Session
build_session registry principal requested = do
  tenant ← select_tenant registry principal requested
  ok (record { principal = principal; tenant = tenant; role = role_for registry principal.groups })

chosen-some :
    (requested : Option String) (n : String) → chosen requested ≡ some n → requested ≡ some n
chosen-some none n h = cc
chosen-some (some m) n h = ground arith

select_among-ok :
    (ts : List Tenant) (requested : Option String) (t : Tenant)
    → select_among ts requested ≡ ok t
    → In t ts × ((requested ≡ some t.name) ⊎ (ts ≡ t ∷ []))
unfolding select_among
select_among-ok [] requested t h = cc
select_among-ok (u ∷ us) (some n) t h =
    elim (Option-cases (find (λ (v : Tenant). v.name == n) (u ∷ us))) [
      | inl missing ↦ cc (rw (missing, select_among) at h)
      | inr (v, found) ↦
          let (listed, named) = find-some (λ (w : Tenant). w.name == n) (u ∷ us) {a = v} found in
          let same : v ≡ t = ground arith in
          (subst (λ w. In w (u ∷ us)) same listed, inl (ground (arith, eq_iff v.name n)))
    ]
select_among-ok (u ∷ []) none t h = (ground arith, ground arith)
select_among-ok (u ∷ v ∷ us) none t h = cc

-- The squad of a session is one of the registry's, one of the user's LDAP groups maps to it, and
-- it is the requested one or the only one that the groups reach.
pub record Chosen (registry : TenantRegistry) (principal : Principal) (requested : Option String)
    (t : Tenant) : Type 0 where
  pub listed : In t registry.tenants
  pub group : String
  pub mapped : In group t.ldap_groups
  pub held : In group principal.groups
  pub by_name_or_only : (requested ≡ some t.name) ⊎ (for_groups registry principal.groups ≡ t ∷ [])

-- A session that is built is for a squad of the registry to which one of the user's groups is
-- mapped, the requested one or the only one that the groups reach; its role is the one that the
-- registry gives to the groups, and its principal the caller.
pub build_session-Chosen :
    (registry : TenantRegistry) (principal : Principal) (requested : Option String) {s : Session}
    → build_session registry principal requested ≡ ok s
    → Chosen registry principal requested s.tenant
      × (s.role ≡ role_for registry principal.groups)
      × (s.principal ≡ principal)
unfolding build_session
build_session-Chosen registry principal requested {s} h =
    elim (Result-cases (select_tenant registry principal requested)) [
      | inl (e, failed) ↦ absurd (ground arith)
      | inr (t, selected) ↦
          let (listed, why) =
            select_among-ok (for_groups registry principal.groups) (chosen requested) t
              (unfold select_tenant in selected) in
          let (member, met) =
            (In-keep (λ (u : Tenant). meets u.ldap_groups principal.groups) t registry.tenants).0
              (unfold for_groups in listed) in
          let (g, mapped, held) = (meets_iff t.ldap_groups principal.groups).0 met in
          let same : t ≡ s.tenant = ground arith in
          (
            subst (Chosen registry principal requested) same (record {
              listed = member;
              group = g;
              mapped = mapped;
              held = held;
              by_name_or_only = elim why [
                | inl e ↦ inl (chosen-some requested t.name e)
                | inr e ↦ inr e
              ];
            }),
            ground arith,
            ground arith,
          )
    ]
