-- ===== src/Tenants.antt =====
-- gateway/app/tenants.py: squads, the tools that a squad may call, the squads of a user.
pub mod Document
pub mod Disjoint
pub mod Allowed
mod Tests
use repo_mcp.Prelude.{
  ℕ, zero, suc, ◌+◌, ◌-◌, ◌*◌, ◌/◌, ◌%◌, ◌≤◌, ◌<◌, String, ◌≡◌, refl, sym, ap, ◌∙◌, subst, ◌≢◌, ◌↔◌,
  ◌⊎◌, inl, inr, Bool, true, false, not, ◌&&◌, ◌||◌, Option, none, some, List, [], ◌∷◌, ◌++◌, map,
  arith, eq_iff, ltb, leb, nat_eq, if◌then◌else◌, nat_eq_iff, Bool-cases, Option-cases, and_iff,
  or_iff, not_iff, Eq, ◌==◌, ℕ_eq, String_eq, length, take, length-append, any, all, keep, find,
  All, In, In-append, In-keep, find-some, find-none, any-elim, any-intro, all-elim, all-intro,
  contains, difference, meets, subset, contains_iff, In-difference, meets_iff, subset_iff, lookup,
  insert, remove, lookup-insert, lookup-remove,
}
use repo_mcp.Roles.{Role, RoleAssignment, resolve_role}
use repo_mcp.Glob.{fnmatchcase}

abbrev pub analysis_tools : List String
analysis_tools =
    "search_graph" ∷ "query_graph" ∷ "trace_path" ∷ "get_code_snippet" ∷ "get_graph_schema"
    ∷ "get_architecture" ∷ "search_code" ∷ "list_projects" ∷ "index_status" ∷ "check_index_coverage"
    ∷ "detect_changes" ∷ []

abbrev pub scout_tools : List String
scout_tools =
    "search_graph" ∷ "trace_path" ∷ "get_code_snippet" ∷ "get_architecture" ∷ "list_projects"
    ∷ "index_status" ∷ "check_index_coverage" ∷ []

abbrev pub write_tools : List String
write_tools = "index_repository" ∷ "delete_project" ∷ "manage_adr" ∷ "ingest_traces" ∷ []

abbrev pub all_tools : List String
all_tools = analysis_tools ++ scout_tools ++ write_tools

-- The keys of `PROFILES`: `from_dict` refuses any other `tool_profile`.
pub data Profile : Type 0 where
  all_profile analysis scout : Profile

abbrev pub profile_of : String → Option Profile
profile_of text =
    if text == "all"
    then some all_profile
    else if text == "analysis"
    then some analysis
    else if text == "scout"
    then some scout
    else none

-- `PROFILES[profile]`
abbrev pub profile_tools : Profile → List String
profile_tools all_profile = all_tools
profile_tools analysis = analysis_tools
profile_tools scout = scout_tools

pub record Tenant : Type 0 where
  pub name : String
  pub ldap_groups : List String
  pub tool_profile : Profile
  pub projects : List String
  pub structural_only : Bool
  pub denied_tools : List String
  pub litellm_key_env : Option String

abbrev pub source_tools : List String
source_tools = "get_code_snippet" ∷ "search_code" ∷ []

-- what is left of the profile when tools that return source text are withheld
unfoldable pub visible_tools : Bool → List String → List String
visible_tools structural_only tools =
    if structural_only then difference tools source_tools else tools

unfoldable pub allowed_tools : Tenant → List String
unfolding visible_tools
allowed_tools t =
    difference (visible_tools t.structural_only (profile_tools t.tool_profile)) t.denied_tools

-- The flag passed to the engine process; the full profile passes none.
unfoldable pub cbm_profile_flag : Tenant → List String
cbm_profile_flag t = elim t.tool_profile [
  | all_profile ↦ []
  | analysis ↦ "--tool-profile=analysis" ∷ []
  | scout ↦ "--tool-profile=scout" ∷ []
]

unfoldable pub allows_project : Tenant → String → Bool
allows_project t project = if project == "" then false else any (fnmatchcase project) t.projects

unfoldable pub allows_tool : Tenant → String → Bool
allows_tool t tool = contains (allowed_tools t) tool

pub record TenantRegistry : Type 0 where
  pub tenants : List Tenant
  pub role_assignments : List RoleAssignment

unfoldable pub for_groups : TenantRegistry → List String → List Tenant
for_groups r groups = keep (λ (t : Tenant). meets t.ldap_groups groups) r.tenants

unfoldable pub role_for : TenantRegistry → List String → Role
role_for r groups = resolve_role r.role_assignments groups

unfoldable pub by_name : TenantRegistry → String → Option Tenant
by_name r name = find (λ (t : Tenant). t.name == name) r.tenants
