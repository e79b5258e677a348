-- ===== src/Roles.antt =====
-- gateway/app/roles.py: capabilities, roles, the capability of each tool, and a user's role.
pub mod Precedence
mod Tests
use repo_mcp.Prelude.{
  ℕ, String, ◌≡◌, ◌↔◌, Bool, Option, none, some, List, [], ◌∷◌, ◌++◌, map, arith, nat_eq, Eq, ◌==◌,
  String_eq, keep, contains, meets, if◌then◌else◌, true,
}

pub data Capability : Type 0 where
  read_graph read_source query_raw analyze_changes trigger_index : Capability
  manage_adr ingest_traces administer use_smart_tools : Capability

pub data Role : Type 0 where
  admin lead developer qa devops viewer : Role

abbrev pub capability_index : Capability → ℕ
capability_index read_graph = 0
capability_index read_source = 1
capability_index query_raw = 2
capability_index analyze_changes = 3
capability_index trigger_index = 4
capability_index manage_adr = 5
capability_index ingest_traces = 6
capability_index administer = 7
capability_index use_smart_tools = 8

pub capability_index_iff :
    (a b : Capability) → (nat_eq (capability_index a) (capability_index b) ≡ true) ↔ (a ≡ b)
capability_index_iff a b = ground arith

instance abbrev pub Capability_eq : Eq Capability
Capability_eq = record {
  test = λ a b. nat_eq (capability_index a) (capability_index b);
  test_iff = capability_index_iff;
}

-- The place of a role in `ROLE_PRECEDENCE`, most privileged first.
abbrev pub rank : Role → ℕ
rank admin = 0
rank lead = 1
rank devops = 2
rank qa = 3
rank developer = 4
rank viewer = 5

pub rank_iff : (a b : Role) → (nat_eq (rank a) (rank b) ≡ true) ↔ (a ≡ b)
rank_iff a b = ground arith

instance abbrev pub Role_eq : Eq Role
Role_eq = record { test = λ a b. nat_eq (rank a) (rank b); test_iff = rank_iff }

abbrev pub developer_capabilities : List Capability
developer_capabilities =
    read_graph ∷ read_source ∷ query_raw ∷ analyze_changes ∷ use_smart_tools ∷ []

abbrev pub all_capabilities : List Capability
all_capabilities =
    read_graph ∷ read_source ∷ query_raw ∷ analyze_changes ∷ trigger_index ∷ manage_adr
    ∷ ingest_traces ∷ administer ∷ use_smart_tools ∷ []

-- `ROLE_CAPABILITIES[role]`
abbrev pub role_capabilities : Role → List Capability
role_capabilities admin = all_capabilities
role_capabilities lead = developer_capabilities ++ trigger_index ∷ manage_adr ∷ []
role_capabilities developer = developer_capabilities
role_capabilities qa = developer_capabilities
role_capabilities devops =
    read_graph ∷ query_raw ∷ analyze_changes ∷ trigger_index ∷ ingest_traces ∷ use_smart_tools ∷ []
role_capabilities viewer = read_graph ∷ []

abbrev pub tool_capability : List (String × Capability)
tool_capability =
    ("search_graph", read_graph)
    ∷ ("trace_path", read_graph)
    ∷ ("get_graph_schema", read_graph)
    ∷ ("get_architecture", read_graph)
    ∷ ("list_projects", read_graph)
    ∷ ("index_status", read_graph)
    ∷ ("check_index_coverage", read_graph)
    ∷ ("get_code_snippet", read_source)
    ∷ ("search_code", read_source)
    ∷ ("query_graph", query_raw)
    ∷ ("detect_changes", analyze_changes)
    ∷ ("index_repository", trigger_index)
    ∷ ("manage_adr", manage_adr)
    ∷ ("ingest_traces", ingest_traces)
    ∷ ("delete_project", administer)
    ∷ []

abbrev pub role_precedence : List Role
role_precedence = admin ∷ lead ∷ devops ∷ qa ∷ developer ∷ viewer ∷ []

pub record RoleAssignment : Type 0 where
  pub role : Role
  pub ldap_groups : List String

unfoldable pub capabilities_for : Role → List Capability
capabilities_for role = role_capabilities role

-- the loop of `resolve_role`
first_matched : List Role → List Role → Role
first_matched [] matched = viewer
first_matched (role ∷ roles) matched =
    if contains matched role then role else first_matched roles matched

unfoldable pub matched_roles : List RoleAssignment → List String → List Role
matched_roles assignments groups =
    map (λ (a : RoleAssignment). a.role)
      (keep (λ (a : RoleAssignment). meets a.ldap_groups groups) assignments)

unfoldable pub resolve_role : List RoleAssignment → List String → Role
unfolding first_matched
resolve_role assignments groups = first_matched role_precedence (matched_roles assignments groups)

-- `Role(text)`, which raises on any other text
unfoldable pub role_of : String → Option Role
role_of text =
    if text == "admin"
    then some admin
    else if text == "lead"
    then some lead
    else if text == "developer"
    then some developer
    else if text == "qa"
    then some qa
    else if text == "devops"
    then some devops
    else if text == "viewer"
    then some viewer
    else none
