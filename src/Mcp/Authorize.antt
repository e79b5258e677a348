-- ===== src/Mcp/Authorize.antt =====
-- `McpRouter._authorize` and `smart_tools_for` of gateway/app/mcp.py.
use Prim.Native.String
use text.Mathlib.Text.{starts_with}
use repo_mcp.Prelude.{
  String, Bool, true, false, not, ◌||◌, Option, none, some, List, [], ◌∷◌, map, if◌then◌else◌, ◌==◌,
  ℕ_eq, String_eq, keep, is_empty, contains, difference, subset,
}
use repo_mcp.Prelude.Value.{Value, null, str, Fields, get, truthy, text_of}
use repo_mcp.Prelude.Result.{Result, ok, guard, ◌>>◌}
use repo_mcp.Roles.{Role, use_smart_tools, Capability_eq}
use repo_mcp.Tenants.{Tenant, allows_project}
use repo_mcp.Mcp.Session.{Session, capabilities, effective_tools}
use repo_mcp.Mcp.SmartTools.{smart_tool_names, smart_tool_requirements, requirements}

abbrev pub project_arg_tools : List String
project_arg_tools =
    "search_graph" ∷ "query_graph" ∷ "trace_path" ∷ "get_code_snippet" ∷ "get_graph_schema"
    ∷ "get_architecture" ∷ "search_code" ∷ "index_status" ∷ "check_index_coverage"
    ∷ "detect_changes" ∷ "delete_project" ∷ "manage_adr" ∷ "ingest_traces" ∷ "explain_change_impact"
    ∷ "ask_codebase" ∷ []

pub data AccessDenied : Type 0 where
  smart_tools_disabled : String → AccessDenied
  role_cannot_use_smart_tools : Role → AccessDenied
  needs_tools : String → List String → AccessDenied
  not_available : String → Role → String → AccessDenied
  no_project_access : Value → List String → AccessDenied
  outside_root : String → AccessDenied

-- `root / name` for a root in normal form
abbrev pub child_path : String → String → String
child_path root name =
    if starts_with name "/" then name else String.◌++◌ root (String.◌++◌ "/" name)

abbrev pub or_null : Option Value → Value
or_null none = null
or_null (some v) = v

unfoldable pub authorize_tool : Bool → Session → String → Result AccessDenied (Unit {0})
authorize_tool llm_enabled s name =
    let allowed = effective_tools s in
    let missing = difference (requirements name) allowed in
    if contains smart_tool_names name
    then (do
      guard llm_enabled (smart_tools_disabled name)
      guard (contains (capabilities s) use_smart_tools) (role_cannot_use_smart_tools s.role)
      guard (is_empty missing) (needs_tools name missing))
    else guard (contains allowed name) (not_available name s.role s.tenant.name)

-- a project that is given must be a text that the squad's allowlist matches
unfoldable pub project_allowed : Tenant → Option Value → Bool
project_allowed t none = true
project_allowed t (some null) = true
project_allowed t (some (str project)) = allows_project t project
project_allowed t (some v) = false

unfoldable pub authorize_project : Session → String → Fields → Result AccessDenied (Unit {0})
authorize_project s name args =
    if contains project_arg_tools name
    then guard (project_allowed s.tenant (get "project" args))
        (no_project_access (or_null (get "project" args)) s.tenant.projects)
    else ok tt

-- `str(args.get("repo_path") or "")`
unfoldable pub repo_path : (Value → String) → Fields → String
repo_path repr args = elim (get "repo_path" args) [
  | none ↦ ""
  | some v ↦ if truthy v then text_of repr v else ""
]

unfoldable pub under_root : (Value → String) → String → Session → Fields → Bool
under_root repr cbm_repo_root s args =
    starts_with (repo_path repr args) (String.◌++◌ (child_path cbm_repo_root s.tenant.name) "/")

unfoldable pub authorize_root :
    (Value → String) → String → Session → String → Fields → Result AccessDenied (Unit {0})
authorize_root repr cbm_repo_root s name args =
    if name == "index_repository"
    then guard (under_root repr cbm_repo_root s args)
        (outside_root (child_path cbm_repo_root s.tenant.name))
    else ok tt

unfoldable pub authorize :
    (Value → String) → Bool → String → Session → String → Fields → Result AccessDenied (Unit {0})
authorize repr llm_enabled cbm_repo_root s name args = do
  authorize_tool llm_enabled s name
  authorize_project s name args
  authorize_root repr cbm_repo_root s name args

-- The composite tools that a session can reach.
unfoldable pub smart_tools_for : Session → Bool → List String
smart_tools_for s llm_enabled =
    if not llm_enabled || not (contains (capabilities s) use_smart_tools)
    then []
    else map (λ (r : String × List String). r.0)
        (keep (λ (r : String × List String). subset r.1 (effective_tools s))
          smart_tool_requirements)
