-- ===== src/Mcp/Tests.antt =====
-- A squad, its users and an engine, on which the results about calls are run.
use repo_mcp.Prelude.{
  String, ◌≡◌, refl, ◌↔◌, true, false, none, List, [], ◌∷◌, ℕ_eq, String_eq, any, keep, find, All,
  In, contains, difference, meets, lookup,
}
use repo_mcp.Prelude.Value.{Value, str, Fields, end, field, get}
use repo_mcp.Prelude.Result.{ok}
use repo_mcp.Roles.{lead, viewer, resolve_role, matched_roles, capabilities_for}
use repo_mcp.Glob.{fnmatchcase}
use repo_mcp.Tenants.{
  Tenant, analysis, TenantRegistry, for_groups, role_for, allowed_tools, visible_tools,
  allows_project,
}
use repo_mcp.Mcp.Session.{
  Principal, Session, build_session, build_session-Chosen, Chosen, select_tenant, select_among,
  effective_tools, capabilities, within,
}
use repo_mcp.Mcp.Authorize.{
  authorize, authorize_tool, authorize_project, project_allowed, authorize_root,
}
use repo_mcp.Mcp.Permission.{CanUse, Permitted, authorize_iff}
use repo_mcp.Mcp.Calls.{
  Backend, Config, Python, State, call, perform, settle, conclude, new_event, ◌>>=◌,
}
use repo_mcp.Mcp.Confined.{Confined, call-keeps}
use repo_mcp.Mcp.Audited.{Audited, call-Audited}
use repo_mcp.Mcp.Listing.{MayList, visible_iff}
use repo_mcp.Mcp.Router.{visible, smart_definition}

abbrev payments : Tenant
payments = record {
  name = "payments";
  ldap_groups = "cn=payments" ∷ [];
  tool_profile = analysis;
  projects = "acme-pay-*" ∷ [];
  structural_only = true;
  denied_tools = "query_graph" ∷ [];
  litellm_key_env = none;
}

abbrev alice : Principal
alice = record { subject = "1"; username = "alice"; groups = "cn=payments" ∷ "cn=leads" ∷ [] }

abbrev registry : TenantRegistry
registry = record {
  tenants = payments ∷ [];
  role_assignments = record { role = lead; ldap_groups = "cn=leads" ∷ [] } ∷ [];
}

abbrev lead_session : Session
lead_session = record { principal = alice; tenant = payments; role = lead }

abbrev viewer_session : Session
viewer_session = record { principal = alice; tenant = payments; role = viewer }

abbrev repr : Value → String
repr v = "?"

abbrev python : Python
python = record { repr = repr; to_dict = λ v. none; dumps = λ a b. a }

abbrev config : Config
config = record { litellm_model = "m"; llm_enabled = true; cbm_repo_root = "/repos" }

-- An engine that keeps the names of the tools that were asked of it.
abbrev engine : Backend (List String)
engine = record {
  call_tool = λ t tool args w. (ok (record { content = []; is_error = false }), tool ∷ w);
  list_tools = λ t w. (ok [], w);
  complete = λ t u a b n w. (ok "answer", w);
  cache_lookup = λ t u name args w. (none, w);
  cache_store = λ t u name args text w. w;
}

abbrev start : State (List String)
start = record { world = []; log = [] }

abbrev on_api : Fields
on_api = field "project" (str "acme-pay-api") end

abbrev Usable : List String → Type 0
Usable = All (CanUse lead_session)

engine-Confined : Confined engine lead_session Usable
engine-Confined = record {
  engine = λ tool args w u h. (u, h);
  model = λ a b n w h. h;
  looked_up = λ name args w h. h;
  stored = λ name args text w h. h;
}

authorize_iff_example :
    (authorize repr true "/repos" lead_session "search_graph" on_api ≡ ok tt)
    ↔ Permitted repr true "/repos" lead_session "search_graph" on_api
authorize_iff_example = authorize_iff repr true "/repos" lead_session "search_graph" on_api

call-keeps_example :
    Usable (call python config engine lead_session "search_graph" on_api start).1.world
call-keeps_example =
    call-keeps python config engine lead_session Usable engine-Confined "search_graph" on_api start
      tt

call-Audited_example :
    Audited python config engine lead_session "search_graph" []
      (call python config engine lead_session "search_graph" on_api start).1.log
      (call python config engine lead_session "search_graph" on_api start).0
unfolding call authorize authorize_tool authorize_project project_allowed authorize_root contains
    effective_tools keep allowed_tools difference lookup capabilities within visible_tools
    capabilities_for allows_project any fnmatchcase get perform settle conclude new_event ◌>>=◌
call-Audited_example =
    call-Audited python config engine lead_session "search_graph" on_api start (λ h. h)

visible_iff_example :
    In (smart_definition "ask_codebase") (visible python config engine lead_session [])
    ↔ MayList true lead_session [] (smart_definition "ask_codebase")
visible_iff_example =
    visible_iff python config engine lead_session [] (smart_definition "ask_codebase")

build_session-Chosen_example : Chosen registry alice none payments × (lead ≡ lead) × (alice ≡ alice)
unfolding build_session select_tenant select_among for_groups keep meets role_for find resolve_role
    matched_roles contains any
build_session-Chosen_example = build_session-Chosen registry alice none {s = lead_session} refl

-- The call reaches the engine, and a tool that returns source text does not.
call_tests :
    ((call python config engine lead_session "search_graph" on_api start).1.world
      ≡ "search_graph" ∷ [])
    × ((call python config engine lead_session "search_code" on_api start).1.world ≡ [])
    × ((call python config engine viewer_session "detect_changes" on_api start).1.world ≡ [])
unfolding call authorize authorize_tool authorize_project project_allowed authorize_root contains
    effective_tools keep allowed_tools difference lookup capabilities within visible_tools
    capabilities_for allows_project any fnmatchcase get perform settle conclude new_event ◌>>=◌
call_tests = (refl, refl, refl)
