-- ===== src/Mcp/Permission.antt =====
-- What `_authorize` admits, stated without its code.
use Prim.Native.String
use text.Mathlib.TextEquality.{starts_with_iff}
use text.Mathlib.TextBridge.{IsPrefix}
use repo_mcp.Prelude.{
  String, ◌≡◌, refl, ◌↔◌, inl, inr, Bool, true, Option, none, some, eq_iff, Bool-cases,
  Option-cases, ◌==◌, ℕ_eq, String_eq, is_empty-difference_iff, In, In-keep, contains, contains_iff,
  lookup,
}
use repo_mcp.Prelude.Value.{Value, null, bool, str, Fields, get}
use repo_mcp.Prelude.Result.{ok, guard_iff, then_iff}
use repo_mcp.Roles.{Capability, use_smart_tools, capabilities_for, tool_capability, Capability_eq}
use repo_mcp.Tenants.{Tenant, allowed_tools}
use repo_mcp.Tenants.Allowed.{Allows, In-allowed_tools, Holds, allows_project_iff}
use repo_mcp.Mcp.Session.{Session, capabilities, within, effective_tools}
use repo_mcp.Mcp.SmartTools.{smart_tool_names, requirements}
use repo_mcp.Mcp.Authorize.{
  child_path, project_arg_tools, authorize_tool, project_allowed, authorize_project, repo_path,
  under_root, authorize_root, authorize,
}

-- The session's squad may call the engine tool, and its role has the capability that it needs.
pub record CanUse (s : Session) (tool : String) : Type 0 where
  pub allowed : Allows s.tenant tool
  pub capability : Capability
  pub needed : lookup tool tool_capability ≡ some capability
  pub held : In capability (capabilities_for s.role)

pub In-effective_tools : (s : Session) (tool : String) → In tool (effective_tools s) ↔ CanUse s tool
unfolding effective_tools capabilities
In-effective_tools s tool =
    let caps = capabilities_for s.role in
    let kept =
      In-keep (λ x. within (lookup x tool_capability) caps) tool (allowed_tools s.tenant) in
    (
      λ m. elim (Option-cases (lookup tool tool_capability)) [
        | inl missing ↦ absurd (let (a, b) = kept.0 m in cc (rw missing at b))
        | inr (c, needed) ↦
            let (a, b) = kept.0 m in
            record {
              allowed = (In-allowed_tools s.tenant tool).0 a;
              capability = c;
              needed = needed;
              held = (contains_iff caps c).0 (rw needed at b);
            }
      ],
      λ u. kept.1 (
        (In-allowed_tools s.tenant tool).1 u.allowed,
        rw u.needed ((contains_iff caps u.capability).1 u.held),
      ),
    )

-- A composite tool wants a model, a role that may use it, and every engine tool that it is made
-- of; any other tool is one that the session can use.
pub data MayCall (llm_enabled : Bool) (s : Session) (name : String) : Type 0 where
  engine_tool : ¬ In name smart_tool_names → CanUse s name → MayCall llm_enabled s name
  smart_tool :
      In name smart_tool_names
      → llm_enabled ≡ true
      → In use_smart_tools (capabilities_for s.role)
      → ((tool : String) → In tool (requirements name) → CanUse s tool)
      → MayCall llm_enabled s name

-- A project that is given is a text that the squad's allowlist holds.
abbrev pub MayRead : Tenant → Option Value → Type 0
MayRead t none = Unit
MayRead t (some null) = Unit
MayRead t (some (str project)) = Holds t project
MayRead t (some v) = ⊥

module _ (repr : Value → String) (llm_enabled : Bool) (cbm_repo_root : String) where
  pub record Permitted (s : Session) (name : String) (args : Fields) : Type 0 where
    pub tool : MayCall llm_enabled s name
    pub project : In name project_arg_tools → MayRead s.tenant (get "project" args)
    pub root :
        name ≡ "index_repository"
        → IsPrefix (String.◌++◌ (child_path cbm_repo_root s.tenant.name) "/") (repo_path repr args)

authorize_tool_iff :
    (llm_enabled : Bool) (s : Session) (name : String)
    → (authorize_tool llm_enabled s name ≡ ok tt) ↔ MayCall llm_enabled s name
unfolding authorize_tool capabilities
authorize_tool_iff llm_enabled s name =
    let listed = contains_iff smart_tool_names name in
    let usable = In-effective_tools s in
    elim (Bool-cases (contains smart_tool_names name)) [
      | inl smart ↦ rw smart (
        λ h.
            let (enabled, rest) = (then_iff _ _).0 h in
            let (capable, complete) = (then_iff _ _).0 rest in
            smart_tool (listed.0 smart) ((guard_iff _ _).0 enabled)
              ((contains_iff _ _).0 ((guard_iff _ _).0 capable))
              (λ tool m.
                (usable tool).0
                  ((is_empty-difference_iff _ _).0 ((guard_iff _ _).0 complete) tool m)),
        λ c. elim c [
          | engine_tool plain u ↦ absurd (plain (listed.0 smart))
          | smart_tool m enabled capable needs ↦ (then_iff _ _).1 (
            (guard_iff _ _).1 enabled,
            (then_iff _ _).1 (
              (guard_iff _ _).1 ((contains_iff _ _).1 capable),
              (guard_iff _ _).1
                  ((is_empty-difference_iff _ _).1 (λ tool n. (usable tool).1 (needs tool n))),
            ),
          )
        ],
      )
      | inr plain ↦ rw plain (
        λ h.
            engine_tool (λ m. cc (listed.1 m))
              ((usable name).0 ((contains_iff _ _).0 ((guard_iff _ _).0 h))),
        λ c. elim c [
          | engine_tool other u ↦ (guard_iff _ _).1 ((contains_iff _ _).1 ((usable name).1 u))
          | smart_tool m enabled capable needs ↦ absurd (cc (listed.1 m))
        ],
      )
    ]

project_allowed_iff : (t : Tenant) (o : Option Value) → (project_allowed t o ≡ true) ↔ MayRead t o
unfolding project_allowed
project_allowed_iff t none = (λ h. tt, λ h. refl)
project_allowed_iff t (some null) = (λ h. tt, λ h. refl)
project_allowed_iff t (some (str p)) = allows_project_iff t p
project_allowed_iff t (some (bool b)) = (λ h. cc, λ h. absurd h)
project_allowed_iff t (some v) = (λ h. cc, λ h. absurd h)

authorize_project_iff :
    (s : Session) (name : String) (args : Fields)
    → (authorize_project s name args ≡ ok tt)
      ↔ (In name project_arg_tools → MayRead s.tenant (get "project" args))
unfolding authorize_project
authorize_project_iff s name args =
    let listed = contains_iff project_arg_tools name in
    let allowed = project_allowed_iff s.tenant (get "project" args) in
    elim (Bool-cases (contains project_arg_tools name)) [
      | inl yes_arg ↦ rw yes_arg (
        λ h m. allowed.0 ((guard_iff _ _).0 h),
        λ f. (guard_iff _ _).1 (allowed.1 (f (listed.0 yes_arg))),
      )
      | inr no_arg ↦ rw no_arg (λ h m. absurd (cc (listed.1 m)), λ f. refl)
    ]

authorize_root_iff :
    (repr : Value → String) (cbm_repo_root : String) (s : Session) (name : String) (args : Fields)
    → (authorize_root repr cbm_repo_root s name args ≡ ok tt) ↔ (
        name ≡ "index_repository"
        → IsPrefix (String.◌++◌ (child_path cbm_repo_root s.tenant.name) "/") (repo_path repr args))
unfolding authorize_root under_root
authorize_root_iff repr cbm_repo_root s name args =
    let same = eq_iff name "index_repository" in
    let prefix =
      starts_with_iff (repo_path repr args)
        (String.◌++◌ (child_path cbm_repo_root s.tenant.name) "/") in
    elim (Bool-cases (name == "index_repository")) [
      | inl here ↦ rw here (
        λ h e. prefix.0 ((guard_iff _ _).0 h),
        λ f. (guard_iff _ _).1 (prefix.1 (f (same.0 here))),
      )
      | inr other ↦ rw other (λ h e. absurd (cc (same.1 e)), λ f. refl)
    ]

-- A call passes authorization exactly when the session is permitted to make it: a composite tool
-- wants the model, a role that may use it and every engine tool it is made of; any other tool must
-- be of the squad and within the role; a given project must be a text that the squad's allowlist
-- matches; an index path must begin with the squad's own root.
pub authorize_iff :
    (repr : Value → String) (llm_enabled : Bool) (cbm_repo_root : String) (s : Session)
    (name : String) (args : Fields)
    → (authorize repr llm_enabled cbm_repo_root s name args ≡ ok tt)
      ↔ Permitted repr llm_enabled cbm_repo_root s name args
unfolding authorize
authorize_iff repr llm_enabled cbm_repo_root s name args =
    let tool = authorize_tool_iff llm_enabled s name in
    let project = authorize_project_iff s name args in
    let root = authorize_root_iff repr cbm_repo_root s name args in
    (
      λ h.
          let (a, rest) = (then_iff _ _).0 h in
          let (b, c) = (then_iff _ _).0 rest in
          record { tool = tool.0 a; project = project.0 b; root = root.0 c },
      λ p. (then_iff _ _).1 (tool.1 p.tool, (then_iff _ _).1 (project.1 p.project, root.1 p.root)),
    )
