-- ===== src/Tenants/Allowed.antt =====
-- What a squad's profile, its structural flag and its denied tools leave, and which projects its
-- allowlist holds.
use repo_mcp.Prelude.{
  String, ◌≡◌, refl, ◌≢◌, ◌↔◌, Bool, true, false, List, arith, eq_iff, ℕ_eq, String_eq, In,
  any-elim, any-intro, In-difference,
}
use repo_mcp.Glob.{codes, fnmatchcase}
use repo_mcp.Glob.Matching.{Selects, fnmatchcase_iff}
use repo_mcp.Tenants.{
  Tenant, profile_tools, source_tools, visible_tools, allowed_tools, allows_project,
}

-- The tool is in the profile, gives no source text if the squad is structural, and is not denied.
pub record Allows (t : Tenant) (tool : String) : Type 0 where
  pub profiled : In tool (profile_tools t.tool_profile)
  pub structural : t.structural_only ≡ true → ¬ In tool source_tools
  pub not_denied : ¬ In tool t.denied_tools

In-visible_tools :
    (structural_only : Bool) (tools : List String) (tool : String)
    → In tool (visible_tools structural_only tools)
      ↔ (In tool tools × (structural_only ≡ true → ¬ In tool source_tools))
unfolding visible_tools
In-visible_tools true tools tool =
    let d = In-difference tools source_tools tool in
    (λ m. ((d.0 m).0, λ e. (d.0 m).1), λ a. d.1 (a.0, a.1 refl))
In-visible_tools false tools tool = (λ m. (m, λ e. cc), λ a. a.0)

-- A squad may call exactly the tools of its profile that are not denied and, if the squad is
-- structural, do not return source text.
pub In-allowed_tools : (t : Tenant) (tool : String) → In tool (allowed_tools t) ↔ Allows t tool
unfolding allowed_tools
In-allowed_tools t tool =
    let tools = profile_tools t.tool_profile in
    let left = In-difference (visible_tools t.structural_only tools) t.denied_tools tool in
    let seen = In-visible_tools t.structural_only tools tool in
    (
      λ m. record {
        profiled = (seen.0 (left.0 m).0).0;
        structural = (seen.0 (left.0 m).0).1;
        not_denied = (left.0 m).1;
      },
      λ a. left.1 (seen.1 (a.profiled, a.structural), a.not_denied),
    )

-- The project has a name, and a pattern of the allowlist matches it.
pub record Holds (t : Tenant) (project : String) : Type 0 where
  pub named : project ≢ ""
  pub pattern : String
  pub listed : In pattern t.projects
  pub matched : Selects (codes pattern) (codes project)

-- A squad may read a project exactly when its name is not empty and some pattern of the allowlist
-- selects it: by rules that use neither the code's parser nor its matcher, the pattern is read as
-- stars, question marks, bracket expressions and single characters, and these take the name.
pub allows_project_iff :
    (t : Tenant) (project : String) → (allows_project t project ≡ true) ↔ Holds t project
unfolding allows_project
allows_project_iff t project = (
  λ h.
      let (pattern, listed, hit) = any-elim (fnmatchcase project) t.projects (ground arith) in
      record {
        named = ground (arith, eq_iff project "");
        pattern = pattern;
        listed = listed;
        matched = (fnmatchcase_iff project pattern).0 hit;
      },
  λ a.
      let hit =
        any-intro (fnmatchcase project) t.projects a.pattern a.listed
          ((fnmatchcase_iff project a.pattern).1 a.matched) in
      ground (arith, eq_iff project "", a.named),
)
