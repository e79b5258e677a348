-- ===== src/Mcp/Listing.antt =====
-- What `tools/list` shows is what `tools/call` admits.
use repo_mcp.Prelude.{
  String, ◌≡◌, refl, sym, subst, ◌↔◌, inl, inr, Bool, true, false, some, List, map, Bool-cases,
  Option-cases, ℕ_eq, String_eq, keep, In-map-elim, In-map-intro, In, In-append, In-keep, contains,
  subset, contains_iff, subset_iff, lookup,
}
use repo_mcp.Prelude.Value.{Fields, get}
use repo_mcp.Roles.{use_smart_tools, capabilities_for, Capability_eq}
use repo_mcp.Mcp.Session.{Session, capabilities, effective_tools}
use repo_mcp.Mcp.SmartTools.{smart_tool_names, smart_tool_requirements, requirements}
use repo_mcp.Mcp.Authorize.{smart_tools_for}
use repo_mcp.Mcp.Permission.{CanUse, In-effective_tools, MayCall, engine_tool, smart_tool}
use repo_mcp.Mcp.Calls.{Backend, Config, Python}
use repo_mcp.Mcp.Router.{
  Listed, engine_definition, smart_definition, method_text, named_in, visible,
}

requirements-entry :
    (r : String × List String)
    → In r smart_tool_requirements
    → In r.0 smart_tool_names × (requirements r.0 ≡ r.1)
unfolding requirements lookup
requirements-entry r (inl e) = rw e (inl refl, refl)
requirements-entry r (inr (inl e)) = rw e (inr (inl refl), refl)
requirements-entry r (inr (inr m)) = absurd m

entry-requirements :
    (n : String) → In n smart_tool_names → In (n, requirements n) smart_tool_requirements
unfolding requirements lookup
entry-requirements n (inl e) = rw e (inl refl)
entry-requirements n (inr (inl e)) = rw e (inr (inl refl))
entry-requirements n (inr (inr m)) = absurd m

module _ (s : Session) (n : String) where
  abbrev reachable : String × List String → Bool
  reachable r = subset r.1 (effective_tools s)

  reachable-needs :
      In n (map (λ (r : String × List String). r.0) (keep reachable smart_tool_requirements))
      → In n smart_tool_names × ((tool : String) → In tool (requirements n) → CanUse s tool)
  reachable-needs m =
      let (r, kept, e) =
        In-map-elim (λ (r : String × List String). r.0) n (keep reachable smart_tool_requirements)
          m in
      let (listed, sub) = (In-keep reachable r smart_tool_requirements).0 kept in
      let (smart, same) = requirements-entry r listed in
      (
        subst (λ x. In x smart_tool_names) (sym e) smart,
        λ tool t. (In-effective_tools s tool).0 (
            (subset_iff r.1 (effective_tools s)).0 sub tool
              (subst (In tool) same (subst (λ x. In tool (requirements x)) e t))),
      )

  needs-reachable :
      In n smart_tool_names
      → ((tool : String) → In tool (requirements n) → CanUse s tool)
      → In n (map (λ (r : String × List String). r.0) (keep reachable smart_tool_requirements))
  needs-reachable smart needs =
      let sub =
        (subset_iff (requirements n) (effective_tools s)).1
          (λ tool t. (In-effective_tools s tool).1 (needs tool t)) in
      In-map-intro (λ (r : String × List String). r.0) (n, requirements n)
        (keep reachable smart_tool_requirements)
        ((In-keep reachable (n, requirements n) smart_tool_requirements).1
          (entry-requirements n smart, sub))

-- The composite tools of a session are those that it may call.
pub smart_tools_for_iff :
    (s : Session) (llm_enabled : Bool) (n : String)
    → In n (smart_tools_for s llm_enabled) ↔ (In n smart_tool_names × MayCall llm_enabled s n)
unfolding smart_tools_for capabilities
smart_tools_for_iff s false n = (
  λ m. absurd m,
  λ c. elim (c.1) [
    | engine_tool plain u ↦ absurd (plain c.0)
    | smart_tool m enabled capable needs ↦ cc
  ],
)
smart_tools_for_iff s true n =
    elim (Bool-cases (contains (capabilities_for s.role) use_smart_tools)) [
      | inl capable ↦ rw capable (
        λ m.
            let (smart, needs) = reachable-needs s n m in
            (smart, smart_tool smart refl ((contains_iff _ _).0 capable) needs),
        λ c. elim (c.1) [
          | engine_tool plain u ↦ absurd (plain c.0)
          | smart_tool m enabled held needs ↦ needs-reachable s n m needs
        ],
      )
      | inr incapable ↦ rw incapable (
        λ m. absurd m,
        λ c. elim (c.1) [
          | engine_tool plain u ↦ absurd (plain c.0)
          | smart_tool m enabled capable needs ↦ cc ((contains_iff _ _).1 capable)
        ],
      )
    ]

-- `tools/list` shows a tool of the engine exactly when the session can use it.
engine_listed_iff :
    (s : Session) (engine_tools : List Fields) (t : Fields)
    → In t (keep (named_in (effective_tools s)) engine_tools)
      ↔ (In t engine_tools × ((n : String) × (method_text (get "name" t) ≡ some n) × CanUse s n))
unfolding named_in
engine_listed_iff s engine_tools t =
    let kept = In-keep (named_in (effective_tools s)) t engine_tools in
    (
      λ m. elim (Option-cases (method_text (get "name" t))) [
        | inl missing ↦ absurd (let (a, b) = kept.0 m in cc (rw (missing, named_in) at b))
        | inr (n, named) ↦
            let (a, b) = kept.0 m in
            (
              a,
              (
                n,
                named,
                (In-effective_tools s n).0 ((contains_iff _ _).0 (rw (named, named_in) at b)),
              ),
            )
      ],
      λ h.
          let (n, named, u) = h.1 in
          kept.1 (h.0, rw (named, named_in) ((contains_iff _ _).1 ((In-effective_tools s n).1 u))),
    )

smart_part : (ns : List String) (t : Fields) → ¬ In (engine_definition t) (map smart_definition ns)
smart_part ns t m = let (n, k, e) = In-map-elim smart_definition (engine_definition t) ns m in cc

engine_part : (ts : List Fields) (n : String) → ¬ In (smart_definition n) (map engine_definition ts)
engine_part ts n m = let (t, k, e) = In-map-elim engine_definition (smart_definition n) ts m in cc

-- What a listed tool stands for: a tool of the engine that the session can use, or a composite
-- tool that it may call.
abbrev pub MayList : Bool → Session → List Fields → Listed → Type 0
MayList llm_enabled s engine_tools (engine_definition t) =
    In t engine_tools × ((n : String) × (method_text (get "name" t) ≡ some n) × CanUse s n)
MayList llm_enabled s engine_tools (smart_definition n) =
    In n smart_tool_names × MayCall llm_enabled s n

-- Tools/list shows exactly the engine's tools that the session can use and the composite tools that
-- it may call.
pub visible_iff :
    {W : Type 0} (py : Python) (cfg : Config) (b : Backend W) (s : Session)
    (engine_tools : List Fields) (l : Listed)
    → In l (visible py cfg b s engine_tools) ↔ MayList cfg.llm_enabled s engine_tools l
unfolding visible
visible_iff py cfg b s engine_tools (engine_definition t) =
    let engine = keep (named_in (effective_tools s)) engine_tools in
    let smart = keep (contains (smart_tools_for s cfg.llm_enabled)) smart_tool_names in
    let split =
      In-append (engine_definition t) (map engine_definition engine) (map smart_definition smart) in
    (
      λ m. elim (split.0 m) [
        | inl k ↦
            let (t', k', e) = In-map-elim engine_definition (engine_definition t) engine k in
            let same : t' ≡ t = cc in
            (engine_listed_iff s engine_tools t).0 (subst (λ x. In x engine) same k')
        | inr k ↦ absurd (smart_part smart t k)
      ],
      λ h. split.1 (
          inl (In-map-intro engine_definition t engine ((engine_listed_iff s engine_tools t).1 h))),
    )
visible_iff py cfg b s engine_tools (smart_definition n) =
    let engine = keep (named_in (effective_tools s)) engine_tools in
    let listed = smart_tools_for s cfg.llm_enabled in
    let smart = keep (contains listed) smart_tool_names in
    let split =
      In-append (smart_definition n) (map engine_definition engine) (map smart_definition smart) in
    let kept = In-keep (contains listed) n smart_tool_names in
    let may = smart_tools_for_iff s cfg.llm_enabled n in
    (
      λ m. elim (split.0 m) [
        | inl k ↦ absurd (engine_part engine n k)
        | inr k ↦
            let (n', k', e) = In-map-elim smart_definition (smart_definition n) smart k in
            let same : n' ≡ n = cc in
            may.0 ((contains_iff listed n).0 (kept.0 (subst (λ x. In x smart) same k')).1)
      ],
      λ h. split.1 (
          inr (
            In-map-intro smart_definition n smart
              (kept.1 (h.0, (contains_iff listed n).1 (may.1 h))))),
    )
