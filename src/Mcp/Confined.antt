-- ===== src/Mcp/Confined.antt =====
-- What `_tools_call` does to the engine, the model and the cache.
use repo_mcp.Prelude.{
  ℕ, String, ◌≡◌, refl, sym, subst, inl, inr, Option, none, some, arith, eq_iff, Bool-cases, ℕ_eq,
  String_eq, In, contains, contains_iff, lookup,
}
use repo_mcp.Prelude.Value.{Value, Fields}
use repo_mcp.Prelude.Result.{Result, ok, err, Result-cases}
use repo_mcp.Mcp.Session.{Session}
use repo_mcp.Mcp.SmartTools.{explain_change_impact, ask_codebase, smart_tool_names, requirements}
use repo_mcp.Mcp.Authorize.{authorize}
use repo_mcp.Mcp.Permission.{CanUse, MayCall, engine_tool, smart_tool as may_smart, authorize_iff}
use repo_mcp.Mcp.Keeps.{Keeps, Keeps-pure, Keeps-act, Keeps-if, Keeps-bind, keeps_rules}
use repo_mcp.Mcp.Calls.{
  Failure, cbm_error, llm_error, ToolResult, CacheHit, AuditEvent, Backend, State, Config, Python,
  act, result_text, explain_changes, run_explain_change_impact, run_ask_codebase, run_handler,
  recall, smart_tool, perform, settle, conclude, call,
}

-- A property of the backend's state that the session's own calls keep: an engine call for its
-- squad, of a tool that it can use, a completion, and the cache's two operations.
pub record Confined {W : Type 0} (b : Backend W) (s : Session) (P : W → Type 0) : Type 0 where
  pub engine :
      (tool : String) (args : Fields) (w : W)
      → CanUse s tool
      → P w
      → P (b.call_tool s.tenant tool args w).1
  pub model :
      (system user : String) (max_tokens : ℕ) (w : W)
      → P w
      → P (b.complete s.tenant s.principal.username system user max_tokens w).1
  pub looked_up :
      (name : String) (args : Fields) (w : W)
      → P w
      → P (b.cache_lookup s.tenant s.principal.username name args w).1
  pub stored :
      (name : String) (args : Fields) (text : String) (w : W)
      → P w
      → P (b.cache_store s.tenant s.principal.username name args text w)

explain_needs : In "detect_changes" (requirements explain_change_impact)
unfolding requirements lookup
explain_needs = inl refl

ask_needs :
    In "search_graph" (requirements ask_codebase)
    × In "get_architecture" (requirements ask_codebase)
unfolding requirements lookup
ask_needs = (inl refl, inr (inl refl))

module _ {W : Type 0} (py : Python) (cfg : Config) (b : Backend W) (s : Session) (P : W → Type 0)
    (c : Confined b s P) where
  engine-Keeps :
      (tool : String) (args : Fields)
      → CanUse s tool
      → Keeps (λ w l. P w) (act cbm_error (b.call_tool s.tenant tool args))
  engine-Keeps tool args u = Keeps-act _ _ (λ w l h. c.engine tool args w u h)

  model-Keeps :
      (system user : String) (n : ℕ)
      → Keeps (λ w l. P w) (act llm_error (b.complete s.tenant s.principal.username system user n))
  model-Keeps system user n = Keeps-act _ _ (λ w l h. c.model system user n w h)

  result_text-Keeps : (c : ToolResult) → Keeps (λ w l. P w) (result_text py cfg b c)
  unfolding result_text
  result_text-Keeps c = search keeps_rules

  explain_changes-Keeps :
      (project : Value) (changes : ToolResult)
      → Keeps (λ w l. P w) (explain_changes py cfg b s project changes)
  unfolding explain_changes
  explain_changes-Keeps project changes = search (keeps_rules, model-Keeps, result_text-Keeps)

  run_explain-Keeps :
      (args : Fields)
      → CanUse s "detect_changes"
      → Keeps (λ w l. P w) (run_explain_change_impact py cfg b s args)
  unfolding run_explain_change_impact
  run_explain-Keeps args u = search (keeps_rules, engine-Keeps, explain_changes-Keeps)

  run_ask-Keeps :
      (args : Fields)
      → CanUse s "get_architecture"
      → CanUse s "search_graph"
      → Keeps (λ w l. P w) (run_ask_codebase py cfg b s args)
  unfolding run_ask_codebase
  run_ask-Keeps args u v =
      search (keeps_rules, engine-Keeps, model-Keeps, result_text-Keeps) depth 12

  run_handler-Keeps :
      (name : String) (args : Fields)
      → In name smart_tool_names
      → ((tool : String) → In tool (requirements name) → CanUse s tool)
      → Keeps (λ w l. P w) (run_handler py cfg b s name args)
  unfolding run_handler
  run_handler-Keeps name args m needs =
      Keeps-if _ _ _
        (λ e.
          let same : explain_change_impact ≡ name = sym ((eq_iff name explain_change_impact).0 e) in
          run_explain-Keeps args (
            needs "detect_changes"
              (subst (λ n. In "detect_changes" (requirements n)) same explain_needs)))
        (λ e.
          let same : ask_codebase ≡ name = ground (arith, eq_iff name explain_change_impact) in
          let needed =
            subst (λ n. (tool : String) → In tool (requirements n) → CanUse s tool) (sym same)
              needs in
          run_ask-Keeps args (needed "get_architecture" ask_needs.1)
            (needed "search_graph" ask_needs.0))

  recall-Keeps :
      (name : String) (args : Fields) (event : AuditEvent) (hit : Option CacheHit)
      → In name smart_tool_names
      → ((tool : String) → In tool (requirements name) → CanUse s tool)
      → Keeps (λ w l. P w) (recall py cfg b s name args event hit)
  unfolding recall
  recall-Keeps name args event (some h) m needs = search keeps_rules
  recall-Keeps name args event none m needs =
      Keeps-bind _ _ (run_handler-Keeps name args m needs)
        (λ text. Keeps-act _ _ (λ w l h. c.stored name args text w h))

  smart_tool-Keeps :
      (name : String) (args : Fields) (event : AuditEvent)
      → In name smart_tool_names
      → ((tool : String) → In tool (requirements name) → CanUse s tool)
      → Keeps (λ w l. P w) (smart_tool py cfg b s name args event)
  unfolding smart_tool
  smart_tool-Keeps name args event m needs = record {
    at = λ st h.
        let (hit, w) = b.cache_lookup s.tenant s.principal.username name args st.world in
        (recall-Keeps name args event hit m needs).at (record st { world = w })
          (c.looked_up name args st.world h);
  }

  perform-Keeps :
      (name : String) (args : Fields) (event : AuditEvent)
      → MayCall cfg.llm_enabled s name
      → Keeps (λ w l. P w) (perform py cfg b s name args event)
  unfolding perform
  perform-Keeps name args event (may_smart m enabled capable needs) =
      rw ((contains_iff smart_tool_names name).1 m)
        (Keeps-bind _ _ (smart_tool-Keeps name args event m needs) (λ r. Keeps-pure _))
  perform-Keeps name args event (engine_tool plain u) =
      elim (Bool-cases (contains smart_tool_names name)) [
        | inl smart ↦ absurd (plain ((contains_iff smart_tool_names name).0 smart))
        | inr other ↦ rw other (Keeps-bind _ _ (engine-Keeps name args u) (λ r. Keeps-pure _))
      ]

  conclude-world :
      (name : String) (event : AuditEvent) (r : Result Failure (ToolResult × AuditEvent))
      (st : State W)
      → (conclude py cfg b s name event r st).1.world ≡ st.world
  unfolding conclude settle
  conclude-world name event (ok r) st = refl
  conclude-world name event (err (cbm_error m)) st = refl
  conclude-world name event (err e) st = refl

  -- Any property of the engine, the model and the cache that the session's own calls keep is kept by
  -- tools/call with any name and arguments; the session's own calls are engine calls for its squad
  -- of tools that it can use, completions, and the cache's two operations for its user and squad.
  pub call-keeps :
      (name : String) (args : Fields) (st : State W)
      → P st.world
      → P (call py cfg b s name args st).1.world
  unfolding call settle
  call-keeps name args st h =
      elim (Result-cases (authorize py.repr cfg.llm_enabled cfg.cbm_repo_root s name args)) [
        | inl (e, refused) ↦ rw (refused, call) h
        | inr (u, allowed) ↦
            let permitted =
              (authorize_iff py.repr cfg.llm_enabled cfg.cbm_repo_root s name args).0 allowed in
            rw (allowed, call)
              (rw conclude-world ((perform-Keeps name args _ permitted.tool).at st h))
      ]
