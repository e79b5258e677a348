-- ===== src/Mcp/Audited.antt =====
-- Which audit records `_tools_call` leaves.
use mathlib.Core.List.{append_assoc}
use repo_mcp.Prelude.{
  ℕ, String, ◌≡◌, refl, subst, inl, inr, Option, none, some, List, [], ◌∷◌, ◌++◌, arith,
  if◌then◌else◌, Bool-cases, ℕ_eq, String_eq, contains,
}
use repo_mcp.Prelude.Value.{Value, Fields, get}
use repo_mcp.Prelude.Result.{Result, ok, err, Result-cases}
use repo_mcp.Mcp.Session.{Session}
use repo_mcp.Mcp.SmartTools.{smart_tool_names}
use repo_mcp.Mcp.Authorize.{authorize}
use repo_mcp.Mcp.Keeps.{
  Keeps, Keeps-act, keeps_rules, Post, Ends, Ends-pure, Ends-bind, Ends-act, Raises-pure,
  Raises-or_raise, Raises-act, Raises-if, Raises-bind,
}
use repo_mcp.Mcp.Calls.{
  text_reply, Failure, denied, cbm_error, llm_error, key_error, bad_request, ToolResult, CacheHit,
  AuditEvent, Effect, emitted, tool_calls, tool_label, Backend, State, Config, Python, M, or_raise,
  act, result_text, explain_changes, run_explain_change_impact, run_ask_codebase, run_handler,
  recall, smart_tool, perform, settle, conclude, new_event, call,
}

-- How the audit record names what became of the call.
abbrev pub outcome_of : Result Failure ToolResult → String
outcome_of (ok reply) = if reply.is_error then "tool_error" else "ok"
outcome_of (err (denied e)) = "denied"
outcome_of (err e) = "error"

-- The failures that `_tools_call` does not catch.
abbrev pub IsUncaught : Result Failure ToolResult → Type 0
IsUncaught (err (key_error k)) = Unit
IsUncaught (err bad_request) = Unit
IsUncaught _ = ⊥

-- The audit record is about this call.
pub record IsAbout (s : Session) (name : String) (e : AuditEvent) : Type 0 where
  pub principal : e.principal ≡ s.principal.username
  pub tenant : e.tenant ≡ s.tenant.name
  pub tool : e.tool ≡ name
  pub role : e.role ≡ s.role

module _ {W : Type 0} (py : Python) (cfg : Config) (b : Backend W) (s : Session)
    (l : List Effect) where
  abbrev Quiet : {A : Type 0} → M W A → Type 0
  Quiet m = Keeps (λ w k. k ≡ l) m

  act-Quiet :
      {A : Type 0} (error : String → Failure) (f : W → Result String A × W) → Quiet (act error f)
  act-Quiet error f = Keeps-act error f (λ w k h. h)

  result_text-Quiet : (c : ToolResult) → Quiet (result_text py cfg b c)
  unfolding result_text
  result_text-Quiet c = search keeps_rules

  explain_changes-Quiet : (p : Value) (c : ToolResult) → Quiet (explain_changes py cfg b s p c)
  unfolding explain_changes
  explain_changes-Quiet p c = search (keeps_rules, act-Quiet, result_text-Quiet)

  run_explain-Quiet : (args : Fields) → Quiet (run_explain_change_impact py cfg b s args)
  unfolding run_explain_change_impact
  run_explain-Quiet args = search (keeps_rules, act-Quiet, explain_changes-Quiet)

  run_ask-Quiet : (args : Fields) → Quiet (run_ask_codebase py cfg b s args)
  unfolding run_ask_codebase
  run_ask-Quiet args = search (keeps_rules, act-Quiet, result_text-Quiet) depth 12

  run_handler-Quiet : (name : String) (args : Fields) → Quiet (run_handler py cfg b s name args)
  unfolding run_handler
  run_handler-Quiet name args = search (keeps_rules, run_explain-Quiet, run_ask-Quiet)

  recall-Quiet :
      (name : String) (args : Fields) (e : AuditEvent) (hit : Option CacheHit)
      → Quiet (recall py cfg b s name args e hit)
  unfolding recall
  recall-Quiet name args e (some h) = search keeps_rules
  recall-Quiet name args e none = search (keeps_rules, run_handler-Quiet, act-Quiet)

  smart_tool-Quiet :
      (name : String) (args : Fields) (e : AuditEvent) → Quiet (smart_tool py cfg b s name args e)
  unfolding smart_tool
  smart_tool-Quiet name args e = record {
    at = λ st h.
        let (hit, w) = b.cache_lookup s.tenant s.principal.username name args st.world in
        (recall-Quiet name args e hit).at (record st { world = w }) h;
  }

  perform-Quiet :
      (name : String) (args : Fields) (e : AuditEvent) → Quiet (perform py cfg b s name args e)
  unfolding perform
  perform-Quiet name args e = search (keeps_rules, smart_tool-Quiet, act-Quiet)

-- Nothing behind the authorization refuses access.
abbrev pub IsOther : Failure → Type 0
IsOther (denied e) = ⊥
IsOther e = Unit

module _ {W : Type 0} (py : Python) (cfg : Config) (b : Backend W) (s : Session) where
  call_tool-IsOther :
      (t : String) (args : Fields)
      → Ends (λ r. Unit {0}) IsOther (act cbm_error (b.call_tool s.tenant t args))
  call_tool-IsOther t args = Raises-act _ _ (λ m. tt)

  complete-IsOther :
      (system user : String) (n : ℕ)
      → Ends
          (λ r. Unit {0})
          IsOther
          (act llm_error (b.complete s.tenant s.principal.username system user n))
  complete-IsOther system user n = Raises-act _ _ (λ m. tt)

  subscript-IsOther :
      (k : String) (args : Fields)
      → Ends (λ r. Unit {0}) IsOther (or_raise {W = W} (get k args) (key_error k))
  subscript-IsOther k args = Raises-or_raise _ _ tt

  result_text-IsOther : (c : ToolResult) → Ends (λ r. Unit {0}) IsOther (result_text py cfg b c)
  unfolding result_text
  result_text-IsOther c = Raises-bind _ _ (Raises-or_raise _ _ tt) (λ ts. Raises-pure _)

  explain_changes-IsOther :
      (p : Value) (c : ToolResult) → Ends (λ r. Unit {0}) IsOther (explain_changes py cfg b s p c)
  unfolding explain_changes
  explain_changes-IsOther p c =
      Raises-bind _ _ (result_text-IsOther c)
        (λ e. search (Raises-pure, Raises-if, complete-IsOther))

  run_explain-IsOther :
      (args : Fields) → Ends (λ r. Unit {0}) IsOther (run_explain_change_impact py cfg b s args)
  unfolding run_explain_change_impact
  run_explain-IsOther args =
      Raises-bind _ _ (subscript-IsOther "project" args)
        (λ p. Raises-bind _ _ (call_tool-IsOther _ _) (λ c. explain_changes-IsOther p c))

  run_ask-IsOther :
      (args : Fields) → Ends (λ r. Unit {0}) IsOther (run_ask_codebase py cfg b s args)
  unfolding run_ask_codebase
  run_ask-IsOther args = Raises-bind _ _ (subscript-IsOther "project" args) λ p.
      Raises-bind _ _ (subscript-IsOther "question" args) λ q.
        Raises-bind _ _ (call_tool-IsOther _ _) λ a. Raises-bind _ _ (call_tool-IsOther _ _) λ f.
          Raises-bind _ _ (result_text-IsOther a)
            λ g. Raises-bind _ _ (result_text-IsOther f) λ t. complete-IsOther _ _ _

  run_handler-IsOther :
      (name : String) (args : Fields)
      → Ends (λ r. Unit {0}) IsOther (run_handler py cfg b s name args)
  unfolding run_handler
  run_handler-IsOther name args = Raises-if _ _ _ (run_explain-IsOther args) (run_ask-IsOther args)

  -- About this call, with the outcome so far.
  abbrev Marked : String → String → AuditEvent → Type 0
  Marked name outcome e = IsAbout s name e × (e.outcome ≡ outcome)

  recall-Marked :
      (name : String) (args : Fields) (outcome : String) (e : AuditEvent) (hit : Option CacheHit)
      → Marked name outcome e
      → Ends
          (λ (r : String × AuditEvent). Marked name outcome r.1)
          IsOther
          (recall py cfg b s name args e hit)
  unfolding recall
  recall-Marked name args outcome e (some h) about = Ends-pure _ (ground arith)
  recall-Marked name args outcome e none about =
      Ends-bind _ _ (run_handler-IsOther name args)
        (λ text u. Ends-act _ _ (λ w r h. ground arith) (λ m. tt))

  smart_tool-Marked :
      (name : String) (args : Fields) (outcome : String) (e : AuditEvent)
      → Marked name outcome e
      → Ends
          (λ (r : String × AuditEvent). Marked name outcome r.1)
          IsOther
          (smart_tool py cfg b s name args e)
  unfolding smart_tool
  smart_tool-Marked name args outcome e about = record {
    at = λ st.
        let (hit, w) = b.cache_lookup s.tenant s.principal.username name args st.world in
        (recall-Marked name args outcome e hit about).at (record st { world = w });
  }

  perform-Marked :
      (name : String) (args : Fields) (e : AuditEvent)
      → Marked name "ok" e
      → Ends
          (λ (r : ToolResult × AuditEvent). Marked name (outcome_of (ok r.0)) r.1)
          IsOther
          (perform py cfg b s name args e)
  unfolding perform text_reply
  perform-Marked name args e about = elim (Bool-cases (contains smart_tool_names name)) [
    | inl smart ↦
        rw smart (
          Ends-bind _ _ (smart_tool-Marked name args "ok" e about) (λ r marked. Ends-pure _ marked))
    | inr other ↦
        rw other
          (Ends-bind _ _ (call_tool-IsOther name args) (λ reply u. Ends-pure _ (ground arith)))
  ]

  -- The call left one audit record, which names it and its outcome, one count under that outcome, and
  -- nothing else.
  pub record Audited (name : String) (before after : List Effect) (r : Result Failure ToolResult)
      : Type 0 where
    pub event : AuditEvent
    pub appended :
        after
        ≡ before
          ++ emitted event
            ∷ tool_calls (tool_label py cfg b name) s.tenant.name s.role (outcome_of r)
            ∷ []
    pub about : IsAbout s name event
    pub outcome : event.outcome ≡ outcome_of r

  settle-log :
      (name : String) (e : AuditEvent) (st : State W)
      → (settle py cfg b s name e st).log
        ≡ st.log
          ++ emitted e ∷ tool_calls (tool_label py cfg b name) s.tenant.name s.role e.outcome ∷ []
  unfolding settle
  settle-log name e st = append_assoc st.log (emitted e ∷ []) _

  conclude-Audited :
      (name : String) (e : AuditEvent) (r : Result Failure (ToolResult × AuditEvent)) (st : State W)
      → Post (λ (p : ToolResult × AuditEvent). Marked name (outcome_of (ok p.0)) p.1) IsOther r
      → IsAbout s name e
      → ¬ IsUncaught (conclude py cfg b s name e r st).0
      → Audited name st.log
          (conclude py cfg b s name e r st).1.log
          (conclude py cfg b s name e r st).0
  unfolding conclude
  conclude-Audited name e (ok (reply, e')) st marked about caught = record {
    event = e';
    appended = rw (← marked.1) (settle-log name e' st);
    about = marked.0;
    outcome = marked.1;
  }
  conclude-Audited name e (err (cbm_error m)) st marked about caught = record {
    event = record e { outcome = "error"; reason = some (cbm_error m) };
    appended = settle-log name _ st;
    about = ground arith;
    outcome = refl;
  }
  conclude-Audited name e (err (llm_error m)) st marked about caught = record {
    event = record e { outcome = "error"; reason = some (llm_error m) };
    appended = settle-log name _ st;
    about = ground arith;
    outcome = refl;
  }
  conclude-Audited name e (err (key_error k)) st marked about caught = absurd (caught tt)
  conclude-Audited name e (err bad_request) st marked about caught = absurd (caught tt)
  conclude-Audited name e (err (denied a)) st marked about caught = absurd marked

  perform-Audited :
      (name : String) (args : Fields) (e : AuditEvent) (st : State W)
      → Marked name "ok" e
      → (let (r, st') = perform py cfg b s name args e st in
          let (r', st'') = conclude py cfg b s name e r st' in
          ¬ IsUncaught r' → Audited name st.log st''.log r')
  perform-Audited name args e st marked caught =
      let (r, st') = perform py cfg b s name args e st in
      let (r', st'') = conclude py cfg b s name e r st' in
      subst (λ l. Audited name l st''.log r')
        ((perform-Quiet py cfg b s st.log name args e).at st refl)
        (conclude-Audited name e r st' ((perform-Marked name args e marked).at st) marked.0 caught)

  -- Every tools/call whose result is not a failure that the code lets through appends one audit record
  -- and then one count to the log, and nothing else; the record names the user, the squad, the tool
  -- and the role, the count the tool's label, the squad and the role, and the outcome of both is that
  -- of the result.
  pub call-Audited :
      (name : String) (args : Fields) (st : State W)
      → ¬ IsUncaught (call py cfg b s name args st).0
      → Audited name st.log (call py cfg b s name args st).1.log (call py cfg b s name args st).0
  unfolding call new_event
  call-Audited name args st caught =
      elim (Result-cases (authorize py.repr cfg.llm_enabled cfg.cbm_repo_root s name args)) [
        | inl (e, refused) ↦
            rw (refused, call)
              (record {
                event = record (new_event py cfg b s name args) {
                  outcome = "denied";
                  reason = some (denied e);
                };
                appended = settle-log name _ st;
                about = ground arith;
                outcome = refl;
              })
        | inr (u, allowed) ↦
            rw (allowed, call)
              (perform-Audited name args _ st (ground arith) (rw (allowed, call) at caught))
      ]
