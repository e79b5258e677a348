-- ===== src/Mcp/SmartTools.antt =====
-- gateway/app/smart_tools.py: the names of the composite tools and the engine tools that each needs.
use repo_mcp.Prelude.{String, none, some, List, [], ◌∷◌, ℕ_eq, String_eq, lookup}

abbrev pub explain_change_impact : String
explain_change_impact = "explain_change_impact"

abbrev pub ask_codebase : String
ask_codebase = "ask_codebase"

abbrev pub smart_tool_names : List String
smart_tool_names = explain_change_impact ∷ ask_codebase ∷ []

abbrev pub smart_tool_requirements : List (String × List String)
smart_tool_requirements =
    (explain_change_impact, "detect_changes" ∷ [])
    ∷ (ask_codebase, "search_graph" ∷ "get_architecture" ∷ [])
    ∷ []

-- `SMART_TOOL_REQUIREMENTS[name]`, asked only for a name in `SMART_TOOL_NAMES`
unfoldable pub requirements : String → List String
requirements name = elim (lookup name smart_tool_requirements) [ none ↦ [] | some needs ↦ needs ]
