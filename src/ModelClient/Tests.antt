-- ===== src/ModelClient/Tests.antt =====
-- gateway/app/llm.py with a proxy that is down and a model that answers.
use repo_mcp.Prelude.Value.{get, truthy}
use repo_mcp.ModelClient.{chat_route, trimmed, chat, content_of}
use repo_mcp.Prelude.{
  String, ◌≡◌, refl, ◌⊎◌, true, false, Option, some, none, List, [], ◌∷◌, if◌then◌else◌, ◌==◌,
  String_eq,
}
use repo_mcp.Prelude.Value.{Value, str, arr, obj, cons, nil, field, end}
use repo_mcp.Prelude.Result.{ok}
use repo_mcp.Tenants.{Tenant, scout}
use repo_mcp.ModelClient.{
  LlmSettings, Reply, lost, answered, Post, Wire, api_key, payload_of, complete,
}
use repo_mcp.ModelClient.Posted.{Due, Posted, complete-Posted}

abbrev squad : Tenant
squad = record {
  name = "pay";
  ldap_groups = "pay-devs" ∷ [];
  tool_profile = scout;
  projects = "pay-*" ∷ [];
  structural_only = false;
  denied_tools = [];
  litellm_key_env = some "PAY_KEY";
}

abbrev environment : String → Option String
environment name = if name == "PAY_KEY" then some "k-pay" else none

abbrev settings : LlmSettings
settings = record {
  smart_tools_enabled = true;
  litellm_base_url = "http://llm/";
  litellm_api_key = "k-shared";
  litellm_model = "m";
  headroom_enabled = true;
  headroom_base_url = "http://proxy";
  headroom_fallback = true;
}

abbrev reply_body : Value
reply_body = obj (
    field "choices"
      (arr (cons (obj (field "message" (obj (field "content" (str "yes") end)) end)) nil)) end)

abbrev serving : List Post → Post → Reply
serving before p = if p.address == "http://llm" then answered 200 (some reply_body) else lost

abbrev idle : Wire
idle = record { posts = []; calls = []; fallbacks = 0 }

answers : (complete serving settings environment squad "ada" "s" "u" 100 idle).0 ≡ ok (str "yes")
unfolding complete api_key chat_route trimmed chat content_of get truthy
answers = refl

complete-Posted_example :
    let w' = (complete serving settings environment squad "ada" "s" "u" 100 idle).1 in
    (w'.posts ≡ idle.posts)
    ⊎ ((key : String) × Due settings environment squad key
        × Posted serving settings key (payload_of serving settings squad "ada" "s" "u" 100) idle w')
complete-Posted_example = complete-Posted serving settings environment squad "ada" "s" "u" 100 idle
