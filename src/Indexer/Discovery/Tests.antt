-- ===== src/Indexer/Discovery/Tests.antt =====
-- A connector and its repositories, on which the results about discovery are run.
use repo_mcp.Prelude.{
  ◌≡◌, refl, true, false, none, some, [], ◌∷◌, ℕ_eq, String_eq, any, lookup, insert,
}
use repo_mcp.Prelude.Value.{end}
use repo_mcp.Indexer.Discovery.{
  DiscoveredRepo, Connector, Discover, project_name, hyphenate, trim_left, trim_right, is_safe,
  refresh, add_connectors, add_repos, connector_matches, selected, bind,
}
use repo_mcp.Indexer.Discovery.Bound.{From, refresh-From}
use repo_mcp.Indexer.Discovery.Names.{IsSafe, project_name-IsSafe}
use repo_mcp.Glob.{fnmatchcase}

abbrev connector : Connector
connector = record {
  name = "github";
  kind = "github";
  tenant = "payments";
  raw = end;
  secret_env = "";
  token = some "t";
  include = "acme/*" ∷ [];
  exclude = [];
  mode = "moderate";
  persistence = true;
  schedule_cron = none;
}

abbrev api : DiscoveredRepo
api = record {
  full_name = "acme/api";
  clone_url = "https://git/acme/api";
  default_branch = "main";
  archived = false;
  empty = false;
}

abbrev discover : Discover
discover c = some (api ∷ [])

refresh-From_example :
    From "/repos" discover (connector ∷ []) "acme/api" (bind "/repos" connector api)
unfolding refresh add_connectors add_repos connector_matches selected any fnmatchcase insert lookup
refresh-From_example =
    refresh-From "/repos" discover (connector ∷ []) "acme/api" (bind "/repos" connector api) refl

project_name-IsSafe_example : IsSafe (project_name "acme/backend/payments api")
project_name-IsSafe_example = project_name-IsSafe "acme/backend/payments api"

-- Two repositories may get one name.
names_test :
    (project_name "acme/api" ≡ "acme-api") × (project_name "acme/api" ≡ project_name "acme-api")
unfolding project_name hyphenate trim_left trim_right is_safe
names_test = (refl, refl)
