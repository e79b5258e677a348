-- ===== src/ConnectorCheck/Tests.antt =====
-- The check of a connector that sees three repositories, of which its patterns select one.
use repo_mcp.Prelude.{
  String, ◌≡◌, refl, ◌↔◌, true, false, some, List, [], ◌∷◌, arith, any, ℕ_eq, String_eq,
}
use repo_mcp.Glob.{fnmatchcase}
use repo_mcp.Indexer.Discovery.{DiscoveredRepo, selected}
use repo_mcp.ConnectorCheck.{finished, timed_out, yields, check_connector, enumerate, note, report}
use repo_mcp.ConnectorCheck.Reports.{Works, check_connector_iff, Reported, check_connector-Reported}

abbrev repo_named : String → DiscoveredRepo
repo_named name = record {
  full_name = name;
  clone_url = "https://git";
  default_branch = "main";
  archived = false;
  empty = false;
}

abbrev seen : List DiscoveredRepo
seen =
    repo_named "acme/pay-api"
    ∷ record (repo_named "acme/pay-old") { archived = true }
    ∷ repo_named "acme/site"
    ∷ []

abbrev includes : List String
includes = "pay-*" ∷ []

works_test : (check_connector (some "t") (yields seen finished) includes [] 200).works ≡ true
unfolding check_connector enumerate note report selected any fnmatchcase
works_test = refl

cut_test : (check_connector (some "t") (yields seen timed_out) includes [] 2).truncated ≡ true
unfolding check_connector enumerate note report selected any fnmatchcase
cut_test = refl

check_connector_iff_example :
    ((check_connector (some "t") (yields seen finished) includes [] 200).works ≡ true)
    ↔ Works (some "t") (yields seen finished) includes [] 200
check_connector_iff_example =
    check_connector_iff (some "t") (yields seen finished) includes [] 200 (omega arith)

check_connector-Reported_example :
    Reported includes [] 200 seen
      (check_connector (some "t") (yields seen finished) includes [] 200)
check_connector-Reported_example =
    check_connector-Reported "t" seen finished includes [] 200 (omega arith) works_test
