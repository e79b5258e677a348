-- ===== src/Indexer/Webhooks/Tests.antt =====
-- A push of each kind, on which the results about webhooks are run.
use repo_mcp.Prelude.{
  String, ◌≡◌, refl, ◌⊎◌, true, false, some, [], ◌∷◌, ℕ_eq, String_eq, contains, lookup,
}
use repo_mcp.Prelude.Text.{◌<>◌, char_count}
use repo_mcp.Prelude.Value.{Value, str, arr, obj, nil, cons, end, field, get, truthy}
use repo_mcp.Prelude.Result.{ok}
use repo_mcp.Indexer.{Binding, Indexer, enqueue}
use repo_mcp.Indexer.Webhooks.{
  Headers, Bindings, webhook, on_default, verify_and_parse, verify_signature, parse_push,
  parse_bitbucket, handle_event, route, accept, is_deletion, lookup_binding, queued, other_branch,
  ends_with,
}
use repo_mcp.Indexer.Webhooks.Accepted.{Accepted, webhook-Accepted, on_default-plain}

abbrev api : Binding
api = record {
  full_name = "acme/api";
  project = "acme-api";
  tenant = "payments";
  clone_url = "https://git/acme/api";
  default_branch = "main";
  workdir = "/repos/payments/acme-api";
  mode = "moderate";
  persistence = true;
}

abbrev idle : Indexer
idle = record {
  queue = [];
  pending = [];
  taken = [];
  active = [];
  last_results = [];
  db = record { entries = []; states = []; next_id = 0 };
}

abbrev repr : Value → String
repr v = "?"

abbrev hmac : String → String → String
hmac secret body = secret <> body

abbrev signed_headers : Headers
signed_headers = record {
  github_sig = some "sha256=kb";
  bitbucket_sig = some "sha256=kb";
  gitlab_token = some "k";
}

abbrev repository : Value
repository = obj (field "full_name" (str "acme/api") end)

abbrev github_push : Value
github_push = obj (
    field "repository" repository
      (field "after" (str "c1") (field "ref" (str "refs/heads/main") end)))

abbrev bitbucket_push : Value
bitbucket_push =
    let target = obj (field "hash" (str "c1") end) in
    let new = obj (field "name" (str "main") (field "target" target end)) in
    let changes = arr (cons (obj (field "new" new end)) nil) in
    obj (field "repository" repository (field "push" (obj (field "changes" changes end)) end))

abbrev known : Bindings
known = ("acme/api", api) ∷ []

webhook-Accepted_example :
    ((webhook repr hmac known [] "github" "b" "k" signed_headers github_push idle).1 ≡ idle)
    ⊎ Accepted repr hmac known [] "github" "b" "k" signed_headers github_push idle
        (webhook repr hmac known [] "github" "b" "k" signed_headers github_push idle).1
webhook-Accepted_example =
    webhook-Accepted repr hmac known [] "github" "b" "k" signed_headers github_push idle

on_default-plain_example : on_default (str "main") api ≡ ok false
on_default-plain_example = on_default-plain api (λ e. cc)

-- The same push of the default branch is queued for GitHub and ignored for Bitbucket.
webhook_tests :
    ((webhook repr hmac known [] "github" "b" "k" signed_headers github_push idle).0
      ≡ queued true "acme-api")
    × ((webhook repr hmac known [] "bitbucket" "b" "k" signed_headers bitbucket_push idle).0
        ≡ other_branch)
unfolding webhook handle_event route accept verify_and_parse verify_signature parse_push
    parse_bitbucket is_deletion lookup_binding lookup on_default ends_with char_count get truthy
    enqueue contains
webhook_tests = (refl, refl)
