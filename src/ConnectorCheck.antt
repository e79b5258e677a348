-- ===== src/ConnectorCheck.antt =====
-- common/repo_mcp_common/connector_check.py: the bounded discovery that tells an administrator whether a
-- connector works. What the provider's client yields is a parameter: repositories one after another, and
-- then an end, which may be an error or the time limit. The wording of the reasons is a constructor each.
pub mod Counted
pub mod Reports
mod Tests
use repo_mcp.Prelude.{
  ℕ, suc, String, Bool, true, false, not, ◌&&◌, Option, none, some, List, [], ◌∷◌, ◌++◌, ltb, leb,
  nat_eq, if◌then◌else◌, ◌||◌, ◌==◌, String_eq, length, is_empty, ℕ_eq,
}
use repo_mcp.Prelude.Result.{Result, ok, err}
use repo_mcp.Indexer.Discovery.{DiscoveredRepo, selected}

-- `_explain_status`
pub data StatusReason : Type 0 where
  token_refused no_container rate_limited : StatusReason
  provider_error refused : ℕ → StatusReason

unfoldable pub explain_status : ℕ → StatusReason
explain_status status =
    if nat_eq status 401 || nat_eq status 403
    then token_refused
    else if nat_eq status 404
    then no_container
    else if nat_eq status 429
    then rate_limited
    else if leb 500 status
    then provider_error status
    else refused status

pub data Reason : Type 0 where
  no_token no_answer no_repositories none_kept : Reason
  missing_setting wrong_setting unreachable : String → Reason
  status_reason : StatusReason → Reason

-- How the client's enumeration ends: by itself, at the time limit, or with an HTTP error.
pub data Ending : Type 0 where
  finished timed_out : Ending
  http_status : ℕ → Ending
  http_error : String → Ending

-- What `build_provider` gives: a `KeyError`, a `ValueError`, or a client.
pub data Client : Type 0 where
  lacks unusable : String → Client
  yields : List DiscoveredRepo → Ending → Client

-- the variables of the loop
pub record Tally : Type 0 where
  pub discovered : ℕ
  pub matched : ℕ
  pub skipped : ℕ
  pub sample : List String
  pub excluded : List String

-- `CheckResult`
pub record CheckResult : Type 0 where
  pub works : Bool
  pub reason : Option Reason
  pub discovered : ℕ
  pub matched : ℕ
  pub skipped : ℕ
  pub truncated : Bool
  pub sample : List String
  pub excluded : List String

abbrev pub shown : ℕ
shown = 10

-- a name is carried back while there is room
abbrev pub show : List String → String → List String
show names name = if ltb (length names) shown then names ++ name ∷ [] else names

abbrev pub is_indexable : DiscoveredRepo → Bool
is_indexable repo = not repo.archived && not repo.empty

module _ (include exclude : List String) where
  -- the body of the loop, before the test of the limit
  unfoldable pub note : DiscoveredRepo → Tally → Tally
  note repo t =
      if not (is_indexable repo)
      then record t { discovered = suc t.discovered; skipped = suc t.skipped }
      else if selected repo.full_name include exclude
      then record t {
        discovered = suc t.discovered;
        matched = suc t.matched;
        sample = show t.sample repo.full_name;
      }
      else record t { discovered = suc t.discovered; excluded = show t.excluded repo.full_name }

  abbrev ended : Ending → Tally → Result Reason (Tally × Bool)
  ended finished t = ok (t, false)
  ended timed_out t = err no_answer
  ended (http_status n) t = err (status_reason (explain_status n))
  ended (http_error message) t = err (unreachable message)

  -- the loop; the flag is `truncated`
  unfoldable pub enumerate : ℕ → List DiscoveredRepo → Ending → Tally → Result Reason (Tally × Bool)
  enumerate limit [] ending t = ended ending t
  enumerate limit (repo ∷ repos) ending t =
      let t' = note repo t in
      let rest = enumerate limit repos ending t' in
      if leb limit t'.discovered then ok (t', true) else rest

abbrev pub fault : Reason → CheckResult
fault reason = record {
  works = false;
  reason = some reason;
  discovered = 0;
  matched = 0;
  skipped = 0;
  truncated = false;
  sample = [];
  excluded = [];
}

-- what follows the loop
unfoldable pub report : Result Reason (Tally × Bool) → CheckResult
report (err reason) = fault reason
report (ok (t, truncated)) =
    if nat_eq t.discovered 0
    then fault no_repositories
    else if nat_eq t.matched 0
    then record {
      works = false;
      reason = some none_kept;
      discovered = t.discovered;
      matched = 0;
      skipped = t.skipped;
      truncated = truncated;
      sample = [];
      excluded = t.excluded;
    }
    else record {
      works = true;
      reason = none;
      discovered = t.discovered;
      matched = t.matched;
      skipped = t.skipped;
      truncated = truncated;
      sample = t.sample;
      excluded = t.excluded;
    }

abbrev pub no_tally : Tally
no_tally = record { discovered = 0; matched = 0; skipped = 0; sample = []; excluded = [] }

-- `tuple(include) or ("*",)`
abbrev pub included : List String → List String
included include = if is_empty include then "*" ∷ [] else include

abbrev pub check_client : List String → List String → ℕ → Client → CheckResult
check_client include exclude limit (lacks setting) = fault (missing_setting setting)
check_client include exclude limit (unusable message) = fault (wrong_setting message)
check_client include exclude limit (yields repos ending) =
    report (enumerate (included include) exclude limit repos ending no_tally)

-- `check_connector`; no token is one that is missing or empty
unfoldable pub check_connector :
    Option String → Client → List String → List String → ℕ → CheckResult
check_connector none client include exclude limit = fault no_token
check_connector (some token) client include exclude limit =
    if token == "" then fault no_token else check_client include exclude limit client
