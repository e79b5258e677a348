-- ===== src/Configuration/Tests.antt =====
-- Runs of common/repo_mcp_common/admin.py and store.py on small tables: an administrator makes a
-- squad, its roles and a connector.
use repo_mcp.Prelude.{
  contains, find, ◌≡◌, refl, ℕ, All, true, false, lookup, String, Option, none, some, List, [], ◌∷◌,
  ◌==◌, ℕ_eq, String_eq,
}
use repo_mcp.Prelude.Value.{get, Value, num, str, end, field}
use repo_mcp.Prelude.Result.{ok, err}
use repo_mcp.Configuration.Documents.{
  update_fields, set_field, tenants_document, scan_document, connector_entry, plain_entry,
}
use repo_mcp.Configuration.{row_named, put_row, ConnectorRow, Tables, All, lookup}
use repo_mcp.Configuration.Admin.{
  upsert_tenant, clash, bump_generation, delete_tenant, upsert_connector, set_role_groups,
  record_entry, tenant_row, put_secret, connector_row, TenantInput, ConnectorInput,
}
use repo_mcp.Tenants.Document.{from_dict}
use repo_mcp.Indexer.Discovery.{scan_config, no_connectors}
use repo_mcp.Configuration.Admin.Actions.{apply, Action, run, fresh_tables}
use repo_mcp.Configuration.Admin.Traced.{Traced, apply-Traced}
use repo_mcp.Configuration.Documents.Loads.{registry_of}
use repo_mcp.Configuration.Documents.Saved.{from_dict-run}
use repo_mcp.Configuration.Documents.Connectors.{scan_config-none}
use repo_mcp.Configuration.Store.{decrypt_rows, Reads}
use repo_mcp.Configuration.Store.History.{after_changes}
use repo_mcp.Configuration.Store.Calls.{Event, asked_at}
use repo_mcp.Configuration.Store.Secrets.{decrypt_rows-put_secret}
use repo_mcp.Configuration.Passwords.{Hasher}

abbrev itself : String → String
itself s = s

abbrev no_repr : Value → String
no_repr v = "?"

abbrev opened : String → Option String
opened s = some s

abbrev plain_hasher : Hasher
plain_hasher = record { hash = itself; checks = λ h p. h == p; dummy = "!" }

abbrev pay_input : TenantInput
pay_input = record {
  name = "pay";
  ldap_groups = "pay-devs" ∷ "pay-ops" ∷ "pay-devs" ∷ [];
  projects = "pay-*" ∷ [];
  tool_profile = "scout";
  structural_only = true;
  denied_tools = none;
  litellm_key_secret = some "pay-key";
  enabled = true;
}

abbrev pay_connector : ConnectorInput
pay_connector = record {
  name = "forge";
  provider = "github";
  tenant = "pay";
  settings = field "org" (str "acme") (field "tenant" (str "core") end);
  token_secret = none;
  include = none;
  exclude = none;
  mode = "full";
  persistence = true;
  enabled = false;
}

abbrev changes : List (Action × String)
changes =
    (Action.squad pay_input, "root")
    ∷ (Action.role_groups "lead" ("pay-ops" ∷ []), "root")
    ∷ (Action.repository pay_connector, "root")
    ∷ (Action.no_squad "core", "root")
    ∷ []

abbrev changed : Tables
changed = run itself plain_hasher itself changes fresh_tables

from_dict-run_example : from_dict no_repr (tenants_document changed) ≡ ok (registry_of changed)
from_dict-run_example = from_dict-run no_repr itself plain_hasher itself changes

apply_pay :
    apply itself plain_hasher itself (Action.squad pay_input) "root" fresh_tables
    ≡ ok (run itself plain_hasher itself ((Action.squad pay_input, "root") ∷ []) fresh_tables)
unfolding apply upsert_tenant contains clash run bump_generation
apply_pay = refl

apply-Traced_example :
    Traced true "root" fresh_tables
      (run itself plain_hasher itself ((Action.squad pay_input, "root") ∷ []) fresh_tables)
apply-Traced_example =
    apply-Traced itself plain_hasher itself (Action.squad pay_input) "root" fresh_tables _ apply_pay

none_enabled : All (λ (c : ConnectorRow). c.enabled ≡ false) changed.connectors
unfolding run apply delete_tenant row_named find upsert_connector contains set_role_groups
    bump_generation record_entry upsert_tenant clash put_row tenant_row connector_row
none_enabled = (refl, tt)

scan_config-none_example : scan_config no_repr itself [] (scan_document changed) ≡ err no_connectors
scan_config-none_example = scan_config-none no_repr itself [] changed none_enabled

forge : ConnectorRow
forge = connector_row pay_connector

-- The settings name another squad than the one that the connector belongs to.
overridden : get "tenant" (connector_entry forge) ≡ some (str "core")
unfolding get connector_entry update_fields forge connector_row set_field plain_entry
overridden = refl

decrypt_rows-put_secret_example :
    lookup "token"
      (decrypt_rows opened (put_secret itself "token" "s3cret" "root" none fresh_tables).secrets [])
    ≡ some "s3cret"
decrypt_rows-put_secret_example =
    decrypt_rows-put_secret itself opened "token" "s3cret" "root" none fresh_tables (λ t. refl) tt

abbrev calls : List Event
calls = asked_at 0 0 1 1 ∷ asked_at 2 2 2 2 ∷ asked_at 7 8 9 9 ∷ []

-- a fraction is given in hundredths
abbrev default_settings : List (String × Value)
default_settings =
    ("litellm.timeout_seconds", num 9000)
    ∷ ("engine.idle_timeout_seconds", num 90000)
    ∷ ("engine.call_timeout_seconds", num 12000)
    ∷ ("answer_cache.similarity_threshold", num 95)
    ∷ ("answer_cache.ttl_seconds", num 60480000)
    ∷ []

abbrev float_of : Value → Option ℕ
float_of (num n) = some n
float_of v = none

abbrev reads : Reads ℕ
reads = record {
  repr = no_repr;
  to_float = float_of;
  oidc_issuer = "https://sso";
  oidc_audience = "repo-mcp";
  oidc_groups_claim = "groups";
  oidc_browser_client_id = "";
  oidc_browser_scopes = "openid";
  ui_language = "auto";
}

abbrev changing : ℕ → Tables
changing = after_changes itself plain_hasher itself changes fresh_tables
