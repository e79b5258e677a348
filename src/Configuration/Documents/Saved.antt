-- ===== src/Configuration/Documents/Saved.antt =====
-- The gateway's registry after changes of an administrator: common/repo_mcp_common/admin.py and
-- store.py, and gateway/app/tenants.py.
use repo_mcp.Prelude.{◌≡◌, List, String}
use repo_mcp.Prelude.Value.{Value}
use repo_mcp.Prelude.Result.{ok}
use repo_mcp.Tenants.Document.{from_dict}
use repo_mcp.Configuration.Passwords.{Hasher}
use repo_mcp.Configuration.Admin.Actions.{Action, run, fresh_tables}
use repo_mcp.Configuration.Documents.{tenants_document}
use repo_mcp.Configuration.Documents.Kept.{run-Valid, fresh-Valid}
use repo_mcp.Configuration.Documents.Loads.{registry_of, from_dict-tenants_document}

-- Whatever changes administrators make from empty tables, refused ones included, the document that
-- the store writes from the tables is one that the gateway loads, and the registry it loads is that
-- of the tables: the enabled squads by name with their sorted groups and projects, their profile and
-- denied tools, and no key of the model gateway, and the groups of each role.
pub from_dict-run :
    (repr : Value → String) (lower : String → String) (hasher : Hasher) (encrypt : String → String)
    (changes : List (Action × String))
    → let db = run lower hasher encrypt changes fresh_tables in
      from_dict repr (tenants_document db) ≡ ok (registry_of db)
from_dict-run repr lower hasher encrypt changes =
    from_dict-tenants_document repr (run lower hasher encrypt changes fresh_tables)
      (run-Valid lower hasher encrypt changes fresh_tables fresh-Valid)
