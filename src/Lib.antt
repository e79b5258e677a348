-- ===== src/Lib.antt =====
-- repo-mcp puts a code graph engine behind a gateway for the squads of a company. This library
-- models the parts of it that decide who may do what, and what is remembered.
--
-- A request comes to the gateway with the caller's LDAP groups. `build_session` (gateway/app/mcp.py)
-- finds the squad and the role, `McpRouter.handle` answers one JSON-RPC message, and every tool call
-- passes `_authorize` before it reaches the engine, the model or the answer cache. The indexer raises
-- a project's epoch after each index, which retires the answers of the earlier graph.
--
-- * Roles models gateway/app/roles.py: capabilities, roles, the capability of each tool, and
--   `resolve_role`. Roles.Precedence is about the role that a user gets.
-- * Glob is Python's `fnmatch.fnmatchcase`, after its documentation, on lists of code points;
--   Glob.Syntax says how a pattern is read and Glob.Matching what it selects, without that code.
-- * Tenants models gateway/app/tenants.py: `Tenant`, `TenantRegistry`, the tool profiles.
--   Tenants.Document is `from_dict` and `_parse_roles`, on documents as JSON values.
-- * Mcp models gateway/app/mcp.py, gateway/app/smart_tools.py and the record of
--   gateway/app/audit.py: Mcp.Session is `select_tenant` and `build_session`, Mcp.Authorize is
--   `_authorize` and `smart_tools_for`, Mcp.Calls is `_tools_call`, `_smart_tool` and the handlers,
--   Mcp.Router is `handle` and `_tools_list`. A call runs in a state that has the state of a backend,
--   which holds the engine, the model and the cache, and the log of what the gateway leaves behind:
--   audit records and counts. Exceptions are results.
-- * AnswerCache models common/repo_mcp_common/answer_cache.py on the tables `answer_cache` and
--   `project_index_state` of common/repo_mcp_common/models.py; AnswerCache.Gateway is
--   gateway/app/answer_cache.py. Times are whole seconds. Floating-point arithmetic, SHA-256, the
--   folding of case and the packing of vectors are parameters.
-- * Indexer models indexer/app/worker.py: `Indexer.enqueue` and the stretches of `Indexer._run`
--   between two awaits, as functions on one state, with the jobs that wait for a project's lock and
--   the jobs that hold it; Indexer.Queue has the step relation and Indexer.Retires is
--   about the answer cache at the end of an index. Indexer.Webhooks is
--   indexer/app/webhooks.py and the webhook route of indexer/app/main.py; Indexer.Discovery is
--   indexer/app/repos.py, `selected` of common/repo_mcp_common/providers.py and `BindingCache.refresh`;
--   Indexer.Triggers is the rescan and trigger routes.
-- * Configuration holds the tables of common/repo_mcp_common/models.py that an administrator changes.
--   Configuration.Admin is common/repo_mcp_common/admin.py, one function on the tables per change,
--   Configuration.Passwords is the policy of common/repo_mcp_common/passwords.py,
--   Configuration.Documents is the two documents that common/repo_mcp_common/store.py writes, and
--   Configuration.Store is its snapshot and the cache of gateway/app/configuration.py, on a database
--   that is a function of the time. Documents.Loads and Store.Calls join them with Tenants.
-- * Engine models gateway/app/cbm.py: a session with its process, `_ensure_started`, `_request` and
--   `call_tool`; Engine.Pool is `CbmPool`. What a process writes is arbitrary.
-- * Authentication models gateway/app/auth.py: `Authenticator.authenticate` with the cache of the
--   issuer's keys and the two rounds of `_verify`.
-- * Database models `Database.wait_until_ready` of common/repo_mcp_common/db.py, in half seconds. An
--   attempt to connect is a parameter, which takes time, fails, raises or never returns.
-- * ConnectorCheck models common/repo_mcp_common/connector_check.py: the discovery that a check runs, up
--   to a limit, on whatever the provider yields, and the result. ConnectorCheck.Reports is about it.
-- * ModelClient models gateway/app/llm.py: `complete`, `_chat`, `embed` and the choice of key and route.
--
-- Every loop of the code is over a list and is recursion on it, but for the wait for the database,
-- which has as much fuel as the deadline has half seconds, and two, since every round takes one at
-- least. Of JSON numbers only the natural ones are represented: a fraction is read only where it is
-- a setting, by `float`, which is a parameter, and stands there in a smaller unit. How Python
-- prints a value that is no text (`repr`) is a parameter, and so are `dict` of a value that is no
-- mapping and `json.dumps`.
--
-- Not modelled: the durations of audit records and the wording of errors, the routes and commands of
-- an administrator, errors of the database, the clients of the providers, the wording of replies, and
-- the console. A path is joined as text, where pathlib would also drop repeated slashes and dots; a
-- tool of the engine whose name is a list or a mapping, on which the gateway would raise, is one that
-- nobody can use.
mod Prelude
pub mod Roles
pub mod Glob
pub mod Tenants
pub mod Mcp
pub mod AnswerCache
pub mod Indexer
pub mod Configuration
pub mod Engine
pub mod Database
pub mod Authentication
pub mod ModelClient
pub mod ConnectorCheck
