-- ===== src/AnswerCache/Gateway.antt =====
-- gateway/app/answer_cache.py: the cache as the request path sees it. An exception of the database
-- is a missing result; the squad's embedding call is a parameter.
use repo_mcp.Prelude.{
  ℕ, String, Bool, Option, none, some, List, [], ◌∷◌, if◌then◌else◌, ◌==◌, ℕ_eq, String_eq,
}
use repo_mcp.Prelude.Text.{is_blank}
use repo_mcp.Prelude.Value.{Value, Fields, get, truthy, text_of}
use repo_mcp.Prelude.Result.{Result, ok, err}
use repo_mcp.AnswerCache.{
  QueryError, CacheKey, Hit, Db, Library, current_epoch, lookup_answer, store_answer,
}

pub record CacheSettings (F : Type 0) : Type 0 where
  pub answer_cache_enabled : Bool
  pub embedding_model : String
  pub threshold : F
  pub ttl_seconds : ℕ
  pub litellm_model : String

-- `CACHEABLE[tool](args)`
abbrev or_empty : (Value → String) → Option Value → String
or_empty repr none = ""
or_empty repr (some v) = if truthy v then text_of repr v else ""

unfoldable pub cacheable : (Value → String) → String → Fields → Option String
cacheable repr tool args =
    if tool == "ask_codebase" then some (or_empty repr (get "question" args)) else none

abbrev given : Option Value → Option Value
given none = none
given (some v) = if truthy v then some v else none

abbrev pub asked : (Value → String) → Option String → Option Value → Option (String × String)
asked repr none p = none
asked repr (some q) none = none
asked repr (some q) (some p) = if is_blank q then none else some (q, text_of repr p)

-- `applies`: the question and the project of a call that may be cached
unfoldable pub applies :
    {F : Type 0} → (Value → String) → CacheSettings F → String → Fields → Option (String × String)
applies repr cfg tool args =
    if cfg.answer_cache_enabled
    then asked repr (cacheable repr tool args) (given (get "project" args))
    else none

module _ {F : Type 0} (lib : Library F) (repr : Value → String) (embed : String → Option (List F))
    (cfg : CacheSettings F) where
  abbrev pub key_of : Db → String → String → String → CacheKey
  key_of db tenant project tool = record {
    tenant = tenant;
    project = project;
    tool = tool;
    epoch = current_epoch db tenant project;
  }

  abbrev pub try_embedding : String → Option (List F)
  try_embedding question = if cfg.embedding_model == "" then none else embed question

  -- the second lookup, with an embedding
  abbrev second :
      CacheKey → String → Option (List F) → ℕ → Db → Result QueryError (Option (Hit F) × Db)
  second key question none now db = ok (none, db)
  second key question (some v) now db =
      lookup_answer lib key question (some v) (some cfg.embedding_model) cfg.threshold
        cfg.ttl_seconds now db

  abbrev pub settled : Db → Result QueryError (Option (Hit F) × Db) → Option (Hit F) × Db
  settled before (ok r) = r
  settled before (err e) = (none, before)

  abbrev pub or_second :
      CacheKey
      → String
      → ℕ
      → Result QueryError (Option (Hit F) × Db)
      → Result QueryError (Option (Hit F) × Db)
  or_second key question now (err e) = err e
  or_second key question now (ok (some h, db)) = ok (some h, db)
  or_second key question now (ok (none, db)) = second key question (try_embedding question) now db

  unfoldable pub cache_lookup : String → String → Fields → ℕ → Db → Option (Hit F) × Db
  cache_lookup tenant tool args now db = elim (applies repr cfg tool args) [
    | none ↦ (none, db)
    | some (question, project) ↦
        let key = key_of db tenant project tool in
        settled db (
          or_second key question now
            (lookup_answer lib key question none none cfg.threshold cfg.ttl_seconds now db))
  ]

  abbrev pub model_of : Option (List F) → Option String
  model_of none = none
  model_of (some []) = none
  model_of (some (x ∷ xs)) = some cfg.embedding_model

  -- The key has the epoch of the time of the call.
  unfoldable pub cache_store : String → String → Fields → String → ℕ → Db → Db
  cache_store tenant tool args answer now db = elim (applies repr cfg tool args) [
    | none ↦ db
    | some (question, project) ↦
        let embedding = try_embedding question in
        let stored =
          store_answer lib (key_of db tenant project tool) question answer cfg.litellm_model
            embedding (model_of embedding) now db in
        if is_blank answer then db else stored
  ]
