-- ===== src/AnswerCache/RoundTrip.antt =====
-- An answer that the gateway stores is the one that it recalls.
use repo_mcp.Prelude.{
  ℕ, ◌+◌, ◌-◌, ◌≤◌, String, ◌≡◌, refl, ◌⊎◌, false, Option, none, some, List, ℕ_eq, String_eq,
}
use repo_mcp.Prelude.Text.{is_blank}
use repo_mcp.Prelude.Value.{Value, Fields}
use repo_mcp.Prelude.Result.{Result, ok, err}
use repo_mcp.AnswerCache.{QueryError, Db, Library, current_epoch, store_answer, lookup_answer}
use repo_mcp.AnswerCache.Stored.{answered, lookup-store}
use repo_mcp.AnswerCache.Gateway.{
  CacheSettings, applies, key_of, cache_lookup, cache_store, model_of, try_embedding, settled,
  or_second,
}

answered-ok :
    {A : Type 0} (r : Result QueryError (A × Db)) (a : A)
    → answered r ≡ ok a
    → (db : Db) × (r ≡ ok (a, db))
answered-ok (ok (b, db)) a h = (db, cc)
answered-ok (err e) a h = cc

module _ {F : Type 0} (lib : Library F) (repr : Value → String) (embed : String → Option (List F))
    (cfg : CacheSettings F) where
  cache_store-stores :
      (tenant tool : String) (args : Fields) (answer question project : String) (now : ℕ) (db : Db)
      → applies repr cfg tool args ≡ some (question, project)
      → is_blank answer ≡ false
      → cache_store lib repr embed cfg tenant tool args answer now db
        ≡ store_answer lib
            (key_of lib repr embed cfg db tenant project tool)
            question
            answer
            cfg.litellm_model
            (try_embedding lib repr embed cfg question)
            (model_of lib repr embed cfg (try_embedding lib repr embed cfg question))
            now
            db
  unfolding cache_store
  cache_store-stores tenant tool args answer question project now db asks full =
      rw (asks, cache_store) (rw full refl)

  -- The same key, as storing leaves the epochs as they are.
  cache_lookup-is :
      (tenant tool : String) (args : Fields) (question project : String) (now : ℕ) (db : Db)
      → applies repr cfg tool args ≡ some (question, project)
      → cache_lookup lib repr embed cfg tenant tool args now db ≡ (
          let key = key_of lib repr embed cfg db tenant project tool in
          settled lib repr embed cfg db (
            or_second lib repr embed cfg key question now
              (lookup_answer lib key question none none cfg.threshold cfg.ttl_seconds now db)))
  unfolding cache_lookup
  cache_lookup-is tenant tool args question project now db asks = rw (asks, cache_lookup) refl

  -- What the gateway stores for a call to which the cache applies, with an answer that is not blank,
  -- the same call recalls as an exact match within the time to live.
  pub cache_lookup-cache_store :
      (tenant tool : String) (args : Fields) (answer question project : String) (now later : ℕ)
      (db : Db)
      → applies repr cfg tool args ≡ some (question, project)
      → is_blank answer ≡ false
      → (cfg.ttl_seconds ≡ 0) ⊎ (later ≤ now + cfg.ttl_seconds)
      → (cache_lookup lib repr embed cfg tenant tool args later
          (cache_store lib repr embed cfg tenant tool args answer now db)).0
        ≡ some (record {
          answer = answer;
          kind = "exact";
          similarity = lib.one;
          age_seconds = later - now;
        })
  unfolding current_epoch store_answer
  cache_lookup-cache_store tenant tool args answer question project now later db asks full fresh =
      let key = key_of lib repr embed cfg db tenant project tool in
      let embedding = try_embedding lib repr embed cfg question in
      let model = model_of lib repr embed cfg embedding in
      let found =
        lookup-store lib db key question question answer cfg.litellm_model embedding none model none
          cfg.threshold cfg.ttl_seconds now later refl fresh in
      let (db', hit) = answered-ok _ _ found in
      rw
        (
          cache_store-stores tenant tool args answer question project now db asks full,
          cache_lookup-is tenant tool args question project later _ asks,
          hit,
        )
        refl
