-- ===== src/Configuration/Documents/Connectors.antt =====
-- The connectors that common/repo_mcp_common/store.py writes into a document, as indexer/app/repos.py
-- reads them.
use repo_mcp.Prelude.{
  String, ◌≡◌, refl, inl, inr, Bool, false, List, [], ◌∷◌, ℕ_eq, String_eq, keep, All, In,
  sorted_by, In-sorted_by, In_of_All,
}
use repo_mcp.Prelude.Value.{Value, get}
use repo_mcp.Prelude.Result.{err}
use repo_mcp.Indexer.Discovery.{scan_config, no_connectors}
use repo_mcp.Configuration.{ConnectorRow, Tables}
use repo_mcp.Configuration.Admin.{connector_name}
use repo_mcp.Configuration.Documents.{scan_document}

keep_none :
    {A : Type 0} (f : A → Bool) (xs : List A) → ((x : A) → In x xs → f x ≡ false) → keep f xs ≡ []
unfolding keep
keep_none f [] h = refl
keep_none f (x ∷ xs) h = rw (h x (inl refl)) (keep_none f xs (λ y m. h y (inr m)))

-- When no connector is enabled, the document that the store writes is one that the indexer refuses.
pub scan_config-none :
    (repr : Value → String) (lower : String → String) (secrets : List (String × String))
    (db : Tables)
    → All (λ (c : ConnectorRow). c.enabled ≡ false) db.connectors
    → scan_config repr lower secrets (scan_document db) ≡ err no_connectors
unfolding scan_document scan_config get
scan_config-none repr lower secrets db h =
    let none_left =
      keep_none (λ (c : ConnectorRow). c.enabled) (sorted_by connector_name db.connectors)
        (λ c m.
          In_of_All _ db.connectors h c ((In-sorted_by connector_name c db.connectors).0 m)) in
    rw none_left refl
