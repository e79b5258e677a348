-- ===== src/Indexer/Discovery/Bound.antt =====
-- Which repositories a new discovery binds, and to whom.
use repo_mcp.Prelude.{
  String, ◌≡◌, refl, sym, ◌∙◌, inl, inr, true, some, List, [], ◌∷◌, arith, eq_iff, Bool-cases,
  Option-cases, ◌==◌, ℕ_eq, String_eq, all, In, lookup, insert, lookup-insert,
}
use repo_mcp.Indexer.{Binding}
use repo_mcp.Indexer.Webhooks.{Bindings}
use repo_mcp.Indexer.Discovery.{
  DiscoveredRepo, Connector, connector_matches, bind, Discover, add_repos, add_connectors, refresh,
}

module _ (repo_root : String) (discover : Discover) (connectors : List Connector) where
  -- A connector's provider yielded a repository of that name that the connector selects, and the
  -- binding is the connector's for it.
  pub record From (name : String) (b : Binding) : Type 0 where
    pub connector : Connector
    pub configured : In connector connectors
    pub yielded : List DiscoveredRepo
    pub asked : discover connector ≡ some yielded
    pub repo : DiscoveredRepo
    pub found : In repo yielded
    pub named : repo.full_name ≡ name
    pub matched : connector_matches connector repo ≡ true
    pub bound : b ≡ bind repo_root connector repo

  abbrev AllFrom : Bindings → Type 0
  AllFrom found = (name : String) (b : Binding) → lookup name found ≡ some b → From name b

  insert-AllFrom :
      (c : Connector) (rs : List DiscoveredRepo) (r : DiscoveredRepo) (found : Bindings)
      → In c connectors
      → discover c ≡ some rs
      → In r rs
      → connector_matches c r ≡ true
      → AllFrom found
      → AllFrom (insert r.full_name (bind repo_root c r) found)
  insert-AllFrom c rs r found listed asked yields matched all name b h =
      let now = sym (lookup-insert r.full_name name (bind repo_root c r) found) ∙ h in
      elim (Bool-cases (r.full_name == name)) [
        | inl same ↦ record {
          connector = c;
          configured = listed;
          yielded = rs;
          asked = asked;
          repo = r;
          found = yields;
          named = (eq_iff r.full_name name).0 same;
          matched = matched;
          bound = ground (arith, rw same at now);
        }
        | inr other ↦ all name b (rw other at now)
      ]

  add_repos-AllFrom :
      (c : Connector) (all rs : List DiscoveredRepo) (found : Bindings)
      → In c connectors
      → discover c ≡ some all
      → ((r : DiscoveredRepo) → In r rs → In r all)
      → AllFrom found
      → AllFrom (add_repos repo_root c rs found)
  unfolding add_repos
  add_repos-AllFrom c all [] found listed asked sub h = h
  add_repos-AllFrom c all (r ∷ rs) found listed asked sub h =
      elim (Bool-cases (connector_matches c r)) [
        | inl hit ↦ rw hit (
            add_repos-AllFrom c all rs _ listed asked (λ x m. sub x (inr m))
              (insert-AllFrom c all r found listed asked (sub r (inl refl)) hit h))
        | inr miss ↦
            rw miss (add_repos-AllFrom c all rs found listed asked (λ x m. sub x (inr m)) h)
      ]

  add_connectors-AllFrom :
      (cs : List Connector) (found : Bindings)
      → ((c : Connector) → In c cs → In c connectors)
      → AllFrom found
      → AllFrom (add_connectors repo_root discover cs found)
  unfolding add_connectors
  add_connectors-AllFrom [] found sub h = h
  add_connectors-AllFrom (c ∷ cs) found sub h = elim (Option-cases (discover c)) [
    | inl broken ↦ rw broken (add_connectors-AllFrom cs found (λ x m. sub x (inr m)) h)
    | inr (rs, asked) ↦ rw asked (
        add_connectors-AllFrom cs (add_repos repo_root c rs found) (λ x m. sub x (inr m))
          (add_repos-AllFrom c rs rs found (sub c (inl refl)) asked (λ r m. m) h))
  ]

  -- A name that a refresh binds is that of a repository which the provider of a configured connector
  -- yielded and which the connector selects, and its binding is the one that the connector makes for
  -- it.
  pub refresh-From :
      (name : String) (b : Binding)
      → lookup name (refresh repo_root discover connectors) ≡ some b
      → From name b
  unfolding refresh lookup
  refresh-From = add_connectors-AllFrom connectors [] (λ c m. m) (λ name b h. cc)
