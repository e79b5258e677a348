-- ===== src/Configuration/Store/Calls.antt =====
-- Requests of the gateway while an administrator changes the configuration.
use repo_mcp.Prelude.{ℕ, ◌+◌, ◌≤◌, String, Option, none, List, [], ◌∷◌, ℕ_eq, String_eq}
use repo_mcp.Prelude.Value.{Value}
use repo_mcp.Configuration.{Tables}
use repo_mcp.Configuration.Documents.Valid.{Valid}
use repo_mcp.Configuration.Store.{Reads, Provider, current, forget}
use repo_mcp.Configuration.Store.History.{History}

-- A call with its four moments, or the `invalidate` that follows an administrator's change.
pub data Event : Type 0 where
  asked_at : ℕ → ℕ → ℕ → ℕ → Event
  forgotten : Event

-- calls that follow one another, whose queries of the generation take at most `latency`
abbrev pub InOrder : ℕ → ℕ → List Event → Type 0
InOrder latency since [] = Unit
InOrder latency since (asked_at now read checked loaded ∷ es) =
    (since ≤ now)
    × (now ≤ read)
    × (read ≤ checked)
    × (checked ≤ read + latency)
    × (checked ≤ loaded)
    × InOrder latency loaded es
InOrder latency since (forgotten ∷ es) = InOrder latency since es

abbrev pub end_of : ℕ → List Event → ℕ
end_of since [] = since
end_of since (asked_at now read checked loaded ∷ es) = end_of loaded es
end_of since (forgotten ∷ es) = end_of since es

abbrev pub new_provider : {F : Type 0} → Provider F
new_provider = record { store = record { snapshot = none; checked_at = 0 }; current = none }

module _ (decrypt : String → Option String) (defaults : List (String × Value)) {F : Type 0}
    (reads : Reads F) (poll : ℕ) (h : ℕ → Tables) where
  unfoldable pub serve : List Event → Provider F → Provider F
  serve [] p = p
  serve (asked_at now read checked loaded ∷ es) p =
      serve es (current decrypt defaults reads poll now read checked loaded h p).1
  serve (forgotten ∷ es) p = serve es (forget p)
