-- ===== src/Indexer/Triggers.antt =====
-- The rescan and trigger routes of indexer/app/main.py, behind the CI token.
use Prim.Native.Char.{code}
use repo_mcp.Prelude.{
  ℕ, suc, String, Bool, false, not, ◌&&◌, Option, none, some, [], ◌∷◌, nat_eq, if◌then◌else◌, ◌==◌,
  ℕ_eq, String_eq, length, lookup,
}
use repo_mcp.Prelude.Value.{Value, Fields, get, truthy, text_of}
use repo_mcp.AnswerCache.{strip_left, strip_right}
use repo_mcp.Indexer.{Binding, Indexer, enqueue}
use repo_mcp.Indexer.Webhooks.{Bindings}

-- a job for every binding, and how many of them were queued
unfoldable pub enqueue_all : String → Bindings → Indexer → Indexer × ℕ
enqueue_all trigger [] s = (s, 0)
enqueue_all trigger ((name, b) ∷ bs) s =
    let (s', fresh) = enqueue (record { binding = b; sha = ""; trigger = trigger }) s in
    let (s'', n) = enqueue_all trigger bs s' in (s'', (if fresh then suc n else n))

-- `authorization.partition(" ")`
unfoldable pub partition_space : String → String × String
partition_space String.[] = (String.[], String.[])
partition_space (String.◌∷◌ c s) =
    let (before, after) = partition_space s in
    if nat_eq (code c) 32 then (String.[], s) else (String.◌∷◌ c before, after)

-- `_ci_authorized`
unfoldable pub ci_authorized : (String → String) → Option String → String → Bool
ci_authorized lower none expected = false
ci_authorized lower (some authorization) expected =
    let (scheme, token) = partition_space authorization in
    not (expected == "")
    && not (authorization == "")
    && lower scheme == "bearer"
    && strip_right (strip_left token) == expected

pub data CiReply : Type 0 where
  unauthorized unknown_repository : CiReply
  rescanned : ℕ → ℕ → CiReply
  triggered : Bool → String → CiReply

-- `POST /rescan`, with what the new discovery finds
unfoldable pub rescan :
    (String → String) → Option String → String → Bindings → Indexer → CiReply × Indexer
rescan lower authorization ci_token discovered s =
    let (s', n) = enqueue_all "manual" discovered s in
    if ci_authorized lower authorization ci_token
    then (rescanned (length discovered) n, s')
    else (unauthorized, s)

abbrev trigger_for : Option Binding → String → Indexer → CiReply × Indexer
trigger_for none sha s = (unknown_repository, s)
trigger_for (some b) sha s =
    let (s', fresh) = enqueue (record { binding = b; sha = sha; trigger = "ci" }) s in
    (triggered fresh b.project, s')

abbrev either_of : Option Binding → Option Binding → Option Binding
either_of none later = later
either_of (some b) later = some b

abbrev text_or_empty : (Value → String) → Option Value → String
text_or_empty repr none = ""
text_or_empty repr (some v) = if truthy v then text_of repr v else ""

-- `POST /trigger`, with a mapping for its body
unfoldable pub trigger_job :
    (Value → String)
    → (String → String)
    → Option String
    → String
    → Bindings
    → Bindings
    → Fields
    → Indexer
    → CiReply × Indexer
trigger_job repr lower authorization ci_token known discovered body s =
    let name = text_or_empty repr (get "repository" body) in
    let sha = text_or_empty repr (get "sha" body) in
    let reply = trigger_for (either_of (lookup name known) (lookup name discovered)) sha s in
    if ci_authorized lower authorization ci_token then reply else (unauthorized, s)
