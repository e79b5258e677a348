-- ===== src/AnswerCache/Tests.antt =====
-- A small cache over whole numbers, on which the results about it are run.
use repo_mcp.Prelude.{
  ℕ, ◌+◌, ◌*◌, ◌/◌, String, ◌≡◌, refl, inl, inr, true, Option, none, some, List, [], ◌∷◌, arith,
  ltb, nat_eq, ℕ_eq, String_eq, keep, lookup,
}
use repo_mcp.Prelude.Text.{is_blank, is_space}
use repo_mcp.Prelude.Value.{Value, str, Fields, end, field, get, truthy, text_of}
use repo_mcp.Prelude.Result.{ok}
use repo_mcp.AnswerCache.{
  squeeze, strip_right, strip_left, CacheKey, Hit, Entry, Db, IndexState, Project, Library,
  current_epoch, bump_epoch, lookup_answer, lookup_from, question_hash, normalise, store_answer,
  purge_superseded, hit_of, record_hit,
}
use repo_mcp.AnswerCache.Gateway.{CacheSettings, applies, cacheable, cache_lookup, cache_store}
use repo_mcp.AnswerCache.Recalled.{Recalled, lookup_answer-Recalled}
use repo_mcp.AnswerCache.Epochs.{NoneAhead, lookup-after_bump}
use repo_mcp.AnswerCache.Kept.{begun, later, bumped, stored, Reached-NoneAhead}
use repo_mcp.AnswerCache.Stored.{answered, lookup-store, lookup-purge_superseded}
use repo_mcp.AnswerCache.RoundTrip.{cache_lookup-cache_store}

abbrev lib : Library ℕ
lib = record {
  nought = 0;
  one = 1;
  plus = λ a b. a + b;
  times = λ a b. a * b;
  divide = λ a b. a / b;
  sqrt = λ a. a;
  equal = nat_eq;
  greater = λ a b. ltb b a;
  lower = λ s. s;
  sha256 = λ s. s;
  pack = λ v. "bytes";
  unpack = λ s. 1 ∷ [];
}

abbrev key : CacheKey
key = record { tenant = "payments"; project = "api"; tool = "ask_codebase"; epoch = 1 }

abbrev entry : Entry
entry = record {
  id = 0;
  key = key;
  question_hash = "who calls f";
  question = "who calls f";
  answer = "g";
  answer_model = "m";
  embedding_model = none;
  embedding = none;
  embedding_dim = 0;
  hits = 0;
  created_at = 100;
  last_hit_at = none;
}

abbrev states : List (Project × IndexState)
states = (("payments", "api"), record { epoch = 1; last_commit = none }) ∷ []

abbrev db : Db
db = record { entries = entry ∷ []; states = states; next_id = 1 }

abbrev hit : Hit ℕ
hit = record { answer = "g"; kind = "exact"; similarity = 1; age_seconds = 20 }

abbrev hit_db : Db
hit_db = record {
  entries = record entry { hits = 1; last_hit_at = some 120 } ∷ [];
  states = states;
  next_id = 1;
}

lookup_answer-Recalled_example : Recalled lib key "who calls f" none none 1 60 120 db hit
unfolding lookup_answer lookup_from hit_of record_hit keep question_hash normalise squeeze
    strip_right strip_left is_space is_blank
lookup_answer-Recalled_example =
    lookup_answer-Recalled lib key "who calls f" none none 1 60 120 db hit_db hit refl

db-NoneAhead : NoneAhead db
unfolding current_epoch lookup
db-NoneAhead e (inl same) = rw same (omega arith)
db-NoneAhead e (inr m) = absurd m

lookup-after_bump_example :
    lookup_answer lib
      (record key { epoch = 2 })
      "who calls f"
      none
      none
      1
      60
      120
      (bump_epoch db "payments" "api" (some "c1")).0
    ≡ ok (none, (bump_epoch db "payments" "api" (some "c1")).0)
unfolding bump_epoch lookup
lookup-after_bump_example =
    lookup-after_bump lib db (record key { epoch = 2 }) (some "c1") "who calls f" none none 1 60 120
      db-NoneAhead refl

-- An index, an answer that is stored under its epoch, and another index.
abbrev indexed : Db
indexed = (bump_epoch (record { entries = []; states = []; next_id = 1 }) "payments" "api" none).0

abbrev answered_once : Db
answered_once =
    store_answer lib (record key { epoch = current_epoch indexed "payments" "api" }) "who calls f"
      "g calls f" "m" none none 100 indexed

Reached-NoneAhead_example : NoneAhead (bump_epoch answered_once "payments" "api" (some "c2")).0
Reached-NoneAhead_example = Reached-NoneAhead lib (
    later answered_once _
      (later indexed _ (later _ _ (begun 1) (bumped _ "payments" "api" none)) (
        stored indexed (record key { epoch = current_epoch indexed "payments" "api" }) "who calls f"
          "g calls f" "m" none none 100 refl))
      (bumped answered_once "payments" "api" (some "c2")))

lookup-purge_superseded_example :
    answered (lookup_answer lib key "who calls f" none none 1 60 120 (purge_superseded db))
    ≡ answered (lookup_answer lib key "who calls f" none none 1 60 120 db)
unfolding current_epoch lookup
lookup-purge_superseded_example =
    lookup-purge_superseded lib db key "who calls f" none none 1 60 120
      (λ s m. elim m [ inl same ↦ rw same refl | inr m' ↦ absurd m' ]) refl

lookup-store_example :
    answered (
      lookup_answer lib key "who calls f" none none 1 60 150
        (store_answer lib key "who calls f" "h" "m" none none 130 db))
    ≡ ok (some (record { answer = "h"; kind = "exact"; similarity = 1; age_seconds = 20 }))
lookup-store_example =
    lookup-store lib db key "who calls f" "who calls f" "h" "m" none none none none 1 60 130 150
      refl (inr (omega arith))

abbrev repr : Value → String
repr v = "?"

abbrev settings : CacheSettings ℕ
settings = record {
  answer_cache_enabled = true;
  embedding_model = "";
  threshold = 1;
  ttl_seconds = 60;
  litellm_model = "m";
}

abbrev args : Fields
args = field "project" (str "api") (field "question" (str "who calls f") end)

abbrev no_vector : String → Option (List ℕ)
no_vector s = none

cache_lookup-cache_store_example :
    (cache_lookup lib repr no_vector settings "payments" "ask_codebase" args 150
      (cache_store lib repr no_vector settings "payments" "ask_codebase" args "h" 130 db)).0
    ≡ some (record { answer = "h"; kind = "exact"; similarity = 1; age_seconds = 20 })
unfolding applies cacheable get truthy text_of is_blank
cache_lookup-cache_store_example =
    cache_lookup-cache_store lib repr no_vector settings "payments" "ask_codebase" args "h"
      "who calls f" "api" 130 150 db refl refl (inr (omega arith))
