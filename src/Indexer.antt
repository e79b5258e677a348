-- ===== src/Indexer.antt =====
-- indexer/app/worker.py: the queue of index jobs and its workers, as functions on one state. What
-- the tasks do between two awaits is one function; `git` and the engine's process are answers that
-- the functions take.
pub mod Queue
pub mod Webhooks
pub mod Discovery
pub mod Triggers
pub mod Retires
mod Tests
use Prim.Native.String
use repo_mcp.Prelude.{
  ℕ, zero, suc, ◌+◌, ◌-◌, ◌*◌, ◌/◌, ◌%◌, ◌≤◌, ◌<◌, String, ◌≡◌, refl, sym, ap, ◌∙◌, subst, ◌≢◌, ◌↔◌,
  ◌⊎◌, inl, inr, Bool, true, false, not, ◌&&◌, ◌||◌, Option, none, some, List, [], ◌∷◌, ◌++◌, map,
  arith, eq_iff, ltb, leb, nat_eq, if◌then◌else◌, nat_eq_iff, Bool-cases, Option-cases, and_iff,
  or_iff, not_iff, Eq, ◌==◌, ℕ_eq, String_eq, length, take, length-append, any, all, keep, find,
  All, is_empty, not-In_of_is_empty, is_empty_of_not-In, is_empty-difference_iff, In-map-elim,
  In-map-intro, All-imp, In, In-append, In-keep, find-some, find-none, any-elim, any-intro,
  all-elim, all-intro, contains, difference, meets, subset, contains_iff, In-difference, meets_iff,
  subset_iff, lookup, insert, remove, lookup-insert, lookup-remove,
}
use repo_mcp.Prelude.Text.{◌<>◌, char_count}
use repo_mcp.Prelude.Result.{Result, ok, err}
use repo_mcp.AnswerCache.{Db, bump_epoch}

-- `Binding` of indexer/app/repos.py
pub record Binding : Type 0 where
  pub full_name : String
  pub project : String
  pub tenant : String
  pub clone_url : String
  pub default_branch : String
  pub workdir : String
  pub mode : String
  pub persistence : Bool

pub record IndexJob : Type 0 where
  pub binding : Binding
  pub sha : String
  pub trigger : String

abbrev pub job_key : IndexJob → String
job_key job = job.binding.tenant <> "/" <> job.binding.project

pub record JobResult : Type 0 where
  pub job : IndexJob
  pub success : Bool
  pub duration_s : ℕ
  pub detail : String

-- The queue, the keys that are pending, the jobs that a worker has taken and that wait for their
-- project's lock, the jobs that hold it, the last results, and the tables of the answer cache.
pub record Indexer : Type 0 where
  pub queue : List IndexJob
  pub pending : List String
  pub taken : List IndexJob
  pub active : List IndexJob
  pub last_results : List (String × JobResult)
  pub db : Db

abbrev pub discard : String → List String → List String
discard k ks = difference ks (k ∷ [])

-- the new state, and whether the job was queued
unfoldable pub enqueue : IndexJob → Indexer → Indexer × Bool
enqueue job s =
    if contains s.pending (job_key job)
    then (s, false)
    else (record s { queue = s.queue ++ job ∷ []; pending = job_key job ∷ s.pending }, true)

-- the first job with that key, and the others
abbrev pub without : String → List IndexJob → List IndexJob
without k [] = []
without k (j ∷ js) = let rest = without k js in if job_key j == k then js else j ∷ rest

-- `await self._queue.get()`
unfoldable pub take_job : Indexer → Indexer
take_job s = elim s.queue [ [] ↦ s | j ∷ js ↦ record s { queue = js; taken = s.taken ++ j ∷ [] } ]

-- the lock of the job's project is free
abbrev pub is_free : Indexer → String → Bool
is_free s k = not (contains (map job_key s.active) k)

abbrev pub has_key : String → IndexJob → Bool
has_key k job = job_key job == k

-- `async with lock`, to the start of `_index`: the lock goes to the job that has waited longest
unfoldable pub start_job : String → Indexer → Indexer
start_job k s = elim (find (has_key k) s.taken) [
  | none ↦ s
  | some job ↦
      if is_free s k
      then record s {
        taken = without k s.taken;
        active = job ∷ s.active;
        pending = discard k s.pending;
      }
      else s
]

abbrev drop_chars : ℕ → String → String
drop_chars zero text = text
drop_chars (suc n) String.[] = String.[]
drop_chars (suc n) (String.◌∷◌ c text) = drop_chars n text

-- `text[-2000:]`
unfoldable pub tail_of : String → String
tail_of text = drop_chars (char_count text - 2000) text

-- What the engine's process returns, and how long it took.
pub record Exit : Type 0 where
  pub code : ℕ
  pub out : String
  pub error : String
  pub elapsed_s : ℕ

-- the end of `_index`, or the exception that it ended with
unfoldable pub result_of : IndexJob → Result String Exit → JobResult
result_of job (err message) = record {
  job = job;
  success = false;
  duration_s = 0;
  detail = message;
}
result_of job (ok exit) =
    if nat_eq exit.code 0
    then record {
      job = job;
      success = true;
      duration_s = exit.elapsed_s;
      detail = tail_of exit.out;
    }
    else record {
      job = job;
      success = false;
      duration_s = exit.elapsed_s;
      detail = tail_of exit.error;
    }

-- the git commands of `_sync_worktree`, each with its directory
unfoldable pub sync_worktree :
    (String → String) → (String → String) → Bool → IndexJob → List (String × List String)
sync_worktree parent base_name cloned job =
    let b = job.binding in
    let clone : String × List String =
      (parent b.workdir, "clone" ∷ "--filter=blob:none" ∷ b.clone_url ∷ base_name b.workdir ∷ []) in
    let target : String = if job.sha == "" then "origin/" <> b.default_branch else job.sha in
    let fetch : String × List String = (b.workdir, "fetch" ∷ "--prune" ∷ "origin" ∷ []) in
    let checkout : String × List String = (b.workdir, "checkout" ∷ "--force" ∷ target ∷ []) in
    (if cloned then [] else clone ∷ []) ++ fetch ∷ checkout ∷ []

abbrev pub commit_of : String → Option String
commit_of sha = if sha == "" then none else some sha

-- `OnIndexed`: the callback has a squad, a project and a commit, and leaves the tables of the cache,
-- or raises
abbrev pub OnIndexed : Type 0
OnIndexed = String → String → Option String → Db → Result String Db

-- the callback of indexer/app/main.py; a transaction that does not commit leaves the tables
unfoldable pub bump_in : Bool → OnIndexed
bump_in commits tenant project commit db =
    if commits then ok (bump_epoch db tenant project commit).0 else err "not committed"

-- `_record_epoch`: no callback is no record, and an exception of the callback is swallowed
unfoldable pub record_epoch : Option OnIndexed → IndexJob → Db → Db
record_epoch none job db = db
record_epoch (some on_indexed) job db =
    elim (on_indexed job.binding.tenant job.binding.project (commit_of job.sha) db) [
      | ok db' ↦ db'
      | err message ↦ db
    ]

-- the rest of `_run`, its `finally` included
unfoldable pub finish_job : Option OnIndexed → String → Result String Exit → Indexer → Indexer
finish_job on_indexed k r s = elim (find (has_key k) s.active) [
  | none ↦ s
  | some job ↦
      let result = result_of job r in
      record s {
        active = without k s.active;
        pending = discard k s.pending;
        last_results = insert k result s.last_results;
        db = if result.success then record_epoch on_indexed job s.db else s.db;
      }
]
