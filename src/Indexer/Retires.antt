-- ===== src/Indexer/Retires.antt =====
-- What the end of an index does to the answers of the earlier graph.
use repo_mcp.Prelude.{
  ℕ, String, ◌≡◌, refl, sym, subst, true, Option, none, some, List, nat_eq, nat_eq_iff, ℕ_eq,
  String_eq, find,
}
use repo_mcp.Prelude.Result.{ok}
use repo_mcp.AnswerCache.{CacheKey, Db, Library, current_epoch, bump_epoch, lookup_answer}
use repo_mcp.AnswerCache.Epochs.{NoneAhead, lookup-after_bump, bump_epoch-current}
use repo_mcp.Indexer.{
  IndexJob, job_key, Indexer, has_key, Exit, finish_job, result_of, record_epoch, bump_in,
  commit_of,
}

finish_job-record_epoch :
    (s : Indexer) (job : IndexJob) (exit : Exit)
    → find (has_key (job_key job)) s.active ≡ some job
    → nat_eq exit.code 0 ≡ true
    → (finish_job (some (bump_in true)) (job_key job) (ok exit) s).db
      ≡ (bump_epoch s.db job.binding.tenant job.binding.project (commit_of job.sha)).0
unfolding finish_job result_of record_epoch bump_in
finish_job-record_epoch s job exit found good = rw (found, finish_job, good, result_of) refl

abbrev pub key_in : Db → IndexJob → String → CacheKey
key_in db job tool = record {
  tenant = job.binding.tenant;
  project = job.binding.project;
  tool = tool;
  epoch = current_epoch db job.binding.tenant job.binding.project;
}

-- When no row is ahead of its project's epoch, the job that holds its project's lock ends with exit
-- code 0, and the transaction that records the epoch commits, every lookup for that squad and project under the epoch of then finds nothing: the
-- answers of the earlier graph are retired.
pub finish_job-retires :
    {F : Type 0} (lib : Library F) (s : Indexer) (job : IndexJob) (exit : Exit)
    (tool question : String) (embedding : Option (List F)) (model : Option String) (threshold : F)
    (ttl_seconds now : ℕ)
    → NoneAhead s.db
    → find (has_key (job_key job)) s.active ≡ some job
    → exit.code ≡ 0
    → (let db' = (finish_job (some (bump_in true)) (job_key job) (ok exit) s).db in
        lookup_answer lib
          (key_in db' job tool)
          question
          embedding
          model
          threshold
          ttl_seconds
          now
          db'
        ≡ ok (none, db'))
finish_job-retires lib s job exit tool question embedding model threshold ttl_seconds now ahead
      found good =
    let bumped = bump_epoch s.db job.binding.tenant job.binding.project (commit_of job.sha) in
    subst
      (λ db.
        lookup_answer lib (key_in db job tool) question embedding model threshold ttl_seconds now db
        ≡ ok (none, db))
      (sym (finish_job-record_epoch s job exit found ((nat_eq_iff exit.code 0).1 good)))
      (lookup-after_bump lib s.db (key_in bumped.0 job tool) (commit_of job.sha) question embedding
        model threshold ttl_seconds now ahead
        (bump_epoch-current s.db job.binding.tenant job.binding.project (commit_of job.sha)))
