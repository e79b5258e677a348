-- ===== src/Indexer/Tests.antt =====
-- A project and its jobs, on which the results about the queue are run.
use repo_mcp.Prelude.{
  ℕ, suc, ◌+◌, ◌*◌, ◌/◌, ◌≡◌, refl, true, none, some, List, [], ◌∷◌, ltb, nat_eq, ℕ_eq, String_eq,
  keep, find, contains, difference,
}
use repo_mcp.Prelude.Result.{ok}
use repo_mcp.AnswerCache.{Db, current_epoch, Library, lookup_answer}
use repo_mcp.Indexer.Retires.{key_in, finish_job-retires}
use repo_mcp.Indexer.{
  Binding, IndexJob, Indexer, enqueue, take_job, start_job, finish_job, bump_in, Exit,
}
use repo_mcp.Indexer.Queue.{
  Reached, begun, later, enqueued, taken, started, Serial, Waits, Reached-Serial, enqueue-Waits,
  finish_job-epoch,
}

abbrev api : Binding
api = record {
  full_name = "acme/api";
  project = "acme-api";
  tenant = "payments";
  clone_url = "https://git/acme/api";
  default_branch = "main";
  workdir = "/repos/payments/acme-api";
  mode = "moderate";
  persistence = true;
}

abbrev job : IndexJob
job = record { binding = api; sha = "c1"; trigger = "ci" }

abbrev empty_db : Db
empty_db = record { entries = []; states = []; next_id = 0 }

abbrev idle : Indexer
idle = record {
  queue = [];
  pending = [];
  taken = [];
  active = [];
  last_results = [];
  db = empty_db;
}

abbrev busy : Indexer
busy = record idle { active = job ∷ [] }

abbrev done : Exit
done = record { code = 0; out = "ok"; error = ""; elapsed_s = 7 }

idle-Reached : Reached idle
idle-Reached = begun empty_db

Reached-Serial_example : Serial (start_job "payments/acme-api" (take_job (enqueue job idle).0))
Reached-Serial_example =
    Reached-Serial {s = start_job "payments/acme-api" (take_job (enqueue job idle).0)} (
      later (take_job (enqueue job idle).0) _
        (later (enqueue job idle).0 _ (later idle _ idle-Reached (enqueued idle job))
          (taken (enqueue job idle).0))
        (started (take_job (enqueue job idle).0) "payments/acme-api"))

enqueue-Waits_example : Waits (enqueue job idle).0 "payments/acme-api"
enqueue-Waits_example = enqueue-Waits idle job idle-Reached

finish_job-epoch_example :
    current_epoch
      (finish_job (some (bump_in true)) "payments/acme-api" (ok done) busy).db
      "payments"
      "acme-api"
    ≡ suc (current_epoch empty_db "payments" "acme-api")
unfolding find
finish_job-epoch_example = finish_job-epoch busy job (ok done) (some true) refl

-- A push that arrives while its project is indexed is queued, but the end of that index takes its
-- key from the pending ones: the next push is queued once more.
abbrev pushed_again : List IndexJob
pushed_again =
    (enqueue job (
      finish_job (some (bump_in true)) "payments/acme-api" (ok done)
        (enqueue job (start_job "payments/acme-api" (take_job (enqueue job idle).0))).0)).0.queue

duplicate_test : pushed_again ≡ job ∷ job ∷ []
unfolding enqueue finish_job start_job take_job find contains difference keep
duplicate_test = refl

abbrev lib : Library ℕ
lib = record {
  nought = 0;
  one = 1;
  plus = λ a b. a + b;
  times = λ a b. a * b;
  divide = λ a b. a / b;
  sqrt = λ a. a;
  equal = nat_eq;
  greater = λ a b. ltb b a;
  lower = λ s. s;
  sha256 = λ s. s;
  pack = λ v. "bytes";
  unpack = λ s. 1 ∷ [];
}

finish_job-retires_example :
    lookup_answer lib
      (key_in
        (finish_job (some (bump_in true)) "payments/acme-api" (ok done) busy).db
        job
        "ask_codebase")
      "who calls f"
      none
      none
      1
      60
      120
      (finish_job (some (bump_in true)) "payments/acme-api" (ok done) busy).db
    ≡ ok (none, (finish_job (some (bump_in true)) "payments/acme-api" (ok done) busy).db)
unfolding find
finish_job-retires_example =
    finish_job-retires lib busy job done "ask_codebase" "who calls f" none none 1 60 120
      (λ e m. absurd m) refl refl
