-- ===== src/Indexer/Queue.antt =====
-- What the queue and its workers keep, whatever their order.
use mathlib.Core.Option
use repo_mcp.Prelude.{
  suc, String, ◌≡◌, refl, sym, ap, ◌∙◌, subst, ◌≢◌, ◌⊎◌, inl, inr, Bool, true, false, ◌&&◌, Option,
  none, some, List, [], ◌∷◌, ◌++◌, map, eq_iff, nat_eq, if◌then◌else◌, Bool-cases, Option-cases,
  not_iff, ◌==◌, ℕ_eq, String_eq, find, In, In-append, find-some, contains, contains_iff,
  In-difference,
}
use repo_mcp.Prelude.Result.{Result, ok, err}
use repo_mcp.AnswerCache.Epochs.{bump-returns}
use repo_mcp.AnswerCache.{Db, current_epoch}
use repo_mcp.Indexer.{
  IndexJob, job_key, Indexer, discard, enqueue, without, take_job, is_free, has_key, start_job,
  Exit, OnIndexed, bump_in, result_of, record_epoch, finish_job,
}

-- One thing that a caller or a worker does.
pub data Step : Indexer → Indexer → Type 0 where
  enqueued : (s : Indexer) (job : IndexJob) → Step s (enqueue job s).0
  taken : (s : Indexer) → Step s (take_job s)
  started : (s : Indexer) (k : String) → Step s (start_job k s)
  finished :
      (s : Indexer) (on_indexed : Option OnIndexed) (k : String) (r : Result String Exit)
      → Step s (finish_job on_indexed k r s)

pub data Reached : Indexer → Type 0 where
  begun :
      (db : Db)
      → Reached
          (record { queue = []; pending = []; taken = []; active = []; last_results = []; db = db })
  later : (s s' : Indexer) → Reached s → Step s s' → Reached s'

-- A job of that key is queued or waits for its project's lock.
abbrev pub Waits : Indexer → String → Type 0
Waits s k = In k (map job_key s.queue) ⊎ In k (map job_key s.taken)

abbrev pub Covered : Indexer → Type 0
Covered s = (k : String) → In k s.pending → Waits s k

abbrev pub Distinct : List String → Type 0
Distinct [] = Unit
Distinct (k ∷ ks) = (¬ In k ks) × Distinct ks

-- No two jobs of one project are indexed at once.
abbrev pub Serial : Indexer → Type 0
Serial s = Distinct (map job_key s.active)

map-append : (xs ys : List IndexJob) → map job_key (xs ++ ys) ≡ map job_key xs ++ map job_key ys
map-append [] ys = refl
map-append (x ∷ xs) ys = ap (λ l. job_key x ∷ l) (map-append xs ys)

In-snoc-left :
    (k : String) (xs : List IndexJob) (j : IndexJob)
    → In k (map job_key xs)
    → In k (map job_key (xs ++ j ∷ []))
In-snoc-left k xs j m = rw (map-append xs (j ∷ [])) ((In-append k (map job_key xs) _).1 (inl m))

In-snoc-right : (xs : List IndexJob) (j : IndexJob) → In (job_key j) (map job_key (xs ++ j ∷ []))
In-snoc-right xs j =
    rw (map-append xs (j ∷ [])) ((In-append (job_key j) (map job_key xs) _).1 (inr (inl refl)))

List-cases :
    (xs : List IndexJob) → (xs ≡ []) ⊎ ((j : IndexJob) × (js : List IndexJob) × (xs ≡ j ∷ js))
List-cases [] = inl refl
List-cases (j ∷ js) = inr (j, js, refl)

In-without :
    (k j : String) (js : List IndexJob)
    → In j (map job_key js)
    → j ≢ k
    → In j (map job_key (without k js))
In-without k j [] m other = m
In-without k j (x ∷ xs) m other = elim (Bool-cases (job_key x == k)) [
  | inl same ↦
      rw same (elim m [ inl e ↦ absurd (other (e ∙ (eq_iff (job_key x) k).0 same)) | inr n ↦ n ])
  | inr differs ↦ rw differs (elim m [ inl e ↦ inl e | inr n ↦ inr (In-without k j xs n other) ])
]

without-In :
    (k j : String) (js : List IndexJob) → In j (map job_key (without k js)) → In j (map job_key js)
without-In k j [] m = m
without-In k j (x ∷ xs) m = elim (Bool-cases (job_key x == k)) [
  | inl same ↦ inr (rw same at m)
  | inr differs ↦ elim (rw differs at m) [ inl e ↦ inl e | inr n ↦ inr (without-In k j xs n) ]
]

without-Distinct :
    (k : String) (js : List IndexJob)
    → Distinct (map job_key js)
    → Distinct (map job_key (without k js))
without-Distinct k [] d = d
without-Distinct k (x ∷ xs) d = elim (Bool-cases (job_key x == k)) [
  | inl same ↦ rw same d.1
  | inr differs ↦ rw differs ((λ m. d.0 (without-In k (job_key x) xs m)), without-Distinct k xs d.1)
]

In-discard : (k j : String) (ks : List String) → In j (discard k ks) → In j ks × (j ≢ k)
In-discard k j ks m = let (n, out) = (In-difference ks (k ∷ []) j).0 m in (n, λ e. out (inl e))

enqueue-Covered : (s : Indexer) (job : IndexJob) → Covered s → Covered (enqueue job s).0
unfolding enqueue
enqueue-Covered s job c = elim (Bool-cases (contains s.pending (job_key job))) [
  | inl known ↦ rw known c
  | inr new ↦ rw new (λ k m. elim m [
    | inl e ↦
        inl (
          subst (λ x. In x (map job_key (s.queue ++ job ∷ []))) (sym e) (In-snoc-right s.queue job))
    | inr n ↦ elim (c k n) [ inl q ↦ inl (In-snoc-left k s.queue job q) | inr t ↦ inr t ]
  ])
]

take_job-Covered : (s : Indexer) → Covered s → Covered (take_job s)
unfolding take_job
take_job-Covered s c = elim (List-cases s.queue) [
  | inl empty ↦ rw (empty, take_job) c
  | inr (j, js, full) ↦
      rw (full, take_job)
        (λ k m. elim (c k m) [
          | inr t ↦ inr (In-snoc-left k s.taken j t)
          | inl q ↦ elim (rw full at q) [
            | inl e ↦ inr (
                subst (λ x. In x (map job_key (s.taken ++ j ∷ []))) (sym e)
                  (In-snoc-right s.taken j))
            | inr n ↦ inl n
          ]
        ])
]

start_job-Covered : (s : Indexer) (k : String) → Covered s → Covered (start_job k s)
unfolding start_job
start_job-Covered s k c = elim (Option-cases (find (has_key k) s.taken)) [
  | inl none_there ↦ rw (none_there, start_job) c
  | inr (job, found) ↦ elim (Bool-cases (is_free s k)) [
    | inr held ↦ rw (found, start_job, held) c
    | inl free ↦
        rw (found, start_job, free)
          (λ j m.
            let (n, other) = In-discard k j s.pending m in
            elim (c j n) [ inl q ↦ inl q | inr t ↦ inr (In-without k j s.taken t other) ])
  ]
]

finish_job-Covered :
    (s : Indexer) (on_indexed : Option OnIndexed) (k : String) (r : Result String Exit)
    → Covered s
    → Covered (finish_job on_indexed k r s)
unfolding finish_job
finish_job-Covered s o k r c = elim (Option-cases (find (has_key k) s.active)) [
  | inl none_there ↦ rw (none_there, finish_job) c
  | inr (job, found) ↦ rw (found, finish_job) (λ j m. c j (In-discard k j s.pending m).0)
]

Step-Covered : {s s' : Indexer} → Step s s' → Covered s → Covered s'
Step-Covered (enqueued s job) c = enqueue-Covered s job c
Step-Covered (taken s) c = take_job-Covered s c
Step-Covered (started s k) c = start_job-Covered s k c
Step-Covered (finished s o k r) c = finish_job-Covered s o k r c

enqueue-Serial : (s : Indexer) (job : IndexJob) → Serial s → Serial (enqueue job s).0
unfolding enqueue
enqueue-Serial s job d = elim (Bool-cases (contains s.pending (job_key job))) [
  | inl known ↦ rw known d
  | inr new ↦ rw new d
]

take_job-Serial : (s : Indexer) → Serial s → Serial (take_job s)
unfolding take_job
take_job-Serial s d = elim (List-cases s.queue) [
  | inl empty ↦ rw (empty, take_job) d
  | inr (j, js, full) ↦ rw (full, take_job) d
]

start_job-Serial : (s : Indexer) (k : String) → Serial s → Serial (start_job k s)
unfolding start_job
start_job-Serial s k d = elim (Option-cases (find (has_key k) s.taken)) [
  | inl none_there ↦ rw (none_there, start_job) d
  | inr (job, found) ↦ elim (Bool-cases (is_free s k)) [
    | inr held ↦ rw (found, start_job, held) d
    | inl free ↦
        let its_key : job_key job ≡ k =
          (eq_iff (job_key job) k).0 (find-some (has_key k) s.taken {a = job} found).1 in
        rw (found, start_job, free)
          (
            (λ m. cc (
              (contains_iff (map job_key s.active) k).1
                  (subst (λ x. In x (map job_key s.active)) its_key m),
              (not_iff _).0 free,
            )),
            d,
          )
  ]
]

finish_job-Serial :
    (s : Indexer) (on_indexed : Option OnIndexed) (k : String) (r : Result String Exit)
    → Serial s
    → Serial (finish_job on_indexed k r s)
unfolding finish_job
finish_job-Serial s o k r d = elim (Option-cases (find (has_key k) s.active)) [
  | inl none_there ↦ rw (none_there, finish_job) d
  | inr (job, found) ↦ rw (found, finish_job) (without-Distinct k s.active d)
]

Step-Serial : {s s' : Indexer} → Step s s' → Serial s → Serial s'
Step-Serial (enqueued s job) d = enqueue-Serial s job d
Step-Serial (taken s) d = take_job-Serial s d
Step-Serial (started s k) d = start_job-Serial s k d
Step-Serial (finished s o k r) d = finish_job-Serial s o k r d

Reached-Covered : {s : Indexer} → Reached s → Covered s
Reached-Covered (begun db) = λ k m. absurd m
Reached-Covered (later s s' r step) = Step-Covered step (Reached-Covered r)

-- However callers and workers interleave, no two jobs of one project hold its lock and are indexed
-- at once.
pub Reached-Serial : {s : Indexer} → Reached s → Serial s
Reached-Serial (begun db) = tt
Reached-Serial (later s s' r step) = Step-Serial step (Reached-Serial r)

-- In every state that the queue can reach, after enqueue, whether it queues the job or coalesces it,
-- some job of its project is queued or waits for the project's lock, so that an index is still to
-- start.
pub enqueue-Waits :
    (s : Indexer) (job : IndexJob) → Reached s → Waits (enqueue job s).0 (job_key job)
unfolding enqueue
enqueue-Waits s job r = elim (Bool-cases (contains s.pending (job_key job))) [
  | inl known ↦
      rw known (Reached-Covered r (job_key job) ((contains_iff s.pending (job_key job)).0 known))
  | inr new ↦ rw new (inl (In-snoc-right s.queue job))
]

-- The index came to an end with exit code 0.
abbrev pub exits_well : Result String Exit → Bool
exits_well (err message) = false
exits_well (ok exit) = nat_eq exit.code 0

result_of-success :
    (job : IndexJob) (r : Result String Exit) → (result_of job r).success ≡ exits_well r
unfolding result_of
result_of-success job (err message) = refl
result_of-success job (ok exit) = elim (Bool-cases (nat_eq exit.code 0)) [
  | inl good ↦ rw good refl
  | inr bad ↦ rw bad refl
]

-- the callback is given, and its transaction commits
abbrev pub records : Option Bool → Bool
records none = false
records (some commits) = commits

record_epoch-epoch :
    (recording : Option Bool) (job : IndexJob) (db : Db)
    → current_epoch
        (record_epoch (Option.map bump_in recording) job db)
        job.binding.tenant
        job.binding.project
      ≡ (if records recording
          then suc (current_epoch db job.binding.tenant job.binding.project)
          else current_epoch db job.binding.tenant job.binding.project)
unfolding record_epoch bump_in
record_epoch-epoch none job db = refl
record_epoch-epoch (some true) job db = bump-returns db job.binding.tenant job.binding.project _
record_epoch-epoch (some false) job db = refl

-- When the job that holds its project's lock ends, by an exit of the engine or by an exception, the
-- project's epoch is raised by one if the engine exited with code 0, the callback that records the
-- epoch is given and its transaction commits, and is left as it was otherwise.
pub finish_job-epoch :
    (s : Indexer) (job : IndexJob) (r : Result String Exit) (recording : Option Bool)
    → find (has_key (job_key job)) s.active ≡ some job
    → let s' = finish_job (Option.map bump_in recording) (job_key job) r s in
      current_epoch s'.db job.binding.tenant job.binding.project ≡ (
        if exits_well r && records recording
        then suc (current_epoch s.db job.binding.tenant job.binding.project)
        else current_epoch s.db job.binding.tenant job.binding.project)
unfolding finish_job
finish_job-epoch s job r recording found = elim (Bool-cases (exits_well r)) [
  | inl good ↦
      rw (found, finish_job, result_of-success job r, good) (record_epoch-epoch recording job s.db)
  | inr bad ↦ rw (found, finish_job, result_of-success job r, bad) refl
]
