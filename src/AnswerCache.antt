-- ===== src/AnswerCache.antt =====
-- common/repo_mcp_common/answer_cache.py: answers kept per squad, project, tool and graph epoch.
-- The two tables are lists of rows. Times are seconds; floating-point arithmetic, SHA-256, the
-- folding of case and the packing of vectors into bytes are a `Library`.
pub mod Gateway
pub mod Recalled
pub mod Epochs
pub mod Kept
pub mod Stored
pub mod RoundTrip
mod Tests
use Prim.Native.Char.{code}
use repo_mcp.Prelude.{
  ℕ, zero, suc, ◌+◌, ◌-◌, ◌*◌, ◌/◌, ◌%◌, ◌≤◌, ◌<◌, String, ◌≡◌, refl, sym, ap, ◌∙◌, subst, ◌≢◌, ◌↔◌,
  ◌⊎◌, inl, inr, Bool, true, false, not, ◌&&◌, ◌||◌, Option, none, some, List, [], ◌∷◌, ◌++◌, map,
  arith, eq_iff, ltb, leb, nat_eq, if◌then◌else◌, nat_eq_iff, Bool-cases, Option-cases, and_iff,
  or_iff, not_iff, Eq, ◌==◌, ℕ_eq, String_eq, length, take, length-append, any, all, keep, find,
  All, is_empty, not-In_of_is_empty, is_empty_of_not-In, is_empty-difference_iff, In-map-elim,
  In-map-intro, All-imp, In, In-append, In-keep, find-some, find-none, any-elim, any-intro,
  all-elim, all-intro, contains, difference, meets, subset, contains_iff, In-difference, meets_iff,
  subset_iff, lookup, insert, remove, lookup-insert, lookup-remove,
}
use repo_mcp.Prelude.Text.{is_space, is_blank}
use repo_mcp.Prelude.Result.{Result, ok, err, ◌>>=◌}
use Prim.Native.String

pub record Library (F : Type 0) : Type 0 where
  pub nought : F
  pub one : F
  pub plus : F → F → F
  pub times : F → F → F
  pub divide : F → F → F
  pub sqrt : F → F
  pub equal : F → F → Bool
  pub greater : F → F → Bool
  pub lower : String → String
  pub sha256 : String → String
  pub pack : List F → String
  pub unpack : String → List F

pub record CacheKey : Type 0 where
  pub tenant : String
  pub project : String
  pub tool : String
  pub epoch : ℕ

pub record Hit (F : Type 0) : Type 0 where
  pub answer : String
  pub kind : String
  pub similarity : F
  pub age_seconds : ℕ

-- `AnswerCacheEntry`
pub record Entry : Type 0 where
  pub id : ℕ
  pub key : CacheKey
  pub question_hash : String
  pub question : String
  pub answer : String
  pub answer_model : String
  pub embedding_model : Option String
  pub embedding : Option String
  pub embedding_dim : ℕ
  pub hits : ℕ
  pub created_at : ℕ
  pub last_hit_at : Option ℕ

-- `ProjectIndexState`, whose key is the squad and the project
pub record IndexState : Type 0 where
  pub epoch : ℕ
  pub last_commit : Option String

abbrev pub Project : Type 0
Project = String × String

abbrev pub same_project : Project → Project → Bool
same_project (t, p) (u, q) = t == u && p == q

pub same_project_iff : (a b : Project) → (same_project a b ≡ true) ↔ (a ≡ b)
same_project_iff (t, p) (u, q) = ground (arith, eq_iff t u, eq_iff p q)

instance abbrev pub Project_eq : Eq Project
Project_eq = record { test = same_project; test_iff = same_project_iff }

pub record Db : Type 0 where
  pub entries : List Entry
  pub states : List (Project × IndexState)
  -- the id of the next row
  pub next_id : ℕ

-- `scalar_one_or_none` found several rows
pub data QueryError : Type 0 where
  multiple_rows : QueryError

abbrev pub one_or_none {ℓ} : {A : Type ℓ} → List A → Result QueryError (Option A)
one_or_none [] = ok none
one_or_none (a ∷ []) = ok (some a)
one_or_none (a ∷ b ∷ more) = err multiple_rows

abbrev pub at_key : CacheKey → CacheKey → Bool
at_key k j =
    j.tenant == k.tenant && j.project == k.project && j.tool == k.tool && nat_eq j.epoch k.epoch

-- `current_epoch`
abbrev pub epoch_of : Option IndexState → ℕ
epoch_of none = 0
epoch_of (some row) = row.epoch

unfoldable pub current_epoch : Db → String → String → ℕ
current_epoch db tenant project = epoch_of (lookup (tenant, project) db.states)

abbrev later_commit : Option String → Option String → Option String
later_commit none old = old
later_commit (some c) old = if c == "" then old else some c

abbrev next_state : Option IndexState → Option String → IndexState
next_state none commit = record { epoch = 1; last_commit = commit }
next_state (some row) commit = record {
  epoch = suc row.epoch;
  last_commit = later_commit commit row.last_commit;
}

-- the database, and the epoch that the function returns
unfoldable pub bump_epoch : Db → String → String → Option String → Db × ℕ
bump_epoch db tenant project commit =
    let row = next_state (lookup (tenant, project) db.states) commit in
    (record db { states = insert (tenant, project) row db.states }, row.epoch)

-- `question.strip()`
unfoldable pub strip_left : String → String
strip_left String.[] = String.[]
strip_left (String.◌∷◌ c s) =
    let rest = strip_left s in if is_space (code c) then rest else String.◌∷◌ c s

unfoldable pub strip_right : String → String
strip_right String.[] = String.[]
strip_right (String.◌∷◌ c s) =
    let rest = strip_right s in if is_blank (String.◌∷◌ c s) then String.[] else String.◌∷◌ c rest

-- `_WHITESPACE.sub(" ", text)`, behind white space or not
unfoldable pub squeeze : Bool → String → String
squeeze inside String.[] = String.[]
squeeze inside (String.◌∷◌ c s) = elim (is_space (code c)) [
  | true ↦ if inside then squeeze true s else String.◌++◌ " " (squeeze true s)
  | false ↦ String.◌∷◌ c (squeeze false s)
]

-- newest first, as `order_by(created_at.desc())`; the order of rows of one time is the table's
unfoldable pub place : Entry → List Entry → List Entry
place e [] = e ∷ []
place e (f ∷ fs) =
    let rest = place e fs in if ltb e.created_at f.created_at then f ∷ rest else e ∷ f ∷ fs

unfoldable pub newest : List Entry → List Entry
unfolding place
newest [] = []
newest (e ∷ es) = place e (newest es)

abbrev pub candidate_limit : ℕ
candidate_limit = 5000

-- `cutoff is None or created_at >= cutoff`
abbrev pub is_fresh : Option ℕ → Entry → Bool
is_fresh none e = true
is_fresh (some cutoff) e = leb cutoff e.created_at

abbrev pub cutoff_at : ℕ → ℕ → Option ℕ
cutoff_at now ttl_seconds = if ltb 0 ttl_seconds then some (now - ttl_seconds) else none

-- `_record_hit`
unfoldable pub record_hit : Db → Entry → ℕ → Db
record_hit db entry now = record db {
  entries =
      map
        (λ (e : Entry).
          if nat_eq e.id entry.id
          then record e { hits = suc e.hits; last_hit_at = some now }
          else e)
        db.entries;
}

abbrev pub text_of_bytes : Option String → String
text_of_bytes none = ""
text_of_bytes (some b) = b

abbrev pub same_model : String → Option String → Bool
same_model m none = false
same_model m (some n) = n == m

abbrev is_present {ℓ} : {A : Type ℓ} → Option A → Bool
is_present none = false
is_present (some a) = true

module _ {F : Type 0} (lib : Library F) where
  unfoldable pub normalise : String → String
  normalise question = squeeze false (lib.lower (strip_right (strip_left question)))

  unfoldable pub question_hash : String → String
  question_hash question = lib.sha256 (normalise question)

  abbrev products : List F → List F → List F
  products (x ∷ xs) (y ∷ ys) = lib.times x y ∷ products xs ys
  products _ _ = []

  abbrev total : F → List F → F
  total acc [] = acc
  total acc (x ∷ xs) = total (lib.plus acc x) xs

  unfoldable pub cosine : List F → List F → F
  cosine a b =
      let dot = total lib.nought (products a b) in
      let na = lib.sqrt (total lib.nought (products a a)) in
      let nb = lib.sqrt (total lib.nought (products b b)) in
      if not (nat_eq (length a) (length b))
      then lib.nought
      else if lib.equal na lib.nought || lib.equal nb lib.nought
      then lib.nought
      else lib.divide dot (lib.times na nb)

  abbrev pub is_exact : CacheKey → String → Entry → Bool
  is_exact key digest e = at_key key e.key && e.question_hash == digest

  abbrev pub is_candidate : CacheKey → String → ℕ → Entry → Bool
  is_candidate key model dim e =
      at_key key e.key
      && same_model model e.embedding_model
      && nat_eq e.embedding_dim dim
      && is_present e.embedding

  abbrev pub score : List F → Entry → F
  score embedding e = cosine embedding (lib.unpack (text_of_bytes e.embedding))

  -- one round of the loop over the candidates
  unfoldable pub consider : List F → Option ℕ → Entry → Option Entry × F → Option Entry × F
  consider embedding cutoff e (best, best_score) =
      if is_fresh cutoff e && lib.greater (score embedding e) best_score
      then (some e, score embedding e)
      else (best, best_score)

  unfoldable pub best_of : List F → Option ℕ → List Entry → Option Entry × F → Option Entry × F
  best_of embedding cutoff [] acc = acc
  best_of embedding cutoff (e ∷ es) acc =
      best_of embedding cutoff es (consider embedding cutoff e acc)

  unfoldable pub hit_of : String → F → ℕ → Entry → Hit F
  hit_of kind similarity now e = record {
    answer = e.answer;
    kind = kind;
    similarity = similarity;
    age_seconds = now - e.created_at;
  }

  abbrev pub usable : Option (List F) → Option String → Option (List F × String)
  usable (some v) (some m) = if m == "" then none else some (v, m)
  usable _ _ = none

  abbrev pub candidates : Db → CacheKey → String → ℕ → List Entry
  candidates db key model dim =
      take candidate_limit (newest (keep (is_candidate key model dim) db.entries))

  abbrev pub scored : Option Entry × F → F → ℕ → Db → Option (Hit F) × Db
  scored (none, best_score) threshold now db = (none, db)
  scored (some e, best_score) threshold now db =
      if lib.greater threshold best_score
      then (none, db)
      else (some (hit_of "semantic" best_score now e), record_hit db e now)

  unfoldable pub lookup_semantic :
      CacheKey → Option (List F × String) → F → Option ℕ → ℕ → Db → Option (Hit F) × Db
  lookup_semantic key none threshold cutoff now db = (none, db)
  lookup_semantic key (some (v, m)) threshold cutoff now db =
      scored (best_of v cutoff (candidates db key m (length v)) (none, lib.nought)) threshold now db

  unfoldable pub lookup_from :
      Option Entry
      → CacheKey
      → Option (List F × String)
      → F
      → Option ℕ
      → ℕ
      → Db
      → Option (Hit F) × Db
  lookup_from none key embedded threshold cutoff now db =
      lookup_semantic key embedded threshold cutoff now db
  lookup_from (some e) key embedded threshold cutoff now db =
      if is_fresh cutoff e
      then (some (hit_of "exact" lib.one now e), record_hit db e now)
      else lookup_semantic key embedded threshold cutoff now db

  unfoldable pub lookup_answer :
      CacheKey
      → String
      → Option (List F)
      → Option String
      → F
      → ℕ
      → ℕ
      → Db
      → Result QueryError (Option (Hit F) × Db)
  lookup_answer key question embedding model threshold ttl_seconds now db = do
    exact ← one_or_none (keep (is_exact key (question_hash question)) db.entries)
    ok (lookup_from exact key (usable embedding model) threshold (cutoff_at now ttl_seconds) now db)

  abbrev full_vector : Option (List F) → Option (List F)
  full_vector none = none
  full_vector (some []) = none
  full_vector (some (x ∷ xs)) = some (x ∷ xs)

  abbrev packed : Option (List F) → Option String
  packed none = none
  packed (some v) = some (lib.pack v)

  abbrev dimension : Option (List F) → ℕ
  dimension none = 0
  dimension (some v) = length v

  unfoldable pub new_entry :
      CacheKey → String → String → String → Option (List F) → Option String → ℕ → ℕ → Entry
  new_entry key question answer answer_model embedding model now id = record {
    id = id;
    key = key;
    question_hash = question_hash question;
    question = question;
    answer = answer;
    answer_model = answer_model;
    embedding_model = model;
    embedding = packed (full_vector embedding);
    embedding_dim = dimension (full_vector embedding);
    hits = 0;
    created_at = now;
    last_hit_at = none;
  }

  -- `store`: what the key and the question had is replaced
  unfoldable pub store_answer :
      CacheKey → String → String → String → Option (List F) → Option String → ℕ → Db → Db
  store_answer key question answer answer_model embedding model now db = record db {
    entries =
        keep (λ e. not (is_exact key (question_hash question) e)) db.entries
        ++ new_entry key question answer answer_model embedding model now db.next_id ∷ [];
    next_id = suc db.next_id;
  }

-- `purge`: an empty squad or project selects all of them
abbrev pub selects : Option String → String → Bool
selects none s = true
selects (some t) s = if t == "" then true else s == t

abbrev pub is_older : Option ℕ → ℕ → Entry → Bool
is_older none now e = true
is_older (some seconds) now e = ltb e.created_at (now - seconds)

unfoldable pub purge : Option String → Option String → Option ℕ → ℕ → Db → Db
purge tenant project older_than_seconds now db = record db {
  entries =
      keep
        (λ (e : Entry). not (
          selects tenant e.key.tenant
          && selects project e.key.project
          && is_older older_than_seconds now e))
        db.entries;
}

abbrev pub is_superseded : Project × IndexState → Entry → Bool
is_superseded ((tenant, project), row) e =
    e.key.tenant == tenant && e.key.project == project && ltb e.key.epoch row.epoch

-- the loop of `purge_superseded`
unfoldable pub drop_superseded : List (Project × IndexState) → List Entry → List Entry
drop_superseded [] es = es
drop_superseded (s ∷ ss) es = drop_superseded ss (keep (λ e. not (is_superseded s e)) es)

unfoldable pub purge_superseded : Db → Db
unfolding drop_superseded
purge_superseded db = record db { entries = drop_superseded db.states db.entries }
