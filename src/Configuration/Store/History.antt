-- ===== src/Configuration/Store/History.antt =====
-- The database through the time, and the one that a list of changes makes of it.
use repo_mcp.Prelude.{
  Option-cases, true, Bool, some, suc, zero, take, not, ◌==◌, inl, inr, refl, ◌∙◌, false, arith,
  List, ℕ, ◌≤◌, String, ◌≡◌, [], ◌∷◌, ℕ_eq, String_eq,
}
use repo_mcp.Prelude.Result.{Holds-ok, Result-cases, required, Holds-bind, Holds-guard, Holds}
use repo_mcp.Configuration.Admin.Traced.{Traced, apply-Traced, configures}
use repo_mcp.Configuration.{row_named, Tables}
use repo_mcp.Configuration.Passwords.{hash_password, Hasher}
use repo_mcp.Configuration.Admin.{
  absent, hashed, stripped, admin_name, empty_username, admin_exists, no_admin, create_admin,
  set_admin_password, commit, record_entry, next_generation,
}
use repo_mcp.Configuration.Admin.Actions.{Action, apply, run}
use repo_mcp.Configuration.Store.{current_generation}

-- The same configuration: the accounts, the generation and the log are no part of it.
pub record Same (db db' : Tables) : Type 0 where
  pub tenants : db'.tenants ≡ db.tenants
  pub roles : db'.roles ≡ db.roles
  pub connectors : db'.connectors ≡ db.connectors
  pub settings : db'.settings ≡ db.settings
  pub secrets : db'.secrets ≡ db.secrets

-- The generation never falls, and one generation is one configuration.
pub record History (h : ℕ → Tables) : Type 0 where
  pub rises : (s t : ℕ) → s ≤ t → current_generation (h s) ≤ current_generation (h t)
  pub names :
      (s t : ℕ) → s ≤ t → current_generation (h s) ≡ current_generation (h t) → Same (h s) (h t)

-- One state of the database and a later one.
pub record Later (db db' : Tables) : Type 0 where
  pub rises : current_generation db ≤ current_generation db'
  pub names : current_generation db ≡ current_generation db' → Same db db'

Same-refl : (db : Tables) → Same db db
Same-refl db = record {
  tenants = refl;
  roles = refl;
  connectors = refl;
  settings = refl;
  secrets = refl;
}

Same-trans : {a b c : Tables} → Same a b → Same b c → Same a c
Same-trans h k = record {
  tenants = k.tenants ∙ h.tenants;
  roles = k.roles ∙ h.roles;
  connectors = k.connectors ∙ h.connectors;
  settings = k.settings ∙ h.settings;
  secrets = k.secrets ∙ h.secrets;
}

Later-refl : (db : Tables) → Later db db
Later-refl db = record { rises = omega arith; names = λ e. Same-refl db }

Later-trans : {a b c : Tables} → Later a b → Later b c → Later a c
Later-trans {a} {b} {c} h k =
    let p = h.rises in
    let q = k.rises in
    record {
      rises = omega arith;
      names = λ e. Same-trans (h.names (omega arith)) (k.names (omega arith));
    }

next_raises :
    (db db' : Tables)
    → db'.generation ≡ some (next_generation db.generation)
    → current_generation db' ≡ suc (current_generation db)
unfolding current_generation
next_raises db db' h = elim (Option-cases db.generation) [
  | inl e ↦ rw (h, e) refl
  | inr (n, e) ↦ rw (h, e) refl
]

keeps_generation :
    (db db' : Tables)
    → db'.generation ≡ db.generation
    → current_generation db' ≡ current_generation db
unfolding current_generation
keeps_generation db db' h = rw h refl

Later-Traced :
    {actor : String} (raised : Bool) (db db' : Tables)
    → Traced raised actor db db'
    → (raised ≡ false → Same db db')
    → Later db db'
Later-Traced true db db' t same =
    let next = next_raises db db' t.counted in
    record { rises = omega arith; names = λ e. absurd (omega arith) }
Later-Traced false db db' t same =
    let kept = keeps_generation db db' t.counted in
    record { rises = omega arith; names = λ e. same refl }

module _ (lower : String → String) (hasher : Hasher) (encrypt : String → String) where
  -- the changes of accounts leave the configuration
  apply-Same :
      (a : Action) (actor : String) (db : Tables)
      → configures a ≡ false
      → Holds (Same db) (apply lower hasher encrypt a actor db)
  unfolding apply create_admin set_admin_password record_entry
  apply-Same (Action.new_admin username password) actor db h =
      Holds-guard _ (not (lower (stripped username) == "")) empty_username _ (λ a.
        Holds-bind _
          (absent (row_named admin_name (lower (stripped username)) db.admins)
            (admin_exists (lower (stripped username))))
          _
          (λ b e. Holds-bind _ (hashed (hash_password hasher password)) _ (λ c g. record {
            tenants = refl;
            roles = refl;
            connectors = refl;
            settings = refl;
            secrets = refl;
          })))
  apply-Same (Action.new_password username password) actor db h =
      Holds-bind _ (required (row_named admin_name (lower username) db.admins) (no_admin username))
        _
        (λ b e. Holds-bind _ (hashed (hash_password hasher password)) _ (λ c g. record {
          tenants = refl;
          roles = refl;
          connectors = refl;
          settings = refl;
          secrets = refl;
        }))
  apply-Same a actor db h = cc

  commit-Later :
      (a : Action) (actor : String) (db : Tables)
      → Later db (commit (apply lower hasher encrypt a actor db) db)
  commit-Later a actor db = elim (Result-cases (apply lower hasher encrypt a actor db)) [
    | inl (e, failed) ↦ rw failed (Later-refl db)
    | inr (db', done) ↦ rw done (
        Later-Traced (configures a) db db' (apply-Traced lower hasher encrypt a actor db db' done)
          (λ h.
            Holds-ok (Same db) (apply lower hasher encrypt a actor db) (apply-Same a actor db h)
              done))
  ]

  run-Later :
      (changes : List (Action × String)) (db : Tables) (s t : ℕ)
      → s ≤ t
      → Later
          (run lower hasher encrypt (take s changes) db)
          (run lower hasher encrypt (take t changes) db)
  unfolding run
  run-Later [] db zero zero le = Later-refl db
  run-Later [] db zero (suc t) le = Later-refl db
  run-Later [] db (suc s) zero le = Later-refl db
  run-Later [] db (suc s) (suc t) le = Later-refl db
  run-Later ((a, actor) ∷ rest) db zero zero le = Later-refl db
  run-Later ((a, actor) ∷ rest) db (suc s) zero le = absurd (omega arith)
  run-Later ((a, actor) ∷ rest) db (suc s) (suc t) le =
      run-Later rest (commit (apply lower hasher encrypt a actor db) db) s t (omega arith)
  run-Later ((a, actor) ∷ rest) db zero (suc t) le =
      Later-trans (commit-Later a actor db)
        (run-Later rest (commit (apply lower hasher encrypt a actor db) db) zero t (omega arith))

  -- The database after so many changes as there have been ticks.
  unfoldable pub after_changes : List (Action × String) → Tables → ℕ → Tables
  after_changes changes db t = run lower hasher encrypt (take t changes) db

  pub after_changes-History :
      (changes : List (Action × String)) (db : Tables) → History (after_changes changes db)
  unfolding after_changes
  after_changes-History changes db = record {
    rises = λ s t le. (run-Later changes db s t le).rises;
    names = λ s t le e. (run-Later changes db s t le).names e;
  }
