-- ===== src/Configuration.antt =====
-- The configuration that the database holds: the tables of common/repo_mcp_common/models.py that an
-- administrator changes, as lists of rows. The LDAP groups and the projects of a squad, which are
-- tables of their own there, stand in the squad's row, and a connector names its squad.
pub mod Rows
pub mod Passwords
pub mod Admin
pub mod Documents
pub mod Store
mod Tests
use repo_mcp.Prelude.{
  ℕ, zero, suc, ◌+◌, ◌-◌, ◌*◌, ◌/◌, ◌%◌, ◌≤◌, ◌<◌, String, ◌≡◌, refl, sym, ap, ◌∙◌, subst, ◌≢◌, ◌↔◌,
  ◌⊎◌, inl, inr, Bool, true, false, not, ◌&&◌, ◌||◌, Option, none, some, List, [], ◌∷◌, ◌++◌, map,
  arith, eq_iff, ltb, leb, nat_eq, if◌then◌else◌, nat_eq_iff, Bool-cases, Option-cases, and_iff,
  or_iff, not_iff, Eq, ◌==◌, ℕ_eq, String_eq, length, take, length-append, any, all, keep, find,
  All, is_empty, not-In_of_is_empty, is_empty_of_not-In, is_empty-difference_iff, In-map-elim,
  In-map-intro, All-imp, In, In-append, In-keep, find-some, find-none, any-elim, any-intro,
  all-elim, all-intro, contains, difference, meets, subset, contains_iff, In-difference, meets_iff,
  subset_iff, lookup, insert, remove, lookup-insert, lookup-remove,
}
use repo_mcp.Prelude.Value.{Value, Fields}

pub record AdminUser : Type 0 where
  pub username : String
  pub password_hash : String
  pub is_active : Bool
  pub must_change_password : Bool
  pub last_login_at : Option ℕ

pub record SecretRow : Type 0 where
  pub name : String
  pub ciphertext : String
  pub description : Option String

pub record TenantRow : Type 0 where
  pub name : String
  pub tool_profile : String
  pub structural_only : Bool
  pub denied_tools : List String
  pub litellm_key_secret : Option String
  pub enabled : Bool
  pub ldap_groups : List String
  pub projects : List String

pub record ConnectorRow : Type 0 where
  pub name : String
  pub provider : String
  pub tenant : String
  pub settings : Fields
  pub token_secret : Option String
  pub include : List String
  pub exclude : List String
  pub mode : String
  pub persistence : Bool
  pub enabled : Bool

-- `AuditEntry`: the details that the code records are texts, lists of texts or a setting's value.
pub record AuditRow : Type 0 where
  pub actor : String
  pub action : String
  pub target : Option String
  pub detail : Fields

-- `roles` has the pairs of a role and a group.
pub record Tables : Type 0 where
  pub admins : List AdminUser
  pub secrets : List SecretRow
  pub tenants : List TenantRow
  pub roles : List (String × String)
  pub connectors : List ConnectorRow
  pub settings : List (String × Value)
  pub generation : Option ℕ
  pub audit : List AuditRow

-- Rows that are told apart by a name: `select(...).where(... == name)` finds at most one.
module _ {A : Type 0} (name_of : A → String) where
  unfoldable pub row_named : String → List A → Option A
  row_named name rows = find (λ a. name_of a == name) rows

  -- the row of that name is written over, or the row is added
  unfoldable pub put_row : A → List A → List A
  put_row a [] = a ∷ []
  put_row a (b ∷ bs) =
      let rest = put_row a bs in if name_of b == name_of a then a ∷ bs else b ∷ rest

  unfoldable pub drop_row : String → List A → List A
  drop_row name rows = keep (λ a. not (name_of a == name)) rows

-- `dict.fromkeys(xs)`: what comes again is left out
unfoldable pub distinct_of : List String → List String → List String
distinct_of seen [] = []
distinct_of seen (x ∷ xs) =
    let rest = distinct_of (x ∷ seen) xs in
    let again = distinct_of seen xs in if contains seen x then again else x ∷ rest
