-- ===== src/Configuration/Documents.antt =====
-- `_tenants_document` and `_scan_document` of common/repo_mcp_common/store.py: the documents that the
-- gateway and the indexer read, built from the tables. PostgreSQL orders names by its collation;
-- here they are ordered by code points.
pub mod Valid
pub mod Kept
pub mod Loads
pub mod Saved
pub mod Connectors
use repo_mcp.Prelude.{
  ℕ, zero, suc, ◌+◌, ◌-◌, ◌*◌, ◌/◌, ◌%◌, ◌≤◌, ◌<◌, String, ◌≡◌, refl, sym, ap, ◌∙◌, subst, ◌≢◌, ◌↔◌,
  ◌⊎◌, inl, inr, Bool, true, false, not, ◌&&◌, ◌||◌, Option, none, some, List, [], ◌∷◌, ◌++◌, map,
  arith, eq_iff, ltb, leb, nat_eq, if◌then◌else◌, nat_eq_iff, Bool-cases, Option-cases, and_iff,
  or_iff, not_iff, Eq, ◌==◌, ℕ_eq, String_eq, length, take, length-append, any, all, keep, find,
  All, is_empty, not-In_of_is_empty, is_empty_of_not-In, is_empty-difference_iff, In-map-elim,
  In-map-intro, All-imp, In, In-append, In-keep, find-some, find-none, any-elim, any-intro,
  all-elim, all-intro, contains, difference, meets, subset, contains_iff, In-difference, meets_iff,
  subset_iff, lookup, insert, remove, lookup-insert, lookup-remove, text_le, put_sorted, sorted_by,
  In-sorted_by, Pairwise, All-sorted_by, Pairwise-sorted_by, All-intro, In_of_All,
}
use repo_mcp.Prelude.Value.{Value, bool, str, arr, obj, nil, cons, Items, Fields, end, field}
use repo_mcp.Configuration.{TenantRow, ConnectorRow, Tables}
use repo_mcp.Configuration.Admin.{texts, tenant_name, connector_name}

abbrev pub itself : String → String
itself s = s

abbrev pub text_list : List String → Value
text_list ss = arr (texts ss)

-- `role_map.setdefault(role, []).append(group)`
unfoldable pub add_group :
    String → String → List (String × List String) → List (String × List String)
add_group role group [] = (role, group ∷ []) ∷ []
add_group role group ((r, gs) ∷ m) =
    let rest = add_group role group m in
    if r == role then (r, gs ++ group ∷ []) ∷ m else (r, gs) ∷ rest

unfoldable pub role_map :
    List (String × String) → List (String × List String) → List (String × List String)
role_map [] m = m
role_map ((role, group) ∷ rs) m = role_map rs (add_group role group m)

unfoldable pub role_fields : List (String × List String) → Fields
role_fields [] = end
role_fields ((role, groups) ∷ m) = field role (text_list (sorted_by itself groups)) (role_fields m)

abbrev key_field : Option String → Fields
key_field none = end
key_field (some k) = if k == "" then end else field "litellm_key_secret" (str k) end

abbrev denied_field : List String → Fields → Fields
denied_field [] fs = fs
denied_field (t ∷ ts) fs = field "denied_tools" (text_list (t ∷ ts)) fs

-- the fields that are there only if they say something
abbrev pub optional_fields : Bool → List String → Option String → Fields
optional_fields false denied key = denied_field denied (key_field key)
optional_fields true denied key =
    field "structural_only" (bool true) (denied_field denied (key_field key))

unfoldable pub tenant_entry : TenantRow → Fields
tenant_entry t = field "ldap_groups" (text_list (sorted_by itself t.ldap_groups)) (
    field "tool_profile" (str t.tool_profile) (
      field "projects" (text_list (sorted_by itself t.projects))
        (optional_fields t.structural_only t.denied_tools t.litellm_key_secret)))

unfoldable pub tenant_fields : List TenantRow → Fields
tenant_fields [] = end
tenant_fields (t ∷ ts) = field t.name (obj (tenant_entry t)) (tenant_fields ts)

abbrev pub enabled_tenants : List TenantRow → List TenantRow
enabled_tenants ts = keep (λ (t : TenantRow). t.enabled) (sorted_by tenant_name ts)

abbrev pub roles_field : List (String × List String) → Fields
roles_field [] = end
roles_field (r ∷ m) = field "roles" (obj (role_fields (r ∷ m))) end

unfoldable pub tenants_document : Tables → Fields
tenants_document db =
    field "tenants" (obj (tenant_fields (enabled_tenants db.tenants)))
      (roles_field (role_map db.roles []))

-- `entry.update(fields)`: a key that is there gets the new value
unfoldable pub set_field : String → Value → Fields → Fields
set_field k v end = field k v end
set_field k v (field j w fs) =
    let rest = set_field k v fs in if j == k then field j v fs else field j w rest

unfoldable pub update_fields : Fields → Fields → Fields
update_fields entry end = entry
update_fields entry (field k v fs) = update_fields (set_field k v entry) fs

abbrev token_field : Option String → Fields
token_field none = end
token_field (some t) = if t == "" then end else field "token_secret" (str t) end

abbrev pub or_all_of : List String → List String
or_all_of [] = "*" ∷ []
or_all_of (x ∷ xs) = x ∷ xs

-- what the row itself says, before its settings
unfoldable pub plain_entry : ConnectorRow → Fields
plain_entry c = field "name" (str c.name) (
    field "type" (str c.provider) (
      field "tenant" (str c.tenant) (
        field "include" (text_list (or_all_of c.include)) (
          field "exclude" (text_list c.exclude) (
            field "mode" (str c.mode)
              (field "persistence" (bool c.persistence) (token_field c.token_secret)))))))

unfoldable pub connector_entry : ConnectorRow → Fields
connector_entry c = update_fields (plain_entry c) c.settings

abbrev pub entry_items : List ConnectorRow → Items
entry_items [] = nil
entry_items (c ∷ cs) = cons (obj (connector_entry c)) (entry_items cs)

unfoldable pub scan_document : Tables → Fields
scan_document db =
    field "connectors"
      (arr (
        entry_items
          (keep (λ (c : ConnectorRow). c.enabled) (sorted_by connector_name db.connectors))))
      end
