-- ===== src/Configuration/Documents/Loads.antt =====
-- Loading into the gateway (gateway/app/tenants.py) the document that `_tenants_document` of
-- common/repo_mcp_common/store.py builds from the tables.
use mathlib.Core.Bool.{true, false}
use repo_mcp.Prelude.{
  Bool-cases, ◌==◌, ◌++◌, inr, All-sorted_by, String, ◌≡◌, refl, sym, ap, ◌∙◌, ◌≢◌, inl, false,
  none, some, List, [], ◌∷◌, map, arith, eq_iff, ℕ_eq, String_eq, is_empty, In, lookup, insert,
  lookup-insert, sorted_by, In_of_All, is_empty-sorted_by,
}
use repo_mcp.Prelude.Value.{Fields, end, get, truthy, nil, bool, Value, items, text_of}
use repo_mcp.Prelude.Result.{required, ok}
use repo_mcp.Configuration.Rows.{All-keep, Pairwise-keep, Distinct}
use repo_mcp.Tenants.Document.{
  parse_roles, roles_of, roles_not_mapping, from_dict, iterate, key_env, texts as read_texts,
  Key_eq, read_tenant, read_tenants, str_key, Seen, check_groups, full_list, or_else,
}
use repo_mcp.Configuration.Documents.Valid.{Valid, IsRole, Disjoint-swap, Loadable, Disjoint}
use repo_mcp.Configuration.Documents.{
  roles_field, add_group, role_map, role_fields, tenants_document, enabled_tenants, optional_fields,
  arr, itself, text_list, tenant_entry, tenant_fields, Pairwise-sorted_by, Pairwise, In-sorted_by,
}
use repo_mcp.Roles.{RoleAssignment, role_of, viewer}
use repo_mcp.Tenants.{profile_of, Tenant, TenantRegistry, analysis}
use repo_mcp.Configuration.{TenantRow, Tables, All, Bool, Option}
use repo_mcp.Configuration.Admin.{texts, tenant_name}

-- What the tables say of a squad, as the gateway keeps it. No squad gets a key of the model
-- gateway: the document names its secret `litellm_key_secret`, and the gateway reads `litellm_key_env`.
unfoldable pub tenant_of : TenantRow → Tenant
tenant_of t = record {
  name = t.name;
  ldap_groups = sorted_by itself t.ldap_groups;
  tool_profile = or_else (profile_of t.tool_profile) analysis;
  projects = sorted_by itself t.projects;
  structural_only = t.structural_only;
  denied_tools = t.denied_tools;
  litellm_key_env = none;
}

unfoldable pub assignment_of : String × List String → RoleAssignment
assignment_of (role, groups) = record {
  role = or_else (role_of role) viewer;
  ldap_groups = sorted_by itself groups;
}

unfoldable pub registry_of : Tables → TenantRegistry
registry_of db = record {
  tenants = map tenant_of (enabled_tenants db.tenants);
  role_assignments = map assignment_of (role_map db.roles []);
}

texts_back : (repr : Value → String) (ss : List String) → read_texts repr (items (texts ss)) ≡ ss
unfolding items text_of
texts_back repr [] = refl
texts_back repr (s ∷ ss) = ap (λ rest. s ∷ rest) (texts_back repr ss)

full_list-texts :
    (ss : List String)
    → is_empty ss ≡ false
    → full_list (some (text_list ss)) ≡ some (items (texts ss))
unfolding items
full_list-texts [] h = cc
full_list-texts (s ∷ ss) h = refl

sorted-full : (ss : List String) → is_empty ss ≡ false → is_empty (sorted_by itself ss) ≡ false
sorted-full ss h = is_empty-sorted_by itself ss ∙ h

lookup-fresh :
    (g k name : String) (seen : Seen)
    → g ≢ k
    → lookup (str_key k) (insert (str_key g) name seen) ≡ lookup (str_key k) seen
lookup-fresh g k name seen h =
    ground (arith, lookup-insert (str_key g) (str_key k) name seen, eq_iff g k)

-- What `seen` says of the groups that a loop does not come across.
check_groups-ok :
    (name : String) (gs : List String) (seen : Seen)
    → Distinct gs
    → ((g : String) → In g gs → lookup (str_key g) seen ≡ none)
    → (seen' : Seen) × (check_groups name (items (texts gs)) seen ≡ ok seen')
      × ((k : String) → ¬ In k gs → lookup (str_key k) seen' ≡ lookup (str_key k) seen)
unfolding check_groups items
check_groups-ok name [] seen d free = (seen, refl, λ k n. refl)
check_groups-ok name (g ∷ gs) seen d free =
    let (seen', run, kept) =
      check_groups-ok name gs (insert (str_key g) name seen) d.1
        (λ k m. lookup-fresh g k name seen (In_of_All _ gs d.0 k m) ∙ free k (inr m)) in
    (
      seen',
      rw (free g (inl refl), check_groups) run,
      λ k n. kept k (λ m. n (inr m)) ∙ lookup-fresh g k name seen (λ e. n (inl (sym e))),
    )

module _ (repr : Value → String) where
  -- What is left out of a squad's entry is what the gateway puts in its place.
  get-optional :
      (structural : Bool) (denied : List String) (key : Option String)
      → (iterate (or_else (get "denied_tools" (optional_fields structural denied key)) (arr nil))
          ≡ some (items (texts denied)))
        × (truthy
              (or_else (get "structural_only" (optional_fields structural denied key)) (bool false))
            ≡ structural)
        × (key_env repr (get "litellm_key_env" (optional_fields structural denied key)) ≡ none)
  unfolding get truthy items
  get-optional true [] none = (refl, refl, refl)
  get-optional true (d ∷ ds) none = (refl, refl, refl)
  get-optional false [] none = (refl, refl, refl)
  get-optional false (d ∷ ds) none = (refl, refl, refl)
  get-optional true [] (some k) = ground (arith, eq_iff k "")
  get-optional true (d ∷ ds) (some k) = ground (arith, eq_iff k "")
  get-optional false [] (some k) = ground (arith, eq_iff k "")
  get-optional false (d ∷ ds) (some k) = ground (arith, eq_iff k "")

  read_tenant-entry :
      (t : TenantRow) (seen : Seen)
      → Loadable t
      → ((g : String) → In g t.ldap_groups → lookup (str_key g) seen ≡ none)
      → (seen' : Seen) × (read_tenant repr t.name (tenant_entry t) seen ≡ ok (tenant_of t, seen'))
        × ((k : String) → ¬ In k t.ldap_groups → lookup (str_key k) seen' ≡ lookup (str_key k) seen)
  unfolding read_tenant tenant_entry tenant_of get text_of truthy
  read_tenant-entry t seen l free =
      let groups = sorted_by itself t.ldap_groups in
      let (seen', run, kept) =
        check_groups-ok t.name groups seen
          (Pairwise-sorted_by itself ◌≢◌ (λ a b h e. h (sym e)) t.ldap_groups l.once)
          (λ g m. free g ((In-sorted_by itself g t.ldap_groups).0 m)) in
      let (denied, structural, key) =
        get-optional t.structural_only t.denied_tools t.litellm_key_secret in
      (
        seen',
        rw
            (
              l.profiled,
              full_list-texts groups (sorted-full t.ldap_groups l.grouped),
              full_list-texts (sorted_by itself t.projects) (sorted-full t.projects l.placed),
              run,
              denied,
              structural,
              key,
              texts_back repr groups,
              texts_back repr (sorted_by itself t.projects),
              texts_back repr t.denied_tools,
            )
            refl,
        λ k n. kept k (λ m. n ((In-sorted_by itself k t.ldap_groups).0 m)),
      )

  read_tenants-entries :
      (ts : List TenantRow) (seen : Seen)
      → All Loadable ts
      → Pairwise Disjoint ts
      → ((t : TenantRow)
          → In t ts
          → (g : String) → In g t.ldap_groups
          → lookup (str_key g) seen ≡ none)
      → read_tenants repr (tenant_fields ts) seen ≡ ok (map tenant_of ts)
  unfolding read_tenants tenant_fields
  read_tenants-entries [] seen l d free = refl
  read_tenants-entries (t ∷ ts) seen l d free =
      let (seen', run, kept) = read_tenant-entry t seen l.0 (free t (inl refl)) in
      let later =
        read_tenants-entries ts seen' l.1 d.1
          (λ u m g n. kept g (λ k. In_of_All (Disjoint t) ts d.0 u m g k n) ∙ free u (inr m) g n) in
      rw (run, later) refl

  -- A role with its groups that the gateway can read.
  abbrev RoleKnown : String × List String → Type 0
  RoleKnown r = IsRole (r.0, "") × (is_empty r.1 ≡ false)

  snoc_full : (gs : List String) (g : String) → is_empty (gs ++ g ∷ []) ≡ false
  snoc_full [] g = refl
  snoc_full (h ∷ hs) g = refl

  add_group-RoleKnown :
      (role group : String) (m : List (String × List String))
      → IsRole (role, group)
      → All RoleKnown m
      → All RoleKnown (add_group role group m)
  unfolding add_group
  add_group-RoleKnown role group [] known h = ((known, refl), tt)
  add_group-RoleKnown role group ((r, gs) ∷ m) known h = elim (Bool-cases (r == role)) [
    | inl same ↦ rw same ((h.0.0, snoc_full gs group), h.1)
    | inr other ↦ rw other (h.0, add_group-RoleKnown role group m known h.1)
  ]

  role_map-RoleKnown :
      (rs : List (String × String)) (m : List (String × List String))
      → All IsRole rs
      → All RoleKnown m
      → All RoleKnown (role_map rs m)
  unfolding role_map
  role_map-RoleKnown [] m known h = h
  role_map-RoleKnown ((role, group) ∷ rs) m known h =
      role_map-RoleKnown rs (add_group role group m) known.1
        (add_group-RoleKnown role group m known.0 h)

  parse_roles-fields :
      (m : List (String × List String))
      → All RoleKnown m
      → parse_roles repr (role_fields m) ≡ ok (map assignment_of m)
  unfolding parse_roles role_fields assignment_of
  parse_roles-fields [] h = refl
  parse_roles-fields ((role, groups) ∷ m) h =
      rw
        (
          h.0.0.1,
          full_list-texts (sorted_by itself groups) (sorted-full groups h.0.1),
          parse_roles-fields m h.1,
          texts_back repr (sorted_by itself groups),
        )
        refl

  read_roles :
      (m : List (String × List String))
      → All RoleKnown m
      → (fs : Fields) × (required (roles_of repr (get "roles" (roles_field m))) roles_not_mapping
          ≡ ok fs)
        × (parse_roles repr fs ≡ ok (map assignment_of m))
  unfolding get truthy role_fields parse_roles
  read_roles [] h = (end, refl, refl)
  read_roles (r ∷ m) h = (role_fields (r ∷ m), refl, parse_roles-fields (r ∷ m) h)

  pub from_dict-tenants_document :
      (db : Tables) → Valid db → from_dict repr (tenants_document db) ≡ ok (registry_of db)
  unfolding from_dict tenants_document registry_of get lookup
  from_dict-tenants_document db v =
      let ts = enabled_tenants db.tenants in
      let squads =
        read_tenants-entries ts []
          (All-keep Loadable _ _ (All-sorted_by tenant_name Loadable db.tenants v.loadable))
          (Pairwise-keep Disjoint _ _
            (Pairwise-sorted_by tenant_name Disjoint Disjoint-swap db.tenants v.apart))
          (λ t m g n. refl) in
      let (fs, given, read) =
        read_roles (role_map db.roles []) (role_map-RoleKnown db.roles [] v.roles tt) in
      rw (squads, given, read) refl
