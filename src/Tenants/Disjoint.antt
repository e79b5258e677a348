-- ===== src/Tenants/Disjoint.antt =====
-- No LDAP group leads to two squads of a loaded registry.
use repo_mcp.Prelude.{
  ◌≤◌, String, ◌≡◌, refl, subst, ◌≢◌, inl, inr, true, Option, none, some, List, [], ◌∷◌, arith,
  Bool-cases, Option-cases, ℕ_eq, String_eq, length, keep, All, In, meets, meets_iff, lookup,
  insert, lookup-insert, All-imp,
}
use repo_mcp.Prelude.Value.{Value, str, obj, Fields, end, field, get, text_of}
use repo_mcp.Prelude.Result.{ok, Result-cases}
use repo_mcp.Tenants.{Tenant, TenantRegistry, for_groups}
use repo_mcp.Tenants.Document.{
  Key, str_key, Key_eq, key_of, full_list, Seen, check_groups, texts, read_tenant, read_tenants,
  entries_of, from_dict,
}

abbrev pub IsText : Value → Type 0
IsText (str s) = Unit
IsText _ = ⊥

abbrev pub TextGroups : Option (List Value) → Type 0
TextGroups none = Unit
TextGroups (some vs) = All IsText vs

-- Every group that a squad names is a text, as it is in a document from the database.
abbrev pub HasTextGroups : Fields → Type 0
HasTextGroups end = Unit
HasTextGroups (field name (obj cfg) rest) =
    TextGroups (full_list (get "ldap_groups" cfg)) × HasTextGroups rest
HasTextGroups (field name v rest) = HasTextGroups rest

abbrev pub Apart : Tenant → Tenant → Type 0
Apart t u = (g : String) → In g t.ldap_groups → ¬ In g u.ldap_groups

abbrev pub AllApart : List Tenant → Type 0
AllApart [] = Unit
AllApart (t ∷ ts) = All (Apart t) ts × AllApart ts

-- What one round of the loop over the groups has found and done.
check_groups-cons :
    (name : String) (g : Value) (gs : List Value) (seen : Seen) {seen' : Seen}
    → check_groups name (g ∷ gs) seen ≡ ok seen'
    → (k : Key) × (key_of g ≡ some k)
      × (lookup k seen ≡ none)
      × (check_groups name gs (insert k name seen) ≡ ok seen')
unfolding check_groups
check_groups-cons name g gs seen h = elim (Option-cases (key_of g)) [
  | inl e ↦ cc (rw (e, check_groups) at h)
  | inr (k, e) ↦ elim (Option-cases (lookup k seen)) [
    | inl miss ↦ (k, e, miss, rw (e, miss, check_groups) at h)
    | inr (other, hit) ↦ cc (rw (e, hit, check_groups) at h)
  ]
]

check_groups-kept :
    (name : String) (gs : List Value) (seen : Seen) {seen' : Seen} (k : Key)
    → check_groups name gs seen ≡ ok seen'
    → lookup k seen' ≡ none
    → lookup k seen ≡ none
unfolding check_groups
check_groups-kept name [] seen k h miss = ground arith
check_groups-kept name (g ∷ gs) seen k h miss =
    let (j, e, free, rest) = check_groups-cons name g gs seen h in
    let later = check_groups-kept name gs (insert j name seen) k rest miss in
    ground (arith, lookup-insert j k name seen, later)

check_groups-fresh :
    (name : String) (gs : List Value) (seen : Seen) {seen' : Seen} (repr : Value → String)
    (s : String)
    → All IsText gs
    → check_groups name gs seen ≡ ok seen'
    → In s (texts repr gs)
    → (lookup (str_key s) seen ≡ none) × (lookup (str_key s) seen' ≢ none)
unfolding text_of
check_groups-fresh name [] seen repr s t h m = absurd m
check_groups-fresh name (str u ∷ gs) seen repr s t h (inl here) =
    let (j, e, free, rest) = check_groups-cons name (str u) gs seen h in
    let same : str_key s ≡ j = cc in
    (
      rw same free,
      λ miss.
          let later = check_groups-kept name gs (insert j name seen) (str_key s) rest miss in
          ground
            (arith, lookup-insert j (str_key s) name seen, later, Key_eq.test_iff j (str_key s)),
    )
check_groups-fresh name (str u ∷ gs) seen repr s t h (inr there) =
    let (j, e, free, rest) = check_groups-cons name (str u) gs seen h in
    let (before, after) = check_groups-fresh name gs (insert j name seen) repr s t.1 rest there in
    (ground (arith, lookup-insert j (str_key s) name seen, before), after)
check_groups-fresh name (g ∷ gs) seen repr s t h m = absurd t.0

module _ (repr : Value → String) where
  record HasGroups (name : String) (cfg : Fields) (seen : Seen) (t : Tenant) (seen' : Seen)
      : Type 0 where
    groups : List Value
    given : full_list (get "ldap_groups" cfg) ≡ some groups
    checked : check_groups name groups seen ≡ ok seen'
    held : t.ldap_groups ≡ texts repr groups

  read_tenant-HasGroups :
      (name : String) (cfg : Fields) (seen : Seen) (t : Tenant) (seen' : Seen)
      → read_tenant repr name cfg seen ≡ ok (t, seen')
      → HasGroups name cfg seen t seen'
  unfolding read_tenant
  read_tenant-HasGroups name cfg seen t seen' h =
      elim (Option-cases (full_list (get "ldap_groups" cfg))) [
        | inl missing ↦ absurd (ground arith)
        | inr (groups, given) ↦ elim (Result-cases (check_groups name groups seen)) [
          | inl (e, clash) ↦ absurd (ground arith)
          | inr (seen'', checked) ↦ record {
            groups = groups;
            given = given;
            checked = ground arith;
            held = ground arith;
          }
        ]
      ]

  -- A squad's groups were not seen before its definition, and are seen after it.
  read_tenant-fresh :
      (name : String) (cfg : Fields) (seen : Seen) (t : Tenant) (seen' : Seen) (s : String)
      → TextGroups (full_list (get "ldap_groups" cfg))
      → read_tenant repr name cfg seen ≡ ok (t, seen')
      → In s t.ldap_groups
      → (lookup (str_key s) seen ≡ none) × (lookup (str_key s) seen' ≢ none)
  read_tenant-fresh name cfg seen t seen' s texty h m =
      let g = read_tenant-HasGroups name cfg seen t seen' h in
      check_groups-fresh name g.groups seen repr s (subst TextGroups g.given texty) g.checked
        (subst (In s) g.held m)

  -- The groups of the squads that are still to come have not been seen yet.
  abbrev Unseen : Seen → Tenant → Type 0
  Unseen seen t = (s : String) → In s t.ldap_groups → lookup (str_key s) seen ≡ none

  Unseen-kept :
      (name : String) (cfg : Fields) (seen : Seen) (t : Tenant) (seen' : Seen)
      → read_tenant repr name cfg seen ≡ ok (t, seen')
      → (u : Tenant) → Unseen seen' u
      → Unseen seen u
  Unseen-kept name cfg seen t seen' h u unseen s m =
      let g = read_tenant-HasGroups name cfg seen t seen' h in
      check_groups-kept name g.groups seen (str_key s) g.checked (unseen s m)

  read_tenants-fresh :
      (doc : Fields) (seen : Seen) (ts : List Tenant)
      → HasTextGroups doc
      → read_tenants repr doc seen ≡ ok ts
      → All (Unseen seen) ts × AllApart ts
  unfolding read_tenants
  read_tenants-fresh end seen [] texty h = (tt, tt)
  read_tenants-fresh end seen (t ∷ ts) texty h = cc
  read_tenants-fresh (field name (obj cfg) rest) seen ts texty h =
      elim (Result-cases (read_tenant repr name cfg seen)) [
        | inl (e, failed) ↦ absurd (ground arith)
        | inr ((t, seen'), made) ↦ elim (Result-cases (read_tenants repr rest seen')) [
          | inl (e, failed) ↦ absurd (ground arith)
          | inr (us, others) ↦
              let (unseen, apart) = read_tenants-fresh rest seen' us texty.1 others in
              let here = λ (s : String). read_tenant-fresh name cfg seen t seen' s texty.0 made in
              let all : t ∷ us ≡ ts = ground arith in
              subst (λ l. All (Unseen seen) l × AllApart l) all
                (
                  (λ s m. (here s m).0, All-imp us (Unseen-kept name cfg seen t seen' made) unseen),
                  (All-imp us (λ u later s m n. (here s m).1 (later s n)) unseen, apart),
                )
        ]
      ]
  read_tenants-fresh (field name v rest) seen ts texty h = cc

  -- A document whose groups are texts is read into squads no two of which share an LDAP group.
  pub from_dict-AllApart :
      (raw entries : Fields) (reg : TenantRegistry)
      → entries_of repr (get "tenants" raw) ≡ some entries
      → HasTextGroups entries
      → from_dict repr raw ≡ ok reg
      → AllApart reg.tenants
  unfolding from_dict
  from_dict-AllApart raw entries reg named texty h =
      elim (Result-cases (read_tenants repr entries [])) [
        | inl (e, failed) ↦ absurd (ground arith)
        | inr (ts, made) ↦
            let (unseen, apart) = read_tenants-fresh entries [] ts texty made in
            subst AllApart (ground arith) apart
      ]

-- With one LDAP group a user reaches at most one squad.
meets_one : (g : String) (t : Tenant) → meets t.ldap_groups (g ∷ []) ≡ true → In g t.ldap_groups
meets_one g t h = let (a, m, n) = (meets_iff t.ldap_groups (g ∷ [])).0 h in ground arith

for_groups-none :
    (t : Tenant) (g : String) (ts : List Tenant)
    → In g t.ldap_groups
    → All (Apart t) ts
    → keep (λ (u : Tenant). meets u.ldap_groups (g ∷ [])) ts ≡ []
unfolding keep
for_groups-none t g [] m h = refl
for_groups-none t g (u ∷ us) m h = elim (Bool-cases (meets u.ldap_groups (g ∷ []))) [
  | inl e ↦ absurd (h.0 g m (meets_one g u e))
  | inr e ↦ rw e (for_groups-none t g us m h.1)
]

keep-AllApart :
    (g : String) (ts : List Tenant)
    → AllApart ts
    → length (keep (λ (u : Tenant). meets u.ldap_groups (g ∷ [])) ts) ≤ 1
unfolding keep
keep-AllApart g [] h = omega arith
keep-AllApart g (t ∷ ts) h = elim (Bool-cases (meets t.ldap_groups (g ∷ []))) [
  | inl e ↦ rw (e, for_groups-none t g ts (meets_one g t e) h.0) (omega arith)
  | inr e ↦ rw e (keep-AllApart g ts h.1)
]

-- In a registry whose squads share no LDAP group, one group leads to at most one squad.
pub for_groups-le_one :
    (reg : TenantRegistry) (g : String)
    → AllApart reg.tenants
    → length (for_groups reg (g ∷ [])) ≤ 1
unfolding for_groups
for_groups-le_one reg g h = keep-AllApart g reg.tenants h
