-- ===== src/Tenants/Tests.antt =====
-- A configuration document and its squads, on which the results about them are run.
use repo_mcp.Prelude.{
  ◌≤◌, String, ◌≡◌, refl, ◌↔◌, true, false, none, [], ◌∷◌, ℕ_eq, String_eq, length, In, lookup,
  insert,
}
use repo_mcp.Prelude.Value.{
  items, truthy, text_of, get, Value, str, arr, obj, nil, cons, Fields, end, field,
}
use repo_mcp.Tenants.{Tenant, analysis, TenantRegistry, allows_project, for_groups, allowed_tools}
use repo_mcp.Tenants.Document.{read_tenant, check_groups, from_dict}
use repo_mcp.Tenants.Disjoint.{from_dict-AllApart, for_groups-le_one, AllApart}
use repo_mcp.Tenants.Allowed.{allows_project_iff, Holds, In-allowed_tools, Allows}

abbrev repr : Value → String
repr v = "?"

abbrev listed : String → Value
listed s = arr (cons (str s) nil)

abbrev squad_config : String → String → Fields
squad_config group project =
    field "ldap_groups" (listed group) (field "projects" (listed project) end)

abbrev squads : Fields
squads =
    field "payments" (obj (squad_config "cn=payments" "acme-pay-*"))
      (field "search" (obj (squad_config "cn=search" "*")) end)

abbrev document : Fields
document = field "tenants" (obj squads) end

abbrev squad : String → String → String → Tenant
squad name group project = record {
  name = name;
  ldap_groups = group ∷ [];
  tool_profile = analysis;
  projects = project ∷ [];
  structural_only = false;
  denied_tools = [];
  litellm_key_env = none;
}

abbrev payments : Tenant
payments = squad "payments" "cn=payments" "acme-pay-*"

abbrev search_squad : Tenant
search_squad = squad "search" "cn=search" "*"

abbrev registry : TenantRegistry
registry = record { tenants = payments ∷ search_squad ∷ []; role_assignments = [] }

from_dict-AllApart_example : AllApart registry.tenants
unfolding from_dict get items read_tenant check_groups lookup insert truthy text_of
from_dict-AllApart_example =
    from_dict-AllApart repr document squads registry refl ((tt, tt), ((tt, tt), tt)) refl

for_groups-le_one_example : length (for_groups registry ("cn=search" ∷ [])) ≤ 1
for_groups-le_one_example = for_groups-le_one registry "cn=search" from_dict-AllApart_example

allows_project_iff_example :
    (allows_project payments "acme-pay-api" ≡ true) ↔ Holds payments "acme-pay-api"
allows_project_iff_example = allows_project_iff payments "acme-pay-api"

In-allowed_tools_example : In "search_code" (allowed_tools payments) ↔ Allows payments "search_code"
In-allowed_tools_example = In-allowed_tools payments "search_code"
