-- ===== src/Examples/Tenants.antt =====
-- Examples for the tenant hierarchy and the policies that it gives.
use veronica.Prelude.{◌≤◌, ◌≡◌, refl, String, Option, none, some, List, [], ◌∷◌, length}
use mathlib.Core.List.{reverse}
use veronica.Prelude.Result.{ok}
use veronica.Prelude.Dict.{get, put}
use veronica.Float.Sample.{Micro, micro}
use veronica.Tenants.{TenantNode, max_depth, register, walk, get_ancestors, climb, delete}
use veronica.Prelude.{◌⊎◌, false}
use veronica.Prelude.Int.{pos}
use veronica.Prelude.Result.{err, http_404}
use veronica.Float.Sample.{micro_float, micro_laws}
use veronica.Types
use veronica.Values.{int, float}
use veronica.Resolver.{Effective, ceiling_usd_field, resolve}
use veronica.Resolver.Nearest.{Decides, last_override, all_overrides, resolve-Decides}
use veronica.TenantApi.{get_effective_policy}
use veronica.Examples.Data.{whole}
use veronica.TenantApi.Effective.{Answers, Request, creates, handle_all, get_effective_policy-cases}
use veronica.Tenants.{get_tenant}
use veronica.Examples.Data.{policy_a}
use veronica.Tenants.Forest.{IsLineage}
use veronica.Tenants.Registrations.{
  Call, registers, deletes, step, run, IsForest, run-IsForest, run-get_ancestors,
}

abbrev node : String → Option String → TenantNode Micro
node id parent = record {
  id = id;
  name = id;
  parent_id = parent;
  policy_overrides = [];
  created_at = micro 0;
}

abbrev calls : List (Call Micro)
calls =
    registers (node "org" none)
    ∷ registers (node "team" (some "org"))
    ∷ registers (node "chain" (some "team"))
    ∷ deletes "org"
    ∷ []

chain_registered : get "chain" (run [] calls) ≡ some (node "chain" (some "team"))
unfolding run step register walk get put delete
chain_registered = refl

run-get_ancestors_example :
    (lineage : List (TenantNode Micro)) × (get_ancestors (run [] calls) "chain"
      ≡ ok (reverse lineage))
    × IsLineage (run [] calls) (some "team") lineage
    × (length lineage ≤ max_depth)
run-get_ancestors_example =
    run-get_ancestors calls "chain" (node "chain" (some "team")) chain_registered

run-IsForest_example : IsForest (run {F = Micro} [] calls)
unfolding get
run-IsForest_example = run-IsForest [] calls (λ id t e. cc)

-- the organisation has a child, so it was not deleted
ancestors_of_chain :
    get_ancestors (run [] calls) "chain" ≡ ok (node "org" none ∷ node "team" (some "org") ∷ [])
unfolding get_ancestors climb run step register walk get put delete
ancestors_of_chain = refl

-- the organisation allows five dollars, and the team two
abbrev org_node : TenantNode Micro
org_node = record (node "org" none) {
  policy_overrides = ("ceiling_usd", float (micro 5000000)) ∷ ("priority", int (pos 10)) ∷ [];
}

abbrev team_node : TenantNode Micro
team_node = record (node "team" (some "org")) {
  policy_overrides = ("ceiling_usd", float (micro 2000000)) ∷ ("colour", int (pos 1)) ∷ [];
}

abbrev family : List (Call Micro)
family = registers org_node ∷ registers team_node ∷ []

team_registered : get_tenant (run [] family) "team" ≡ some team_node
unfolding run step register walk get put get_tenant
team_registered = refl

ancestors_of_team : get_ancestors (run [] family) "team" ≡ ok (org_node ∷ [])
unfolding get_ancestors climb run step register walk get put
ancestors_of_team = refl

abbrev effective : Effective Micro
effective = record {
  policy = record policy_a { ceiling_usd = micro 2000000; priority = Types.int (pos 10) };
  unissued = false;
}

team_resolved : resolve (run [] family) "team" policy_a ≡ ok effective
unfolding resolve run step register walk get put get_tenant get_ancestors climb
    veronica.Resolver.apply_overrides veronica.Resolver.field_of veronica.Resolver.set_field
team_resolved = refl

resolve-Decides_example :
    Decides ceiling_usd_field
      (last_override ceiling_usd_field (all_overrides (org_node ∷ team_node ∷ [])))
      (record { policy = policy_a; unissued = false })
      effective
resolve-Decides_example =
    resolve-Decides (run [] family) "team" policy_a effective team_node (org_node ∷ [])
      ceiling_usd_field team_registered ancestors_of_team team_resolved

abbrev request_of : TenantNode Micro → Request Micro
request_of n =
    creates
      (record {
        id = n.id;
        name = n.name;
        parent_id = n.parent_id;
        policy_overrides = n.policy_overrides;
      })
      (micro 0)

-- the team is refused for its unknown key
abbrev requests : List (Request Micro)
requests = request_of org_node ∷ request_of team_node ∷ []

get_effective_policy-cases_example :
    let ts = handle_all [] requests in
    let reply = get_effective_policy whole ts "org" (micro 5) in
    ((get_tenant ts "org" ≡ none) × (reply ≡ err http_404))
    ⊎ ((n : TenantNode Micro) × (get_tenant ts "org" ≡ some n)
        × Answers whole ts "org" (micro 5) reply)
get_effective_policy-cases_example = get_effective_policy-cases whole requests "org" (micro 5)
