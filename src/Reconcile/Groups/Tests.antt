-- ===== src/Reconcile/Groups/Tests.antt =====
-- Reconciliations of the security group, and the theorems at concrete states.
use nexodus.Prelude.{
  ℕ, ◌≡◌, ◌≢◌, refl, String, nat_eq, string_eq, true, false, none, some, [], ◌∷◌, arith, eq_iff,
}
use nexodus.Prelude.Maps.{Map, lookup}
use nexodus.Reconcile.Groups.{
  Group, GroupState, listed, nil_uuid, has_same_rules, reconcile_security_groups,
}
use nexodus.Reconcile.Groups.InForce.{
  IsInForce, in_force, rules_of, reconcile_groups-IsInForce, failed_process_final, reconcile_again,
}

abbrev group : Group ℕ
group = record { id = "g"; details = ""; inbound_rules = 1; outbound_rules = 2 }

abbrev groups : Map String (Group ℕ)
groups = ("g", group) ∷ []

abbrev no_group : GroupState ℕ
no_group = record { security_group = none; calls = [] }

reconcile_groups-IsInForce_example :
    let st' = reconcile_security_groups false (some "g") (listed groups) true no_group in
    IsInForce st'
    × ((false ≡ false) → (some "g" ≡ some nil_uuid) → in_force st'.calls ≡ some none)
    × ((id : String) (found : Map String (Group ℕ))
        → (false ≡ false)
        → (some "g" ≡ some id)
        → (id ≢ nil_uuid)
        → (listed groups ≡ listed found)
        → in_force st'.calls ≡ some (rules_of (lookup id found)))
reconcile_groups-IsInForce_example =
    reconcile_groups-IsInForce false (some "g") (listed groups) no_group refl

failed_process_final_example :
    let failed_once = reconcile_security_groups false (some "g") (listed groups) false no_group in
    let st' = reconcile_again "g" groups (true ∷ false ∷ true ∷ []) failed_once in
    (st'.security_group ≡ some group)
    × (st'.calls ≡ (some group, false) ∷ [])
    × (in_force st'.calls ≡ none)
unfolding lookup has_same_rules
failed_process_final_example =
    failed_process_final "g" groups group no_group (true ∷ false ∷ true ∷ []) refl
      (ground (arith, eq_iff "g" nil_uuid)) refl refl
