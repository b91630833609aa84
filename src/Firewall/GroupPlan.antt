-- ===== src/Firewall/GroupPlan.antt =====
-- internal/nexodus/policy_linux.go: the table of a group is dropped and written anew as planned.
use nexodus.Prelude.{
  ◌≡◌, refl, sym, ap, ◌⊎◌, inl, inr, String, not, none, some, List, [], ◌∷◌, is_empty,
}
use nexodus.Firewall.{
  SecurityRule, SecurityGroup, Command, Nft, ◌>>◌, try_cmd, when, ingress_chain, egress_chain,
  sg_table_name, policy_table_drop, nf_create_table, nf_create_chain,
}
use nexodus.Firewall.Ranges.{Net}
use nexodus.Firewall.Group.{
  Kind, addr_v4, addr_v6, port, proto, kind_of, with_range, group_interface, permit_kind,
  process_rule, process_rules, process_security_group_rules, nf_ingress_rule_drop,
  nf_egress_rule_drop,
}
use nexodus.Firewall.Plan.{kind_plan, chain_plan, drop_cmd, closing, group_plan}
use nexodus.Firewall.Runs.{
  run_all, run_all-append, then_assoc, then_done, then-cases, IsRunOf, run_all-IsRunOf,
}
use nexodus.Firewall.PermitPlan.{permit_v4_lem, permit_v6_lem, permit_port_lem, permit_any_lem}

module _ (nft : Nft) (net : Net) (wg_iface : String) where
  abbrev pub iface : String
  iface = group_interface wg_iface

  pub permit_kind_lem :
      (k : Kind) (chain : String) (rule : SecurityRule)
      → permit_kind nft net wg_iface k chain rule ≡ run_all nft (kind_plan iface k chain rule)
  permit_kind_lem addr_v4 = permit_v4_lem nft iface
  permit_kind_lem addr_v6 = permit_v6_lem nft iface
  permit_kind_lem port = permit_port_lem nft iface
  permit_kind_lem proto = permit_any_lem nft iface

  pub process_rules_lem :
      (chain : String) (rules : List SecurityRule)
      → process_rules nft net wg_iface chain rules ≡ run_all nft (chain_plan net iface chain rules)
  unfolding process_rules process_rule
  process_rules_lem chain [] = refl
  process_rules_lem chain (rule ∷ rules) = cc (
    permit_kind_lem (kind_of net (with_range rule)) chain (with_range rule),
    process_rules_lem chain rules,
    run_all-append nft (kind_plan iface (kind_of net (with_range rule)) chain (with_range rule))
        (chain_plan net iface chain rules),
  )

  closing_lem :
      (chain : String) (rules : List SecurityRule)
      → when (not (is_empty rules)) (try_cmd nft (drop_cmd iface chain))
        ≡ run_all nft (closing iface chain rules)
  closing_lem chain [] = refl
  closing_lem chain (rule ∷ rules) = sym (then_done nft (try_cmd nft (drop_cmd iface chain)))

  process_group_lem :
      (group : SecurityGroup)
      → process_security_group_rules nft net wg_iface (some group)
        ≡ policy_table_drop nft sg_table_name >> run_all nft (group_plan net wg_iface group)
  unfolding process_security_group_rules nf_create_table nf_create_chain nf_ingress_rule_drop
      nf_egress_rule_drop
  process_group_lem group = simp (
    process_rules_lem ingress_chain group.inbound_rules,
    process_rules_lem egress_chain group.outbound_rules,
    closing_lem ingress_chain group.inbound_rules,
    closing_lem egress_chain group.outbound_rules,
    run_all-append nft,
    then_assoc nft,
  )

  -- Either the old table could not be dropped, and nothing else is done; or what follows is a run of
  -- the plan of the group.
  pub IsGroupRun : SecurityGroup → List Command → Type 0
  IsGroupRun group log =
      let dropped = policy_table_drop nft sg_table_name log in
      let o = process_security_group_rules nft net wg_iface (some group) log in
      ((dropped.0 ≡ none) × (o.0 ≡ none) × (o.1 ≡ dropped.1))
      ⊎ ((dropped.0 ≡ some tt) × IsRunOf nft (group_plan net wg_iface group) dropped.1 o)

  -- For every answer of nft, the set-up of a security group either fails to drop the old table
  -- and does nothing else, or carries out the planned list of commands: all of it without an
  -- error, or the commands before one that nft refused, with an error. The plan: the table, the
  -- two chains, the permits of each inbound and then each outbound rule in the order of the
  -- group, the permit of established connections, and a drop for each chain that has rules.
  pub process-IsGroupRun : (group : SecurityGroup) (log : List Command) → IsGroupRun group log
  unfolding IsGroupRun
  process-IsGroupRun group log =
      let drop = policy_table_drop nft sg_table_name in
      let plan = group_plan net wg_iface group in
      elim (then-cases drop (run_all nft plan) log) [
        | inl (bad, e) ↦ inl (
          bad,
          rw (process_group_lem group) (ap (λ o. o.0) e),
          rw (process_group_lem group) (ap (λ o. o.1) e),
        )
        | inr (ok, e) ↦
            inr (ok, rw (process_group_lem group, e) (run_all-IsRunOf nft plan (drop log).1))
      ]
