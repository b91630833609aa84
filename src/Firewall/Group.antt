-- ===== src/Firewall/Group.antt =====
-- internal/nexodus/policy_linux.go: the table of a security group.
use nexodus.Prelude.{
  String, Bool, true, false, not, Option, none, some, List, [], ◌∷◌, if◌then◌else◌, is_empty,
}
use nexodus.Prelude.Text.{concat}
use nexodus.Firewall.{
  SecurityRule, SecurityGroup, Nft, Action, ◌>>◌, done, try_cmd, when, sg_table_name, table_family,
  ingress_chain, egress_chain, policy_table_drop, nf_create_table, nf_create_chain,
}
use nexodus.Firewall.Ranges.{Net, contains_valid_custom_v4_ranges, contains_valid_custom_v6_ranges}
use nexodus.Firewall.Permit.{
  both_ports, nf_permit_proto_port_addr_v4, nf_permit_proto_port_addr_v6, nf_permit_proto_port,
  nf_permit_proto_any,
}

-- Which of the four functions handles a rule.
pub data Kind : Type 0 where
  addr_v4 : Kind
  addr_v6 : Kind
  port : Kind
  proto : Kind

-- "If the ip range is empty, add one."
abbrev pub with_range : SecurityRule → SecurityRule
with_range rule = if is_empty rule.ip_ranges then record rule { ip_ranges = "" ∷ [] } else rule

-- The tests of the loop, in its order: the answers of the two tests of ranges, and whether there are
-- ports.
abbrev pub kind_by : Option Bool → Option Bool → Bool → Kind
kind_by (some true) _ _ = addr_v4
kind_by _ (some true) _ = addr_v6
kind_by _ _ true = port
kind_by _ _ false = proto

unfoldable pub kind_of : Net → SecurityRule → Kind
kind_of net rule =
    kind_by (contains_valid_custom_v4_ranges net rule.ip_ranges)
      (contains_valid_custom_v6_ranges net rule.ip_ranges) (both_ports rule)

abbrev pub group_interface : String → String
group_interface wg_iface = concat ("iifname " ∷ wg_iface ∷ [])

module _ (nft : Nft) (net : Net) (wg_iface : String) where
  abbrev pub permit_kind : Kind → String → SecurityRule → Action Unit
  permit_kind addr_v4 = nf_permit_proto_port_addr_v4 nft (group_interface wg_iface)
  permit_kind addr_v6 = nf_permit_proto_port_addr_v6 nft (group_interface wg_iface)
  permit_kind port = nf_permit_proto_port nft (group_interface wg_iface)
  permit_kind proto = nf_permit_proto_any nft (group_interface wg_iface)

  -- The body of the loops over the rules.
  unfoldable pub process_rule : String → SecurityRule → Action Unit
  process_rule chain rule =
      let rule' = with_range rule in permit_kind (kind_of net rule') chain rule'

  unfoldable pub process_rules : String → List SecurityRule → Action Unit
  process_rules chain [] = done tt
  process_rules chain (rule ∷ rules) = process_rule chain rule >> process_rules chain rules

  unfoldable pub nf_ingress_rule_drop : Action Unit
  nf_ingress_rule_drop = try_cmd nft (
      "add"
      ∷ "rule"
      ∷ table_family
      ∷ sg_table_name
      ∷ ingress_chain
      ∷ group_interface wg_iface
      ∷ "counter"
      ∷ "drop"
      ∷ [])

  unfoldable pub nf_egress_rule_drop : Action Unit
  nf_egress_rule_drop = try_cmd nft (
      "add"
      ∷ "rule"
      ∷ table_family
      ∷ sg_table_name
      ∷ egress_chain
      ∷ group_interface wg_iface
      ∷ "counter"
      ∷ "drop"
      ∷ [])

  -- The error of a drop without a group is ignored.
  abbrev ignore : Action Unit → Action Unit
  ignore x log = (some tt, (x log).1)

  unfoldable pub process_security_group_rules : Option SecurityGroup → Action Unit
  process_security_group_rules none = ignore (policy_table_drop nft sg_table_name)
  process_security_group_rules (some group) =
      policy_table_drop nft sg_table_name
      >> nf_create_table nft sg_table_name
      >> nf_create_chain nft ingress_chain
      >> nf_create_chain nft egress_chain
      >> process_rules ingress_chain group.inbound_rules
      >> process_rules egress_chain group.outbound_rules
      >> try_cmd nft (
          "insert"
          ∷ "rule"
          ∷ table_family
          ∷ sg_table_name
          ∷ ingress_chain
          ∷ "ct"
          ∷ "state"
          ∷ "established,related"
          ∷ group_interface wg_iface
          ∷ "counter"
          ∷ "accept"
          ∷ [])
      >> when (not (is_empty group.inbound_rules)) (nf_ingress_rule_drop)
      >> when (not (is_empty group.outbound_rules)) (nf_egress_rule_drop)
