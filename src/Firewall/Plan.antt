-- ===== src/Firewall/Plan.antt =====
-- The commands that internal/nexodus/policy_linux.go should issue, as lists: one table for both
-- families, and for the sources of the inbound and the destinations of the outbound chain.
use nexodus.Prelude.{
  String, Bool, not, ◌||◌, List, [], ◌∷◌, ◌++◌, map, ◌==◌, string_eq, if◌then◌else◌, is_empty,
}
use nexodus.Prelude.Text.{concat}
use nexodus.Firewall.{
  SecurityRule, SecurityGroup, Command, sg_table_name, table_family, ingress_chain, egress_chain,
}
use nexodus.Firewall.Ranges.{Net, Family, v4, v6}
use nexodus.Firewall.Permit.{
  no_ports, both_ports, positive_ports, port_pair, nft_port_option, rule_cmd, src_or_dst,
}
use nexodus.Firewall.Group.{
  Kind, addr_v4, addr_v6, port, proto, kind_of, with_range, group_interface,
}

abbrev pub family_word : Family → String
family_word v4 = "ipv4"
family_word v6 = "ipv6"

abbrev pub ip_word : Family → String
ip_word v4 = "ip "
ip_word v6 = "ip6 "

abbrev pub icmp_name : Family → String
icmp_name v4 = "icmpv4"
icmp_name v6 = "icmpv6"

abbrev pub icmp_words : Family → List String
icmp_words v4 = "ip" ∷ "protocol" ∷ "icmp" ∷ []
icmp_words v6 = "ip6" ∷ "nexthdr" ∷ "ipv6-icmp" ∷ []

abbrev pub usable_ports : Family → SecurityRule → Bool
usable_ports v4 = both_ports
usable_ports v6 = positive_ports

abbrev pub address_words : Family → String → String → String
address_words fam chain r = concat (ip_word fam ∷ src_or_dst chain ∷ " " ∷ r ∷ [])

module _ (iface : String) where
  -- A rule with addresses: one command for each of them.
  abbrev pub address_plan : Family → String → SecurityRule → List Command
  address_plan fam chain rule =
      let p = rule.ip_protocol in
      let f = family_word fam in
      if p == f
      then if no_ports rule
        then map (λ r. rule_cmd iface "add" chain (f ∷ address_words fam chain r ∷ []))
            rule.ip_ranges
        else if usable_ports fam rule
        then map
            (λ r.
              rule_cmd iface "add" chain
                (f ∷ address_words fam chain r ∷ "th" ∷ "dport" ∷ port_pair rule ∷ []))
            rule.ip_ranges
        else []
      else if p == "tcp" || p == "udp"
      then if no_ports rule
        then map
            (λ r.
              rule_cmd iface "add" chain
                (f ∷ address_words fam chain r ∷ p ∷ "dport" ∷ "0-65535" ∷ []))
            rule.ip_ranges
        else if both_ports rule
        then map
            (λ r.
              rule_cmd iface "add" chain
                (f ∷ address_words fam chain r ∷ p ∷ nft_port_option rule ∷ []))
            rule.ip_ranges
        else []
      else if p == "icmp" || p == icmp_name fam
      then map
          (λ r.
            rule_cmd iface "insert" chain (f ∷ icmp_words fam ++ address_words fam chain r ∷ []))
          rule.ip_ranges
      else []

  abbrev port_cmd : String → SecurityRule → Family → String → Command
  port_cmd chain rule fam transport =
      rule_cmd iface "add" chain (family_word fam ∷ transport ∷ nft_port_option rule ∷ [])

  -- A rule with ports only: a family stands for both transports, a transport for both families.
  abbrev pub port_plan : String → SecurityRule → List Command
  port_plan chain rule =
      let p = rule.ip_protocol in
      let cmd = port_cmd chain rule in
      if p == "ipv4"
      then cmd v4 "tcp" ∷ cmd v4 "udp" ∷ []
      else if p == "ipv6"
      then cmd v6 "tcp" ∷ cmd v6 "udp" ∷ []
      else if p == "tcp" || p == "udp"
      then cmd v4 p ∷ cmd v6 p ∷ []
      else []

  abbrev any_cmd : String → String → Family → List String → Command
  any_cmd verb chain fam words = rule_cmd iface verb chain (family_word fam ∷ words)

  -- A rule with a protocol only.
  abbrev pub any_plan : String → SecurityRule → List Command
  any_plan chain rule =
      let p = rule.ip_protocol in
      if p == "ipv4"
      then any_cmd "add" chain v4 [] ∷ []
      else if p == "ipv6"
      then any_cmd "add" chain v6 [] ∷ []
      else if p == "icmp" || p == "icmpv4"
      then any_cmd "insert" chain v4 (icmp_words v4) ∷ []
      else if p == "icmpv6"
      then any_cmd "insert" chain v6 (icmp_words v6) ∷ []
      else if p == "tcp" || p == "udp"
      then any_cmd "add" chain v4 (p ∷ "dport" ∷ "0-65535" ∷ [])
        ∷ any_cmd "add" chain v6 (p ∷ "dport" ∷ "0-65535" ∷ [])
        ∷ []
      else []

  abbrev pub kind_plan : Kind → String → SecurityRule → List Command
  kind_plan addr_v4 = address_plan v4
  kind_plan addr_v6 = address_plan v6
  kind_plan port = port_plan
  kind_plan proto = any_plan

-- The rules of a chain, in the order of the group.
abbrev pub chain_plan : Net → String → String → List SecurityRule → List Command
chain_plan net iface chain [] = []
chain_plan net iface chain (rule ∷ rules) =
    kind_plan iface (kind_of net (with_range rule)) chain (with_range rule)
    ++ chain_plan net iface chain rules

abbrev pub chain_cmd : String → Command
chain_cmd chain =
    "add" ∷ "chain" ∷ table_family ∷ sg_table_name ∷ chain ∷ "{" ∷ "type" ∷ "filter" ∷ "hook"
    ∷ "input" ∷ "priority" ∷ "0" ∷ ";" ∷ "policy" ∷ "accept" ∷ ";" ∷ "}" ∷ []

abbrev pub drop_cmd : String → String → Command
drop_cmd iface chain =
    "add" ∷ "rule" ∷ table_family ∷ sg_table_name ∷ chain ∷ iface ∷ "counter" ∷ "drop" ∷ []

abbrev pub established_cmd : String → Command
established_cmd iface =
    "insert" ∷ "rule" ∷ table_family ∷ sg_table_name ∷ ingress_chain ∷ "ct" ∷ "state"
    ∷ "established,related" ∷ iface ∷ "counter" ∷ "accept" ∷ []

-- The last rule of a chain that has rules.
abbrev pub closing : String → String → List SecurityRule → List Command
closing iface chain rules = if not (is_empty rules) then drop_cmd iface chain ∷ [] else []

-- The table of a group, from the empty host on.
abbrev pub group_plan : Net → String → SecurityGroup → List Command
group_plan net wg_iface group =
    let iface = group_interface wg_iface in
    ("add" ∷ "table" ∷ table_family ∷ sg_table_name ∷ [])
      ∷ chain_cmd ingress_chain
      ∷ chain_cmd egress_chain
      ∷ chain_plan net iface ingress_chain group.inbound_rules
    ++ chain_plan net iface egress_chain group.outbound_rules
    ++ established_cmd iface ∷ closing iface ingress_chain group.inbound_rules
    ++ closing iface egress_chain group.outbound_rules
