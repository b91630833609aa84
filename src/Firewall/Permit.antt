-- ===== src/Firewall/Permit.antt =====
-- internal/nexodus/policy_linux.go: the commands that permit what one rule describes.
use nexodus.Prelude.{
  String, Bool, not, ◌&&◌, ◌||◌, List, [], ◌∷◌, ◌++◌, ◌==◌, string_eq, if◌then◌else◌,
}
use nexodus.Prelude.Text.{concat}
use nexodus.Prelude.Integers.{ℤ, pos, eqz, ltz, itoz}
use nexodus.Firewall.{
  SecurityRule, Command, Nft, Action, ◌>>◌, done, try_cmd, when, ingress_chain, table_family,
  sg_table_name,
}

abbrev pub is_zero : ℤ → Bool
is_zero p = eqz p (pos 0)

unfoldable pub nft_port_option : SecurityRule → String
nft_port_option rule =
    let range =
      if is_zero rule.from_port && is_zero rule.to_port
      then "0-65535"
      else if eqz rule.from_port rule.to_port
      then itoz rule.from_port
      else concat (itoz rule.from_port ∷ "-" ∷ itoz rule.to_port ∷ []) in
    concat ("dport" ∷ " " ∷ range ∷ [])

abbrev pub port_pair : SecurityRule → String
port_pair rule = concat (itoz rule.from_port ∷ "-" ∷ itoz rule.to_port ∷ [])

abbrev pub no_ports : SecurityRule → Bool
no_ports rule = is_zero rule.from_port && is_zero rule.to_port

abbrev pub both_ports : SecurityRule → Bool
both_ports rule = not (is_zero rule.from_port) && not (is_zero rule.to_port)

abbrev pub positive_ports : SecurityRule → Bool
positive_ports rule = ltz (pos 0) rule.from_port && ltz (pos 0) rule.to_port

-- The source for the inbound chain, the destination for the other one.
abbrev pub src_or_dst : String → String
src_or_dst chain = if chain == ingress_chain then "saddr" else "daddr"

-- A rule of the table: the words that every rule starts and ends with; `iface` is `ruleInterface`.
abbrev pub rule_cmd : String → String → String → List String → Command
rule_cmd iface verb chain words =
    verb ∷ "rule" ∷ table_family ∷ sg_table_name ∷ chain ∷ "meta" ∷ "nfproto" ∷ words
    ++ iface ∷ "counter" ∷ "accept" ∷ []

-- A loop over ranges, with one command for each and a return at the first error.
abbrev pub for_each : Nft → (String → Command) → List String → Action Unit
for_each nft f [] = done tt
for_each nft f (r ∷ rs) = try_cmd nft (f r) >> for_each nft f rs

module _ (nft : Nft) (iface : String) where
  unfoldable pub nf_permit_proto_port_addr_v4 : String → SecurityRule → Action Unit
  nf_permit_proto_port_addr_v4 chain rule =
      let dport_option = nft_port_option rule in
      let option = λ (r : String). concat ("ip " ∷ src_or_dst chain ∷ " " ∷ r ∷ []) in
      let p = rule.ip_protocol in
      if p == "ipv4"
      then if no_ports rule
        then for_each nft (λ r. rule_cmd iface "add" chain ("ipv4" ∷ option r ∷ [])) rule.ip_ranges
        else if both_ports rule
        then for_each nft
            (λ r.
              rule_cmd iface "add" chain ("ipv4" ∷ option r ∷ "th" ∷ "dport" ∷ port_pair rule ∷ []))
            rule.ip_ranges
        else done tt
      else if p == "tcp"
      then when (no_ports rule) (
          for_each nft
            (λ r. rule_cmd iface "add" chain ("ipv4" ∷ option r ∷ "tcp" ∷ "dport" ∷ "0-65535" ∷ []))
            rule.ip_ranges)
        >> when (both_ports rule) (
            for_each nft
              (λ r. rule_cmd iface "add" chain ("ipv4" ∷ option r ∷ "tcp" ∷ dport_option ∷ []))
              rule.ip_ranges)
      else if p == "udp"
      then when (no_ports rule) (
          for_each nft
            (λ r. rule_cmd iface "add" chain ("ipv4" ∷ option r ∷ "udp" ∷ "dport" ∷ "0-65535" ∷ []))
            rule.ip_ranges)
        >> when (both_ports rule) (
            for_each nft
              (λ r. rule_cmd iface "add" chain ("ipv4" ∷ option r ∷ p ∷ dport_option ∷ []))
              rule.ip_ranges)
      else if p == "icmp" || p == "icmpv4"
      then for_each nft
          (λ r. rule_cmd iface "insert" chain ("ipv4" ∷ "ip" ∷ "protocol" ∷ "icmp" ∷ option r ∷ []))
          rule.ip_ranges
      else done tt

  unfoldable pub nf_permit_proto_port_addr_v6 : String → SecurityRule → Action Unit
  nf_permit_proto_port_addr_v6 chain rule =
      let dport_option = nft_port_option rule in
      let option = λ (r : String). concat ("ip6 " ∷ src_or_dst chain ∷ " " ∷ r ∷ []) in
      let p = rule.ip_protocol in
      if p == "ipv6"
      then if no_ports rule
        then for_each nft (λ r. rule_cmd iface "add" chain ("ipv6" ∷ option r ∷ [])) rule.ip_ranges
        else if positive_ports rule
        then for_each nft
            (λ r.
              rule_cmd iface "add" chain ("ipv6" ∷ option r ∷ "th" ∷ "dport" ∷ port_pair rule ∷ []))
            rule.ip_ranges
        else done tt
      else if p == "tcp"
      then when (no_ports rule) (
          for_each nft
            (λ r. rule_cmd iface "add" chain ("ipv6" ∷ option r ∷ "tcp" ∷ "dport" ∷ "0-65535" ∷ []))
            rule.ip_ranges)
        >> when (both_ports rule) (
            for_each nft
              (λ r. rule_cmd iface "add" chain ("ipv6" ∷ option r ∷ p ∷ dport_option ∷ []))
              rule.ip_ranges)
      else if p == "udp"
      then when (no_ports rule) (
          for_each nft
            (λ r. rule_cmd iface "add" chain ("ipv6" ∷ option r ∷ "udp" ∷ "dport" ∷ "0-65535" ∷ []))
            rule.ip_ranges)
        >> when (both_ports rule) (
            for_each nft
              (λ r. rule_cmd iface "add" chain ("ipv6" ∷ option r ∷ "udp" ∷ dport_option ∷ []))
              rule.ip_ranges)
      else if p == "icmp" || p == "icmpv6"
      then for_each nft
          (λ r.
            rule_cmd iface "insert" chain
              ("ipv6" ∷ "ip6" ∷ "nexthdr" ∷ "ipv6-icmp" ∷ option r ∷ []))
          rule.ip_ranges
      else done tt

  -- Ports and no addresses.
  unfoldable pub nf_permit_proto_port : String → SecurityRule → Action Unit
  nf_permit_proto_port chain rule =
      let dport_option = nft_port_option rule in
      let p = rule.ip_protocol in
      if p == "ipv4"
      then if dport_option == ""
        then done tt
        else try_cmd nft (rule_cmd iface "add" chain ("ipv4" ∷ "tcp" ∷ dport_option ∷ []))
          >> try_cmd nft (rule_cmd iface "add" chain ("ipv4" ∷ "udp" ∷ dport_option ∷ []))
      else if p == "ipv6"
      then if dport_option == ""
        then done tt
        else try_cmd nft (rule_cmd iface "add" chain ("ipv6" ∷ "tcp" ∷ dport_option ∷ []))
          >> try_cmd nft (rule_cmd iface "add" chain ("ipv6" ∷ "udp" ∷ dport_option ∷ []))
      else if p == "udp" || p == "tcp"
      then if dport_option == ""
        then done tt
        else try_cmd nft (rule_cmd iface "add" chain ("ipv4" ∷ p ∷ dport_option ∷ []))
          >> try_cmd nft (rule_cmd iface "add" chain ("ipv6" ∷ p ∷ dport_option ∷ []))
      else done tt

  -- Neither addresses nor ports.
  unfoldable pub nf_permit_proto_any : String → SecurityRule → Action Unit
  nf_permit_proto_any chain rule =
      let p = rule.ip_protocol in
      if p == "ipv4" || p == "ipv6"
      then when (p == "ipv4") (try_cmd nft (rule_cmd iface "add" chain (p ∷ [])))
        >> when (p == "ipv6") (try_cmd nft (rule_cmd iface "add" chain (p ∷ [])))
      else if p == "icmp" || (p == "icmpv4" || p == "icmpv6")
      then when (p == "icmpv4" || p == "icmp")
          (try_cmd nft (rule_cmd iface "insert" chain ("ipv4" ∷ "ip" ∷ "protocol" ∷ "icmp" ∷ [])))
        >> when (p == "icmpv6") (
            try_cmd nft
              (rule_cmd iface "insert" chain ("ipv6" ∷ "ip6" ∷ "nexthdr" ∷ "ipv6-icmp" ∷ [])))
      else if p == "tcp" || p == "udp"
      then try_cmd nft (rule_cmd iface "add" chain ("ipv4" ∷ p ∷ "dport" ∷ "0-65535" ∷ []))
        >> try_cmd nft (rule_cmd iface "add" chain ("ipv6" ∷ p ∷ "dport" ∷ "0-65535" ∷ []))
      else done tt
