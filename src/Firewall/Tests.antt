-- ===== src/Firewall/Tests.antt =====
-- internal/nexodus/policy_linux.go: runs on small groups, and the theorems at them.
use nexodus.Prelude.{
  ◌≡◌, refl, ◌⊎◌, ◌↔◌, ◌++◌, String, Bool, true, false, Option, none, some, List, [], ◌∷◌, ◌==◌,
  string_eq, if◌then◌else◌, In, map, arith, Every,
}
use nexodus.Prelude.Text.{concat}
use nexodus.Prelude.Integers.{pos}
use nexodus.Prelude.Pieces.{trim_space, contains_char, join}
use nexodus.Firewall.{SecurityRule, SecurityGroup, Command, Nft, done, nf_table_exists}
use nexodus.Firewall.Ranges.{Net, Family, v4, v6, validate_group, validate_rule}
use nexodus.Firewall.Group.{process_security_group_rules, process_rule}
use nexodus.Firewall.GroupPlan.{IsGroupRun, process-IsGroupRun}
use nexodus.Firewall.Kinds.{IsHandled, process_rule-IsHandled}
use nexodus.Firewall.Valid.{Decides, IsValidRule, validate_group_lem}

-- A host that carries out everything and has the table of a group already.
abbrev host : Nft
host log c = some "table inet filter\n table inet nexodus"

-- A host that refuses the third command after `log`.
abbrev failing : Nft
failing (_ ∷ _ ∷ _ ∷ _) c = none
failing log c = some ""

abbrev net : Net
net = record {
  parse_ip = λ s. if s == "10.0.0.1" then some v4 else if s == "2001:db8::1" then some v6 else none;
  parse_cidr = λ s. if s == "10.0.0.0/8" then some v4 else none;
}

abbrev ssh : SecurityRule
ssh = record {
  ip_protocol = "tcp";
  from_port = pos 22;
  to_port = pos 22;
  ip_ranges = "10.0.0.1" ∷ "2001:db8::1" ∷ [];
}

abbrev unnamed : SecurityRule
unnamed = record { ip_protocol = ""; from_port = pos 0; to_port = pos 0; ip_ranges = [] }

abbrev group : SecurityGroup
group = record { inbound_rules = ssh ∷ []; outbound_rules = unnamed ∷ [] }

-- Both ranges of the rule are written as IPv4 sources.
ssh_runs :
    (process_rule host net "wg0" "nexodus-inbound" ssh []).1
    ≡ ("add" ∷ "rule" ∷ "inet" ∷ "nexodus" ∷ "nexodus-inbound" ∷ "meta" ∷ "nfproto" ∷ "ipv4"
        ∷ "ip saddr 10.0.0.1" ∷ "tcp" ∷ "dport 22" ∷ "iifname wg0" ∷ "counter" ∷ "accept" ∷ [])
      ∷ ("add" ∷ "rule" ∷ "inet" ∷ "nexodus" ∷ "nexodus-inbound" ∷ "meta" ∷ "nfproto" ∷ "ipv4"
          ∷ "ip saddr 2001:db8::1" ∷ "tcp" ∷ "dport 22" ∷ "iifname wg0" ∷ "counter" ∷ "accept" ∷ [])
      ∷ []
unfolding process_rule nexodus.Firewall.Group.kind_of
    nexodus.Firewall.Ranges.contains_valid_custom_v4_ranges nexodus.Firewall.Ranges.is_custom_v4
    contains_char nexodus.Firewall.Permit.nf_permit_proto_port_addr_v4 nexodus.Firewall.try_cmd
    nexodus.Firewall.policy_cmd concat nexodus.Firewall.Permit.nft_port_option
    nexodus.Prelude.Integers.itoz nexodus.Prelude.Text.itoa
ssh_runs = refl

group_is_valid : validate_group net group ≡ some true
unfolding validate_group nexodus.Firewall.Ranges.validate_all validate_rule
    nexodus.Firewall.Ranges.validate_ranges nexodus.Firewall.Ranges.contains_valid_custom_v4_ranges
    nexodus.Firewall.Ranges.is_custom_v4 contains_char
    nexodus.Firewall.Ranges.contains_valid_custom_v6_ranges nexodus.Firewall.Ranges.is_custom_v6
group_is_valid = refl

failing_runs : (process_security_group_rules failing net "wg0" (some group) []).0 ≡ none
unfolding process_security_group_rules nexodus.Firewall.policy_table_drop nf_table_exists
    nexodus.Firewall.policy_cmd nexodus.Prelude.Pieces.split_at_char trim_space concat
    nexodus.Firewall.nf_create_table nexodus.Firewall.try_cmd nexodus.Firewall.nf_create_chain
failing_runs = refl

process-IsGroupRun_example : IsGroupRun host net "wg0" group []
process-IsGroupRun_example = process-IsGroupRun host net "wg0" group []

process_rule-IsHandled_example : IsHandled host net "wg0" "nexodus-inbound" ssh
process_rule-IsHandled_example = process_rule-IsHandled host net "wg0" "nexodus-inbound" ssh

validate_group_lem_example :
    Decides net (validate_group net group) (Every (ssh ∷ unnamed ∷ []) (IsValidRule net))
validate_group_lem_example = validate_group_lem net group
