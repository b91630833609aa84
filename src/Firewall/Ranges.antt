-- ===== src/Firewall/Ranges.antt =====
-- internal/util/ip_utils.go: the tests of custom address ranges; internal/handlers/
-- security_group.go: the checks of a rule before the service stores it.
use nexodus.Prelude.{
  String, Bool, true, false, not, ◌&&◌, ◌||◌, Option, none, some, List, [], ◌∷◌, ◌++◌, ◌==◌, eqb,
  string_eq, if◌then◌else◌, length,
}
use nexodus.Prelude.Integers.{ℤ, pos, eqz, ltz}
use nexodus.Prelude.Pieces.{contains_char, split_at_char, trim_space}
use nexodus.Firewall.{SecurityRule, SecurityGroup}

-- The address families of `net`: `To4` gives an address or nil.
pub data Family : Type 0 where
  v4 : Family
  v6 : Family

-- The parsers of `net`: the family of the address, or of the network, if the text is one.
pub record Net : Type 0 where
  pub parse_ip : String → Option Family
  pub parse_cidr : String → Option Family

abbrev pub is_v4 : Option Family → Bool
is_v4 (some v4) = true
is_v4 _ = false

abbrev pub is_parsed : Option Family → Bool
is_parsed (some _) = true
is_parsed none = false

-- `ips[0]` and `ips[1]`; `none` is the panic of an index out of range.
abbrev pub first_two : List String → Option (String × String)
first_two (a ∷ b ∷ _) = some (a, b)
first_two _ = none

abbrev pub or_panic : Option (String × String) → (String → String → Option Bool) → Option Bool
or_panic none k = none
or_panic (some (a, b)) k = k a b

abbrev pub allowed_protocols : List String
allowed_protocols = "ipv4" ∷ "ipv6" ∷ "icmpv4" ∷ "icmp" ∷ "icmpv6" ∷ "tcp" ∷ "udp" ∷ []

abbrev pub is_allowed : String → List String → Bool
is_allowed p [] = false
is_allowed p (q ∷ qs) = p == q || is_allowed p qs

unfoldable pub validate_ports : ℤ → ℤ → Bool
validate_ports from to =
    if eqz from (pos 0) && eqz to (pos 0)
    then true
    else if eqz from (pos 0) || eqz to (pos 0)
    then false
    else if ltz to from || (ltz from (pos 1) || ltz (pos 65535) to)
    then false
    else true

-- One round of a loop that returns true at the first pass, or false at the first failure.
abbrev pub first_true : Option Bool → Option Bool → Option Bool
first_true none rest = none
first_true (some true) rest = some true
first_true (some false) rest = rest

abbrev pub while_true : Option Bool → Option Bool → Option Bool
while_true none rest = none
while_true (some true) rest = rest
while_true (some false) rest = some false

module _ (net : Net) where
  abbrev pub parse_trimmed : String → Option Family
  parse_trimmed s = net.parse_ip (trim_space s)

  -- The test of one range; `none` is a panic.
  unfoldable pub is_custom_v4 : String → Option Bool
  is_custom_v4 r =
      if contains_char b'-' r
      then or_panic (first_two (split_at_char b'-' r))
          (λ a b. some (is_v4 (parse_trimmed a) && is_v4 (parse_trimmed b)))
      else if contains_char b'/' r
      then some (is_v4 (net.parse_cidr r))
      else some (is_v4 (net.parse_ip r))

  unfoldable pub contains_valid_custom_v4_ranges : List String → Option Bool
  contains_valid_custom_v4_ranges [] = some false
  contains_valid_custom_v4_ranges (r ∷ rs) =
      let rest = contains_valid_custom_v4_ranges rs in first_true (is_custom_v4 r) rest

  -- `To16` of an address that was parsed is never nil.
  unfoldable pub is_custom_v6 : String → Option Bool
  is_custom_v6 r =
      if contains_char b'-' r
      then if eqb (length (split_at_char b'-' r)) 2
        then or_panic (first_two (split_at_char b'-' r))
            (λ a b. some (is_parsed (parse_trimmed a) && is_parsed (parse_trimmed b)))
        else some false
      else if contains_char b'/' r
      then some (is_parsed (net.parse_cidr r))
      else some (is_parsed (net.parse_ip r))

  unfoldable pub contains_valid_custom_v6_ranges : List String → Option Bool
  contains_valid_custom_v6_ranges [] = some true
  contains_valid_custom_v6_ranges (r ∷ rs) =
      let rest = contains_valid_custom_v6_ranges rs in while_true (is_custom_v6 r) rest

  abbrev pub both_fail : Option Bool → Option Bool → Option Bool → Option Bool
  both_fail none b rest = none
  both_fail (some a) none rest = none
  both_fail (some a) (some b) rest = if not a && not b then some false else rest

  -- `false` is an error, `none` a panic.
  unfoldable pub validate_ranges : List String → Option Bool
  validate_ranges [] = some true
  validate_ranges (r ∷ rs) =
      let rest = validate_ranges rs in
      if r == ""
      then rest
      else both_fail (contains_valid_custom_v4_ranges (r ∷ []))
          (contains_valid_custom_v6_ranges (r ∷ [])) rest

  unfoldable pub validate_rule : SecurityRule → Option Bool
  unfolding validate_ports
  validate_rule rule =
      let ranges = validate_ranges rule.ip_ranges in
      if not (rule.ip_protocol == "") && not (is_allowed rule.ip_protocol allowed_protocols)
      then some false
      else if not (validate_ports rule.from_port rule.to_port)
      then some false
      else ranges

  unfoldable pub validate_all : List SecurityRule → Option Bool
  validate_all [] = some true
  validate_all (rule ∷ rules) =
      let rest = validate_all rules in while_true (validate_rule rule) rest

  -- `ValidateCreateSecurityGroupRules` and `ValidateUpdateSecurityGroupRules` have one body.
  unfoldable pub validate_group : SecurityGroup → Option Bool
  validate_group sg = validate_all (sg.inbound_rules ++ sg.outbound_rules)
