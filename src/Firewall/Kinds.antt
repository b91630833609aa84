-- ===== src/Firewall/Kinds.antt =====
-- internal/nexodus/policy_linux.go: how the loops over the rules handle one rule.
use nexodus.Prelude.{
  ◌≡◌, refl, ap, ◌∙◌, ◌⊎◌, inl, inr, String, Bool, true, false, some, [], ◌==◌, string_eq, arith,
  Bool-cases, any, all,
}
use nexodus.Firewall.{SecurityRule, Nft, done}
use nexodus.Firewall.Ranges.{Net, allowed_protocols, is_allowed}
use nexodus.Firewall.Permit.{both_ports}
use nexodus.Firewall.Group.{
  Kind, kind_by, addr_v4, addr_v6, port, proto, kind_of, with_range, group_interface, process_rule,
}
use nexodus.Firewall.Plan.{kind_plan}
use nexodus.Firewall.Runs.{run_all}
use nexodus.Firewall.Valid.{v4_range, any_range, contains_v4_lem, contains_v6_lem}
use nexodus.Firewall.GroupPlan.{permit_kind_lem}

module _ (nft : Nft) (net : Net) (wg_iface : String) where
  abbrev has_v4 : SecurityRule → Bool
  has_v4 rule = any (v4_range net) (with_range rule).ip_ranges

  abbrev is_all_ranges : SecurityRule → Bool
  is_all_ranges rule = all (any_range net) (with_range rule).ip_ranges

  -- The rule is carried out as this list of commands.
  abbrev RunsAs : String → SecurityRule → Kind → Type 0
  RunsAs chain rule k =
      process_rule nft net wg_iface chain rule
      ≡ run_all nft (kind_plan (group_interface wg_iface) k chain (with_range rule))

  process_kind :
      (k : Kind) (chain : String) (rule : SecurityRule)
      → kind_of net (with_range rule) ≡ k
      → RunsAs chain rule k
  unfolding process_rule
  process_kind k chain rule e = rw e (permit_kind_lem nft net wg_iface k chain (with_range rule))

  kind_lem :
      (rule : SecurityRule)
      → kind_of net (with_range rule)
        ≡ kind_by (some (has_v4 rule)) (some (is_all_ranges rule)) (both_ports (with_range rule))
  unfolding kind_of
  kind_lem rule =
      rw
        (
          contains_v4_lem net (with_range rule).ip_ranges,
          contains_v6_lem net (with_range rule).ip_ranges,
        )
        refl

  kind_at :
      (rule : SecurityRule) (a b c : Bool)
      → has_v4 rule ≡ a
      → is_all_ranges rule ≡ b
      → both_ports (with_range rule) ≡ c
      → kind_of net (with_range rule) ≡ kind_by (some a) (some b) c
  kind_at rule a b c ea eb ec = cc (kind_lem rule)

  -- Which list of commands a rule becomes.
  pub IsHandled : String → SecurityRule → Type 0
  IsHandled chain rule =
      ((has_v4 rule ≡ true) × RunsAs chain rule addr_v4)
      ⊎ ((has_v4 rule ≡ false) × (is_all_ranges rule ≡ true) × RunsAs chain rule addr_v6)
      ⊎ ((has_v4 rule ≡ false)
          × (is_all_ranges rule ≡ false)
          × (both_ports (with_range rule) ≡ true)
          × RunsAs chain rule port)
      ⊎ ((has_v4 rule ≡ false)
          × (is_all_ranges rule ≡ false)
          × (both_ports (with_range rule) ≡ false)
          × RunsAs chain rule proto)

  -- A rule with at least one IPv4 range is carried out as IPv4 commands for all its ranges, those
  -- of other families included; else, if each of its ranges is an address, a network or two
  -- addresses, as IPv6 commands; else, if both its ports are set, by its ports alone; else by its
  -- protocol alone. A rule without ranges counts as one with an empty range.
  pub process_rule-IsHandled : (chain : String) (rule : SecurityRule) → IsHandled chain rule
  unfolding IsHandled
  process_rule-IsHandled chain rule = elim (Bool-cases (has_v4 rule)) [
    | inl a ↦ inl (a, process_kind addr_v4 chain rule (kind_at rule true _ _ a refl refl))
    | inr a ↦ elim (Bool-cases (is_all_ranges rule)) [
      | inl b ↦
          inr (inl (a, b, process_kind addr_v6 chain rule (kind_at rule false true _ a b refl)))
      | inr b ↦ elim (Bool-cases (both_ports (with_range rule))) [
        | inl c ↦ inr (
            inr (inl (a, b, c, process_kind port chain rule (kind_at rule false false true a b c))))
        | inr c ↦ inr (
            inr
              (inr (a, b, c, process_kind proto chain rule (kind_at rule false false false a b c))))
      ]
    ]
  ]

-- None of the tests of a protocol passes.
abbrev IsUnknown : String → Type 0
IsUnknown p =
    ((p == "ipv4") ≡ false)
    × ((p == "ipv6") ≡ false)
    × ((p == "icmpv4") ≡ false)
    × ((p == "icmp") ≡ false)
    × ((p == "icmpv6") ≡ false)
    × ((p == "tcp") ≡ false)
    × ((p == "udp") ≡ false)

IsUnknown-of_test : (p : String) → is_allowed p allowed_protocols ≡ false → IsUnknown p
IsUnknown-of_test p h = ground arith

plan-empty :
    (iface : String) (k : Kind) (chain : String) (rule : SecurityRule)
    → IsUnknown rule.ip_protocol
    → kind_plan iface k chain rule ≡ []
plan-empty iface addr_v4 chain rule (a, b, c, d, e, f, g) = simp (a, c, d, f, g)
plan-empty iface addr_v6 chain rule (a, b, c, d, e, f, g) = simp (b, d, e, f, g)
plan-empty iface port chain rule (a, b, c, d, e, f, g) = simp (a, b, f, g)
plan-empty iface proto chain rule (a, b, c, d, e, f, g) = simp (a, b, c, d, e, f, g)

with_range-protocol : (rule : SecurityRule) → (with_range rule).ip_protocol ≡ rule.ip_protocol
with_range-protocol rule = ground arith

-- A rule whose protocol is none of the seven known ones, the empty one included, issues no
-- command and gives no error, whatever its addresses and ports.
pub unknown_is_skipped :
    (nft : Nft) (net : Net) (wg_iface chain : String) (rule : SecurityRule)
    → is_allowed rule.ip_protocol allowed_protocols ≡ false
    → process_rule nft net wg_iface chain rule ≡ done tt
unknown_is_skipped nft net wg_iface chain rule h =
    let k = kind_of net (with_range rule) in
    let unknown =
      IsUnknown-of_test (with_range rule).ip_protocol (rw (with_range-protocol rule) h) in
    process_kind nft net wg_iface k chain rule refl
    ∙ ap (run_all nft) (plan-empty (group_interface wg_iface) k chain (with_range rule) unknown)
