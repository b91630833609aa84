-- ===== src/Firewall/PermitPlan.antt =====
-- internal/nexodus/policy_linux.go: the functions that permit a rule issue its plan.
use nexodus.Prelude.{
  ◌≡◌, refl, ◌∙◌, ◌≢◌, String, Bool, true, false, not, ◌&&◌, List, [], map, ◌==◌, inl, inr,
  string_eq, if◌then◌else◌, arith, Bool-cases, eq_iff,
}
use nexodus.Prelude.Text.{concat-ne_empty}
use nexodus.Firewall.{SecurityRule, Command, Nft, ◌>>◌, done, when}
use nexodus.Firewall.Ranges.{v4, v6}
use nexodus.Firewall.Permit.{
  nft_port_option, nf_permit_proto_port_addr_v4, nf_permit_proto_port_addr_v6, nf_permit_proto_port,
  nf_permit_proto_any, for_each,
}
use nexodus.Firewall.Plan.{address_plan, port_plan, any_plan}
use nexodus.Firewall.Runs.{run_all, for_each-run, then_done}

-- The protocols that the code knows, and a text that is none of them.
data ProtocolCase (p : String) : Type 0 where
  ipv4 : p ≡ "ipv4" → ProtocolCase p
  ipv6 : p ≡ "ipv6" → ProtocolCase p
  tcp : p ≡ "tcp" → ProtocolCase p
  udp : p ≡ "udp" → ProtocolCase p
  icmp : p ≡ "icmp" → ProtocolCase p
  icmpv4 : p ≡ "icmpv4" → ProtocolCase p
  icmpv6 : p ≡ "icmpv6" → ProtocolCase p
  other :
      (p == "ipv4") ≡ false
      → (p == "ipv6") ≡ false
      → (p == "tcp") ≡ false
      → (p == "udp") ≡ false
      → (p == "icmp") ≡ false
      → (p == "icmpv4") ≡ false
      → (p == "icmpv6") ≡ false
      → ProtocolCase p

or_else :
    (p q : String) → (p ≡ q → ProtocolCase p) → ((p == q) ≡ false → ProtocolCase p) → ProtocolCase p
or_else p q is_q is_not = elim (Bool-cases (p == q)) [
  | inl e ↦ is_q ((eq_iff p q).0 e)
  | inr e ↦ is_not e
]

which_protocol : (p : String) → ProtocolCase p
which_protocol p = or_else p "ipv4" ipv4 (λ a. or_else p "ipv6" ipv6 (λ b. or_else p "tcp" tcp (λ c.
    or_else p "udp" udp (λ d. or_else p "icmp" icmp (λ e.
      or_else p "icmpv4" icmpv4 (λ f. or_else p "icmpv6" icmpv6 (λ g. other a b c d e f g)))))))

test_ne : (s t : String) → s ≢ t → (s == t) ≡ false
test_ne s t ne = ground (arith, eq_iff s t)

option_ne : (rule : SecurityRule) → (nft_port_option rule == "") ≡ false
unfolding nft_port_option
option_ne rule =
    test_ne (nft_port_option rule) ""
      (concat-ne_empty "dport" " " _ (ground (arith, eq_iff " " "")))

module _ (nft : Nft) where
  -- One command for each range, with or without ports, or no command.
  either_lem :
      (a b : Bool) (f g : String → Command) (rs : List String)
      → (if a then for_each nft f rs else if b then for_each nft g rs else done tt)
        ≡ run_all nft (if a then map f rs else if b then map g rs else [])
  either_lem true b f g rs = for_each-run nft f rs
  either_lem false true f g rs = for_each-run nft g rs
  either_lem false false f g rs = refl

  -- `a` and `b`: one of the ports is 0.
  both_lem :
      (a b : Bool) (f g : String → Command) (rs : List String)
      → when (a && b) (for_each nft f rs) >> when (not a && not b) (for_each nft g rs)
        ≡ run_all nft (if a && b then map f rs else if not a && not b then map g rs else [])
  both_lem true true f g rs = then_done nft (for_each nft f rs) ∙ for_each-run nft f rs
  both_lem true false f g rs = refl
  both_lem false true f g rs = refl
  both_lem false false f g rs = for_each-run nft g rs

module _ (nft : Nft) (iface : String) where
  pub permit_v4_lem :
      (chain : String) (rule : SecurityRule)
      → nf_permit_proto_port_addr_v4 nft iface chain rule
        ≡ run_all nft (address_plan iface v4 chain rule)
  unfolding nf_permit_proto_port_addr_v4
  permit_v4_lem chain rule = elim (which_protocol rule.ip_protocol) [
    | ipv4 e ↦ simp (e, either_lem nft)
    | ipv6 e ↦ rw e refl
    | tcp e ↦ simp (e, both_lem nft)
    | udp e ↦ simp (e, both_lem nft)
    | icmp e ↦ rw e (for_each-run nft _ _)
    | icmpv4 e ↦ rw e (for_each-run nft _ _)
    | icmpv6 e ↦ rw e refl
    | other a b c d e f g ↦ simp (a, c, d, e, f)
  ]

  pub permit_v6_lem :
      (chain : String) (rule : SecurityRule)
      → nf_permit_proto_port_addr_v6 nft iface chain rule
        ≡ run_all nft (address_plan iface v6 chain rule)
  unfolding nf_permit_proto_port_addr_v6
  permit_v6_lem chain rule = elim (which_protocol rule.ip_protocol) [
    | ipv4 e ↦ rw e refl
    | ipv6 e ↦ simp (e, either_lem nft)
    | tcp e ↦ simp (e, both_lem nft)
    | udp e ↦ simp (e, both_lem nft)
    | icmp e ↦ rw e (for_each-run nft _ _)
    | icmpv4 e ↦ rw e refl
    | icmpv6 e ↦ rw e (for_each-run nft _ _)
    | other a b c d e f g ↦ simp (b, c, d, e, g)
  ]

  pub permit_port_lem :
      (chain : String) (rule : SecurityRule)
      → nf_permit_proto_port nft iface chain rule ≡ run_all nft (port_plan iface chain rule)
  unfolding nf_permit_proto_port
  permit_port_lem chain rule = elim (which_protocol rule.ip_protocol) [
    | ipv4 e ↦ simp (e, option_ne, then_done nft)
    | ipv6 e ↦ simp (e, option_ne, then_done nft)
    | tcp e ↦ simp (e, option_ne, then_done nft)
    | udp e ↦ simp (e, option_ne, then_done nft)
    | icmp e ↦ rw e refl
    | icmpv4 e ↦ rw e refl
    | icmpv6 e ↦ rw e refl
    | other a b c d e f g ↦ simp (a, b, c, d)
  ]

  pub permit_any_lem :
      (chain : String) (rule : SecurityRule)
      → nf_permit_proto_any nft iface chain rule ≡ run_all nft (any_plan iface chain rule)
  unfolding nf_permit_proto_any
  permit_any_lem chain rule = elim (which_protocol rule.ip_protocol) [
    | ipv4 e ↦ simp (e, then_done nft)
    | ipv6 e ↦ simp (e, then_done nft)
    | tcp e ↦ simp (e, then_done nft)
    | udp e ↦ simp (e, then_done nft)
    | icmp e ↦ simp (e, then_done nft)
    | icmpv4 e ↦ simp (e, then_done nft)
    | icmpv6 e ↦ simp (e, then_done nft)
    | other a b c d e f g ↦ simp (a, b, c, d, e, f, g)
  ]
