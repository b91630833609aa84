-- ===== src/Firewall/RouterPlan.antt =====
-- internal/nexodus/policy_linux.go: the table of a network router is dropped and written anew.
use nexodus.Prelude.{
  ◌≡◌, refl, ap, ◌⊎◌, inl, inr, String, Bool, true, false, not, none, some, List, [], ◌∷◌, ◌++◌,
  map, if◌then◌else◌,
}
use nexodus.Prelude.Maps.{Map}
use nexodus.Firewall.{Command, Nft, ◌>>◌, when, table_family, policy_table_drop, nf_create_table}
use nexodus.Firewall.Router.{
  rtr_table_name, rtr_create_chain, forward_prefixes, masquerade, network_router_setup,
}
use nexodus.Firewall.Runs.{
  run_all, run_all-append, then_assoc, then-cases, IsRunOf, run_all-IsRunOf,
}

abbrev rtr_chain : String → String → String → Command
rtr_chain name kind priority =
    "add" ∷ "chain" ∷ table_family ∷ rtr_table_name ∷ name ∷ "{" ∷ "type" ∷ kind ∷ "hook" ∷ name
    ∷ "priority" ∷ priority ∷ ";" ∷ "}" ∷ []

abbrev forward_rule : String × String → Command
forward_rule (prefix, iface) =
    "add" ∷ "rule" ∷ table_family ∷ rtr_table_name ∷ "forward" ∷ "oifname" ∷ iface ∷ "ip" ∷ "daddr"
    ∷ prefix ∷ "counter" ∷ "accept" ∷ []

abbrev masquerade_rule : String × String → Command
masquerade_rule (prefix, iface) =
    "add" ∷ "rule" ∷ table_family ∷ rtr_table_name ∷ "postrouting" ∷ "oifname" ∷ iface ∷ "counter"
    ∷ "masquerade" ∷ []

-- The table, its three chains, a rule for each prefix and, unless it is switched off, the source
-- NAT of each interface.
abbrev pub router_plan : Map String String → Bool → List Command
router_plan m disable_nat =
    ("add" ∷ "table" ∷ table_family ∷ rtr_table_name ∷ [])
      ∷ rtr_chain "prerouting" "nat" "dstnat"
      ∷ rtr_chain "postrouting" "nat" "srcnat"
      ∷ rtr_chain "forward" "filter" "filter"
      ∷ map forward_rule m
    ++ (if disable_nat then [] else map masquerade_rule m)

module _ (nft : Nft) where
  forward_lem : (m : Map String String) → forward_prefixes nft m ≡ run_all nft (map forward_rule m)
  unfolding forward_prefixes
  forward_lem [] = refl
  forward_lem ((prefix, iface) ∷ m) = cc (forward_lem m)

  masquerade_lem : (m : Map String String) → masquerade nft m ≡ run_all nft (map masquerade_rule m)
  unfolding masquerade
  masquerade_lem [] = refl
  masquerade_lem ((prefix, iface) ∷ m) = cc (masquerade_lem m)

  nat_lem :
      (m : Map String String) (disable_nat : Bool)
      → when (not disable_nat) (masquerade nft m)
        ≡ run_all nft (if disable_nat then [] else map masquerade_rule m)
  nat_lem m true = refl
  nat_lem m false = masquerade_lem m

  router_lem :
      (m : Map String String) (disable_nat : Bool)
      → network_router_setup nft m disable_nat
        ≡ policy_table_drop nft rtr_table_name >> run_all nft (router_plan m disable_nat)
  unfolding network_router_setup nf_create_table rtr_create_chain
  router_lem m disable_nat =
      simp (forward_lem m, nat_lem m disable_nat, run_all-append nft, then_assoc nft)

  pub IsRouterRun : Map String String → Bool → List Command → Type 0
  IsRouterRun m disable_nat log =
      let dropped = policy_table_drop nft rtr_table_name log in
      let o = network_router_setup nft m disable_nat log in
      ((dropped.0 ≡ none) × (o.0 ≡ none) × (o.1 ≡ dropped.1))
      ⊎ ((dropped.0 ≡ some tt) × IsRunOf nft (router_plan m disable_nat) dropped.1 o)

  -- For every answer of nft, the set-up of a network router either fails to drop the old table
  -- and does nothing else, or carries out the planned list: the table, its three chains, a
  -- forwarding rule for each prefix and, unless NAT is switched off, a masquerade rule for each;
  -- all of it without an error, or the commands before one that nft refused, with an error.
  pub setup-IsRouterRun :
      (m : Map String String) (disable_nat : Bool) (log : List Command)
      → IsRouterRun m disable_nat log
  unfolding IsRouterRun
  setup-IsRouterRun m disable_nat log =
      let drop = policy_table_drop nft rtr_table_name in
      let plan = router_plan m disable_nat in
      elim (then-cases drop (run_all nft plan) log) [
        | inl (bad, e) ↦ inl (
          bad,
          rw (router_lem m disable_nat) (ap (λ o. o.0) e),
          rw (router_lem m disable_nat) (ap (λ o. o.1) e),
        )
        | inr (ok, e) ↦
            inr (ok, rw (router_lem m disable_nat, e) (run_all-IsRunOf nft plan (drop log).1))
      ]
