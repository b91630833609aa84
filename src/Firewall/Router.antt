-- ===== src/Firewall/Router.antt =====
-- internal/nexodus/policy_linux.go: the table of a network router.
use nexodus.Prelude.{String, Bool, not, [], ◌∷◌}
use nexodus.Prelude.Maps.{Map}
use nexodus.Firewall.{
  Nft, Action, ◌>>◌, done, try_cmd, when, table_family, policy_table_drop, nf_create_table,
}

abbrev pub rtr_table_name : String
rtr_table_name = "nexodus-net-router"

module _ (nft : Nft) where
  unfoldable pub rtr_create_chain : String → String → String → Action Unit
  rtr_create_chain chain_name chain_type chain_priority = try_cmd nft (
      "add" ∷ "chain" ∷ table_family ∷ rtr_table_name ∷ chain_name ∷ "{" ∷ "type" ∷ chain_type
      ∷ "hook" ∷ chain_name ∷ "priority" ∷ chain_priority ∷ ";" ∷ "}" ∷ [])

  unfoldable pub forward_prefixes : Map String String → Action Unit
  forward_prefixes [] = done tt
  forward_prefixes ((prefix, iface) ∷ m) =
      try_cmd nft (
        "add" ∷ "rule" ∷ table_family ∷ rtr_table_name ∷ "forward" ∷ "oifname" ∷ iface ∷ "ip"
        ∷ "daddr" ∷ prefix ∷ "counter" ∷ "accept" ∷ [])
      >> forward_prefixes m

  unfoldable pub masquerade : Map String String → Action Unit
  masquerade [] = done tt
  masquerade ((prefix, iface) ∷ m) =
      try_cmd nft (
        "add" ∷ "rule" ∷ table_family ∷ rtr_table_name ∷ "postrouting" ∷ "oifname" ∷ iface
        ∷ "counter" ∷ "masquerade" ∷ [])
      >> masquerade m

  -- The map gives a prefix the name of the interface that leads to it.
  unfoldable pub network_router_setup : Map String String → Bool → Action Unit
  network_router_setup interface_map disable_nat =
      policy_table_drop nft rtr_table_name
      >> nf_create_table nft rtr_table_name
      >> rtr_create_chain "prerouting" "nat" "dstnat"
      >> rtr_create_chain "postrouting" "nat" "srcnat"
      >> rtr_create_chain "forward" "filter" "filter"
      >> forward_prefixes interface_map
      >> when (not disable_nat) (masquerade interface_map)
