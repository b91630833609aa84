-- ===== src/Peering/Build/RelayRoutes.antt =====
-- The addresses that the relay gets for the peers behind it.
use nexodus.Prelude.{
  ◌≡◌, ◌↔◌, ◌⊎◌, inl, inr, String, true, false, List, ◌∷◌, string_eq, arith, eq_iff, In, is_empty,
}
use nexodus.Prelude.Maps.{lookup, lookup-insert}
use nexodus.Peering.{Nexodus, WgPeerConfig}
use nexodus.Peering.Decision.{or_empty}
use nexodus.Peering.Relay.{RelayScan}
use nexodus.Peering.Build.{route_via_relay}

abbrev pub relay_key : RelayScan → String
relay_key s = s.relay_device.device.public_key

abbrev pub relay_config : RelayScan → Nexodus → WgPeerConfig
relay_config s nx = or_empty (lookup (relay_key s) nx.peers)

route-relay_config :
    (s : RelayScan) (ips : List String) (nx : Nexodus)
    → s.healthy_relay ≡ true
    → is_empty ips ≡ false
    → relay_config s (route_via_relay s ips nx)
      ≡ record (relay_config s nx) { allowed_ips = nx.vpc_ipv4_cidr ∷ nx.vpc_ipv4_cidr ∷ ips }
unfolding route_via_relay
route-relay_config s ips nx h ne = ground (
  arith,
  eq_iff (relay_key s) (relay_key s),
  lookup-insert (relay_key s) (relay_key s)
      (record (relay_config s nx) { allowed_ips = nx.vpc_ipv4_cidr ∷ nx.vpc_ipv4_cidr ∷ ips })
      nx.peers,
)

-- When a healthy relay has to carry addresses of peers behind it, it is given exactly those and the
-- IPv4 range of the VPC: an address such as the IPv6 range is among them only if it is one of these.
pub route-In_iff :
    (s : RelayScan) (ips : List String) (nx : Nexodus) (ip : String)
    → s.healthy_relay ≡ true
    → is_empty ips ≡ false
    → In ip (relay_config s (route_via_relay s ips nx)).allowed_ips
      ↔ ((ip ≡ nx.vpc_ipv4_cidr) ⊎ In ip ips)
route-In_iff s ips nx ip h ne = rw (route-relay_config s ips nx h ne) (
  (λ m. elim m [ inl e ↦ inl e | inr m' ↦ elim m' [ inl e ↦ inl e | inr m'' ↦ inr m'' ] ]),
  (λ m. elim m [ inl e ↦ inl e | inr m' ↦ inr (inr m') ]),
)
