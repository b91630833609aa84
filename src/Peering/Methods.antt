-- ===== src/Peering/Methods.antt =====
-- internal/nexodus/wg_peers.go: the table `wgPeerMethods`, its prerequisites and its builders.
pub mod Table
use nexodus.Prelude.{
  ℕ, ◌≡◌, String, Bool, true, false, not, ◌&&◌, ◌||◌, Option, none, some, [], ◌∷◌, List, ◌++◌, ◌==◌,
  string_eq, if◌then◌else◌,
}
use nexodus.DerpMapping.{DerpIpMapping, get_local_ip_mapping_for_peer}
use nexodus.Peering.{
  Env, Endpoint, Device, PeeringMethod, no_method, relay_self_direct_local, relay_self,
  relay_peer_direct_local, relay_peer, direct_local, reflexive, via_relay, via_derp_relay,
  WgPeerConfig, Nexodus, empty_config,
}

-- In order of preference.
abbrev pub wg_peer_methods : List PeeringMethod
wg_peer_methods =
    relay_self_direct_local ∷ relay_self ∷ relay_peer_direct_local ∷ relay_peer ∷ direct_local
    ∷ reflexive ∷ via_relay ∷ via_derp_relay ∷ []

unfoldable pub parse_ip_from_addr_port : Env → String → String
parse_ip_from_addr_port env addr_port = elim (env.parse_addr_port addr_port) [
  | none ↦ ""
  | some ip ↦ ip
]

abbrev pub same_reflexive : Env → Nexodus → String → Bool
same_reflexive env nx reflexive_ip4 = nx.reflexive_ip4 == parse_ip_from_addr_port env reflexive_ip4

-- `method.checkPrereqs`, an entry of the table to a clause.
unfoldable pub check_prereqs : Env → PeeringMethod → Nexodus → Device → String → Bool → Bool → Bool
check_prereqs env relay_self_direct_local nx d r healthy_relay wg_relay =
    nx.relay && same_reflexive env nx r
check_prereqs env relay_self nx d r healthy_relay wg_relay = nx.relay
check_prereqs env relay_peer_direct_local nx d r healthy_relay wg_relay =
    not nx.relay && (d.relay && same_reflexive env nx r)
check_prereqs env relay_peer nx d r healthy_relay wg_relay = not nx.relay && d.relay
check_prereqs env direct_local nx d r healthy_relay wg_relay =
    not nx.relay && (not nx.relay_only && (not d.relay && same_reflexive env nx r))
check_prereqs env reflexive nx d r healthy_relay wg_relay =
    not nx.relay
    && (not nx.relay_only && (not d.relay && (not d.symmetric_nat && not nx.symmetric_nat)))
check_prereqs env via_relay nx d r healthy_relay wg_relay =
    not nx.relay && (not d.relay && (healthy_relay && wg_relay))
check_prereqs env via_derp_relay nx d r healthy_relay wg_relay =
    not nx.relay && (not d.relay && (not wg_relay && (nx.symmetric_nat || d.symmetric_nat)))
check_prereqs env no_method nx d r healthy_relay wg_relay = false

abbrev pub persistent_keepalive : String
persistent_keepalive = "20"

abbrev peer_config : Device → String → List String → WgPeerConfig
peer_config d endpoint allowed_ips = record {
  public_key = d.public_key;
  endpoint = endpoint;
  allowed_ips = allowed_ips;
  persistent_keep_alive = persistent_keepalive;
  allowed_ips_for_relay = [];
}

-- device.AllowedIps after `append(device.AllowedIps, device.AdvertiseCidrs...)`
abbrev pub all_ips : Device → List String
all_ips d = d.allowed_ips ++ d.advertise_cidrs

unfoldable pub build_direct_local_peer_for_relay_node : Device → String → WgPeerConfig
build_direct_local_peer_for_relay_node d local_ip = peer_config d local_ip (all_ips d)

unfoldable pub build_peer_for_relay_node : Device → String → WgPeerConfig
build_peer_for_relay_node d reflexive_ip4 = peer_config d reflexive_ip4 (all_ips d)

unfoldable pub build_direct_local_relay_peer : Device → List String → String → WgPeerConfig
build_direct_local_relay_peer d relay_allowed_ip local_ip = peer_config d local_ip relay_allowed_ip

unfoldable pub build_relay_peer : Device → List String → String → WgPeerConfig
build_relay_peer d relay_allowed_ip reflexive_ip4 = peer_config d reflexive_ip4 relay_allowed_ip

unfoldable pub build_direct_local_peer : Device → String → WgPeerConfig
build_direct_local_peer d local_ip = peer_config d local_ip (all_ips d)

unfoldable pub build_reflexive_peer : Device → String → WgPeerConfig
build_reflexive_peer d reflexive_ip4 = peer_config d reflexive_ip4 (all_ips d)

abbrev via_derp_config : Env → Nexodus → Device → Option String → WgPeerConfig
via_derp_config env nx d none = empty_config
via_derp_config env nx d (some ip) =
    if env.configure_loopback ip
    then peer_config d (env.join_host_port ip nx.nex_relay.my_derp) (all_ips d)
    else empty_config

-- The address stays allocated when the loopback interface cannot be configured.
unfoldable pub build_peer_via_derp_relay : Env → Nexodus → Device → WgPeerConfig × DerpIpMapping
build_peer_via_derp_relay env nx d =
    let (mapping, ip) = get_local_ip_mapping_for_peer nx.nex_relay.derp_ip_mapping d.public_key in
    (via_derp_config env nx d ip, mapping)

-- `method.buildPeerConfig`, with the DERP addresses as they are afterwards.
unfoldable pub build_peer_config :
    Env
    → PeeringMethod
    → Nexodus
    → Device
    → List String
    → String
    → String
    → WgPeerConfig × DerpIpMapping
unfolding build_direct_local_peer_for_relay_node build_peer_for_relay_node
    build_direct_local_relay_peer build_relay_peer build_direct_local_peer build_reflexive_peer
    build_peer_via_derp_relay
build_peer_config env relay_self_direct_local nx d relay_ips local_ip r =
    (build_direct_local_peer_for_relay_node d local_ip, nx.nex_relay.derp_ip_mapping)
build_peer_config env relay_self nx d relay_ips local_ip r =
    (build_peer_for_relay_node d r, nx.nex_relay.derp_ip_mapping)
build_peer_config env relay_peer_direct_local nx d relay_ips local_ip r =
    (build_direct_local_relay_peer d relay_ips local_ip, nx.nex_relay.derp_ip_mapping)
build_peer_config env relay_peer nx d relay_ips local_ip r =
    (build_relay_peer d relay_ips r, nx.nex_relay.derp_ip_mapping)
build_peer_config env direct_local nx d relay_ips local_ip r =
    (build_direct_local_peer d local_ip, nx.nex_relay.derp_ip_mapping)
build_peer_config env reflexive nx d relay_ips local_ip r =
    (build_reflexive_peer d r, nx.nex_relay.derp_ip_mapping)
build_peer_config env via_relay nx d relay_ips local_ip r = (
  record empty_config { allowed_ips_for_relay = d.advertise_cidrs },
  nx.nex_relay.derp_ip_mapping,
)
build_peer_config env via_derp_relay nx d relay_ips local_ip r = build_peer_via_derp_relay env nx d
build_peer_config env no_method nx d relay_ips local_ip r =
    (empty_config, nx.nex_relay.derp_ip_mapping)
