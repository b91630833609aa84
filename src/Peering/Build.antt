-- ===== src/Peering/Build.antt =====
-- internal/nexodus/wg_peers.go: `buildPeersConfig` and its parts.
pub mod Updates
pub mod Rounds
pub mod Loop
pub mod OwnNode
pub mod RelayRoutes
pub mod Devices
use nexodus.Prelude.{
  ℕ, zero, suc, ◌+◌, ◌≡◌, String, Bool, true, false, not, ◌&&◌, ◌||◌, Option, none, some, List, [],
  ◌∷◌, ◌++◌, ◌==◌, ltb, string_eq, if◌then◌else◌, length, is_empty,
}
use nexodus.Prelude.Maps.{Map, is_some, lookup, insert, delete}
use nexodus.Peering.{
  Env, Device, PeeringMethod, DeviceCacheEntry, PeerHealth, WgPeerConfig, WgLocalConfig, NexRelay,
  Effect, del_link, peer_cleanup, Nexodus, empty_config, is_via_relay,
}
use nexodus.Peering.Decision.{Rebuilt, rebuild_peer_config, or_empty}
use nexodus.Peering.Relay.{◌>>=◌, RelayScan, no_relay, scan_relays, switch_derp_map}

abbrev pub list_eq : List String → List String → Bool
list_eq [] [] = true
list_eq (x ∷ xs) (y ∷ ys) = x == y && list_eq xs ys
list_eq _ _ = false

unfoldable pub peer_config_updated : Map String WgPeerConfig → Device → WgPeerConfig → Bool
peer_config_updated peers d peer = elim (lookup d.public_key peers) [
  | none ↦ true
  | some old ↦
      if not (old.endpoint == peer.endpoint)
      then true
      else if not (list_eq old.allowed_ips peer.allowed_ips)
      then true
      else false
]

abbrev set_local : Env → String → String → Nexodus → Nexodus
set_local env ip4 ip6 nx =
    let stale = not (nx.tunnel_ip == ip4) && (env.is_linux && env.link_exists nx.tunnel_iface) in
    record nx {
      effects = if stale then nx.effects ++ del_link nx.tunnel_iface ∷ [] else nx.effects;
      tunnel_ip = ip4;
      tunnel_ip_v6 = ip6;
      interface = record { private_key = nx.wireguard_pvt_key; listen_port = nx.listen_port };
    }

abbrev with_first : List String → List String → (String → String → Nexodus) → Option Nexodus
with_first (ip4 ∷ _) (ip6 ∷ _) k = some (k ip4 ip6)
with_first _ _ k = none

-- `none` is the panic of an index out of range.
unfoldable pub build_local_config : Env → Nexodus → Option Nexodus
build_local_config env nx = elim (lookup nx.wireguard_pub_key nx.device_cache) [
  | none ↦ some nx
  | some d ↦
      with_first d.device.ipv4_tunnel_ips d.device.ipv6_tunnel_ips (λ a b. set_local env a b nx)
]

-- What the loop over the cache has so far.
pub record Progress : Type 0 where
  pub nx : Nexodus
  pub updated_peers : Map String Device
  pub allowed_ips_for_relay : List String

-- A peer behind the relay has no configuration of its own.
abbrev drop_peer : String → Nexodus → Nexodus
drop_peer pk nx =
    if is_some (lookup pk nx.peers)
    then record nx { peers = delete pk nx.peers; effects = nx.effects ++ peer_cleanup pk ∷ [] }
    else nx

abbrev place_peer : Rebuilt → String → Nexodus → Nexodus
place_peer r pk nx =
    if is_via_relay r.chosen_method
    then drop_peer pk nx
    else record nx { peers = insert pk r.peer nx.peers }

abbrev pub chosen_entry : Rebuilt → ℕ → DeviceCacheEntry
chosen_entry r now = record r.entry {
  peering_method_index = r.chosen_method_index;
  peering_method = r.chosen_method;
  peering_time = now;
}

abbrev with_mapping : Rebuilt → Nexodus → Nexodus
with_mapping r nx = record nx {
  nex_relay = record nx.nex_relay { derp_ip_mapping = r.derp_ip_mapping };
}

-- One round of the loop, with the result of `rebuildPeerConfig`.
unfoldable pub apply_rebuilt : Rebuilt → ℕ → Progress → Progress
unfolding peer_config_updated
apply_rebuilt r now s =
    let pk = r.entry.device.public_key in
    let nx = with_mapping r s.nx in
    let ips = s.allowed_ips_for_relay ++ r.peer.allowed_ips_for_relay in
    if not (peer_config_updated nx.peers r.entry.device r.peer)
    then record s { nx = nx; allowed_ips_for_relay = ips }
    else (let placed = place_peer r pk nx in
        record {
          nx = record placed { device_cache = insert pk (chosen_entry r now) placed.device_cache };
          updated_peers = insert pk r.entry.device s.updated_peers;
          allowed_ips_for_relay = ips;
        })

unfoldable pub build_peer : Env → ℕ → Bool → Bool → DeviceCacheEntry → Progress → Progress
build_peer env now healthy_relay wg_relay d s =
    if d.device.public_key == s.nx.wireguard_pub_key
    then s
    else apply_rebuilt (rebuild_peer_config env now s.nx d healthy_relay wg_relay) now s

-- The loop reads the entries as they were when it started: a round writes only its own entry.
unfoldable pub build_peers :
    Env → ℕ → Bool → Bool → Map String DeviceCacheEntry → Progress → Progress
build_peers env now healthy_relay wg_relay [] s = s
build_peers env now healthy_relay wg_relay ((k, d) ∷ cache) s =
    build_peers env now healthy_relay wg_relay cache (build_peer env now healthy_relay wg_relay d s)

-- The IPv4 range of the VPC stands in both places.
unfoldable pub route_via_relay : RelayScan → List String → Nexodus → Nexodus
route_via_relay s ips nx =
    let pk = s.relay_device.device.public_key in
    let config = or_empty (lookup pk nx.peers) in
    if s.healthy_relay && not (is_empty ips)
    then record nx {
      peers =
          insert pk (record config { allowed_ips = nx.vpc_ipv4_cidr ∷ nx.vpc_ipv4_cidr ∷ ips })
            nx.peers;
    }
    else nx

abbrev finish_build : RelayScan → Progress → Nexodus × Map String Device
finish_build s p = (route_via_relay s p.allowed_ips_for_relay p.nx, p.updated_peers)

unfoldable pub build_peers_config : Env → ℕ → Nexodus → Option (Nexodus × Map String Device)
build_peers_config env now nx =
    let known = is_some (lookup nx.wireguard_pub_key nx.device_cache) in
    build_local_config env (record nx { wireguard_pub_key_in_config = known }) >>= λ local.
    let scan = scan_relays no_relay local.device_cache in
    switch_derp_map env scan local >>= λ ready.
    let wg_relay = scan.relay_available && not scan.is_derp_relay in
    some (
      finish_build scan (
        build_peers env now scan.healthy_relay wg_relay ready.device_cache
          (record { nx = ready; updated_peers = []; allowed_ips_for_relay = [] })))
