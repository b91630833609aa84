-- ===== src/Peering/Decision.antt =====
-- internal/nexodus/wg_peers.go: which peering method a peer gets next.
pub mod Candidates
pub mod Progress
pub mod Outcomes
use nexodus.Prelude.{
  ℕ, suc, ◌+◌, String, Bool, true, false, not, ◌&&◌, ◌||◌, Option, none, some, List, [], ◌∷◌, ltb,
  eqb, ◌==◌, string_eq, if◌then◌else◌, length, any,
}
use nexodus.Prelude.Maps.{Map, lookup}
use nexodus.DerpMapping.{DerpIpMapping}
use nexodus.Peering.{
  Env, Endpoint, Device, DeviceCacheEntry, PeerHealth, PeeringMethod, WgPeerConfig, Nexodus,
  empty_config, is_via_relay,
}
use nexodus.Peering.Methods.{wg_peer_methods, check_prereqs, build_peer_config}
use nexodus.Peering.Health.{peering_failed, peering_reset}

-- The local and the reflexive address; a later endpoint of a kind replaces an earlier one.
abbrev extract_from : String → String → List Endpoint → String × String
extract_from local_ip reflexive_ip4 [] = (local_ip, reflexive_ip4)
extract_from local_ip reflexive_ip4 (e ∷ es) =
    if e.source == "local"
    then extract_from e.address reflexive_ip4 es
    else extract_from local_ip e.address es

unfoldable pub extract_local_and_reflexive_ip : Device → String × String
extract_local_and_reflexive_ip d = extract_from "" "" d.endpoints

-- The port is handed to the builders, and none of them reads it.
unfoldable pub extract_peer_port : Env → String → String
extract_peer_port env local_ip = elim (env.split_host_port local_ip) [
  | none ↦ ""
  | some (host, port) ↦ port
]

-- The tests of a method, with all but the method given.
abbrev pub Prereq : Type 0
Prereq = PeeringMethod → Bool

-- The loop of `shouldResetPeering`, over the methods from index `i` on: some method after `index`
-- passes its test.
unfoldable pub passes_after : Prereq → ℕ → ℕ → List PeeringMethod → Bool
passes_after ok index i [] = false
passes_after ok index i (m ∷ ms) = (ltb index i && ok m) || passes_after ok index (i + 1) ms

unfoldable pub should_reset_peering : Prereq → Option ℕ → Bool
should_reset_peering ok none = false
should_reset_peering ok (some index) =
    if eqb (index + 1) (length wg_peer_methods)
    then true
    else if passes_after ok index 0 wg_peer_methods
    then false
    else true

-- The two first tests of the loop of `rebuildPeerConfig`: `i` comes before the method in use, or
-- is the method in use and that has failed.
abbrev pub is_skipped : Option ℕ → Bool → ℕ → Bool
is_skipped none try_next i = false
is_skipped (some index) try_next i = ltb i index || (eqb i index && try_next)

-- The loop of `rebuildPeerConfig`: the method that is built, if any. `none` also stands for the
-- `break` of a peer that is reached through the relay already.
unfoldable pub choose :
    Prereq → PeeringMethod → Option ℕ → Bool → ℕ → List PeeringMethod → Option (ℕ × PeeringMethod)
choose ok current index try_next i [] = none
choose ok current index try_next i (m ∷ ms) =
    let rest = choose ok current index try_next (i + 1) ms in
    if is_skipped index try_next i
    then rest
    else if not (ok m)
    then rest
    else if is_via_relay m && is_via_relay current
    then none
    else some (i, m)

pub record Rebuilt : Type 0 where
  pub peer : WgPeerConfig
  pub chosen_method : PeeringMethod
  pub chosen_method_index : Option ℕ
  -- the entry behind the pointer, as it is afterwards
  pub entry : DeviceCacheEntry
  pub derp_ip_mapping : DerpIpMapping

abbrev pub or_empty : Option WgPeerConfig → WgPeerConfig
or_empty none = empty_config
or_empty (some c) = c

-- After the loop: the configuration of the method that it chose, or what the peer has now.
unfoldable pub rebuilt :
    Env
    → Nexodus
    → DeviceCacheEntry
    → List String
    → String
    → String
    → Option (ℕ × PeeringMethod)
    → Rebuilt
rebuilt env nx d relay_ips local_ip r none = record {
  peer = or_empty (lookup d.device.public_key nx.peers);
  chosen_method = d.peering_method;
  chosen_method_index = d.peering_method_index;
  entry = d;
  derp_ip_mapping = nx.nex_relay.derp_ip_mapping;
}
rebuilt env nx d relay_ips local_ip r (some (i, m)) =
    let built = build_peer_config env m nx d.device relay_ips local_ip r in
    record {
      peer = built.0;
      chosen_method = m;
      chosen_method_index = some i;
      entry = d;
      derp_ip_mapping = built.1;
    }

-- The part before the loop: the entry, reset if every method has been tried, and whether the
-- method in use is passed over.
unfoldable pub next_attempt : Prereq → Bool → DeviceCacheEntry → DeviceCacheEntry × Bool
unfolding peering_reset should_reset_peering
next_attempt ok failed d =
    if failed
    then if should_reset_peering ok d.peering_method_index
      then (peering_reset d, false)
      else (d, true)
    else (d, false)

abbrev pub prereq : Env → Nexodus → DeviceCacheEntry → Bool → Bool → Prereq
prereq env nx d healthy_relay wg_relay m =
    check_prereqs env m nx d.device (extract_local_and_reflexive_ip d.device).1 healthy_relay
      wg_relay

unfoldable pub rebuild_peer_config : Env → ℕ → Nexodus → DeviceCacheEntry → Bool → Bool → Rebuilt
rebuild_peer_config env now nx d healthy_relay wg_relay =
    let (local_ip, r) = extract_local_and_reflexive_ip d.device in
    let ok = prereq env nx d healthy_relay wg_relay in
    let (d', try_next) = next_attempt ok (peering_failed now d healthy_relay) d in
    rebuilt env nx d' (nx.vpc_ipv4_cidr ∷ nx.vpc_ipv6_cidr ∷ []) local_ip r
      (choose ok d'.peering_method d'.peering_method_index try_next 0 wg_peer_methods)
