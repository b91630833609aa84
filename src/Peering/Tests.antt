-- ===== src/Peering/Tests.antt =====
-- Runs of the peering code, and the theorems at concrete nodes.
use nexodus.Prelude.{
  ℕ, ◌≡◌, refl, String, true, false, Option, none, some, List, [], ◌∷◌, ◌==◌, string_eq,
  if◌then◌else◌, arith, eq_iff, map,
}
use nexodus.Prelude.Maps.{Map, lookup, insert}
use nexodus.DerpMapping.{new_derp_ip_mapping}
use nexodus.Peering.{
  Env, Device, DeviceCacheEntry, Nexodus, PeeringMethod, text, reflexive, via_relay, zero_device,
  zero_entry,
}
use nexodus.Peering.Relay.{scan_relays, switch_derp_map, cert_mode_manual, set_custom_derp_map}
use nexodus.Peering.Build.{
  Progress, build_local_config, build_peer, apply_rebuilt, build_peers, build_peers_config,
}
use nexodus.Peering.Build.Loop.{build_peers-IsSettled, IsSettled}
use nexodus.Peering.Build.{route_via_relay}
use nexodus.Peering.Methods.{build_peer_config, check_prereqs, parse_ip_from_addr_port}
use nexodus.Peering.Health.{peering_failed, peering_reset}
use nexodus.Peering.Decision.{
  prereq, extract_local_and_reflexive_ip, should_reset_peering, passes_after, rebuild_peer_config,
  rebuilt, next_attempt, choose,
}
use nexodus.Peering.Decision.Progress.{should_reset_iff, IsNext, FailsAfter}
use nexodus.Peering.Decision.Outcomes.{
  Gets, FromReset, rebuild_moves_on, rebuild_starts_over, rebuild_first_time, rebuild_stays,
}

abbrev pub env : Env
env = record {
  parse_addr_port = λ s. if s == "1.1.1.1:5" then some "1.1.1.1" else none;
  split_host_port = λ s. if s == "3.3.3.3:3478" then some ("3.3.3.3", "3478") else none;
  join_host_port = λ h p. h;
  parse_addr = λ s. some s;
  configure_loopback = λ s. true;
  debug_use_derp_http = false;
  is_linux = true;
  link_exists = λ s. true;
}

abbrev peer : Device
peer = record zero_device {
  public_key = "peer";
  endpoints =
      record { source = "local"; address = "10.0.0.2:5" }
      ∷ record { source = "stun:"; address = "1.1.1.1:5" }
      ∷ [];
  allowed_ips = "100.64.0.2/32" ∷ [];
}

abbrev pub node : Nexodus
node = record {
  relay = false;
  relay_only = false;
  symmetric_nat = false;
  reflexive_ip4 = "2.2.2.2";
  wireguard_pub_key = "self";
  wireguard_pvt_key = "secret";
  wireguard_pub_key_in_config = false;
  listen_port = 51820;
  tunnel_iface = "wg0";
  tunnel_ip = "";
  tunnel_ip_v6 = "";
  vpc_ipv4_cidr = "100.64.0.0/10";
  vpc_ipv6_cidr = "200::/64";
  interface = record { private_key = ""; listen_port = 0 };
  peers = [];
  device_cache = [];
  nex_relay = record {
    my_derp = 0;
    derp_map = none;
    active_derp = [];
    in_mem_resolver = [];
    derp_ip_mapping = new_derp_ip_mapping;
  };
  effects = [];
}

-- The peer was tried at its reflexive address at time 1.
abbrev tried : DeviceCacheEntry
tried = record zero_entry {
  device = peer;
  peering_method = reflexive;
  peering_method_index = some 5;
  peering_time = 1;
}

abbrev untried : DeviceCacheEntry
untried = record zero_entry { device = peer; peering_method_index = none }

abbrev late : ℕ
late = 40_000_000_000

moves_to_relay :
    let r = rebuild_peer_config env late node tried true true in
    (r.chosen_method ≡ via_relay) × (r.chosen_method_index ≡ some 6)
unfolding rebuild_peer_config rebuilt next_attempt choose check_prereqs peering_failed
    extract_local_and_reflexive_ip passes_after
moves_to_relay = (refl, refl)

rebuild_moves_on_example :
    (i : ℕ) × (m : PeeringMethod) × Gets env late node tried true true tried i m
    × IsNext (prereq env node tried true true) 5 i m
unfolding check_prereqs peering_failed
rebuild_moves_on_example =
    rebuild_moves_on env late node tried true true 5 refl refl refl
      (6, via_relay, omega arith, refl, refl)

-- Without a relay nothing behind the reflexive address is left.
nothing_left : FailsAfter (prereq env node tried false false) 5
unfolding check_prereqs should_reset_peering passes_after
nothing_left = (should_reset_iff (prereq env node tried false false) 5 (omega arith)).0 refl

rebuild_starts_over_example : FromReset env late node tried false false (peering_reset tried)
unfolding peering_failed
rebuild_starts_over_example =
    rebuild_starts_over env late node tried false false 5 refl refl (omega arith) nothing_left

rebuild_first_time_example : FromReset env late node untried true true untried
rebuild_first_time_example = rebuild_first_time env late node untried true true refl refl

rebuild_stays_example : Gets env 2 node tried true true tried 5 reflexive
unfolding check_prereqs peering_failed
rebuild_stays_example = rebuild_stays env 2 node tried true true 5 refl refl refl refl

abbrev pub derp_device : DeviceCacheEntry
derp_device = record zero_entry {
  device = record zero_device {
    public_key = "derp";
    relay = true;
    endpoints = record { source = "stun:"; address = "3.3.3.3:3478" } ∷ [];
  };
  metadata = ("type", text "derp") ∷ ("hostname", text "derp.example.com") ∷ [];
}

abbrev cache : Map String DeviceCacheEntry
cache = ("peer", untried) ∷ ("derp", derp_device) ∷ []

abbrev start : Progress
start = record { nx = node; updated_peers = []; allowed_ips_for_relay = [] }

build_peers-IsSettled_example :
    IsSettled env late false false derp_device start
      (build_peers env late false false (("peer", untried) ∷ []) start)
      (build_peers env late false false cache start)
build_peers-IsSettled_example =
    build_peers-IsSettled env late false false (("peer", untried) ∷ []) [] "derp" derp_device start
      ((ground (arith, eq_iff "derp" "peer"), tt), (tt, tt))
      (ground (arith, eq_iff derp_device.device.public_key node.wireguard_pub_key))

-- The agent finds the DERP relay on board, makes it its home, and configures both peers.
abbrev summary : Option (Nexodus × Map String Device) → Option (ℕ × List String)
summary none = none
summary (some (nx, updated)) =
    some (nx.nex_relay.my_derp, map (λ (e : String × Device). e.0) updated)

configures_both :
    summary (build_peers_config env late (record node { device_cache = cache }))
    ≡ some (901, "peer" ∷ "derp" ∷ [])
unfolding build_peers_config build_local_config lookup insert switch_derp_map scan_relays
    cert_mode_manual set_custom_derp_map route_via_relay build_peers build_peer apply_rebuilt
    rebuild_peer_config rebuilt choose next_attempt peering_failed check_prereqs
    parse_ip_from_addr_port extract_local_and_reflexive_ip build_peer_config
configures_both = refl
