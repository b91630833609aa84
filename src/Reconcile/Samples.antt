-- ===== src/Reconcile/Samples.antt =====
-- The agents, hosts and devices of the tests.
use nexodus.Prelude.{
  String, nat_eq, true, false, Option, none, some, [], ◌∷◌, ◌==◌, string_eq, if◌then◌else◌,
}
use nexodus.Prelude.Maps.{Map}
use nexodus.DerpMapping.{new_derp_ip_mapping}
use nexodus.Peering.{Env, Device, DeviceCacheEntry, Nexodus, text, zero_device, zero_entry}
use nexodus.Reconcile.{Inputs}
use nexodus.Reconcile.Deploy.{Host, Agent, ReconcileError, reconcile_device_cache}

abbrev pub env : Env
env = record {
  parse_addr_port = λ s. if s == "1.1.1.1:5" then some "1.1.1.1" else none;
  split_host_port = λ s. none;
  join_host_port = λ h p. h;
  parse_addr = λ s. some s;
  configure_loopback = λ s. true;
  debug_use_derp_http = false;
  is_linux = true;
  link_exists = λ s. false;
}

abbrev pub node : Nexodus
node = record {
  relay = false;
  relay_only = false;
  symmetric_nat = false;
  reflexive_ip4 = "2.2.2.2";
  wireguard_pub_key = "self";
  wireguard_pvt_key = "secret";
  wireguard_pub_key_in_config = false;
  listen_port = 51820;
  tunnel_iface = "wg0";
  tunnel_ip = "";
  tunnel_ip_v6 = "";
  vpc_ipv4_cidr = "100.64.0.0/10";
  vpc_ipv6_cidr = "200::/64";
  interface = record { private_key = ""; listen_port = 0 };
  peers = [];
  device_cache = [];
  nex_relay = record {
    my_derp = 0;
    derp_map = none;
    active_derp = [];
    in_mem_resolver = [];
    derp_ip_mapping = new_derp_ip_mapping;
  };
  effects = [];
}

abbrev pub device : String → String → Device
device i key = record zero_device {
  id = i;
  public_key = key;
  endpoints =
      record { source = "local"; address = "10.0.0.2:5" }
      ∷ record { source = "stun:"; address = "1.1.1.1:5" }
      ∷ [];
  allowed_ips = "100.64.0.2/32" ∷ [];
}

abbrev pub host : Host
host = record {
  setup_interface = λ nx. none;
  handle_peer_route = λ c. none;
  handle_peer_tunnel = λ c. none;
  delete_peer = λ key. true;
}

abbrev pub inputs : Inputs
inputs = record {
  now = 100;
  clock = λ key. 101;
  reject_after = 180_000_000_000;
  relay_metadata = some (("d1/relay", ("type", text "derp") ∷ []) ∷ []);
  security_group_id = none;
}

abbrev pub peer_map : Map String Device
peer_map = ("d1", device "d1" "peer") ∷ []

abbrev pub entry : Device → DeviceCacheEntry
entry d = record zero_entry { device = d; peering_method_index = none }

abbrev pub agent : Map String DeviceCacheEntry → Agent
agent cache = record {
  nx = record node { device_cache = cache };
  need_sec_group_reconcile = false;
  relay_wg_ip = "";
  relay_derp = false;
  derp_proxy = none;
}

abbrev pub or_agent : Option (Agent × Option ReconcileError) → Agent
or_agent none = agent []
or_agent (some r) = r.0

abbrev pub reconciled : Map String DeviceCacheEntry → Agent
reconciled cache =
    or_agent (reconcile_device_cache env host inputs (some peer_map) none (agent cache))

-- The service no longer lists this device.
abbrev pub with_gone : Map String DeviceCacheEntry
with_gone = ("gone", entry (device "d9" "gone")) ∷ []
