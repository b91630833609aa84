-- ===== src/Peering.antt =====
-- internal/nexodus/nexodus.go and wg_peers.go: the agent's view of its peers. The records keep the
-- fields that peering reads or writes. A time is a count of nanoseconds, and 0 is the zero time.
pub mod Methods
pub mod Health
pub mod Decision
pub mod Relay
pub mod Build
pub mod Keys
mod Tests
use nexodus.Prelude.{
  ℕ, String, Bool, true, false, Option, none, some, [], List, ◌==◌, string_eq, if◌then◌else◌,
}
use nexodus.Prelude.Maps.{Map}
use nexodus.DerpMapping.{DerpIpMapping}

-- What the agent gets from the network library and from the host.
pub record Env : Type 0 where
  -- netip.ParseAddrPort, then the text of the address
  pub parse_addr_port : String → Option String
  -- net.SplitHostPort
  pub split_host_port : String → Option (String × String)
  -- net.JoinHostPort, at a port number
  pub join_host_port : String → ℕ → String
  -- netip.ParseAddr, as the text of the address
  pub parse_addr : String → Option String
  -- configureLoopback reports no error
  pub configure_loopback : String → Bool
  -- debugUseDERPHTTP
  pub debug_use_derp_http : Bool
  -- runtime.GOOS is linux, and linkExists
  pub is_linux : Bool
  pub link_exists : String → Bool

-- client.ModelsEndpoint
pub record Endpoint : Type 0 where
  pub source : String
  pub address : String

-- client.ModelsDevice
pub record Device : Type 0 where
  pub id : String
  pub public_key : String
  pub relay : Bool
  pub symmetric_nat : Bool
  pub endpoints : List Endpoint
  pub allowed_ips : List String
  pub advertise_cidrs : List String
  pub ipv4_tunnel_ips : List String
  pub ipv6_tunnel_ips : List String
  pub security_group_id : String

-- A value of a device's metadata.
pub data MetaValue : Type 0 where
  text : String → MetaValue
  flag : Bool → MetaValue
  other : MetaValue

pub record PeerHealth : Type 0 where
  pub last_tx_bytes : ℕ
  pub last_tx_time : ℕ
  pub last_rx_bytes : ℕ
  pub last_rx_time : ℕ
  pub last_handshake_time : ℕ
  pub last_handshake : String
  pub last_refresh : ℕ
  pub endpoint : String
  pub peer_healthy : Bool
  pub peer_healthy_time : ℕ

-- The names of the peering methods; `no_method` is the name "none", and the empty one.
pub data PeeringMethod : Type 0 where
  no_method relay_self_direct_local relay_self relay_peer_direct_local relay_peer : PeeringMethod
  direct_local reflexive via_relay via_derp_relay : PeeringMethod

pub record DeviceCacheEntry : Type 0 where
  pub device : Device
  pub metadata : Map String MetaValue
  pub last_updated : ℕ
  pub health : PeerHealth
  pub open health use *
  pub peering_method : PeeringMethod
  -- `none` is the index -1
  pub peering_method_index : Option ℕ
  pub peering_time : ℕ

pub record WgPeerConfig : Type 0 where
  pub public_key : String
  pub endpoint : String
  pub allowed_ips : List String
  pub persistent_keep_alive : String
  pub allowed_ips_for_relay : List String

pub record WgLocalConfig : Type 0 where
  pub private_key : String
  pub listen_port : ℕ

pub record DerpNode : Type 0 where
  pub host_name : String
  pub derp_port : ℕ

pub record NexRelay : Type 0 where
  -- 0 is "none"
  pub my_derp : ℕ
  -- the regions of the DERP map and their nodes
  pub derp_map : Option (Map ℕ (List DerpNode))
  pub active_derp : Map ℕ String
  pub in_mem_resolver : Map String (List String)
  pub derp_ip_mapping : DerpIpMapping

-- What the agent does to the host and to its connections, in order.
pub data Effect : Type 0 where
  del_link : String → Effect
  peer_cleanup : String → Effect
  close_derp : ℕ → Effect
  peer_route : String → Effect
  peer_tunnel : String → Effect
  derp_start : ℕ → Effect
  derp_restart : ℕ → Effect

pub record Nexodus : Type 0 where
  pub relay : Bool
  pub relay_only : Bool
  pub symmetric_nat : Bool
  -- nodeReflexiveAddressIPv4.Addr().String()
  pub reflexive_ip4 : String
  pub wireguard_pub_key : String
  pub wireguard_pvt_key : String
  pub wireguard_pub_key_in_config : Bool
  pub listen_port : ℕ
  pub tunnel_iface : String
  pub tunnel_ip : String
  pub tunnel_ip_v6 : String
  pub vpc_ipv4_cidr : String
  pub vpc_ipv6_cidr : String
  pub interface : WgLocalConfig
  pub peers : Map String WgPeerConfig
  pub device_cache : Map String DeviceCacheEntry
  pub nex_relay : NexRelay
  pub effects : List Effect

abbrev pub empty_config : WgPeerConfig
empty_config = record {
  public_key = "";
  endpoint = "";
  allowed_ips = [];
  persistent_keep_alive = "";
  allowed_ips_for_relay = [];
}

abbrev pub zero_device : Device
zero_device = record {
  id = "";
  public_key = "";
  relay = false;
  symmetric_nat = false;
  endpoints = [];
  allowed_ips = [];
  advertise_cidrs = [];
  ipv4_tunnel_ips = [];
  ipv6_tunnel_ips = [];
  security_group_id = "";
}

-- The zero value of `deviceCacheEntry`.
abbrev pub zero_entry : DeviceCacheEntry
zero_entry = record {
  device = zero_device;
  metadata = [];
  last_updated = 0;
  health = record {
    last_tx_bytes = 0;
    last_tx_time = 0;
    last_rx_bytes = 0;
    last_rx_time = 0;
    last_handshake_time = 0;
    last_handshake = "";
    last_refresh = 0;
    endpoint = "";
    peer_healthy = false;
    peer_healthy_time = 0;
  };
  peering_method = no_method;
  peering_method_index = some 0;
  peering_time = 0;
}

abbrev pub is_via_relay : PeeringMethod → Bool
is_via_relay via_relay = true
is_via_relay _ = false
