-- ===== src/Reconcile.antt =====
-- internal/nexodus/nexodus.go: the agent brings its cache of devices and its peers in line with the
-- devices that the service reports. This file: the loop of `reconcileDeviceCache` over the devices.
-- `none` is a panic.
pub mod Deploy
pub mod Groups
pub mod Rounds
pub mod Synced
pub mod Devices
pub mod Total
pub mod Deletion
pub mod Keyed
pub mod Match
pub mod Whole
pub mod Failure
pub mod Renewed
mod Samples
mod Tests
use nexodus.Prelude.{
  ℕ, String, Bool, true, false, not, ◌&&◌, ◌||◌, Option, none, some, List, [], ◌∷◌, ◌==◌, string_eq,
  ltb, eqb, if◌then◌else◌, length,
}
use nexodus.Prelude.Maps.{Map, lookup, insert, delete}
use nexodus.Prelude.Text.{concat}
use nexodus.Peering.{Endpoint, Device, MetaValue, PeerHealth, DeviceCacheEntry, Nexodus, zero_entry}
use nexodus.Peering.Health.{add_to_device_cache, peer_is_healthy}
use nexodus.Peering.Relay.{◌>>=◌}
use nexodus.Peering.Build.{list_eq}

-- What WireGuard reports of a peer.
pub record WgSessions : Type 0 where
  pub tx : ℕ
  pub rx : ℕ
  pub last_handshake_time : ℕ
  pub latest_handshake : String
  pub endpoint : String

-- client.ModelsDeviceMetadata, by its value
abbrev pub Metadata : Type 0
Metadata = Map String MetaValue

-- What one reconciliation is given besides the agent.
pub record Inputs : Type 0 where
  -- the time at its start, and when it comes to the device with a key
  pub now : ℕ
  pub clock : String → ℕ
  -- RejectAfterTime of the wireguard library
  pub reject_after : ℕ
  -- what the informer of the metadata answers, by device and key; `none` is an error
  pub relay_metadata : Option (Map String Metadata)
  -- the id of nx.securityGroup, if there is one
  pub security_group_id : Option String

abbrev pub bool_eq : Bool → Bool → Bool
bool_eq true b = b
bool_eq false b = not b

abbrev pub endpoints_eq : List Endpoint → List Endpoint → Bool
endpoints_eq [] [] = true
endpoints_eq (x ∷ xs) (y ∷ ys) =
    (x.source == y.source && x.address == y.address) && endpoints_eq xs ys
endpoints_eq _ _ = false

-- A list that is missing and an empty one are one value here.
unfoldable pub device_updated : Device → Device → Bool
device_updated d1 d2 =
    not (list_eq d1.allowed_ips d2.allowed_ips)
    || not (list_eq d1.advertise_cidrs d2.advertise_cidrs)
    || not (endpoints_eq d1.endpoints d2.endpoints)
    || not (bool_eq d1.relay d2.relay)
    || not (bool_eq d1.symmetric_nat d2.symmetric_nat)
    || not (d1.security_group_id == d2.security_group_id)

unfoldable pub get_device_relay_metadata : Option (Map String Metadata) → String → Option Metadata
get_device_relay_metadata none device_id = none
get_device_relay_metadata (some metadata) device_id =
    lookup (concat (device_id ∷ "/relay" ∷ [])) metadata

-- What the loop over the devices changes.
pub record Sync : Type 0 where
  pub nx : Nexodus
  pub peer_stats : Map String WgSessions
  pub new_local_config : Bool
  pub need_sec_group_reconcile : Bool
  pub relay_wg_ip : String

abbrev pub is_new : Option DeviceCacheEntry → Device → Bool
is_new none p = true
is_new (some existing) p = device_updated existing.device p

-- A missing id of a group and an empty one are one value here.
abbrev group_differs : Option String → Device → Bool
group_differs none p = true
group_differs (some group) p = not (p.security_group_id == group)

unfoldable pub admit : Inputs → Device → Sync → Sync
unfolding add_to_device_cache
admit inputs p s =
    let own = p.public_key == s.nx.wireguard_pub_key in
    record s {
      nx = add_to_device_cache (inputs.clock p.public_key) s.nx p;
      peer_stats = delete p.public_key s.peer_stats;
      new_local_config = own || s.new_local_config;
      need_sec_group_reconcile =
          (own && group_differs inputs.security_group_id p) || s.need_sec_group_reconcile;
    }

abbrev pub or_zero : Option DeviceCacheEntry → DeviceCacheEntry
or_zero none = zero_entry
or_zero (some existing) = existing

unfoldable pub with_metadata : Inputs → Device → DeviceCacheEntry → DeviceCacheEntry
with_metadata inputs p existing =
    if p.relay
    then elim (get_device_relay_metadata inputs.relay_metadata p.id) [
      | none ↦ existing
      | some metadata ↦ record existing { metadata = metadata }
    ]
    else existing

abbrev first_ip : List String → Sync → Option Sync
first_ip [] s = none
first_ip (ip ∷ _) s = some (record s { relay_wg_ip = ip })

unfoldable pub note_relay : Device → Sync → Option Sync
note_relay p s = if p.relay then first_ip p.allowed_ips s else some s

unfoldable pub with_stats : Inputs → ℕ → WgSessions → DeviceCacheEntry → DeviceCacheEntry
with_stats inputs at cur existing =
    let h = existing.health in
    let read = record existing {
      health = record h {
        last_tx_bytes = cur.tx;
        last_tx_time = if eqb cur.tx h.last_tx_bytes then h.last_tx_time else at;
        last_rx_bytes = cur.rx;
        last_rx_time = if eqb cur.rx h.last_rx_bytes then h.last_rx_time else at;
        last_handshake_time = cur.last_handshake_time;
        last_handshake = cur.latest_handshake;
        last_refresh = inputs.now;
        endpoint = cur.endpoint;
      };
    } in
    let healthy = peer_is_healthy inputs.reject_after at read in
    record read {
      health = record read.health {
        peer_healthy = healthy;
        peer_healthy_time = if healthy then inputs.now else h.peer_healthy_time;
      };
    }

-- `peerIsHealthy` logs the first two end points of a peer whose health changes.
abbrev pub can_log : DeviceCacheEntry → DeviceCacheEntry → Bool
can_log before after =
    bool_eq before.peer_healthy after.peer_healthy || ltb 1 (length after.device.endpoints)

abbrev put_entry : String → DeviceCacheEntry → Sync → Sync
put_entry key entry s = record s {
  nx = record s.nx { device_cache = insert key entry s.nx.device_cache };
}

unfoldable pub record_stats : Inputs → String → DeviceCacheEntry → Sync → Option Sync
record_stats inputs key existing s = elim (lookup key s.peer_stats) [
  | none ↦ some s
  | some cur ↦
      let entry = with_stats inputs (inputs.clock key) cur existing in
      if can_log existing entry then some (put_entry key entry s) else none
]

abbrev pub admitted : Inputs → Device → Sync → Sync
admitted inputs p s =
    if is_new (lookup p.public_key s.nx.device_cache) p then admit inputs p s else s

unfoldable pub sync_device : Inputs → Device → Sync → Option Sync
sync_device inputs p s =
    let ready = admitted inputs p s in
    let existing = or_zero (lookup p.public_key ready.nx.device_cache) in
    note_relay p ready >>= λ noted.
    record_stats inputs p.public_key (with_metadata inputs p existing) noted

unfoldable pub sync_devices : Inputs → List Device → Sync → Option Sync
sync_devices inputs [] s = some s
sync_devices inputs (p ∷ devices) s = sync_device inputs p s >>= sync_devices inputs devices
