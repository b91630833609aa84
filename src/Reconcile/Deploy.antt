-- ===== src/Reconcile/Deploy.antt =====
-- internal/nexodus: what follows the loop of `reconcileDeviceCache`: the end points,
-- `DeployWireguardConfig` of wg_deploy.go, the DERP proxy, `handlePeerDelete` of wg.go; and the whole.
use nexodus.Prelude.{
  ℕ, String, Bool, true, false, not, ◌&&◌, ◌||◌, Option, none, some, List, [], ◌∷◌, ◌++◌, ◌==◌, map,
  string_eq, eqb, if◌then◌else◌, is_empty,
}
use nexodus.Prelude.Maps.{Map, is_some, lookup, insert, delete}
use nexodus.Peering.{
  Env, Device, DeviceCacheEntry, WgPeerConfig, Nexodus, Effect, peer_cleanup, peer_route,
  peer_tunnel, derp_start, derp_restart,
}
use nexodus.Peering.Relay.{◌>>=◌}
use nexodus.Peering.Build.{build_peers_config}
use nexodus.Reconcile.{WgSessions, Inputs, Sync, sync_devices}

abbrev pub at_config : Option WgPeerConfig → DeviceCacheEntry → DeviceCacheEntry
at_config none existing = existing
at_config (some config) existing = record existing {
  health = record existing.health { endpoint = config.endpoint };
}

unfoldable pub refresh_endpoint : String → Nexodus → Nexodus
refresh_endpoint key nx = elim (lookup key nx.device_cache) [
  | none ↦ nx
  | some existing ↦ record nx {
    device_cache = insert key (at_config (lookup key nx.peers) existing) nx.device_cache;
  }
]

unfoldable pub refresh_endpoints : Map String Device → Nexodus → Nexodus
refresh_endpoints [] nx = nx
refresh_endpoints ((_, peer) ∷ updated) nx =
    refresh_endpoints updated (refresh_endpoint peer.public_key nx)

-- An error of a deployment: whether its text has that of `securityGroupErr`.
pub data DeployError : Type 0 where
  security_group_error other_error : DeployError

-- What the host makes of the calls of a reconciliation.
pub record Host : Type 0 where
  -- setupInterface, when the interface does not have the tunnel's address; `none` is no error
  pub setup_interface : Nexodus → Option DeployError
  -- handlePeerRoute and handlePeerTunnel
  pub handle_peer_route : WgPeerConfig → Option DeployError
  pub handle_peer_tunnel : WgPeerConfig → Option DeployError
  -- deletePeer reports no error, for a public key
  pub delete_peer : String → Bool

abbrev or_last : Option DeployError → Option DeployError → Option DeployError
or_last none last = last
or_last (some e) last = some e

-- One round of the loop of DeployWireguardConfig, with the last error.
unfoldable pub deploy_peer :
    Host → Device → Nexodus × Option DeployError → Nexodus × Option DeployError
deploy_peer host updated (nx, last) =
    if updated.id == "" then (nx, last) else elim (lookup updated.public_key nx.peers) [
      | none ↦ (nx, last)
      | some peer ↦ if peer.public_key == nx.wireguard_pub_key then (nx, last) else (
        record nx {
          effects = nx.effects ++ peer_route peer.public_key ∷ peer_tunnel peer.public_key ∷ [];
        },
        or_last (host.handle_peer_tunnel peer) (or_last (host.handle_peer_route peer) last),
      )
    ]

unfoldable pub deploy_peers :
    Host → Map String Device → Nexodus × Option DeployError → Nexodus × Option DeployError
deploy_peers host [] result = result
deploy_peers host ((_, updated) ∷ more) result =
    deploy_peers host more (deploy_peer host updated result)

unfoldable pub deploy_wireguard_config :
    Host → Map String Device → Nexodus → Nexodus × Option DeployError
deploy_wireguard_config host updated nx = elim (host.setup_interface nx) [
  | none ↦ deploy_peers host updated (nx, none)
  | some e ↦ (nx, some e)
]

-- A loop over the entries of the cache, which stops at the first error; `true` is no error.
unfoldable pub delete_peers :
    (String → Bool) → Map String Device → Map String DeviceCacheEntry → Nexodus → Nexodus × Bool
delete_peers delete_peer peer_map [] nx = (nx, true)
delete_peers delete_peer peer_map ((_, p) ∷ cache) nx =
    let key = p.device.public_key in
    let listed = is_some (lookup p.device.id peer_map) in
    let cleaned = record nx {
      device_cache = delete key nx.device_cache;
      effects = nx.effects ++ peer_cleanup key ∷ [];
    } in
    let rest = delete_peers delete_peer peer_map cache (if listed then nx else cleaned) in
    if listed || delete_peer key then rest else (nx, false)

unfoldable pub handle_peer_delete : Host → Map String Device → Nexodus → Nexodus × Bool
handle_peer_delete host peer_map nx = delete_peers host.delete_peer peer_map nx.device_cache nx

pub record Agent : Type 0 where
  pub nx : Nexodus
  pub need_sec_group_reconcile : Bool
  pub relay_wg_ip : String
  pub relay_derp : Bool
  -- the port of derpProxy, if there is one
  pub derp_proxy : Option ℕ

abbrev run_proxy : (ℕ → Effect) → Agent → Agent
run_proxy effect a =
    let port = a.nx.nex_relay.my_derp in
    record a {
      nx = record a.nx { effects = a.nx.effects ++ effect port ∷ [] };
      derp_proxy = some port;
    }

abbrev pub start_or_restart : Option ℕ → Agent → Agent
start_or_restart none a = run_proxy derp_start a
start_or_restart (some port) a =
    if eqb port a.nx.nex_relay.my_derp then a else run_proxy derp_restart a

unfoldable pub update_derp_proxy : Agent → Agent
update_derp_proxy a =
    if not a.nx.relay
      && (not a.relay_derp
          && (is_some a.nx.nex_relay.derp_map && not (eqb a.nx.nex_relay.my_derp 0)))
    then start_or_restart a.derp_proxy a
    else a

pub data ReconcileError : Type 0 where
  informer_error : ReconcileError
  deploy_failed : DeployError → ReconcileError

-- An error of handlePeerDelete is only logged.
unfoldable pub clean_up : Host → Map String Device → Agent → Agent × Option ReconcileError
clean_up host peer_map a = (record a { nx = (handle_peer_delete host peer_map a.nx).0 }, none)

unfoldable pub after_deploy :
    Host → Map String Device → Agent → Option DeployError → Agent × Option ReconcileError
after_deploy host peer_map a none = clean_up host peer_map (update_derp_proxy a)
after_deploy host peer_map a (some security_group_error) =
    (a, some (deploy_failed security_group_error))
after_deploy host peer_map a (some other_error) =
    (record a { nx = record a.nx { peers = [] } }, some (deploy_failed other_error))

-- From the result of `buildPeersConfig` on.
unfoldable pub deploy_built :
    Host → Map String Device → Bool → Map String Device → Agent → Agent × Option ReconcileError
deploy_built host peer_map new_local_config updated a =
    if new_local_config || not (is_empty updated)
    then (let (nx, e) = deploy_wireguard_config host updated (refresh_endpoints updated a.nx) in
        after_deploy host peer_map (record a { nx = nx }) e)
    else clean_up host peer_map a

abbrev pub devices_of : Map String Device → List Device
devices_of = map (λ entry. entry.1)

abbrev or_no_stats : Option (Map String WgSessions) → Map String WgSessions
or_no_stats none = []
or_no_stats (some stats) = stats

abbrev pub start_sync : Option (Map String WgSessions) → Agent → Sync
start_sync stats a = record {
  nx = a.nx;
  peer_stats = or_no_stats stats;
  new_local_config = false;
  need_sec_group_reconcile = a.need_sec_group_reconcile;
  relay_wg_ip = a.relay_wg_ip;
}

abbrev pub synced_agent : Agent → Sync → Nexodus → Agent
synced_agent a s nx = record a {
  nx = nx;
  need_sec_group_reconcile = s.need_sec_group_reconcile;
  relay_wg_ip = s.relay_wg_ip;
}

-- With what the informer of the devices answers (`none` is an error), and the statistics of
-- WireGuard (`none` is an error).
unfoldable pub reconcile_device_cache :
    Env
    → Host
    → Inputs
    → Option (Map String Device)
    → Option (Map String WgSessions)
    → Agent
    → Option (Agent × Option ReconcileError)
reconcile_device_cache env host inputs none stats a = some (a, some informer_error)
reconcile_device_cache env host inputs (some peer_map) stats a =
    sync_devices inputs (devices_of peer_map) (start_sync stats a) >>= λ s.
    build_peers_config env inputs.now s.nx >>= λ built.
    some (deploy_built host peer_map s.new_local_config built.1 (synced_agent a s built.0))
