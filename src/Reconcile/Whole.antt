-- ===== src/Reconcile/Whole.antt =====
-- A whole reconciliation, `reconcileDeviceCache`.
use nexodus.Prelude.{
  ◌≡◌, inl, inr, ◌∙◌, ap, String, Bool, true, not, ◌||◌, Option, none, some, arith, Bool-cases,
  Option-cases, is_empty, string_eq,
}
use mathlib.Core.Path.{subst}
use nexodus.Prelude.Maps.{Map, lookup}
use nexodus.Peering.{Env, Device, DeviceCacheEntry, Nexodus}
use nexodus.Peering.Build.{build_peers_config}
use nexodus.Peering.Build.Devices.{
  HasSameDevices, HasSameDevices-of_eq, HasSameDevices-trans, build_peers_config-HasSameDevices,
}
use nexodus.Peering.Keys.{IsKeyed, of_entry}
use nexodus.Reconcile.{Inputs, WgSessions, Sync, sync_devices}
use nexodus.Reconcile.Devices.{HasOwnKeys, sync_devices-HasSynced, sync_devices_frame}
use nexodus.Reconcile.Keyed.{sync_devices-IsKeyed, update_derp_proxy-cache, deployed-HasSameDevices}
use nexodus.Reconcile.Deletion.{handle_peer_delete-lookup, handle_peer_delete-IsKeyed}
use nexodus.Reconcile.Match.{
  IsById, HasSameIds, IsMatched, IsCleaned, kept_device, cleanup-device, listed-stay, unlisted-go,
}
use nexodus.Reconcile.Deploy.{
  Host, DeployError, security_group_error, other_error, Agent, ReconcileError, handle_peer_delete,
  refresh_endpoints, deploy_wireguard_config, update_derp_proxy, clean_up, after_deploy,
  deploy_built, devices_of, start_sync, synced_agent, reconcile_device_cache,
}

module _ (host : Host) (peer_map : Map String Device) where
  abbrev Works : Type 0
  Works = (key : String) → host.delete_peer key ≡ true

  handle_peer_delete-IsCleaned :
      (before : Map String DeviceCacheEntry) (nx : Nexodus)
      → Works
      → IsKeyed before
      → HasSameDevices before nx.device_cache
      → IsCleaned peer_map before (handle_peer_delete host peer_map nx).0.device_cache
  handle_peer_delete-IsCleaned before nx works keyed same = record {
    devices = λ j.
        ap of_entry (handle_peer_delete-lookup host peer_map nx j (same.keyed keyed) works)
        ∙ cleanup-device peer_map (lookup j nx.device_cache)
        ∙ ap (kept_device peer_map) (same.devices j);
    keyed = handle_peer_delete-IsKeyed host peer_map nx (same.keyed keyed);
  }

  clean_up-IsCleaned :
      (before : Map String DeviceCacheEntry) (a a' : Agent) (e : Option ReconcileError)
      → Works
      → IsKeyed before
      → HasSameDevices before a.nx.device_cache
      → clean_up host peer_map a ≡ (a', e)
      → IsCleaned peer_map before a'.nx.device_cache
  unfolding clean_up
  clean_up-IsCleaned before a a' e works keyed same h =
      subst (λ (z : Agent × Option ReconcileError). IsCleaned peer_map before z.0.nx.device_cache) h
        (handle_peer_delete-IsCleaned before a.nx works keyed same)

  after_deploy-IsCleaned :
      (before : Map String DeviceCacheEntry) (a a' : Agent) (e : Option DeployError)
      → Works
      → IsKeyed before
      → HasSameDevices before a.nx.device_cache
      → after_deploy host peer_map a e ≡ (a', none)
      → IsCleaned peer_map before a'.nx.device_cache
  unfolding after_deploy
  after_deploy-IsCleaned before a a' none works keyed same h =
      clean_up-IsCleaned before (update_derp_proxy a) a' none works keyed
        (HasSameDevices-trans same (HasSameDevices-of_eq _ _ (update_derp_proxy-cache a))) h
  after_deploy-IsCleaned before a a' (some security_group_error) works keyed same h = absurd cc
  after_deploy-IsCleaned before a a' (some other_error) works keyed same h = absurd cc

  deploy_built-IsCleaned :
      (before : Map String DeviceCacheEntry) (a a' : Agent) (new_local_config : Bool)
      (updated : Map String Device)
      → Works
      → IsKeyed before
      → HasSameDevices before a.nx.device_cache
      → deploy_built host peer_map new_local_config updated a ≡ (a', none)
      → IsCleaned peer_map before a'.nx.device_cache
  unfolding deploy_built
  deploy_built-IsCleaned before a a' new_local_config updated works keyed same h =
      elim (Bool-cases (new_local_config || not (is_empty updated))) [
        | inl e ↦
            let (nx, error) =
              deploy_wireguard_config host updated (refresh_endpoints updated a.nx) in
            after_deploy-IsCleaned before (record a { nx = nx }) a' error works keyed
              (HasSameDevices-trans same
                (deployed-HasSameDevices host updated a.nx (same.keyed keyed)))
              (ground arith)
        | inr e ↦ clean_up-IsCleaned before a a' none works keyed same (ground arith)
      ]

-- A reconciliation without an error is the loop over the devices, and then the deletion.
pub reconcile-IsCleaned :
    (env : Env) (host : Host) (inputs : Inputs) (peer_map : Map String Device)
    (stats : Option (Map String WgSessions)) (a a' : Agent)
    → IsKeyed a.nx.device_cache
    → ((key : String) → host.delete_peer key ≡ true)
    → reconcile_device_cache env host inputs (some peer_map) stats a ≡ some (a', none)
    → (s : Sync) × (sync_devices inputs (devices_of peer_map) (start_sync stats a) ≡ some s)
      × IsCleaned peer_map s.nx.device_cache a'.nx.device_cache
unfolding reconcile_device_cache
reconcile-IsCleaned env host inputs peer_map stats a a' keyed works h =
    let devices = devices_of peer_map in
    let start = start_sync stats a in
    elim (Option-cases (sync_devices inputs devices start)) [
      | inl e ↦ absurd (ground arith)
      | inr (s, e) ↦ elim (Option-cases (build_peers_config env inputs.now s.nx)) [
        | inl e' ↦ absurd (ground arith)
        | inr (built, e') ↦
            let keyed' = sync_devices-IsKeyed inputs devices start s e keyed in
            let agent = synced_agent a s built.0 in
            let result : deploy_built host peer_map s.new_local_config built.1 agent ≡ (a', none) =
              ground arith in
            (
              s,
              e,
              deploy_built-IsCleaned host peer_map s.nx.device_cache agent a' s.new_local_config
                  built.1 works keyed'
                  (build_peers_config-HasSameDevices env inputs.now s.nx built keyed' e') result,
            )
      ]
    ]

-- Let the cache be keyed by the devices' public keys, let the list of the service be by id with no
-- two devices of one public key, let a device of the cache and a listed one have one id exactly if
-- they have one public key, and let every peer be deletable. Then after a reconciliation that reports
-- no error, the cache has, for every listed device, an entry that agrees with it on what matters for
-- peering, and no entry under another public key; and it is again keyed by the public keys.
pub reconcile-IsMatched :
    (env : Env) (host : Host) (inputs : Inputs) (peer_map : Map String Device)
    (stats : Option (Map String WgSessions)) (a a' : Agent)
    → IsKeyed a.nx.device_cache
    → IsById peer_map
    → HasOwnKeys (devices_of peer_map)
    → HasSameIds a.nx.device_cache peer_map
    → ((key : String) → host.delete_peer key ≡ true)
    → reconcile_device_cache env host inputs (some peer_map) stats a ≡ some (a', none)
    → IsMatched peer_map a'.nx.device_cache
reconcile-IsMatched env host inputs peer_map stats a a' keyed by_id own ids works h =
    let devices = devices_of peer_map in
    let start = start_sync stats a in
    let (s, run, cleaned) = reconcile-IsCleaned env host inputs peer_map stats a a' keyed works h in
    record {
      keyed = cleaned.keyed;
      listed =
          listed-stay peer_map start s devices a'.nx.device_cache ids cleaned by_id.found
            (sync_devices-HasSynced inputs devices start s own run);
      others = λ j absent.
          unlisted-go peer_map start s j a'.nx.device_cache by_id ids cleaned
            (sync_devices_frame inputs devices start s j absent run) absent;
    }
