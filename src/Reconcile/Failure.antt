-- ===== src/Reconcile/Failure.antt =====
-- A reconciliation whose deployment fails.
use nexodus.Prelude.{
  ◌≡◌, inl, inr, sym, ◌∙◌, ap, String, Bool, not, ◌||◌, Option, none, some, [], arith, Bool-cases,
  Option-cases, eq_of_some, is_empty, string_eq,
}
use mathlib.Core.Path.{subst}
use nexodus.Prelude.Maps.{Map}
use nexodus.Peering.{Env, Device, DeviceCacheEntry}
use nexodus.Peering.Build.{build_peers_config}
use nexodus.Peering.Build.Devices.{
  HasSameDevices, HasSameDevices-trans, build_peers_config-HasSameDevices,
}
use nexodus.Peering.Keys.{IsKeyed}
use nexodus.Reconcile.{Inputs, WgSessions, Sync, sync_devices}
use nexodus.Reconcile.Keyed.{sync_devices-IsKeyed, deployed-HasSameDevices}
use nexodus.Reconcile.Deploy.{
  Host, DeployError, security_group_error, other_error, Agent, ReconcileError, deploy_failed,
  refresh_endpoints, deploy_wireguard_config, clean_up, after_deploy, deploy_built, devices_of,
  start_sync, synced_agent, reconcile_device_cache,
}

-- The devices of the cache are still there, and after an error other than that of the packet filter
-- no peer has a configuration.
pub record IsFailed (before : Map String DeviceCacheEntry) (a' : Agent) (e : ReconcileError)
    : Type 0 where
  pub same : HasSameDevices before a'.nx.device_cache
  pub wiped : e ≡ deploy_failed other_error → a'.nx.peers ≡ []

errors_differ : deploy_failed security_group_error ≡ deploy_failed other_error → ⊥
errors_differ h = cc

module _ (host : Host) (peer_map : Map String Device) where
  after_deploy-IsFailed :
      (before : Map String DeviceCacheEntry) (a a' : Agent) (e : ReconcileError)
      (error : Option DeployError)
      → HasSameDevices before a.nx.device_cache
      → after_deploy host peer_map a error ≡ (a', some e)
      → IsFailed before a' e
  unfolding after_deploy clean_up
  after_deploy-IsFailed before a a' e none same h = absurd (ground arith)
  after_deploy-IsFailed before a a' e (some security_group_error) same h = record {
    same =
        subst (λ (z : Agent × Option ReconcileError). HasSameDevices before z.0.nx.device_cache) h
          same;
    wiped = λ wrong.
        absurd
          (errors_differ (eq_of_some (ap (λ (z : Agent × Option ReconcileError). z.1) h) ∙ wrong));
  }
  after_deploy-IsFailed before a a' e (some other_error) same h = record {
    same =
        subst (λ (z : Agent × Option ReconcileError). HasSameDevices before z.0.nx.device_cache) h
          same;
    wiped = λ _. sym (ap (λ (z : Agent × Option ReconcileError). z.0.nx.peers) h);
  }

  deploy_built-IsFailed :
      (before : Map String DeviceCacheEntry) (a a' : Agent) (e : ReconcileError)
      (new_local_config : Bool) (updated : Map String Device)
      → IsKeyed before
      → HasSameDevices before a.nx.device_cache
      → deploy_built host peer_map new_local_config updated a ≡ (a', some e)
      → IsFailed before a' e
  unfolding deploy_built clean_up
  deploy_built-IsFailed before a a' e new_local_config updated keyed same h =
      elim (Bool-cases (new_local_config || not (is_empty updated))) [
        | inl due ↦
            let (nx, error) =
              deploy_wireguard_config host updated (refresh_endpoints updated a.nx) in
            after_deploy-IsFailed before (record a { nx = nx }) a' e error
              (HasSameDevices-trans same
                (deployed-HasSameDevices host updated a.nx (same.keyed keyed)))
              (ground arith)
        | inr idle ↦ absurd (ground arith)
      ]

-- Let the cache be keyed by the devices' public keys. A reconciliation that reports an error, though
-- the service lists the devices, leaves the cache with the devices that the loop gave it: none of
-- those that are not listed is deleted. Unless the error is the packet filter's, no peer has a
-- configuration afterwards.
pub reconcile-IsFailed :
    (env : Env) (host : Host) (inputs : Inputs) (peer_map : Map String Device)
    (stats : Option (Map String WgSessions)) (a a' : Agent) (e : ReconcileError)
    → IsKeyed a.nx.device_cache
    → reconcile_device_cache env host inputs (some peer_map) stats a ≡ some (a', some e)
    → (s : Sync) × (sync_devices inputs (devices_of peer_map) (start_sync stats a) ≡ some s)
      × IsFailed s.nx.device_cache a' e
unfolding reconcile_device_cache
reconcile-IsFailed env host inputs peer_map stats a a' e keyed h =
    let devices = devices_of peer_map in
    let start = start_sync stats a in
    elim (Option-cases (sync_devices inputs devices start)) [
      | inl none_at ↦ absurd (ground arith)
      | inr (s, run) ↦ elim (Option-cases (build_peers_config env inputs.now s.nx)) [
        | inl none_at ↦ absurd (ground arith)
        | inr (built, at) ↦
            let keyed' = sync_devices-IsKeyed inputs devices start s run keyed in
            let agent = synced_agent a s built.0 in
            let result : deploy_built host peer_map s.new_local_config built.1 agent
                ≡ (a', some e) =
              ground arith in
            (
              s,
              run,
              deploy_built-IsFailed host peer_map s.nx.device_cache agent a' e s.new_local_config
                  built.1 keyed'
                  (build_peers_config-HasSameDevices env inputs.now s.nx built keyed' at) result,
            )
      ]
    ]
