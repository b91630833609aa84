-- ===== src/Reconcile/Renewed.antt =====
-- What a reconciliation does not do: devices that are registered anew, and the metadata of relays.
use nexodus.Prelude.{
  ℕ, ◌≡◌, ◌∙◌, ap, String, true, false, Option, none, some, [], arith, string_eq, ◌==◌,
}
use nexodus.Prelude.Maps.{Map, lookup, eq_self}
use nexodus.Peering.{Env, Device, DeviceCacheEntry, Nexodus, WgPeerConfig}
use nexodus.Peering.Decision.{Rebuilt}
use nexodus.Peering.Build.{Progress, list_eq, peer_config_updated, apply_rebuilt}
use nexodus.Peering.Keys.{IsKeyed, of_entry}
use nexodus.Reconcile.{Inputs, WgSessions, Sync, device_updated, is_new, sync_device}
use nexodus.Reconcile.Rounds.{list_eq_self}
use nexodus.Reconcile.Synced.{sync_device-IsRound}
use nexodus.Reconcile.Devices.{HasOwnKeys, HasSynced, sync_devices-HasSynced}
use nexodus.Reconcile.Deletion.{handle_peer_delete-peers}
use nexodus.Reconcile.Match.{kept_device, lookup_Every, of_entry-none}
use nexodus.Reconcile.Whole.{reconcile-IsCleaned}
use nexodus.Reconcile.Deploy.{
  Host, Agent, devices_of, start_sync, handle_peer_delete, reconcile_device_cache,
}

-- A device of the cache has been registered anew: the service lists a device of its public key that
-- agrees with it on what matters for peering, and not its id. Then a reconciliation without an error
-- leaves the cache without an entry for the key, though the service lists a device of it.
pub renewed_device_lost :
    (env : Env) (host : Host) (inputs : Inputs) (peer_map : Map String Device)
    (stats : Option (Map String WgSessions)) (a a' : Agent) (p : Device) (old : DeviceCacheEntry)
    → IsKeyed a.nx.device_cache
    → HasOwnKeys (devices_of peer_map)
    → ((key : String) → host.delete_peer key ≡ true)
    → lookup p.id peer_map ≡ some p
    → lookup p.public_key a.nx.device_cache ≡ some old
    → device_updated old.device p ≡ false
    → lookup old.device.id peer_map ≡ none
    → reconcile_device_cache env host inputs (some peer_map) stats a ≡ some (a', none)
    → lookup p.public_key a'.nx.device_cache ≡ none
renewed_device_lost env host inputs peer_map stats a a' p old keyed own works listed at current gone
      h =
    let start = start_sync stats a in
    let (s, run, cleaned) = reconcile-IsCleaned env host inputs peer_map stats a a' keyed works h in
    let (e, there, synced) =
      lookup_Every p.id p peer_map (HasSynced start s) listed
        (sync_devices-HasSynced inputs (devices_of peer_map) start s own run) in
    let same = (synced.kept old at (ground (arith, at, current))).device in
    let absent : lookup e.device.id peer_map ≡ none =
      ap (λ (d : Device). lookup d.id peer_map) same ∙ gone in
    of_entry-none (lookup p.public_key a'.nx.device_cache) (
      cleaned.devices p.public_key
      ∙ ap (λ o. kept_device peer_map (of_entry o)) there
      ∙ ground (arith, absent))

unchanged_config :
    (peers : Map String WgPeerConfig) (d : Device) (old peer : WgPeerConfig)
    → lookup d.public_key peers ≡ some old
    → old.endpoint ≡ peer.endpoint
    → old.allowed_ips ≡ peer.allowed_ips
    → peer_config_updated peers d peer ≡ false
unfolding peer_config_updated
unchanged_config peers d old peer at endpoint ips = ground (
  arith,
  eq_self peer.endpoint,
  list_eq_self peer.allowed_ips,
  ap (λ e. e == peer.endpoint) endpoint,
  ap (λ e. list_eq e peer.allowed_ips) ips,
)

-- The configuration of a peer that handlePeerDelete deletes stays. If a later round of
-- buildPeersConfig builds the same end point and addresses for a device of that public key, then it
-- neither reports the peer for deployment nor stores the chosen method.
pub deleted_peer_stale :
    (host : Host) (peer_map : Map String Device) (nx : Nexodus) (old : WgPeerConfig) (r : Rebuilt)
    (now : ℕ) (s : Progress)
    → lookup r.entry.device.public_key nx.peers ≡ some old
    → s.nx.peers ≡ (handle_peer_delete host peer_map nx).0.peers
    → old.endpoint ≡ r.peer.endpoint
    → old.allowed_ips ≡ r.peer.allowed_ips
    → ((apply_rebuilt r now s).updated_peers ≡ s.updated_peers)
      × ((apply_rebuilt r now s).nx.device_cache ≡ s.nx.device_cache)
unfolding apply_rebuilt
deleted_peer_stale host peer_map nx old r now s at peers endpoint ips =
    let there : lookup r.entry.device.public_key s.nx.peers ≡ some old =
      ap (lookup r.entry.device.public_key) (peers ∙ handle_peer_delete-peers host peer_map nx)
      ∙ at in
    let same : peer_config_updated s.nx.peers r.entry.device r.peer ≡ false =
      unchanged_config s.nx.peers r.entry.device old r.peer there endpoint ips in
    (ground arith, ground arith)

-- Whatever the service has as the metadata of a relay, a round in which the relay is new, or has
-- changed, leaves an entry of it without metadata.
pub new_device-metadata :
    (inputs : Inputs) (p : Device) (s s' : Sync)
    → is_new (lookup p.public_key s.nx.device_cache) p ≡ true
    → sync_device inputs p s ≡ some s'
    → (e : DeviceCacheEntry) × (lookup p.public_key s'.nx.device_cache ≡ some e) × (e.metadata ≡ [])
new_device-metadata inputs p s s' new h =
    let round = sync_device-IsRound inputs p s s' h in
    (round.entry, round.at, (round.synced.fresh new).metadata)
