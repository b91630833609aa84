-- ===== src/Reconcile/Tests.antt =====
-- Runs of a reconciliation, and the theorems at concrete agents.
use nexodus.Prelude.{
  ◌≡◌, ◌∙◌, inl, inr, ap, sym, refl, Bool-cases, String, nat_eq, Option, none, some, [], ◌∷◌, ◌==◌,
  string_eq, arith, eq_iff,
}
use nexodus.Prelude.Maps.{Map, lookup, insert, delete}
use nexodus.DerpMapping.{new_derp_ip_mapping}
use nexodus.Peering.{
  Env, Device, DeviceCacheEntry, Nexodus, WgPeerConfig, text, reflexive, zero_device, zero_entry,
  empty_config,
}
use nexodus.Peering.Health.{peering_failed, peering_reset, add_to_device_cache}
use nexodus.Peering.Methods.{build_peer_config, check_prereqs, parse_ip_from_addr_port}
use nexodus.Peering.Decision.{
  Rebuilt, rebuild_peer_config, rebuilt, next_attempt, choose, passes_after,
  extract_local_and_reflexive_ip,
}
use nexodus.Peering.Relay.{switch_derp_map, use_default_derp, close_derp_locked, scan_relays}
use nexodus.Peering.Build.{
  Progress, build_local_config, build_peers_config, build_peers, build_peer, apply_rebuilt,
  peer_config_updated, route_via_relay,
}
use nexodus.Reconcile.{
  Inputs, Sync, WgSessions, is_new, device_updated, admit, note_relay, record_stats, with_metadata,
  sync_device, sync_devices,
}
use nexodus.Reconcile.Total.{sync_devices-total}
use nexodus.Reconcile.Deploy.{
  Host, Agent, deploy_failed, other_error, devices_of, start_sync, handle_peer_delete,
  reconcile_device_cache, deploy_built, refresh_endpoints, refresh_endpoint,
  deploy_wireguard_config, deploy_peers, deploy_peer, after_deploy, update_derp_proxy, clean_up,
  delete_peers,
}
use nexodus.Reconcile.Match.{IsMatched, HasSameIds}
use nexodus.Reconcile.Whole.{reconcile-IsMatched}
use nexodus.Reconcile.Failure.{IsFailed, reconcile-IsFailed}
use nexodus.Reconcile.Renewed.{renewed_device_lost, deleted_peer_stale}
use nexodus.Reconcile.Samples.{
  env, node, device, host, inputs, peer_map, entry, agent, or_agent, reconciled, with_gone,
}

abbrev Runs : Map String DeviceCacheEntry → Type 0
Runs cache =
    reconcile_device_cache env host inputs (some peer_map) none (agent cache)
    ≡ some (reconciled cache, none)

with_gone-Runs : Runs with_gone
unfolding lookup insert delete reconcile_device_cache sync_devices sync_device note_relay
    record_stats admit with_metadata device_updated build_peers_config build_local_config
    switch_derp_map use_default_derp close_derp_locked scan_relays deploy_built build_peers
    build_peer apply_rebuilt peer_config_updated rebuild_peer_config rebuilt next_attempt choose
    check_prereqs peering_failed extract_local_and_reflexive_ip route_via_relay refresh_endpoints
    refresh_endpoint deploy_wireguard_config deploy_peers deploy_peer after_deploy update_derp_proxy
    clean_up handle_peer_delete delete_peers passes_after build_peer_config parse_ip_from_addr_port
    add_to_device_cache peering_reset
with_gone-Runs = refl

single :
    {V : Type 0} (k key : String) (v w : V)
    → lookup key ((k, v) ∷ []) ≡ some w
    → (k ≡ key) × (v ≡ w)
unfolding lookup
single k key v w h = elim (Bool-cases (k == key)) [
  | inl e ↦ ((eq_iff k key).0 e, ground arith)
  | inr e ↦ absurd (ground arith)
]

with_gone-HasSameIds : HasSameIds with_gone peer_map
with_gone-HasSameIds k d p at listed =
    let (key, same) = single "gone" k (entry (device "d9" "gone")) d at in
    let (id, other) = single "d1" p.id (device "d1" "peer") p listed in
    (
      λ e. absurd (
          ground (
            arith,
            eq_iff "d9" "d1",
            ap (λ (z : DeviceCacheEntry). z.device.id) same ∙ e ∙ sym id,
          )),
      λ e. absurd (
          ground
            (arith, eq_iff "gone" "peer", key ∙ e ∙ sym (ap (λ (z : Device). z.public_key) other))),
    )

reconcile-IsMatched_example : IsMatched peer_map (reconciled with_gone).nx.device_cache
unfolding lookup
reconcile-IsMatched_example =
    reconcile-IsMatched env host inputs peer_map none (agent with_gone) (reconciled with_gone)
      (refl, refl, tt)
      (record {
        found = (refl, tt);
        own = λ i p at.
            let (id, same) = single "d1" i (device "d1" "peer") p at in
            ap (λ (z : Device). z.id) (sym same) ∙ id;
      })
      (tt, tt) with_gone-HasSameIds (λ key. refl) with_gone-Runs

abbrev seen : Map String WgSessions
seen =
    (
      "peer",
      record { tx = 5; rx = 6; last_handshake_time = 90; latest_handshake = "90"; endpoint = "e" },
    )
    ∷ []

abbrev with_peer : Map String DeviceCacheEntry
with_peer = ("peer", entry (device "d1" "peer")) ∷ []

abbrev begin : Sync
begin = start_sync (some seen) (agent with_peer)

abbrev or_begin : Option Sync → Sync
or_begin none = begin
or_begin (some s) = s

sync_devices-total_example :
    (s' : Sync) × (sync_devices inputs (devices_of peer_map) begin ≡ some s')
sync_devices-total_example =
    sync_devices-total inputs (devices_of peer_map) begin ((λ _ e. cc, omega arith), tt)

abbrev with_old : Map String DeviceCacheEntry
with_old = ("peer", entry (device "d0" "peer")) ∷ []

with_old-Runs : Runs with_old
unfolding lookup insert delete reconcile_device_cache sync_devices sync_device note_relay
    record_stats admit with_metadata device_updated build_peers_config build_local_config
    switch_derp_map use_default_derp close_derp_locked scan_relays deploy_built build_peers
    build_peer apply_rebuilt peer_config_updated rebuild_peer_config rebuilt next_attempt choose
    check_prereqs peering_failed extract_local_and_reflexive_ip route_via_relay refresh_endpoints
    refresh_endpoint deploy_wireguard_config deploy_peers deploy_peer after_deploy update_derp_proxy
    clean_up handle_peer_delete delete_peers passes_after build_peer_config parse_ip_from_addr_port
    add_to_device_cache peering_reset
with_old-Runs = refl

renewed_device_lost_example : lookup "peer" (reconciled with_old).nx.device_cache ≡ none
unfolding lookup device_updated
renewed_device_lost_example =
    renewed_device_lost env host inputs peer_map none (agent with_old) (reconciled with_old)
      (device "d1" "peer") (entry (device "d0" "peer")) (refl, refl, tt) (tt, tt) (λ key. refl) refl
      refl refl refl with_old-Runs

abbrev config : WgPeerConfig
config = record empty_config { public_key = "peer"; endpoint = "1.1.1.1:5" }

abbrev configured : Nexodus
configured = record node { peers = ("peer", config) ∷ []; device_cache = with_old }

abbrev rebuilt_peer : Rebuilt
rebuilt_peer = record {
  peer = config;
  chosen_method = reflexive;
  chosen_method_index = some 5;
  entry = entry (device "d1" "peer");
  derp_ip_mapping = new_derp_ip_mapping;
}

abbrev later : Progress
later = record {
  nx = (handle_peer_delete host peer_map configured).0;
  updated_peers = [];
  allowed_ips_for_relay = [];
}

deleted_peer_stale_example :
    ((apply_rebuilt rebuilt_peer 200 later).updated_peers ≡ [])
    × ((apply_rebuilt rebuilt_peer 200 later).nx.device_cache ≡ later.nx.device_cache)
unfolding lookup
deleted_peer_stale_example =
    deleted_peer_stale host peer_map configured config rebuilt_peer 200 later refl refl refl refl

-- A peer whose end point does not resolve.
abbrev bad_host : Host
bad_host = record host { handle_peer_tunnel = λ c. some other_error }

abbrev failed_agent : Agent
failed_agent =
    or_agent (reconcile_device_cache env bad_host inputs (some peer_map) none (agent with_gone))

bad_host-Runs :
    reconcile_device_cache env bad_host inputs (some peer_map) none (agent with_gone)
    ≡ some (failed_agent, some (deploy_failed other_error))
unfolding lookup insert delete reconcile_device_cache sync_devices sync_device note_relay
    record_stats admit with_metadata device_updated build_peers_config build_local_config
    switch_derp_map use_default_derp close_derp_locked scan_relays deploy_built build_peers
    build_peer apply_rebuilt peer_config_updated rebuild_peer_config rebuilt next_attempt choose
    check_prereqs peering_failed extract_local_and_reflexive_ip route_via_relay refresh_endpoints
    refresh_endpoint deploy_wireguard_config deploy_peers deploy_peer after_deploy update_derp_proxy
    clean_up handle_peer_delete delete_peers passes_after build_peer_config parse_ip_from_addr_port
    add_to_device_cache peering_reset
bad_host-Runs = refl

reconcile-IsFailed_example :
    (s : Sync) × (sync_devices inputs (devices_of peer_map) (start_sync none (agent with_gone))
      ≡ some s)
    × IsFailed s.nx.device_cache failed_agent (deploy_failed other_error)
unfolding lookup
reconcile-IsFailed_example =
    reconcile-IsFailed env bad_host inputs peer_map none (agent with_gone) failed_agent
      (deploy_failed other_error) (refl, refl, tt) bad_host-Runs
