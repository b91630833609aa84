-- ===== src/Peering/Build/Loop.antt =====
-- The loop of `buildPeersConfig` over the whole cache.
use nexodus.Prelude.{
  ℕ, ◌≡◌, ◌≢◌, refl, ◌∙◌, ap, String, Bool, true, false, none, some, ◌∷◌, ◌++◌, string_eq,
  if◌then◌else◌, arith,
}
use mathlib.Core.Path.{subst}
use nexodus.Prelude.Maps.{Map, lookup, eq_self}
use nexodus.Peering.{Env, Nexodus, DeviceCacheEntry, Device, WgPeerConfig, is_via_relay}
use nexodus.Peering.Decision.{Rebuilt, rebuild_peer_config}
use nexodus.Peering.Build.{
  Progress, peer_config_updated, apply_rebuilt, build_peer, build_peers, chosen_entry,
}
use nexodus.Peering.Build.Updates.{HasConfig, relayed-lookup, apply-IsApplied, rebuild-device}
use nexodus.Peering.Build.Rounds.{
  HasDistinctKeys, IsAbsent-around, updated-lookup, round_other, loop_frame, loop-own,
  settled_round,
}

module _ (env : Env) (now : ℕ) (healthy_relay wg_relay : Bool) where
  abbrev rebuild : Nexodus → DeviceCacheEntry → Rebuilt
  rebuild nx d = rebuild_peer_config env now nx d healthy_relay wg_relay

  abbrev round : DeviceCacheEntry → Progress → Progress
  round = build_peer env now healthy_relay wg_relay

  abbrev loop : Map String DeviceCacheEntry → Progress → Progress
  loop = build_peers env now healthy_relay wg_relay

  -- What the loop, run from `start` to `final`, has done about the entry `d`, whose turn came in the
  -- state `before`: with the method that rebuildPeerConfig chooses there.
  pub record IsSettled (d : DeviceCacheEntry) (start before final : Progress) : Type 0 where
    pub as_at_start :
        lookup d.device.public_key before.nx.peers ≡ lookup d.device.public_key start.nx.peers
    pub direct :
        is_via_relay (rebuild before.nx d).chosen_method ≡ false
        → HasConfig final.nx d.device.public_key (rebuild before.nx d).peer
    pub relayed :
        is_via_relay (rebuild before.nx d).chosen_method ≡ true
        → lookup d.device.public_key final.nx.peers ≡ (
            if peer_config_updated start.nx.peers d.device (rebuild before.nx d).peer
            then none
            else lookup d.device.public_key start.nx.peers)
    pub reported : lookup d.device.public_key final.updated_peers ≡ (
        if peer_config_updated start.nx.peers d.device (rebuild before.nx d).peer
        then some d.device
        else lookup d.device.public_key start.updated_peers)
    pub recorded : lookup d.device.public_key final.nx.device_cache ≡ (
        if peer_config_updated start.nx.peers d.device (rebuild before.nx d).peer
        then some (record (rebuild before.nx d).entry {
          peering_method = (rebuild before.nx d).chosen_method;
          peering_method_index = (rebuild before.nx d).chosen_method_index;
          peering_time = now;
        })
        else lookup d.device.public_key start.nx.device_cache)

  HasConfig-lookup :
      (nx nx' : Nexodus) (j : String) (c : WgPeerConfig)
      → lookup j nx'.peers ≡ lookup j nx.peers
      → HasConfig nx j c
      → HasConfig nx' j c
  HasConfig-lookup nx nx' j c e (old, at, same_endpoint, same_ips) =
      (old, e ∙ at, same_endpoint, same_ips)

  -- The entry that rebuildPeerConfig hands back is of the same device.
  applied-IsSettled :
      (d : DeviceCacheEntry) (s : Progress) (device : Device)
      → (rebuild s.nx d).entry.device ≡ device
      → let r = rebuild s.nx d in
        let after = apply_rebuilt r now s in
        let updated = peer_config_updated s.nx.peers device r.peer in
        (is_via_relay r.chosen_method ≡ false → HasConfig after.nx device.public_key r.peer)
        × (is_via_relay r.chosen_method ≡ true
            → lookup device.public_key after.nx.peers
              ≡ (if updated then none else lookup device.public_key s.nx.peers))
        × (lookup device.public_key after.updated_peers
            ≡ (if updated then some device else lookup device.public_key s.updated_peers))
        × (lookup device.public_key after.nx.device_cache ≡ (
            if updated
            then some (chosen_entry r now)
            else lookup device.public_key s.nx.device_cache))
  applied-IsSettled d s device same =
      let r = rebuild s.nx d in
      let after = apply_rebuilt r now s in
      let applied = apply-IsApplied r now s in
      let here = r.entry.device in
      let known = eq_self here.public_key in
      subst
        (λ (z : Device).
          (is_via_relay r.chosen_method ≡ false → HasConfig after.nx z.public_key r.peer)
          × (is_via_relay r.chosen_method ≡ true
              → lookup z.public_key after.nx.peers ≡ (
                  if peer_config_updated s.nx.peers z r.peer
                  then none
                  else lookup z.public_key s.nx.peers))
          × (lookup z.public_key after.updated_peers ≡ (
              if peer_config_updated s.nx.peers z r.peer
              then some z
              else lookup z.public_key s.updated_peers))
          × (lookup z.public_key after.nx.device_cache ≡ (
              if peer_config_updated s.nx.peers z r.peer
              then some (chosen_entry r now)
              else lookup z.public_key s.nx.device_cache)))
        same
        (
          applied.direct,
          relayed-lookup r now s,
          ground (arith, applied.reports here.public_key, known),
          ground (arith, applied.records here.public_key, known),
        )

  -- If no two entries of the cache are of one device, then the loop of buildPeersConfig does the
  -- following about an entry that is not this node's, with the method that rebuildPeerConfig
  -- chooses in the state that the loop has reached after the entries before it. Until then the
  -- peer has its configuration of the start. After the whole loop, if the method is not
  -- via-relay, the peer has the end point and the addresses that were built for it; if it is, the
  -- peer has no configuration, or, if the built one agrees with that of the start, still that
  -- one. If its configuration had to change, the peer is reported for deployment, and the cache
  -- has the entry that rebuildPeerConfig handed back, with that method and the time of the loop;
  -- if not, the report and the entry are those of the start.
  pub build_peers-IsSettled :
      (done rest : Map String DeviceCacheEntry) (k : String) (d : DeviceCacheEntry) (s : Progress)
      → HasDistinctKeys (done ++ (k, d) ∷ rest)
      → d.device.public_key ≢ s.nx.wireguard_pub_key
      → IsSettled d s
          (build_peers env now healthy_relay wg_relay done s)
          (build_peers env now healthy_relay wg_relay (done ++ (k, d) ∷ rest) s)
  build_peers-IsSettled done rest k d s distinct ne =
      let pk = d.device.public_key in
      let before = loop done s in
      let after = round d before in
      let (no_done, no_rest) = IsAbsent-around done rest k d distinct in
      let start = loop_frame env now healthy_relay wg_relay done s pk no_done in
      let end = loop_frame env now healthy_relay wg_relay rest after pk no_rest in
      let turn =
        round_other env now healthy_relay wg_relay d before
          (λ e. ne (e ∙ loop-own env now healthy_relay wg_relay done s)) in
      let (direct, relayed, reported, recorded) =
        applied-IsSettled d before d.device
          (rebuild-device env now before.nx d healthy_relay wg_relay) in
      let updated =
        updated-lookup s.nx.peers before.nx.peers d.device (rebuild before.nx d).peer start.0 in
      rw (settled_round env now healthy_relay wg_relay done rest k d s) (record {
        as_at_start = start.0;
        direct = λ m.
            HasConfig-lookup (apply_rebuilt (rebuild before.nx d) now before).nx
              (loop rest after).nx pk (rebuild before.nx d).peer
              (end.0 ∙ ap (λ (p : Progress). lookup pk p.nx.peers) turn) (direct m);
        relayed = λ m.
            end.0
            ∙ ap (λ (p : Progress). lookup pk p.nx.peers) turn
            ∙ relayed m
            ∙ rw (updated, start.0) refl;
        reported =
            end.1
            ∙ ap (λ (p : Progress). lookup pk p.updated_peers) turn
            ∙ reported
            ∙ rw (updated, start.1) refl;
        recorded =
            end.2
            ∙ ap (λ (p : Progress). lookup pk p.nx.device_cache) turn
            ∙ recorded
            ∙ rw (updated, start.2) refl;
      })
