-- ===== src/Peering/Build/Rounds.antt =====
-- The loop of `buildPeersConfig`: what a round does to the entries of other devices.
use nexodus.Prelude.{
  ℕ, ◌≡◌, ◌≢◌, inl, inr, refl, sym, ◌∙◌, ap, String, Bool, [], ◌∷◌, ◌++◌, ◌==◌, string_eq, arith,
  Bool-cases, eq_iff, Every,
}
use nexodus.Prelude.Maps.{Map, lookup}
use nexodus.Peering.{Env, Nexodus, DeviceCacheEntry, Device, WgPeerConfig}
use nexodus.Peering.Decision.{Rebuilt, rebuild_peer_config}
use nexodus.Peering.Build.{Progress, peer_config_updated, apply_rebuilt, build_peer, build_peers}
use nexodus.Peering.Build.Updates.{apply-IsApplied, rebuild-device}

abbrev pub key_of : String × DeviceCacheEntry → String
key_of e = e.1.device.public_key

-- No entry of the cache is of the device with this key.
abbrev pub IsAbsent : String → Map String DeviceCacheEntry → Type 0
IsAbsent j cache = Every cache (λ e. key_of e ≢ j)

abbrev pub HasDistinctKeys : Map String DeviceCacheEntry → Type 0
HasDistinctKeys [] = Unit
HasDistinctKeys (e ∷ cache) = IsAbsent (key_of e) cache × HasDistinctKeys cache

-- The device has the configuration and the report that it had.
abbrev pub IsSameFor : String → Progress → Progress → Type 0
IsSameFor j s s' =
    (lookup j s'.nx.peers ≡ lookup j s.nx.peers)
    × (lookup j s'.updated_peers ≡ lookup j s.updated_peers)
    × (lookup j s'.nx.device_cache ≡ lookup j s.nx.device_cache)

Every-middle :
    (done rest : Map String DeviceCacheEntry) (e : String × DeviceCacheEntry)
    (Good : String × DeviceCacheEntry → Type 0)
    → Every (done ++ e ∷ rest) Good
    → Good e
Every-middle [] rest e Good h = h.0
Every-middle (x ∷ done) rest e Good h = Every-middle done rest e Good h.1

pub updated-lookup :
    (peers peers' : Map String WgPeerConfig) (d : Device) (c : WgPeerConfig)
    → lookup d.public_key peers' ≡ lookup d.public_key peers
    → peer_config_updated peers' d c ≡ peer_config_updated peers d c
unfolding peer_config_updated
updated-lookup peers peers' d c e = rw (peer_config_updated, e) refl

pub IsAbsent-around :
    (done rest : Map String DeviceCacheEntry) (k : String) (d : DeviceCacheEntry)
    → HasDistinctKeys (done ++ (k, d) ∷ rest)
    → IsAbsent d.device.public_key done × IsAbsent d.device.public_key rest
IsAbsent-around [] rest k d h = (tt, h.0)
IsAbsent-around (e ∷ done) rest k d h =
    let (before, after) = IsAbsent-around done rest k d h.1 in
    (
      (λ same. Every-middle done rest (k, d) (λ x. key_of x ≢ key_of e) h.0 (sym same), before),
      after,
    )

module _ (env : Env) (now : ℕ) (healthy_relay wg_relay : Bool) where
  abbrev rebuild : Nexodus → DeviceCacheEntry → Rebuilt
  rebuild nx d = rebuild_peer_config env now nx d healthy_relay wg_relay

  abbrev round : DeviceCacheEntry → Progress → Progress
  round = build_peer env now healthy_relay wg_relay

  abbrev loop : Map String DeviceCacheEntry → Progress → Progress
  loop = build_peers env now healthy_relay wg_relay

  pub round_self :
      (d : DeviceCacheEntry) (s : Progress)
      → d.device.public_key ≡ s.nx.wireguard_pub_key
      → round d s ≡ s
  unfolding build_peer
  round_self d s e = ground (arith, eq_iff d.device.public_key s.nx.wireguard_pub_key)

  pub round_other :
      (d : DeviceCacheEntry) (s : Progress)
      → d.device.public_key ≢ s.nx.wireguard_pub_key
      → round d s ≡ apply_rebuilt (rebuild s.nx d) now s
  unfolding build_peer
  round_other d s ne = ground (arith, ne, eq_iff d.device.public_key s.nx.wireguard_pub_key)

  rebuild-key :
      (nx : Nexodus) (d : DeviceCacheEntry)
      → (rebuild nx d).entry.device.public_key ≡ d.device.public_key
  rebuild-key nx d =
      ap (λ (x : Device). x.public_key) (rebuild-device env now nx d healthy_relay wg_relay)

  pub round-own :
      (d : DeviceCacheEntry) (s : Progress)
      → (round d s).nx.wireguard_pub_key ≡ s.nx.wireguard_pub_key
  unfolding build_peer apply_rebuilt
  round-own d s = ground arith

  pub round_frame :
      (d : DeviceCacheEntry) (s : Progress) (j : String)
      → d.device.public_key ≢ j
      → IsSameFor j s (round d s)
  round_frame d s j ne = elim (Bool-cases (d.device.public_key == s.nx.wireguard_pub_key)) [
    | inl e ↦ rw (round_self d s ((eq_iff _ _).0 e)) (refl, refl, refl)
    | inr e ↦
        let r = rebuild s.nx d in
        let applied = apply-IsApplied r now s in
        let other : r.entry.device.public_key ≢ j = λ x. ne (sym (rebuild-key s.nx d) ∙ x) in
        rw (round_other d s (ground (arith, eq_iff d.device.public_key s.nx.wireguard_pub_key))) (
          applied.others j (λ x. other (sym x)),
          ground (arith, applied.reports j, eq_iff r.entry.device.public_key j),
          ground (arith, applied.records j, eq_iff r.entry.device.public_key j),
        )
  ]

  pub loop_frame :
      (cache : Map String DeviceCacheEntry) (s : Progress) (j : String)
      → IsAbsent j cache
      → IsSameFor j s (loop cache s)
  unfolding build_peers
  loop_frame [] s j h = (refl, refl, refl)
  loop_frame ((k, d) ∷ cache) s j h =
      let first = round_frame d s j h.0 in
      let rest = loop_frame cache (round d s) j h.1 in
      (rest.0 ∙ first.0, rest.1 ∙ first.1, rest.2 ∙ first.2)

  pub loop-own :
      (cache : Map String DeviceCacheEntry) (s : Progress)
      → (loop cache s).nx.wireguard_pub_key ≡ s.nx.wireguard_pub_key
  unfolding build_peers
  loop-own [] s = refl
  loop-own ((k, d) ∷ cache) s = loop-own cache (round d s) ∙ round-own d s

  loop-append :
      (done rest : Map String DeviceCacheEntry) (s : Progress)
      → loop (done ++ rest) s ≡ loop rest (loop done s)
  unfolding build_peers
  loop-append [] rest s = refl
  loop-append ((k, d) ∷ done) rest s = loop-append done rest (round d s)

  pub settled_round :
      (done rest : Map String DeviceCacheEntry) (k : String) (d : DeviceCacheEntry) (s : Progress)
      → loop (done ++ (k, d) ∷ rest) s ≡ loop rest (round d (loop done s))
  unfolding build_peers
  settled_round done rest k d s = loop-append done ((k, d) ∷ rest) s
