-- ===== src/Peering/Build/Updates.antt =====
-- What a round of the loop of `buildPeersConfig` leaves behind, and what the loop never touches.
use nexodus.Prelude.{
  ℕ, ◌≡◌, ◌≢◌, inl, inr, refl, ◌∙◌, ap, String, Bool, true, false, ◌&&◌, Option, none, some, List,
  [], ◌∷◌, ◌==◌, string_eq, if◌then◌else◌, arith, Bool-cases, Option-cases, eq_iff,
}
use nexodus.Prelude.Maps.{is_some, lookup, lookup-insert, lookup-delete}
use nexodus.Peering.{Env, Nexodus, DeviceCacheEntry, WgPeerConfig, PeeringMethod, is_via_relay}
use nexodus.Peering.Health.{peering_failed}
use nexodus.Peering.Decision.{Rebuilt, rebuild_peer_config, rebuilt, next_attempt, Prereq}
use nexodus.Peering.Build.{Progress, list_eq, peer_config_updated, chosen_entry, apply_rebuilt}

list_eq_sound : (xs ys : List String) → list_eq xs ys ≡ true → xs ≡ ys
list_eq_sound [] [] h = refl
list_eq_sound [] (y ∷ ys) h = cc
list_eq_sound (x ∷ xs) [] h = cc
list_eq_sound (x ∷ xs) (y ∷ ys) h = ground (arith, eq_iff x y, list_eq_sound xs ys)

-- The peer has a configuration with the end point and the addresses of `c`.
abbrev pub HasConfig : Nexodus → String → WgPeerConfig → Type 0
HasConfig nx pk c =
    (old : WgPeerConfig) × (lookup pk nx.peers ≡ some old)
    × (old.endpoint ≡ c.endpoint)
    × (old.allowed_ips ≡ c.allowed_ips)

module _ (r : Rebuilt) (now : ℕ) (s : Progress) where
  abbrev pk : String
  pk = r.entry.device.public_key

  abbrev after : Progress
  after = apply_rebuilt r now s

  abbrev updated : Bool
  updated = peer_config_updated s.nx.peers r.entry.device r.peer

  unchanged : updated ≡ false → HasConfig s.nx pk r.peer
  unfolding peer_config_updated
  unchanged h = elim (Option-cases (lookup pk s.nx.peers)) [
    | inl e ↦ absurd (ground arith)
    | inr (old, e) ↦ (
      old,
      e,
      ground (arith, eq_iff old.endpoint r.peer.endpoint),
      list_eq_sound old.allowed_ips r.peer.allowed_ips (ground arith),
    )
  ]

  placed_direct :
      updated ≡ true → is_via_relay r.chosen_method ≡ false → lookup pk after.nx.peers ≡ some r.peer
  unfolding apply_rebuilt
  placed_direct u m = ground (arith, lookup-insert pk pk r.peer s.nx.peers, eq_iff pk pk)

  placed_relayed :
      updated ≡ true → is_via_relay r.chosen_method ≡ true → lookup pk after.nx.peers ≡ none
  unfolding apply_rebuilt
  placed_relayed u m = ground (arith, lookup-delete pk pk s.nx.peers, eq_iff pk pk, not_there)
    where
      not_there : is_some (lookup pk s.nx.peers) ≡ false → lookup pk s.nx.peers ≡ none
      not_there h = ground arith

  kept : updated ≡ false → after.nx.peers ≡ s.nx.peers
  unfolding apply_rebuilt
  kept u = ground arith

  pub relayed-lookup :
      is_via_relay r.chosen_method ≡ true
      → lookup pk after.nx.peers ≡ (if updated then none else lookup pk s.nx.peers)
  relayed-lookup m = elim (Bool-cases updated) [
    | inl u ↦ rw u (placed_relayed u m)
    | inr u ↦ rw u (ap (lookup pk) (kept u))
  ]

  others_kept : (j : String) → j ≢ pk → lookup j after.nx.peers ≡ lookup j s.nx.peers
  unfolding apply_rebuilt
  others_kept j ne =
      ground
        (arith, lookup-insert pk j r.peer s.nx.peers, lookup-delete pk j s.nx.peers, eq_iff pk j)

  reported :
      (j : String)
      → lookup j after.updated_peers
        ≡ (if updated && pk == j then some r.entry.device else lookup j s.updated_peers)
  unfolding apply_rebuilt
  reported j = ground (arith, lookup-insert pk j r.entry.device s.updated_peers)

  recorded :
      (j : String)
      → lookup j after.nx.device_cache
        ≡ (if updated && pk == j then some (chosen_entry r now) else lookup j s.nx.device_cache)
  unfolding apply_rebuilt
  recorded j = ground (arith, lookup-insert pk j (chosen_entry r now) s.nx.device_cache)

  pub record IsApplied : Type 0 where
    pub direct : is_via_relay r.chosen_method ≡ false → HasConfig after.nx pk r.peer
    pub relayed :
        updated ≡ true → is_via_relay r.chosen_method ≡ true → lookup pk after.nx.peers ≡ none
    pub others : (j : String) → j ≢ pk → lookup j after.nx.peers ≡ lookup j s.nx.peers
    pub reports :
        (j : String)
        → lookup j after.updated_peers
          ≡ (if updated && pk == j then some r.entry.device else lookup j s.updated_peers)
    pub records :
        (j : String)
        → lookup j after.nx.device_cache
          ≡ (if updated && pk == j then some (chosen_entry r now) else lookup j s.nx.device_cache)

  -- After a round, whatever `rebuildPeerConfig` returned: a peer with a method of its own has a
  -- configuration with the end point and the addresses that were built for it; a peer that moved
  -- behind the relay has none; the configurations of other peers are as before; and the round adds
  -- the peer to the reported ones, and records the method in its entry, exactly if its configuration
  -- had to change.
  pub apply-IsApplied : IsApplied
  apply-IsApplied = record {
    direct = λ m. elim (Bool-cases updated) [
      | inl u ↦ (r.peer, placed_direct u m, refl, refl)
      | inr u ↦
          let (old, at, same_endpoint, same_ips) = unchanged u in
          (old, ap (lookup pk) (kept u) ∙ at, same_endpoint, same_ips)
    ];
    relayed = placed_relayed;
    others = others_kept;
    reports = reported;
    records = recorded;
  }

rebuilt-entry :
    (env : Env) (nx : Nexodus) (d : DeviceCacheEntry) (ips : List String)
    (local_ip reflexive_ip : String) (o : Option (ℕ × PeeringMethod))
    → (rebuilt env nx d ips local_ip reflexive_ip o).entry ≡ d
unfolding rebuilt
rebuilt-entry env nx d ips local_ip reflexive_ip none = refl
rebuilt-entry env nx d ips local_ip reflexive_ip (some (i, m)) = refl

next_attempt-device :
    (ok : Prereq) (failed : Bool) (d : DeviceCacheEntry)
    → (next_attempt ok failed d).0.device ≡ d.device
unfolding next_attempt
next_attempt-device ok failed d = ground arith

-- A rebuild may reset the entry, and never changes its device.
pub rebuild-device :
    (env : Env) (now : ℕ) (nx : Nexodus) (d : DeviceCacheEntry) (healthy_relay wg_relay : Bool)
    → (rebuild_peer_config env now nx d healthy_relay wg_relay).entry.device ≡ d.device
unfolding rebuild_peer_config
rebuild-device env now nx d healthy_relay wg_relay =
    ap (λ (e : DeviceCacheEntry). e.device) (rebuilt-entry env nx _ _ _ _ _)
    ∙ next_attempt-device _ (peering_failed now d healthy_relay) d
