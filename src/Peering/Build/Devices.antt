-- ===== src/Peering/Build/Devices.antt =====
-- `buildPeersConfig` leaves the devices of the cache as they are.
use nexodus.Prelude.{
  ℕ, ◌≡◌, inl, inr, refl, sym, ◌∙◌, ap, String, Bool, not, ◌&&◌, some, List, [], ◌∷◌, ◌==◌,
  string_eq, if◌then◌else◌, arith, Bool-cases, Option-cases, eq_iff, Every,
}
use nexodus.Prelude.Maps.{Map, is_some, lookup, insert, lookup-insert}
use nexodus.Peering.{Env, Nexodus, DeviceCacheEntry, Device}
use nexodus.Peering.Decision.{Rebuilt, rebuild_peer_config}
use nexodus.Peering.Relay.{
  RelayScan, no_relay, scan_relays, switch_derp_map, use_custom_derp, use_default_derp,
  close_derp_locked,
}
use nexodus.Peering.Build.{
  Progress, peer_config_updated, chosen_entry, apply_rebuilt, build_peer, build_peers,
  route_via_relay, build_local_config, finish_build, build_peers_config,
}
use mathlib.Core.Path.{subst}
use nexodus.Peering.Keys.{
  IsKeyed, of_entry, device_at, insert-IsKeyed, HasDevice, IsKeyed-HasDevice,
}
use nexodus.Peering.Build.Updates.{rebuild-device}

switch-cache :
    (env : Env) (s : RelayScan) (nx nx' : Nexodus)
    → switch_derp_map env s nx ≡ some nx'
    → nx'.device_cache ≡ nx.device_cache
unfolding switch_derp_map use_custom_derp use_default_derp close_derp_locked
switch-cache env s nx nx' h = ground arith

route-cache :
    (s : RelayScan) (ips : List String) (nx : Nexodus)
    → (route_via_relay s ips nx).device_cache ≡ nx.device_cache
unfolding route_via_relay
route-cache s ips nx = ground arith

local-cache :
    (env : Env) (nx nx' : Nexodus)
    → build_local_config env nx ≡ some nx'
    → nx'.device_cache ≡ nx.device_cache
unfolding build_local_config
local-cache env nx nx' h = ground arith

-- A round writes at most the entry of its device.
abbrev pub round_cache : Rebuilt → ℕ → Progress → Map String DeviceCacheEntry
round_cache r now s =
    if not (peer_config_updated s.nx.peers r.entry.device r.peer)
    then s.nx.device_cache
    else insert r.entry.device.public_key (chosen_entry r now) s.nx.device_cache

apply-cache :
    (r : Rebuilt) (now : ℕ) (s : Progress)
    → (apply_rebuilt r now s).nx.device_cache ≡ round_cache r now s
unfolding apply_rebuilt
apply-cache r now s = ground arith

insert-device_at :
    (k j : String) (d : DeviceCacheEntry) (cache : Map String DeviceCacheEntry)
    → device_at k cache ≡ some d.device
    → device_at j (insert k d cache) ≡ device_at j cache
insert-device_at k j d cache h = elim (Bool-cases (k == j)) [
  | inl e ↦
      let same = (eq_iff k j).0 e in
      let put : lookup j (insert k d cache) ≡ some d = ground (arith, lookup-insert k j d cache) in
      ap of_entry put ∙ sym (subst (λ z. device_at z cache ≡ some d.device) same h)
  | inr e ↦
      let kept : lookup j (insert k d cache) ≡ lookup j cache =
        ground (arith, lookup-insert k j d cache) in
      ap of_entry kept
]

-- The second cache has the devices of the first one.
pub record HasSameDevices (before after : Map String DeviceCacheEntry) : Type 0 where
  pub devices : (j : String) → device_at j after ≡ device_at j before
  pub keyed : IsKeyed before → IsKeyed after

pub HasSameDevices-of_eq :
    (before after : Map String DeviceCacheEntry) → after ≡ before → HasSameDevices before after
HasSameDevices-of_eq before after e = record {
  devices = λ j. ap (device_at j) e;
  keyed = subst IsKeyed (sym e);
}

pub HasSameDevices-trans :
    {a b c : Map String DeviceCacheEntry}
    → HasSameDevices a b
    → HasSameDevices b c
    → HasSameDevices a c
HasSameDevices-trans x y = record {
  devices = λ j. y.devices j ∙ x.devices j;
  keyed = λ h. y.keyed (x.keyed h);
}

pub insert-HasSameDevices :
    (k : String) (d : DeviceCacheEntry) (cache : Map String DeviceCacheEntry)
    → k ≡ d.device.public_key
    → device_at k cache ≡ some d.device
    → HasSameDevices cache (insert k d cache)
insert-HasSameDevices k d cache own h = record {
  devices = λ j. insert-device_at k j d cache h;
  keyed = insert-IsKeyed k d cache own;
}

apply-HasSameDevices :
    (r : Rebuilt) (now : ℕ) (s : Progress)
    → HasDevice s.nx.device_cache r.entry
    → HasSameDevices s.nx.device_cache (round_cache r now s)
apply-HasSameDevices r now s h =
    elim (Bool-cases (peer_config_updated s.nx.peers r.entry.device r.peer)) [
      | inl e ↦ rw e (insert-HasSameDevices _ (chosen_entry r now) _ refl h)
      | inr e ↦ rw e (HasSameDevices-of_eq _ _ refl)
    ]

module _ (env : Env) (now : ℕ) (healthy_relay wg_relay : Bool) where
  round-HasSameDevices :
      (d : DeviceCacheEntry) (s : Progress)
      → HasDevice s.nx.device_cache d
      → HasSameDevices s.nx.device_cache
          (build_peer env now healthy_relay wg_relay d s).nx.device_cache
  unfolding build_peer
  round-HasSameDevices d s h = elim (Bool-cases (d.device.public_key == s.nx.wireguard_pub_key)) [
    | inl e ↦ rw e (HasSameDevices-of_eq _ _ refl)
    | inr e ↦
        let r = rebuild_peer_config env now s.nx d healthy_relay wg_relay in
        let same = rebuild-device env now s.nx d healthy_relay wg_relay in
        let there : HasDevice s.nx.device_cache r.entry =
          subst (λ (z : Device). device_at z.public_key s.nx.device_cache ≡ some z) (sym same) h in
        rw (e, apply-cache r now s) (apply-HasSameDevices r now s there)
  ]

  HasDevice-later :
      (cache before after : Map String DeviceCacheEntry)
      → HasSameDevices before after
      → Every cache (λ e. HasDevice before e.1)
      → Every cache (λ e. HasDevice after e.1)
  HasDevice-later [] before after same h = tt
  HasDevice-later ((k, d) ∷ cache) before after same h =
      (same.devices d.device.public_key ∙ h.0, HasDevice-later cache before after same h.1)

  loop-HasSameDevices :
      (cache : Map String DeviceCacheEntry) (s : Progress)
      → Every cache (λ e. HasDevice s.nx.device_cache e.1)
      → HasSameDevices s.nx.device_cache
          (build_peers env now healthy_relay wg_relay cache s).nx.device_cache
  unfolding build_peers
  loop-HasSameDevices [] s h = HasSameDevices-of_eq _ _ refl
  loop-HasSameDevices ((k, d) ∷ cache) s h =
      let first = round-HasSameDevices d s h.0 in
      let s1 = build_peer env now healthy_relay wg_relay d s in
      HasSameDevices-trans first (
        loop-HasSameDevices cache s1
          (HasDevice-later cache s.nx.device_cache s1.nx.device_cache first h.1))

-- If the cache is keyed by the devices' public keys and buildPeersConfig does not panic, then it
-- leaves the cache keyed so and with the same devices.
pub build_peers_config-HasSameDevices :
    (env : Env) (now : ℕ) (nx : Nexodus) (built : Nexodus × Map String Device)
    → IsKeyed nx.device_cache
    → build_peers_config env now nx ≡ some built
    → HasSameDevices nx.device_cache built.0.device_cache
unfolding build_peers_config
build_peers_config-HasSameDevices env now nx built keyed h =
    let known = is_some (lookup nx.wireguard_pub_key nx.device_cache) in
    let told = record nx { wireguard_pub_key_in_config = known } in
    elim (Option-cases (build_local_config env told)) [
      | inl e ↦ absurd (ground arith)
      | inr (local, e) ↦
          let scan = scan_relays no_relay local.device_cache in
          elim (Option-cases (switch_derp_map env scan local)) [
            | inl e' ↦ absurd (ground arith)
            | inr (ready, e') ↦
                let wg_relay = scan.relay_available && not scan.is_derp_relay in
                let start : Progress = record {
                  nx = ready;
                  updated_peers = [];
                  allowed_ips_for_relay = [];
                } in
                let progress =
                  build_peers env now scan.healthy_relay wg_relay ready.device_cache start in
                let result : finish_build scan progress ≡ built = ground arith in
                let same : ready.device_cache ≡ nx.device_cache =
                  switch-cache env scan local ready e' ∙ local-cache env told local e in
                let looped =
                  loop-HasSameDevices env now scan.healthy_relay wg_relay ready.device_cache start
                    (IsKeyed-HasDevice ready.device_cache (subst IsKeyed (sym same) keyed)) in
                HasSameDevices-trans (HasSameDevices-of_eq _ _ same) (
                  HasSameDevices-trans looped (
                    HasSameDevices-of_eq _ _ (
                      ap (λ (z : Nexodus × Map String Device). z.0.device_cache) (sym result)
                      ∙ route-cache scan progress.allowed_ips_for_relay progress.nx)))
          ]
    ]
