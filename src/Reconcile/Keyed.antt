-- ===== src/Reconcile/Keyed.antt =====
-- The steps of `reconcileDeviceCache` keep the cache keyed by the devices' public keys, and after the
-- loop over the devices they keep its devices too.
use nexodus.Prelude.{
  ℕ, ◌≡◌, inl, inr, refl, sym, ◌∙◌, ap, String, Option, none, some, List, [], ◌∷◌, string_eq, arith,
  Bool-cases, Option-cases,
}
use mathlib.Core.Path.{subst}
use nexodus.Prelude.Maps.{Map, lookup}
use nexodus.Peering.{Device, DeviceCacheEntry, Nexodus, WgPeerConfig}
use nexodus.Peering.Keys.{IsKeyed, of_entry, insert-IsKeyed, lookup-key}
use nexodus.Peering.Build.Devices.{
  HasSameDevices, HasSameDevices-of_eq, HasSameDevices-trans, insert-HasSameDevices,
}
use nexodus.Peering.Health.{add_to_device_cache, peering_reset}
use nexodus.Reconcile.{Inputs, Sync, is_new, or_zero, admit, admitted, sync_device, sync_devices}
use nexodus.Reconcile.Rounds.{
  found, Stored, metadata-HasPeering, stats-HasPeering, admitted-fresh, admitted-kept,
  sync_device_parts,
}
use nexodus.Reconcile.Devices.{loop_parts, sync_devices_none}
use nexodus.Reconcile.Deploy.{
  Host, DeployError, at_config, refresh_endpoint, refresh_endpoints, deploy_peer, deploy_peers,
  deploy_wireguard_config, Agent, update_derp_proxy, start_or_restart,
}

module _ (inputs : Inputs) where
  admitted-IsKeyed :
      (p : Device) (s : Sync)
      → IsKeyed s.nx.device_cache
      → IsKeyed (admitted inputs p s).nx.device_cache
  unfolding admit add_to_device_cache peering_reset
  admitted-IsKeyed p s h = elim (Bool-cases (is_new (lookup p.public_key s.nx.device_cache) p)) [
    | inl e ↦ rw e (insert-IsKeyed p.public_key _ s.nx.device_cache refl h)
    | inr e ↦ rw e h
  ]

  found-key :
      (p : Device) (s : Sync)
      → IsKeyed s.nx.device_cache
      → (found inputs p s).device.public_key ≡ p.public_key
  found-key p s h = elim (Bool-cases (is_new (lookup p.public_key s.nx.device_cache) p)) [
    | inl new ↦
        let (e, at, reset, gone) = admitted-fresh inputs p s new in
        subst (λ z. (or_zero z).device.public_key ≡ p.public_key) (sym at)
          (ap (λ (d : Device). d.public_key) reset.device)
    | inr known ↦
        let (same, o, at, current) = admitted-kept inputs p s known in
        subst
          (λ (z : Sync).
            (or_zero (lookup p.public_key z.nx.device_cache)).device.public_key ≡ p.public_key)
          (sym same)
          (subst (λ z. (or_zero z).device.public_key ≡ p.public_key) (sym at)
            (lookup-key p.public_key o s.nx.device_cache h at))
  ]

  Stored-IsKeyed :
      (key : String) (e : DeviceCacheEntry) (n s' : Sync)
      → e.device.public_key ≡ key
      → IsKeyed n.nx.device_cache
      → Stored inputs key e n s'
      → IsKeyed s'.nx.device_cache
  Stored-IsKeyed key e n s' own h (inl (absent, same)) =
      subst (λ (z : Sync). IsKeyed z.nx.device_cache) (sym same) h
  Stored-IsKeyed key e n s' own h (inr (cur, there, cache, peers)) =
      let stats = (stats-HasPeering inputs (inputs.clock key) cur e).device in
      subst IsKeyed (sym cache) (
        insert-IsKeyed key _ n.nx.device_cache (sym (ap (λ (d : Device). d.public_key) stats ∙ own))
          h)

  sync_device-IsKeyed :
      (p : Device) (s s' : Sync)
      → sync_device inputs p s ≡ some s'
      → IsKeyed s.nx.device_cache
      → IsKeyed s'.nx.device_cache
  sync_device-IsKeyed p s s' run h =
      let (n, nx, stats, stored) = sync_device_parts inputs p s s' run in
      let own =
        ap (λ (d : Device). d.public_key) (metadata-HasPeering inputs p (found inputs p s)).device
        ∙ found-key p s h in
      Stored-IsKeyed p.public_key _ n s' own
        (subst (λ (z : Nexodus). IsKeyed z.device_cache) (sym nx) (admitted-IsKeyed p s h)) stored

  pub sync_devices-IsKeyed :
      (devices : List Device) (s s' : Sync)
      → sync_devices inputs devices s ≡ some s'
      → IsKeyed s.nx.device_cache
      → IsKeyed s'.nx.device_cache
  sync_devices-IsKeyed [] s s' run h =
      subst (λ (z : Sync). IsKeyed z.nx.device_cache) (sync_devices_none inputs s s' run) h
  sync_devices-IsKeyed (p ∷ devices) s s' run h =
      let (s1, first, rest) = loop_parts inputs p devices s s' run in
      sync_devices-IsKeyed devices s1 s' rest (sync_device-IsKeyed p s s1 first h)

at_config-device :
    (c : Option WgPeerConfig) (d : DeviceCacheEntry) → (at_config c d).device ≡ d.device
at_config-device none d = refl
at_config-device (some c) d = refl

refresh-HasSameDevices :
    (key : String) (nx : Nexodus)
    → IsKeyed nx.device_cache
    → HasSameDevices nx.device_cache (refresh_endpoint key nx).device_cache
unfolding refresh_endpoint
refresh-HasSameDevices key nx h = elim (Option-cases (lookup key nx.device_cache)) [
  | inl e ↦ rw (refresh_endpoint, e) (HasSameDevices-of_eq _ _ refl)
  | inr (d, e) ↦
      let entry = at_config (lookup key nx.peers) d in
      let same : entry.device ≡ d.device = at_config-device (lookup key nx.peers) d in
      rw (refresh_endpoint, e)
        (insert-HasSameDevices key entry nx.device_cache
          (sym (ap (λ (z : Device). z.public_key) same ∙ lookup-key key d nx.device_cache h e))
          (ap of_entry e ∙ ap some (sym same)))
]

refresh_all-HasSameDevices :
    (updated : Map String Device) (nx : Nexodus)
    → IsKeyed nx.device_cache
    → HasSameDevices nx.device_cache (refresh_endpoints updated nx).device_cache
unfolding refresh_endpoints
refresh_all-HasSameDevices [] nx h = HasSameDevices-of_eq _ _ refl
refresh_all-HasSameDevices ((k, p) ∷ updated) nx h =
    let first = refresh-HasSameDevices p.public_key nx h in
    HasSameDevices-trans first
      (refresh_all-HasSameDevices updated (refresh_endpoint p.public_key nx) (first.keyed h))

deploy_peer-cache :
    (host : Host) (p : Device) (nx : Nexodus) (last : Option DeployError)
    → (deploy_peer host p (nx, last)).0.device_cache ≡ nx.device_cache
unfolding deploy_peer
deploy_peer-cache host p nx last = ground arith

deploy_peers-cache :
    (host : Host) (updated : Map String Device) (r : Nexodus × Option DeployError)
    → (deploy_peers host updated r).0.device_cache ≡ r.0.device_cache
unfolding deploy_peers
deploy_peers-cache host [] r = refl
deploy_peers-cache host ((k, p) ∷ updated) r =
    deploy_peers-cache host updated (deploy_peer host p r) ∙ deploy_peer-cache host p r.0 r.1

deploy-cache :
    (host : Host) (updated : Map String Device) (nx : Nexodus)
    → (deploy_wireguard_config host updated nx).0.device_cache ≡ nx.device_cache
unfolding deploy_wireguard_config
deploy-cache host updated nx = ground (arith, deploy_peers-cache host updated (nx, none))

proxy-cache :
    (o : Option ℕ) (a : Agent) → (start_or_restart o a).nx.device_cache ≡ a.nx.device_cache
proxy-cache none a = refl
proxy-cache (some port) a = ground arith

pub update_derp_proxy-cache :
    (a : Agent) → (update_derp_proxy a).nx.device_cache ≡ a.nx.device_cache
unfolding update_derp_proxy
update_derp_proxy-cache a = ground (arith, proxy-cache a.derp_proxy a)

-- The refreshed and deployed agent has the same devices.
pub deployed-HasSameDevices :
    (host : Host) (updated : Map String Device) (nx : Nexodus)
    → IsKeyed nx.device_cache
    → HasSameDevices nx.device_cache
        (deploy_wireguard_config host updated (refresh_endpoints updated nx)).0.device_cache
deployed-HasSameDevices host updated nx h =
    HasSameDevices-trans (refresh_all-HasSameDevices updated nx h)
      (HasSameDevices-of_eq _ _ (deploy-cache host updated (refresh_endpoints updated nx)))
