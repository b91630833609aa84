-- ===== src/Reconcile/Total.antt =====
-- The loop of `reconcileDeviceCache` does not panic on devices of the usual form.
use nexodus.Prelude.{
  ◌<◌, ◌≡◌, ◌≢◌, inl, inr, refl, sym, String, true, some, List, [], ◌∷◌, string_eq, arith,
  Bool-cases, Option-cases, Every, length,
}
use mathlib.Core.Path.{subst}
use nexodus.Prelude.Maps.{lookup}
use nexodus.Peering.{Device, DeviceCacheEntry, Endpoint}
use nexodus.Reconcile.{
  Inputs, Sync, device_updated, endpoints_eq, is_new, or_zero, admitted, with_metadata, with_stats,
  can_log, note_relay, record_stats, put_entry, first_ip, sync_device, sync_devices,
}
use nexodus.Reconcile.Rounds.{
  found, metadata-HasPeering, stats-HasPeering, admitted-fresh, admitted-kept,
}

-- What the agent takes for granted of a device: a relay has an address, and every device has two
-- end points.
abbrev pub IsUsual : Device → Type 0
IsUsual p = (p.relay ≡ true → p.allowed_ips ≢ []) × (1 < length p.endpoints)

endpoints_eq-length : (xs ys : List Endpoint) → endpoints_eq xs ys ≡ true → length xs ≡ length ys
endpoints_eq-length [] [] h = refl
endpoints_eq-length [] (y ∷ ys) h = cc
endpoints_eq-length (x ∷ xs) [] h = cc
endpoints_eq-length (x ∷ xs) (y ∷ ys) h = ground (arith, endpoints_eq-length xs ys)

first_ip-total :
    (ips : List String) (s : Sync) → ips ≢ [] → (s' : Sync) × (first_ip ips s ≡ some s')
first_ip-total [] s h = absurd (h refl)
first_ip-total (ip ∷ ips) s h = (_, refl)

note_relay-total : (p : Device) (s : Sync) → IsUsual p → (s' : Sync) × (note_relay p s ≡ some s')
unfolding note_relay
note_relay-total p s usual = elim (Bool-cases p.relay) [
  | inl e ↦ let (s', at) = first_ip-total p.allowed_ips s (usual.0 e) in (s', ground arith)
  | inr e ↦ (s, ground arith)
]

module _ (inputs : Inputs) where
  found-endpoints :
      (p : Device) (s : Sync)
      → 1 < length p.endpoints
      → 1 < length (found inputs p s).device.endpoints
  unfolding device_updated
  found-endpoints p s two = elim (Bool-cases (is_new (lookup p.public_key s.nx.device_cache) p)) [
    | inl new ↦
        let (e, at, reset, gone) = admitted-fresh inputs p s new in
        subst (λ z. 1 < length (or_zero z).device.endpoints) (sym at)
          (subst (λ (d : Device). 1 < length d.endpoints) (sym reset.device) two)
    | inr known ↦
        let (same, o, at, current) = admitted-kept inputs p s known in
        subst
          (λ (z : Sync).
            1 < length (or_zero (lookup p.public_key z.nx.device_cache)).device.endpoints)
          (sym same)
          (subst (λ z. 1 < length (or_zero z).device.endpoints) (sym at)
            (ground (arith, endpoints_eq-length o.device.endpoints p.endpoints)))
  ]

  record_stats-total :
      (key : String) (e : DeviceCacheEntry) (s : Sync)
      → 1 < length e.device.endpoints
      → (s' : Sync) × (record_stats inputs key e s ≡ some s')
  unfolding record_stats
  record_stats-total key e s two = elim (Option-cases (lookup key s.peer_stats)) [
    | inl absent ↦ (s, ground arith)
    | inr (cur, at) ↦
        let entry = with_stats inputs (inputs.clock key) cur e in
        let two' : 1 < length entry.device.endpoints =
          subst (λ (d : Device). 1 < length d.endpoints)
            (sym (stats-HasPeering inputs (inputs.clock key) cur e).device) two in
        let can : can_log e entry ≡ true = ground (arith, two') in
        (put_entry key entry s, ground arith)
  ]

  sync_device-total :
      (p : Device) (s : Sync) → IsUsual p → (s' : Sync) × (sync_device inputs p s ≡ some s')
  unfolding sync_device
  sync_device-total p s usual =
      let e = with_metadata inputs p (found inputs p s) in
      let (noted, at) = note_relay-total p (admitted inputs p s) usual in
      let two =
        subst (λ (d : Device). 1 < length d.endpoints)
          (sym (metadata-HasPeering inputs p (found inputs p s)).device)
          (found-endpoints p s usual.1) in
      let (s', at') = record_stats-total p.public_key e noted two in (s', ground (arith, at, at'))

  -- If every relay of the list has an address and every device has two end points, then the loop
  -- comes to its end, whatever WireGuard reports and whatever the cache has.
  pub sync_devices-total :
      (devices : List Device) (s : Sync)
      → Every devices IsUsual
      → (s' : Sync) × (sync_devices inputs devices s ≡ some s')
  unfolding sync_devices
  sync_devices-total [] s h = (s, refl)
  sync_devices-total (p ∷ devices) s h =
      let (s1, at) = sync_device-total p s h.0 in
      let (s', rest) = sync_devices-total devices s1 h.1 in (s', ground (arith, at, rest))
