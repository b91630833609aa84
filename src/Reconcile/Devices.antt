-- ===== src/Reconcile/Devices.antt =====
-- The whole loop of `reconcileDeviceCache` over the devices.
use nexodus.Prelude.{
  ◌≡◌, ◌≢◌, inl, inr, sym, ◌∙◌, ap, String, some, List, [], ◌∷◌, string_eq, arith, Option-cases,
  eq_of_some, Every,
}
use mathlib.Core.Path.{subst}
use nexodus.Prelude.Maps.{lookup}
use nexodus.Peering.{Device, DeviceCacheEntry}
use nexodus.Reconcile.{Inputs, Sync, sync_device, sync_devices}
use nexodus.Reconcile.Rounds.{IsSynced, IsRound}
use nexodus.Reconcile.Synced.{sync_device-IsRound}

-- No device of the list has this public key.
abbrev pub IsUnlisted : String → List Device → Type 0
IsUnlisted j devices = Every devices (λ p. p.public_key ≢ j)

-- No two devices of the list have one public key.
abbrev pub HasOwnKeys : List Device → Type 0
HasOwnKeys [] = Unit
HasOwnKeys (p ∷ devices) = IsUnlisted p.public_key devices × HasOwnKeys devices

-- The cache has an entry of the device, which its round made out of the entry of the start.
abbrev pub HasSynced : Sync → Sync → Device → Type 0
HasSynced s s' p =
    (e : DeviceCacheEntry) × (lookup p.public_key s'.nx.device_cache ≡ some e)
    × IsSynced p (lookup p.public_key s.nx.device_cache) e

module _ (inputs : Inputs) where
  pub loop_parts :
      (p : Device) (devices : List Device) (s s' : Sync)
      → sync_devices inputs (p ∷ devices) s ≡ some s'
      → (s1 : Sync) × (sync_device inputs p s ≡ some s1)
        × (sync_devices inputs devices s1 ≡ some s')
  unfolding sync_devices
  loop_parts p devices s s' h = elim (Option-cases (sync_device inputs p s)) [
    | inl e ↦ absurd (ground arith)
    | inr (s1, e) ↦ (s1, e, ground arith)
  ]

  pub sync_devices_none : (s s' : Sync) → sync_devices inputs [] s ≡ some s' → s ≡ s'
  unfolding sync_devices
  sync_devices_none s s' h = eq_of_some h

  pub sync_devices_frame :
      (devices : List Device) (s s' : Sync) (j : String)
      → IsUnlisted j devices
      → sync_devices inputs devices s ≡ some s'
      → lookup j s'.nx.device_cache ≡ lookup j s.nx.device_cache
  sync_devices_frame [] s s' j h run =
      ap (λ (z : Sync). lookup j z.nx.device_cache) (sym (sync_devices_none s s' run))
  sync_devices_frame (p ∷ devices) s s' j h run =
      let (s1, first, rest) = loop_parts p devices s s' run in
      sync_devices_frame devices s1 s' j h.1 rest
      ∙ (sync_device-IsRound inputs p s s1 first).others j h.0

  pub sync_devices-peers :
      (devices : List Device) (s s' : Sync)
      → sync_devices inputs devices s ≡ some s'
      → s'.nx.peers ≡ s.nx.peers
  sync_devices-peers [] s s' run = ap (λ (z : Sync). z.nx.peers) (sym (sync_devices_none s s' run))
  sync_devices-peers (p ∷ devices) s s' run =
      let (s1, first, rest) = loop_parts p devices s s' run in
      sync_devices-peers devices s1 s' rest ∙ (sync_device-IsRound inputs p s s1 first).same_peers

  HasSynced-back :
      (p : Device) (devices : List Device) (s s1 s' : Sync)
      → IsRound p s s1
      → IsUnlisted p.public_key devices
      → Every devices (HasSynced s1 s')
      → Every devices (HasSynced s s')
  HasSynced-back p [] s s1 s' round absent h = tt
  HasSynced-back p (q ∷ devices) s s1 s' round absent h =
      let (e, at, synced) = h.0 in
      (
        (
          e,
          at,
          subst (λ old. IsSynced q old e) (round.others q.public_key (λ same. absent.0 (sym same)))
              synced,
        ),
        HasSynced-back p devices s s1 s' round absent.1 h.1,
      )

  pub sync_devices-HasSynced :
      (devices : List Device) (s s' : Sync)
      → HasOwnKeys devices
      → sync_devices inputs devices s ≡ some s'
      → Every devices (HasSynced s s')
  sync_devices-HasSynced [] s s' own run = tt
  sync_devices-HasSynced (p ∷ devices) s s' own run =
      let (s1, first, rest) = loop_parts p devices s s' run in
      let round = sync_device-IsRound inputs p s s1 first in
      (
        (
          round.entry,
          sync_devices_frame devices s1 s' p.public_key own.0 rest ∙ round.at,
          round.synced,
        ),
        HasSynced-back p devices s s1 s' round own.0
            (sync_devices-HasSynced devices s1 s' own.1 rest),
      )
