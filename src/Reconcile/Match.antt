-- ===== src/Reconcile/Match.antt =====
-- The devices of the cache against the list of the service: after the loop over the devices and the
-- deletion of those that are not listed, the two match.
use nexodus.Prelude.{
  ◌≡◌, ◌≢◌, ◌↔◌, inl, inr, refl, sym, ◌∙◌, ap, String, false, Option, none, some, List, [], ◌∷◌,
  ◌==◌, string_eq, if◌then◌else◌, arith, Bool-cases, Option-cases, eq_of_some, Every,
}
use mathlib.Core.Path.{subst}
use nexodus.Prelude.Maps.{Map, is_some, lookup}
use nexodus.Peering.{Device, DeviceCacheEntry}
use nexodus.Peering.Keys.{IsKeyed, of_entry, device_at}
use nexodus.Reconcile.{Sync, device_updated, is_new}
use nexodus.Reconcile.Devices.{IsUnlisted, HasSynced}
use nexodus.Reconcile.Deletion.{after_cleanup}
use nexodus.Reconcile.Deploy.{devices_of}

-- The service's list of devices, by id.
pub record IsById (peer_map : Map String Device) : Type 0 where
  pub found : Every (devices_of peer_map) (λ p. lookup p.id peer_map ≡ some p)
  pub own : (i : String) (p : Device) → lookup i peer_map ≡ some p → p.id ≡ i

-- A device of the cache and a listed one have one id exactly if they have one public key.
abbrev pub HasSameIds : Map String DeviceCacheEntry → Map String Device → Type 0
HasSameIds cache peer_map =
    (k : String) (d : DeviceCacheEntry) (p : Device)
    → lookup k cache ≡ some d
    → lookup p.id peer_map ≡ some p
    → (d.device.id ≡ p.id) ↔ (k ≡ p.public_key)

-- The cache has a device under this one's key that agrees with it on what matters for peering.
abbrev pub HasCurrent : Map String DeviceCacheEntry → Device → Type 0
HasCurrent cache p =
    (d : Device) × (device_at p.public_key cache ≡ some d) × (device_updated d p ≡ false)

-- The cache has every listed device as it is, and no other one, and is keyed by the public keys.
pub record IsMatched (peer_map : Map String Device) (cache : Map String DeviceCacheEntry)
    : Type 0 where
  pub listed : Every (devices_of peer_map) (HasCurrent cache)
  pub others : (j : String) → IsUnlisted j (devices_of peer_map) → lookup j cache ≡ none
  pub keyed : IsKeyed cache

abbrev pub kept_device : Map String Device → Option Device → Option Device
kept_device peer_map none = none
kept_device peer_map (some d) = if is_some (lookup d.id peer_map) then some d else none

pub lookup_Every :
    (i : String) (p : Device) (m : Map String Device) (Good : Device → Type 0)
    → lookup i m ≡ some p
    → Every (devices_of m) Good
    → Good p
unfolding lookup
lookup_Every i p [] Good at h = absurd cc
lookup_Every i p ((k, q) ∷ m) Good at h = elim (Bool-cases (k == i)) [
  | inl e ↦ let same : q ≡ p = ground arith in subst Good same h.0
  | inr e ↦ lookup_Every i p m Good (ground arith) h.1
]

pub cleanup-device :
    (peer_map : Map String Device) (o : Option DeviceCacheEntry)
    → of_entry (after_cleanup peer_map o) ≡ kept_device peer_map (of_entry o)
cleanup-device peer_map none = refl
cleanup-device peer_map (some d) = ground arith

pub of_entry-none : (o : Option DeviceCacheEntry) → of_entry o ≡ none → o ≡ none
of_entry-none none h = refl
of_entry-none (some d) h = absurd cc

-- What the steps after the loop make of its cache.
pub record IsCleaned (peers : Map String Device) (before after : Map String DeviceCacheEntry)
    : Type 0 where
  pub devices : (j : String) → device_at j after ≡ kept_device peers (device_at j before)
  pub keyed : IsKeyed after

module _ (peer_map : Map String Device) (s s' : Sync) where
  abbrev devices : List Device
  devices = devices_of peer_map

  synced-listed :
      (p : Device)
      → HasSameIds s.nx.device_cache peer_map
      → lookup p.id peer_map ≡ some p
      → HasSynced s s' p
      → HasCurrent s'.nx.device_cache p
        × (d : Device) × (device_at p.public_key s'.nx.device_cache ≡ some d)
        × (d.id ≡ p.id)
  synced-listed p ids found (e, at, synced) = (
    (e.device, ap of_entry at, synced.current),
    e.device,
    ap of_entry at,
    elim (Bool-cases (is_new (lookup p.public_key s.nx.device_cache) p)) [
      | inl new ↦ ap (λ (d : Device). d.id) (synced.fresh new).device
      | inr known ↦ elim (Option-cases (lookup p.public_key s.nx.device_cache)) [
        | inl absent ↦ absurd (ground (arith, known, absent))
        | inr (o, there) ↦
            ap (λ (d : Device). d.id) (synced.kept o there known).device
            ∙ (ids p.public_key o p there found).1 refl
      ]
    ],
  )

  pub listed-stay :
      (ps : List Device) (after : Map String DeviceCacheEntry)
      → HasSameIds s.nx.device_cache peer_map
      → IsCleaned peer_map s'.nx.device_cache after
      → Every ps (λ p. lookup p.id peer_map ≡ some p)
      → Every ps (HasSynced s s')
      → Every ps (HasCurrent after)
  listed-stay [] after ids cleaned found synced = tt
  listed-stay (p ∷ ps) after ids cleaned found synced =
      let ((d, at, current), d', at', same) = synced-listed p ids found.0 synced.0 in
      let same_device : d ≡ d' = eq_of_some (sym at ∙ at') in
      let id : lookup d.id peer_map ≡ some p =
        ap (λ i. lookup i peer_map) (ap (λ (z : Device). z.id) same_device ∙ same) ∙ found.0 in
      (
        (
          d,
          cleaned.devices p.public_key ∙ ap (kept_device peer_map) at ∙ ground (arith, id),
          current,
        ),
        listed-stay ps after ids cleaned found.1 synced.1,
      )

  pub unlisted-go :
      (j : String) (after : Map String DeviceCacheEntry)
      → IsById peer_map
      → HasSameIds s.nx.device_cache peer_map
      → IsCleaned peer_map s'.nx.device_cache after
      → lookup j s'.nx.device_cache ≡ lookup j s.nx.device_cache
      → IsUnlisted j devices
      → lookup j after ≡ none
  unlisted-go j after by_id ids cleaned frame absent =
      of_entry-none (lookup j after)
        (cleaned.devices j ∙ ap (λ o. kept_device peer_map (of_entry o)) frame ∙ gone)
    where
      gone : kept_device peer_map (device_at j s.nx.device_cache) ≡ none
      gone = elim (Option-cases (lookup j s.nx.device_cache)) [
        | inl e ↦ ap (λ o. kept_device peer_map (of_entry o)) e
        | inr (d, e) ↦
            ap (λ o. kept_device peer_map (of_entry o)) e
            ∙ elim (Option-cases (lookup d.device.id peer_map)) [
              | inl e' ↦ ground arith
              | inr (p, e') ↦
                  let id = by_id.own d.device.id p e' in
                  let key = (ids j d p e (ap (λ i. lookup i peer_map) id ∙ e')).0 (sym id) in
                  absurd (
                    lookup_Every d.device.id p peer_map (λ q. q.public_key ≢ j) e' absent (sym key))
            ]
      ]
