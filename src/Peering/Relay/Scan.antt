-- ===== src/Peering/Relay/Scan.antt =====
-- What the search for a relay finds in the cache.
use nexodus.Prelude.{
  ◌≡◌, inl, inr, refl, String, Bool, true, false, ◌&&◌, ◌||◌, [], ◌∷◌, arith, any, Bool-cases,
}
use nexodus.Prelude.Maps.{Map}
use nexodus.Peering.{DeviceCacheEntry}
use nexodus.Peering.Relay.{RelayScan, no_relay, scan_relays, derp_relay}

abbrev pub is_relay : String × DeviceCacheEntry → Bool
is_relay e = e.1.device.relay

abbrev pub is_healthy_relay : String × DeviceCacheEntry → Bool
is_healthy_relay e = e.1.device.relay && e.1.peer_healthy

scan-available :
    (s : RelayScan) (cache : Map String DeviceCacheEntry)
    → (scan_relays s cache).relay_available ≡ (s.relay_available || any is_relay cache)
unfolding scan_relays
scan-available s [] = ground arith
scan-available s ((k, d) ∷ cache) = ground (
  arith,
  scan-available s cache,
  scan-available
      (record s { relay_available = true; relay_device = d; is_derp_relay = derp_relay d }) cache,
)

abbrev saw : RelayScan → DeviceCacheEntry → RelayScan
saw s d = record s { relay_available = true; relay_device = d; is_derp_relay = derp_relay d }

scan-healthy :
    (s : RelayScan) (cache : Map String DeviceCacheEntry)
    → (scan_relays s cache).healthy_relay ≡ (s.healthy_relay || any is_healthy_relay cache)
unfolding scan_relays
scan-healthy s [] = ground arith
scan-healthy s ((k, d) ∷ cache) = ground (arith, scan-healthy s cache, scan-healthy (saw s d) cache)

-- The entry that a search holds is a relay, if there is one, and the flags speak of it.
pub record IsScanned (s : RelayScan) : Type 0 where
  pub of_relay : s.relay_available ≡ true → s.relay_device.device.relay ≡ true
  pub of_derp : s.relay_available ≡ true → s.is_derp_relay ≡ derp_relay s.relay_device
  pub of_healthy :
      s.healthy_relay ≡ true → (s.relay_available ≡ true) × (s.relay_device.peer_healthy ≡ true)

scan-IsScanned :
    (s : RelayScan) (cache : Map String DeviceCacheEntry)
    → s.healthy_relay ≡ false
    → IsScanned s
    → IsScanned (scan_relays s cache)
unfolding scan_relays
scan-IsScanned s [] h i = i
scan-IsScanned s ((k, d) ∷ cache) h i = elim (Bool-cases (d.device.relay)) [
  | inl e ↦ elim (Bool-cases d.peer_healthy) [
    | inl e' ↦
        simp (e, e')
          (record { of_relay = λ a. e; of_derp = λ a. refl; of_healthy = λ a. (refl, e') })
    | inr e' ↦
        simp (e, e')
          (scan-IsScanned (saw s d) cache h (record {
            of_relay = λ a. e;
            of_derp = λ a. refl;
            of_healthy = λ a. absurd (ground arith);
          }))
  ]
  | inr e ↦ simp e (scan-IsScanned s cache h i)
]

-- The search finds a relay exactly when the cache holds one, and a healthy one exactly when the
-- cache holds a healthy one. The entry that it hands on is then a relay, healthy in the second
-- case, and the DERP flag is that entry's.
pub scan_relays_lem :
    (cache : Map String DeviceCacheEntry)
    → let s = scan_relays no_relay cache in
      (s.relay_available ≡ any is_relay cache)
      × (s.healthy_relay ≡ any is_healthy_relay cache)
      × IsScanned s
scan_relays_lem cache = (
  scan-available no_relay cache,
  scan-healthy no_relay cache,
  scan-IsScanned no_relay cache refl (record {
    of_relay = λ a. absurd (ground arith);
    of_derp = λ a. absurd (ground arith);
    of_healthy = λ a. absurd (ground arith);
  }),
)
