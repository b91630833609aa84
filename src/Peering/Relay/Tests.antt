-- ===== src/Peering/Relay/Tests.antt =====
-- The theorems on what a relay publishes, at concrete relays.
use nexodus.Prelude.{◌≡◌, refl, true, some, [], ◌∷◌, arith, eq_iff, string_eq}
use nexodus.Prelude.Maps.{lookup}
use nexodus.Peering.{text, DeviceCacheEntry, zero_entry, zero_device}
use nexodus.Peering.Tests.{env, node}
use nexodus.Peering.Relay.{derp_relay, use_custom_derp, stun_address, get_derp_relay_hostname}
use nexodus.Peering.Relay.Published.{
  Derper, registered_endpoints, rebound_endpoints, update_device_relay_metadata, relay_metadata,
  unnamed_relay_unused, rebound_relay_unused,
}

abbrev derper : Derper
derper = record { hostname = "relay.example.com"; cert_mode = "letsencrypt" }

abbrev unnamed : DeviceCacheEntry
unnamed = record zero_entry { metadata = ("type", text "derp") ∷ [] }

unnamed_relay_unused_example :
    (derp_relay unnamed ≡ true) × (use_custom_derp env unnamed node ≡ some node)
unfolding update_device_relay_metadata relay_metadata
unnamed_relay_unused_example =
    unnamed_relay_unused env node derper unnamed (ground (arith, eq_iff "letsencrypt" "manual"))
      refl

abbrev rebound : DeviceCacheEntry
rebound = record zero_entry {
  device = record zero_device { endpoints = rebound_endpoints "10.0.0.2:5" "stun1" "3.3.3.3:3478" };
  metadata = ("type", text "derp") ∷ ("hostname", text "relay.example.com") ∷ [];
}

rebound_relay_unused_example :
    (use_custom_derp env rebound node ≡ some node)
    × (stun_address "" (registered_endpoints "10.0.0.2:5" "3.3.3.3:3478") ≡ "3.3.3.3:3478")
unfolding get_derp_relay_hostname lookup
rebound_relay_unused_example =
    rebound_relay_unused env node rebound "10.0.0.2:5" "stun1" "3.3.3.3:3478" "relay.example.com"
      (ground (arith, eq_iff "stun1" "")) refl refl
