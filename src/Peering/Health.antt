-- ===== src/Peering/Health.antt =====
-- internal/nexodus: when a peer counts as healthy, and when a peering method counts as failed.
use nexodus.Prelude.{
  ℕ, ◌+◌, ◌-◌, ◌≤◌, ◌≡◌, ◌≢◌, ◌↔◌, Bool, true, false, not, ◌&&◌, none, ltb, eqb, if◌then◌else◌,
  arith,
}
use nexodus.Prelude.Maps.{insert}
use nexodus.Prelude.{string_eq}
use nexodus.Peering.{Device, DeviceCacheEntry, no_method, Nexodus, is_via_relay, zero_entry}

-- time.Second, and the time-outs of the source, in nanoseconds
abbrev pub second : ℕ
second = 1_000_000_000

abbrev pub peering_timeout : ℕ
peering_timeout = 30_000_000_000

abbrev pub peering_restore_timeout : ℕ
peering_restore_timeout = 180_000_000_000

-- time.Since(t). A time to come gives 0 here and a negative duration there: below every time-out.
abbrev pub since : ℕ → ℕ → ℕ
since now t = now - t

abbrev pub is_zero : ℕ → Bool
is_zero t = eqb t 0

unfoldable pub peering_failed : ℕ → DeviceCacheEntry → Bool → Bool
peering_failed now d healthy_relay =
    if d.peer_healthy
    then false
    else if is_via_relay d.peering_method
    then not healthy_relay
    else if is_zero d.peering_time
    then false
    else if is_zero d.peer_healthy_time && ltb (since now d.peering_time) peering_timeout
    then false
    else if not (is_zero d.peer_healthy_time)
        && ltb (since now d.peer_healthy_time) peering_restore_timeout
    then false
    else true

-- `reject_after` is RejectAfterTime of the wireguard library.
unfoldable pub peer_is_healthy : ℕ → ℕ → DeviceCacheEntry → Bool
peer_is_healthy reject_after now d =
    if is_zero d.last_handshake_time
    then false
    else if ltb (reject_after + 30_000_000_000) (since now d.last_handshake_time)
    then false
    else true

unfoldable pub peering_reset : DeviceCacheEntry → DeviceCacheEntry
peering_reset d = record d {
  peering_method = no_method;
  peering_method_index = none;
  peering_time = 0;
  health = record d.health {
    peer_healthy = false;
    peer_healthy_time = 0;
    last_tx_bytes = 0;
    last_rx_bytes = 0;
    last_handshake_time = 0;
    last_handshake = "";
    last_refresh = 0;
  };
}

abbrev pub new_entry : ℕ → Device → DeviceCacheEntry
new_entry now p = record zero_entry { device = p; last_updated = now }

unfoldable pub add_to_device_cache : ℕ → Nexodus → Device → Nexodus
unfolding peering_reset
add_to_device_cache now nx p = record nx {
  device_cache = insert p.public_key (peering_reset (new_entry now p)) nx.device_cache;
}

-- The last time at which the present method worked, or was chosen if it never worked.
abbrev last_good : DeviceCacheEntry → ℕ
last_good d = if is_zero d.peer_healthy_time then d.peering_time else d.peer_healthy_time

abbrev grace : DeviceCacheEntry → ℕ
grace d = if is_zero d.peer_healthy_time then peering_timeout else peering_restore_timeout

-- A method other than via-relay has failed exactly when the peer is not healthy, the method was
-- tried, and the grace period has passed: 180 s since the peer was last healthy, or, if it never
-- was, 30 s since the method was chosen.
pub peering_failed_direct :
    (now : ℕ) (d : DeviceCacheEntry) (healthy_relay : Bool)
    → is_via_relay d.peering_method ≡ false
    → (peering_failed now d healthy_relay ≡ true)
      ↔ ((d.peer_healthy ≡ false) × (d.peering_time ≢ 0) × (grace d ≤ since now (last_good d)))
unfolding peering_failed
peering_failed_direct now d healthy_relay h = (ground arith, ground arith)
