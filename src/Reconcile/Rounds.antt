-- ===== src/Reconcile/Rounds.antt =====
-- What one round of the loop of `reconcileDeviceCache` leaves in the cache.
use nexodus.Prelude.{
  ℕ, ◌≡◌, ◌≢◌, ◌⊎◌, inl, inr, refl, sym, ap, String, Bool, true, false, Option, none, some, List,
  [], ◌∷◌, string_eq, if◌then◌else◌, arith, Bool-cases, Option-cases, eq_of_some, eq_iff,
}
use nexodus.Prelude.Maps.{lookup, insert, lookup-insert, lookup-delete, eq_self}
use nexodus.Peering.{Device, Endpoint, DeviceCacheEntry, no_method}
use nexodus.Peering.Health.{add_to_device_cache, peering_reset, new_entry}
use nexodus.Peering.Build.{list_eq}
use nexodus.Reconcile.{
  Inputs, WgSessions, Sync, bool_eq, endpoints_eq, device_updated, is_new, or_zero, admit, admitted,
  note_relay, with_metadata, with_stats, record_stats, sync_device, first_ip, can_log, put_entry,
}

pub list_eq_self : (xs : List String) → list_eq xs xs ≡ true
list_eq_self [] = refl
list_eq_self (x ∷ xs) = ground (arith, eq_self x, list_eq_self xs)

endpoints_eq_self : (xs : List Endpoint) → endpoints_eq xs xs ≡ true
endpoints_eq_self [] = refl
endpoints_eq_self (x ∷ xs) =
    ground (arith, eq_self x.source, eq_self x.address, endpoints_eq_self xs)

bool_eq_self : (b : Bool) → bool_eq b b ≡ true
bool_eq_self true = refl
bool_eq_self false = refl

pub device_updated_self : (p : Device) → device_updated p p ≡ false
unfolding device_updated
device_updated_self p = ground (
  arith,
  list_eq_self p.allowed_ips,
  list_eq_self p.advertise_cidrs,
  endpoints_eq_self p.endpoints,
  bool_eq_self p.relay,
  bool_eq_self p.symmetric_nat,
  eq_self p.security_group_id,
)

-- The entry has its peering as it was set up for the device.
pub record HasPeering (e o : DeviceCacheEntry) : Type 0 where
  pub device : e.device ≡ o.device
  pub chosen : e.peering_method ≡ o.peering_method
  pub index : e.peering_method_index ≡ o.peering_method_index
  pub time : e.peering_time ≡ o.peering_time

pub record IsReset (p : Device) (e : DeviceCacheEntry) : Type 0 where
  pub device : e.device ≡ p
  pub chosen : e.peering_method ≡ no_method
  pub index : e.peering_method_index ≡ none
  pub unhealthy : e.health.peer_healthy ≡ false
  pub metadata : e.metadata ≡ []

-- What the cache has of a device after its round, `old` being what it had before.
pub record IsSynced (p : Device) (old : Option DeviceCacheEntry) (e : DeviceCacheEntry)
    : Type 0 where
  pub current : device_updated e.device p ≡ false
  pub fresh : is_new old p ≡ true → IsReset p e
  pub kept : (o : DeviceCacheEntry) → old ≡ some o → is_new old p ≡ false → HasPeering e o

-- A round for the device `p`.
pub record IsRound (p : Device) (s s' : Sync) : Type 0 where
  pub entry : DeviceCacheEntry
  pub at : lookup p.public_key s'.nx.device_cache ≡ some entry
  pub synced : IsSynced p (lookup p.public_key s.nx.device_cache) entry
  pub others :
      (j : String) → p.public_key ≢ j → lookup j s'.nx.device_cache ≡ lookup j s.nx.device_cache
  pub same_peers : s'.nx.peers ≡ s.nx.peers

first_ip_lem :
    (ips : List String) (s s' : Sync)
    → first_ip ips s ≡ some s'
    → (s'.nx ≡ s.nx) × (s'.peer_stats ≡ s.peer_stats)
first_ip_lem [] s s' h = absurd (cc)
first_ip_lem (ip ∷ ips) s s' h = (
  ap (λ (z : Sync). z.nx) (sym (eq_of_some h)),
  ap (λ (z : Sync). z.peer_stats) (sym (eq_of_some h)),
)

eq_of_guard : {A : Type 0} (b : Bool) {x y : A} → (if b then some x else none) ≡ some y → x ≡ y
eq_of_guard true h = eq_of_some h
eq_of_guard false h = absurd cc

module _ (inputs : Inputs) where
  pub metadata-HasPeering :
      (p : Device) (e : DeviceCacheEntry) → HasPeering (with_metadata inputs p e) e
  unfolding with_metadata
  metadata-HasPeering p e = record {
    device = ground arith;
    chosen = ground arith;
    index = ground arith;
    time = ground arith;
  }

  pub stats-HasPeering :
      (at : ℕ) (cur : WgSessions) (e : DeviceCacheEntry) → HasPeering (with_stats inputs at cur e) e
  unfolding with_stats
  stats-HasPeering at cur e = record { device = refl; chosen = refl; index = refl; time = refl }

  -- What a round has before the statistics.
  abbrev pub found : Device → Sync → DeviceCacheEntry
  found p s = or_zero (lookup p.public_key (admitted inputs p s).nx.device_cache)

  pub admitted-fresh :
      (p : Device) (s : Sync)
      → is_new (lookup p.public_key s.nx.device_cache) p ≡ true
      → (e : DeviceCacheEntry) × (lookup p.public_key (admitted inputs p s).nx.device_cache
          ≡ some e)
        × IsReset p e
        × (lookup p.public_key (admitted inputs p s).peer_stats ≡ none)
  unfolding admit add_to_device_cache peering_reset
  admitted-fresh p s h = (
    peering_reset (new_entry (inputs.clock p.public_key) p),
    ground (
      arith,
      lookup-insert p.public_key p.public_key
          (peering_reset (new_entry (inputs.clock p.public_key) p)) s.nx.device_cache,
      eq_self p.public_key,
    ),
    record { device = refl; chosen = refl; index = refl; unhealthy = refl; metadata = refl },
    ground (arith, lookup-delete p.public_key p.public_key s.peer_stats, eq_self p.public_key),
  )

  pub admitted-kept :
      (p : Device) (s : Sync)
      → is_new (lookup p.public_key s.nx.device_cache) p ≡ false
      → (admitted inputs p s ≡ s)
        × (o : DeviceCacheEntry) × (lookup p.public_key s.nx.device_cache ≡ some o)
        × (device_updated o.device p ≡ false)
  admitted-kept p s h = elim (Option-cases (lookup p.public_key s.nx.device_cache)) [
    | inl e ↦ absurd (ground arith)
    | inr (o, e) ↦ (ground arith, o, e, ground arith)
  ]

  pub admitted_others :
      (p : Device) (s : Sync) (j : String)
      → p.public_key ≢ j
      → lookup j (admitted inputs p s).nx.device_cache ≡ lookup j s.nx.device_cache
  unfolding admit add_to_device_cache
  admitted_others p s j ne = ground (
    arith,
    lookup-insert p.public_key j (peering_reset (new_entry (inputs.clock p.public_key) p))
        s.nx.device_cache,
    eq_iff p.public_key j,
  )

  pub admitted-peers : (p : Device) (s : Sync) → (admitted inputs p s).nx.peers ≡ s.nx.peers
  unfolding admit add_to_device_cache
  admitted-peers p s = ground arith

  note_relay_lem :
      (p : Device) (s s' : Sync)
      → note_relay p s ≡ some s'
      → (s'.nx ≡ s.nx) × (s'.peer_stats ≡ s.peer_stats)
  unfolding note_relay
  note_relay_lem p s s' h = elim (Bool-cases p.relay) [
    | inl e ↦ first_ip_lem p.allowed_ips s s' (ground arith)
    | inr e ↦
        let same : s ≡ s' = ground arith in
        (ap (λ (z : Sync). z.nx) (sym same), ap (λ (z : Sync). z.peer_stats) (sym same))
  ]

  -- Without statistics the entry is not stored.
  abbrev pub Stored : String → DeviceCacheEntry → Sync → Sync → Type 0
  Stored key e n s' =
      ((lookup key n.peer_stats ≡ none) × (s' ≡ n))
      ⊎ ((cur : WgSessions) × (lookup key n.peer_stats ≡ some cur)
          × (s'.nx.device_cache
              ≡ insert key (with_stats inputs (inputs.clock key) cur e) n.nx.device_cache)
          × (s'.nx.peers ≡ n.nx.peers))

  record_stats_lem :
      (key : String) (e : DeviceCacheEntry) (n s' : Sync)
      → record_stats inputs key e n ≡ some s'
      → Stored key e n s'
  unfolding record_stats
  record_stats_lem key e n s' h = elim (Option-cases (lookup key n.peer_stats)) [
    | inl absent ↦ inl (absent, ground arith)
    | inr (cur, at) ↦
        let entry = with_stats inputs (inputs.clock key) cur e in
        let guarded : (if can_log e entry then some (put_entry key entry n) else none) ≡ some s' =
          ground arith in
        let same = sym (eq_of_guard (can_log e entry) guarded) in
        inr (cur, at, ap (λ (z : Sync). z.nx.device_cache) same, ap (λ (z : Sync). z.nx.peers) same)
  ]

  pub sync_device_parts :
      (p : Device) (s s' : Sync)
      → sync_device inputs p s ≡ some s'
      → (n : Sync) × (n.nx ≡ (admitted inputs p s).nx)
        × (n.peer_stats ≡ (admitted inputs p s).peer_stats)
        × Stored p.public_key (with_metadata inputs p (found p s)) n s'
  unfolding sync_device
  sync_device_parts p s s' h = elim (Option-cases (note_relay p (admitted inputs p s))) [
    | inl e ↦ absurd (ground arith)
    | inr (n, e) ↦
        let (nx, stats) = note_relay_lem p (admitted inputs p s) n e in
        (n, nx, stats, record_stats_lem p.public_key _ n s' (ground arith))
  ]
