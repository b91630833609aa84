-- ===== src/Reconcile/Synced.antt =====
-- What the loop of `reconcileDeviceCache` makes of the cache.
use nexodus.Prelude.{
  ◌≡◌, ◌≢◌, inl, inr, refl, sym, ◌∙◌, ap, String, true, false, Option, none, some, string_eq, arith,
  Bool-cases, eq_of_some, eq_iff,
}
use mathlib.Core.Path.{subst}
use nexodus.Prelude.Maps.{lookup, lookup-insert, eq_self}
use nexodus.Peering.{Device, DeviceCacheEntry, Nexodus}
use nexodus.Reconcile.{
  Inputs, Sync, device_updated, is_new, or_zero, admitted, with_metadata, with_stats, sync_device,
}
use nexodus.Reconcile.Rounds.{
  HasPeering, IsReset, IsSynced, IsRound, found, Stored, device_updated_self, metadata-HasPeering,
  stats-HasPeering, admitted-fresh, admitted-kept, admitted_others, admitted-peers,
  sync_device_parts,
}

IsSynced-of_new :
    (p : Device) (old : Option DeviceCacheEntry) (e : DeviceCacheEntry)
    → is_new old p ≡ true
    → IsReset p e
    → IsSynced p old e
IsSynced-of_new p old e new reset = record {
  current = ap (λ d. device_updated d p) reset.device ∙ device_updated_self p;
  fresh = λ _. reset;
  kept = λ o at known. absurd (ground (arith, new, known));
}

IsSynced-of_known :
    (p : Device) (old : Option DeviceCacheEntry) (e o : DeviceCacheEntry)
    → old ≡ some o
    → is_new old p ≡ false
    → device_updated o.device p ≡ false
    → HasPeering e o
    → IsSynced p old e
IsSynced-of_known p old e o at known current peering = record {
  current = ap (λ d. device_updated d p) peering.device ∙ current;
  fresh = λ new. absurd (ground (arith, new, known));
  kept = λ o' at' _. subst (HasPeering e) (eq_of_some (sym at ∙ at')) peering;
}

module _ (inputs : Inputs) where
  HasPeering-trans : {a b c : DeviceCacheEntry} → HasPeering a b → HasPeering b c → HasPeering a c
  HasPeering-trans x y = record {
    device = x.device ∙ y.device;
    chosen = x.chosen ∙ y.chosen;
    index = x.index ∙ y.index;
    time = x.time ∙ y.time;
  }

  -- The entry after the round of a device that the cache has already.
  kept_entry :
      (p : Device) (n s' : Sync) (o : DeviceCacheEntry)
      → lookup p.public_key n.nx.device_cache ≡ some o
      → Stored inputs p.public_key (with_metadata inputs p o) n s'
      → (e : DeviceCacheEntry) × (lookup p.public_key s'.nx.device_cache ≡ some e) × HasPeering e o
  kept_entry p n s' o at (inl (absent, same)) = (
    o,
    ap (λ (z : Sync). lookup p.public_key z.nx.device_cache) same ∙ at,
    record { device = refl; chosen = refl; index = refl; time = refl },
  )
  kept_entry p n s' o at (inr (cur, there, cache, peers)) =
      let e = with_stats inputs (inputs.clock p.public_key) cur (with_metadata inputs p o) in
      (
        e,
        ap (lookup p.public_key) cache
            ∙ ground (
              arith,
              lookup-insert p.public_key p.public_key e n.nx.device_cache,
              eq_self p.public_key,
            ),
        HasPeering-trans (stats-HasPeering inputs _ cur _) (metadata-HasPeering inputs p o),
      )

  Stored-lookup :
      (p : Device) (e : DeviceCacheEntry) (n s' : Sync) (j : String)
      → p.public_key ≢ j
      → Stored inputs p.public_key e n s'
      → lookup j s'.nx.device_cache ≡ lookup j n.nx.device_cache
  Stored-lookup p e n s' j ne (inl (absent, same)) =
      ap (λ (z : Sync). lookup j z.nx.device_cache) same
  Stored-lookup p e n s' j ne (inr (cur, there, cache, peers)) =
      ap (lookup j) cache
      ∙ ground (
        arith,
        lookup-insert p.public_key j (with_stats inputs (inputs.clock p.public_key) cur e)
            n.nx.device_cache,
        eq_iff p.public_key j,
      )

  Stored-peers :
      (key : String) (e : DeviceCacheEntry) (n s' : Sync)
      → Stored inputs key e n s'
      → s'.nx.peers ≡ n.nx.peers
  Stored-peers key e n s' (inl (absent, same)) = ap (λ (z : Sync). z.nx.peers) same
  Stored-peers key e n s' (inr (cur, there, cache, peers)) = peers

  round_entry :
      (p : Device) (s n s' : Sync)
      → n.nx ≡ (admitted inputs p s).nx
      → n.peer_stats ≡ (admitted inputs p s).peer_stats
      → Stored inputs p.public_key (with_metadata inputs p (found inputs p s)) n s'
      → (e : DeviceCacheEntry) × (lookup p.public_key s'.nx.device_cache ≡ some e)
        × IsSynced p (lookup p.public_key s.nx.device_cache) e
  round_entry p s n s' nx stats stored =
      elim (Bool-cases (is_new (lookup p.public_key s.nx.device_cache) p)) [
        | inl new ↦
            let (e, at, reset, gone) = admitted-fresh inputs p s new in
            (e, fresh_at e at gone stored, IsSynced-of_new p _ e new reset)
        | inr known ↦
            let (same, o, at, current) = admitted-kept inputs p s known in
            let at' : lookup p.public_key (admitted inputs p s).nx.device_cache ≡ some o =
              ap (λ (z : Sync). lookup p.public_key z.nx.device_cache) same ∙ at in
            let found_o : found inputs p s ≡ o = ap or_zero at' in
            let (e, there, peering) =
              kept_entry p n s' o
                (ap (λ (z : Nexodus). lookup p.public_key z.device_cache) nx ∙ at')
                (subst (λ z. Stored inputs p.public_key (with_metadata inputs p z) n s') found_o
                  stored) in
            (e, there, IsSynced-of_known p _ e o at known current peering)
      ]
    where
      fresh_at :
          (e : DeviceCacheEntry)
          → lookup p.public_key (admitted inputs p s).nx.device_cache ≡ some e
          → lookup p.public_key (admitted inputs p s).peer_stats ≡ none
          → Stored inputs p.public_key (with_metadata inputs p (found inputs p s)) n s'
          → lookup p.public_key s'.nx.device_cache ≡ some e
      fresh_at e at gone (inl (absent, same)) =
          ap (λ (z : Sync). lookup p.public_key z.nx.device_cache) same
          ∙ ap (λ (z : Nexodus). lookup p.public_key z.device_cache) nx
          ∙ at
      fresh_at e at gone (inr (cur, there, cache, peers)) =
          absurd (ground (arith, ap (lookup p.public_key) stats, there, gone))

  -- A round that does not panic leaves an entry of the device that agrees with it on what matters for
  -- peering, reset if the device was new or has changed and with its peering kept if not, and it
  -- leaves the entries of other devices and the configurations of peers alone.
  pub sync_device-IsRound :
      (p : Device) (s s' : Sync) → sync_device inputs p s ≡ some s' → IsRound p s s'
  sync_device-IsRound p s s' h =
      let (n, nx, stats, stored) = sync_device_parts inputs p s s' h in
      let (e, at, synced) = round_entry p s n s' nx stats stored in
      record {
        entry = e;
        at = at;
        synced = synced;
        others = λ j ne.
            Stored-lookup p _ n s' j ne stored
            ∙ ap (λ (z : Nexodus). lookup j z.device_cache) nx
            ∙ admitted_others inputs p s j ne;
        same_peers =
            Stored-peers p.public_key _ n s' stored
            ∙ ap (λ (z : Nexodus). z.peers) nx
            ∙ admitted-peers inputs p s;
      }
