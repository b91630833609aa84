-- ===== src/Reconcile/Deletion.antt =====
-- `handlePeerDelete`: which entries it takes out of the cache, and what it leaves behind.
use nexodus.Prelude.{
  ◌≡◌, inl, inr, refl, ◌∙◌, ap, String, Bool, true, not, ◌&&◌, Option, none, some, [], ◌∷◌, ◌++◌,
  ◌==◌, string_eq, if◌then◌else◌, arith, any, Bool-cases,
}
use nexodus.Prelude.Maps.{Map, is_some, lookup, delete, lookup-delete}
use nexodus.Peering.{Device, DeviceCacheEntry, Nexodus, peer_cleanup}
use nexodus.Peering.Keys.{IsKeyed, delete-IsKeyed, test_at, any-key}
use nexodus.Reconcile.Deploy.{Host, delete_peers, handle_peer_delete}

-- The service does not list the device of the entry.
abbrev pub is_gone : Map String Device → DeviceCacheEntry → Bool
is_gone peer_map d = not (is_some (lookup d.device.id peer_map))

abbrev pub after_cleanup : Map String Device → Option DeviceCacheEntry → Option DeviceCacheEntry
after_cleanup peer_map none = none
after_cleanup peer_map (some d) = if is_gone peer_map d then none else some d

module _ (delete_peer : String → Bool) (peer_map : Map String Device) where
  abbrev removes : String → Map String DeviceCacheEntry → Bool
  removes j cache = any (λ e. e.1.device.public_key == j && is_gone peer_map e.1) cache

  abbrev cleaned : DeviceCacheEntry → Nexodus → Nexodus
  cleaned p nx = record nx {
    device_cache = delete p.device.public_key nx.device_cache;
    effects = nx.effects ++ peer_cleanup p.device.public_key ∷ [];
  }

  delete_peers-lookup :
      (cache : Map String DeviceCacheEntry) (nx : Nexodus) (j : String)
      → ((key : String) → delete_peer key ≡ true)
      → lookup j (delete_peers delete_peer peer_map cache nx).0.device_cache
        ≡ (if removes j cache then none else lookup j nx.device_cache)
  unfolding delete_peers
  delete_peers-lookup [] nx j works = refl
  delete_peers-lookup ((k, p) ∷ cache) nx j works =
      elim (Bool-cases (is_some (lookup p.device.id peer_map))) [
        | inl listed ↦ ground (arith, delete_peers-lookup cache nx j works)
        | inr gone ↦ ground (
          arith,
          works p.device.public_key,
          delete_peers-lookup cache (cleaned p nx) j works,
          lookup-delete p.device.public_key j nx.device_cache,
        )
      ]

  delete_peers-peers :
      (cache : Map String DeviceCacheEntry) (nx : Nexodus)
      → (delete_peers delete_peer peer_map cache nx).0.peers ≡ nx.peers
  unfolding delete_peers
  delete_peers-peers [] nx = refl
  delete_peers-peers ((k, p) ∷ cache) nx =
      ground (arith, delete_peers-peers cache nx, delete_peers-peers cache (cleaned p nx))

  delete_peers-IsKeyed :
      (cache : Map String DeviceCacheEntry) (nx : Nexodus)
      → IsKeyed nx.device_cache
      → IsKeyed (delete_peers delete_peer peer_map cache nx).0.device_cache
  unfolding delete_peers
  delete_peers-IsKeyed [] nx h = h
  delete_peers-IsKeyed ((k, p) ∷ cache) nx h =
      let rest = delete_peers-IsKeyed cache in
      elim (Bool-cases (is_some (lookup p.device.id peer_map))) [
        | inl listed ↦ rw listed (rest nx h)
        | inr gone ↦ elim (Bool-cases (delete_peer p.device.public_key)) [
          | inl works ↦
              rw (gone, works)
                (rest (cleaned p nx) (delete-IsKeyed p.device.public_key nx.device_cache h))
          | inr fails ↦ rw (gone, fails) h
        ]
      ]

after_cleanup-test :
    (peer_map : Map String Device) (o : Option DeviceCacheEntry)
    → (if test_at (is_gone peer_map) o then none else o) ≡ after_cleanup peer_map o
after_cleanup-test peer_map none = refl
after_cleanup-test peer_map (some d) = refl

-- If the cache is keyed by the devices' public keys and every peer can be deleted, then
-- handlePeerDelete takes out exactly the entries whose device the service does not list.
pub handle_peer_delete-lookup :
    (host : Host) (peer_map : Map String Device) (nx : Nexodus) (j : String)
    → IsKeyed nx.device_cache
    → ((key : String) → host.delete_peer key ≡ true)
    → lookup j (handle_peer_delete host peer_map nx).0.device_cache
      ≡ after_cleanup peer_map (lookup j nx.device_cache)
unfolding handle_peer_delete
handle_peer_delete-lookup host peer_map nx j keyed works =
    delete_peers-lookup host.delete_peer peer_map nx.device_cache nx j works
    ∙ ap (λ b. if b then none else lookup j nx.device_cache)
        (any-key (is_gone peer_map) j nx.device_cache keyed)
    ∙ after_cleanup-test peer_map (lookup j nx.device_cache)

-- It leaves the configurations of the peers as they are, those of the deleted peers too.
pub handle_peer_delete-peers :
    (host : Host) (peer_map : Map String Device) (nx : Nexodus)
    → (handle_peer_delete host peer_map nx).0.peers ≡ nx.peers
unfolding handle_peer_delete
handle_peer_delete-peers host peer_map nx =
    delete_peers-peers host.delete_peer peer_map nx.device_cache nx

-- The cache is still keyed by the public keys, whether peers can be deleted or not.
pub handle_peer_delete-IsKeyed :
    (host : Host) (peer_map : Map String Device) (nx : Nexodus)
    → IsKeyed nx.device_cache
    → IsKeyed (handle_peer_delete host peer_map nx).0.device_cache
unfolding handle_peer_delete
handle_peer_delete-IsKeyed host peer_map nx h =
    delete_peers-IsKeyed host.delete_peer peer_map nx.device_cache nx h
