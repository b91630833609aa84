-- ===== src/Caches/Expiry.antt =====
-- internal/util/cache/rw_mutex_ttl_cache.go: how long a value is returned.
use nexodus.Prelude.{
  ℕ, ◌+◌, ◌≡◌, refl, Bool, true, false, Option, none, some, ltb, if◌then◌else◌, Comparable, ◌==◌,
}
use nexodus.Prelude.Maps.{Map, lookup, lookup-insert, lookup-delete}
use nexodus.Caches.{Entry, alive, rw_get, rw_put, rw_delete, ttl_get, put_with_ttl, ttl_delete}

alive-if {ℓ} :
    {V : Type ℓ} (t : ℕ) (b : Bool) (e : Entry V) (o : Option (Entry V))
    → alive t (if b then some e else o) ≡ (if b then alive t (some e) else alive t o)
alive-if t true e o = refl
alive-if t false e o = refl

alive-none {ℓ} :
    {V : Type ℓ} (t : ℕ) (b : Bool) (o : Option (Entry V))
    → alive t (if b then none else o) ≡ (if b then none else alive t o)
alive-none t true o = refl
alive-none t false o = refl

module _ {ℓ κ} {K : Type ℓ} {V : Type κ} ⦃keys : Comparable K⦄ where
  -- After a put, the key has the value until the time to live is over, that moment included, and
  -- nothing after it; other keys are as before.
  pub get-put :
      (now later t ttl : ℕ) (key other : K) (value : V) (entries : Map K (Entry V))
      → ttl_get t other (put_with_ttl now later key value ttl entries).1 ≡ (
          if key == other
          then (if ltb (now + ttl) t then none else some value)
          else ttl_get t other entries)
  unfolding ttl_get put_with_ttl rw_get rw_put
  get-put now later t ttl key other value entries =
      rw (lookup-insert key other (record { value = value; expires_at = now + ttl }) entries) (
        alive-if t (key == other) (record { value = value; expires_at = now + ttl })
          (lookup other entries))

  -- After a deletion the key has no value, and other keys are as before.
  pub get-delete :
      (now t : ℕ) (key other : K) (entries : Map K (Entry V))
      → ttl_get t other (ttl_delete now key entries).1
        ≡ (if key == other then none else ttl_get t other entries)
  unfolding ttl_get ttl_delete rw_get rw_delete
  get-delete now t key other entries =
      rw (lookup-delete key other entries) (alive-none t (key == other) (lookup other entries))
