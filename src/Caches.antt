-- ===== src/Caches.antt =====
-- internal/util/cache: the map behind a mutex, the cache whose entries expire, and the cache of the
-- results of functions. The mutex makes each method of the map one step; the clock is an input.
pub mod Expiry
pub mod Memoized
mod Tests
use nexodus.Prelude.{
  ℕ, ◌+◌, ◌≡◌, refl, String, Bool, true, false, Option, none, some, ltb, if◌then◌else◌, Comparable,
}
use nexodus.Prelude.Maps.{Map, lookup, insert, delete}

-- `value` and `expiresAt`.
pub record Entry {ℓ} (V : Type ℓ) : Type ℓ where
  pub value : V
  pub expires_at : ℕ

-- `memoizeResult`; the error is `none` or its text.
pub record MemoizeResult {ℓ} (V : Type ℓ) : Type ℓ where
  pub result : V
  pub err : Option String

-- The zero value and false, or the value of an entry that has not expired, and true.
abbrev pub alive {ℓ} : {V : Type ℓ} → ℕ → Option (Entry V) → Option V
alive now none = none
alive now (some e) = if ltb e.expires_at now then none else some e.value

module _ {ℓ κ} {K : Type ℓ} {V : Type κ} ⦃keys : Comparable K⦄ where
  -- `RWMutexCache`: the methods return the value that was there, and the map.
  unfoldable pub rw_get : K → Map K V → Option V
  rw_get key entries = lookup key entries

  unfoldable pub rw_put : K → V → Map K V → Option V × Map K V
  rw_put key value entries = (lookup key entries, insert key value entries)

  unfoldable pub rw_delete : K → Map K V → Option V × Map K V
  rw_delete key entries = (lookup key entries, delete key entries)

module _ {ℓ κ} {K : Type ℓ} {V : Type κ} ⦃keys : Comparable K⦄ where
  -- `RWMutexTTLCache`. `now` is what the clock shows; a put reads it twice.
  unfoldable pub ttl_get : ℕ → K → Map K (Entry V) → Option V
  ttl_get now key entries = alive now (rw_get key entries)

  unfoldable pub put_with_ttl : ℕ → ℕ → K → V → ℕ → Map K (Entry V) → Option V × Map K (Entry V)
  put_with_ttl now later key value ttl entries =
      let (old, entries') = rw_put key (record { value = value; expires_at = now + ttl }) entries in
      (alive later old, entries')

  unfoldable pub ttl_delete : ℕ → K → Map K (Entry V) → Option V × Map K (Entry V)
  ttl_delete now key entries =
      let (old, entries') = rw_delete key entries in (alive now old, entries')

-- An error is kept for a time of its own.
abbrev pub ttl_of : Option String → ℕ → ℕ → ℕ
ttl_of none error_ttl ttl = ttl
ttl_of (some e) error_ttl ttl = error_ttl

abbrev pub or_call {ℓ κ} : {R : Type ℓ} {A : Type κ} → Option R → (R → A) → A → A
or_call none f a = a
or_call (some r) f a = f r

module _ {ℓ κ} {K : Type ℓ} {V : Type κ} ⦃keys : Comparable K⦄ where
  abbrev pub fresh :
      ℕ
      → ℕ
      → ℕ
      → ℕ
      → K
      → MemoizeResult V
      → Map K (Entry (MemoizeResult V))
      → MemoizeResult V × Map K (Entry (MemoizeResult V))
  fresh called later ttl error_ttl key r entries =
      (r, (put_with_ttl called later key r (ttl_of r.err error_ttl ttl) entries).1)

  -- `MemoizeCanErrWithTTL`: `now` is the time of the look-up, `called` the time after the call of the
  -- function, and `f` the function, which may do anything that takes time.
  unfoldable pub memoize_can_err_with_ttl :
      ℕ
      → ℕ
      → ℕ
      → K
      → ℕ
      → ℕ
      → MemoizeResult V
      → Map K (Entry (MemoizeResult V))
      → MemoizeResult V × Map K (Entry (MemoizeResult V))
  memoize_can_err_with_ttl now called later key ttl error_ttl f entries =
      or_call (ttl_get now key entries) (λ r. (r, entries))
        (fresh called later ttl error_ttl key f entries)
