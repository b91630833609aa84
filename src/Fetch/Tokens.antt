-- ===== src/Fetch/Tokens.antt =====
-- internal/handlers/device.go and events.go: the bearer tokens that a watcher of devices sees.
use native.Mathlib.Nat.{mod-lt}
use nexodus.Prelude.{
  ℕ, zero, suc, ◌+◌, ◌-◌, ◌%◌, ◌^◌, ◌<◌, ◌≡◌, refl, ap, String, Bool, true, false, Option, none,
  some, List, [], ◌∷◌, length, get_elem?, get_elem?-set_self, set, length-set, take, ltb, eqb,
  eqb_iff, if◌then◌else◌, ◌==◌, string_eq, arith,
}
use nexodus.Fetch.{
  ResourceItem, Answer, fetched, Cache, Fetcher, u64, prepend, scan, read_of, cache_fetch,
  write_all, store, fetch_tail, fetch,
}
use nexodus.Fetch.Ring.{IsSound, cache_fill-first}

-- The fields of `models.Device` that the test reads.
pub record DeviceRow : Type 0 where
  pub id : String
  pub reg_key_id : String
  pub owner_id : String
  pub public_key : String
  pub bearer_token : String

-- `NexodusClaims`: the scope and the ID.
pub record Claims : Type 0 where
  pub scope : String
  pub id : String

module _ (encrypt : String → String → String) where
  abbrev sealed : DeviceRow → DeviceRow
  sealed d = record d { bearer_token = encrypt d.bearer_token d.public_key }

  abbrev is_named : Option Claims → DeviceRow → Bool
  is_named none d = false
  is_named (some c) d =
      if c.scope == "reg-token"
      then c.id == d.reg_key_id
      else if c.scope == "device-token"
      then c.id == d.id
      else false

  -- The token is sealed for whom the claims name, and for the owner; others do not see it.
  unfoldable pub hide_device_bearer_token : Option Claims → String → DeviceRow → DeviceRow
  hide_device_bearer_token claims user d =
      if is_named claims d
      then sealed d
      else if d.owner_id == user
      then sealed d
      else record d { bearer_token = "" }

-- A fetcher that has read all of the ring.
abbrev pub ready : ℕ → Fetcher
ready pos = record { fetch_from_tail_cache = true; read_pos = pos }

module _ {A : Type 0} where
  scan_end :
      (n : ℕ) (ring : List (ResourceItem A)) (pos gt : ℕ)
      → scan (suc n) ring pos pos gt ≡ some ([], pos, true)
  unfolding scan
  scan_end n ring pos gt = rw ((eqb_iff pos pos).1 refl) refl

  scan_one :
      (n : ℕ) (ring : List (ResourceItem A)) (pos gt : ℕ) (x : ResourceItem A)
      → pos < 2 ^ 64
      → get_elem? ring (pos % length ring) ≡ some x
      → x.revision ≡ gt + 1
      → x.revision < 2 ^ 64
      → scan (suc (suc n)) ring (u64 (pos + 1)) pos gt ≡ some (x ∷ [], u64 (pos + 1), true)
  unfolding scan
  scan_one n ring pos gt x bound found e small =
      let more : eqb pos (u64 (pos + 1)) ≡ false = ground arith in
      let new : ltb gt x.revision ≡ true = ground arith in
      let follows : eqb (u64 (gt + 1)) x.revision ≡ true = ground arith in
      rw more (
        rw found
          (rw new (rw follows (ap (prepend x) (scan_end n ring (u64 (pos + 1)) x.revision)))))

  cache_fetch-ready :
      (c : Cache A) (gt : ℕ)
      → cache_fetch (ready c.write_pos) c gt ≡ some ([], c.write_pos, ready c.write_pos)
  unfolding cache_fetch
  cache_fetch-ready c gt =
      ap (read_of c (ready c.write_pos))
        (scan_end (u64 (c.write_pos + 2 ^ 64 - c.write_pos)) c.ring_buffer c.write_pos gt)

  take_one : (n : ℕ) (x : ResourceItem A) → 0 < n → take n (x ∷ []) ≡ x ∷ []
  take_one zero x h = absurd (omega arith)
  take_one (suc zero) x h = refl
  take_one (suc (suc n)) x h = refl

  -- The ring after one item was written.
  abbrev pub with_item : ResourceItem A → Cache A → Cache A
  with_item x c = record c {
    ring_buffer = set c.ring_buffer (c.write_pos % length c.ring_buffer) x;
    write_pos = u64 (c.write_pos + 1);
  }

  store_one : (x : ResourceItem A) (c : Cache A) → IsSound c → store (x ∷ []) c ≡ with_item x c
  unfolding store write_all
  store_one x c (size, bound) = ap (λ xs. write_all xs c) (take_one (length c.ring_buffer) x size)

  cache_fetch_one :
      (x : ResourceItem A) (c : Cache A) (gt : ℕ)
      → IsSound c
      → x.revision ≡ gt + 1
      → x.revision < 2 ^ 64
      → cache_fetch (ready c.write_pos) (with_item x c) gt
        ≡ some (x ∷ [], u64 (c.write_pos + 1), ready (u64 (c.write_pos + 1)))
  unfolding cache_fetch
  cache_fetch_one x c gt (size, bound) e small =
      let slot = c.write_pos % length c.ring_buffer in
      let same = length-set c.ring_buffer slot x in
      let found : get_elem? (set c.ring_buffer slot x)
            (c.write_pos % length (set c.ring_buffer slot x))
          ≡ some x =
        rw same (get_elem?-set_self c.ring_buffer slot x (mod-lt c.write_pos size)) in
      let one : u64 (u64 (c.write_pos + 1) + 2 ^ 64 - c.write_pos) ≡ suc zero = omega arith in
      rw one (
        ap (read_of (with_item x c) (ready c.write_pos))
          (scan_one zero (set c.ring_buffer slot x) c.write_pos gt x bound found e small))

module _ {D A : Type 0} where
  fetch_one :
      (fetch_fn : D → ℕ → Answer A) (db : D) (c : Cache A) (gt : ℕ) (x : ResourceItem A)
      → IsSound c
      → fetch_fn db gt ≡ fetched (x ∷ [])
      → fetch fetch_fn [] db (ready c.write_pos) c gt
        ≡ some (fetched (x ∷ []), ready c.write_pos, with_item x c)
  unfolding fetch fetch_tail
  fetch_one fetch_fn db c gt x sound e = rw (cache_fetch-ready c gt) (
      rw (cache_fill-first (fetch_fn db) gt c.write_pos c refl)
        (rw e (ap (λ z. some (fetched (x ∷ []), ready c.write_pos, z)) (store_one x c sound))))

  fetch_other :
      (fetch_fn : D → ℕ → Answer A) (db : D) (c : Cache A) (gt : ℕ) (x : ResourceItem A)
      → IsSound c
      → x.revision ≡ gt + 1
      → x.revision < 2 ^ 64
      → fetch fetch_fn [] db (ready c.write_pos) (with_item x c) gt
        ≡ some (fetched (x ∷ []), ready (u64 (c.write_pos + 1)), with_item x c)
  unfolding fetch fetch_tail
  fetch_other fetch_fn db c gt x sound e small = rw (cache_fetch_one x c gt sound e small) refl

-- A row as an item, with its token as `hide` leaves it.
abbrev pub device_item : (DeviceRow → DeviceRow) → ℕ → DeviceRow → ResourceItem DeviceRow
device_item hide revision d = record {
  item = some (hide d);
  id = d.id;
  revision = revision;
  deleted = false;
}

module _ {D : Type 0} (encrypt : String → String → String) where
  -- Two fetchers have read the whole ring and ask for the same revision. If the query of the
  -- first answers one device, with the token as hideDeviceBearerToken leaves it for the first,
  -- the first gets that answer, and the second, whatever its own query would answer, gets the
  -- same: the token as the first may see it.
  pub token_of_first :
      (mine theirs : D → ℕ → Answer DeviceRow) (db db' : D) (c : Cache DeviceRow) (gt : ℕ)
      (d : DeviceRow) (claims : Option Claims) (user : String)
      → IsSound c
      → gt + 1 < 2 ^ 64
      → mine db gt
        ≡ fetched (device_item (hide_device_bearer_token encrypt claims user) (gt + 1) d ∷ [])
      → (f : Fetcher) × (c' : Cache DeviceRow) × (f' : Fetcher) × (c'' : Cache DeviceRow) × (fetch
            mine [] db
            (ready c.write_pos)
            c
            gt
          ≡ some (mine db gt, f, c'))
        × (fetch theirs [] db' (ready c.write_pos) c' gt ≡ some (mine db gt, f', c''))
  token_of_first mine theirs db db' c gt d claims user sound small e =
      let x = device_item (hide_device_bearer_token encrypt claims user) (gt + 1) d in
      (
        ready c.write_pos,
        with_item x c,
        ready (u64 (c.write_pos + 1)),
        with_item x c,
        rw e (fetch_one mine db c gt x sound e),
        rw e (fetch_other theirs db' c gt x sound refl small),
      )
