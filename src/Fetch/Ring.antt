-- ===== src/Fetch/Ring.antt =====
-- internal/handlers/fetchmgr/memfm: reads and writes of the ring.
use nexodus.Prelude.{
  ℕ, ◌%◌, ◌^◌, ◌<◌, ◌≡◌, ◌≢◌, refl, ◌⊎◌, inl, inr, true, false, none, some, List, [], ◌∷◌, length,
  length-set, take, eqb, eqb_iff, Bool-cases, In, Every, arith,
}
use nexodus.Fetch.{
  ResourceItem, Answer, failed, fetched, Cache, Fetcher, Scanned, Read, rounds, read_of,
  cache_fetch, write_all, store, stored, cache_fill,
}
use nexodus.Fetch.Scan.{IsRun, IsScan, scan-IsScan, scan-total}

-- The ring has a slot, and its position is a uint64.
abbrev pub IsSound : {A : Type 0} → Cache A → Type 0
IsSound c = (0 < length c.ring_buffer) × (c.write_pos < 2 ^ 64)

module _ {A : Type 0} where
  write_all-IsSound :
      (xs : List (ResourceItem A)) (c : Cache A) → IsSound c → IsSound (write_all xs c)
  unfolding write_all
  write_all-IsSound [] c h = h
  write_all-IsSound (x ∷ xs) c (size, bound) =
      write_all-IsSound xs _
        (rw (length-set c.ring_buffer (c.write_pos % length c.ring_buffer) x) size, omega arith)

  pub store-IsSound : (xs : List (ResourceItem A)) (c : Cache A) → IsSound c → IsSound (store xs c)
  unfolding store
  store-IsSound xs c h = write_all-IsSound (take (length c.ring_buffer) xs) c h

  pub stored-IsSound : (a : Answer A) (c : Cache A) → IsSound c → IsSound (stored a c).1
  stored-IsSound (failed e) c h = h
  stored-IsSound (fetched items) c h = store-IsSound items c h

  -- What a read of the ring yields.
  abbrev pub IsRead : Fetcher → Cache A → ℕ → Read A → Type 0
  IsRead f c gt none = ⊥
  IsRead f c gt (some (items, pos, f')) =
      IsRun gt items
      × Every items (λ x. In x c.ring_buffer)
      × (pos ≡ c.write_pos)
      × (f'.fetch_from_tail_cache ≡ true → f'.read_pos ≡ c.write_pos)

  read_of-IsRead :
      (f : Fetcher) (c : Cache A) (gt : ℕ) (s : Scanned A)
      → s ≢ none
      → IsScan c.ring_buffer c.write_pos gt s
      → IsRead f c gt (read_of c f s)
  read_of-IsRead f c gt none h i = absurd (h refl)
  read_of-IsRead f c gt (some (items, pos, true)) h (run, known, whole) =
      (run, known, refl, λ e. whole refl)
  read_of-IsRead f c gt (some (items, pos, false)) h (run, known, whole) =
      (run, known, refl, λ e. absurd (ground arith))

  pub cache_fetch-IsRead :
      (f : Fetcher) (c : Cache A) (gt : ℕ)
      → IsSound c
      → f.read_pos < 2 ^ 64
      → IsRead f c gt (cache_fetch f c gt)
  unfolding cache_fetch
  cache_fetch-IsRead f c gt (size, bound) h =
      read_of-IsRead f c gt _
        (scan-total (rounds f.read_pos c.write_pos) c.ring_buffer c.write_pos f.read_pos gt size h
          bound (omega arith))
        (scan-IsScan (rounds f.read_pos c.write_pos) c.ring_buffer c.write_pos f.read_pos gt)

  pub cache_fill-first :
      (fn : ℕ → Answer A) (gt pos : ℕ) (c : Cache A)
      → pos ≡ c.write_pos
      → cache_fill fn gt pos c ≡ stored (fn gt) c
  unfolding cache_fill
  cache_fill-first fn gt pos c e = rw ((eqb_iff pos c.write_pos).1 e) refl

  -- A fill is the first of its round, or leaves the ring.
  pub cache_fill-cases :
      (fn : ℕ → Answer A) (gt pos : ℕ) (c : Cache A)
      → (cache_fill fn gt pos c ≡ stored (fn gt) c) ⊎ (cache_fill fn gt pos c ≡ (none, c))
  unfolding cache_fill
  cache_fill-cases fn gt pos c = elim (Bool-cases (eqb pos c.write_pos)) [
    | inl e ↦ inl (rw e refl)
    | inr e ↦ inr (rw e refl)
  ]
