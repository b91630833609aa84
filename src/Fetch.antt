-- ===== src/Fetch.antt =====
-- internal/handlers/fetchmgr: memfm, the ring of recent items that the watchers of a list share, and
-- the Fetch of basefm, which reads from it or from the database. `none` is a panic.
pub mod Scan
pub mod Ring
pub mod Rule
pub mod Answered
pub mod Complete
pub mod Stocked
pub mod Tokens
mod Tests
use nexodus.Prelude.{
  ℕ, zero, suc, ◌+◌, ◌-◌, ◌%◌, ◌^◌, String, Bool, true, false, Option, none, some, List, [], ◌∷◌,
  length, get_elem?, set, take, is_empty, ltb, eqb, if◌then◌else◌,
}

-- Go's uint64, which counts positions and revisions.
abbrev pub u64 : ℕ → ℕ
u64 n = n % 2 ^ 64

-- `ResourceItem`: `none` is the nil of a slot that was never written, `deleted` is `DeletedAt.Valid`.
pub record ResourceItem (A : Type 0) : Type 0 where
  pub item : Option A
  pub id : String
  pub revision : ℕ
  pub deleted : Bool

-- What a FetchFn returns: an error, or a list.
pub data Answer (A : Type 0) : Type 0 where
  failed : String → Answer A
  fetched : List (ResourceItem A) → Answer A

-- `memfm.cache`, without its key and its counter.
pub record Cache (A : Type 0) : Type 0 where
  pub ring_buffer : List (ResourceItem A)
  pub write_pos : ℕ

-- `basefm.Fetcher`, without its cache and its FetchFn.
pub record Fetcher : Type 0 where
  pub fetch_from_tail_cache : Bool
  pub read_pos : ℕ

-- What other fetchers do between the read and the fill of a round: the items that they write to the
-- ring, and the database after it.
pub record Turn (D A : Type 0) : Type 0 where
  pub db : D
  pub wrote : List (ResourceItem A)

-- The items, the read position, and whether no gap was met.
abbrev pub Scanned : Type 0 → Type 0
Scanned A = Option (List (ResourceItem A) × ℕ × Bool)

abbrev pub Read : Type 0 → Type 0
Read A = Option (List (ResourceItem A) × ℕ × Fetcher)

abbrev pub Fetched : Type 0 → Type 0
Fetched A = Option (Answer A × Fetcher × Cache A)

-- The rounds from a position to the end, and one for the last test.
abbrev pub rounds : ℕ → ℕ → ℕ
rounds pos write_pos = suc (u64 (write_pos + 2 ^ 64 - pos))

module _ {A : Type 0} where
  abbrev pub prepend : ResourceItem A → Scanned A → Scanned A
  prepend x none = none
  prepend x (some (xs, pos, whole)) = some (x ∷ xs, pos, whole)

  abbrev pub scan_item : ℕ → ℕ → Option (ResourceItem A) → (ℕ → Scanned A) → Scanned A
  scan_item next gt none more = none
  scan_item next gt (some x) more =
      if ltb gt x.revision
      then (if eqb (u64 (gt + 1)) x.revision
          then prepend x (more x.revision)
          else some ([], next, false))
      else more gt

  -- The loop of memfm's Fetch, on fuel.
  unfoldable pub scan : ℕ → List (ResourceItem A) → ℕ → ℕ → ℕ → Scanned A
  scan zero ring write_pos pos gt = none
  scan (suc n) ring write_pos pos gt =
      let rest =
        scan_item (u64 (pos + 1)) gt (get_elem? ring (pos % length ring))
          (scan n ring write_pos (u64 (pos + 1))) in
      if eqb pos write_pos then some ([], pos, true) else rest

  abbrev pub read_of : Cache A → Fetcher → Scanned A → Read A
  read_of c f none = none
  read_of c f (some (items, pos, whole)) = some (
    items,
    c.write_pos,
    record f {
      fetch_from_tail_cache = if whole then f.fetch_from_tail_cache else false;
      read_pos = pos;
    },
  )

  unfoldable pub cache_fetch : Fetcher → Cache A → ℕ → Read A
  cache_fetch f c gt =
      read_of c f (scan (rounds f.read_pos c.write_pos) c.ring_buffer c.write_pos f.read_pos gt)

  unfoldable pub write_all : List (ResourceItem A) → Cache A → Cache A
  write_all [] c = c
  write_all (x ∷ xs) c = write_all xs (record c {
    ring_buffer = set c.ring_buffer (c.write_pos % length c.ring_buffer) x;
    write_pos = u64 (c.write_pos + 1);
  })

  -- What fits in the ring is written.
  unfoldable pub store : List (ResourceItem A) → Cache A → Cache A
  store items c = write_all (take (length c.ring_buffer) items) c

  abbrev pub stored : Answer A → Cache A → Option (Answer A) × Cache A
  stored (failed e) c = (some (failed e), c)
  stored (fetched items) c = (some (fetched items), store items c)

  -- `none` if another fetcher has filled the ring.
  unfoldable pub cache_fill : (ℕ → Answer A) → ℕ → ℕ → Cache A → Option (Answer A) × Cache A
  cache_fill fetch_fn gt expected c =
      if eqb expected c.write_pos then stored (fetch_fn gt) c else (none, c)

  -- An empty answer means that the tail is reached.
  abbrev pub at_tail : Answer A → Fetcher → Fetcher
  at_tail (failed e) f = f
  at_tail (fetched items) f =
      if is_empty items then record f { fetch_from_tail_cache = true } else f

  unfoldable pub from_db : (ℕ → Answer A) → ℕ → Fetcher → Cache A → Fetched A
  from_db fetch_fn gt f c = some (fetch_fn gt, at_tail (fetch_fn gt) f, c)

  abbrev pub on_read :
      Read A → Cache A → (Fetcher → Fetched A) → (ℕ → Fetcher → Fetched A) → Fetched A
  on_read none c behind fill = none
  on_read (some (x ∷ xs, pos, f)) c behind fill = some (fetched (x ∷ xs), f, c)
  on_read (some ([], pos, f)) c behind fill =
      if f.fetch_from_tail_cache then fill pos f else behind f

  abbrev pub on_fill : Option (Answer A) × Cache A → Fetcher → (Cache A → Fetched A) → Fetched A
  on_fill (some a, c) f again = some (a, f, c)
  on_fill (none, c) f again = again c

module _ {D A : Type 0} (fetch_fn : D → ℕ → Answer A) where
  -- The loop of basefm's Fetch; without turns nobody comes between.
  unfoldable pub fetch_tail : List (Turn D A) → D → Fetcher → Cache A → ℕ → Fetched A
  fetch_tail [] db f c gt =
      on_read (cache_fetch f c gt) c (λ f'. from_db (fetch_fn db) gt f' c)
        (λ pos f'. on_fill (cache_fill (fetch_fn db) gt pos c) f' (λ c'. none))
  fetch_tail (t ∷ ts) db f c gt =
      on_read (cache_fetch f c gt) c (λ f'. from_db (fetch_fn db) gt f' c)
        (λ pos f'.
          on_fill (cache_fill (fetch_fn t.db) gt pos (store t.wrote c)) f'
            (λ c'. fetch_tail ts t.db f' c' gt))

  unfoldable pub fetch : List (Turn D A) → D → Fetcher → Cache A → ℕ → Fetched A
  fetch turns db f c gt =
      if f.fetch_from_tail_cache then fetch_tail turns db f c gt else from_db (fetch_fn db) gt f c
