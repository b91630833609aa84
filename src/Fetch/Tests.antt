-- ===== src/Fetch/Tests.antt =====
-- internal/handlers/fetchmgr: a small ring and a small database, and the theorems at them.
use nexodus.Prelude.{
  ℕ, zero, suc, ◌+◌, ◌≡◌, refl, String, false, none, some, List, [], ◌∷◌, ltb, if◌then◌else◌, inl,
  inr, arith, Bool-cases,
}
use mathlib.Core.Path.{subst}
use nexodus.Fetch.{
  ResourceItem, Answer, failed, fetched, Cache, Fetcher, Turn, Fetched, scan, cache_fetch,
  write_all, store, cache_fill, from_db, fetch_tail, fetch,
}
use nexodus.Fetch.Complete.{IsAscending, Covers, IsOrdered, IsComplete, fetch-IsComplete}
use nexodus.Fetch.Stocked.{IsServed, fetch-IsServed}
use nexodus.Fetch.Tokens.{DeviceRow, hide_device_bearer_token, device_item, ready, token_of_first}

abbrev row : ℕ → ResourceItem String
row n = record { item = some "device"; id = "d"; revision = n; deleted = false }

abbrev slot : ResourceItem String
slot = record { item = none; id = ""; revision = 0; deleted = false }

-- The database is its last revision; the query answers one row.
abbrev one_row : ℕ → ℕ → Answer String
one_row last gt = if ltb gt last then fetched (row (gt + 1) ∷ []) else fetched []

abbrev rows_to : ℕ → List (ResourceItem String)
rows_to zero = []
rows_to (suc n) = row (suc n) ∷ rows_to n

abbrev ring : Cache String
ring = record { ring_buffer = slot ∷ slot ∷ []; write_pos = 5 }

-- Another fetcher wrote row 8 and 9 between this one's read and its fill.
abbrev turn : Turn ℕ String
turn = record { db = 9; wrote = row 8 ∷ row 9 ∷ [] }

fetch_after_turn :
    fetch one_row (turn ∷ []) 9 (ready 5) ring 7
    ≡ some (
      fetched (row 8 ∷ row 9 ∷ []),
      ready 7,
      record { ring_buffer = row 9 ∷ row 8 ∷ []; write_pos = 7 },
    )
unfolding fetch fetch_tail cache_fetch scan cache_fill store write_all from_db
fetch_after_turn = refl

fetch_behind :
    fetch one_row [] 9 (ready 5) (record { ring_buffer = row 9 ∷ row 8 ∷ []; write_pos = 7 }) 6
    ≡ some (
      fetched (row 7 ∷ []),
      record { fetch_from_tail_cache = false; read_pos = 6 },
      record { ring_buffer = row 9 ∷ row 8 ∷ []; write_pos = 7 },
    )
unfolding fetch fetch_tail cache_fetch scan cache_fill store write_all from_db
fetch_behind = refl

Covers-nil : (rows : List (ResourceItem String)) (gt : ℕ) → Covers rows gt []
Covers-nil [] gt = tt
Covers-nil (r ∷ rows) gt = (λ lo hi. absurd (omega arith), Covers-nil rows gt)

Covers-row : (rows : List (ResourceItem String)) (gt : ℕ) → Covers rows gt (row (gt + 1) ∷ [])
Covers-row [] gt = tt
Covers-row (r ∷ rows) gt = (λ lo hi. (row (gt + 1), inl refl, omega arith), Covers-row rows gt)

abbrev IsOrderedAnswer : ℕ → ℕ → Answer String → Type 0
IsOrderedAnswer d gt (failed e) = Unit
IsOrderedAnswer d gt (fetched items) = IsAscending gt items × Covers (rows_to d) gt items

one_row-IsOrderedAnswer : (d gt : ℕ) → IsOrderedAnswer d gt (one_row d gt)
one_row-IsOrderedAnswer d gt = elim (Bool-cases (ltb gt d)) [
  | inl more ↦ rw more ((omega arith, tt), Covers-row (rows_to d) gt)
  | inr end ↦ rw end (tt, Covers-nil (rows_to d) gt)
]

one_row-IsOrdered : IsOrdered one_row rows_to
one_row-IsOrdered d gt items h = subst (IsOrderedAnswer d gt) h (one_row-IsOrderedAnswer d gt)

fetch-IsComplete_example :
    IsComplete one_row rows_to (9 ∷ 9 ∷ []) 7 (fetch one_row (turn ∷ []) 9 (ready 5) ring 7)
fetch-IsComplete_example =
    fetch-IsComplete one_row rows_to (turn ∷ []) 9 (ready 5) ring 7 one_row-IsOrdered
      (omega arith, omega arith) (omega arith)

-- Every row is the device "d".
abbrev IsRow : ResourceItem String → Type 0
IsRow x = x.id ≡ "d"

one_row_from : (d gt : ℕ) → nexodus.Fetch.Stocked.AllFrom IsRow (one_row d gt)
one_row_from d gt = elim (Bool-cases (ltb gt d)) [
  | inl more ↦ rw more (refl, tt)
  | inr end ↦ rw end tt
]

fetch-IsServed_example : IsServed IsRow (fetch one_row (turn ∷ []) 9 (ready 5) ring 7)
fetch-IsServed_example =
    fetch-IsServed one_row IsRow one_row_from (turn ∷ []) 9 (ready 5) ring 7
      (omega arith, omega arith) (omega arith) (inl refl, (inl refl, tt))
      ((tt, (refl, (refl, tt))), tt)

abbrev laptop : DeviceRow
laptop = record {
  id = "d";
  reg_key_id = "k";
  owner_id = "ann";
  public_key = "pub";
  bearer_token = "DT:1";
}

abbrev plain : String → String → String
plain token key = token

abbrev query : (DeviceRow → DeviceRow) → ℕ → ℕ → Answer DeviceRow
query hide db gt = fetched (device_item hide (gt + 1) laptop ∷ [])

abbrev devices : Cache DeviceRow
devices = record {
  ring_buffer = record { item = none; id = ""; revision = 0; deleted = false } ∷ [];
  write_pos = 0;
}

-- Ann's device, first fetched for Bob: Ann's watch gets it without the token.
token_of_first_example :
    (f : Fetcher) × (c' : Cache DeviceRow) × (f' : Fetcher) × (c'' : Cache DeviceRow) × (fetch
        (query (hide_device_bearer_token plain none "bob"))
        []
        0
        (ready 0)
        devices
        3
      ≡ some
          (fetched (device_item (hide_device_bearer_token plain none "bob") 4 laptop ∷ []), f, c'))
    × (fetch (query (hide_device_bearer_token plain none "ann")) [] 0 (ready 0) c' 3
        ≡ some (
          fetched (device_item (hide_device_bearer_token plain none "bob") 4 laptop ∷ []),
          f',
          c'',
        ))
token_of_first_example =
    token_of_first plain (query (hide_device_bearer_token plain none "bob"))
      (query (hide_device_bearer_token plain none "ann")) 0 0 devices 3 laptop none "bob"
      (omega arith, omega arith) (omega arith) refl
