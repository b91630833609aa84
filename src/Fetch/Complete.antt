-- ===== src/Fetch/Complete.antt =====
-- internal/handlers/fetchmgr/basefm: Fetch leaves out no row of the database.
use nexodus.Prelude.{
  ℕ, ◌^◌, ◌<◌, ◌≤◌, ◌≡◌, refl, sym, inl, inr, none, some, List, [], ◌∷◌, In, Every, arith,
}
use mathlib.Core.Path.{subst}
use native.Mathlib.Decide.{ℕ_discrete}
use nexodus.Fetch.{ResourceItem, Answer, failed, fetched, Cache, Fetcher, Turn, Fetched, fetch}
use nexodus.Fetch.Scan.{IsRun}
use nexodus.Fetch.Ring.{IsSound}
use nexodus.Fetch.Answered.{IsAnswered, seen, fetch-IsAnswered}

module _ {A : Type 0} where
  abbrev pub IsAscending : ℕ → List (ResourceItem A) → Type 0
  IsAscending gt [] = Unit
  IsAscending gt (x ∷ xs) = (gt < x.revision) × IsAscending x.revision xs

  abbrev pub last_revision : ℕ → List (ResourceItem A) → ℕ
  last_revision gt [] = gt
  last_revision gt (x ∷ xs) = last_revision x.revision xs

  -- A row newer than `gt`, and not newer than the last of the items, is among them.
  abbrev pub Covers : List (ResourceItem A) → ℕ → List (ResourceItem A) → Type 0
  Covers rows gt items = Every rows (λ r.
      gt < r.revision
      → r.revision ≤ last_revision gt items
      → (x : ResourceItem A) × In x items × (x.revision ≡ r.revision))

  abbrev IsRunOf : ℕ → Answer A → Type 0
  IsRunOf gt (failed e) = Unit
  IsRunOf gt (fetched items) = IsRun gt items

  IsRun-In :
      (items : List (ResourceItem A)) (gt n : ℕ)
      → IsRun gt items
      → gt < n
      → n ≤ last_revision gt items
      → (x : ResourceItem A) × In x items × (x.revision ≡ n)
  IsRun-In [] gt n run lo hi = absurd (omega arith)
  IsRun-In (x ∷ xs) gt n (e, run) lo hi = elim (ℕ_discrete x.revision n) [
    | yes h ↦ (x, inl refl, h)
    | no h ↦ (let (y, i, same) = IsRun-In xs x.revision n run (omega arith) hi in (y, inr i, same))
  ]

  IsRun-IsAscending :
      (items : List (ResourceItem A)) (gt : ℕ) → IsRun gt items → IsAscending gt items
  IsRun-IsAscending [] gt run = tt
  IsRun-IsAscending (x ∷ xs) gt (e, run) = (omega arith, IsRun-IsAscending xs x.revision run)

  IsRun-Covers :
      (rows items : List (ResourceItem A)) (gt : ℕ) → IsRun gt items → Covers rows gt items
  IsRun-Covers [] items gt run = tt
  IsRun-Covers (r ∷ rows) items gt run =
      (λ lo hi. IsRun-In items gt r.revision run lo hi, IsRun-Covers rows items gt run)

module _ {D A : Type 0} (fetch_fn : D → ℕ → Answer A) (rows : D → List (ResourceItem A)) where
  -- What a query that is ordered by revision, with a limit, returns.
  abbrev pub IsOrdered : Type 0
  IsOrdered =
      (d : D) (gt : ℕ) (items : List (ResourceItem A))
      → fetch_fn d gt ≡ fetched items
      → IsAscending gt items × Covers (rows d) gt items

  -- The list ascends and covers the rows of a database of the call; it is empty only if the query's
  -- answer there is, and an error is the query's.
  abbrev pub IsComplete : List D → ℕ → Fetched A → Type 0
  IsComplete dbs gt none = ⊥
  IsComplete dbs gt (some (failed e, f, c)) = (d : D) × In d dbs × (fetch_fn d gt ≡ failed e)
  IsComplete dbs gt (some (fetched items, f, c)) =
      (d : D) × In d dbs
      × IsAscending gt items
      × Covers (rows d) gt items
      × (items ≡ [] → fetch_fn d gt ≡ fetched [])

  IsAnswered-IsComplete :
      (db : D) (dbs : List D) (gt : ℕ) (o : Fetched A)
      → IsOrdered
      → IsAnswered fetch_fn (db ∷ dbs) gt o
      → IsComplete (db ∷ dbs) gt o
  IsAnswered-IsComplete db dbs gt none ord h = h
  IsAnswered-IsComplete db dbs gt (some (failed e, f, c)) ord (inl h) = h
  IsAnswered-IsComplete db dbs gt (some (failed e, f, c)) ord (inr (x, xs, same, run)) =
      absurd (ground arith)
  IsAnswered-IsComplete db dbs gt (some (fetched items, f, c)) ord (inl (d, i, e)) =
      (d, i, (ord d gt items e).0, (ord d gt items e).1, λ h. cc)
  IsAnswered-IsComplete db dbs gt (some (fetched [], f, c)) ord (inr (x, xs, same, run)) =
      absurd (ground arith)
  IsAnswered-IsComplete db dbs gt (some (fetched (y ∷ ys), f, c)) ord (inr (x, xs, same, run)) =
      let run' : IsRun gt (y ∷ ys) = subst (IsRunOf gt) (sym same) run in
      (
        db,
        inl refl,
        IsRun-IsAscending (y ∷ ys) gt run',
        IsRun-Covers (rows db) (y ∷ ys) gt run',
        λ h. cc,
      )

  -- If the FetchFn answers as a query does that is ordered by revision with a limit, then
  -- whatever other fetchers write between the rounds, and for any ring with a slot and positions
  -- that are uint64, Fetch ends without a panic; an error is the query's, and a list ascends from
  -- the revision asked for and leaves out no row of one of the databases of the call up to its
  -- last revision; it is empty only if the query's answer there is.
  pub fetch-IsComplete :
      (turns : List (Turn D A)) (db : D) (f : Fetcher) (c : Cache A) (gt : ℕ)
      → IsOrdered
      → IsSound c
      → f.read_pos < 2 ^ 64
      → IsComplete (seen turns db) gt (fetch fetch_fn turns db f c gt)
  fetch-IsComplete turns db f c gt ord sound bound =
      IsAnswered-IsComplete db _ gt _ ord (fetch-IsAnswered fetch_fn turns db f c gt sound bound)
