-- ===== src/Watch/Broken.antt =====
-- internal/handlers/events.go: an error in a watch, and the deletions that are not sent.
use mathlib.Core.Path.{subst}
use nexodus.Prelude.{
  ℕ, suc, ◌+◌, ◌<◌, ◌≡◌, refl, sym, String, true, false, Option, none, some, List, [], ◌∷◌, ◌++◌,
  length, length-append, string_eq, ◌⊎◌, inl, inr, arith,
}
use nexodus.Prelude.Maps.{Map, lookup}
use nexodus.Fetch.{ResourceItem, fetched}
use nexodus.Watch.{
  error, WatchState, Visit, quiet, idle, broken, new_state, deliver, refill, visit, event_of, serve,
  delete_from, Pass, dropped, pass,
}
use nexodus.Watch.Client.{client}

module _ {A : Type 0} where
  -- The visits of a walk that return no event.
  abbrev pub IsCalm : (ℕ → Visit A) → ℕ → List (WatchState A) → Type 0
  IsCalm visits i [] = Unit
  IsCalm visits i (st ∷ sts) =
      (((visit (visits i) st).1 ≡ quiet) ⊎ ((visit (visits i) st).1 ≡ idle))
      × IsCalm visits (suc i) sts

  -- An error at an index is an event up to the second watch, and a panic from the third on.
  abbrev pub IsBroken : ℕ → String → Pass A → Type 0
  IsBroken i e none = 1 < i
  IsBroken i e (some (sts, event, n)) = (i < 2) × (event ≡ some (error e))

  dropped-IsBroken :
      (i n : ℕ) (e : String) (st : WatchState A) (before after : List (WatchState A))
      → length before ≡ i
      → IsBroken i e (dropped (delete_from (length before) (before ++ st ∷ after)) e n)
  unfolding delete_from
  dropped-IsBroken i n e st [] after h = (omega arith, refl)
  dropped-IsBroken i n e st (b ∷ []) after h = (omega arith, refl)
  dropped-IsBroken i n e st (b ∷ c ∷ bs) after h = omega arith

  broken_here :
      (visits : ℕ → Visit A) (after before : List (WatchState A)) (bad : WatchState A) (e : String)
      (n : ℕ)
      → (visit (visits (length before)) bad).1 ≡ broken e
      → IsBroken (length before) e (pass visits before (bad ∷ after) n)
  unfolding pass
  broken_here visits after before bad e n b = rw b (
      dropped-IsBroken (length before) n e (visit (visits (length before)) bad).0 before after refl)

  pass-calm :
      (visits : ℕ → Visit A) (st : WatchState A) (after before : List (WatchState A)) (n : ℕ)
      → ((visit (visits (length before)) st).1 ≡ quiet)
        ⊎ ((visit (visits (length before)) st).1 ≡ idle)
      → (k : ℕ) × (pass visits before (st ∷ after) n
          ≡ pass visits (before ++ (visit (visits (length before)) st).0 ∷ []) after k)
  unfolding pass
  pass-calm visits st after before n (inl q) = (n, rw q refl)
  pass-calm visits st after before n (inr q) = (n + 1, rw q refl)

  -- The walk from a place in the list: calm visits, and then one that fails.
  walk-IsBroken :
      (visits : ℕ → Visit A) (calm after : List (WatchState A)) (bad : WatchState A) (e : String)
      (before : List (WatchState A)) (j n : ℕ)
      → j ≡ length before + length calm
      → IsCalm visits (length before) calm
      → (visit (visits j) bad).1 ≡ broken e
      → IsBroken j e (pass visits before (calm ++ bad ∷ after) n)
  walk-IsBroken visits [] after bad e before j n h c b =
      let here : j ≡ length before = omega arith in
      subst (λ z. IsBroken z e (pass visits before (bad ∷ after) n)) (sym here)
        (broken_here visits after before bad e n
          (subst (λ z. (visit (visits z) bad).1 ≡ broken e) here b))
  walk-IsBroken visits (st ∷ calm) after bad e before j n h (c, cs) b =
      let (k, next) = pass-calm visits st (calm ++ bad ∷ after) before n c in
      let before' = before ++ (visit (visits (length before)) st).0 ∷ [] in
      let size : length before' ≡ suc (length before) =
        omega (arith, length-append before ((visit (visits (length before)) st).0 ∷ [])) in
      subst (IsBroken j e) (sym next) (
        walk-IsBroken visits calm after bad e before' j k (omega (arith, h, size))
          (subst (λ z. IsCalm visits z calm) (sym size) cs) b)

  -- In a walk over the watches in which the visits before return no event and the next one's
  -- fetch fails, the walk returns an error event with that error if the watch is the first or
  -- second, and panics if it is a later one.
  pub pass-IsBroken :
      (visits : ℕ → Visit A) (calm after : List (WatchState A)) (bad : WatchState A) (e : String)
      (n : ℕ)
      → IsCalm visits 0 calm
      → (visit (visits (length calm)) bad).1 ≡ broken e
      → IsBroken (length calm) e (pass visits [] (calm ++ bad ∷ after) n)
  pass-IsBroken visits calm after bad e n c b =
      walk-IsBroken visits calm after bad e [] (length calm) n (omega arith) c b

  -- A watch that is resumed before its tail.
  resumed_visit :
      (v : Visit A) (kind : String) (gt : ℕ) (x : ResourceItem A) (xs : List (ResourceItem A))
      → v.fetch gt ≡ fetched (x ∷ xs)
      → visit v (new_state kind gt false)
        ≡ (record (new_state kind gt false) { items = some (x ∷ xs); idx = 0 }, quiet)
  unfolding visit refill new_state
  resumed_visit v kind gt x xs f = rw f refl

  unsent_visit :
      (v : Visit A) (kind : String) (gt : ℕ) (x : ResourceItem A) (xs : List (ResourceItem A))
      → x.deleted ≡ true
      → event_of (visit v (record (new_state kind gt false) { items = some (x ∷ xs); idx = 0 })).1
        ≡ []
  unfolding visit deliver new_state
  unsent_visit v kind gt x xs d = rw d refl

module _ {A : Type 0} (key : Option A → String) where
  -- A watch that starts again before its tail, from a revision that the client has, and whose
  -- first row is a deletion, returns no event for it: a client that had the item still has it.
  pub resumed_delete :
      (v v' : Visit A) (kind : String) (gt : ℕ) (x : ResourceItem A) (xs : List (ResourceItem A))
      (m : Map String (Option A)) (old : Option A)
      → v.fetch gt ≡ fetched (x ∷ xs)
      → x.deleted ≡ true
      → lookup x.id m ≡ some old
      → lookup x.id (client key (serve (v ∷ v' ∷ []) (new_state kind gt false)).1 m) ≡ some old
  unfolding serve
  resumed_delete v v' kind gt x xs m old f d h =
      rw (resumed_visit v kind gt x xs f) (rw (unsent_visit v' kind gt x xs d) h)
