-- ===== src/Fetch/Answered.antt =====
-- internal/handlers/fetchmgr/basefm: where what Fetch returns comes from.
use nexodus.Prelude.{
  ℕ, ◌^◌, ◌<◌, ◌≡◌, refl, ◌⊎◌, inl, inr, none, some, List, [], ◌∷◌, map, In, Every,
}
use nexodus.Fetch.{ResourceItem, Answer, fetched, Cache, Fetcher, Turn, Fetched, fetch}
use nexodus.Fetch.Scan.{IsRun}
use nexodus.Fetch.Ring.{IsSound}
use nexodus.Fetch.Rule.{Rule, fetch_rule}

module _ {D A : Type 0} where
  -- The databases that a call may see.
  abbrev pub seen : List (Turn D A) → D → List D
  seen turns db = db ∷ map (λ t. t.db) turns

  turns-In :
      (turns : List (Turn D A)) (dbs : List D)
      → ((d : D) → In d (map (λ t. t.db) turns) → In d dbs)
      → Every turns (λ t. In t.db dbs × Unit {0})
  turns-In [] dbs h = tt
  turns-In (t ∷ ts) dbs h = ((h t.db (inl refl), tt), turns-In ts dbs (λ d i. h d (inr i)))

module _ {D A : Type 0} (fetch_fn : D → ℕ → Answer A) where
  -- The answer is the FetchFn's at one of the databases, or a run of revisions that is not empty.
  abbrev pub IsAnswered : List D → ℕ → Fetched A → Type 0
  IsAnswered dbs gt none = ⊥
  IsAnswered dbs gt (some (a, f, c)) =
      ((d : D) × In d dbs × (fetch_fn d gt ≡ a))
      ⊎ ((x : ResourceItem A) × (xs : List (ResourceItem A)) × (a ≡ fetched (x ∷ xs))
          × IsRun gt (x ∷ xs))

  abbrev answered_rule : List D → (gt : ℕ) → Rule fetch_fn gt
  answered_rule dbs gt = record {
    Kept = λ c. Unit;
    Seen = λ d. In d dbs;
    Fair = λ t. Unit;
    Good = IsAnswered dbs gt;
    others = λ t c s h k. tt;
    run = λ x xs f c k run known. inr (x, xs, refl, run);
    db = λ d f c s k. inl (d, s, refl);
    fill_failed = λ d e f c s k h. inl (d, s, h);
    fill = λ d items f c s k h. inl (d, s, h);
  }

  -- For any ring with a slot and positions that are uint64, and any turns of other fetchers,
  -- Fetch ends without a panic, and returns what the FetchFn answers at a database of the call,
  -- or a list of items that is not empty whose revisions follow one another from the one after
  -- the revision asked for.
  pub fetch-IsAnswered :
      (turns : List (Turn D A)) (db : D) (f : Fetcher) (c : Cache A) (gt : ℕ)
      → IsSound c
      → f.read_pos < 2 ^ 64
      → IsAnswered (seen turns db) gt (fetch fetch_fn turns db f c gt)
  fetch-IsAnswered turns db f c gt sound bound =
      fetch_rule fetch_fn gt (answered_rule (seen turns db) gt) turns db f c sound bound tt
        (inl refl) (turns-In turns (seen turns db) (λ d i. inr i))
