-- ===== src/Fetch/Rule.antt =====
-- internal/handlers/fetchmgr/basefm: the rule of Fetch, for what holds of all that it can return.
use mathlib.Core.Path.{subst}
use nexodus.Prelude.{
  ℕ, String, ◌^◌, ◌<◌, ◌≡◌, refl, sym, inl, inr, none, some, List, [], ◌∷◌, if◌then◌else◌,
  Bool-cases, In, Every, arith,
}
use nexodus.Fetch.{
  ResourceItem, Answer, failed, fetched, Cache, Fetcher, Turn, Read, Fetched, store, stored,
  cache_fetch, from_db, on_read, on_fill, fetch_tail, fetch,
}
use nexodus.Fetch.Scan.{IsRun}
use nexodus.Fetch.Ring.{
  IsSound, IsRead, store-IsSound, cache_fetch-IsRead, cache_fill-first, cache_fill-cases,
}

-- `Kept` is an invariant of the ring, `Seen` and `Fair` say of which databases and turns a call is.
pub record Rule {D A : Type 0} (fetch_fn : D → ℕ → Answer A) (gt : ℕ) : Type 1 where
  pub Kept : Cache A → Type 0
  pub Seen : D → Type 0
  pub Fair : Turn D A → Type 0
  pub Good : Fetched A → Type 0
  pub others : (t : Turn D A) (c : Cache A) → Seen t.db → Fair t → Kept c → Kept (store t.wrote c)
  pub run :
      (x : ResourceItem A) (xs : List (ResourceItem A)) (f : Fetcher) (c : Cache A)
      → Kept c
      → IsRun gt (x ∷ xs)
      → Every (x ∷ xs) (λ y. In y c.ring_buffer)
      → Good (some (fetched (x ∷ xs), f, c))
  pub db : (d : D) (f : Fetcher) (c : Cache A) → Seen d → Kept c → Good (some (fetch_fn d gt, f, c))
  pub fill_failed :
      (d : D) (e : String) (f : Fetcher) (c : Cache A)
      → Seen d
      → Kept c
      → fetch_fn d gt ≡ failed e
      → Good (some (failed e, f, c))
  pub fill :
      (d : D) (items : List (ResourceItem A)) (f : Fetcher) (c : Cache A)
      → Seen d
      → Kept c
      → fetch_fn d gt ≡ fetched items
      → Good (some (fetched items, f, store items c))

module _ {D A : Type 0} (fetch_fn : D → ℕ → Answer A) (gt : ℕ) (r : Rule fetch_fn gt) where
  stored_rule :
      (d : D) (a : Answer A) (f : Fetcher) (c : Cache A) (again : Cache A → Fetched A)
      → r.Seen d
      → r.Kept c
      → fetch_fn d gt ≡ a
      → r.Good (on_fill (stored a c) f again)
  stored_rule d (failed e) f c again s k h = r.fill_failed d e f c s k h
  stored_rule d (fetched items) f c again s k h = r.fill d items f c s k h

  from_db_rule :
      (d : D) (f : Fetcher) (c : Cache A)
      → r.Seen d
      → r.Kept c
      → r.Good (from_db (fetch_fn d) gt f c)
  unfolding from_db
  from_db_rule d f c s k = r.db d _ c s k

  on_read_rule :
      (f : Fetcher) (c : Cache A) (o : Read A) (behind : Fetcher → Fetched A)
      (fill : ℕ → Fetcher → Fetched A)
      → IsRead f c gt o
      → r.Kept c
      → ((f' : Fetcher) → r.Good (behind f'))
      → ((pos : ℕ) (f' : Fetcher)
          → pos ≡ c.write_pos
          → f'.read_pos ≡ c.write_pos
          → r.Good (fill pos f'))
      → r.Good (on_read o c behind fill)
  on_read_rule f c none behind fill h k b l = absurd h
  on_read_rule f c (some (x ∷ xs, pos, f')) behind fill (run, known, at, whole) k b l =
      r.run x xs f' c k run known
  on_read_rule f c (some ([], pos, f')) behind fill (run, known, at, whole) k b l =
      elim (Bool-cases f'.fetch_from_tail_cache) [
        | inl t ↦
            subst (λ z. r.Good (if z then fill pos f' else behind f')) (sym t)
              (l pos f' at (whole t))
        | inr t ↦ subst (λ z. r.Good (if z then fill pos f' else behind f')) (sym t) (b f')
      ]

  fetch_tail_rule :
      (turns : List (Turn D A)) (d : D) (f : Fetcher) (c : Cache A)
      → IsSound c
      → f.read_pos < 2 ^ 64
      → r.Kept c
      → r.Seen d
      → Every turns (λ t. r.Seen t.db × r.Fair t)
      → r.Good (fetch_tail fetch_fn turns d f c gt)
  unfolding fetch_tail
  fetch_tail_rule [] d f c sound bound kept s fair =
      on_read_rule f c (cache_fetch f c gt) _ _ (cache_fetch-IsRead f c gt sound bound) kept
        (λ f'. from_db_rule d f' c s kept)
        (λ pos f' at p.
          rw (cache_fill-first (fetch_fn d) gt pos c at)
            (stored_rule d (fetch_fn d gt) f' c (λ c'. none) s kept refl))
  fetch_tail_rule (t ∷ ts) d f c sound bound kept s ((s', fair_t), fair) =
      let kept' : r.Kept (store t.wrote c) = r.others t c s' fair_t kept in
      on_read_rule f c (cache_fetch f c gt) _ _ (cache_fetch-IsRead f c gt sound bound) kept
        (λ f'. from_db_rule d f' c s kept)
        (λ pos f' at p. elim (cache_fill-cases (fetch_fn t.db) gt pos (store t.wrote c)) [
          | inl e ↦ rw e (stored_rule t.db (fetch_fn t.db gt) f' (store t.wrote c) _ s' kept' refl)
          | inr e ↦ rw e (
              fetch_tail_rule ts t.db f' (store t.wrote c) (store-IsSound t.wrote c sound)
                (omega (arith, p, sound.1)) kept' s' fair)
        ])

  pub fetch_rule :
      (turns : List (Turn D A)) (d : D) (f : Fetcher) (c : Cache A)
      → IsSound c
      → f.read_pos < 2 ^ 64
      → r.Kept c
      → r.Seen d
      → Every turns (λ t. r.Seen t.db × r.Fair t)
      → r.Good (fetch fetch_fn turns d f c gt)
  unfolding fetch
  fetch_rule turns d f c sound bound kept s fair = elim (Bool-cases f.fetch_from_tail_cache) [
    | inl t ↦
        subst
          (λ z.
            r.Good (if z then fetch_tail fetch_fn turns d f c gt else from_db (fetch_fn d) gt f c))
          (sym t) (fetch_tail_rule turns d f c sound bound kept s fair)
    | inr t ↦
        subst
          (λ z.
            r.Good (if z then fetch_tail fetch_fn turns d f c gt else from_db (fetch_fn d) gt f c))
          (sym t) (from_db_rule d f c s kept)
  ]
