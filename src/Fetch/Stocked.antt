-- ===== src/Fetch/Stocked.antt =====
-- internal/handlers/fetchmgr: what is in the ring, and what Fetch returns, was once an answer.
use nexodus.Prelude.{
  ℕ, zero, suc, ◌%◌, ◌^◌, ◌<◌, ◌≡◌, ◌⊎◌, inl, inr, none, some, List, [], ◌∷◌, length, set, take, In,
  Every, arith,
}
use nexodus.Fetch.{
  ResourceItem, Answer, failed, fetched, Cache, Fetcher, Turn, Fetched, write_all, store, fetch,
}
use nexodus.Fetch.Scan.{IsRun}
use nexodus.Fetch.Ring.{IsSound}
use nexodus.Fetch.Rule.{Rule, fetch_rule}

module _ {A : Type 0} (P : A → Type 0) where
  Every-set : (xs : List A) (i : ℕ) (v : A) → Every xs P → P v → Every (set xs i v) P
  Every-set [] i v h p = tt
  Every-set (x ∷ xs) zero v (q, h) p = (p, h)
  Every-set (x ∷ xs) (suc i) v (q, h) p = (q, Every-set xs i v h p)

  Every-take : (n : ℕ) (xs : List A) → Every xs P → Every (take n xs) P
  Every-take zero xs h = tt
  Every-take (suc n) [] h = tt
  Every-take (suc n) (x ∷ xs) (p, h) = (p, Every-take n xs h)

  Every-In : (xs : List A) (x : A) → Every xs P → In x xs → P x
  Every-In (y ∷ ys) x (p, h) (inl e) = rw e p
  Every-In (y ∷ ys) x (p, h) (inr i) = Every-In ys x h i
  Every-In [] x h i = elim i [ ]

module _ {A : Type 0} (P : ResourceItem A → Type 0) where
  -- A slot that was written. No row has the revision 0.
  abbrev pub IsSlot : ResourceItem A → Type 0
  IsSlot x = (x.revision ≡ 0) ⊎ P x

  abbrev pub IsStocked : Cache A → Type 0
  IsStocked c = Every c.ring_buffer IsSlot

  slots : (xs : List (ResourceItem A)) → Every xs P → Every xs IsSlot
  slots [] h = tt
  slots (x ∷ xs) (p, h) = (inr p, slots xs h)

  write_all-IsStocked :
      (xs : List (ResourceItem A)) (c : Cache A)
      → IsStocked c
      → Every xs IsSlot
      → IsStocked (write_all xs c)
  unfolding write_all
  write_all-IsStocked [] c h ps = h
  write_all-IsStocked (x ∷ xs) c h (p, ps) =
      write_all-IsStocked xs _
        (Every-set IsSlot c.ring_buffer (c.write_pos % length c.ring_buffer) x h p) ps

  store-IsStocked :
      (xs : List (ResourceItem A)) (c : Cache A) → IsStocked c → Every xs P → IsStocked (store xs c)
  unfolding store
  store-IsStocked xs c h ps =
      write_all-IsStocked (take (length c.ring_buffer) xs) c h
        (Every-take IsSlot (length c.ring_buffer) xs (slots xs ps))

  run-Every :
      (items ring : List (ResourceItem A)) (gt : ℕ)
      → IsRun gt items
      → Every items (λ x. In x ring)
      → Every ring IsSlot
      → Every items P
  run-Every [] ring gt run known h = tt
  run-Every (x ∷ xs) ring gt (e, run) (i, known) h = (
    elim (Every-In IsSlot ring x h i) [ inl z ↦ absurd (omega arith) | inr p ↦ p ],
    run-Every xs ring x.revision run known h,
  )

  abbrev pub AllFrom : Answer A → Type 0
  AllFrom (failed e) = Unit
  AllFrom (fetched items) = Every items P

  -- The items returned, and those of the ring, satisfy `P`.
  abbrev pub IsServed : Fetched A → Type 0
  IsServed none = ⊥
  IsServed (some (a, f, c)) = AllFrom a × IsStocked c

module _ {D A : Type 0} (fetch_fn : D → ℕ → Answer A) (P : ResourceItem A → Type 0) where
  module _ (answers : (d : D) (gt : ℕ) → AllFrom P (fetch_fn d gt)) where
    abbrev stocked_rule : (gt : ℕ) → Rule fetch_fn gt
    stocked_rule gt = record {
      Kept = IsStocked P;
      Seen = λ d. Unit;
      Fair = λ t. Every t.wrote P;
      Good = IsServed P;
      others = λ t c s fair k. store-IsStocked P t.wrote c k fair;
      run = λ x xs f c k run known. (run-Every P (x ∷ xs) c.ring_buffer gt run known k, k);
      db = λ d f c s k. (answers d gt, k);
      fill_failed = λ d e f c s k h. (tt, k);
      fill = λ d items f c s k h.
          let all : Every items P = rw h at (answers d gt) in
          (all, store-IsStocked P items c k all);
    }

    -- If each item of every answer satisfies a predicate, and so do those that other fetchers
    -- write and those in the slots of the ring that were written, then the items that Fetch
    -- returns and the slots after it satisfy it: nothing else is served.
    pub fetch-IsServed :
        (turns : List (Turn D A)) (db : D) (f : Fetcher) (c : Cache A) (gt : ℕ)
        → IsSound c
        → f.read_pos < 2 ^ 64
        → IsStocked P c
        → Every turns (λ t. Unit {0} × Every t.wrote P)
        → IsServed P (fetch fetch_fn turns db f c gt)
    fetch-IsServed turns db f c gt sound bound kept fair =
        fetch_rule fetch_fn gt (stocked_rule gt) turns db f c sound bound kept tt fair
