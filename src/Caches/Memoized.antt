-- ===== src/Caches/Memoized.antt =====
-- internal/util/cache/memoize.go: where a memoized result comes from, and how old it is.
use mathlib.Core.Path.{subst}
use nexodus.Prelude.{
  ℕ, ◌+◌, ◌≤◌, ◌≡◌, refl, sym, ap, ◌∙◌, ◌⊎◌, inl, inr, String, Option, none, some, List, [], ◌∷◌,
  ltb, Comparable, ◌==◌, arith, In, Option-cases, Bool-cases, eq_of_some,
}
use nexodus.Prelude.Maps.{Map, lookup, insert, lookup-insert}
use nexodus.Caches.{
  Entry, MemoizeResult, alive, rw_get, rw_put, ttl_get, put_with_ttl, ttl_of,
  memoize_can_err_with_ttl,
}

-- A call of the method: the times that the clock shows, the arguments, and what the function would
-- return.
pub record Request (K V : Type 0) : Type 0 where
  pub key : K
  pub now : ℕ
  pub called : ℕ
  pub later : ℕ
  pub ttl : ℕ
  pub error_ttl : ℕ
  pub f : MemoizeResult V

module _ {K V : Type 0} ⦃keys : Comparable K⦄ where
  abbrev pub memoize :
      Request K V
      → Map K (Entry (MemoizeResult V))
      → MemoizeResult V × Map K (Entry (MemoizeResult V))
  memoize q entries =
      memoize_can_err_with_ttl q.now q.called q.later q.key q.ttl q.error_ttl q.f entries

module _ {K V : Type 0} where
  -- Until when the result of a request may be handed out: a value for `ttl` after the function has
  -- returned, an error for `error_ttl`.
  abbrev deadline_for : Option String → Request K V → ℕ
  deadline_for none q = q.called + q.ttl
  deadline_for (some e) q = q.called + q.error_ttl

  abbrev pub deadline : Request K V → ℕ
  deadline q = deadline_for q.f.err q

  ttl_of-deadline :
      (err : Option String) (q : Request K V)
      → q.called + ttl_of err q.error_ttl q.ttl ≡ deadline_for err q
  ttl_of-deadline none q = refl
  ttl_of-deadline (some e) q = refl

alive_inv :
    {V : Type 0} (now : ℕ) (o : Option (Entry V)) (r : V)
    → alive now o ≡ some r
    → (e : Entry V) × (o ≡ some e) × (e.value ≡ r) × (now ≤ e.expires_at)
alive_inv now none r h = absurd (ground arith)
alive_inv now (some e) r h = elim (Bool-cases (ltb e.expires_at now)) [
  | inl x ↦ absurd (ground arith)
  | inr x ↦ (e, refl, eq_of_some (sym (rw x refl) ∙ h), ground arith)
]

module _ {K V : Type 0} ⦃keys : Comparable K⦄ where
  -- The entry holds what the function returned for one of the requests, until its time.
  abbrev IsFrom : List (Request K V) → K → Entry (MemoizeResult V) → Type 0
  IsFrom past k e =
      (q : Request K V) × In q past × (q.key ≡ k) × (e.value ≡ q.f) × (e.expires_at ≡ deadline q)

  abbrev IsBacked : List (Request K V) → Map K (Entry (MemoizeResult V)) → Type 0
  IsBacked past entries =
      (k : K) (e : Entry (MemoizeResult V)) → lookup k entries ≡ some e → IsFrom past k e

  -- The result is what the function returns now, or what it returned for a request of the same key whose
  -- time is not over.
  abbrev pub IsRecent : List (Request K V) → Request K V → MemoizeResult V → Type 0
  IsRecent past q r =
      (r ≡ q.f)
      ⊎ ((p : Request K V) × In p past × (p.key ≡ q.key) × (r ≡ p.f) × (q.now ≤ deadline p))

  -- Each result of a sequence of requests is recent.
  abbrev pub AllRecent :
      List (Request K V) → List (Request K V) → Map K (Entry (MemoizeResult V)) → Type 0
  AllRecent past [] entries = Unit
  AllRecent past (q ∷ qs) entries =
      IsRecent past q (memoize q entries).0 × AllRecent (q ∷ past) qs (memoize q entries).1

  abbrev entry_of : Request K V → Entry (MemoizeResult V)
  entry_of q = record { value = q.f; expires_at = deadline q }

  memoize_hit :
      (q : Request K V) (entries : Map K (Entry (MemoizeResult V))) (r : MemoizeResult V)
      → ttl_get q.now q.key entries ≡ some r
      → memoize q entries ≡ (r, entries)
  unfolding memoize_can_err_with_ttl
  memoize_hit q entries r e = rw e refl

  memoize_miss :
      (q : Request K V) (entries : Map K (Entry (MemoizeResult V)))
      → ttl_get q.now q.key entries ≡ none
      → memoize q entries ≡ (q.f, insert q.key (entry_of q) entries)
  unfolding memoize_can_err_with_ttl put_with_ttl rw_put
  memoize_miss q entries e = rw e (
      ap (λ (z : ℕ). (q.f, insert q.key (record { value = q.f; expires_at = z }) entries))
        (ttl_of-deadline q.f.err q))

  IsFrom-later :
      (q : Request K V) (past : List (Request K V)) (k : K) (e : Entry (MemoizeResult V))
      → IsFrom past k e
      → IsFrom (q ∷ past) k e
  IsFrom-later q past k e (p, i, a, b, c) = (p, inr i, a, b, c)

  IsBacked-insert :
      (q : Request K V) (past : List (Request K V)) (entries : Map K (Entry (MemoizeResult V)))
      → IsBacked past entries
      → IsBacked (q ∷ past) (insert q.key (entry_of q) entries)
  IsBacked-insert q past entries b k e h = elim (Bool-cases (q.key == k)) [
    | inl x ↦
        (let same =
            eq_of_some (sym (rw x refl) ∙ sym (lookup-insert q.key k (entry_of q) entries) ∙ h) in
          (
            q,
            inl refl,
            (keys.same_iff q.key k).0 x,
            ap (λ z. z.value) (sym same),
            ap (λ z. z.expires_at) (sym same),
          ))
    | inr x ↦
        IsFrom-later q past k e
          (b k e (sym (rw x refl) ∙ sym (lookup-insert q.key k (entry_of q) entries) ∙ h))
  ]

  hit_of :
      (q : Request K V) (past : List (Request K V)) (entries : Map K (Entry (MemoizeResult V)))
      (r : MemoizeResult V)
      → IsBacked past entries
      → ttl_get q.now q.key entries ≡ some r
      → (p : Request K V) × In p past × (p.key ≡ q.key) × (r ≡ p.f) × (q.now ≤ deadline p)
  unfolding ttl_get rw_get
  hit_of q past entries r b e =
      let (x, found, same, live) = alive_inv q.now (lookup q.key entries) r e in
      let (p, i, k, v, t) = b q.key x found in
      (p, i, k, sym same ∙ v, subst (λ n. q.now ≤ n) t live)

  IsRecent-step :
      (q : Request K V) (past : List (Request K V)) (entries : Map K (Entry (MemoizeResult V)))
      → IsBacked past entries
      → IsRecent past q (memoize q entries).0 × IsBacked (q ∷ past) (memoize q entries).1
  IsRecent-step q past entries b = elim (Option-cases (ttl_get q.now q.key entries)) [
    | inl e ↦ rw (memoize_miss q entries e) (inl refl, IsBacked-insert q past entries b)
    | inr (r, e) ↦
        rw (memoize_hit q entries r e)
          (inr (hit_of q past entries r b e), λ k x h. IsFrom-later q past k x (b k x h))
  ]

  -- From a cache in which each entry holds what the function returned for a past request of its
  -- key and expires at the end of that request's time, in any sequence of requests each result is
  -- what the function returns for that request, or what it returned for a past request of the
  -- same key whose time is not over: counted from when the function returned, that is the
  -- request's ttl if the function returned no error, and its errorTTL if it did.
  pub memoize-AllRecent :
      (qs past : List (Request K V)) (entries : Map K (Entry (MemoizeResult V)))
      → IsBacked past entries
      → AllRecent past qs entries
  memoize-AllRecent [] past entries b = tt
  memoize-AllRecent (q ∷ qs) past entries b =
      let (r, b') = IsRecent-step q past entries b in
      (r, memoize-AllRecent qs (q ∷ past) (memoize q entries).1 b')
