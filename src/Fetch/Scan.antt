-- ===== src/Fetch/Scan.antt =====
-- internal/handlers/fetchmgr/memfm: the loop over the ring.
use nexodus.Prelude.{
  ℕ, zero, suc, ◌+◌, ◌-◌, ◌%◌, ◌^◌, ◌<◌, ◌≤◌, ◌≡◌, ◌≢◌, refl, sym, ap, ◌∙◌, ◌⊎◌, inl, inr, Bool,
  true, false, Option, none, some, List, [], ◌∷◌, length, get_elem?, get_elem?-of_lt, ltb, eqb,
  eqb_iff, if◌then◌else◌, Bool-cases, Option-cases, In, Every, arith,
}
use native.Mathlib.Nat.{mod-lt}
use nexodus.Fetch.{ResourceItem, Scanned, u64, scan, scan_item, prepend}

module _ {A : Type 0} where
  -- The revisions follow one another, from the one after `gt`.
  abbrev pub IsRun : ℕ → List (ResourceItem A) → Type 0
  IsRun gt [] = Unit
  IsRun gt (x ∷ xs) = (x.revision ≡ gt + 1) × IsRun x.revision xs

  -- What a scan of the ring yields: a run of its items, and the end of the ring if no gap was met.
  abbrev pub IsScan : List (ResourceItem A) → ℕ → ℕ → Scanned A → Type 0
  IsScan ring write_pos gt none = Unit
  IsScan ring write_pos gt (some (items, pos, whole)) =
      IsRun gt items × Every items (λ x. In x ring) × (whole ≡ true → pos ≡ write_pos)

  In-get_elem? :
      (xs : List (ResourceItem A)) (i : ℕ) (x : ResourceItem A) → get_elem? xs i ≡ some x → In x xs
  In-get_elem? [] i x h = cc
  In-get_elem? (y ∷ ys) zero x h = inl (sym (nexodus.Prelude.eq_of_some h))
  In-get_elem? (y ∷ ys) (suc i) x h = inr (In-get_elem? ys i x h)

  prepend-IsScan :
      (ring : List (ResourceItem A)) (write_pos gt : ℕ) (x : ResourceItem A) (s : Scanned A)
      → x.revision ≡ gt + 1
      → In x ring
      → IsScan ring write_pos x.revision s
      → IsScan ring write_pos gt (prepend x s)
  prepend-IsScan ring write_pos gt x none e i h = tt
  prepend-IsScan ring write_pos gt x (some (xs, pos, whole)) e i (run, known, whole') =
      ((e, run), (i, known), whole')

  scan_item-IsScan :
      (ring : List (ResourceItem A)) (write_pos next gt : ℕ) (o : Option (ResourceItem A))
      (more : ℕ → Scanned A)
      → ((x : ResourceItem A) → o ≡ some x → In x ring)
      → ((g : ℕ) → IsScan ring write_pos g (more g))
      → IsScan ring write_pos gt (scan_item next gt o more)
  scan_item-IsScan ring write_pos next gt none more i h = tt
  scan_item-IsScan ring write_pos next gt (some x) more i h =
      elim (Bool-cases (ltb gt x.revision)) [
        | inr old ↦ rw old (h gt)
        | inl new ↦ rw new (elim (Bool-cases (eqb (u64 (gt + 1)) x.revision)) [
          | inr gap ↦ rw gap (tt, tt, λ e. absurd (ground arith))
          | inl follows ↦ rw follows (
              prepend-IsScan ring write_pos gt x (more x.revision) (ground arith) (i x refl)
                (h x.revision))
        ])
      ]

  pub scan-IsScan :
      (n : ℕ) (ring : List (ResourceItem A)) (write_pos pos gt : ℕ)
      → IsScan ring write_pos gt (scan n ring write_pos pos gt)
  unfolding scan
  scan-IsScan zero ring write_pos pos gt = tt
  scan-IsScan (suc n) ring write_pos pos gt = elim (Bool-cases (eqb pos write_pos)) [
    | inl end ↦ rw end (tt, tt, λ e. (eqb_iff pos write_pos).0 end)
    | inr more ↦ rw more (
        scan_item-IsScan ring write_pos (u64 (pos + 1)) gt (get_elem? ring (pos % length ring))
          (scan n ring write_pos (u64 (pos + 1))) (λ x. In-get_elem? ring (pos % length ring) x)
          (λ g. scan-IsScan n ring write_pos (u64 (pos + 1)) g))
  ]

  prepend-total : (x : ResourceItem A) (s : Scanned A) → s ≢ none → prepend x s ≢ none
  prepend-total x none h = λ e. h refl
  prepend-total x (some (xs, pos, whole)) h = λ e. cc

  scan_item-total :
      (next gt : ℕ) (x : ResourceItem A) (more : ℕ → Scanned A)
      → ((g : ℕ) → more g ≢ none)
      → scan_item next gt (some x) more ≢ none
  scan_item-total next gt x more h = elim (Bool-cases (ltb gt x.revision)) [
    | inr old ↦ rw old (h gt)
    | inl new ↦ rw new (elim (Bool-cases (eqb (u64 (gt + 1)) x.revision)) [
      | inr gap ↦ rw gap (λ e. cc)
      | inl follows ↦ rw follows (prepend-total x (more x.revision) (h x.revision))
    ])
  ]

  -- The fuel that `rounds` gives is enough.
  pub scan-total :
      (n : ℕ) (ring : List (ResourceItem A)) (write_pos pos gt : ℕ)
      → 0 < length ring
      → pos < 2 ^ 64
      → write_pos < 2 ^ 64
      → u64 (write_pos + 2 ^ 64 - pos) < n
      → scan n ring write_pos pos gt ≢ none
  unfolding scan
  scan-total zero ring write_pos pos gt size p w enough = absurd (omega arith)
  scan-total (suc n) ring write_pos pos gt size p w enough = elim (Bool-cases (eqb pos write_pos)) [
    | inl end ↦ rw end (λ e. cc)
    | inr more ↦
        (let (x, found) = get_elem?-of_lt ring (pos % length ring) (mod-lt pos size) in
          rw more (
            rw found (
              scan_item-total (u64 (pos + 1)) gt x (scan n ring write_pos (u64 (pos + 1))) (λ g.
                scan-total n ring write_pos (u64 (pos + 1)) g size (omega arith) w
                  (ground arith)))))
  ]
