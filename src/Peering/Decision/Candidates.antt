-- ===== src/Peering/Decision/Candidates.antt =====
-- The loop of `rebuildPeerConfig` takes the first method that is not passed over and passes its
-- test.
use nexodus.Prelude.{
  ℕ, zero, suc, ◌+◌, ◌<◌, ◌≡◌, ◌⊎◌, inl, inr, refl, sym, ◌∙◌, Bool, true, false, not, ◌&&◌, Option,
  none, some, List, [], ◌∷◌, if◌then◌else◌, get_elem?, arith, Bool-cases, eq_of_some,
}
use mathlib.Core.Path.{subst, subst₂}
use nexodus.Peering.{PeeringMethod, is_via_relay}
use nexodus.Peering.Decision.{Prereq, is_skipped, choose}

module _ (ok : Prereq) (current : PeeringMethod) (index : Option ℕ) (try_next : Bool) where
  -- The method `m` with index `i` is open to the loop.
  abbrev pub is_open : ℕ → PeeringMethod → Bool
  is_open i m = not (is_skipped index try_next i) && ok m

  pub record IsFirstOpen (from : ℕ) (ms : List PeeringMethod) (i : ℕ) (m : PeeringMethod)
      : Type 0 where
    pub offset : ℕ
    pub at_offset : i ≡ from + offset
    pub listed : get_elem? ms offset ≡ some m
    pub opened : is_open i m ≡ true
    pub earlier :
        (j : ℕ) (m' : PeeringMethod)
        → j < offset
        → get_elem? ms j ≡ some m'
        → is_open (from + j) m' ≡ false

  abbrev pub IsNoneOpen : ℕ → List PeeringMethod → Type 0
  IsNoneOpen from ms =
      (j : ℕ) (m : PeeringMethod) → get_elem? ms j ≡ some m → is_open (from + j) m ≡ false

  -- the peer is reached through the relay, and that is what the loop comes to
  abbrev pub is_settled : PeeringMethod → Bool
  is_settled m = is_via_relay m && is_via_relay current

  choose-of_open :
      (from : ℕ) (n : PeeringMethod) (ms : List PeeringMethod)
      → is_open from n ≡ true
      → choose ok current index try_next from (n ∷ ms)
        ≡ (if is_settled n then none else some (from, n))
  unfolding choose
  choose-of_open from n ms h = ground arith

  choose-of_closed :
      (from : ℕ) (n : PeeringMethod) (ms : List PeeringMethod)
      → is_open from n ≡ false
      → choose ok current index try_next from (n ∷ ms)
        ≡ choose ok current index try_next (from + 1) ms
  unfolding choose
  choose-of_closed from n ms h = ground arith

  IsFirstOpen-here :
      (from : ℕ) (n : PeeringMethod) (ms : List PeeringMethod)
      → is_open from n ≡ true
      → IsFirstOpen from (n ∷ ms) from n
  IsFirstOpen-here from n ms h = record {
    offset = 0;
    at_offset = omega arith;
    listed = refl;
    opened = h;
    earlier = λ j m' lt. absurd (omega arith);
  }

  closed_cons :
      (from : ℕ) (n : PeeringMethod) (ms : List PeeringMethod) (bound : ℕ)
      → is_open from n ≡ false
      → ((j : ℕ) (m : PeeringMethod)
          → j < bound
          → get_elem? ms j ≡ some m
          → is_open (from + 1 + j) m ≡ false)
      → (j : ℕ) (m : PeeringMethod) → j < suc bound
      → get_elem? (n ∷ ms) j ≡ some m
      → is_open (from + j) m ≡ false
  closed_cons from n ms bound h rest zero m lt at =
      let same : n ≡ m = eq_of_some at in
      subst (λ x. is_open (from + 0) x ≡ false) same
        (subst (λ k. is_open k n ≡ false) (omega arith) h)
  closed_cons from n ms bound h rest (suc j) m lt at =
      subst (λ k. is_open k m ≡ false) (omega arith) (rest j m (omega arith) at)

  IsFirstOpen-later :
      (from : ℕ) (n : PeeringMethod) (ms : List PeeringMethod) {i : ℕ} {m : PeeringMethod}
      → is_open from n ≡ false
      → IsFirstOpen (from + 1) ms i m
      → IsFirstOpen from (n ∷ ms) i m
  IsFirstOpen-later from n ms h r = record {
    offset = suc r.offset;
    at_offset = omega (arith, r.at_offset);
    listed = r.listed;
    opened = r.opened;
    earlier = closed_cons from n ms r.offset h r.earlier;
  }

  -- The method that the loop builds is the first one that is open.
  pub choose-IsFirstOpen :
      (from : ℕ) (ms : List PeeringMethod) {i : ℕ} {m : PeeringMethod}
      → choose ok current index try_next from ms ≡ some (i, m)
      → IsFirstOpen from ms i m × (is_settled m ≡ false)
  choose-IsFirstOpen from [] h = unfold choose in cc
  choose-IsFirstOpen from (n ∷ ms) {i} {m} h = elim (Bool-cases (is_open from n)) [
    | inl e ↦
        let here = sym (choose-of_open from n ms e) ∙ h in
        let at_i : from ≡ i = ground arith in
        let at_m : n ≡ m = ground arith in
        let unsettled : is_settled m ≡ false = ground arith in
        (subst₂ (IsFirstOpen from (n ∷ ms)) at_i at_m (IsFirstOpen-here from n ms e), unsettled)
    | inr e ↦
        let r = choose-IsFirstOpen (from + 1) ms (sym (choose-of_closed from n ms e) ∙ h) in
        (IsFirstOpen-later from n ms e r.0, r.1)
  ]

  -- What it means that the loop builds nothing.
  abbrev pub IsIdle : ℕ → List PeeringMethod → Type 0
  IsIdle from ms =
      IsNoneOpen from ms
      ⊎ ((i : ℕ) × (m : PeeringMethod) × IsFirstOpen from ms i m × (is_settled m ≡ true))

  pub choose-IsIdle :
      (from : ℕ) (ms : List PeeringMethod)
      → choose ok current index try_next from ms ≡ none
      → IsIdle from ms
  choose-IsIdle from [] h = inl (λ j m at. cc)
  choose-IsIdle from (n ∷ ms) h = elim (Bool-cases (is_open from n)) [
    | inl e ↦
        let here = sym (choose-of_open from n ms e) ∙ h in
        let settled : is_settled n ≡ true = ground arith in
        inr (from, n, IsFirstOpen-here from n ms e, settled)
    | inr e ↦ elim (choose-IsIdle (from + 1) ms (sym (choose-of_closed from n ms e) ∙ h)) [
      | inl closed ↦
          inl (λ j m at. closed_cons from n ms j e (λ j' m' lt. closed j' m') j m (omega arith) at)
      | inr (i, m, r, settled) ↦ inr (i, m, IsFirstOpen-later from n ms e r, settled)
    ]
  ]
