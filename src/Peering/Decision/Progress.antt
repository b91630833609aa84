-- ===== src/Peering/Decision/Progress.antt =====
-- A peer whose method has failed moves on along the table, and starts over at its end.
use nexodus.Prelude.{
  ℕ, zero, suc, ◌+◌, ◌<◌, ◌≡◌, ◌↔◌, inl, inr, refl, true, false, ◌&&◌, none, some, List, [], ◌∷◌,
  ltb, length, get_elem?, arith, Bool-cases, Option-cases, eq_of_some,
}
use mathlib.Core.Path.{subst}
use nexodus.Peering.{DeviceCacheEntry, PeeringMethod, no_method, is_via_relay}
use nexodus.Peering.Methods.{wg_peer_methods}
use nexodus.Peering.Decision.{Prereq, choose, passes_after, should_reset_peering}
use nexodus.Peering.Decision.Candidates.{
  is_open, IsFirstOpen, IsIdle, choose-IsFirstOpen, choose-IsIdle,
}

-- The name and the index of an entry's method agree.
abbrev pub IsConsistent : DeviceCacheEntry → Type 0
IsConsistent d = elim d.peering_method_index [
  | none ↦ d.peering_method ≡ no_method
  | some k ↦ get_elem? wg_peer_methods k ≡ some d.peering_method
]

-- A method behind index `k` passes its test.
abbrev pub PassesAfter : Prereq → ℕ → Type 0
PassesAfter ok k =
    (j : ℕ) × (m : PeeringMethod) × (k < j) × (get_elem? wg_peer_methods j ≡ some m) × (ok m ≡ true)

abbrev pub FailsAfter : Prereq → ℕ → Type 0
FailsAfter ok k =
    (j : ℕ) (m : PeeringMethod) → k < j → get_elem? wg_peer_methods j ≡ some m → ok m ≡ false

passes_after_sound :
    (ok : Prereq) (k i : ℕ) (ms : List PeeringMethod)
    → passes_after ok k i ms ≡ true
    → (j : ℕ) × (m : PeeringMethod) × (k < i + j) × (get_elem? ms j ≡ some m) × (ok m ≡ true)
unfolding passes_after
passes_after_sound ok k i [] h = cc
passes_after_sound ok k i (n ∷ ms) h = elim (Bool-cases (ltb k i && ok n)) [
  | inl e ↦ (0, n, ground arith, refl, ground arith)
  | inr e ↦
      let (j, m, lt, at, passes) = passes_after_sound ok k (i + 1) ms (ground arith) in
      (suc j, m, omega arith, at, passes)
]

passes_after_complete :
    (ok : Prereq) (k i : ℕ) (ms : List PeeringMethod)
    → passes_after ok k i ms ≡ false
    → (j : ℕ) (m : PeeringMethod) → k < i + j
    → get_elem? ms j ≡ some m
    → ok m ≡ false
unfolding passes_after
passes_after_complete ok k i [] h j m lt at = cc
passes_after_complete ok k i (n ∷ ms) h zero m lt at =
    let same : n ≡ m = eq_of_some at in subst (λ x. ok x ≡ false) same (ground arith)
passes_after_complete ok k i (n ∷ ms) h (suc j) m lt at =
    passes_after_complete ok k (i + 1) ms (ground arith) j m (omega arith) at

pub lt_of_listed :
    (ms : List PeeringMethod) (i : ℕ) {m : PeeringMethod} → get_elem? ms i ≡ some m → i < length ms
lt_of_listed [] i h = cc
lt_of_listed (n ∷ ms) zero h = omega arith
lt_of_listed (n ∷ ms) (suc i) h = omega (arith, lt_of_listed ms i h)

-- `shouldResetPeering` of a method in the table: no method behind it passes its test.
pub should_reset_iff :
    (ok : Prereq) (k : ℕ)
    → k < length wg_peer_methods
    → (should_reset_peering ok (some k) ≡ true) ↔ FailsAfter ok k
unfolding should_reset_peering
should_reset_iff ok k lt = elim (Bool-cases (passes_after ok k 0 wg_peer_methods)) [
  | inl e ↦
      let (j, m, after, at, passes) = passes_after_sound ok k 0 wg_peer_methods e in
      let after' : k < j = omega arith in
      (
        λ h j' m' lt' at'.
            let end : k + 1 ≡ 8 = ground arith in
            absurd (omega (arith, end, lt_of_listed wg_peer_methods j at)),
        λ fails. ground (arith, fails j m after' at),
      )
  | inr e ↦ (
    λ h j m after at. passes_after_complete ok k 0 wg_peer_methods e j m (omega arith) at,
    λ fails. ground arith,
  )
]

via_relay_at :
    (i : ℕ) (m : PeeringMethod)
    → get_elem? wg_peer_methods i ≡ some m
    → is_via_relay m ≡ true
    → i ≡ 6
via_relay_at zero m at h = ground arith
via_relay_at (suc zero) m at h = ground arith
via_relay_at (suc (suc zero)) m at h = ground arith
via_relay_at (suc (suc (suc zero))) m at h = ground arith
via_relay_at (suc (suc (suc (suc zero)))) m at h = ground arith
via_relay_at (suc (suc (suc (suc (suc zero))))) m at h = ground arith
via_relay_at (suc (suc (suc (suc (suc (suc zero)))))) m at h = refl
via_relay_at (suc (suc (suc (suc (suc (suc (suc zero))))))) m at h = ground arith
via_relay_at (suc (suc (suc (suc (suc (suc (suc (suc i)))))))) m at h = cc

-- The method `m`, with index `i`, is the first one behind `k` that passes its test.
pub record IsNext (ok : Prereq) (k i : ℕ) (m : PeeringMethod) : Type 0 where
  pub after : k < i
  pub listed : get_elem? wg_peer_methods i ≡ some m
  pub passes : ok m ≡ true
  pub earlier :
      (j : ℕ) (m' : PeeringMethod)
      → k < j
      → j < i
      → get_elem? wg_peer_methods j ≡ some m'
      → ok m' ≡ false

open_after :
    (ok : Prereq) (current : PeeringMethod) (k i : ℕ) (m : PeeringMethod)
    → (is_open ok current (some k) true i m ≡ true) ↔ ((k < i) × (ok m ≡ true))
open_after ok current k i m = (ground arith, ground arith)

IsNext-of_first :
    (ok : Prereq) (current : PeeringMethod) (k i : ℕ) (m : PeeringMethod)
    → IsFirstOpen ok current (some k) true 0 wg_peer_methods i m
    → IsNext ok k i m
IsNext-of_first ok current k i m first =
    let o = (open_after ok current k i m).0 first.opened in
    let same : first.offset ≡ i = omega (arith, first.at_offset) in
    record {
      after = o.0;
      listed = subst (λ x. get_elem? wg_peer_methods x ≡ some m) same first.listed;
      passes = o.1;
      earlier = λ j m' lt lt' at.
          let closed = first.earlier j m' (omega (arith, same)) at in ground (arith, closed);
    }

choose-none_absurd :
    (ok : Prereq) (current : PeeringMethod) (k : ℕ)
    → get_elem? wg_peer_methods k ≡ some current
    → PassesAfter ok k
    → ¬ IsIdle ok current (some k) true 0 wg_peer_methods
choose-none_absurd ok current k at_k (j, m, lt, at, passes) (inl closed) =
    ground (arith, closed j m at)
choose-none_absurd ok current k at_k later (inr (i, m, first, settled)) =
    let next = IsNext-of_first ok current k i m first in
    omega (
      arith,
      next.after,
      via_relay_at i m next.listed (ground arith),
      via_relay_at k current at_k (ground arith),
    )

pub choose_after :
    (ok : Prereq) (current : PeeringMethod) (k : ℕ)
    → get_elem? wg_peer_methods k ≡ some current
    → PassesAfter ok k
    → (i : ℕ) × (m : PeeringMethod) × (choose ok current (some k) true 0 wg_peer_methods
        ≡ some (i, m))
      × IsNext ok k i m
choose_after ok current k at_k later =
    elim (Option-cases (choose ok current (some k) true 0 wg_peer_methods)) [
      | inl e ↦ absurd (
          choose-none_absurd ok current k at_k later
            (choose-IsIdle ok current (some k) true 0 wg_peer_methods e))
      | inr ((i, m), e) ↦ (
        i,
        m,
        e,
        IsNext-of_first ok current k i m
            (choose-IsFirstOpen ok current (some k) true 0 wg_peer_methods e).0,
      )
    ]
