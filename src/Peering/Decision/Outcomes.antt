-- ===== src/Peering/Decision/Outcomes.antt =====
-- `rebuildPeerConfig` as a whole: what a peer gets when its method has failed, and when it has not.
use nexodus.Prelude.{
  ℕ, ◌<◌, ◌≤◌, ◌≡◌, ◌⊎◌, inl, inr, refl, sym, ap, ◌∙◌, Bool, true, false, none, some, length,
  get_elem?, arith, Bool-cases, Option-cases, eq_of_some,
}
use mathlib.Core.Path.{subst}
use native.Mathlib.Decide.{dec_lt}
use nexodus.Peering.{Env, Nexodus, DeviceCacheEntry, PeeringMethod, no_method}
use nexodus.Peering.Methods.{wg_peer_methods}
use nexodus.Peering.Health.{peering_failed, peering_reset}
use nexodus.Peering.Decision.{
  Rebuilt, choose, should_reset_peering, next_attempt, rebuilt, prereq, rebuild_peer_config,
}
use nexodus.Peering.Decision.Candidates.{IsFirstOpen, choose-IsFirstOpen, choose-IsIdle}
use nexodus.Peering.Decision.Progress.{
  PassesAfter, FailsAfter, IsNext, should_reset_iff, choose_after, lt_of_listed,
}

module _ (env : Env) (now : ℕ) (nx : Nexodus) (d : DeviceCacheEntry)
    (healthy_relay wg_relay : Bool) where
  abbrev pub passes : PeeringMethod → Bool
  passes = prereq env nx d healthy_relay wg_relay

  abbrev pub result : Rebuilt
  result = rebuild_peer_config env now nx d healthy_relay wg_relay

  -- The result is the method `m` with index `i`, for the entry `d'`.
  abbrev pub Gets : DeviceCacheEntry → ℕ → PeeringMethod → Type 0
  Gets d' i m =
      (result.entry ≡ d') × (result.chosen_method_index ≡ some i) × (result.chosen_method ≡ m)

  abbrev pub Keeps : DeviceCacheEntry → Type 0
  Keeps d' =
      (result.entry ≡ d')
      × (result.chosen_method_index ≡ d'.peering_method_index)
      × (result.chosen_method ≡ d'.peering_method)

  Gets-of_choose :
      (d' : DeviceCacheEntry) (try_next : Bool) {i : ℕ} {m : PeeringMethod}
      → next_attempt passes (peering_failed now d healthy_relay) d ≡ (d', try_next)
      → choose passes d'.peering_method d'.peering_method_index try_next 0 wg_peer_methods
        ≡ some (i, m)
      → Gets d' i m
  unfolding rebuild_peer_config rebuilt
  Gets-of_choose d' try_next h c = rw (h, c) (refl, refl, refl)

  Keeps-of_choose :
      (d' : DeviceCacheEntry) (try_next : Bool)
      → next_attempt passes (peering_failed now d healthy_relay) d ≡ (d', try_next)
      → choose passes d'.peering_method d'.peering_method_index try_next 0 wg_peer_methods ≡ none
      → Keeps d'
  unfolding rebuild_peer_config rebuilt
  Keeps-of_choose d' try_next h c = rw (h, c) (refl, refl, refl)

  module _ (failed : peering_failed now d healthy_relay ≡ true) (k : ℕ)
      (in_use : d.peering_method_index ≡ some k) where
    attempt_on :
        should_reset_peering passes (some k) ≡ false
        → next_attempt passes (peering_failed now d healthy_relay) d ≡ (d, true)
    unfolding next_attempt
    attempt_on h = rw (failed, in_use, h)

    attempt_over :
        should_reset_peering passes (some k) ≡ true
        → next_attempt passes (peering_failed now d healthy_relay) d ≡ (peering_reset d, false)
    unfolding next_attempt
    attempt_over h = rw (failed, in_use, h)

  attempt_wait :
      peering_failed now d healthy_relay ≡ false
      → next_attempt passes (peering_failed now d healthy_relay) d ≡ (d, false)
  unfolding next_attempt
  attempt_wait h = rw h

  no_reset_of_later :
      (k : ℕ)
      → k < length wg_peer_methods
      → PassesAfter passes k
      → should_reset_peering passes (some k) ≡ false
  no_reset_of_later k lt (j, m, after, at, ok) =
      elim (Bool-cases (should_reset_peering passes (some k))) [
        | inl e ↦ cc ((should_reset_iff passes k lt).0 e j m after at)
        | inr e ↦ e
      ]

  -- When the method in use has failed and a method behind it passes its test, the peer gets the
  -- first such method; the entry stays as it is.
  pub rebuild_moves_on :
      (k : ℕ)
      → peering_failed now d healthy_relay ≡ true
      → d.peering_method_index ≡ some k
      → get_elem? wg_peer_methods k ≡ some d.peering_method
      → PassesAfter passes k
      → (i : ℕ) × (m : PeeringMethod) × Gets d i m × IsNext passes k i m
  rebuild_moves_on k failed in_use at_k later =
      let no_reset = no_reset_of_later k (lt_of_listed wg_peer_methods k at_k) later in
      let (i, m, c, next) = choose_after passes d.peering_method k at_k later in
      (i, m, Gets-of_choose d true (attempt_on failed k in_use no_reset) (rw in_use c), next)

  -- The method `m`, with index `i`, is the first of the table that passes its test.
  pub record IsBest (i : ℕ) (m : PeeringMethod) : Type 0 where
    pub listed : get_elem? wg_peer_methods i ≡ some m
    pub best_passes : passes m ≡ true
    pub better :
        (j : ℕ) (m' : PeeringMethod)
        → j < i
        → get_elem? wg_peer_methods j ≡ some m'
        → passes m' ≡ false

  abbrev pub NonePasses : Type 0
  NonePasses = (j : ℕ) (m : PeeringMethod) → get_elem? wg_peer_methods j ≡ some m → passes m ≡ false

  IsBest-of_first :
      (t : Bool) (i : ℕ) (m : PeeringMethod)
      → IsFirstOpen passes no_method none t 0 wg_peer_methods i m
      → IsBest i m
  IsBest-of_first t i m first =
      let same : first.offset ≡ i = omega (arith, first.at_offset) in
      record {
        listed = subst (λ x. get_elem? wg_peer_methods x ≡ some m) same first.listed;
        best_passes = first.opened;
        better = λ j m' lt at. first.earlier j m' (omega (arith, same)) at;
      }

  abbrev pub FromReset : DeviceCacheEntry → Type 0
  FromReset d' =
      ((i : ℕ) × (m : PeeringMethod) × Gets d' i m × IsBest i m) ⊎ (Keeps d' × NonePasses)

  from_reset :
      (d' : DeviceCacheEntry) (t : Bool)
      → d'.peering_method_index ≡ none
      → d'.peering_method ≡ no_method
      → next_attempt passes (peering_failed now d healthy_relay) d ≡ (d', t)
      → FromReset d'
  from_reset d' t index method attempt =
      elim (Option-cases (choose passes no_method none t 0 wg_peer_methods)) [
        | inl e ↦ elim (choose-IsIdle passes no_method none t 0 wg_peer_methods e) [
          | inl closed ↦ inr (Keeps-of_choose d' t attempt (rw (index, method) e), closed)
          | inr (i, m, first, settled) ↦ absurd (ground arith)
        ]
        | inr ((i, m), e) ↦
            let first = (choose-IsFirstOpen passes no_method none t 0 wg_peer_methods e).0 in
            inl (
              i,
              m,
              Gets-of_choose d' t attempt (rw (index, method) e),
              IsBest-of_first t i m first,
            )
      ]

  -- When the method in use has failed and no method behind it passes its test, the entry is reset
  -- and the whole table is tried: the peer gets the first method that passes its test, or, if none
  -- does, no method.
  pub rebuild_starts_over :
      (k : ℕ)
      → peering_failed now d healthy_relay ≡ true
      → d.peering_method_index ≡ some k
      → k < length wg_peer_methods
      → FailsAfter passes k
      → FromReset (peering_reset d)
  rebuild_starts_over k failed in_use lt fails =
      let reset = (should_reset_iff passes k lt).1 fails in
      from_reset (peering_reset d) false (unfold peering_reset in refl)
        (unfold peering_reset in refl) (attempt_over failed k in_use reset)

  attempt_fresh :
      d.peering_method_index ≡ none
      → next_attempt passes (peering_failed now d healthy_relay) d
        ≡ (d, peering_failed now d healthy_relay)
  unfolding next_attempt
  attempt_fresh h = ground arith

  -- A peer that has no method yet gets the first method of the table that passes its test, whether
  -- its last attempt counts as failed or not; if none does, it stays without a method.
  pub rebuild_first_time :
      d.peering_method_index ≡ none → d.peering_method ≡ no_method → FromReset d
  rebuild_first_time index method =
      from_reset d (peering_failed now d healthy_relay) index method (attempt_fresh index)

  first_is_same :
      (k i : ℕ) (m : PeeringMethod)
      → get_elem? wg_peer_methods k ≡ some d.peering_method
      → passes d.peering_method ≡ true
      → IsFirstOpen passes d.peering_method (some k) false 0 wg_peer_methods i m
      → i ≡ k
  first_is_same k i m at_k ok first =
      let from_k : k ≤ i = ground (arith, first.opened) in
      elim (dec_lt k i) [
        | yes lt ↦
            let closed = first.earlier k d.peering_method (omega (arith, first.at_offset)) at_k in
            absurd (ground (arith, closed))
        | no ge ↦ omega arith
      ]

  same_method :
      (k i : ℕ) (m : PeeringMethod)
      → get_elem? wg_peer_methods k ≡ some d.peering_method
      → IsFirstOpen passes d.peering_method (some k) false 0 wg_peer_methods i m
      → i ≡ k
      → m ≡ d.peering_method
  same_method k i m at_k first same =
      let at_offset : first.offset ≡ k = omega (arith, first.at_offset) in
      eq_of_some (sym first.listed ∙ ap (get_elem? wg_peer_methods) at_offset ∙ at_k)

  -- A peer whose method has not failed and still passes its test keeps it, even if a method before
  -- it in the table passes its test too.
  pub rebuild_stays :
      (k : ℕ)
      → peering_failed now d healthy_relay ≡ false
      → d.peering_method_index ≡ some k
      → get_elem? wg_peer_methods k ≡ some d.peering_method
      → passes d.peering_method ≡ true
      → Gets d k d.peering_method
  rebuild_stays k works in_use at_k ok =
      let attempt = attempt_wait works in
      elim (Option-cases (choose passes d.peering_method (some k) false 0 wg_peer_methods)) [
        | inl e ↦ let r = Keeps-of_choose d false attempt (rw in_use e) in (r.0, r.1 ∙ in_use, r.2)
        | inr ((i, m), e) ↦
            let first =
              (choose-IsFirstOpen passes d.peering_method (some k) false 0 wg_peer_methods e).0 in
            let same = first_is_same k i m at_k ok first in
            let r = Gets-of_choose d false attempt (rw in_use e) in
            (r.0, r.1 ∙ ap some same, r.2 ∙ same_method k i m at_k first same)
      ]
