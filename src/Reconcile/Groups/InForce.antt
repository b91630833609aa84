-- ===== src/Reconcile/Groups/InForce.antt =====
-- The rules that are in force against the security group that the agent keeps.
use nexodus.Prelude.{
  ◌≡◌, ◌≢◌, inl, inr, refl, sym, ◌∙◌, ap, String, Bool, true, false, Option, none, some, List, [],
  ◌∷◌, ◌==◌, string_eq, Comparable, arith, Bool-cases, eq_iff, eq_of_some,
}
use mathlib.Core.Path.{subst}
use nexodus.Prelude.Maps.{Map, lookup, eq_self}
use nexodus.Reconcile.Groups.{
  Group, GroupState, GroupsAnswer, listed, not_found, failed, nil_uuid, deep_equal, is_current,
  has_same_rules, take_group, take_found, by_answer, drop_group, reconcile_security_groups,
}

module _ {R : Type 0} ⦃rules : Comparable R⦄ where
  abbrev pub rules_of : Option (Group R) → Option (R × R)
  rules_of none = none
  rules_of (some g) = some (g.inbound_rules, g.outbound_rules)

  -- What is in force after the calls, the latest first: `none` if that is not known, since the call
  -- deletes the table of the old rules first and has failed after that or at it. In the beginning
  -- no rules are in force.
  abbrev pub in_force : List (Option (Group R) × Bool) → Option (Option (R × R))
  in_force [] = some none
  in_force ((g, true) ∷ calls) = some (rules_of g)
  in_force ((g, false) ∷ calls) = none

  -- The rules of the group that the agent keeps are in force, and known to be.
  abbrev pub IsInForce : GroupState R → Type 0
  IsInForce st = in_force st.calls ≡ some (rules_of st.security_group)

  same_rules_lem :
      (old : Option (Group R)) (r : Group R)
      → has_same_rules old r ≡ true
      → rules_of old ≡ rules_of (some r)
  unfolding has_same_rules
  same_rules_lem none r h = absurd cc
  same_rules_lem (some old) r h = ground (
    arith,
    rules.same_iff r.inbound_rules old.inbound_rules,
    rules.same_iff r.outbound_rules old.outbound_rules,
  )

  current_lem :
      (old : Option (Group R)) (r : Group R)
      → is_current old r ≡ true
      → rules_of old ≡ rules_of (some r)
  unfolding deep_equal
  current_lem none r h = absurd cc
  current_lem (some old) r h = ground (
    arith,
    rules.same_iff r.inbound_rules old.inbound_rules,
    rules.same_iff r.outbound_rules old.outbound_rules,
  )

  -- The step leaves the rules of `g` in force, and those of the group that the agent keeps.
  abbrev Enforces : Option (Group R) → GroupState R → Type 0
  Enforces g st = IsInForce st × (in_force st.calls ≡ some (rules_of g))

  take-Enforces :
      (r : Group R) (st : GroupState R) → IsInForce st → Enforces (some r) (take_group r true st)
  unfolding take_group
  take-Enforces r st h = elim (Bool-cases (is_current st.security_group r)) [
    | inl e ↦ rw e (h, h ∙ ap some (current_lem st.security_group r e))
    | inr e ↦ elim (Bool-cases (has_same_rules st.security_group r)) [
      | inl e' ↦
          let same = h ∙ ap some (same_rules_lem st.security_group r e') in rw (e, e') (same, same)
      | inr e' ↦ rw (e, e') (refl, refl)
    ]
  ]

  found-Enforces :
      (o : Option (Group R)) (st : GroupState R) → IsInForce st → Enforces o (take_found o true st)
  found-Enforces none st h = (refl, refl)
  found-Enforces (some r) st h = take-Enforces r st h

  answer-IsInForce :
      (id : String) (answer : GroupsAnswer R) (st : GroupState R)
      → IsInForce st
      → IsInForce (by_answer id answer true st)
  answer-IsInForce id (listed groups) st h = (found-Enforces (lookup id groups) st h).0
  answer-IsInForce id not_found st h = refl
  answer-IsInForce id failed st h = h

  drop-Enforces :
      (o : Option (Group R)) (st : GroupState R)
      → o ≡ st.security_group
      → IsInForce st
      → Enforces none (drop_group o true st)
  drop-Enforces none st e h = (h, h ∙ ap (λ g. some (rules_of g)) (sym e))
  drop-Enforces (some old) st e h = (refl, refl)

  -- If the rules of the group that the agent keeps are in force, and every call that writes rules
  -- succeeds, then a reconciliation with whatever answer leaves it so. If this node's device is
  -- in the cache with the nil group, no rules are in force then; if it has another group and the
  -- service answers with the groups, the rules of that group are, or none if it is not among
  -- them.
  pub reconcile_groups-IsInForce :
      (unsupported : Bool) (own : Option String) (answer : GroupsAnswer R) (st : GroupState R)
      → IsInForce st
      → let st' = reconcile_security_groups unsupported own answer true st in
        IsInForce st'
        × ((unsupported ≡ false) → (own ≡ some nil_uuid) → in_force st'.calls ≡ some none)
        × ((id : String) (groups : Map String (Group R))
            → (unsupported ≡ false)
            → (own ≡ some id)
            → (id ≢ nil_uuid)
            → (answer ≡ listed groups)
            → in_force st'.calls ≡ some (rules_of (lookup id groups)))
  unfolding reconcile_security_groups
  reconcile_groups-IsInForce true own answer st h =
      (h, λ u o. absurd cc, λ id groups u o ne a. absurd cc)
  reconcile_groups-IsInForce false none answer st h =
      (h, λ u o. absurd cc, λ id groups u o ne a. absurd cc)
  reconcile_groups-IsInForce false (some own) answer st h = elim (Bool-cases (own == nil_uuid)) [
    | inl e ↦
        let dropped = drop-Enforces st.security_group st refl h in
        rw e (
          dropped.0,
          λ u o. dropped.1,
          λ id groups u o ne a. absurd (ground (arith, ne, eq_iff own nil_uuid, o)),
        )
    | inr e ↦ rw e (
      answer-IsInForce own answer st h,
      λ u o. absurd (ground (arith, eq_iff own nil_uuid, o)),
      λ id groups u o ne a.
          subst (λ z. in_force (by_answer own z true st).calls ≡ some (rules_of (lookup id groups)))
            (sym a)
            (subst
              (λ z.
                in_force (by_answer own (listed groups) true st).calls
                ≡ some (rules_of (lookup z groups)))
              (eq_of_some o) (found-Enforces (lookup own groups) st h).1),
    )
  ]

  deep_equal_self : (r : Group R) → deep_equal r r ≡ true
  unfolding deep_equal
  deep_equal_self r = ground (
    arith,
    eq_self r.id,
    eq_self r.details,
    rules.same_iff r.inbound_rules r.inbound_rules,
    rules.same_iff r.outbound_rules r.outbound_rules,
  )

  failed_take :
      (r : Group R) (st : GroupState R)
      → is_current st.security_group r ≡ false
      → has_same_rules st.security_group r ≡ false
      → take_group r false st
        ≡ record st { security_group = some r; calls = (some r, false) ∷ st.calls }
  unfolding take_group
  failed_take r st current same = rw (current, same) refl

  current_take :
      (r : Group R) (ok : Bool) (st : GroupState R)
      → is_current st.security_group r ≡ true
      → take_group r ok st ≡ st
  unfolding take_group
  current_take r ok st h = rw h refl

  listed_step :
      (id : String) (groups : Map String (Group R)) (r : Group R) (ok : Bool) (st : GroupState R)
      → lookup id groups ≡ some r
      → id ≢ nil_uuid
      → reconcile_security_groups false (some id) (listed groups) ok st ≡ take_group r ok st
  unfolding reconcile_security_groups
  listed_step id groups r ok st at ne =
      let other : (id == nil_uuid) ≡ false = ground (arith, eq_iff id nil_uuid, ne) in
      rw (other, at) refl

  -- One reconciliation after the other with the same answer, each with the `ok` of its call.
  abbrev pub reconcile_again :
      String → Map String (Group R) → List Bool → GroupState R → GroupState R
  reconcile_again id groups [] st = st
  reconcile_again id groups (ok ∷ oks) st =
      reconcile_again id groups oks
        (reconcile_security_groups false (some id) (listed groups) ok st)

  again_kept :
      (id : String) (groups : Map String (Group R)) (r : Group R) (oks : List Bool)
      (st : GroupState R)
      → lookup id groups ≡ some r
      → id ≢ nil_uuid
      → is_current st.security_group r ≡ true
      → reconcile_again id groups oks st ≡ st
  again_kept id groups r [] st at ne current = refl
  again_kept id groups r (ok ∷ oks) st at ne current =
      ap (reconcile_again id groups oks)
        (listed_step id groups r ok st at ne ∙ current_take r ok st current)
      ∙ again_kept id groups r oks st at ne current

  -- The service answers with a group that differs from the one that the agent keeps, in its id or
  -- its rules too, and writing the rules fails, after which it is not known which rules are in
  -- force. Then that was the last call: after any further reconciliations with the same answer,
  -- whether writing would succeed or not, the agent keeps the new group, the failed call is the
  -- latest one, and the rules are not written again.
  pub failed_process_final :
      (id : String) (groups : Map String (Group R)) (r : Group R) (st : GroupState R)
      (oks : List Bool)
      → lookup id groups ≡ some r
      → id ≢ nil_uuid
      → is_current st.security_group r ≡ false
      → has_same_rules st.security_group r ≡ false
      → let failed_once = reconcile_security_groups false (some id) (listed groups) false st in
        let st' = reconcile_again id groups oks failed_once in
        (st'.security_group ≡ some r)
        × (st'.calls ≡ (some r, false) ∷ st.calls)
        × (in_force st'.calls ≡ none)
  failed_process_final id groups r st oks at ne current same =
      let failed_once = reconcile_security_groups false (some id) (listed groups) false st in
      let run = listed_step id groups r false st at ne ∙ failed_take r st current same in
      let taken : is_current failed_once.security_group r ≡ true =
        ap (λ (z : GroupState R). is_current z.security_group r) run ∙ deep_equal_self r in
      let final = again_kept id groups r oks failed_once at ne taken ∙ run in
      (
        ap (λ (z : GroupState R). z.security_group) final,
        ap (λ (z : GroupState R). z.calls) final,
        ap (λ (z : GroupState R). in_force z.calls) final,
      )
