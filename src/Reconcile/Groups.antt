-- ===== src/Reconcile/Groups.antt =====
-- internal/nexodus/nexodus.go, `reconcileSecurityGroups`: which security group the agent keeps, and
-- when it writes the rules to the packet filter (`processSecurityGroupRules`).
pub mod InForce
mod Tests
use nexodus.Prelude.{
  String, Bool, true, false, ◌&&◌, Option, none, some, List, [], ◌∷◌, ◌==◌, string_eq, Comparable,
  if◌then◌else◌,
}
use nexodus.Prelude.Maps.{Map, lookup}

-- client.ModelsSecurityGroup, with the type `R` of a list of rules. The fields that the rules do not
-- depend on stand as one text.
pub record Group (R : Type 0) : Type 0 where
  pub id : String
  pub details : String
  pub inbound_rules : R
  pub outbound_rules : R

pub record GroupState (R : Type 0) : Type 0 where
  -- nx.securityGroup
  pub security_group : Option (Group R)
  -- The calls of processSecurityGroupRules, the latest one first: nx.securityGroup at the call, and
  -- whether the call did all that it is for: the old table is gone and the rules of the group, if there
  -- is one, are written. The error that it reports can be none all the same: for no group, the error
  -- of the deletion is dropped.
  pub calls : List (Option (Group R) × Bool)

-- What the informer of the security groups answers.
pub data GroupsAnswer (R : Type 0) : Type 0 where
  listed : Map String (Group R) → GroupsAnswer R
  not_found : GroupsAnswer R
  failed : GroupsAnswer R

-- uuid.Nil.String()
abbrev pub nil_uuid : String
nil_uuid = "00000000-0000-0000-0000-000000000000"

module _ {R : Type 0} ⦃rules : Comparable R⦄ where
  -- reflect.DeepEqual
  unfoldable pub deep_equal : Group R → Group R → Bool
  deep_equal a b =
      (a.id == b.id && a.details == b.details)
      && (rules.same a.inbound_rules b.inbound_rules
          && rules.same a.outbound_rules b.outbound_rules)

  abbrev pub is_current : Option (Group R) → Group R → Bool
  is_current none r = false
  is_current (some current) r = deep_equal r current

  -- The group changed, but not in a way that matters for the rules.
  unfoldable pub has_same_rules : Option (Group R) → Group R → Bool
  has_same_rules none r = false
  has_same_rules (some old) r =
      r.id == old.id
      && (rules.same r.inbound_rules old.inbound_rules
          && rules.same r.outbound_rules old.outbound_rules)

  abbrev pub process : Bool → GroupState R → GroupState R
  process ok st = record st { calls = (st.security_group, ok) ∷ st.calls }

  abbrev pub clear_group : Bool → GroupState R → GroupState R
  clear_group ok st = process ok (record st { security_group = none })

  unfoldable pub take_group : Group R → Bool → GroupState R → GroupState R
  take_group r ok st =
      let taken : GroupState R = record st { security_group = some r } in
      if is_current st.security_group r
      then st
      else if has_same_rules st.security_group r
      then taken
      else process ok taken

  abbrev pub take_found : Option (Group R) → Bool → GroupState R → GroupState R
  take_found none ok st = clear_group ok st
  take_found (some r) ok st = take_group r ok st

  abbrev pub by_answer : String → GroupsAnswer R → Bool → GroupState R → GroupState R
  by_answer id (listed groups) ok st = take_found (lookup id groups) ok st
  by_answer id not_found ok st = clear_group ok st
  by_answer id failed ok st = st

  abbrev pub drop_group : Option (Group R) → Bool → GroupState R → GroupState R
  drop_group none ok st = st
  drop_group (some old) ok st = clear_group ok st

  -- `unsupported`: the host has no packet filter for the agent, or the agent runs in user space.
  -- `own`: the group of this node's own device, if the cache has the device. `ok`: a call of
  -- processSecurityGroupRules would do all that it is for.
  unfoldable pub reconcile_security_groups :
      Bool → Option String → GroupsAnswer R → Bool → GroupState R → GroupState R
  reconcile_security_groups true own answer ok st = st
  reconcile_security_groups false none answer ok st = st
  reconcile_security_groups false (some id) answer ok st =
      if id == nil_uuid then drop_group st.security_group ok st else by_answer id answer ok st
