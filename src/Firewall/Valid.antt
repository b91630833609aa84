-- ===== src/Firewall/Valid.antt =====
-- internal/handlers/security_group.go and internal/util/ip_utils.go: which rules the service stores.
use nexodus.Prelude.{
  ℕ, ◌≤◌, ◌≡◌, refl, ◌↔◌, ◌⊎◌, inl, inr, String, Bool, true, false, not, ◌&&◌, ◌||◌, Option, some,
  List, [], ◌∷◌, ◌++◌, ◌==◌, string_eq, if◌then◌else◌, arith, eq_iff, In, Every, any, all,
  Bool-cases, length, eqb,
}
use nexodus.Prelude.Integers.{ℤ, pos, negsuc}
use nexodus.Prelude.Pieces.{contains_char, split_at_char}
use nexodus.Prelude.Cut.{pieces_of}
use nexodus.Firewall.{SecurityRule, SecurityGroup}
use nexodus.Firewall.Ranges.{
  Net, is_v4, is_parsed, parse_trimmed, is_custom_v4, is_custom_v6, contains_valid_custom_v4_ranges,
  contains_valid_custom_v6_ranges, validate_ranges, validate_ports, validate_rule, validate_all,
  validate_group, is_allowed, allowed_protocols,
}

-- Both ports are 0, or they are in order and between 1 and 65535.
abbrev pub IsPortRange : ℤ → ℤ → Type 0
IsPortRange from to =
    ((from ≡ pos 0) × (to ≡ pos 0))
    ⊎ ((a : ℕ) × (b : ℕ) × (from ≡ pos a) × (to ≡ pos b) × (1 ≤ a) × (a ≤ b) × (b ≤ 65535))

validate_ports_iff : (from to : ℤ) → (validate_ports from to ≡ true) ↔ IsPortRange from to
unfolding validate_ports
validate_ports_iff (pos a) (pos b) = ground arith
validate_ports_iff (pos a) (negsuc b) = ground arith
validate_ports_iff (negsuc a) to = ground arith

is_allowed_iff : (p : String) (qs : List String) → (is_allowed p qs ≡ true) ↔ In p qs
is_allowed_iff p [] = ground arith
is_allowed_iff p (q ∷ qs) = ground (arith, eq_iff p q, is_allowed_iff p qs)

range_table :
    (z v a b : Bool)
    → (if z then some b else if not (v || false) && not (a && true) then some false else some b)
      ≡ some ((z || (v || a)) && b)
range_table z v a b = ground arith

rule_table :
    (z p q b : Bool)
    → (if not z && not p then some false else if not q then some false else some b)
      ≡ some ((z || p) && (q && b))
rule_table z p q b = ground arith

iff_or3_and :
    {z v a b : Bool} {Z P : Type 0}
    → (z ≡ true) ↔ Z
    → (b ≡ true) ↔ P
    → ((z || (v || a)) && b ≡ true) ↔ ((Z ⊎ (v ≡ true) ⊎ (a ≡ true)) × P)
iff_or3_and hz hb = ground arith

iff_or_and :
    {z p q b : Bool} {Z P Q R : Type 0}
    → (z ≡ true) ↔ Z
    → (p ≡ true) ↔ P
    → (q ≡ true) ↔ Q
    → (b ≡ true) ↔ R
    → ((z || p) && (q && b) ≡ true) ↔ ((Z ⊎ P) × Q × R)
iff_or_and hz hp hq hb = ground arith

module _ (net : Net) where
  abbrev both_v4 : List String → Bool
  both_v4 (a ∷ b ∷ _) = is_v4 (parse_trimmed net a) && is_v4 (parse_trimmed net b)
  both_v4 _ = false

  -- Two IPv4 addresses with a dash between, an IPv4 network, or an IPv4 address. What follows a
  -- second dash is not looked at.
  abbrev pub v4_range : String → Bool
  v4_range r =
      if contains_char b'-' r
      then both_v4 (split_at_char b'-' r)
      else if contains_char b'/' r
      then is_v4 (net.parse_cidr r)
      else is_v4 (net.parse_ip r)

  abbrev both_parsed : List String → Bool
  both_parsed (a ∷ b ∷ []) = is_parsed (parse_trimmed net a) && is_parsed (parse_trimmed net b)
  both_parsed _ = false

  -- Two addresses of any family with a dash between, a network, or an address.
  abbrev pub any_range : String → Bool
  any_range r =
      if contains_char b'-' r
      then both_parsed (split_at_char b'-' r)
      else if contains_char b'/' r
      then is_parsed (net.parse_cidr r)
      else is_parsed (net.parse_ip r)

  pub is_custom_v4_lem : (r : String) → is_custom_v4 net r ≡ some (v4_range r)
  unfolding is_custom_v4
  is_custom_v4_lem r = elim (Bool-cases (contains_char b'-' r)) [
    | inl e ↦ (let (a, b, rest, split) = pieces_of b'-' r e in rw (e, split) refl)
    | inr e ↦ ground arith
  ]

  dashed :
      (a b : String) (rest : List String)
      → (if eqb (length (a ∷ b ∷ rest)) 2
          then some (is_parsed (parse_trimmed net a) && is_parsed (parse_trimmed net b))
          else some false)
        ≡ some (both_parsed (a ∷ b ∷ rest))
  dashed a b [] = refl
  dashed a b (c ∷ rest) = ground arith

  pub is_custom_v6_lem : (r : String) → is_custom_v6 net r ≡ some (any_range r)
  unfolding is_custom_v6
  is_custom_v6_lem r = elim (Bool-cases (contains_char b'-' r)) [
    | inl e ↦ (let (a, b, rest, split) = pieces_of b'-' r e in rw (e, split) (dashed a b rest))
    | inr e ↦ ground arith
  ]

  -- The test of a list: some range is an IPv4 one.
  pub contains_v4_lem :
      (rs : List String) → contains_valid_custom_v4_ranges net rs ≡ some (any v4_range rs)
  unfolding contains_valid_custom_v4_ranges
  contains_v4_lem [] = refl
  contains_v4_lem (r ∷ rs) = elim (Bool-cases (v4_range r)) [
    | inl e ↦ rw (is_custom_v4_lem r, e) refl
    | inr e ↦ rw (is_custom_v4_lem r, e) (contains_v4_lem rs)
  ]

  -- The test of a list: every range is one of some family.
  pub contains_v6_lem :
      (rs : List String) → contains_valid_custom_v6_ranges net rs ≡ some (all any_range rs)
  unfolding contains_valid_custom_v6_ranges
  contains_v6_lem [] = refl
  contains_v6_lem (r ∷ rs) = elim (Bool-cases (any_range r)) [
    | inl e ↦ rw (is_custom_v6_lem r, e) (contains_v6_lem rs)
    | inr e ↦ rw (is_custom_v6_lem r, e) refl
  ]

  -- Empty, or accepted by one of the two tests.
  abbrev pub IsRange : String → Type 0
  IsRange r = (r ≡ "") ⊎ (v4_range r ≡ true) ⊎ (any_range r ≡ true)

  abbrev pub IsValidRule : SecurityRule → Type 0
  IsValidRule rule =
      ((rule.ip_protocol ≡ "") ⊎ In rule.ip_protocol allowed_protocols)
      × IsPortRange rule.from_port rule.to_port
      × Every rule.ip_ranges IsRange

  -- A check that does not panic, and passes exactly if `P` holds.
  abbrev pub Decides : Option Bool → Type 0 → Type 0
  Decides o P = (b : Bool) × (o ≡ some b) × ((b ≡ true) ↔ P)

  no_ranges : validate_ranges net [] ≡ some true
  unfolding validate_ranges
  no_ranges = refl

  -- One range, with the answer for the others.
  range_first :
      (r : String) (rs : List String) (b : Bool)
      → validate_ranges net rs ≡ some b
      → validate_ranges net (r ∷ rs) ≡ some ((r == "" || (v4_range r || any_range r)) && b)
  unfolding validate_ranges
  range_first r rs b e =
      rw (e, contains_v4_lem (r ∷ []), contains_v6_lem (r ∷ []))
        (range_table (r == "") (v4_range r) (any_range r) b)

  validate_ranges_lem : (rs : List String) → Decides (validate_ranges net rs) (Every rs IsRange)
  validate_ranges_lem [] = (true, no_ranges, ground arith)
  validate_ranges_lem (r ∷ rs) =
      let (b, e, h) = validate_ranges_lem rs in
      (
        (r == "" || (v4_range r || any_range r)) && b,
        range_first r rs b e,
        iff_or3_and (eq_iff r "") h,
      )

  rule_first :
      (rule : SecurityRule) (b : Bool)
      → validate_ranges net rule.ip_ranges ≡ some b
      → validate_rule net rule
        ≡ some (
            (rule.ip_protocol == "" || is_allowed rule.ip_protocol allowed_protocols)
            && (validate_ports rule.from_port rule.to_port && b))
  unfolding validate_rule
  rule_first rule b e = rw e (
      rule_table (rule.ip_protocol == "") (is_allowed rule.ip_protocol allowed_protocols)
        (validate_ports rule.from_port rule.to_port) b)

  validate_rule_lem : (rule : SecurityRule) → Decides (validate_rule net rule) (IsValidRule rule)
  validate_rule_lem rule =
      let (b, e, h) = validate_ranges_lem rule.ip_ranges in
      (
        (rule.ip_protocol == "" || is_allowed rule.ip_protocol allowed_protocols)
            && (validate_ports rule.from_port rule.to_port && b),
        rule_first rule b e,
        iff_or_and (eq_iff rule.ip_protocol "") (is_allowed_iff rule.ip_protocol allowed_protocols)
            (validate_ports_iff rule.from_port rule.to_port) h,
      )

  validate_all_lem :
      (rules : List SecurityRule) → Decides (validate_all net rules) (Every rules IsValidRule)
  unfolding validate_all
  validate_all_lem [] = (true, refl, ground arith)
  validate_all_lem (rule ∷ rules) =
      let (b, e, h) = validate_rule_lem rule in
      let (b', e', h') = validate_all_lem rules in
      (b && b', ground (arith, e, e'), ground (arith, h, h'))

  -- The check of a group does not panic, and passes exactly when each inbound and outbound rule
  -- has no protocol or one of the seven, ports that are both 0 or in order between 1 and 65535,
  -- and ranges that are each empty or accepted by one of the two range tests.
  pub validate_group_lem :
      (sg : SecurityGroup)
      → Decides (validate_group net sg) (Every (sg.inbound_rules ++ sg.outbound_rules) IsValidRule)
  unfolding validate_group
  validate_group_lem sg = validate_all_lem (sg.inbound_rules ++ sg.outbound_rules)
