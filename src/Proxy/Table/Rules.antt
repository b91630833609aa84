-- ===== src/Proxy/Table/Rules.antt =====
-- internal/nexodus/userspace_proxy.go: the list of rules of one proxy.
use mathlib.Core.Path.{subst}
use nexodus.Prelude.{
  ◌≡◌, ◌≢◌, refl, sym, ◌∙◌, ◌↔◌, ◌⊎◌, inl, inr, true, false, none, some, List, [], ◌∷◌, ◌++◌, ◌==◌,
  arith, In, Bool-cases,
}
use nexodus.Proxy.{ProxyRule}
use nexodus.Proxy.Table.{rule_eq, has_rule, remove_rule}

pub has_rule_iff : (r : ProxyRule) (rules : List ProxyRule) → (has_rule r rules ≡ true) ↔ In r rules
unfolding has_rule
has_rule_iff r [] = ground arith
has_rule_iff r (rule ∷ rules) = ground (arith, has_rule_iff r rules, rule_eq.same_iff rule r)

pub In-append_iff :
    (x r : ProxyRule) (rules : List ProxyRule) → In x (rules ++ r ∷ []) ↔ ((x ≡ r) ⊎ In x rules)
In-append_iff x r [] = ground arith
In-append_iff x r (rule ∷ rules) = ground (arith, In-append_iff x r rules)

-- No rule stands twice in the list.
abbrev pub IsDistinct : List ProxyRule → Type 0
IsDistinct [] = Unit
IsDistinct (rule ∷ rules) = ¬ (In rule rules) × IsDistinct rules

pub remove_rule-none :
    (r : ProxyRule) (rules : List ProxyRule) → ¬ (In r rules) → remove_rule r rules ≡ none
unfolding remove_rule
remove_rule-none r [] h = refl
remove_rule-none r (rule ∷ rules) h =
    ground (arith, rule_eq.same_iff rule r, remove_rule-none r rules)

-- A removal takes the rule and no other.
abbrev pub IsWithout : ProxyRule → List ProxyRule → List ProxyRule → Type 0
IsWithout r rules rest = (x : ProxyRule) → In x rest ↔ (In x rules × (x ≢ r))

IsWithout-first :
    (r rule : ProxyRule) (rules : List ProxyRule)
    → rule ≡ r
    → ¬ (In rule rules)
    → IsWithout r (rule ∷ rules) rules
IsWithout-first r rule rules e new x = (
  (λ m. (inr m, λ y. new (subst (λ z. In z rules) (y ∙ sym e) m))),
  (λ (h, ne). elim h [ inl y ↦ absurd (ne (y ∙ e)) | inr m ↦ m ]),
)

IsWithout-later :
    (r rule : ProxyRule) (rules rest : List ProxyRule)
    → rule ≢ r
    → IsWithout r rules rest
    → IsWithout r (rule ∷ rules) (rule ∷ rest)
IsWithout-later r rule rules rest ne h x = (
  (λ m. elim m [
    | inl y ↦ (inl y, λ z. ne (sym y ∙ z))
    | inr k ↦ (inr ((h x).0 k).0, ((h x).0 k).1)
  ]),
  (λ (m, nr). elim m [ inl y ↦ inl y | inr k ↦ inr ((h x).1 (k, nr)) ]),
)

differs : (a b : ProxyRule) → (a == b) ≡ false → a ≢ b
differs a b e h = absurd (ground (arith, (rule_eq.same_iff a b).1 h))

In-later :
    (r rule : ProxyRule) (rules : List ProxyRule) → In r (rule ∷ rules) → rule ≢ r → In r rules
In-later r rule rules (inl y) ne = absurd (ne (sym y))
In-later r rule rules (inr m) ne = m

pub remove_rule_lem :
    (r : ProxyRule) (rules : List ProxyRule)
    → In r rules
    → IsDistinct rules
    → (rest : List ProxyRule) × (remove_rule r rules ≡ some rest) × IsWithout r rules rest
unfolding remove_rule
remove_rule_lem r [] h d = absurd h
remove_rule_lem r (rule ∷ rules) h (new, d) = elim (Bool-cases (rule == r)) [
  | inl e ↦ (rules, rw e refl, IsWithout-first r rule rules ((rule_eq.same_iff rule r).0 e) new)
  | inr e ↦
      let ne = differs rule r e in
      let (rest, same, w) = remove_rule_lem r rules (In-later r rule rules h ne) d in
      (rule ∷ rest, rw (e, same) refl, IsWithout-later r rule rules rest ne w)
]
