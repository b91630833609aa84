-- ===== src/Proxy/Table/Members.antt =====
-- internal/nexodus/userspace_proxy.go: which rules the table has after an operation.
use mathlib.Core.Path.{subst}
use nexodus.Prelude.{
  ◌≡◌, ◌≢◌, refl, sym, ap, ◌↔◌, ◌⊎◌, inl, inr, Bool, true, false, Option, some, List, [], ◌∷◌, ◌++◌,
  ◌==◌, if◌then◌else◌, arith, In, Bool-cases,
}
use nexodus.Prelude.Maps.{lookup, lookup-insert}
use nexodus.Proxy.{ProxyKey, ProxyRule}
use nexodus.Proxy.Table.{
  key_eq, rule_eq, UsProxy, ProxyState, ok, exists, or_new, has_rule, put_rules,
  userspace_proxy_add,
}
use nexodus.Proxy.Table.Rules.{has_rule_iff, In-append_iff, IsDistinct}

abbrev pub rules_at : ProxyKey → ProxyState → List ProxyRule
rules_at k s = (or_new (lookup k s.proxies)).rules

-- The rule is in the table.
abbrev pub Has : ProxyState → ProxyRule → Type 0
Has s x = In x (rules_at x.key s)

pick :
    (b : Bool) (proxy : UsProxy) (o : Option UsProxy)
    → (or_new (if b then some proxy else o)).rules ≡ (if b then proxy.rules else (or_new o).rules)
pick true proxy o = refl
pick false proxy o = refl

rules_at-put :
    (k j : ProxyKey) (proxy : UsProxy) (rules : List ProxyRule) (s : ProxyState)
    → rules_at j (put_rules k proxy rules s) ≡ (if k == j then rules else rules_at j s)
rules_at-put k j proxy rules s =
    rw (rules_at, lookup-insert k j (record proxy { rules = rules }) s.proxies)
      (pick (k == j) (record proxy { rules = rules }) (lookup j s.proxies))

pub unequal : (a b : ProxyKey) → (a == b) ≡ false → a ≢ b
unequal a b e h = absurd (ground (arith, (key_eq.same_iff a b).1 h))

pub In-if :
    {E : Type 0} (b : Bool) (x : ProxyRule) (rules others : List ProxyRule)
    → (b ≡ true) ↔ E
    → In x (if b then rules else others) ↔ ((E × In x rules) ⊎ (¬ E × In x others))
In-if true x rules others h = ground arith
In-if false x rules others h = ground arith

-- What the table has, once the rules of key `k` are `rules`.
pub Has-put_iff :
    (k : ProxyKey) (proxy : UsProxy) (rules : List ProxyRule) (s : ProxyState) (x : ProxyRule)
    → Has (put_rules k proxy rules s) x ↔ (((k ≡ x.key) × In x rules) ⊎ ((k ≢ x.key) × Has s x))
Has-put_iff k proxy rules s x =
    subst (λ l. In x l ↔ (((k ≡ x.key) × In x rules) ⊎ ((k ≢ x.key) × Has s x)))
      (sym (rules_at-put k x.key proxy rules s))
      (In-if (k == x.key) x rules (rules_at x.key s) (key_eq.same_iff k x.key))

pub Has-same :
    (s : ProxyState) (k : ProxyKey) (x : ProxyRule) → k ≡ x.key → In x (rules_at k s) ↔ Has s x
Has-same s k x e = (subst (λ j. In x (rules_at j s)) e, subst (λ j. In x (rules_at j s)) (sym e))

add_new_iff :
    (r : ProxyRule) (proxy : UsProxy) (s : ProxyState) (x : ProxyRule)
    → Has (put_rules r.key proxy (rules_at r.key s ++ r ∷ []) s) x ↔ ((x ≡ r) ⊎ Has s x)
add_new_iff r proxy s x =
    let h = Has-put_iff r.key proxy (rules_at r.key s ++ r ∷ []) s x in
    let a = In-append_iff x r (rules_at r.key s) in
    (
      (λ m. elim (h.0 m) [
        | inl (e, i) ↦ elim (a.0 i) [ inl y ↦ inl y | inr j ↦ inr ((Has-same s r.key x e).0 j) ]
        | inr (ne, i) ↦ inr i
      ]),
      (λ m. elim m [
        | inl y ↦ h.1 (inl (ap (λ z. z.key) (sym y), a.1 (inl y)))
        | inr i ↦ elim (Bool-cases (r.key == x.key)) [
          | inl t ↦
              (let e = (key_eq.same_iff r.key x.key).0 t in
                h.1 (inl (e, a.1 (inr ((Has-same s r.key x e).1 i)))))
          | inr f ↦ h.1 (inr (unequal r.key x.key f, i))
        ]
      ]),
    )

pub add-Has_iff :
    (r : ProxyRule) (s : ProxyState) (x : ProxyRule)
    → Has (userspace_proxy_add r s).1 x ↔ ((x ≡ r) ⊎ Has s x)
unfolding userspace_proxy_add
add-Has_iff r s x = elim (Bool-cases (has_rule r (rules_at r.key s))) [
  | inl e ↦ rw e (
    (λ i. inr i),
    (λ m. elim m [
      | inl y ↦ subst (Has s) (sym y) ((has_rule_iff r (rules_at r.key s)).0 e)
      | inr i ↦ i
    ]),
  )
  | inr e ↦ rw e (add_new_iff r (or_new (lookup r.key s.proxies)) s x)
]

-- The rule was there and nothing changes, or it was not and it alone is new.
abbrev pub IsAdded : ProxyRule → ProxyState → Type 0
IsAdded r s =
    (Has s r × (userspace_proxy_add r s ≡ (exists, s)))
    ⊎ (¬ (Has s r)
        × ((userspace_proxy_add r s).0 ≡ ok)
        × ((x : ProxyRule) → Has (userspace_proxy_add r s).1 x ↔ ((x ≡ r) ⊎ Has s x)))

pub missing : (r : ProxyRule) (rules : List ProxyRule) → has_rule r rules ≡ false → ¬ (In r rules)
missing r rules e m = absurd (ground (arith, (has_rule_iff r rules).1 m))

-- An addition either fails because the table has the rule, and changes nothing, or succeeds, and
-- afterwards the table has that rule, the rules it had before, and no more.
pub add-IsAdded : (r : ProxyRule) (s : ProxyState) → IsAdded r s
unfolding userspace_proxy_add
add-IsAdded r s = elim (Bool-cases (has_rule r (rules_at r.key s))) [
  | inl e ↦ inl ((has_rule_iff r (rules_at r.key s)).0 e, rw e refl)
  | inr e ↦ inr (missing r (rules_at r.key s) e, rw e refl, add-Has_iff r s)
]

IsDistinct-append :
    (r : ProxyRule) (rules : List ProxyRule)
    → ¬ (In r rules)
    → IsDistinct rules
    → IsDistinct (rules ++ r ∷ [])
IsDistinct-append r [] h d = ((λ m. m), tt)
IsDistinct-append r (rule ∷ rules) h (new, d) = (
  (λ m. elim ((In-append_iff rule r rules).0 m) [ inl y ↦ h (inl (sym y)) | inr i ↦ new i ]),
  IsDistinct-append r rules (λ m. h (inr m)) d,
)

IsDistinct-if :
    (b : Bool) (xs ys : List ProxyRule)
    → IsDistinct xs
    → IsDistinct ys
    → IsDistinct (if b then xs else ys)
IsDistinct-if true xs ys a b = a
IsDistinct-if false xs ys a b = b

-- If no rule stands twice at a key, none does after an addition.
pub add-IsDistinct :
    (r : ProxyRule) (s : ProxyState)
    → ((k : ProxyKey) → IsDistinct (rules_at k s))
    → (k : ProxyKey) → IsDistinct (rules_at k (userspace_proxy_add r s).1)
unfolding userspace_proxy_add
add-IsDistinct r s d k = elim (Bool-cases (has_rule r (rules_at r.key s))) [
  | inl e ↦ rw e (d k)
  | inr e ↦ rw e (
      subst IsDistinct
        (sym
          (rules_at-put r.key k (or_new (lookup r.key s.proxies)) (rules_at r.key s ++ r ∷ []) s))
        (IsDistinct-if (r.key == k) (rules_at r.key s ++ r ∷ []) (rules_at k s)
          (IsDistinct-append r (rules_at r.key s) (missing r (rules_at r.key s) e) (d r.key))
          (d k)))
]
