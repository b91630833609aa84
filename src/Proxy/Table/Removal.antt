-- ===== src/Proxy/Table/Removal.antt =====
-- internal/nexodus/userspace_proxy.go: a removal takes one rule from the table.
use mathlib.Core.Path.{subst}
use nexodus.Prelude.{
  ◌≡◌, ◌≢◌, refl, sym, ap, ◌∙◌, ◌↔◌, ◌⊎◌, inl, inr, Bool, true, false, Option, none, some, List, [],
  ◌∷◌, ◌==◌, if◌then◌else◌, In, Bool-cases, Option-cases,
}
use nexodus.Prelude.Maps.{lookup, delete, lookup-delete}
use nexodus.Proxy.{ProxyKey, ProxyRule}
use nexodus.Proxy.Table.{
  key_eq, rule_eq, UsProxy, ProxyState, ok, not_found, or_new, has_rule, put_rules, remove_rule,
  remove_at, drop_rule, userspace_proxy_remove,
}
use nexodus.Proxy.Table.Rules.{
  has_rule_iff, IsDistinct, IsWithout, remove_rule-none, remove_rule_lem,
}
use nexodus.Proxy.Table.Members.{rules_at, Has, In-if, Has-put_iff, Has-same, unequal, missing}

pick_none :
    (b : Bool) (o : Option UsProxy)
    → (or_new (if b then none else o)).rules ≡ (if b then [] else (or_new o).rules)
pick_none true o = refl
pick_none false o = refl

rules_at-delete :
    (k j : ProxyKey) (s : ProxyState)
    → rules_at j (record s { proxies = delete k s.proxies }) ≡ (if k == j then [] else rules_at j s)
rules_at-delete k j s =
    rw (rules_at, lookup-delete k j s.proxies) (pick_none (k == j) (lookup j s.proxies))

Has-delete_iff :
    (k : ProxyKey) (s : ProxyState) (x : ProxyRule)
    → Has (record s { proxies = delete k s.proxies }) x
      ↔ (((k ≡ x.key) × In x []) ⊎ ((k ≢ x.key) × Has s x))
Has-delete_iff k s x =
    subst (λ l. In x l ↔ (((k ≡ x.key) × In x []) ⊎ ((k ≢ x.key) × Has s x)))
      (sym (rules_at-delete k x.key s))
      (In-if (k == x.key) x [] (rules_at x.key s) (key_eq.same_iff k x.key))

-- If the rules of key `r.key` become the others of that key, the table becomes the others.
without_iff :
    (r x : ProxyRule) (rest : List ProxyRule) (s s' : ProxyState)
    → IsWithout r (rules_at r.key s) rest
    → Has s' x ↔ (((r.key ≡ x.key) × In x rest) ⊎ ((r.key ≢ x.key) × Has s x))
    → Has s' x ↔ (Has s x × (x ≢ r))
without_iff r x rest s s' w h = (
  (λ m. elim (h.0 m) [
    | inl (e, i) ↦ ((Has-same s r.key x e).0 ((w x).0 i).0, ((w x).0 i).1)
    | inr (ne, i) ↦ (i, λ y. ne (ap (λ z. z.key) (sym y)))
  ]),
  (λ (m, ne). elim (Bool-cases (r.key == x.key)) [
    | inl t ↦
        (let e = (key_eq.same_iff r.key x.key).0 t in
          h.1 (inl (e, (w x).1 ((Has-same s r.key x e).1 m, ne))))
    | inr f ↦ h.1 (inr (unequal r.key x.key f, m))
  ]),
)

-- The rule was not there and nothing changes, or it was there and it alone is gone.
abbrev pub IsGone : ProxyRule → ProxyState → Type 0
IsGone r s =
    (¬ (Has s r) × (userspace_proxy_remove r s ≡ some (not_found, s)))
    ⊎ (Has s r
        × (s' : ProxyState) × (userspace_proxy_remove r s ≡ some (ok, s'))
        × ((x : ProxyRule) → Has s' x ↔ (Has s x × (x ≢ r))))

drop_lem :
    (r : ProxyRule) (proxy : UsProxy) (rest : List ProxyRule) (s : ProxyState)
    → proxy.started ≡ true
    → IsWithout r (rules_at r.key s) rest
    → (s' : ProxyState) × (drop_rule r.key proxy (some rest) s ≡ some (ok, s'))
      × ((x : ProxyRule) → Has s' x ↔ (Has s x × (x ≢ r)))
unfolding drop_rule
drop_lem r proxy [] s t w = (
  record s { proxies = delete r.key s.proxies },
  rw t refl,
  λ x.
      without_iff r x [] s (record s { proxies = delete r.key s.proxies }) w
        (Has-delete_iff r.key s x),
)
drop_lem r proxy (rule ∷ rest) s t w = (
  put_rules r.key proxy (rule ∷ rest) s,
  refl,
  λ x.
      without_iff r x (rule ∷ rest) s (put_rules r.key proxy (rule ∷ rest) s) w
        (Has-put_iff r.key proxy (rule ∷ rest) s x),
)

remove_at_none :
    (r : ProxyRule) (s : ProxyState)
    → lookup r.key s.proxies ≡ none
    → userspace_proxy_remove r s ≡ some (not_found, s)
unfolding userspace_proxy_remove remove_at
remove_at_none r s e = rw e refl

remove_at_some :
    (r : ProxyRule) (s : ProxyState) (proxy : UsProxy)
    → lookup r.key s.proxies ≡ some proxy
    → userspace_proxy_remove r s ≡ drop_rule r.key proxy (remove_rule r proxy.rules) s
unfolding userspace_proxy_remove remove_at
remove_at_some r s proxy e = rw e refl

drop_nothing :
    (k : ProxyKey) (proxy : UsProxy) (s : ProxyState)
    → drop_rule k proxy none s ≡ some (not_found, s)
unfolding drop_rule
drop_nothing k proxy s = refl

rules_at-some :
    (k : ProxyKey) (s : ProxyState) (proxy : UsProxy)
    → lookup k s.proxies ≡ some proxy
    → rules_at k s ≡ proxy.rules
rules_at-some k s proxy e = rw (rules_at, e) refl

pub remove_missing :
    (r : ProxyRule) (s : ProxyState)
    → ¬ (Has s r)
    → userspace_proxy_remove r s ≡ some (not_found, s)
remove_missing r s h = elim (Option-cases (lookup r.key s.proxies)) [
  | inl e ↦ remove_at_none r s e
  | inr (proxy, e) ↦
      remove_at_some r s proxy e
      ∙ rw
          (remove_rule-none r proxy.rules
            (λ m. h (subst (In r) (sym (rules_at-some r.key s proxy e)) m)))
          (drop_nothing r.key proxy s)
]

remove_present :
    (r : ProxyRule) (s : ProxyState)
    → IsDistinct (rules_at r.key s)
    → (or_new (lookup r.key s.proxies)).started ≡ true
    → Has s r
    → (s' : ProxyState) × (userspace_proxy_remove r s ≡ some (ok, s'))
      × ((x : ProxyRule) → Has s' x ↔ (Has s x × (x ≢ r)))
remove_present r s d t m = elim (Option-cases (lookup r.key s.proxies)) [
  | inl e ↦ absurd (subst (λ o. In r (or_new o).rules) e m)
  | inr (proxy, e) ↦
      let here = rules_at-some r.key s proxy e in
      let (rest, same, w) =
        remove_rule_lem r proxy.rules (subst (In r) here m) (subst IsDistinct here d) in
      let (s', drops, h) =
        drop_lem r proxy rest s (subst (λ o. (or_new o).started ≡ true) e t)
          (subst (λ l. IsWithout r l rest) (sym here) w) in
      (s', remove_at_some r s proxy e ∙ rw same drops, h)
]

-- Where no rule stands twice at the key of the rule and its proxy was started, a removal either
-- fails because the table does not have the rule, and changes nothing, or succeeds without a
-- panic, and afterwards the table has the other rules and no more.
pub remove-IsGone :
    (r : ProxyRule) (s : ProxyState)
    → IsDistinct (rules_at r.key s)
    → (or_new (lookup r.key s.proxies)).started ≡ true
    → IsGone r s
remove-IsGone r s d t = elim (Bool-cases (has_rule r (rules_at r.key s))) [
  | inl e ↦
      (let m = (has_rule_iff r (rules_at r.key s)).0 e in
        let (s', same, h) = remove_present r s d t m in inr (m, s', same, h))
  | inr e ↦ (let h = missing r (rules_at r.key s) e in inl (h, remove_missing r s h))
]
