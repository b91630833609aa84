-- ===== src/Proxy/Table/Stored.antt =====
-- internal/nexodus/userspace_proxy.go: the rules that are stored are the rules that are loaded.
use mathlib.Core.Path.{subst}
use nexodus.Prelude.{
  ◌≡◌, refl, sym, ap, ◌∙◌, ◌↔◌, ◌⊎◌, inl, inr, String, true, false, ◌&&◌, some, List, [], ◌∷◌, ◌++◌,
  arith, In, Every, Bool-cases, eq_of_some,
}
use nexodus.Prelude.Maps.{Map, lookup}
use nexodus.Proxy.{ProxyType, egress, ingress, ProxyKey, ProxyRule, parse_proxy_rule, rule_string}
use nexodus.Proxy.RoundTrip.{IsProxyRule, parse-rule_string}
use nexodus.Proxy.Table.{
  key_eq, same_type, UsProxy, ProxyState, load_texts, load_proxy_rules, store_proxy_rules, texts_of,
  stored_texts,
}
use nexodus.Proxy.Table.Members.{Has}
use nexodus.Proxy.Table.Loaded.{mark, IsNamed, AreRules, load-Has}

-- The rules of all the proxies.
abbrev pub InSome : ProxyRule → Map ProxyKey UsProxy → Type 0
InSome x [] = ⊥
InSome x ((k, proxy) ∷ m) = In x proxy.rules ⊎ InSome x m

abbrev pub AllValid : Map ProxyKey UsProxy → Type 0
AllValid m = Every m (λ e. Every e.1.rules IsProxyRule)

-- A rule that is stored, of the type.
abbrev IsKept : ProxyType → ProxyRule → Type 0
IsKept t x = (x.stored ≡ true) × (x.key.rule_type ≡ t)

reads_back :
    (t : ProxyType) (r : ProxyRule)
    → IsProxyRule r
    → r.key.rule_type ≡ t
    → parse_proxy_rule (rule_string r) t ≡ some (record r { stored = false })
reads_back t r v e =
    subst (λ u. parse_proxy_rule (rule_string r) u ≡ some (record r { stored = false })) e
      (parse-rule_string r v)

IsKept-iff :
    (t : ProxyType) (r : ProxyRule) → (r.stored && same_type r.key.rule_type t ≡ true) ↔ IsKept t r
IsKept-iff t r = ground arith

mark_again : (r : ProxyRule) → r.stored ≡ true → mark (record r { stored = false }) ≡ r
mark_again r e = ground arith

-- What the text of a stored rule describes is the rule.
named_iff :
    (t : ProxyType) (r x : ProxyRule)
    → IsProxyRule r
    → IsKept t r
    → ((r₀ : ProxyRule) × (parse_proxy_rule (rule_string r) t ≡ some r₀) × (x ≡ mark r₀)) ↔ (x ≡ r)
named_iff t r x v (st, ty) =
    let e = reads_back t r v ty in
    (
      (λ (r₀, e₀, y). y ∙ ap mark (eq_of_some (sym e₀ ∙ e)) ∙ mark_again r st),
      (λ y. (record r { stored = false }, e, y ∙ sym (mark_again r st))),
    )

IsKept-here :
    {A B I : Type 0} (t : ProxyType) (r x : ProxyRule)
    → IsKept t r
    → A ↔ (x ≡ r)
    → B ↔ (I × IsKept t x)
    → (A ⊎ B) ↔ (((x ≡ r) ⊎ I) × IsKept t x)
IsKept-here t r x k f g = (
  (λ m. elim m [
    | inl y ↦ (inl (f.0 y), subst (IsKept t) (sym (f.0 y)) k)
    | inr i ↦ (inr (g.0 i).0, (g.0 i).1)
  ]),
  (λ (m, kx). elim m [ inl y ↦ inl (f.1 y) | inr i ↦ inr (g.1 (i, kx)) ]),
)

passed_over :
    {B I : Type 0} (t : ProxyType) (r x : ProxyRule)
    → ¬ (IsKept t r)
    → B ↔ (I × IsKept t x)
    → B ↔ (((x ≡ r) ⊎ I) × IsKept t x)
passed_over t r x k g = (
  (λ i. (inr (g.0 i).0, (g.0 i).1)),
  (λ (m, kx). elim m [ inl y ↦ absurd (k (subst (IsKept t) y kx)) | inr i ↦ g.1 (i, kx) ]),
)

not-IsKept :
    (t : ProxyType) (r : ProxyRule)
    → (r.stored && same_type r.key.rule_type t) ≡ false
    → ¬ (IsKept t r)
not-IsKept t r e k = absurd (ground (arith, (IsKept-iff t r).1 k))

-- What the texts describe: the rules of the list that are stored and of the type.
abbrev Describe : ProxyType → List String → (ProxyRule → Type 0) → Type 0
Describe t texts P = AreRules t texts × ((x : ProxyRule) → IsNamed t texts x ↔ (P x × IsKept t x))

texts-Describe :
    (t : ProxyType) (rules : List ProxyRule)
    → Every rules IsProxyRule
    → Describe t (texts_of t rules) (λ x. In x rules)
texts-Describe t [] v = (tt, λ x. ground arith)
texts-Describe t (r ∷ rules) (v, vs) =
    let (a, h) = texts-Describe t rules vs in
    elim (Bool-cases (r.stored && same_type r.key.rule_type t)) [
      | inl e ↦
          (let k = (IsKept-iff t r).0 e in
            rw e (
              ((record r { stored = false }, reads_back t r v k.1), a),
              λ x. IsKept-here t r x k (named_iff t r x v k) (h x),
            ))
      | inr e ↦ rw e (a, λ x. passed_over t r x (not-IsKept t r e) (h x))
    ]

AreRules-append :
    (t : ProxyType) (xs ys : List String) → AreRules t xs → AreRules t ys → AreRules t (xs ++ ys)
AreRules-append t [] ys a b = b
AreRules-append t (x ∷ xs) ys (r, a) b = (r, AreRules-append t xs ys a b)

IsNamed-append_iff :
    (t : ProxyType) (xs ys : List String) (x : ProxyRule)
    → IsNamed t (xs ++ ys) x ↔ (IsNamed t xs x ⊎ IsNamed t ys x)
IsNamed-append_iff t [] ys x = ground arith
IsNamed-append_iff t (text ∷ xs) ys x = ground (arith, IsNamed-append_iff t xs ys x)

Describe-append :
    (t : ProxyType) (xs ys : List String) (P Q : ProxyRule → Type 0)
    → Describe t xs P
    → Describe t ys Q
    → Describe t (xs ++ ys) (λ x. P x ⊎ Q x)
Describe-append t xs ys P Q (a, h) (b, g) =
    (AreRules-append t xs ys a b, λ x. ground (arith, IsNamed-append_iff t xs ys x, h x, g x))

stored-Describe :
    (t : ProxyType) (m : Map ProxyKey UsProxy)
    → AllValid m
    → Describe t (stored_texts t m) (λ x. InSome x m)
unfolding stored_texts
stored-Describe t [] v = (tt, λ x. ground arith)
stored-Describe t ((k, proxy) ∷ m) (v, vs) =
    Describe-append t (texts_of t proxy.rules) (stored_texts t m) (λ x. In x proxy.rules)
      (λ x. InSome x m) (texts-Describe t proxy.rules v) (stored-Describe t m vs)

-- A new agent that loads what this one stored.
abbrev pub restarted : ProxyState → ProxyState
restarted s = record { proxies = []; config = (store_proxy_rules true s).1.config }

load_runs :
    (s s₁ s₂ : ProxyState)
    → load_texts ingress s.config.ingress_rules s ≡ some s₁
    → load_texts egress s.config.egress_rules s₁ ≡ some s₂
    → load_proxy_rules s ≡ some s₂
unfolding load_proxy_rules
load_runs s s₁ s₂ a b = rw a b

nothing_yet : (s : ProxyState) (x : ProxyRule) → ¬ (Has (restarted s) x)
unfolding lookup
nothing_yet s x h = h

type_is : (t : ProxyType) → (t ≡ egress) ⊎ (t ≡ ingress)
type_is egress = inl refl
type_is ingress = inr refl

-- Ingress rules and then egress rules are all the rules.
both_types :
    {A B C N K P : Type 0} (x : ProxyRule)
    → ¬ A
    → B ↔ (A ⊎ N)
    → C ↔ (B ⊎ K)
    → N ↔ (P × IsKept ingress x)
    → K ↔ (P × IsKept egress x)
    → C ↔ (P × (x.stored ≡ true))
both_types x none_yet b c n k = ground (arith, type_is x.key.rule_type)

-- If every rule of the table has ports from 1 to 65535 and a host that is not empty and has no
-- bracket, an agent that starts with an empty table and loads what this one stored does not end
-- at a text, and its table has exactly the rules of this one that carry the mark of a stored
-- rule.
pub load-store :
    (s : ProxyState)
    → AllValid s.proxies
    → (s' : ProxyState) × (load_proxy_rules (restarted s) ≡ some s')
      × ((x : ProxyRule) → Has s' x ↔ (InSome x s.proxies × (x.stored ≡ true)))
unfolding store_proxy_rules
load-store s v =
    let (a, h) = stored-Describe ingress s.proxies v in
    let (b, g) = stored-Describe egress s.proxies v in
    let (s₁, e₁, m₁) = load-Has ingress (stored_texts ingress s.proxies) (restarted s) a in
    let (s₂, e₂, m₂) = load-Has egress (stored_texts egress s.proxies) s₁ b in
    (
      s₂,
      load_runs (restarted s) s₁ s₂ e₁ e₂,
      λ x. both_types x (nothing_yet s x) (m₁ x) (m₂ x) (h x) (g x),
    )
