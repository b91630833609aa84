-- ===== src/Proxy/Table/Loaded.antt =====
-- internal/nexodus/userspace_proxy.go: a load adds the rules that its texts describe.
use nexodus.Prelude.{
  ◌≡◌, refl, sym, ap, ◌∙◌, ◌↔◌, ◌⊎◌, inl, inr, String, true, some, List, [], ◌∷◌, arith, Every,
  eq_of_some,
}
use nexodus.Proxy.{ProxyType, ProxyRule, parse_proxy_rule}
use nexodus.Proxy.Table.{key_eq, ProxyState, userspace_proxy_add, load_texts}
use nexodus.Proxy.Table.Members.{Has, add-Has_iff}

abbrev pub mark : ProxyRule → ProxyRule
mark r = record r { stored = true }

-- `x` is the rule that one of the texts describes, with the mark of a stored rule.
abbrev pub IsNamed : ProxyType → List String → ProxyRule → Type 0
IsNamed t [] x = ⊥
IsNamed t (text ∷ texts) x =
    ((r : ProxyRule) × (parse_proxy_rule text t ≡ some r) × (x ≡ record r { stored = true }))
    ⊎ IsNamed t texts x

abbrev pub AreRules : ProxyType → List String → Type 0
AreRules t texts = Every texts (λ text. (r : ProxyRule) × (parse_proxy_rule text t ≡ some r))

load_step :
    (t : ProxyType) (text : String) (texts : List String) (s : ProxyState) (r : ProxyRule)
    → parse_proxy_rule text t ≡ some r
    → load_texts t (text ∷ texts) s
      ≡ load_texts t texts (userspace_proxy_add (record r { stored = true }) s).1
unfolding load_texts
load_step t text texts s r e = rw e refl

nothing_loaded : (t : ProxyType) (s : ProxyState) → load_texts t [] s ≡ some s
unfolding load_texts
nothing_loaded t s = refl

one_more_iff :
    (t : ProxyType) (text : String) (texts : List String) (s s' : ProxyState) (r x : ProxyRule)
    → parse_proxy_rule text t ≡ some r
    → Has s' x ↔ (Has (userspace_proxy_add (record r { stored = true }) s).1 x ⊎ IsNamed t texts x)
    → Has s' x ↔ (Has s x ⊎ IsNamed t (text ∷ texts) x)
one_more_iff t text texts s s' r x e h =
    let a = add-Has_iff (record r { stored = true }) s x in
    (
      (λ m. elim (h.0 m) [
        | inl i ↦ elim (a.0 i) [ inl y ↦ inr (inl (r, e, y)) | inr j ↦ inl j ]
        | inr i ↦ inr (inr i)
      ]),
      (λ m. elim m [
        | inl i ↦ h.1 (inl (a.1 (inr i)))
        | inr n ↦ elim n [
          | inl (r₀, e₀, y) ↦ h.1 (inl (a.1 (inl (y ∙ ap mark (eq_of_some (sym e₀ ∙ e))))))
          | inr i ↦ h.1 (inr i)
        ]
      ]),
    )

-- A load adds what the texts describe.
pub load-Has :
    (t : ProxyType) (texts : List String) (s : ProxyState)
    → AreRules t texts
    → (s' : ProxyState) × (load_texts t texts s ≡ some s')
      × ((x : ProxyRule) → Has s' x ↔ (Has s x ⊎ IsNamed t texts x))
load-Has t [] s a = (s, nothing_loaded t s, λ x. ground arith)
load-Has t (text ∷ texts) s ((r, e), a) =
    let r' = record r { stored = true } in
    let s₁ = (userspace_proxy_add r' s).1 in
    let (s', same, h) = load-Has t texts s₁ a in
    (s', load_step t text texts s r e ∙ same, λ x. one_more_iff t text texts s s' r x e (h x))
