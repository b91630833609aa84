-- ===== src/Proxy/Parsed.antt =====
-- internal/nexodus/proxyrule.go: what `ParseProxyRule` returns.
use Prim.Native.Char.{Char, code}
use mathlib.Core.Path.{subst}
use nexodus.Prelude.{
  ℕ, ◌≡◌, ◌≢◌, refl, sym, ap, ◌∙◌, String, false, Option, none, some, List, [], ◌∷◌, arith, eqb,
  Bool-cases, Option-cases, eq_of_some, inl, inr, ◌==◌, string_eq, eq_iff,
}
use nexodus.Prelude.Integers.{ℤ}
use nexodus.Prelude.Numerals.{atoi}
use nexodus.Prelude.Pieces.{contains_char, split_at_char, join}
use nexodus.Prelude.Cut.{cut, push_first, contains-append, join-split}
use nexodus.Proxy.{
  ProxyType, ProxyProtocol, ProxyRule, parse_proxy_protocol, parse_port, in_port_range,
  split_host_port, parse_proxy_rule, finish_rule, parse_parts, bracketed, unbracketed,
}
use nexodus.Proxy.RoundTrip.{IsPort, IsProxyRule}

in_port_range-IsPort : (o : Option ℤ) (n : ℕ) → in_port_range o ≡ some n → IsPort n
in_port_range-IsPort o n h = ground arith

cut_before_at :
    (k : ℕ) (c : Char) (o : Option (String × String)) (a b : String)
    → eqb (code c) k ≡ false
    → push_first c o ≡ some (a, b)
    → (a' : String) × (b' : String) × (o ≡ some (a', b')) × (a ≡ String.◌∷◌ c a')
cut_before_at k c none a b x h = absurd (ground arith)
cut_before_at k c (some (a', b')) a b x h = (a', b', refl, sym (ap (λ p. p.0) (eq_of_some h)))

contains_more :
    (k : ℕ) (c : Char) (s : String)
    → eqb (code c) k ≡ false
    → contains_char k s ≡ false
    → contains_char k (String.◌∷◌ c s) ≡ false
unfolding contains_char
contains_more k c s x h = ground arith

contains_nothing : (k : ℕ) → contains_char k "" ≡ false
unfolding contains_char
contains_nothing k = refl

cut_before : (k : ℕ) (s a b : String) → cut k s ≡ some (a, b) → contains_char k a ≡ false
unfolding cut
cut_before k String.[] a b h = absurd (ground arith)
cut_before k (String.◌∷◌ c s) a b h = elim (Bool-cases (eqb (code c) k)) [
  | inl x ↦
      (let same : some ("", s) ≡ some (a, b) = sym (rw x refl) ∙ h in
        rw (sym (ap (λ p. p.0) (eq_of_some same))) (contains_nothing k))
  | inr x ↦
      (let (a', b', e, same) = cut_before_at k c (cut k s) a b x (sym (rw x refl) ∙ h) in
        rw same (contains_more k c a' x (cut_before k s a' b' e)))
]

bracketed_inv :
    (host rest h p : String)
    → bracketed (some (host, rest)) ≡ some (h, p)
    → (host ≡ h) × (contains_char b'[' host ≡ false)
bracketed_inv host String.[] h p e = ground arith
bracketed_inv host (String.◌∷◌ c port) h p e = ground arith

unbracketed_inv :
    (s : String) (ps : List String) (h p : String)
    → unbracketed s ps ≡ some (h, p)
    → (ps ≡ h ∷ p ∷ []) × (contains_char b'[' s ≡ false) × (contains_char b']' s ≡ false)
unbracketed_inv s [] h p e = absurd (ground arith)
unbracketed_inv s (a ∷ []) h p e = absurd (ground arith)
unbracketed_inv s (a ∷ b ∷ []) h p e = ground arith
unbracketed_inv s (a ∷ b ∷ c ∷ ps) h p e = absurd (ground arith)

abbrev built : ProxyType → ProxyProtocol → ℕ → String → ℕ → ProxyRule
built t q p host n = record {
  key = record { rule_type = t; protocol = q; listen_port = p };
  dest = record { host = host; port = n };
  stored = false;
}

-- Which parts a rule was made of.
abbrev IsMadeOf : ProxyType → Option ℕ → Option (String × String) → ProxyRule → Type 0
IsMadeOf t p d r =
    (dest_port : String) × (p ≡ some r.key.listen_port)
    × (d ≡ some (r.dest.host, dest_port))
    × (parse_port dest_port ≡ some r.dest.port)
    × (r.dest.host ≢ "")
    × (r.key.rule_type ≡ t)
    × (r.stored ≡ false)

finish_runs :
    (t : ProxyType) (q : ProxyProtocol) (p : ℕ) (host dest_port : String) (n : ℕ) (r : ProxyRule)
    → parse_port dest_port ≡ some n
    → finish_rule t (some q) (some p) (some (host, dest_port)) ≡ some r
    → (host ≢ "") × (built t q p host n ≡ r)
finish_runs t q p host dest_port n r h e = elim (Bool-cases (host == "")) [
  | inl x ↦ absurd (ground arith)
  | inr x ↦ ((λ y. absurd (ground (arith, eq_iff host ""))), eq_of_some (sym (rw (x, h) refl) ∙ e))
]

finish-IsMadeOf :
    (t : ProxyType) (q : Option ProxyProtocol) (p : Option ℕ) (d : Option (String × String))
    (r : ProxyRule)
    → finish_rule t q p d ≡ some r
    → IsMadeOf t p d r
finish-IsMadeOf t none p d r e = absurd (ground arith)
finish-IsMadeOf t (some q) none d r e = absurd (ground arith)
finish-IsMadeOf t (some q) (some p) none r e = absurd (ground arith)
finish-IsMadeOf t (some q) (some p) (some (host, dest_port)) r e =
    elim (Option-cases (parse_port dest_port)) [
      | inl h ↦ absurd (ground arith)
      | inr (n, h) ↦
          let (ne, same) = finish_runs t q p host dest_port n r h e in
          subst (IsMadeOf t (some p) (some (host, dest_port))) same
            (dest_port, refl, refl, h, ne, refl, refl)
    ]

parse_port-IsPort : (s : String) (n : ℕ) → parse_port s ≡ some n → IsPort n
unfolding parse_port
parse_port-IsPort s n h = in_port_range-IsPort (atoi s) n h

-- A host has no bracket, whichever form it was written in.
HasNoBracket : String → Type 0
HasNoBracket host = (contains_char b'[' host ≡ false) × (contains_char b']' host ≡ false)

bracketed-HasNoBracket :
    (s h p : String) (o : Option (String × String))
    → cut b']' s ≡ o
    → bracketed o ≡ some (h, p)
    → HasNoBracket h
unfolding HasNoBracket
bracketed-HasNoBracket s h p none e x = absurd (ground arith)
bracketed-HasNoBracket s h p (some (host, rest)) e x =
    let (same, free) = bracketed_inv host rest h p x in
    (rw (sym same) free, rw (sym same) (cut_before b']' s host rest e))

front_free :
    (k : ℕ) (h p : String)
    → contains_char k (join ":" (h ∷ p ∷ [])) ≡ false
    → contains_char k h ≡ false
unfolding join
front_free k h p e = ground (arith, contains-append k h (String.◌∷◌ ":" p))

unbracketed-HasNoBracket :
    (s h p : String) → unbracketed s (split_at_char b':' s) ≡ some (h, p) → HasNoBracket h
unfolding HasNoBracket
unbracketed-HasNoBracket s h p x =
    let (e, a, b) = unbracketed_inv s (split_at_char b':' s) h p x in
    let whole = sym (join-split ":" s) ∙ ap (join ":") e in
    (front_free b'[' h p (rw (sym whole) a), front_free b']' h p (rw (sym whole) b))

split-HasNoBracket : (s h p : String) → split_host_port s ≡ some (h, p) → HasNoBracket h
unfolding split_host_port
split-HasNoBracket String.[] h p x = absurd (ground arith)
split-HasNoBracket (String.◌∷◌ c s) h p x = elim (Bool-cases (eqb (code c) b'[')) [
  | inl e ↦ bracketed-HasNoBracket s h p (cut b']' s) refl (sym (rw e refl) ∙ x)
  | inr e ↦ unbracketed-HasNoBracket (String.◌∷◌ c s) h p (sym (rw e refl) ∙ x)
]

parts-IsProxyRule :
    (t : ProxyType) (ps : List String) (r : ProxyRule)
    → parse_parts t ps ≡ some r
    → IsProxyRule r × (r.key.rule_type ≡ t) × (r.stored ≡ false)
unfolding HasNoBracket
parts-IsProxyRule t [] r x = absurd (ground arith)
parts-IsProxyRule t (a ∷ []) r x = absurd (ground arith)
parts-IsProxyRule t (a ∷ b ∷ []) r x = absurd (ground arith)
parts-IsProxyRule t (a ∷ b ∷ c ∷ []) r x = absurd (ground arith)
parts-IsProxyRule t (proto ∷ port ∷ a ∷ b ∷ rest) r x =
    let d = join ":" (a ∷ b ∷ rest) in
    let (dest_port, p, e, n, ne, ty, st) =
      finish-IsMadeOf t (parse_proxy_protocol proto) (parse_port port) (split_host_port d) r x in
    let (f, g) = split-HasNoBracket d r.dest.host dest_port e in
    (
      (
        parse_port-IsPort port r.key.listen_port p,
        (ne, f, g),
        parse_port-IsPort dest_port r.dest.port n,
      ),
      ty,
      st,
    )

-- A rule that the parser returns has ports from 1 to 65535, a host that is not empty and has no
-- bracket, the type that was asked for, and no mark of a stored rule.
pub parse-IsProxyRule :
    (s : String) (t : ProxyType) (r : ProxyRule)
    → parse_proxy_rule s t ≡ some r
    → IsProxyRule r × (r.key.rule_type ≡ t) × (r.stored ≡ false)
unfolding parse_proxy_rule
parse-IsProxyRule s t r x = parts-IsProxyRule t (split_at_char b':' s) r x
