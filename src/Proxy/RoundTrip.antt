-- ===== src/Proxy/RoundTrip.antt =====
-- internal/nexodus/proxyrule.go: `ParseProxyRule` and `ProxyRule.String`.
use Prim.Native.String.{◌++◌ as add}
use text.Mathlib.TextLemmas.{append-nil}
use nexodus.Prelude.{
  ℕ, ◌≤◌, ◌≡◌, ◌≢◌, refl, sym, ap, ◌∙◌, String, true, false, some, List, ◌∷◌, arith, Bool-cases,
  inl, inr, string_eq, eq_iff,
}
use nexodus.Prelude.Text.{concat, itoa}
use nexodus.Prelude.Pieces.{contains_char, split_at_char, join, split_front}
use nexodus.Prelude.Cut.{contains-append, one_char, join-split, pieces_of}
use nexodus.Prelude.Numerals.{atoi-itoa, contains-itoa}
use nexodus.Proxy.{
  ProxyType, ProxyProtocol, tcp, udp, ProxyRule, protocol_name, parse_proxy_protocol, parse_port,
  join_host_port, split_host_port, host_port_string, rule_string, parse_proxy_rule, finish_rule,
  parse_parts,
}
use nexodus.Proxy.HostPort.{split-join_host_port, bracket_form, plain_form}

abbrev pub IsPort : ℕ → Type 0
IsPort n = (1 ≤ n) × (n ≤ 65535)

-- A host that is not empty and has no bracket.
abbrev pub IsHost : String → Type 0
IsHost host = (host ≢ "") × (contains_char b'[' host ≡ false) × (contains_char b']' host ≡ false)

abbrev pub IsProxyRule : ProxyRule → Type 0
IsProxyRule r = IsPort r.key.listen_port × IsHost r.dest.host × IsPort r.dest.port

parse-protocol_name : (q : ProxyProtocol) → parse_proxy_protocol (protocol_name q) ≡ some q
unfolding parse_proxy_protocol
parse-protocol_name tcp = refl
parse-protocol_name udp = refl

contains-protocol_name : (q : ProxyProtocol) → contains_char b':' (protocol_name q) ≡ false
unfolding contains_char
contains-protocol_name tcp = refl
contains-protocol_name udp = refl

parse_port-itoa : (n : ℕ) → IsPort n → parse_port (itoa n) ≡ some n
unfolding parse_port
parse_port-itoa n (a, b) = rw (atoi-itoa n (omega arith)) (ground arith)

contains-here : (k : ℕ) (s t : String) → contains_char k t ≡ true → contains_char k (add s t) ≡ true
contains-here k s t h = rw (contains-append k s t, h) (ground arith)

contains-join_host_port :
    (host port : String) → contains_char b':' (join_host_port host port) ≡ true
unfolding join_host_port contains_char join
contains-join_host_port host port = elim (Bool-cases (contains_char b':' host)) [
  | inl h ↦
      rw
        (
          h,
          bracket_form host port,
          contains-append b':' host (String.◌∷◌ "]" (String.◌∷◌ ":" port)),
        )
        (ground (arith, h))
  | inr h ↦ rw (h, plain_form host port) (contains-here b':' host (String.◌∷◌ ":" port) refl)
]

-- The three parts of a rule's text.
rule_form :
    (r : ProxyRule)
    → rule_string r
      ≡ add
          (protocol_name r.key.protocol)
          (String.◌∷◌ ":" (add (itoa r.key.listen_port) (String.◌∷◌ ":" (host_port_string r.dest))))
unfolding rule_string concat
rule_form r =
    rw
      (
        append-nil (host_port_string r.dest),
        one_char ":" (host_port_string r.dest),
        one_char ":" (add (itoa r.key.listen_port) (String.◌∷◌ ":" (host_port_string r.dest))),
      )
      refl

split-rule_string :
    (r : ProxyRule)
    → split_at_char b':' (rule_string r)
      ≡ protocol_name r.key.protocol
        ∷ itoa r.key.listen_port
        ∷ split_at_char b':' (host_port_string r.dest)
split-rule_string r = rw (rule_form r) (
    split_front (protocol_name r.key.protocol)
      (add (itoa r.key.listen_port) (String.◌∷◌ ":" (host_port_string r.dest))) ":"
      (contains-protocol_name r.key.protocol)
    ∙ ap (λ ps. protocol_name r.key.protocol ∷ ps)
        (split_front (itoa r.key.listen_port) (host_port_string r.dest) ":"
          (contains-itoa b':' r.key.listen_port refl)))

finish_lem :
    (t : ProxyType) (q : ProxyProtocol) (p : ℕ) (host : String) (n : ℕ)
    → host ≢ ""
    → IsPort n
    → finish_rule t (some q) (some p) (some (host, itoa n))
      ≡ some record {
        key = record { rule_type = t; protocol = q; listen_port = p };
        dest = record { host = host; port = n };
        stored = false;
      }
finish_lem t q p host n ne h = rw (parse_port-itoa n h) (ground (arith, eq_iff host ""))

-- The parts behind the first two are put together again.
parts_lem :
    (t : ProxyType) (proto port s x y : String) (rest : List String)
    → split_at_char b':' s ≡ x ∷ y ∷ rest
    → parse_parts t (proto ∷ port ∷ split_at_char b':' s)
      ≡ finish_rule t (parse_proxy_protocol proto) (parse_port port) (split_host_port s)
parts_lem t proto port s x y rest e = rw e (
    ap (λ u. finish_rule t (parse_proxy_protocol proto) (parse_port port) (split_host_port u))
      (sym (ap (join ":") e) ∙ join-split ":" s))

-- A rule with ports from 1 to 65535 and a host that is not empty and has no bracket is read back from
-- its text, with the mark of a stored rule off; an IPv6 address may be the host.
pub parse-rule_string :
    (r : ProxyRule)
    → IsProxyRule r
    → parse_proxy_rule (rule_string r) r.key.rule_type ≡ some (record r { stored = false })
unfolding parse_proxy_rule host_port_string
parse-rule_string r (p, (ne, a, b), n) =
    let t = r.key.rule_type in
    let port = itoa r.dest.port in
    let joined = join_host_port r.dest.host port in
    let (x, y, rest, e) = pieces_of b':' joined (contains-join_host_port r.dest.host port) in
    ap (parse_parts t) (split-rule_string r)
    ∙ parts_lem t (protocol_name r.key.protocol) (itoa r.key.listen_port) joined x y rest e
    ∙ rw
        (
          parse-protocol_name r.key.protocol,
          parse_port-itoa r.key.listen_port p,
          split-join_host_port r.dest.host port a b (contains-itoa b':' r.dest.port refl)
              (contains-itoa b'[' r.dest.port refl) (contains-itoa b']' r.dest.port refl),
        )
        (finish_lem t r.key.protocol r.key.listen_port r.dest.host r.dest.port ne n)
