-- ===== src/Proxy.antt =====
-- internal/nexodus/proxyrule.go: the rules of the userspace proxy, as texts and as records.
pub mod HostPort
pub mod RoundTrip
pub mod Parsed
pub mod Table
mod Tests
use nexodus.Prelude.{
  ℕ, suc, ◌+◌, ◌≤◌, ◌≡◌, refl, String, Bool, true, false, ◌&&◌, ◌||◌, Option, none, some, List, [],
  ◌∷◌, ◌==◌, eqb, ltb, leb, string_eq, if◌then◌else◌,
}
use Prim.Native.Char.{Char, code}
use nexodus.Prelude.Text.{concat, itoa}
use nexodus.Prelude.Integers.{ℤ, pos, negsuc}
use nexodus.Prelude.Pieces.{contains_char, split_at_char, join}
use nexodus.Prelude.Cut.{cut}
use nexodus.Prelude.Numerals.{atoi}

pub data ProxyType : Type 0 where
  egress : ProxyType
  ingress : ProxyType

-- `ProxyProtocol`, which `parseProxyProtocol` makes one of two texts.
pub data ProxyProtocol : Type 0 where
  tcp : ProxyProtocol
  udp : ProxyProtocol

pub record ProxyKey : Type 0 where
  pub rule_type : ProxyType
  pub protocol : ProxyProtocol
  pub listen_port : ℕ

pub record HostAndPort : Type 0 where
  pub host : String
  pub port : ℕ

pub record ProxyRule : Type 0 where
  pub key : ProxyKey
  pub dest : HostAndPort
  pub stored : Bool

abbrev pub type_name : ProxyType → String
type_name egress = "egress"
type_name ingress = "ingress"

abbrev pub protocol_name : ProxyProtocol → String
protocol_name tcp = "tcp"
protocol_name udp = "udp"

abbrev lower_char : ℕ → ℕ
lower_char c = if leb b'A' c && leb c b'Z' then c + 32 else c

-- The code points of `strings.ToLower`. Outside ASCII a code point is kept: no letter of "tcp" or
-- "udp" is the lower case of one.
abbrev lower_codes : String → List ℕ
lower_codes String.[] = []
lower_codes (String.◌∷◌ c s) = lower_char (code c) ∷ lower_codes s

abbrev same_codes : List ℕ → List ℕ → Bool
same_codes [] [] = true
same_codes (a ∷ rest) (b ∷ more) = eqb a b && same_codes rest more
same_codes _ _ = false

unfoldable pub parse_proxy_protocol : String → Option ProxyProtocol
parse_proxy_protocol s =
    if same_codes (lower_codes s) (lower_codes "tcp")
    then some tcp
    else if same_codes (lower_codes s) (lower_codes "udp")
    then some udp
    else none

abbrev in_port_range : Option ℤ → Option ℕ
in_port_range none = none
in_port_range (some (negsuc n)) = none
in_port_range (some (pos n)) = if ltb n 1 || ltb 65535 n then none else some n

unfoldable pub parse_port : String → Option ℕ
parse_port s = in_port_range (atoi s)

-- `net.JoinHostPort`.
unfoldable pub join_host_port : String → String → String
join_host_port host port =
    if contains_char b':' host
    then concat ("[" ∷ host ∷ "]:" ∷ port ∷ [])
    else concat (host ∷ ":" ∷ port ∷ [])

abbrev pub no_brackets : String → Bool
no_brackets s = if contains_char b'[' s then false else if contains_char b']' s then false else true

-- Behind the closing bracket: a colon, and a port without another colon or bracket.
abbrev pub after_bracket : String → String → Option (String × String)
after_bracket host String.[] = none
after_bracket host (String.◌∷◌ c port) =
    if eqb (code c) b':' && (no_brackets port && (if contains_char b':' port then false else true))
    then some (host, port)
    else none

abbrev pub bracketed : Option (String × String) → Option (String × String)
bracketed none = none
bracketed (some (host, rest)) = if contains_char b'[' host then none else after_bracket host rest

-- Without brackets: one colon.
abbrev pub unbracketed : String → List String → Option (String × String)
unbracketed s (host ∷ port ∷ []) = if no_brackets s then some (host, port) else none
unbracketed s _ = none

-- `net.SplitHostPort`; `none` is any of its errors.
unfoldable pub split_host_port : String → Option (String × String)
split_host_port String.[] = none
split_host_port (String.◌∷◌ c s) =
    if eqb (code c) b'['
    then bracketed (cut b']' s)
    else unbracketed (String.◌∷◌ c s) (split_at_char b':' (String.◌∷◌ c s))

-- `HostPort.String` and `ProxyRule.String`.
unfoldable pub host_port_string : HostAndPort → String
host_port_string hp = join_host_port hp.host (itoa hp.port)

unfoldable pub rule_string : ProxyRule → String
rule_string rule = concat (
    protocol_name rule.key.protocol
    ∷ ":"
    ∷ itoa rule.key.listen_port
    ∷ ":"
    ∷ host_port_string rule.dest
    ∷ [])

abbrev pub with_dest : ProxyType → ProxyProtocol → ℕ → String → Option ℕ → Option ProxyRule
with_dest t q p host none = none
with_dest t q p host (some n) = some record {
  key = record { rule_type = t; protocol = q; listen_port = p };
  dest = record { host = host; port = n };
  stored = false;
}

abbrev pub finish_rule :
    ProxyType → Option ProxyProtocol → Option ℕ → Option (String × String) → Option ProxyRule
finish_rule t none p d = none
finish_rule t (some q) none d = none
finish_rule t (some q) (some p) none = none
finish_rule t (some q) (some p) (some (host, dest_port)) =
    if host == "" then none else with_dest t q p host (parse_port dest_port)

abbrev pub parse_parts : ProxyType → List String → Option ProxyRule
parse_parts t (proto ∷ port ∷ a ∷ b ∷ rest) =
    finish_rule t (parse_proxy_protocol proto) (parse_port port)
      (split_host_port (join ":" (a ∷ b ∷ rest)))
parse_parts t _ = none

-- `none` is an error.
unfoldable pub parse_proxy_rule : String → ProxyType → Option ProxyRule
parse_proxy_rule rule rule_type = parse_parts rule_type (split_at_char b':' rule)
