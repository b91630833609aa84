-- ===== src/Proxy/Tests.antt =====
-- internal/nexodus/proxyrule.go: runs, and the theorems at concrete rules.
use nexodus.Prelude.{
  ◌≡◌, refl, String, Bool, true, false, Option, some, none, List, [], ◌∷◌, arith, eq_iff,
}
use nexodus.Prelude.Pieces.{contains_char, split_at_char, join}
use nexodus.Proxy.{
  ProxyType, egress, ingress, ProxyProtocol, tcp, udp, ProxyKey, HostAndPort, ProxyRule,
  rule_string, parse_proxy_rule,
}
use nexodus.Proxy.RoundTrip.{IsProxyRule, parse-rule_string}
use nexodus.Proxy.Parsed.{parse-IsProxyRule}

abbrev to_v6 : ProxyRule
to_v6 = record {
  key = record { rule_type = ingress; protocol = udp; listen_port = 53 };
  dest = record { host = "200::5"; port = 5353 };
  stored = true;
}

rule_string_runs : rule_string to_v6 ≡ "udp:53:[200::5]:5353"
unfolding rule_string nexodus.Prelude.Text.concat nexodus.Prelude.Text.itoa
    nexodus.Proxy.host_port_string nexodus.Proxy.join_host_port contains_char
rule_string_runs = refl

too_few_parts : parse_proxy_rule "tcp:80:localhost" egress ≡ none
unfolding parse_proxy_rule split_at_char
too_few_parts = refl

parsed : parse_proxy_rule "udp:53:[200::5]:5353" ingress ≡ some (record to_v6 { stored = false })
unfolding parse_proxy_rule split_at_char nexodus.Proxy.parse_proxy_protocol nexodus.Proxy.parse_port
    nexodus.Prelude.Numerals.atoi nexodus.Proxy.split_host_port join nexodus.Prelude.Cut.cut
    contains_char
parsed = refl

parse-rule_string_example :
    parse_proxy_rule (rule_string to_v6) ingress ≡ some (record to_v6 { stored = false })
unfolding contains_char
parse-rule_string_example = parse-rule_string to_v6 (
  (omega arith, omega arith),
  (ground (arith, eq_iff "200::5" ""), refl, refl),
  (omega arith, omega arith),
)

parse-IsProxyRule_example :
    IsProxyRule (record to_v6 { stored = false }) × (ingress ≡ ingress) × (false ≡ false)
parse-IsProxyRule_example =
    parse-IsProxyRule "udp:53:[200::5]:5353" ingress (record to_v6 { stored = false }) parsed
