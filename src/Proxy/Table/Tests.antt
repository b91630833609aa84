-- ===== src/Proxy/Table/Tests.antt =====
-- internal/nexodus/userspace_proxy.go and ctlserver.go: runs, and the theorems at small tables.
use nexodus.Prelude.{
  ◌≡◌, ◌≢◌, refl, sym, ap, inl, inr, ◌↔◌, ◌⊎◌, String, Bool, true, false, Option, some, none, List,
  [], ◌∷◌, arith, eq_iff, In,
}
use nexodus.Prelude.Maps.{Map, lookup}
use nexodus.Prelude.Pieces.{contains_char}
use nexodus.Proxy.{
  ProxyType, egress, ingress, ProxyProtocol, tcp, udp, ProxyKey, HostAndPort, ProxyRule,
  parse_proxy_rule,
}
use nexodus.Proxy.RoundTrip.{IsProxyRule}
use nexodus.Proxy.Table.{
  key_eq, UsProxy, ProxyRulesConfig, ProxyState, Result, ok, exists, not_found, proxy_add,
  proxy_remove, userspace_proxy_add, load_proxy_rules,
}
use nexodus.Proxy.Table.Members.{Has, rules_at}
use nexodus.Proxy.Table.Rules.{IsDistinct}
use nexodus.Proxy.Table.Stored.{InSome, restarted, load-store}

abbrev web_key : ProxyKey
web_key = record { rule_type = egress; protocol = tcp; listen_port = 80 }

abbrev web : ProxyRule
web = record { key = web_key; dest = record { host = "10.0.0.9"; port = 8080 }; stored = true }

-- The same rule, given on the command line.
abbrev from_flag : ProxyRule
from_flag = record web { stored = false }

abbrev nothing : ProxyState
nothing = record { proxies = []; config = record { egress_rules = []; ingress_rules = [] } }

abbrev serving : List ProxyRule → ProxyState
serving rules = record nothing {
  proxies = (web_key, record { rules = rules; started = true }) ∷ [];
}

add_runs :
    proxy_add egress "tcp:80:10.0.0.9:8080" true nothing
    ≡ some (
      ok,
      record (serving (web ∷ [])) {
        config = record { egress_rules = "tcp:80:10.0.0.9:8080" ∷ []; ingress_rules = [] };
      },
    )
unfolding proxy_add parse_proxy_rule nexodus.Prelude.Pieces.split_at_char
    nexodus.Proxy.parse_proxy_protocol nexodus.Proxy.parse_port nexodus.Prelude.Numerals.atoi
    nexodus.Proxy.split_host_port nexodus.Prelude.Pieces.join contains_char userspace_proxy_add
    nexodus.Proxy.Table.has_rule lookup nexodus.Proxy.Table.store_proxy_rules
    nexodus.Prelude.Maps.insert nexodus.Proxy.Table.stored_texts nexodus.Proxy.rule_string
    nexodus.Prelude.Text.concat nexodus.Prelude.Text.itoa nexodus.Prelude.Text.digits
    nexodus.Proxy.host_port_string nexodus.Proxy.join_host_port
add_runs = refl

nothing_twice : (k : ProxyKey) → IsDistinct (rules_at k nothing)
unfolding lookup
nothing_twice k = tt

marks_differ : (from_flag.stored ≡ web.stored) → ⊥
marks_differ e = absurd (ground arith)

flag_differs : ¬ (In from_flag (web ∷ []))
flag_differs (inl e) = marks_differ (ap (λ r. r.stored) e)
flag_differs (inr x) = x

flag_unmarked : ¬ (In web (from_flag ∷ []))
flag_unmarked (inl e) = marks_differ (sym (ap (λ r. r.stored) e))
flag_unmarked (inr x) = x

web_valid : IsProxyRule web
unfolding contains_char
web_valid = (
  (omega arith, omega arith),
  (ground (arith, eq_iff "10.0.0.9" ""), refl, refl),
  (omega arith, omega arith),
)

load-store_example :
    (s' : ProxyState) × (load_proxy_rules (restarted (serving (from_flag ∷ web ∷ []))) ≡ some s')
    × ((x : ProxyRule)
        → Has s' x ↔ (InSome x (serving (from_flag ∷ web ∷ [])).proxies × (x.stored ≡ true)))
unfolding contains_char
load-store_example = load-store (serving (from_flag ∷ web ∷ [])) ((web_valid, (web_valid, tt)), tt)

parsed_flag : parse_proxy_rule "tcp:80:10.0.0.9:8080" egress ≡ some from_flag
unfolding parse_proxy_rule nexodus.Prelude.Pieces.split_at_char nexodus.Proxy.parse_proxy_protocol
    nexodus.Proxy.parse_port nexodus.Prelude.Numerals.atoi nexodus.Proxy.split_host_port
    nexodus.Prelude.Pieces.join contains_char
parsed_flag = refl
