-- ===== src/Proxy/Table.antt =====
-- internal/nexodus/userspace_proxy.go and ctlserver.go: the table of proxies, its rules in the state
-- of the agent, and the control commands.
pub mod Rules
pub mod Members
pub mod Removal
pub mod Loaded
pub mod Stored
pub mod Control
mod Tests
use nexodus.Prelude.{
  ℕ, ◌≡◌, refl, ◌↔◌, String, Bool, true, false, not, ◌&&◌, Option, none, some, List, [], ◌∷◌, ◌++◌,
  ◌==◌, Comparable, eqb, eqb_iff, eq_iff, string_eq, nat_eq, if◌then◌else◌, arith, is_empty,
}
use nexodus.Prelude.Maps.{Map, lookup, insert, delete}
use nexodus.Proxy.{
  ProxyType, egress, ingress, ProxyProtocol, tcp, udp, ProxyKey, HostAndPort, ProxyRule,
  rule_string, parse_proxy_rule,
}

abbrev pub same_type : ProxyType → ProxyType → Bool
same_type egress egress = true
same_type ingress ingress = true
same_type _ _ = false

abbrev same_protocol : ProxyProtocol → ProxyProtocol → Bool
same_protocol tcp tcp = true
same_protocol udp udp = true
same_protocol _ _ = false

abbrev same_key : ProxyKey → ProxyKey → Bool
same_key a b =
    same_type a.rule_type b.rule_type
    && (same_protocol a.protocol b.protocol && eqb a.listen_port b.listen_port)

pub same_key_iff : (a b : ProxyKey) → (same_key a b ≡ true) ↔ (a ≡ b)
same_key_iff a b = ground arith

instance abbrev pub key_eq : Comparable ProxyKey
key_eq = record { same = same_key; same_iff = same_key_iff }

abbrev same_mark : Bool → Bool → Bool
same_mark true b = b
same_mark false b = not b

-- `==` on rules compares every field.
abbrev same_rule : ProxyRule → ProxyRule → Bool
same_rule a b =
    same_key a.key b.key
    && (a.dest.host == b.dest.host && (eqb a.dest.port b.dest.port && same_mark a.stored b.stored))

pub same_rule_iff : (a b : ProxyRule) → (same_rule a b ≡ true) ↔ (a ≡ b)
same_rule_iff a b = ground (arith, eq_iff a.dest.host b.dest.host, same_key_iff a.key b.key)

instance abbrev pub rule_eq : Comparable ProxyRule
rule_eq = record { same = same_rule; same_iff = same_rule_iff }

-- The proxy of a key: its rules, and whether `Start` has been called.
pub record UsProxy : Type 0 where
  pub rules : List ProxyRule
  pub started : Bool

pub record ProxyRulesConfig : Type 0 where
  pub egress_rules : List String
  pub ingress_rules : List String

-- The map of proxies, and the rules in the state that is kept on disk.
pub record ProxyState : Type 0 where
  pub proxies : Map ProxyKey UsProxy
  pub config : ProxyRulesConfig

-- What an operation returns: nil or an error.
pub data Result : Type 0 where
  ok : Result
  exists : Result
  not_found : Result
  store_failed : Result

abbrev pub or_new : Option UsProxy → UsProxy
or_new none = record { rules = []; started = false }
or_new (some proxy) = proxy

unfoldable pub has_rule : ProxyRule → List ProxyRule → Bool
has_rule r [] = false
has_rule r (rule ∷ rules) = let later = has_rule r rules in if rule == r then true else later

abbrev pub put_rules : ProxyKey → UsProxy → List ProxyRule → ProxyState → ProxyState
put_rules k proxy rules s = record s {
  proxies = insert k (record proxy { rules = rules }) s.proxies;
}

unfoldable pub userspace_proxy_add : ProxyRule → ProxyState → Result × ProxyState
userspace_proxy_add r s =
    let proxy = or_new (lookup r.key s.proxies) in
    if has_rule r proxy.rules
    then (exists, s)
    else (ok, put_rules r.key proxy (proxy.rules ++ r ∷ []) s)

abbrev pub kept_with : ProxyRule → Option (List ProxyRule) → Option (List ProxyRule)
kept_with rule none = none
kept_with rule (some rules) = some (rule ∷ rules)

-- The rules without the first one that equals `r`, if there is one.
unfoldable pub remove_rule : ProxyRule → List ProxyRule → Option (List ProxyRule)
remove_rule r [] = none
remove_rule r (rule ∷ rules) =
    let later = remove_rule r rules in if rule == r then some rules else kept_with rule later

unfoldable pub drop_rule :
    ProxyKey → UsProxy → Option (List ProxyRule) → ProxyState → Option (Result × ProxyState)
drop_rule k proxy none s = some (not_found, s)
drop_rule k proxy (some []) s =
    if proxy.started then some (ok, record s { proxies = delete k s.proxies }) else none
drop_rule k proxy (some (rule ∷ rules)) s = some (ok, put_rules k proxy (rule ∷ rules) s)

unfoldable pub remove_at : ProxyRule → Option UsProxy → ProxyState → Option (Result × ProxyState)
remove_at r none s = some (not_found, s)
remove_at r (some proxy) s = drop_rule r.key proxy (remove_rule r proxy.rules) s

-- `none` is the panic of `Stop` on a proxy that was not started: its `proxyCancel` is nil.
unfoldable pub userspace_proxy_remove : ProxyRule → ProxyState → Option (Result × ProxyState)
userspace_proxy_remove r s = remove_at r (lookup r.key s.proxies) s

abbrev set_started : ProxyKey → ProxyState → ProxyState
set_started k s = record s {
  proxies = insert k (record (or_new (lookup k s.proxies)) { started = true }) s.proxies;
}

abbrev pub texts_of : ProxyType → List ProxyRule → List String
texts_of t [] = []
texts_of t (r ∷ rules) =
    let later = texts_of t rules in
    if r.stored && same_type r.key.rule_type t then rule_string r ∷ later else later

unfoldable pub stored_texts : ProxyType → Map ProxyKey UsProxy → List String
stored_texts t [] = []
stored_texts t ((k, proxy) ∷ m) = texts_of t proxy.rules ++ stored_texts t m

-- The state is changed in memory before it is written.
unfoldable pub store_proxy_rules : Bool → ProxyState → Result × ProxyState
store_proxy_rules written s =
    let s' = record s {
      config = record {
        egress_rules = stored_texts egress s.proxies;
        ingress_rules = stored_texts ingress s.proxies;
      };
    } in
    (if written then ok else store_failed, s')

-- `logger.Fatal` at a text that is no rule: the end of the program.
abbrev pub on_rule : {A : Type 0} → Option ProxyRule → (ProxyRule → Option A) → Option A
on_rule none f = none
on_rule (some r) f = f (record r { stored = true })

-- One of the two lists.
unfoldable pub load_texts : ProxyType → List String → ProxyState → Option ProxyState
load_texts t [] s = some s
load_texts t (text ∷ texts) s =
    on_rule (parse_proxy_rule text t) (λ r. load_texts t texts (userspace_proxy_add r s).1)

abbrev pub and_load : Option ProxyState → (ProxyState → Option ProxyState) → Option ProxyState
and_load none f = none
and_load (some s) f = f s

unfoldable pub load_proxy_rules : ProxyState → Option ProxyState
load_proxy_rules s =
    and_load (load_texts ingress s.config.ingress_rules s) (load_texts egress s.config.egress_rules)

abbrev ctl_added : Bool → ProxyRule → Result × ProxyState → Result × ProxyState
ctl_added written r (ok, s) = store_proxy_rules written (set_started r.key s)
ctl_added written r (e, s) = (e, s)

-- `proxyAdd` of the control server.
unfoldable pub proxy_add : ProxyType → String → Bool → ProxyState → Option (Result × ProxyState)
proxy_add t text written s =
    on_rule (parse_proxy_rule text t) (λ r. some (ctl_added written r (userspace_proxy_add r s)))

abbrev pub ctl_removed : Bool → Option (Result × ProxyState) → Option (Result × ProxyState)
ctl_removed written none = none
ctl_removed written (some (ok, s)) = some (store_proxy_rules written s)
ctl_removed written (some (e, s)) = some (e, s)

-- `proxyRemove` of the control server.
unfoldable pub proxy_remove : ProxyType → String → Bool → ProxyState → Option (Result × ProxyState)
proxy_remove t text written s =
    on_rule (parse_proxy_rule text t) (λ r. ctl_removed written (userspace_proxy_remove r s))
