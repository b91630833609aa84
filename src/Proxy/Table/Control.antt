-- ===== src/Proxy/Table/Control.antt =====
-- internal/nexodus/ctlserver.go: the control commands that add and remove rules.
use nexodus.Prelude.{◌≡◌, refl, String, Bool, some}
use nexodus.Proxy.{ProxyType, ProxyRule, parse_proxy_rule}
use nexodus.Proxy.Table.{ProxyState, not_found, proxy_remove}
use nexodus.Proxy.Table.Members.{Has}
use nexodus.Proxy.Table.Loaded.{mark}
use nexodus.Proxy.Table.Removal.{remove_missing}

-- The control command that removes a rule fails and changes nothing when the table does not have
-- the rule with the mark of a stored rule, so also when it has the same rule without the mark.
pub proxy_remove_unmarked :
    (t : ProxyType) (text : String) (written : Bool) (s : ProxyState) (r : ProxyRule)
    → parse_proxy_rule text t ≡ some r
    → ¬ (Has s (mark r))
    → proxy_remove t text written s ≡ some (not_found, s)
unfolding proxy_remove
proxy_remove_unmarked t text written s r e h = rw (e, remove_missing (mark r) s h) refl
