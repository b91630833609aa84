-- ===== src/Peering/Methods/Table.antt =====
-- Which pairs of nodes can peer at all, and what a method may use.
use nexodus.Prelude.{◌≡◌, String, Bool, not, ◌&&◌, ◌||◌, any, arith, if◌then◌else◌}
use nexodus.Peering.{Env, Nexodus, Device}
use nexodus.Peering.Methods.{wg_peer_methods, check_prereqs, same_reflexive}

-- Some method of the table passes its test exactly when one of the two nodes is a relay, or this
-- node does not insist on a relay and the two are behind the same address or both behind no
-- symmetric NAT, or a WireGuard relay is there and healthy, or none is there and one of the two is
-- behind a symmetric NAT.
pub any-check_prereqs :
    (env : Env) (nx : Nexodus) (d : Device) (r : String) (healthy_relay wg_relay : Bool)
    → any (λ m. check_prereqs env m nx d r healthy_relay wg_relay) wg_peer_methods ≡ (
        nx.relay
        || d.relay
        || (not nx.relay_only
            && (same_reflexive env nx r || (not nx.symmetric_nat && not d.symmetric_nat)))
        || (if wg_relay then healthy_relay else nx.symmetric_nat || d.symmetric_nat))
unfolding check_prereqs
any-check_prereqs env nx d r healthy_relay wg_relay = ground arith
