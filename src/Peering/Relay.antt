-- ===== src/Peering/Relay.antt =====
-- internal/nexodus/wg_peers.go and derp.go: the search for a relay, and the switch of the DERP map.
-- `none` is a panic of a type assertion.
pub mod Scan
pub mod Regions
pub mod Published
mod Tests
use nexodus.Prelude.{
  ℕ, zero, suc, ◌+◌, ◌≡◌, String, Bool, true, false, not, ◌&&◌, ◌||◌, Option, none, some, List, [],
  ◌∷◌, ◌++◌, ◌==◌, eqb, string_eq, nat_eq, if◌then◌else◌,
}
use nexodus.Prelude.Maps.{Map, lookup, insert, delete}
use nexodus.Peering.{
  Env, Endpoint, Device, MetaValue, text, flag, DeviceCacheEntry, PeerHealth, NexRelay, DerpNode,
  Effect, close_derp, Nexodus, zero_entry,
}

infixl 5 ◌>>=◌
abbrev pub ◌>>=◌ {ℓ κ} : {A : Type ℓ} {B : Type κ} → Option A → (A → Option B) → Option B
none >>= f = none
some a >>= f = f a

abbrev pub default_derp_region_id : ℕ
default_derp_region_id = 900

abbrev pub custom_derp_region_id : ℕ
custom_derp_region_id = 901

abbrev pub default_derp_ip_addr : String
default_derp_ip_addr = "relay.nexodus.io"

abbrev is_text : String → MetaValue → Bool
is_text s (text t) = t == s
is_text s _ = false

-- A comparison of an interface with a text; the metadata without the key is no DERP relay.
unfoldable pub derp_relay : DeviceCacheEntry → Bool
derp_relay d = elim (lookup "type" d.metadata) [ none ↦ false | some v ↦ is_text "derp" v ]

-- "" is the error "derp hostname metadata not found".
unfoldable pub get_derp_relay_hostname : DeviceCacheEntry → Option String
get_derp_relay_hostname d = elim (lookup "hostname" d.metadata) [
  | none ↦ some ""
  | some (text s) ↦ some s
  | some _ ↦ none
]

unfoldable pub cert_mode_manual : DeviceCacheEntry → Option Bool
cert_mode_manual d = elim (lookup "certmodemanual" d.metadata) [
  | none ↦ some false
  | some (flag b) ↦ some b
  | some _ ↦ none
]

pub record RelayScan : Type 0 where
  pub healthy_relay : Bool
  pub relay_available : Bool
  pub is_derp_relay : Bool
  pub relay_device : DeviceCacheEntry

abbrev pub no_relay : RelayScan
no_relay = record {
  healthy_relay = false;
  relay_available = false;
  is_derp_relay = false;
  relay_device = zero_entry;
}

-- The loop over the cache that looks for a relay; it stops at the first healthy one.
unfoldable pub scan_relays : RelayScan → Map String DeviceCacheEntry → RelayScan
unfolding derp_relay
scan_relays s [] = s
scan_relays s ((k, d) ∷ cache) =
    let seen = record s {
      relay_available = true;
      relay_device = d;
      is_derp_relay = derp_relay d;
    } in
    let rest = scan_relays (if d.device.relay then seen else s) cache in
    if d.device.relay && d.peer_healthy then record seen { healthy_relay = true } else rest

abbrev derp_port : Env → ℕ
derp_port env = if env.debug_use_derp_http then 3340 else 443

-- A DERP map of one region with one node.
abbrev one_region : ℕ → String → ℕ → Map ℕ (List DerpNode)
one_region region host_name port =
    (region, record { host_name = host_name; derp_port = port } ∷ []) ∷ []

-- The STUN address of the relay is handed over and not used.
unfoldable pub set_custom_derp_map : Env → String → String → NexRelay → NexRelay
set_custom_derp_map env derp_stun_addr hostname nr = record nr {
  derp_map = some (one_region custom_derp_region_id hostname (derp_port env));
  my_derp = custom_derp_region_id;
}

unfoldable pub set_default_derp_map : Env → NexRelay → NexRelay
set_default_derp_map env nr = record nr {
  derp_map = some (one_region default_derp_region_id default_derp_ip_addr (derp_port env));
  my_derp = default_derp_region_id;
}

-- `closeDerpLocked`: the connection of the region is closed and forgotten, if there is one.
unfoldable pub close_derp_locked : ℕ → Nexodus → Nexodus
close_derp_locked region nx = elim (lookup region nx.nex_relay.active_derp) [
  | none ↦ nx
  | some ad ↦ record nx {
    nex_relay = record nx.nex_relay { active_derp = delete region nx.nex_relay.active_derp };
    effects = nx.effects ++ close_derp region ∷ [];
  }
]

-- nexRelay.getDerpRelayHostname; `none` is an error.
unfoldable pub region_hostname : ℕ → NexRelay → Option String
region_hostname region nr = elim nr.derp_map [
  | none ↦ none
  | some regions ↦ elim (lookup region regions) [
    | none ↦ none
    | some [] ↦ none
    | some (n ∷ ns) ↦ some n.host_name
  ]
]

-- The last endpoint with the source "stun:" gives the address.
unfoldable pub stun_address : String → List Endpoint → String
stun_address addr [] = addr
stun_address addr (e ∷ es) = stun_address (if e.source == "stun:" then e.address else addr) es

-- `ip, _, err := net.SplitHostPort(derpAddr)`, and `netip.ParseAddr(ip)`; an error is logged and
-- leaves the zero value, the text "".
abbrev host_address : Env → String → String
host_address env derp_addr =
    let ip : String = elim (env.split_host_port derp_addr) [ none ↦ "" | some (h, p) ↦ h ] in
    elim (env.parse_addr ip) [ none ↦ "" | some a ↦ a ]

abbrev set_host : String → String → NexRelay → NexRelay
set_host hostname addr nr = record nr {
  in_mem_resolver = insert hostname (addr ∷ []) nr.in_mem_resolver;
}

abbrev leave_default : Nexodus → Nexodus
leave_default nx =
    if eqb nx.nex_relay.my_derp default_derp_region_id
    then close_derp_locked nx.nex_relay.my_derp nx
    else nx

abbrev with_custom : Env → String → String → Bool → Nexodus → Nexodus
with_custom env derp_addr hostname manual nx =
    let custom = set_custom_derp_map env derp_addr hostname nx.nex_relay in
    record nx {
      nex_relay = if manual then set_host hostname (host_address env derp_addr) custom else custom;
    }

abbrev enter_custom : Env → DeviceCacheEntry → String → String → Nexodus → Option Nexodus
enter_custom env d derp_addr hostname nx =
    cert_mode_manual d >>= λ manual. some (with_custom env derp_addr hostname manual nx)

-- The relay on board is a DERP relay.
unfoldable pub use_custom_derp : Env → DeviceCacheEntry → Nexodus → Option Nexodus
unfolding get_derp_relay_hostname stun_address
use_custom_derp env d nx =
    let derp_addr = stun_address "" d.device.endpoints in
    get_derp_relay_hostname d >>= λ hostname.
    if not (hostname == "") && not (derp_addr == "")
    then (let left = leave_default nx in
        if eqb left.nex_relay.my_derp custom_derp_region_id
        then some left
        else enter_custom env d derp_addr hostname left)
    else some nx

abbrev forget_host : Option String → NexRelay → NexRelay
forget_host none nr = nr
forget_host (some hostname) nr = record nr { in_mem_resolver = delete hostname nr.in_mem_resolver }

-- There is no relay on board.
unfoldable pub use_default_derp : Env → Nexodus → Nexodus
use_default_derp env nx =
    let closed = close_derp_locked nx.nex_relay.my_derp nx in
    let left =
      if eqb nx.nex_relay.my_derp custom_derp_region_id
      then record closed {
        nex_relay =
            forget_host (region_hostname closed.nex_relay.my_derp closed.nex_relay)
              closed.nex_relay;
      }
      else nx in
    record left { nex_relay = set_default_derp_map env left.nex_relay }

unfoldable pub switch_derp_map : Env → RelayScan → Nexodus → Option Nexodus
unfolding use_custom_derp use_default_derp
switch_derp_map env s nx =
    if s.relay_available && s.is_derp_relay
    then use_custom_derp env s.relay_device nx
    else if not s.relay_available
    then some (use_default_derp env nx)
    else some nx
