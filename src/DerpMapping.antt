-- ===== src/DerpMapping.antt =====
-- internal/nexodus/wg_peers_derp_mapping.go: loopback addresses that stand for DERP peers.
-- Each method is a function on the record, taken to run with no other call in between. The mutex
-- gives that, except for GetLocalIPMappingForPeer, which looks the key up under one lock and
-- allocates under another.
pub mod Capacity
pub mod RoundTrip
pub mod Removal
mod Tests
use nexodus.Prelude.{
  ℕ, zero, suc, ◌+◌, ◌-◌, ◌%◌, String, Bool, true, false, Option, none, some, [], ◌∷◌, ◌==◌,
  string_eq, if◌then◌else◌,
}
use nexodus.Prelude.Maps.{Map, is_some, lookup, insert, delete}
use nexodus.Prelude.Text.{concat, itoa}

-- The four bytes of a `net.IP` after `To4`.
pub record Ipv4 : Type 0 where
  pub a : ℕ
  pub b : ℕ
  pub c : ℕ
  pub d : ℕ

-- `ip.String()`
unfoldable pub ip_string : Ipv4 → String
unfolding concat itoa
ip_string ip = concat (itoa ip.a ∷ "." ∷ itoa ip.b ∷ "." ∷ itoa ip.c ∷ "." ∷ itoa ip.d ∷ [])

pub record DerpIpMapping : Type 0 where
  pub mapping : Map String String
  pub last_allocated_ip : Ipv4

abbrev pub loopback : ℕ → Ipv4
loopback d = record { a = 127; b = 0; c = 0; d = d }

abbrev pub new_derp_ip_mapping : DerpIpMapping
new_derp_ip_mapping = record { mapping = []; last_allocated_ip = loopback 1 }

unfoldable pub get_public_key : DerpIpMapping → String → Option String
get_public_key dim ip_address = lookup ip_address dim.mapping

-- The loop of `CheckIfKeyExist`; "" is "not found".
unfoldable pub find_ip : String → Map String String → String
find_ip public_key [] = ""
find_ip public_key ((ip, pk) ∷ m) = if pk == public_key then ip else find_ip public_key m

unfoldable pub check_if_key_exist : DerpIpMapping → String → String
check_if_key_exist dim public_key = find_ip public_key dim.mapping

-- The address of round `i`. The last byte is the sum of the third byte and `byte(i)`.
unfoldable pub candidate : Ipv4 → ℕ → Ipv4
candidate base i = record { a = base.a; b = base.b; c = base.c; d = (base.c + i % 256) % 256 }

-- `for i := 1; i <= 254-int(baseIP[3]); i++`, on the rounds left.
unfoldable pub scan : ℕ → ℕ → Ipv4 → Map String String → Option Ipv4
scan zero i base m = none
scan (suc rounds) i base m =
    let rest = scan rounds (i + 1) base m in
    if is_some (lookup (ip_string (candidate base i)) m) then rest else some (candidate base i)

abbrev pub allocate : DerpIpMapping → String → Option Ipv4 → DerpIpMapping × Option String
allocate dim public_key none = (dim, none)
allocate dim public_key (some ip) = (
  record { mapping = insert (ip_string ip) public_key dim.mapping; last_allocated_ip = ip },
  some (ip_string ip),
)

-- `none` is the error "no available IP addresses".
unfoldable pub get_local_ip_mapping_for_peer :
    DerpIpMapping → String → DerpIpMapping × Option String
unfolding check_if_key_exist
get_local_ip_mapping_for_peer dim public_key =
    let ip = check_if_key_exist dim public_key in
    let base = dim.last_allocated_ip in
    if ip == ""
    then allocate dim public_key (scan (254 - base.d) 1 base dim.mapping)
    else (dim, some ip)

-- The loop of `RemoveLocalIpMappingForPeer`: the first entry of the peer.
unfoldable pub find_entry : String → Map String String → Option String
find_entry public_key [] = none
find_entry public_key ((ip, pk) ∷ m) = if pk == public_key then some ip else find_entry public_key m

-- `false` is the error "no IP address found".
unfoldable pub remove_local_ip_mapping_for_peer : DerpIpMapping → String → DerpIpMapping × Bool
remove_local_ip_mapping_for_peer dim public_key = elim (find_entry public_key dim.mapping) [
  | none ↦ (dim, false)
  | some ip ↦ (record dim { mapping = delete ip dim.mapping }, true)
]
