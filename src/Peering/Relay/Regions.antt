-- ===== src/Peering/Relay/Regions.antt =====
-- The DERP map and the home region agree after every switch.
use nexodus.Prelude.{
  ℕ, ◌≡◌, ◌≢◌, refl, String, Bool, true, false, none, some, ◌==◌, eqb, string_eq, nat_eq, arith,
  eq_iff,
}
use nexodus.Prelude.Maps.{lookup, lookup-delete}
use nexodus.Peering.{Env, Nexodus}
use nexodus.Peering.Relay.{
  RelayScan, default_derp_region_id, custom_derp_region_id, default_derp_ip_addr, region_hostname,
  set_custom_derp_map, set_default_derp_map, close_derp_locked, use_default_derp, switch_derp_map,
  get_derp_relay_hostname, cert_mode_manual, stun_address, leave_default, with_custom,
}

module _ (region : ℕ) (nx : Nexodus) where
  close-active : lookup region (close_derp_locked region nx).nex_relay.active_derp ≡ none
  unfolding close_derp_locked
  close-active = ground (arith, lookup-delete region region nx.nex_relay.active_derp)

  close-map : (close_derp_locked region nx).nex_relay.derp_map ≡ nx.nex_relay.derp_map
  unfolding close_derp_locked
  close-map = ground arith

  close-home : (close_derp_locked region nx).nex_relay.my_derp ≡ nx.nex_relay.my_derp
  unfolding close_derp_locked
  close-home = ground arith

  close-names :
      (close_derp_locked region nx).nex_relay.in_mem_resolver ≡ nx.nex_relay.in_mem_resolver
  unfolding close_derp_locked
  close-names = ground arith

  close-hostname :
      (r : ℕ)
      → region_hostname r (close_derp_locked region nx).nex_relay ≡ region_hostname r nx.nex_relay
  unfolding region_hostname
  close-hostname r = ground (arith, close-map)

-- The home is the public relay, and the DERP map names its host.
abbrev pub IsPublicHome : Nexodus → Type 0
IsPublicHome nx =
    (nx.nex_relay.my_derp ≡ default_derp_region_id)
    × (region_hostname default_derp_region_id nx.nex_relay ≡ some default_derp_ip_addr)

use_default-IsPublicHome : (env : Env) (nx : Nexodus) → IsPublicHome (use_default_derp env nx)
unfolding use_default_derp set_default_derp_map region_hostname lookup
use_default-IsPublicHome env nx = (refl, refl)

-- The relay on board, that was the home of `nx`, is left.
abbrev pub HasLeft : Nexodus → Nexodus → Type 0
HasLeft nx nx' =
    (lookup custom_derp_region_id nx'.nex_relay.active_derp ≡ none)
    × ((host : String)
        → region_hostname custom_derp_region_id nx.nex_relay ≡ some host
        → lookup host nx'.nex_relay.in_mem_resolver ≡ none)

use_default-HasLeft :
    (env : Env) (nx : Nexodus)
    → nx.nex_relay.my_derp ≡ custom_derp_region_id
    → HasLeft nx (use_default_derp env nx)
unfolding use_default_derp set_default_derp_map
use_default-HasLeft env nx home = (
  ground (arith, close-active nx.nex_relay.my_derp nx),
  λ host at.
      let named = close-hostname nx.nex_relay.my_derp nx nx.nex_relay.my_derp in
      ground (
        arith,
        home,
        at,
        named,
        close-home nx.nex_relay.my_derp nx,
        eq_iff host host,
        lookup-delete host host
            (close_derp_locked nx.nex_relay.my_derp nx).nex_relay.in_mem_resolver,
      ),
)

-- With no relay on board the switch does not panic: the home is the public relay and the DERP map
-- names its host. If the home was the relay on board, the connection to it is closed and forgotten,
-- and the host name that the DERP map had for it leaves the local names.
pub switch_no_relay :
    (env : Env) (s : RelayScan) (nx : Nexodus)
    → s.relay_available ≡ false
    → (nx' : Nexodus) × (switch_derp_map env s nx ≡ some nx')
      × IsPublicHome nx'
      × (nx.nex_relay.my_derp ≡ custom_derp_region_id → HasLeft nx nx')
switch_no_relay env s nx h = (
  use_default_derp env nx,
  unfold switch_derp_map in (simp h),
  use_default-IsPublicHome env nx,
  use_default-HasLeft env nx,
)

-- The home is the relay on board, and the DERP map names its host.
abbrev pub IsBoardHome : String → Nexodus → Type 0
IsBoardHome host nx =
    (nx.nex_relay.my_derp ≡ custom_derp_region_id)
    × (region_hostname custom_derp_region_id nx.nex_relay ≡ some host)

with_custom-IsBoardHome :
    (env : Env) (addr host : String) (manual : Bool) (nx : Nexodus)
    → IsBoardHome host (with_custom env addr host manual nx)
unfolding set_custom_derp_map region_hostname lookup
with_custom-IsBoardHome env addr host true nx = (refl, refl)
with_custom-IsBoardHome env addr host false nx = (refl, refl)

leave_default-home : (nx : Nexodus) → (leave_default nx).nex_relay.my_derp ≡ nx.nex_relay.my_derp
leave_default-home nx = ground (arith, close-home nx.nex_relay.my_derp nx)

-- An agent whose home is another region meets a DERP relay on board that has a host name, a STUN
-- address and a certificate mode that is absent or a Boolean: the switch does not panic, the home
-- becomes that relay, and the DERP map names its host.
pub switch_to_custom :
    (env : Env) (s : RelayScan) (nx : Nexodus) (host : String) (manual : Bool)
    → s.relay_available ≡ true
    → s.is_derp_relay ≡ true
    → get_derp_relay_hostname s.relay_device ≡ some host
    → host ≢ ""
    → stun_address "" s.relay_device.device.endpoints ≢ ""
    → cert_mode_manual s.relay_device ≡ some manual
    → nx.nex_relay.my_derp ≢ custom_derp_region_id
    → (nx' : Nexodus) × (switch_derp_map env s nx ≡ some nx') × IsBoardHome host nx'
unfolding switch_derp_map
switch_to_custom env s nx host manual available derp named host_ne addr_ne mode home =
    let addr = stun_address "" s.relay_device.device.endpoints in
    let named_host : (host == "") ≡ false = ground (arith, eq_iff host "") in
    let named_addr : (addr == "") ≡ false = ground (arith, eq_iff addr "") in
    let elsewhere : eqb (leave_default nx).nex_relay.my_derp custom_derp_region_id ≡ false =
      ground (arith, leave_default-home nx) in
    (
      with_custom env addr host manual (leave_default nx),
      simp (available, derp, named, named_host, named_addr, elsewhere, mode),
      with_custom-IsBoardHome env addr host manual (leave_default nx),
    )
