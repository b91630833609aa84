-- ===== src/Peering/Relay/Published.antt =====
-- internal/nexodus/join.go and nexodus.go: what a relay publishes of itself, against what the agents
-- read of it when they switch the DERP map.
use nexodus.Prelude.{
  ◌≡◌, ◌≢◌, inl, inr, refl, sym, ◌∙◌, ap, String, Bool, true, false, not, ◌&&◌, ◌||◌, Option, none,
  some, List, [], ◌∷◌, ◌==◌, string_eq, if◌then◌else◌, arith, eq_iff, eq_of_some, Bool-cases,
}
use Prim.Native.String.{◌++◌}
use package.text.Mathlib.TextLemmas.{append_cancel_left, append-eq-nil_iff}
use nexodus.Prelude.Maps.{Map, lookup}
use nexodus.Prelude.Text.{concat}
use nexodus.Peering.{Env, Endpoint, MetaValue, text, flag, DeviceCacheEntry, Nexodus}
use nexodus.Peering.Relay.{
  derp_relay, get_derp_relay_hostname, cert_mode_manual, stun_address, use_custom_derp,
}

pub record Derper : Type 0 where
  pub hostname : String
  pub cert_mode : String

abbrev pub is_manual : Option Derper → Bool
is_manual none = false
is_manual (some d) = d.cert_mode == "manual"

abbrev host_of : Option Derper → String
host_of none = ""
host_of (some d) = d.hostname

unfoldable pub relay_metadata : String → Option Derper → Map String MetaValue
relay_metadata rtype derper =
    if is_manual derper
    then ("type", text rtype)
      ∷ ("hostname", text (host_of derper))
      ∷ ("certmodemanual", flag true)
      ∷ []
    else ("type", text rtype) ∷ []

-- The metadata that the agent stores with the service under the key "relay", if it is a relay.
unfoldable pub update_device_relay_metadata :
    Bool → Bool → Option Derper → Option (Map String MetaValue)
update_device_relay_metadata relay relay_derp derper =
    if relay || relay_derp
    then some (relay_metadata (if relay then "wireguard" else "derp") derper)
    else none

abbrev endpoints_of : String → String → String → List Endpoint
endpoints_of local stun_server reflexive =
    record { source = "local"; address = local }
    ∷ record { source = concat ("stun:" ∷ stun_server ∷ []); address = reflexive }
    ∷ []

-- At the start of the agent: nx.reflexiveAddrStunSrc is written nowhere, and so is empty.
abbrev pub registered_endpoints : String → String → List Endpoint
registered_endpoints local reflexive = endpoints_of local "" reflexive

-- In reconcileStun, after the address has changed.
abbrev pub rebound_endpoints : String → String → String → List Endpoint
rebound_endpoints local stun_server reflexive = endpoints_of local stun_server reflexive

module _ (rtype : String) (derper : Derper) where
  abbrev published : Map String MetaValue
  published = relay_metadata rtype (some derper)

  published-type : lookup "type" published ≡ some (text rtype)
  unfolding relay_metadata lookup
  published-type = elim (Bool-cases (derper.cert_mode == "manual")) [
    | inl e ↦ rw e refl
    | inr e ↦ rw e refl
  ]

  published-manual :
      derper.cert_mode ≡ "manual"
      → (lookup "hostname" published ≡ some (text derper.hostname))
        × (lookup "certmodemanual" published ≡ some (flag true))
  unfolding relay_metadata lookup
  published-manual manual =
      let e : (derper.cert_mode == "manual") ≡ true = (eq_iff _ _).1 manual in rw e (refl, refl)

  published-unnamed : derper.cert_mode ≢ "manual" → lookup "hostname" published ≡ none
  unfolding relay_metadata lookup
  published-unnamed ne =
      let e : (derper.cert_mode == "manual") ≡ false =
        ground (arith, ne, eq_iff derper.cert_mode "manual") in
      rw e refl

  type-derp_relay :
      (d : DeviceCacheEntry) → published ≡ d.metadata → derp_relay d ≡ (rtype == "derp")
  unfolding derp_relay
  type-derp_relay d e =
      let at : lookup "type" d.metadata ≡ some (text rtype) =
        ap (lookup "type") (sym e) ∙ published-type in
      rw (derp_relay, at) refl

  hostname-manual :
      (d : DeviceCacheEntry)
      → published ≡ d.metadata
      → derper.cert_mode ≡ "manual"
      → (get_derp_relay_hostname d ≡ some derper.hostname) × (cert_mode_manual d ≡ some true)
  unfolding get_derp_relay_hostname cert_mode_manual
  hostname-manual d e manual =
      let (named, mode) = published-manual manual in
      let at : lookup "hostname" d.metadata ≡ some (text derper.hostname) =
        ap (lookup "hostname") (sym e) ∙ named in
      let at' : lookup "certmodemanual" d.metadata ≡ some (flag true) =
        ap (lookup "certmodemanual") (sym e) ∙ mode in
      rw (get_derp_relay_hostname, cert_mode_manual, at, at') (refl, refl)

  hostname-unnamed :
      (d : DeviceCacheEntry)
      → published ≡ d.metadata
      → derper.cert_mode ≢ "manual"
      → get_derp_relay_hostname d ≡ some ""
  unfolding get_derp_relay_hostname
  hostname-unnamed d e ne =
      let at : lookup "hostname" d.metadata ≡ none =
        ap (lookup "hostname") (sym e) ∙ published-unnamed ne in
      rw (get_derp_relay_hostname, at) refl

-- Agents read the metadata of a relay as it was published: it is a DERP relay exactly if it is not a
-- WireGuard relay, and if its certificates are set up by hand they read its host name and this mode.
pub relay_metadata-read :
    (relay relay_derp : Bool) (derper : Derper) (d : DeviceCacheEntry)
    → update_device_relay_metadata relay relay_derp (some derper) ≡ some d.metadata
    → (derp_relay d ≡ not relay)
      × (derper.cert_mode ≡ "manual"
          → (get_derp_relay_hostname d ≡ some derper.hostname) × (cert_mode_manual d ≡ some true))
unfolding update_device_relay_metadata
relay_metadata-read true relay_derp derper d h =
    let e = eq_of_some h in
    (type-derp_relay "wireguard" derper d e, hostname-manual "wireguard" derper d e)
relay_metadata-read false true derper d h =
    let e = eq_of_some h in (type-derp_relay "derp" derper d e, hostname-manual "derp" derper d e)
relay_metadata-read false false derper d h = absurd cc

-- Without a host name or a STUN address the switch leaves the agent as it is.
use_custom_none :
    (env : Env) (d : DeviceCacheEntry) (nx : Nexodus) (host : String)
    → get_derp_relay_hostname d ≡ some host
    → (not (host == "") && not (stun_address "" d.device.endpoints == "")) ≡ false
    → use_custom_derp env d nx ≡ some nx
unfolding use_custom_derp
use_custom_none env d nx host at h = rw at (ground arith)

-- A DERP relay whose certificates are not set up by hand publishes no host name: with its metadata,
-- the switch of the DERP map leaves every agent as it is.
pub unnamed_relay_unused :
    (env : Env) (nx : Nexodus) (derper : Derper) (d : DeviceCacheEntry)
    → derper.cert_mode ≢ "manual"
    → update_device_relay_metadata false true (some derper) ≡ some d.metadata
    → (derp_relay d ≡ true) × (use_custom_derp env d nx ≡ some nx)
unfolding update_device_relay_metadata
unnamed_relay_unused env nx derper d ne h =
    let e = eq_of_some h in
    (
      type-derp_relay "derp" derper d e,
      use_custom_none env d nx "" (hostname-unnamed "derp" derper d e ne) refl,
    )

named_source : (server : String) → server ≢ "" → concat ("stun:" ∷ server ∷ []) ≢ "stun:"
unfolding concat
named_source server ne e =
    ne ((append-eq-nil_iff {p = server}).0 (append_cancel_left "stun:" (server ++ "") "" e)).0

and_missed : (a : Bool) (s : String) → s ≡ "" → (a && not (s == "")) ≡ false
and_missed a s h = let e : (s == "") ≡ true = (eq_iff s "").1 h in ground (arith, e)

-- After the address of a DERP relay has changed, its end points carry the name of the STUN server, and
-- the switch of the DERP map, which looks for the source "stun:", leaves every agent as it is; with the
-- end points of the relay's start it finds the address.
pub rebound_relay_unused :
    (env : Env) (nx : Nexodus) (d : DeviceCacheEntry) (local server reflexive host : String)
    → server ≢ ""
    → d.device.endpoints ≡ rebound_endpoints local server reflexive
    → get_derp_relay_hostname d ≡ some host
    → (use_custom_derp env d nx ≡ some nx)
      × (stun_address "" (registered_endpoints local reflexive) ≡ reflexive)
unfolding stun_address concat
rebound_relay_unused env nx d local server reflexive host ne at named =
    let other : (concat ("stun:" ∷ server ∷ []) == "stun:") ≡ false =
      ground (arith, eq_iff (concat ("stun:" ∷ server ∷ [])) "stun:", named_source server ne) in
    let missed : stun_address "" d.device.endpoints ≡ "" =
      ap (stun_address "") at ∙ rw other refl in
    (
      use_custom_none env d nx host named
          (and_missed _ (stun_address "" d.device.endpoints) missed),
      refl,
    )
