-- ===== src/Authz/Access.antt =====
-- What the claims of a bearer token allow.
use nexodus.Prelude.{
  ◌≡◌, ◌≢◌, ◌⊎◌, inl, inr, refl, sym, ◌∙◌, ap, String, true, Option, none, some, ◌==◌, string_eq,
  if◌then◌else◌, arith, eq_iff, Bool-cases,
}
use nexodus.Authz.{
  RegKey, DeviceRow, Site, NexodusClaims, Services, reg_key_claims, site_claims, device_claims,
  can_update_device, hide_device_bearer_token,
}
use nexodus.Authz.Claimed.{IsClaimOf, of_reg_key, of_device, of_site}

-- The device was registered with the key, or is the one, that has the bearer token.
pub data IsReached (token : String) (d : DeviceRow) : Type 0 where
  by_key : (r : RegKey) → r.bearer_token ≡ token → d.reg_key_id ≡ r.id → IsReached token d
  by_device : (r : DeviceRow) → r.bearer_token ≡ token → d.id ≡ r.id → IsReached token d
  by_site : (r : Site) → r.bearer_token ≡ token → d.id ≡ r.id → IsReached token d

key_access :
    (claims : NexodusClaims) (d : DeviceRow)
    → claims.scope ≡ "reg-token"
    → can_update_device claims d ≡ true
    → claims.id ≡ d.reg_key_id
unfolding can_update_device
key_access claims d scope h =
    ground (arith, eq_iff claims.scope "reg-token", eq_iff claims.id d.reg_key_id)

device_access :
    (claims : NexodusClaims) (d : DeviceRow)
    → claims.scope ≡ "device-token"
    → can_update_device claims d ≡ true
    → claims.id ≡ d.id
unfolding can_update_device
device_access claims d scope h = ground (
  arith,
  eq_iff "device-token" "reg-token",
  eq_iff claims.scope "reg-token",
  eq_iff claims.scope "device-token",
  eq_iff claims.id d.id,
)

-- If claims that belong to a bearer token allow the update of a device, then the device was registered
-- with the registration key that has the token, or it has the id of the device or the site that has it.
pub can_update-IsReached :
    (svc : Services) (token : String) (claims : NexodusClaims) (d : DeviceRow)
    → IsClaimOf svc token claims
    → can_update_device claims d ≡ true
    → IsReached token d
unfolding reg_key_claims device_claims site_claims
can_update-IsReached svc token claims d (of_reg_key r u same owner e) h =
    let scope = ap (λ (c : NexodusClaims). c.scope) e in
    let id = ap (λ (c : NexodusClaims). c.id) e in
    by_key r same (sym (key_access claims d scope h) ∙ id)
can_update-IsReached svc token claims d (of_device r u same owner e) h =
    let scope = ap (λ (c : NexodusClaims). c.scope) e in
    let id = ap (λ (c : NexodusClaims). c.id) e in
    by_device r same (sym (device_access claims d scope h) ∙ id)
can_update-IsReached svc token claims d (of_site r u same owner e) h =
    let scope = ap (λ (c : NexodusClaims). c.scope) e in
    let id = ap (λ (c : NexodusClaims). c.id) e in
    by_site r same (sym (device_access claims d scope h) ∙ id)

-- The device belongs to the user, or the claims name it or the key that it was registered with.
abbrev pub IsShown : DeviceRow → Option NexodusClaims → String → Type 0
IsShown d claims user =
    (d.owner_id ≡ user)
    ⊎ ((c : NexodusClaims) × (claims ≡ some c)
        × (((c.scope ≡ "reg-token") × (c.id ≡ d.reg_key_id))
            ⊎ ((c.scope ≡ "device-token") × (c.id ≡ d.id))))

owner_lem :
    (d : DeviceRow) (claims : Option NexodusClaims) (user shown out : String)
    → (if d.owner_id == user then shown else "") ≡ out
    → out ≢ ""
    → (out ≡ shown) × IsShown d claims user
owner_lem d claims user shown out h ne = elim (Bool-cases (d.owner_id == user)) [
  | inl e ↦ (ground arith, inl ((eq_iff d.owner_id user).0 e))
  | inr e ↦ absurd (ne (ground arith))
]

-- A device is shown with a token only encrypted for its public key, and only if it belongs to the
-- user, or the claims name it or the key that it was registered with.
pub hide_device-IsShown :
    (encrypt : String → String → String) (d : DeviceRow) (claims : Option NexodusClaims)
    (user : String)
    → hide_device_bearer_token encrypt d claims user ≢ ""
    → (hide_device_bearer_token encrypt d claims user ≡ encrypt d.bearer_token d.public_key)
      × IsShown d claims user
unfolding hide_device_bearer_token
hide_device-IsShown encrypt d none user ne = owner_lem d none user _ _ refl ne
hide_device-IsShown encrypt d (some c) user ne = elim (Bool-cases (c.scope == "reg-token")) [
  | inl key ↦ elim (Bool-cases (c.id == d.reg_key_id)) [
    | inl same ↦ (ground arith, inr (c, refl, inl ((eq_iff _ _).0 key, (eq_iff _ _).0 same)))
    | inr other ↦ owner_lem d (some c) user _ _ (ground arith) ne
  ]
  | inr no_key ↦ elim (Bool-cases (c.scope == "device-token")) [
    | inl device ↦ elim (Bool-cases (c.id == d.id)) [
      | inl same ↦ (ground arith, inr (c, refl, inr ((eq_iff _ _).0 device, (eq_iff _ _).0 same)))
      | inr other ↦ owner_lem d (some c) user _ _ (ground arith) ne
    ]
    | inr no_device ↦ owner_lem d (some c) user _ _ (ground arith) ne
  ]
]
