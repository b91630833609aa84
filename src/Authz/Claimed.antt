-- ===== src/Authz/Claimed.antt =====
-- The token that a request with a bearer token goes on with.
use nexodus.Prelude.{
  ◌≡◌, ◌≢◌, inl, inr, refl, String, Bool, true, Option, none, some, string_eq, arith, eq_iff,
  Bool-cases,
}
use Prim.Native.String.{◌++◌}
use nexodus.Prelude.Maps.{Map, lookup}
use nexodus.Prelude.Prefix.{has_prefix, trim_prefix, trim_prefix-append, has_prefix_part}
use nexodus.Authz.{
  User, RegKey, DeviceRow, Site, NexodusClaims, Found, row, no_record, query_failed, Services,
  CheckResponse, ok_response, with_authorization, bearer, with_row, answer_signed, answer_claims,
  reg_key_claims, site_claims, device_claims, check_registration_token, check_site_token,
  check_device_token, check_bearer, or_no_header, check,
}

-- The queries by a bearer token give rows with that token.
pub record IsByToken (svc : Services) : Type 0 where
  pub reg_keys : (t : String) (r : RegKey) → svc.reg_key_of_token t ≡ row r → r.bearer_token ≡ t
  pub devices : (t : String) (r : DeviceRow) → svc.device_of_token t ≡ row r → r.bearer_token ≡ t
  pub sites : (t : String) (r : Site) → svc.site_of_token t ≡ row r → r.bearer_token ≡ t

-- The claims are those of a row with this token, and of the user who owns it.
pub data IsClaimOf (svc : Services) (token : String) (claims : NexodusClaims) : Type 0 where
  of_reg_key :
      (r : RegKey) (u : User)
      → r.bearer_token ≡ token
      → svc.user_of_id r.owner_id ≡ row u
      → claims ≡ reg_key_claims svc.url r u
      → IsClaimOf svc token claims
  of_device :
      (r : DeviceRow) (u : User)
      → r.bearer_token ≡ token
      → svc.user_of_id r.owner_id ≡ row u
      → claims ≡ device_claims svc.url r u
      → IsClaimOf svc token claims
  of_site :
      (r : Site) (u : User)
      → r.bearer_token ≡ token
      → svc.user_of_id r.owner_id ≡ row u
      → claims ≡ site_claims svc.url r u
      → IsClaimOf svc token claims

-- The request goes on with the signed claims of a row with this token.
abbrev pub IsSigned : Services → String → Bool → String → Type 0
IsSigned svc token overwrite header =
    (claims : NexodusClaims) × (jwt : String) × IsClaimOf svc token claims
    × (svc.signed_string claims ≡ some jwt)
    × (overwrite ≡ true)
    × (header ≡ bearer jwt)

row_lem :
    {A : Type 0} (message : String) (o : Found A) (next : A → CheckResponse) (b : Bool) (h : String)
    → with_row message o next ≡ with_authorization b h
    → (a : A) × (o ≡ row a) × (next a ≡ with_authorization b h)
unfolding with_row
row_lem message (row a) next b h e = (a, refl, e)
row_lem message no_record next b h e = absurd cc
row_lem message query_failed next b h e = absurd cc

signed_lem :
    (o : Option String) (b : Bool) (h : String)
    → answer_signed o ≡ with_authorization b h
    → (jwt : String) × (o ≡ some jwt) × (b ≡ true) × (h ≡ bearer jwt)
signed_lem none b h e = absurd cc
signed_lem (some jwt) b h e = (jwt, refl, cc, cc)

-- The token stands in the header.
abbrev pub HasToken : String → String → Type 0
HasToken header token = header ≡ "Bearer " ++ token

trimmed :
    (header p : String)
    → has_prefix header ("Bearer " ++ p) ≡ true
    → HasToken header (trim_prefix header "Bearer ")
trimmed header p h = trim_prefix-append header "Bearer " (has_prefix_part header "Bearer " p h)

module _ (svc : Services) (by_token : IsByToken svc) where
  reg_key_lem :
      (t : String) (b : Bool) (h : String)
      → check_registration_token svc t ≡ with_authorization b h
      → IsSigned svc t b h
  unfolding check_registration_token answer_claims
  reg_key_lem t b h e =
      let (r, at, e1) = row_lem _ (svc.reg_key_of_token t) _ b h e in
      let (u, at', e2) = row_lem _ (svc.user_of_id r.owner_id) _ b h e1 in
      let (jwt, signed, over, same) = signed_lem _ b h e2 in
      (_, jwt, of_reg_key r u (by_token.reg_keys t r at) at' refl, signed, over, same)

  device_lem :
      (t : String) (b : Bool) (h : String)
      → check_device_token svc t ≡ with_authorization b h
      → IsSigned svc t b h
  unfolding check_device_token answer_claims
  device_lem t b h e =
      let (r, at, e1) = row_lem _ (svc.device_of_token t) _ b h e in
      let (u, at', e2) = row_lem _ (svc.user_of_id r.owner_id) _ b h e1 in
      let (jwt, signed, over, same) = signed_lem _ b h e2 in
      (_, jwt, of_device r u (by_token.devices t r at) at' refl, signed, over, same)

  site_lem :
      (t : String) (b : Bool) (h : String)
      → check_site_token svc t ≡ with_authorization b h
      → IsSigned svc t b h
  unfolding check_site_token answer_claims
  site_lem t b h e =
      let (r, at, e1) = row_lem _ (svc.site_of_token t) _ b h e in
      let (u, at', e2) = row_lem _ (svc.user_of_id r.owner_id) _ b h e1 in
      let (jwt, signed, over, same) = signed_lem _ b h e2 in
      (_, jwt, of_site r u (by_token.sites t r at) at' refl, signed, over, same)

  -- The queries by a bearer token give rows with that token. Then a request that has an authorization
  -- and that goes on with a header has a bearer token in it, and the header takes the place of the
  -- authorization: it is the signed token with the claims of the registration key, the device or the
  -- site that has the bearer token, in the name of the user who owns it.
  pub check-IsSigned :
      (headers : Map String String) (b : Bool) (h : String)
      → let header = or_no_header (lookup "authorization" headers) in
        header ≢ ""
        → check svc headers ≡ with_authorization b h
        → (token : String) × HasToken header token × IsSigned svc token b h
  unfolding check
  check-IsSigned headers b h ne e =
      let header = or_no_header (lookup "authorization" headers) in
      let token = trim_prefix header "Bearer " in
      let e0 : check_bearer svc header ≡ with_authorization b h =
        ground (arith, eq_iff header "", ne) in
      elim (Bool-cases (has_prefix header "Bearer RK:")) [
        | inl rk ↦ (token, trimmed header "RK:" rk, reg_key_lem token b h (ground arith))
        | inr no_rk ↦ elim (Bool-cases (has_prefix header "Bearer DT:")) [
          | inl dt ↦ (token, trimmed header "DT:" dt, device_lem token b h (ground arith))
          | inr no_dt ↦ elim (Bool-cases (has_prefix header "Bearer ST:")) [
            | inl st ↦ (token, trimmed header "ST:" st, site_lem token b h (ground arith))
            | inr no_st ↦
                let nothing : ok_response ≡ with_authorization b h = ground arith in absurd cc
          ]
        ]
      ]
