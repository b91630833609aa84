-- ===== src/Authz.antt =====
-- internal/handlers/envoy_authz.go: the service turns the bearer token of a registration key, a device
-- or a site into a signed token with claims; device.go: what these claims allow.
pub mod Claimed
pub mod Access
mod Tests
use nexodus.Prelude.{
  ℕ, String, Bool, true, false, Option, none, some, [], ◌∷◌, ◌==◌, string_eq, if◌then◌else◌,
}
use nexodus.Prelude.Maps.{Map, lookup}
use nexodus.Prelude.Text.{concat}
use nexodus.Prelude.Prefix.{has_prefix, trim_prefix}

-- The rows of the database, by the columns that are read here. Ids stand as their texts.
pub record User : Type 0 where
  pub idp_id : String

pub record RegKey : Type 0 where
  pub id : String
  pub owner_id : String
  pub bearer_token : String
  pub vpc_id : Option String
  pub service_network_id : Option String
  pub device_id : Option String
  pub expires_at : Option ℕ

pub record DeviceRow : Type 0 where
  pub id : String
  pub owner_id : String
  pub bearer_token : String
  pub vpc_id : String
  pub reg_key_id : String
  pub public_key : String

pub record Site : Type 0 where
  pub id : String
  pub owner_id : String
  pub bearer_token : String
  pub service_network_id : String
  pub reg_key_id : String
  pub public_key : String

-- models.NexodusClaims
pub record NexodusClaims : Type 0 where
  pub issuer : String
  pub id : String
  pub subject : String
  pub expires_at : Option ℕ
  pub scope : String
  pub agent_id : Option String
  pub vpc_id : Option String
  pub service_network_id : Option String

-- The answer to a query for the first row: ErrRecordNotFound, or another error.
pub data Found (A : Type 0) : Type 0 where
  row : A → Found A
  no_record : Found A
  query_failed : Found A

-- What the service gets from the database, from the library that signs tokens, and from the sessions.
pub record Services : Type 0 where
  pub url : String
  pub reg_key_of_token : String → Found RegKey
  pub device_of_token : String → Found DeviceRow
  pub site_of_token : String → Found Site
  pub user_of_id : String → Found User
  pub signed_string : NexodusClaims → Option String
  -- the access token of the session that the headers name, if there is one and it can be read
  pub session_token : Map String String → Option String

pub data CheckResponse : Type 0 where
  ok_response : CheckResponse
  -- with the header `authorization`, and whether it takes the place of one that is there
  with_authorization : Bool → String → CheckResponse
  -- the status of HTTP, and the text of the error
  denied : ℕ → String → CheckResponse

abbrev pub bearer : String → String
bearer token = concat ("Bearer " ∷ token ∷ [])

abbrev internal_error : CheckResponse
internal_error = denied 401 "internal server error"

unfoldable pub with_row : {A : Type 0} → String → Found A → (A → CheckResponse) → CheckResponse
with_row message (row a) next = next a
with_row message no_record next = denied 401 message
with_row message query_failed next = internal_error

abbrev answer_signed : Option String → CheckResponse
answer_signed none = internal_error
answer_signed (some jwt) = with_authorization true (bearer jwt)

unfoldable pub answer_claims : Services → NexodusClaims → CheckResponse
answer_claims svc claims = answer_signed (svc.signed_string claims)

unfoldable pub reg_key_claims : String → RegKey → User → NexodusClaims
reg_key_claims url key user = record {
  issuer = url;
  id = key.id;
  subject = user.idp_id;
  expires_at = key.expires_at;
  scope = "reg-token";
  agent_id = key.device_id;
  vpc_id = key.vpc_id;
  service_network_id = key.service_network_id;
}

unfoldable pub site_claims : String → Site → User → NexodusClaims
site_claims url site user = record {
  issuer = url;
  id = site.id;
  subject = user.idp_id;
  expires_at = none;
  scope = "device-token";
  agent_id = some site.id;
  vpc_id = none;
  service_network_id = some site.service_network_id;
}

unfoldable pub device_claims : String → DeviceRow → User → NexodusClaims
device_claims url device user = record {
  issuer = url;
  id = device.id;
  subject = user.idp_id;
  expires_at = none;
  scope = "device-token";
  agent_id = some device.id;
  vpc_id = some device.vpc_id;
  service_network_id = none;
}

abbrev user_message : String
user_message = "invalid reg key user"

unfoldable pub check_registration_token : Services → String → CheckResponse
check_registration_token svc token = with_row "invalid reg key" (svc.reg_key_of_token token) (λ key.
    with_row user_message (svc.user_of_id key.owner_id)
      (λ user. answer_claims svc (reg_key_claims svc.url key user)))

unfoldable pub check_site_token : Services → String → CheckResponse
check_site_token svc token = with_row "invalid site token" (svc.site_of_token token) (λ site.
    with_row user_message (svc.user_of_id site.owner_id)
      (λ user. answer_claims svc (site_claims svc.url site user)))

unfoldable pub check_device_token : Services → String → CheckResponse
check_device_token svc token =
    with_row "invalid device token" (svc.device_of_token token) (λ device.
      with_row user_message (svc.user_of_id device.owner_id)
        (λ user. answer_claims svc (device_claims svc.url device user)))

abbrev pub check_bearer : Services → String → CheckResponse
check_bearer svc header =
    if has_prefix header "Bearer RK:"
    then check_registration_token svc (trim_prefix header "Bearer ")
    else if has_prefix header "Bearer DT:"
    then check_device_token svc (trim_prefix header "Bearer ")
    else if has_prefix header "Bearer ST:"
    then check_site_token svc (trim_prefix header "Bearer ")
    else ok_response

abbrev check_session : Option String → CheckResponse
check_session none = ok_response
check_session (some access_token) = with_authorization false (bearer access_token)

abbrev pub or_no_header : Option String → String
or_no_header none = ""
or_no_header (some header) = header

unfoldable pub check : Services → Map String String → CheckResponse
check svc headers =
    let header = or_no_header (lookup "authorization" headers) in
    if header == "" then check_session (svc.session_token headers) else check_bearer svc header

-- UpdateDevice: the claims give access to the device.
unfoldable pub can_update_device : NexodusClaims → DeviceRow → Bool
can_update_device claims device =
    if claims.scope == "reg-token"
    then claims.id == device.reg_key_id
    else if claims.scope == "device-token"
    then claims.id == device.id
    else true

-- The token that a device is shown with; `encrypt` is encryptDeviceBearerToken at the public key.
unfoldable pub hide_device_bearer_token :
    (String → String → String) → DeviceRow → Option NexodusClaims → String → String
hide_device_bearer_token encrypt device claims current_user_id =
    let shown = encrypt device.bearer_token device.public_key in
    let owned = if device.owner_id == current_user_id then shown else "" in
    elim claims [
      | none ↦ owned
      | some c ↦
          if c.scope == "reg-token"
          then (if c.id == device.reg_key_id then shown else owned)
          else if c.scope == "device-token"
          then (if c.id == device.id then shown else owned)
          else owned
    ]
