-- ===== src/Authz/Tests.antt =====
-- Requests with bearer tokens, and the theorems at concrete services.
use nexodus.Prelude.{
  ◌≡◌, inl, inr, refl, sym, ◌∙◌, ap, String, Bool, true, false, none, some, [], ◌∷◌, ◌==◌,
  string_eq, arith, eq_iff, Bool-cases,
}
use nexodus.Prelude.Maps.{Map, lookup}
use nexodus.Prelude.Text.{concat}
use nexodus.Prelude.Prefix.{after_prefix}
use nexodus.Authz.{
  User, DeviceRow, Found, row, no_record, Services, with_authorization, denied, device_claims,
  with_row, answer_claims, check_device_token, check, can_update_device,
}
use nexodus.Authz.Claimed.{IsByToken, of_device, HasToken, IsSigned, check-IsSigned}
use nexodus.Authz.Access.{IsReached, can_update-IsReached}

abbrev device : DeviceRow
device = record {
  id = "d1";
  owner_id = "u1";
  bearer_token = "DT:secret";
  vpc_id = "v1";
  reg_key_id = "k1";
  public_key = "key";
}

abbrev user : User
user = record { idp_id = "alice" }

abbrev found_device : Bool → Found DeviceRow
found_device true = row device
found_device false = no_record

abbrev svc : Services
svc = record {
  url = "https://api";
  reg_key_of_token = λ t. no_record;
  device_of_token = λ t. found_device (t == "DT:secret");
  site_of_token = λ t. no_record;
  user_of_id = λ i. row user;
  signed_string = λ c. some "jwt";
  session_token = λ headers. none;
}

svc_devices : (t : String) (r : DeviceRow) → svc.device_of_token t ≡ row r → r.bearer_token ≡ t
svc_devices t r h = elim (Bool-cases (t == "DT:secret")) [
  | inl e ↦
      let at : row device ≡ row r = ap found_device (sym e) ∙ h in
      let same : device ≡ r = cc in
      ap (λ (d : DeviceRow). d.bearer_token) (sym same) ∙ sym ((eq_iff t "DT:secret").0 e)
  | inr e ↦ absurd (ground (arith, e))
]

by_token : IsByToken svc
by_token = record {
  reg_keys = λ t r h. absurd cc;
  devices = svc_devices;
  sites = λ t r h. absurd cc;
}

abbrev headers : Map String String
headers = ("authorization", "Bearer DT:secret") ∷ []

signs_device : check svc headers ≡ with_authorization true "Bearer jwt"
unfolding check lookup after_prefix check_device_token with_row answer_claims concat
signs_device = refl

check-IsSigned_example :
    (token : String) × HasToken "Bearer DT:secret" token × IsSigned svc token true "Bearer jwt"
unfolding lookup
check-IsSigned_example =
    check-IsSigned svc by_token headers true "Bearer jwt"
      (ground (arith, eq_iff "Bearer DT:secret" "")) signs_device

unknown_device :
    check svc (("authorization", "Bearer DT:other") ∷ []) ≡ denied 401 "invalid device token"
unfolding check lookup after_prefix check_device_token with_row
unknown_device = refl

can_update-IsReached_example : IsReached "DT:secret" device
unfolding can_update_device device_claims
can_update-IsReached_example =
    can_update-IsReached svc "DT:secret" (device_claims svc.url device user) device
      (of_device device user refl refl refl) refl
