-- ===== src/DerpMapping/Tests.antt =====
-- Runs of the DERP peer mapping, and the theorems at concrete states.
use nexodus.Prelude.{
  ℕ, zero, suc, ◌≤◌, ◌≡◌, refl, Bool, true, ◌&&◌, String, none, some, [], ◌∷◌, string_eq, arith,
}
use native.Mathlib.Decide.{ℕ_discrete}
use mathlib.Core.Path.{subst}
use nexodus.Prelude.Maps.{Map, is_some, lookup, insert}
use nexodus.Prelude.Text.{itoa}
use nexodus.DerpMapping.{
  DerpIpMapping, loopback, ip_string, find_ip, scan, candidate, new_derp_ip_mapping,
  get_local_ip_mapping_for_peer, get_public_key,
}
use nexodus.DerpMapping.Capacity.{IsTaken, get_local-exhausted}
use nexodus.DerpMapping.RoundTrip.{IsMapped, get_local-IsMapped}

abbrev two_peers : DerpIpMapping
two_peers =
    let one = (get_local_ip_mapping_for_peer new_derp_ip_mapping "alice").0 in
    (get_local_ip_mapping_for_peer one "bob").0

second_address : get_public_key two_peers "127.0.0.2" ≡ some "bob"
unfolding get_local_ip_mapping_for_peer get_public_key lookup insert find_ip scan candidate
    ip_string
second_address = refl

get_local-IsMapped_example :
    IsMapped (get_local_ip_mapping_for_peer new_derp_ip_mapping "alice").0 "alice" "127.0.0.1"
unfolding get_local_ip_mapping_for_peer lookup find_ip scan candidate ip_string
get_local-IsMapped_example = get_local-IsMapped new_derp_ip_mapping "alice" "127.0.0.1" tt refl

-- 127.0.0.1 to 127.0.0.n, each with a peer of its own.
filled : ℕ → Map String String
filled zero = []
filled (suc n) = (ip_string (loopback (suc n)), itoa (suc n)) ∷ filled n

abbrev full : DerpIpMapping
full = record { mapping = filled 127; last_allocated_ip = loopback 127 }

all_taken : ℕ → Bool
all_taken zero = true
all_taken (suc n) = is_some (lookup (ip_string (loopback (suc n))) (filled 127)) && all_taken n

IsTaken-below : (n k : ℕ) → all_taken n ≡ true → 1 ≤ k → k ≤ n → IsTaken (filled 127) (loopback k)
unfolding all_taken
IsTaken-below zero k h p q = absurd (omega arith)
IsTaken-below (suc n) k h p q = elim (ℕ_discrete (suc n) k) [
  | yes e ↦ subst (λ j. IsTaken (filled 127) (loopback j)) e (ground arith)
  | no e ↦ IsTaken-below n k (ground arith) p (omega arith)
]

all_127_taken : all_taken 127 ≡ true
unfolding all_taken filled lookup ip_string
all_127_taken = refl

get_local-exhausted_example : get_local_ip_mapping_for_peer full "new" ≡ (full, none)
unfolding filled find_ip ip_string
get_local-exhausted_example =
    get_local-exhausted full "new" refl refl (omega arith)
      (λ k p q. IsTaken-below 127 k all_127_taken p q)
