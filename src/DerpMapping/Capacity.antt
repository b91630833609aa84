-- ===== src/DerpMapping/Capacity.antt =====
-- When an address is found: the rounds of the scan, and how many peers they can serve.
use nexodus.Prelude.{
  ℕ, zero, suc, ◌+◌, ◌-◌, ◌≤◌, ◌<◌, ◌≡◌, refl, sym, ◌↔◌, inl, inr, String, true, Option, none, some,
  string_eq, Option-cases, arith,
}
use mathlib.Core.Path.{subst}
use native.Mathlib.Decide.{ℕ_discrete}
use nexodus.Prelude.Maps.{Map, is_some, lookup}
use nexodus.DerpMapping.{
  Ipv4, DerpIpMapping, ip_string, candidate, scan, allocate, find_ip, get_local_ip_mapping_for_peer,
}

abbrev pub IsTaken : Map String String → Ipv4 → Type 0
IsTaken m ip = is_some (lookup (ip_string ip) m) ≡ true

pub scan-none_of_taken :
    (n i : ℕ) (base : Ipv4) (m : Map String String)
    → ((k : ℕ) → i ≤ k → k < i + n → IsTaken m (candidate base k))
    → scan n i base m ≡ none
unfolding scan
scan-none_of_taken zero i base m h = refl
scan-none_of_taken (suc n) i base m h = ground (
  arith,
  h i (omega arith) (omega arith),
  scan-none_of_taken n (i + 1) base m (λ k p q. h k (omega arith) (omega arith)),
)

pub record IsFirstFree (n i : ℕ) (base : Ipv4) (m : Map String String) (ip : Ipv4) : Type 0 where
  pub round : ℕ
  pub from : i ≤ round
  pub below : round < i + n
  pub at_round : ip ≡ candidate base round
  pub free : lookup (ip_string ip) m ≡ none
  pub earlier : (k : ℕ) → i ≤ k → k < round → IsTaken m (candidate base k)

pub scan-some :
    (n i : ℕ) (base : Ipv4) (m : Map String String) (ip : Ipv4)
    → scan n i base m ≡ some ip
    → IsFirstFree n i base m ip
unfolding scan
scan-some zero i base m ip h = cc
scan-some (suc n) i base m ip h = elim (Option-cases (lookup (ip_string (candidate base i)) m)) [
  | inl free ↦
      let here : ip ≡ candidate base i = ground arith in
      record {
        round = i;
        from = omega arith;
        below = omega arith;
        at_round = here;
        free = rw here free;
        earlier = λ k p q. absurd (omega arith);
      }
  | inr (pk, taken) ↦
      let later : scan n (i + 1) base m ≡ some ip = ground arith in
      let r = scan-some n (i + 1) base m ip later in
      record {
        round = r.round;
        from = omega (arith, r.from);
        below = omega (arith, r.below);
        at_round = r.at_round;
        free = r.free;
        earlier = λ k p q. elim (ℕ_discrete i k) [
          | yes e ↦ subst (λ j. IsTaken m (candidate base j)) e (rw taken)
          | no e ↦ r.earlier k (omega arith) (omega arith)
        ];
      }
]

IsTaken-of_scan :
    (n i : ℕ) (base : Ipv4) (m : Map String String)
    → scan n i base m ≡ none
    → (k : ℕ) → i ≤ k
    → k < i + n
    → IsTaken m (candidate base k)
unfolding scan
IsTaken-of_scan zero i base m h k p q = absurd (omega arith)
IsTaken-of_scan (suc n) i base m h k p q =
    let taken : IsTaken m (candidate base i) = ground arith in
    elim (ℕ_discrete i k) [
      | yes e ↦ subst (λ j. IsTaken m (candidate base j)) e taken
      | no e ↦ IsTaken-of_scan n (i + 1) base m (ground arith) k (omega arith) (omega arith)
    ]

-- Only the rounds decide: `none` exactly when every candidate is taken.
pub scan-none_iff :
    (n i : ℕ) (base : Ipv4) (m : Map String String)
    → (scan n i base m ≡ none) ↔ ((k : ℕ) → i ≤ k → k < i + n → IsTaken m (candidate base k))
scan-none_iff n i base m = (IsTaken-of_scan n i base m, scan-none_of_taken n i base m)

module _ (dim : DerpIpMapping) (pk : String) (fresh : find_ip pk dim.mapping ≡ "") where
  pub get_local-eq-allocate :
      get_local_ip_mapping_for_peer dim pk
      ≡ allocate dim pk (scan (254 - dim.last_allocated_ip.d) 1 dim.last_allocated_ip dim.mapping)
  unfolding get_local_ip_mapping_for_peer
  get_local-eq-allocate = rw fresh

allocate-none_iff :
    (dim : DerpIpMapping) (pk : String) (o : Option Ipv4)
    → ((allocate dim pk o).1 ≡ none) ↔ (o ≡ none)
allocate-none_iff dim pk none = (λ h. refl, λ h. refl)
allocate-none_iff dim pk (some ip) = (λ h. cc, λ h. cc)

-- For a peer that has no address yet, the request fails exactly when all the addresses that the
-- scan looks at are taken: those of the rounds 1 to 254 - d, where d is the last byte of the address
-- that was handed out last.
pub get_local-none_iff :
    (dim : DerpIpMapping) (pk : String)
    → find_ip pk dim.mapping ≡ ""
    → ((get_local_ip_mapping_for_peer dim pk).1 ≡ none) ↔ (
        (k : ℕ)
        → 1 ≤ k
        → k ≤ 254 - dim.last_allocated_ip.d
        → IsTaken dim.mapping (candidate dim.last_allocated_ip k))
get_local-none_iff dim pk fresh =
    let base = dim.last_allocated_ip in
    let n = 254 - base.d in
    let by_scan = scan-none_iff n 1 base dim.mapping in
    let by_allocate = allocate-none_iff dim pk (scan n 1 base dim.mapping) in
    rw (get_local-eq-allocate dim pk fresh) (
      λ h k p q. by_scan.0 (by_allocate.0 h) k p (omega arith),
      λ h. by_allocate.1 (by_scan.1 (λ k p q. h k p (omega arith))),
    )

candidate-of_zero :
    (base : Ipv4) (k : ℕ) → base.c ≡ 0 → k ≤ 127 → candidate base k ≡ record base { c = 0; d = k }
unfolding candidate
candidate-of_zero base k c h = ground arith

-- Once an address 127.0.0.d with 127 ≤ d was handed out last and 127.0.0.1 to 127.0.0.127 are taken,
-- every peer that has no address yet gets the error, and nothing changes. The addresses from
-- 127.0.0.128 on are not looked at, whether they are taken or not.
pub get_local-exhausted :
    (dim : DerpIpMapping) (pk : String)
    → find_ip pk dim.mapping ≡ ""
    → dim.last_allocated_ip.c ≡ 0
    → 127 ≤ dim.last_allocated_ip.d
    → ((k : ℕ)
        → 1 ≤ k
        → k ≤ 127
        → IsTaken dim.mapping (record dim.last_allocated_ip { c = 0; d = k }))
    → get_local_ip_mapping_for_peer dim pk ≡ (dim, none)
get_local-exhausted dim pk fresh c d taken =
    let base = dim.last_allocated_ip in
    let no_round = scan-none_of_taken (254 - base.d) 1 base dim.mapping (λ k p q.
      subst (IsTaken dim.mapping) (sym (candidate-of_zero base k c (omega arith)))
        (taken k p (omega arith))) in
    rw (get_local-eq-allocate dim pk fresh, no_round)
