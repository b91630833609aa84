-- ===== src/DerpMapping/RoundTrip.antt =====
-- An address that a peer got leads back to the peer.
use nexodus.Prelude.{
  ◌-◌, ◌≡◌, ◌≢◌, refl, sym, ◌∙◌, inl, inr, String, true, false, Option, none, some, [], ◌∷◌, ◌++◌,
  ◌==◌, string_eq, Bool-cases, eq_of_some, arith, eq_iff,
}
use mathlib.Core.Path.{subst}
use nexodus.DerpMapping.Capacity.{scan-some, get_local-eq-allocate}
use nexodus.Prelude.Text.{itoa, concat-ne_empty}
use nexodus.Prelude.Maps.{lookup, insert, lookup-cons, lookup-insert, insert-of_none, Map}
use nexodus.DerpMapping.{
  Ipv4, DerpIpMapping, ip_string, find_ip, scan, allocate, get_public_key,
  get_local_ip_mapping_for_peer,
}

-- No address is empty or listed twice, and no peer has two addresses.
abbrev pub IsDistinct : Map String String → Type 0
IsDistinct [] = Unit
IsDistinct ((ip, pk) ∷ m) = (ip ≢ "") × (lookup ip m ≡ none) × (find_ip pk m ≡ "") × IsDistinct m

pub find_ip-cons_self :
    (pk ip q : String) (m : Map String String) → (q == pk) ≡ true → find_ip pk ((ip, q) ∷ m) ≡ ip
unfolding find_ip
find_ip-cons_self pk ip q m e = rw e

pub find_ip-cons_ne :
    (pk ip q : String) (m : Map String String)
    → (q == pk) ≡ false
    → find_ip pk ((ip, q) ∷ m) ≡ find_ip pk m
unfolding find_ip
find_ip-cons_ne pk ip q m e = rw e

pub lookup-find_ip :
    (pk : String) (m : Map String String)
    → IsDistinct m
    → find_ip pk m ≢ ""
    → lookup (find_ip pk m) m ≡ some pk
lookup-find_ip pk [] h ne = absurd (ne (unfold find_ip in refl))
lookup-find_ip pk ((ip, q) ∷ m) h ne = elim (Bool-cases (q == pk)) [
  | inl e ↦
      rw (find_ip-cons_self pk ip q m e, lookup-cons ip ip q m)
        (ground (arith, eq_iff ip ip, eq_iff q pk))
  | inr e ↦
      let ih = lookup-find_ip pk m h.3 (λ z. ne (find_ip-cons_ne pk ip q m e ∙ z)) in
      rw (find_ip-cons_ne pk ip q m e, lookup-cons (find_ip pk m) ip q m)
        (ground (arith, eq_iff ip (find_ip pk m), ih))
]

abbrev snoc : Map String String → String → String → Map String String
snoc m ip pk = m ++ (ip, pk) ∷ []

find_ip-snoc_self :
    (pk ip : String) (m : Map String String)
    → IsDistinct m
    → find_ip pk m ≡ ""
    → find_ip pk (snoc m ip pk) ≡ ip
unfolding find_ip
find_ip-snoc_self pk ip [] h fresh = ground (arith, eq_iff pk pk)
find_ip-snoc_self pk ip ((j, q) ∷ m) h fresh = ground (arith, find_ip-snoc_self pk ip m, h.0)

find_ip-snoc_ne :
    (pk q ip : String) (m : Map String String)
    → (q == pk) ≡ false
    → find_ip pk (snoc m ip q) ≡ find_ip pk m
unfolding find_ip
find_ip-snoc_ne pk q ip [] ne = ground arith
find_ip-snoc_ne pk q ip ((j, r) ∷ m) ne = ground (arith, find_ip-snoc_ne pk q ip m)

lookup-snoc_ne :
    (j ip pk : String) (m : Map String String)
    → (ip == j) ≡ false
    → lookup j (snoc m ip pk) ≡ lookup j m
unfolding lookup
lookup-snoc_ne j ip pk [] ne = ground arith
lookup-snoc_ne j ip pk ((i, r) ∷ m) ne = ground (arith, lookup-snoc_ne j ip pk m)

snoc-IsDistinct :
    (ip pk : String) (m : Map String String)
    → ip ≢ ""
    → lookup ip m ≡ none
    → find_ip pk m ≡ ""
    → IsDistinct m
    → IsDistinct (snoc m ip pk)
snoc-IsDistinct ip pk [] ne free fresh h = (ne, unfold lookup in refl, unfold find_ip in refl, tt)
snoc-IsDistinct ip pk ((j, q) ∷ m) ne free fresh h =
    let other_ip : (ip == j) ≡ false =
      ground (arith, lookup-cons ip j q m, eq_iff ip j, eq_iff j ip) in
    let other_pk : (q == pk) ≡ false = ground (arith, h.0, find_ip-cons_self pk j q m) in
    let free' : lookup ip m ≡ none = ground (arith, lookup-cons ip j q m) in
    (
      h.0,
      lookup-snoc_ne j ip pk m other_ip ∙ h.1,
      find_ip-snoc_ne q pk ip m (ground (arith, eq_iff pk q, eq_iff q pk)) ∙ h.2,
      snoc-IsDistinct ip pk m ne free' (sym (find_ip-cons_ne pk j q m other_pk) ∙ fresh) h.3,
    )

pub insert-IsDistinct :
    (ip pk : String) (m : Map String String)
    → ip ≢ ""
    → lookup ip m ≡ none
    → find_ip pk m ≡ ""
    → IsDistinct m
    → IsDistinct (insert ip pk m)
insert-IsDistinct ip pk m ne free fresh h =
    rw (insert-of_none ip pk m free) (snoc-IsDistinct ip pk m ne free fresh h)

pub find_ip-insert_self :
    (ip pk : String) (m : Map String String)
    → lookup ip m ≡ none
    → find_ip pk m ≡ ""
    → IsDistinct m
    → find_ip pk (insert ip pk m) ≡ ip
find_ip-insert_self ip pk m free fresh h =
    rw (insert-of_none ip pk m free) (find_ip-snoc_self pk ip m h fresh)

ip_string-ne_empty : (ip : Ipv4) → ip_string ip ≢ ""
unfolding ip_string
ip_string-ne_empty ip =
    concat-ne_empty (itoa ip.a) "." (itoa ip.b ∷ "." ∷ itoa ip.c ∷ "." ∷ itoa ip.d ∷ [])
      (ground (arith, eq_iff "." ""))

-- What a successful request gives, in any state in which no address and no peer is listed twice.
pub record IsMapped (dim : DerpIpMapping) (pk ip : String) : Type 0 where
  pub distinct : IsDistinct dim.mapping
  pub back : get_public_key dim ip ≡ some pk
  pub again : get_local_ip_mapping_for_peer dim pk ≡ (dim, some ip)

known-IsMapped :
    (dim : DerpIpMapping) (pk : String)
    → IsDistinct dim.mapping
    → find_ip pk dim.mapping ≢ ""
    → IsMapped dim pk (find_ip pk dim.mapping)
unfolding get_public_key get_local_ip_mapping_for_peer
known-IsMapped dim pk h ne = record {
  distinct = h;
  back = lookup-find_ip pk dim.mapping h ne;
  again = ground (arith, eq_iff (find_ip pk dim.mapping) "");
}

new-IsMapped :
    (dim : DerpIpMapping) (pk : String) (ip : Ipv4)
    → IsDistinct dim.mapping
    → find_ip pk dim.mapping ≡ ""
    → lookup (ip_string ip) dim.mapping ≡ none
    → IsMapped (allocate dim pk (some ip)).0 pk (ip_string ip)
new-IsMapped dim pk ip h fresh free = record {
  distinct = insert-IsDistinct (ip_string ip) pk dim.mapping (ip_string-ne_empty ip) free fresh h;
  back =
      unfold get_public_key in
      (rw (lookup-insert (ip_string ip) (ip_string ip) pk dim.mapping)
        (ground (arith, eq_iff (ip_string ip) (ip_string ip))));
  again =
      let there = find_ip-insert_self (ip_string ip) pk dim.mapping free fresh h in
      unfold get_local_ip_mapping_for_peer in
      ground (arith, there, ip_string-ne_empty ip, eq_iff (ip_string ip) "");
}

get_local-of_known :
    (dim : DerpIpMapping) (pk : String)
    → find_ip pk dim.mapping ≢ ""
    → get_local_ip_mapping_for_peer dim pk ≡ (dim, some (find_ip pk dim.mapping))
unfolding get_local_ip_mapping_for_peer
get_local-of_known dim pk ne = ground (arith, ne, eq_iff (find_ip pk dim.mapping) "")

scanned-IsMapped :
    (dim : DerpIpMapping) (pk ip : String) (o : Option Ipv4)
    → scan (254 - dim.last_allocated_ip.d) 1 dim.last_allocated_ip dim.mapping ≡ o
    → IsDistinct dim.mapping
    → find_ip pk dim.mapping ≡ ""
    → (allocate dim pk o).1 ≡ some ip
    → IsMapped (allocate dim pk o).0 pk ip
scanned-IsMapped dim pk ip none found h fresh got = cc
scanned-IsMapped dim pk ip (some a) found h fresh got =
    let first =
      scan-some (254 - dim.last_allocated_ip.d) 1 dim.last_allocated_ip dim.mapping a found in
    subst (IsMapped (allocate dim pk (some a)).0 pk) (eq_of_some got)
      (new-IsMapped dim pk a h fresh first.free)

-- In a state in which no address and no peer is listed twice, a request that succeeds leaves such a
-- state, in which the address leads back to the peer and a second request of the peer returns the
-- same address and changes nothing.
pub get_local-IsMapped :
    (dim : DerpIpMapping) (pk ip : String)
    → IsDistinct dim.mapping
    → (get_local_ip_mapping_for_peer dim pk).1 ≡ some ip
    → IsMapped (get_local_ip_mapping_for_peer dim pk).0 pk ip
get_local-IsMapped dim pk ip h got = elim (Bool-cases (find_ip pk dim.mapping == "")) [
  | inl e ↦
      let fresh = (eq_iff (find_ip pk dim.mapping) "").0 e in
      let step = get_local-eq-allocate dim pk fresh in
      rw step (scanned-IsMapped dim pk ip _ refl h fresh (rw step at got))
  | inr e ↦
      let ne : find_ip pk dim.mapping ≢ "" = ground (arith, eq_iff (find_ip pk dim.mapping) "") in
      let step = get_local-of_known dim pk ne in
      rw step (subst (IsMapped dim pk) (eq_of_some (rw step at got)) (known-IsMapped dim pk h ne))
]
