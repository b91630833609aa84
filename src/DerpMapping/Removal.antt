-- ===== src/DerpMapping/Removal.antt =====
-- Taking the address of a peer back.
use nexodus.Prelude.{
  ◌≡◌, ◌≢◌, refl, sym, ap, ◌∙◌, inl, inr, String, Bool, not, none, some, [], ◌∷◌, ◌==◌, string_eq,
  if◌then◌else◌, Bool-cases, eq_of_some, arith, eq_iff,
}
use nexodus.Prelude.Maps.{Map, lookup, delete, lookup-delete}
use nexodus.DerpMapping.{DerpIpMapping, find_ip, find_entry, remove_local_ip_mapping_for_peer}
use nexodus.DerpMapping.RoundTrip.{IsDistinct, lookup-find_ip}

find_ip-delete_ne :
    (q k : String) (m : Map String String) → find_ip q m ≢ k → find_ip q (delete k m) ≡ find_ip q m
unfolding find_ip delete
find_ip-delete_ne q k [] ne = refl
find_ip-delete_ne q k ((j, r) ∷ m) ne =
    ground (arith, find_ip-delete_ne q k m, ne, eq_iff j k, eq_iff r q)

find_ip-delete_self :
    (pk : String) (m : Map String String) → IsDistinct m → find_ip pk (delete (find_ip pk m) m) ≡ ""
unfolding find_ip delete
find_ip-delete_self pk [] h = refl
find_ip-delete_self pk ((j, q) ∷ m) h =
    ground (arith, find_ip-delete_self pk m, find_ip-delete_ne pk j m, h.0, eq_iff j j, eq_iff q pk)

delete-IsDistinct :
    (k : String) (m : Map String String) → k ≢ "" → IsDistinct m → IsDistinct (delete k m)
unfolding delete
delete-IsDistinct k [] ne h = tt
delete-IsDistinct k ((j, q) ∷ m) ne h = elim (Bool-cases (j == k)) [
  | inl e ↦ rw e (delete-IsDistinct k m ne h.3)
  | inr e ↦ rw e (
    h.0,
    rw (lookup-delete k j m) (ground (arith, h.1)),
    find_ip-delete_ne q k m (λ x. ne (sym x ∙ h.2)) ∙ h.2,
    delete-IsDistinct k m ne h.3,
  )
]

find_entry-eq :
    (pk : String) (m : Map String String)
    → IsDistinct m
    → find_entry pk m ≡ (if find_ip pk m == "" then none else some (find_ip pk m))
unfolding find_entry find_ip
find_entry-eq pk [] h = refl
find_entry-eq pk ((j, q) ∷ m) h = ground (arith, find_entry-eq pk m h.3, h.0, eq_iff j "")

-- What a removal does: it reports whether the peer had an address, the peer has none afterwards,
-- the other peers keep theirs, and nothing is listed twice.
pub record IsRemoved (dim : DerpIpMapping) (pk : String) (dim' : DerpIpMapping) (removed : Bool)
    : Type 0 where
  pub reported : removed ≡ not (find_ip pk dim.mapping == "")
  pub gone : find_ip pk dim'.mapping ≡ ""
  pub kept : (q : String) → q ≢ pk → find_ip q dim'.mapping ≡ find_ip q dim.mapping
  pub distinct : IsDistinct dim'.mapping

other_ip :
    (q pk : String) (m : Map String String)
    → IsDistinct m
    → find_ip pk m ≢ ""
    → q ≢ pk
    → find_ip q m ≢ find_ip pk m
other_ip q pk m h known ne same =
    let at_pk = lookup-find_ip pk m h known in
    let at_q = lookup-find_ip q m h (λ z. known (sym same ∙ z)) in
    ne (eq_of_some (sym at_q ∙ ap (λ x. lookup x m) same ∙ at_pk))

-- In a state in which no address and no peer is listed twice, a removal takes the address of that
-- peer only, and fails exactly when the peer has none.
pub remove-IsRemoved :
    (dim : DerpIpMapping) (pk : String)
    → IsDistinct dim.mapping
    → let r = remove_local_ip_mapping_for_peer dim pk in IsRemoved dim pk r.0 r.1
unfolding remove_local_ip_mapping_for_peer
remove-IsRemoved dim pk h = elim (Bool-cases (find_ip pk dim.mapping == "")) [
  | inl e ↦
      let absent : find_entry pk dim.mapping ≡ none =
        ground (arith, find_entry-eq pk dim.mapping h) in
      rw (absent, remove_local_ip_mapping_for_peer)
        (record { reported = rw e; gone = (eq_iff _ _).0 e; kept = λ q ne. refl; distinct = h })
  | inr e ↦
      let ip = find_ip pk dim.mapping in
      let known : ip ≢ "" = ground (arith, eq_iff ip "") in
      let present : find_entry pk dim.mapping ≡ some ip =
        ground (arith, find_entry-eq pk dim.mapping h) in
      rw (present, remove_local_ip_mapping_for_peer)
        (record {
          reported = rw e;
          gone = find_ip-delete_self pk dim.mapping h;
          kept = λ q ne. find_ip-delete_ne q ip dim.mapping (other_ip q pk dim.mapping h known ne);
          distinct = delete-IsDistinct ip dim.mapping known h;
        })
]
