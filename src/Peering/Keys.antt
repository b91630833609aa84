-- ===== src/Peering/Keys.antt =====
-- The cache of devices as a map by public key, and the devices that it holds.
use nexodus.Prelude.{
  ◌≡◌, inl, inr, refl, ap, sym, ◌∙◌, String, Bool, true, false, ◌&&◌, ◌||◌, Option, none, some, [],
  ◌∷◌, ◌==◌, string_eq, arith, any, eq_iff, Bool-cases, Every,
}
use mathlib.Core.Path.{subst}
use nexodus.Prelude.Maps.{Map, lookup, insert, delete, lookup-insert, lookup-delete, eq_self}
use nexodus.Peering.{Device, DeviceCacheEntry}

-- Every entry has the public key of its device, and no key stands twice.
abbrev pub IsKeyed : Map String DeviceCacheEntry → Type 0
IsKeyed [] = Unit
IsKeyed ((k, d) ∷ cache) = (k ≡ d.device.public_key) × (lookup k cache ≡ none) × IsKeyed cache

abbrev pub of_entry : Option DeviceCacheEntry → Option Device
of_entry none = none
of_entry (some d) = some d.device

-- The device that the cache has under a key.
abbrev pub device_at : String → Map String DeviceCacheEntry → Option Device
device_at key cache = of_entry (lookup key cache)

pub insert-IsKeyed :
    (k : String) (d : DeviceCacheEntry) (cache : Map String DeviceCacheEntry)
    → k ≡ d.device.public_key
    → IsKeyed cache
    → IsKeyed (insert k d cache)
unfolding insert lookup
insert-IsKeyed k d [] e h = (e, refl, tt)
insert-IsKeyed k d ((k', d') ∷ cache) e h =
    ground
      (arith, eq_iff k' k, eq_iff k k', lookup-insert k k' d cache, insert-IsKeyed k d cache e h.2)

pub delete-IsKeyed :
    (k : String) (cache : Map String DeviceCacheEntry) → IsKeyed cache → IsKeyed (delete k cache)
unfolding delete
delete-IsKeyed k [] h = tt
delete-IsKeyed k ((k', d') ∷ cache) h =
    ground (arith, eq_iff k' k, lookup-delete k k' cache, delete-IsKeyed k cache h.2)

-- A test on entries, asked of the one that the cache has under a key.
abbrev pub test_at : (DeviceCacheEntry → Bool) → Option DeviceCacheEntry → Bool
test_at test none = false
test_at test (some d) = test d

or_false : (b : Bool) → (b || false) ≡ b
or_false true = refl
or_false false = refl

pub any-key :
    (test : DeviceCacheEntry → Bool) (j : String) (cache : Map String DeviceCacheEntry)
    → IsKeyed cache
    → any (λ e. e.1.device.public_key == j && test e.1) cache ≡ test_at test (lookup j cache)
unfolding lookup
any-key test j [] h = refl
any-key test j ((k, d) ∷ cache) h = elim (Bool-cases (k == j)) [
  | inl e ↦
      let same : k ≡ j = (eq_iff k j).0 e in
      let own : (d.device.public_key == j) ≡ true = (eq_iff _ _).1 (sym h.0 ∙ same) in
      let absent : lookup j cache ≡ none = subst (λ z. lookup z cache ≡ none) same h.1 in
      let rest = any-key test j cache h.2 ∙ ap (test_at test) absent in
      rw (own, rest, e) (or_false (test d))
  | inr e ↦
      let other : (d.device.public_key == j) ≡ false = subst (λ z. (z == j) ≡ false) h.0 e in
      rw (other, e) (any-key test j cache h.2)
]

abbrev pub HasDevice : Map String DeviceCacheEntry → DeviceCacheEntry → Type 0
HasDevice cache d = device_at d.device.public_key cache ≡ some d.device

later_lookup :
    (k j : String) (d d' : DeviceCacheEntry) (cache : Map String DeviceCacheEntry)
    → lookup k cache ≡ none
    → lookup j cache ≡ some d'
    → lookup j ((k, d) ∷ cache) ≡ some d'
unfolding lookup
later_lookup k j d d' cache absent at = elim (Bool-cases (k == j)) [
  | inl e ↦ absurd (ground (arith, at, ap (λ z. lookup z cache) (sym ((eq_iff k j).0 e)) ∙ absent))
  | inr e ↦ rw e at
]

HasDevice-part :
    (part cache : Map String DeviceCacheEntry)
    → IsKeyed part
    → ((j : String) (d : DeviceCacheEntry) → lookup j part ≡ some d → lookup j cache ≡ some d)
    → Every part (λ e. HasDevice cache e.1)
unfolding lookup
HasDevice-part [] cache h in_cache = tt
HasDevice-part ((k, d) ∷ part) cache h in_cache = (
  ap of_entry (subst (λ z. lookup z cache ≡ some d) h.0 (in_cache k d (rw (eq_self k) refl))),
  HasDevice-part part cache h.2 (λ j d' at. in_cache j d' (later_lookup k j d d' part h.1 at)),
)

pub IsKeyed-HasDevice :
    (cache : Map String DeviceCacheEntry) → IsKeyed cache → Every cache (λ e. HasDevice cache e.1)
IsKeyed-HasDevice cache h = HasDevice-part cache cache h (λ j d at. at)

pub lookup-key :
    (k : String) (d : DeviceCacheEntry) (cache : Map String DeviceCacheEntry)
    → IsKeyed cache
    → lookup k cache ≡ some d
    → d.device.public_key ≡ k
unfolding lookup
lookup-key k d [] h at = absurd cc
lookup-key k d ((k', d') ∷ cache) h at = elim (Bool-cases (k' == k)) [
  | inl e ↦
      let same : d' ≡ d = ground arith in
      ap (λ (z : DeviceCacheEntry). z.device.public_key) (sym same) ∙ sym h.0 ∙ (eq_iff k' k).0 e
  | inr e ↦ lookup-key k d cache h.2 (ground arith)
]
