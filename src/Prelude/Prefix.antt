-- ===== src/Prelude/Prefix.antt =====
-- Go's `strings.HasPrefix` and `strings.TrimPrefix`.
use Prim.Native.Char.{code}
use Prim.Native.String.{String, ◌++◌}
use Prim.Native.String.append
use text.Mathlib.TextEquality.{Char-path}
use mathlib.Core.Path.{◌≡◌, refl, sym, ap, ◌∙◌}
use mathlib.Core.Logic.{inl, inr}
use mathlib.Core.Bool.{Bool, true}
use mathlib.Core.Option.{Option, none, some}
use native.Mathlib.Omega.{arith}
use nexodus.Prelude.Tests.{eqb, eqb_iff, if◌then◌else◌, Bool-cases, Option-cases, eq_of_some}
use nexodus.Prelude.Maps.{is_some}

-- What follows the prefix.
unfoldable pub after_prefix : String → String → Option String
after_prefix String.[] s = some s
after_prefix (String.◌∷◌ c p) String.[] = none
after_prefix (String.◌∷◌ c p) (String.◌∷◌ d s) =
    let rest = after_prefix p s in if eqb (code c) (code d) then rest else none

abbrev pub has_prefix : String → String → Bool
has_prefix s p = is_some (after_prefix p s)

abbrev or_whole : String → Option String → String
or_whole s none = s
or_whole s (some t) = t

abbrev pub trim_prefix : String → String → String
trim_prefix s p = or_whole s (after_prefix p s)

after_prefix-append : (p s t : String) → after_prefix p s ≡ some t → s ≡ p ++ t
unfolding after_prefix
after_prefix-append String.[] s t h = eq_of_some h ∙ sym (append.nil t)
after_prefix-append (String.◌∷◌ c p) String.[] t h = absurd cc
after_prefix-append (String.◌∷◌ c p) (String.◌∷◌ d s) t h =
    elim (Bool-cases (eqb (code c) (code d))) [
      | inl e ↦
          let whole : s ≡ p ++ t = after_prefix-append p s t (ground arith) in
          let same : c ≡ d = Char-path c d ((eqb_iff (code c) (code d)).0 e) in
          rw (append.cons c p t, whole, same) refl
      | inr e ↦ absurd (ground arith)
    ]

after_prefix_part :
    (p q s : String) → is_some (after_prefix (p ++ q) s) ≡ true → is_some (after_prefix p s) ≡ true
unfolding after_prefix
after_prefix_part String.[] q s h = refl
after_prefix_part (String.◌∷◌ c p) q String.[] h =
    absurd (ground (arith, ap (λ z. is_some (after_prefix z "")) (sym (append.cons c p q)) ∙ h))
after_prefix_part (String.◌∷◌ c p) q (String.◌∷◌ d s) h =
    let opened : is_some (after_prefix (String.◌∷◌ c (p ++ q)) (String.◌∷◌ d s)) ≡ true =
      ap (λ z. is_some (after_prefix z (String.◌∷◌ d s))) (sym (append.cons c p q)) ∙ h in
    ground (arith, after_prefix_part p q s)

-- A text with a prefix is the prefix and what `TrimPrefix` leaves.
pub trim_prefix-append : (s p : String) → has_prefix s p ≡ true → s ≡ p ++ trim_prefix s p
trim_prefix-append s p h = elim (Option-cases (after_prefix p s)) [
  | inl e ↦ absurd (ground arith)
  | inr (t, e) ↦ after_prefix-append p s t e ∙ ap (λ z. p ++ or_whole s z) (sym e)
]

pub has_prefix_part : (s p q : String) → has_prefix s (p ++ q) ≡ true → has_prefix s p ≡ true
has_prefix_part s p q h = after_prefix_part p q s h
