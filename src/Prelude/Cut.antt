-- ===== src/Prelude/Cut.antt =====
-- Texts around a separator: `strings.IndexByte`, and `strings.Join` after `strings.Split`.
use Prim.Native.Nat.{ℕ, ◌≤◌}
use text.Mathlib.TextEquality.{Char-path}
use mathlib.Core.Logic.{inl, inr}
use Prim.Native.Char.{Char, code}
use Prim.Native.String.{String, ◌++◌}
use Prim.Native.String.append
use mathlib.Core.Path.{◌≡◌, refl, sym, ap, ◌∙◌}
use mathlib.Core.Bool.{true, false, ◌||◌}
use mathlib.Core.List.{List, [], ◌∷◌}
use mathlib.Core.Option.{Option, none, some}
use native.Mathlib.Omega.{arith}
use nexodus.Prelude.Tests.{eqb, eqb_iff, if◌then◌else◌, Bool-cases}
use nexodus.Prelude.Lists.{length}
use nexodus.Prelude.Pieces.{contains_char, split_at_char, join, length-split_ge}

abbrev pub push_first : Char → Option (String × String) → Option (String × String)
push_first c none = none
push_first c (some (s, t)) = some (String.◌∷◌ c s, t)

-- What stands before the first occurrence of a character, and what stands after it.
unfoldable pub cut : ℕ → String → Option (String × String)
cut k String.[] = none
cut k (String.◌∷◌ c s) =
    let rest = cut k s in if eqb (code c) k then some ("", s) else push_first c rest

pub contains-append :
    (k : ℕ) (s t : String) → contains_char k (s ++ t) ≡ (contains_char k s || contains_char k t)
unfolding contains_char
contains-append k String.[] t = rw (append.nil t) refl
contains-append k (String.◌∷◌ c s) t =
    rw (append.cons c s t) (ground (arith, contains-append k s t))

pub cut_first :
    (c : Char) (s t : String)
    → contains_char (code c) s ≡ false
    → cut (code c) (s ++ String.◌∷◌ c t) ≡ some (s, t)
unfolding contains_char cut
cut_first c String.[] t h = rw (append.nil (String.◌∷◌ c t)) (ground arith)
cut_first c (String.◌∷◌ d s) t h =
    rw (append.cons d s (String.◌∷◌ c t)) (ground (arith, cut_first c s t))

one_of : (ps : List String) → 1 ≤ length ps → (p : String) × (rest : List String) × (ps ≡ p ∷ rest)
one_of [] h = absurd (ground arith)
one_of (p ∷ rest) h = (p, rest, refl)

nothing_joined : (c : Char) → join c (split_at_char (code c) "") ≡ ""
unfolding join split_at_char
nothing_joined c = refl

split_cons :
    (k : ℕ) (s : String)
    → (piece : String) × (pieces : List String) × (split_at_char k s ≡ piece ∷ pieces)
split_cons k s = one_of (split_at_char k s) (ground (arith, length-split_ge k s))

split_here :
    (k : ℕ) (d : Char) (s : String)
    → eqb (code d) k ≡ true
    → split_at_char k (String.◌∷◌ d s) ≡ "" ∷ split_at_char k s
unfolding split_at_char
split_here k d s e = ground arith

split_later :
    (k : ℕ) (d : Char) (s piece : String) (pieces : List String)
    → eqb (code d) k ≡ false
    → split_at_char k s ≡ piece ∷ pieces
    → split_at_char k (String.◌∷◌ d s) ≡ String.◌∷◌ d piece ∷ pieces
unfolding split_at_char
split_later k d s piece pieces e h = ground arith

join_push :
    (c d : Char) (piece : String) (pieces : List String)
    → join c (String.◌∷◌ d piece ∷ pieces) ≡ String.◌∷◌ d (join c (piece ∷ pieces))
unfolding join
join_push c d piece [] = refl
join_push c d piece (next ∷ pieces) = append.cons d piece (String.◌∷◌ c (join c (next ∷ pieces)))

join_empty :
    (c : Char) (piece : String) (pieces : List String)
    → join c ("" ∷ piece ∷ pieces) ≡ String.◌∷◌ c (join c (piece ∷ pieces))
unfolding join
join_empty c piece pieces = append.nil (String.◌∷◌ c (join c (piece ∷ pieces)))

-- A join puts together what a split took apart.
pub join-split : (c : Char) (s : String) → join c (split_at_char (code c) s) ≡ s
join-split c String.[] = nothing_joined c
join-split c (String.◌∷◌ d s) =
    let (piece, pieces, e) = split_cons (code c) s in
    let whole = sym (ap (join c) e) ∙ join-split c s in
    elim (Bool-cases (eqb (code d) (code c))) [
      | inl same ↦
          rw (split_here (code c) d s same, e)
            (join_empty c piece pieces
              ∙ rw (whole, Char-path d c ((eqb_iff (code d) (code c)).0 same)) refl)
      | inr other ↦
          rw (split_later (code c) d s piece pieces other e)
            (join_push c d piece pieces ∙ ap (String.◌∷◌ d) whole)
    ]

-- A text of one character in front.
pub one_char : (c : Char) (t : String) → String.◌∷◌ c "" ++ t ≡ String.◌∷◌ c t
one_char c t = append.cons c "" t ∙ ap (String.◌∷◌ c) (append.nil t)

pub two_chars :
    (c d : Char) (t : String) → String.◌∷◌ c (String.◌∷◌ d "") ++ t ≡ String.◌∷◌ c (String.◌∷◌ d t)
two_chars c d t = append.cons c (String.◌∷◌ d "") t ∙ ap (String.◌∷◌ c) (one_char d t)

pub split_nothing : (k : ℕ) → split_at_char k "" ≡ "" ∷ []
unfolding split_at_char
split_nothing k = refl

-- A list of two or more texts.
two_of :
    (ps : List String)
    → 2 ≤ length ps
    → (a : String) × (b : String) × (rest : List String) × (ps ≡ a ∷ b ∷ rest)
two_of [] h = absurd (ground arith)
two_of (a ∷ []) h = absurd (ground arith)
two_of (a ∷ b ∷ rest) h = (a, b, rest, refl)

-- A text with a separator splits into two pieces or more.
pub pieces_of :
    (k : ℕ) (s : String)
    → contains_char k s ≡ true
    → (a : String) × (b : String) × (rest : List String) × (split_at_char k s ≡ a ∷ b ∷ rest)
pieces_of k s h = two_of (split_at_char k s) (ground (arith, length-split_ge k s))
