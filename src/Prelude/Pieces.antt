-- ===== src/Prelude/Pieces.antt =====
-- Go's `strings`: `Contains` and `Split` with a separator of one ASCII character, `Join`, and
-- `TrimSpace`.
use Prim.Native.Nat.{ℕ, ◌≤◌}
use Prim.Native.Char.{Char, code}
use Prim.Native.String.{String, ◌++◌}
use Prim.Native.String.append
use mathlib.Core.Path.{◌≡◌, refl, ap, ◌∙◌}
use mathlib.Core.Bool.{Bool, false, ◌&&◌, ◌||◌}
use mathlib.Core.List.{List, [], ◌∷◌}
use native.Mathlib.Omega.{arith}
use nexodus.Prelude.Tests.{eqb, leb, if◌then◌else◌}
use nexodus.Prelude.Lists.{length, Every}

unfoldable pub contains_char : ℕ → String → Bool
contains_char k String.[] = false
contains_char k (String.◌∷◌ c s) = eqb (code c) k || contains_char k s

-- The first piece, with one more text in front.
abbrev onto_first : (String → String) → List String → List String
onto_first f [] = f "" ∷ []
onto_first f (piece ∷ pieces) = f piece ∷ pieces

unfoldable pub split_at_char : ℕ → String → List String
split_at_char k String.[] = "" ∷ []
split_at_char k (String.◌∷◌ c s) =
    let pieces = split_at_char k s in
    if eqb (code c) k then "" ∷ pieces else onto_first (String.◌∷◌ c) pieces

-- A split gives at least one piece, and at least two if the separator occurs.
length-onto_first :
    (f : String → String) (pieces : List String) → length pieces ≤ length (onto_first f pieces)
length-onto_first f [] = omega arith
length-onto_first f (piece ∷ pieces) = omega arith

pub length-split_ge :
    (k : ℕ) (s : String) → (if contains_char k s then 2 else 1) ≤ length (split_at_char k s)
unfolding contains_char split_at_char
length-split_ge k String.[] = omega arith
length-split_ge k (String.◌∷◌ c s) =
    ground (arith, length-split_ge k s, length-onto_first (String.◌∷◌ c) (split_at_char k s))

-- `unicode.IsSpace`.
abbrev is_space : ℕ → Bool
is_space c =
    (leb 9 c && leb c 13)
    || eqb c 32
    || eqb c 133
    || eqb c 160
    || eqb c 5760
    || (leb 8192 c && leb c 8202)
    || eqb c 8232
    || eqb c 8233
    || eqb c 8239
    || eqb c 8287
    || eqb c 12288

abbrev trim_left : String → String
trim_left String.[] = ""
trim_left (String.◌∷◌ c s) =
    let rest = trim_left s in if is_space (code c) then rest else String.◌∷◌ c s

abbrev push_char : Char → String → String
push_char c String.[] = if is_space (code c) then "" else String.◌∷◌ c ""
push_char c s = String.◌∷◌ c s

abbrev trim_right : String → String
trim_right String.[] = ""
trim_right (String.◌∷◌ c s) = push_char c (trim_right s)

unfoldable pub trim_space : String → String
trim_space s = trim_right (trim_left s)

trim_space_runs : trim_space " \ta b\n " ≡ "a b"
unfolding trim_space
trim_space_runs = refl

split_at_char_runs : split_at_char b'-' "10.0.0.1-10.0.0.9" ≡ "10.0.0.1" ∷ "10.0.0.9" ∷ []
unfolding split_at_char
split_at_char_runs = refl

-- `strings.Join`, with a separator of one character.
unfoldable pub join : Char → List String → String
join c [] = ""
join c (piece ∷ []) = piece
join c (piece ∷ pieces) = piece ++ String.◌∷◌ c (join c pieces)

split_clean : (k : ℕ) (s : String) → contains_char k s ≡ false → split_at_char k s ≡ s ∷ []
unfolding contains_char split_at_char
split_clean k String.[] h = refl
split_clean k (String.◌∷◌ c s) h = ground (arith, split_clean k s)

split_at_sep :
    (c : Char) (t : String)
    → split_at_char (code c) (String.◌∷◌ c t) ≡ "" ∷ split_at_char (code c) t
unfolding split_at_char
split_at_sep c t = ground arith

split_past :
    (k : ℕ) (d : Char) (s t piece : String) (pieces : List String)
    → contains_char k (String.◌∷◌ d s) ≡ false
    → split_at_char k t ≡ piece ∷ pieces
    → split_at_char k (String.◌∷◌ d t) ≡ String.◌∷◌ d piece ∷ pieces
unfolding contains_char split_at_char
split_past k d s t piece pieces h e = ground arith

contains_tail :
    (k : ℕ) (d : Char) (s : String)
    → contains_char k (String.◌∷◌ d s) ≡ false
    → contains_char k s ≡ false
unfolding contains_char
contains_tail k d s h = ground arith

-- A separator between texts, the first of them without it.
pub split_front :
    (s t : String) (c : Char)
    → contains_char (code c) s ≡ false
    → split_at_char (code c) (s ++ String.◌∷◌ c t) ≡ s ∷ split_at_char (code c) t
split_front String.[] t c h = rw (append.nil (String.◌∷◌ c t)) (split_at_sep c t)
split_front (String.◌∷◌ d s) t c h = rw (append.cons d s (String.◌∷◌ c t)) (
    split_past (code c) d s (s ++ String.◌∷◌ c t) s (split_at_char (code c) t) h
      (split_front s t c (contains_tail (code c) d s h)))

-- A split takes apart what a join put together.
pub split-join :
    (c : Char) (piece : String) (pieces : List String)
    → contains_char (code c) piece ≡ false
    → Every pieces (λ p. contains_char (code c) p ≡ false)
    → split_at_char (code c) (join c (piece ∷ pieces)) ≡ piece ∷ pieces
unfolding join
split-join c piece [] h hs = split_clean (code c) piece h
split-join c piece (next ∷ pieces) h (h', hs) =
    split_front piece (join c (next ∷ pieces)) c h
    ∙ ap (λ ps. piece ∷ ps) (split-join c next pieces h' hs)
