-- ===== src/Prelude/Text.antt =====
-- Texts that the code builds: joined pieces, and numbers that are not negative.
use Prim.Native.Nat.{ℕ, zero, suc, ◌/◌, ◌%◌}
use Prim.Native.String.{String, ◌++◌}
use mathlib.Core.List.{List, [], ◌∷◌}
use mathlib.Core.Path.{◌≡◌, refl}
use mathlib.Core.Logic.{◌≢◌}
use text.Mathlib.TextLemmas.{append-eq-nil_iff}
use nexodus.Prelude.Tests.{ltb, if◌then◌else◌}

-- `fmt.Sprintf` of texts: the pieces in order.
unfoldable pub concat : List String → String
concat [] = ""
concat (s ∷ rest) = s ++ concat rest

pub concat-ne_empty : (s t : String) (rest : List String) → t ≢ "" → concat (s ∷ t ∷ rest) ≢ ""
unfolding concat
concat-ne_empty s t rest ne e =
    ne ((append-eq-nil_iff {p = t}).0 ((append-eq-nil_iff {p = s}).0 e).1).0

abbrev pub digit : ℕ → String
digit zero = "0"
digit (suc zero) = "1"
digit (suc (suc zero)) = "2"
digit (suc (suc (suc zero))) = "3"
digit (suc (suc (suc (suc zero)))) = "4"
digit (suc (suc (suc (suc (suc zero))))) = "5"
digit (suc (suc (suc (suc (suc (suc zero)))))) = "6"
digit (suc (suc (suc (suc (suc (suc (suc zero))))))) = "7"
digit (suc (suc (suc (suc (suc (suc (suc (suc zero)))))))) = "8"
digit _ = "9"

-- One round of fuel writes one digit, so `suc n` rounds are enough for `n`.
unfoldable pub digits : ℕ → ℕ → String
digits zero n = ""
digits (suc f) n =
    let rest = digits f (n / 10) ++ digit (n % 10) in if ltb n 10 then digit n else rest

-- `strconv.Itoa`, and the verb `%d`.
unfoldable pub itoa : ℕ → String
unfolding digits
itoa n = digits (suc n) n

itoa_runs : itoa 65535 ++ itoa 0 ≡ "655350"
unfolding itoa
itoa_runs = refl
