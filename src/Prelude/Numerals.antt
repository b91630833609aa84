-- ===== src/Prelude/Numerals.antt =====
-- `strconv.Atoi` after `strconv.Itoa`.
use Prim.Native.Nat.{ℕ, zero, suc, ◌+◌, ◌*◌, ◌-◌, ◌/◌, ◌%◌, ◌<◌, ◌^◌}
use Prim.Native.Char.{code}
use Prim.Native.String.{String, ◌++◌}
use Prim.Native.String.append
use mathlib.Core.Path.{◌≡◌, refl, sym, ap, ◌∙◌}
use mathlib.Core.Logic.{◌≢◌, inl, inr}
use mathlib.Core.Bool.{Bool, false, ◌&&◌}
use mathlib.Core.Option.{Option, none, some}
use native.Mathlib.Omega.{arith}
use text.Mathlib.TextLemmas.{append-eq-nil_iff}
use nexodus.Prelude.Tests.{eqb, ltb, leb, if◌then◌else◌, Bool-cases, eq_of_some}
use nexodus.Prelude.Text.{itoa, digits, digit}
use nexodus.Prelude.Integers.{ℤ, pos, negsuc}
use nexodus.Prelude.Pieces.{contains_char}

abbrev is_digit : ℕ → Bool
is_digit c = leb b'0' c && leb c b'9'

-- The digits of a text, behind a number that was read already.
abbrev read_digits : ℕ → String → Option ℕ
read_digits acc String.[] = some acc
read_digits acc (String.◌∷◌ c s) =
    if is_digit (code c) then read_digits (acc * 10 + (code c - b'0')) s else none

abbrev pub read_number : String → Option ℕ
read_number String.[] = none
read_number (String.◌∷◌ c s) = read_digits 0 (String.◌∷◌ c s)

-- The numbers of `n` bits and a sign have an absolute value below the limit.
abbrev pub below : ℕ → Option ℕ → (ℕ → ℤ) → Option ℤ
below limit none f = none
below limit (some n) f = if ltb n limit then some (f n) else none

abbrev negate : ℕ → ℤ
negate zero = pos 0
negate (suc n) = negsuc n

-- `strconv.Atoi`, on a machine of 64 bits.
unfoldable pub atoi : String → Option ℤ
atoi String.[] = none
atoi (String.◌∷◌ c s) =
    if eqb (code c) b'-'
    then below (2 ^ 63 + 1) (read_number s) negate
    else if eqb (code c) b'+'
    then below (2 ^ 63) (read_number s) pos
    else below (2 ^ 63) (read_digits 0 (String.◌∷◌ c s)) pos

atoi_runs : atoi "-12" ≡ some (negsuc 11)
unfolding atoi
atoi_runs = refl

abbrev read_on : Option ℕ → String → Option ℕ
read_on none t = none
read_on (some a) t = read_digits a t

read-append : (acc : ℕ) (s t : String) → read_digits acc (s ++ t) ≡ read_on (read_digits acc s) t
read-append acc String.[] t = rw (append.nil t) refl
read-append acc (String.◌∷◌ c s) t =
    rw (append.cons c s t) (ground (arith, read-append (acc * 10 + (code c - b'0')) s t))

read_digit : (a d : ℕ) → d < 10 → read_digits a (digit d) ≡ some (a * 10 + d)
read_digit a zero h = refl
read_digit a (suc zero) h = refl
read_digit a (suc (suc zero)) h = refl
read_digit a (suc (suc (suc zero))) h = refl
read_digit a (suc (suc (suc (suc zero)))) h = refl
read_digit a (suc (suc (suc (suc (suc zero))))) h = refl
read_digit a (suc (suc (suc (suc (suc (suc zero)))))) h = refl
read_digit a (suc (suc (suc (suc (suc (suc (suc zero))))))) h = refl
read_digit a (suc (suc (suc (suc (suc (suc (suc (suc zero)))))))) h = refl
read_digit a (suc (suc (suc (suc (suc (suc (suc (suc (suc zero))))))))) h = refl
read_digit a (suc (suc (suc (suc (suc (suc (suc (suc (suc (suc d)))))))))) h = absurd (ground arith)

read-itoa_at : (f n : ℕ) → n < f → read_digits 0 (digits f n) ≡ some n
unfolding digits
read-itoa_at zero n h = absurd (ground arith)
read-itoa_at (suc f) n h = elim (Bool-cases (ltb n 10)) [
  | inl e ↦ rw e (read_digit 0 n (ground arith) ∙ ap some (omega arith))
  | inr e ↦
      rw
        (
          e,
          read-append 0 (digits f (n / 10)) (digit (n % 10)),
          read-itoa_at f (n / 10) (ground arith),
        )
        (read_digit (n / 10) (n % 10) (omega arith) ∙ ap some (omega arith))
]

-- A text of digits has no other character.
pub digits_only :
    (k acc n : ℕ) (s : String)
    → is_digit k ≡ false
    → read_digits acc s ≡ some n
    → contains_char k s ≡ false
unfolding contains_char
digits_only k acc n String.[] e h = refl
digits_only k acc n (String.◌∷◌ c s) e h =
    ground (arith, digits_only k (acc * 10 + (code c - b'0')) n s e)

digit_not_empty : (d : ℕ) → d < 10 → digit d ≢ ""
digit_not_empty d h e =
    absurd (omega (arith, eq_of_some (sym (read_digit 5 d h) ∙ ap (read_digits 5) e)))

itoa_not_empty : (f n : ℕ) → digits (suc f) n ≢ ""
unfolding digits
itoa_not_empty f n = elim (Bool-cases (ltb n 10)) [
  | inl e ↦ rw e (digit_not_empty n (ground arith))
  | inr e ↦ rw e (λ h.
      digit_not_empty (n % 10) (omega arith) ((append-eq-nil_iff {p = digits f (n / 10)}).0 h).1)
]

atoi_of_read :
    (s : String) (n : ℕ) → s ≢ "" → read_digits 0 s ≡ some n → n < 2 ^ 63 → atoi s ≡ some (pos n)
unfolding atoi
atoi_of_read String.[] n ne e h = absurd (ne refl)
atoi_of_read (String.◌∷◌ c s) n ne e h = ground arith

pub atoi-itoa : (n : ℕ) → n < 2 ^ 63 → atoi (itoa n) ≡ some (pos n)
unfolding itoa
atoi-itoa n h =
    atoi_of_read (digits (suc n) n) n (itoa_not_empty n n) (read-itoa_at (suc n) n (omega arith)) h

-- A numeral has no character that is not a digit.
pub contains-itoa : (k n : ℕ) → is_digit k ≡ false → contains_char k (itoa n) ≡ false
unfolding itoa
contains-itoa k n e = digits_only k 0 n (digits (suc n) n) e (read-itoa_at (suc n) n (omega arith))
