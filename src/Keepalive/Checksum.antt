-- ===== src/Keepalive/Checksum.antt =====
-- internal/nexodus/keepalive.go: cksum is the Internet checksum.
use nexodus.Prelude.{
  ℕ, ◌+◌, ◌*◌, ◌%◌, ◌<◌, ◌≤◌, ◌≡◌, ◌∙◌, inl, inr, List, [], ◌∷◌, length, Every, eqb, eqb_iff,
  Bool-cases, arith,
}
use nexodus.Keepalive.{u32, add_words, fold_carry, finish, cksum}

-- The exact sum of the 16-bit words, the last one filled with a zero byte.
abbrev pub word_sum : List ℕ → ℕ
word_sum [] = 0
word_sum (a ∷ []) = a * 256
word_sum (a ∷ b ∷ bs) = a * 256 + b + word_sum bs

abbrev pub IsByte : ℕ → Type 0
IsByte b = b < 256

word_sum-le : (bs : List ℕ) → Every bs IsByte → 2 * word_sum bs ≤ 65535 * (length bs + 1)
word_sum-le [] h = omega arith
word_sum-le (a ∷ []) (p, h) = omega arith
word_sum-le (a ∷ b ∷ bs) (p, (q, h)) = omega (arith, word_sum-le bs h)

add_words-exact :
    (bs : List ℕ) (acc : ℕ) → acc + word_sum bs < 4294967296 → add_words acc bs ≡ acc + word_sum bs
unfolding add_words
add_words-exact [] acc h = omega arith
add_words-exact (a ∷ []) acc h = omega arith
add_words-exact (a ∷ b ∷ bs) acc h =
    let exact : u32 (u32 (acc + u32 (a * 256)) + b) ≡ acc + a * 256 + b = omega arith in
    rw exact (add_words-exact bs (acc + a * 256 + b) (omega arith) ∙ omega arith)

fold_carry_lem :
    (s : ℕ)
    → s < 4294967296
    → (fold_carry (fold_carry s) ≤ 65535) × (fold_carry (fold_carry s) % 65535 ≡ s % 65535)
fold_carry_lem s h = (omega arith, omega arith)

finish_lem :
    (s f : ℕ)
    → f ≤ 65535
    → f % 65535 ≡ s % 65535
    → ((s + finish f) % 65535 ≡ 0) × (0 < finish f) × (finish f ≤ 65535)
unfolding finish
finish_lem s f b m = elim (Bool-cases (eqb f 65535)) [
  | inl e ↦
      (let top : f ≡ 65535 = (eqb_iff f 65535).0 e in rw e (omega arith, omega arith, omega arith))
  | inr e ↦ (let below : f < 65535 = ground arith in rw e (omega arith, omega arith, omega arith))
]

-- For fewer than 131072 bytes, cksum is the Internet checksum: added to the exact sum of the
-- 16-bit words (a last single byte is filled with zero) it gives a multiple of 65535, and it lies
-- between 1 and 65535.
pub cksum_lem :
    (bs : List ℕ)
    → Every bs IsByte
    → length bs < 131072
    → ((word_sum bs + cksum bs) % 65535 ≡ 0) × (0 < cksum bs) × (cksum bs ≤ 65535)
unfolding cksum
cksum_lem bs h short =
    let exact : add_words 0 bs ≡ word_sum bs =
      add_words-exact bs 0 (omega (arith, word_sum-le bs h)) ∙ omega arith in
    let (small, same) = fold_carry_lem (word_sum bs) (omega (arith, word_sum-le bs h)) in
    rw exact (finish_lem (word_sum bs) (fold_carry (fold_carry (word_sum bs))) small same)
