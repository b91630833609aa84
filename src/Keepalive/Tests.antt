-- ===== src/Keepalive/Tests.antt =====
-- internal/nexodus/keepalive.go: a request, its reply and a probe, and the theorems at them.
use nexodus.Prelude.{◌+◌, ◌%◌, ◌<◌, ◌≤◌, ◌≡◌, refl, false, [], ◌∷◌, arith}
use nexodus.Keepalive.{cksum, add_words, finish, message}
use nexodus.Keepalive.Checksum.{word_sum, cksum_lem}

first_request : cksum (message false 1 0) ≡ 0xf7fe
unfolding cksum add_words finish message
first_request = refl

cksum_lem_example :
    ((word_sum (1 ∷ 2 ∷ 3 ∷ []) + cksum (1 ∷ 2 ∷ 3 ∷ [])) % 65535 ≡ 0)
    × (0 < cksum (1 ∷ 2 ∷ 3 ∷ []))
    × (cksum (1 ∷ 2 ∷ 3 ∷ []) ≤ 65535)
cksum_lem_example = cksum_lem (1 ∷ 2 ∷ 3 ∷ []) (omega arith) (omega arith)
