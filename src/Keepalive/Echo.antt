-- ===== src/Keepalive/Echo.antt =====
-- internal/nexodus/keepalive.go: echo requests, the replies that are taken for theirs, and the loop.
use nexodus.Prelude.{
  ℕ, suc, ◌+◌, ◌*◌, ◌%◌, ◌≤◌, ◌≡◌, ◌↔◌, refl, sym, ap, ◌∙◌, String, Bool, true, false, Option, none,
  some, List, [], ◌∷◌, ◌++◌, length, get_elem?, Every, eqb_iff, arith,
}
use nexodus.Keepalive.{
  cksum, message, request, byte_at, word_at, offset, is_reply, Pinged, ping_error, latency,
  ping_loop, ping, run_probe, KeepaliveStatus,
}
use nexodus.Keepalive.Checksum.{word_sum, IsByte, cksum_lem}

-- The message with a checksum in it, and the words of the message without.
message-sum :
    (v6 : Bool) (i sum : ℕ)
    → sum ≤ 65535
    → word_sum (message v6 i sum) ≡ word_sum (message v6 i 0) + sum
unfolding message
message-sum v6 i sum h = omega arith

message-bytes : (v6 : Bool) (i : ℕ) → Every (message v6 i 0) IsByte
unfolding message
message-bytes true i = omega arith
message-bytes false i = omega arith

-- The bytes of a reply that carries what the request carried, after its header.
echoed :
    (v6 : Bool) (i sum : ℕ)
    → word_at (message v6 i sum) 4 * 65536 + word_at (message v6 i sum) 6 ≡ i % 4294967296
unfolding message
echoed v6 i sum = omega arith

message-length : (v6 : Bool) (i sum : ℕ) → length (message v6 i sum) ≡ 64
unfolding message
message-length v6 i sum = refl

pub request-sum :
    (v6 : Bool) (i : ℕ) → (word_sum (request v6 i) % 65535 ≡ 0) × (length (request v6 i) ≡ 64)
unfolding request
request-sum v6 i =
    let (valid, pos, small) =
      cksum_lem (message v6 i 0) (message-bytes v6 i) (omega (arith, message-length v6 i 0)) in
    (
      ap (λ n. n % 65535) (message-sum v6 i (cksum (message v6 i 0)) small) ∙ valid,
      message-length v6 i (cksum (message v6 i 0)),
    )

get_elem?-append : (hs bs : List ℕ) (k : ℕ) → get_elem? (hs ++ bs) (length hs + k) ≡ get_elem? bs k
get_elem?-append [] bs k = let e : 0 + k ≡ k = omega arith in rw e refl
get_elem?-append (h ∷ hs) bs k =
    let e : suc (length hs) + k ≡ suc (length hs + k) = omega arith in
    rw e (get_elem?-append hs bs k)

byte_or_zero : Option ℕ → ℕ
byte_or_zero o = elim o [ some b ↦ b | none ↦ 0 ]

byte_at-append : (hs bs : List ℕ) (k : ℕ) → byte_at (hs ++ bs) (length hs + k) ≡ byte_at bs k
unfolding byte_or_zero
byte_at-append hs bs k = ap byte_or_zero (get_elem?-append hs bs k)

word_at-append : (hs bs : List ℕ) (k : ℕ) → word_at (hs ++ bs) (length hs + k) ≡ word_at bs k
word_at-append hs bs k = omega (
  arith,
  byte_at-append hs bs k,
  ap (byte_at (hs ++ bs)) {x = length hs + k + 1} {y = length hs + (k + 1)} (omega arith),
  byte_at-append hs bs (k + 1),
)

-- A packet that has the bytes of request j after its header is taken for the reply to ping i
-- exactly if i is j modulo 2^32.
pub is_reply-request :
    (v6 : Bool) (i j : ℕ) (header : List ℕ)
    → length header ≡ offset v6
    → (is_reply v6 i (header ++ request v6 j) ≡ true) ↔ (j % 4294967296 ≡ i)
unfolding is_reply request
is_reply-request v6 i j header size =
    let m = message v6 j (cksum (message v6 j 0)) in
    let id : word_at (header ++ m) (offset v6 + 4) ≡ word_at m 4 =
      ap (λ n. word_at (header ++ m) (n + 4)) (sym size) ∙ word_at-append header m 4 in
    let seq : word_at (header ++ m) (offset v6 + 6) ≡ word_at m 6 =
      ap (λ n. word_at (header ++ m) (n + 6)) (sym size) ∙ word_at-append header m 6 in
    let read : word_at (header ++ m) (offset v6 + 4) * 65536 + word_at (header ++ m) (offset v6 + 6)
        ≡ j % 4294967296 =
      ap (λ n. n * 65536 + word_at (header ++ m) (offset v6 + 6)) id
      ∙ ap (λ n. word_at m 4 * 65536 + n) seq
      ∙ echoed v6 j (cksum (message v6 j 0)) in
    (λ h. sym read ∙ (eqb_iff _ i).0 h, λ h. (eqb_iff _ i).1 (read ∙ h))

ping_two :
    (a b : Pinged) (do_ping : ℕ → Pinged) (s : KeepaliveStatus)
    → do_ping 1 ≡ a
    → do_ping 2 ≡ b
    → (l : String)
    → ((run_probe do_ping s).is_reachable ≡ true) × ((run_probe do_ping s).latency_text ≡ l)
      ↔ ((k : String) × (a ≡ latency k)) × (b ≡ latency l)
unfolding run_probe ping ping_loop
ping_two (ping_error e) b do_ping s p q l =
    rw p (λ h. absurd (ground arith), λ h. absurd (ground arith))
ping_two (latency k) (ping_error e) do_ping s p q l =
    rw p (rw q (λ h. absurd (ground arith), λ h. absurd (ground arith)))
ping_two (latency k) (latency k') do_ping s p q l =
    rw p (rw q (λ h. ((k, refl), ap latency h.1), λ h. (refl, ground arith)))

-- A probe reports a peer as reachable with a latency exactly if both of its pings are answered,
-- the second with that latency.
pub run_probe-reachable :
    (do_ping : ℕ → Pinged) (s : KeepaliveStatus) (l : String)
    → ((run_probe do_ping s).is_reachable ≡ true) × ((run_probe do_ping s).latency_text ≡ l)
      ↔ ((k : String) × (do_ping 1 ≡ latency k)) × (do_ping 2 ≡ latency l)
run_probe-reachable do_ping s l = ping_two (do_ping 1) (do_ping 2) do_ping s refl refl l
